-- ===== src/BufferPool/Lifetime.antt =====
-- `init_buffer_pool` and `close_buffer_pool` of src/buffer_pool.c: what is in the pool when it is
-- closed is what a later run finds.
use simple_redis_database.Common.{
  ℕ, zero, suc, ◌+◌, ◌*◌, ◌^◌, ◌≤◌, ◌<◌, ◌≡◌, refl, ◌≢◌, Option, none, some, List, [], ◌∷◌, arith,
  ◌==◌, length, get_elem?, All, set, length-set, get_elem?-set_self, get_elem?-set_ne, replicate,
  map, Bool-cases, inl, inr, ==→eq, ==→ne, ne→==, sym, ap, ◌∙◌, false,
}
use simple_redis_database.FileIo.{minus_one, page_size, FileInfo, Stream, close_file}
use simple_redis_database.FileIo.Pages.{
  IsOpen, write_page-set, write_page-minus_one, open_file-IsOpen,
}
use simple_redis_database.BufferPool.{
  Slot, BufferPool, cache_page, write_back, init_buffer_pool, close_buffer_pool,
}
use simple_redis_database.BufferPool.Slots.{holders, cached, cached-none}
use simple_redis_database.BufferPool.Recency.{count, IsPacked}
use simple_redis_database.BufferPool.Cache.{IsValid, IsSlot, view, content}

abbrev pub whole : {P : Type 0} → List P → Stream P
whole pages = record { pages = pages; tail = 0; broken = false }

replicate-unused :
    (n : ℕ) → count minus_one (replicate n minus_one) ≡ length (replicate n minus_one)
unfolding count
replicate-unused zero = refl
replicate-unused (suc n) = omega (arith, replicate-unused n)

replicate-IsPacked : (n : ℕ) → IsPacked (replicate n minus_one)
replicate-IsPacked zero = tt
replicate-IsPacked (suc n) = (λ _. replicate-unused n, replicate-IsPacked n)

module _ {P : Type 0} where
  -- The file after the slots are written back.
  record Flushed (slots : List (Slot P)) (file : FileInfo P) (pages : List P) : Type 0 where
    after : FileInfo P
    disk : List P
    written : write_back slots file ≡ some after
    is_open : IsOpen after disk
    same_length : length disk ≡ length pages
    shows :
        (k : ℕ)
        → k < length pages
        → get_elem? disk k ≡ content (cached (page_size * k) slots) (get_elem? pages k)

  write_back-Flushed :
      (slots : List (Slot P)) (file : FileInfo P) (pages : List P)
      → IsOpen file pages
      → All (IsSlot (length pages)) slots
      → ((a : ℕ) → a ≢ minus_one → holders a slots ≤ 1)
      → Flushed slots file pages
  unfolding write_back cached content holders
  write_back-Flushed [] file pages o used once = record {
    after = file;
    disk = pages;
    written = refl;
    is_open = o;
    same_length = refl;
    shows = λ k lt. refl;
  }
  write_back-Flushed (s ∷ slots) file pages o used once = elim (Bool-cases (s.addr == minus_one)) [
    | inl e ↦
        let q = ==→eq s.addr minus_one e in
        let rest =
          write_back-Flushed slots file pages o used.1 (λ a ne. omega (arith, once a ne)) in
        record {
          after = rest.after;
          disk = rest.disk;
          written = rw (q, write_page-minus_one s.page file) rest.written;
          is_open = rest.is_open;
          same_length = rest.same_length;
          shows =
              λ k lt. rw (ne→== s.addr (page_size * k) (omega (arith, o.small))) (rest.shows k lt);
        }
    | inr e ↦
        let ne = ==→ne s.addr minus_one e in
        let (m, m_at, m_lt) = used.0.0 ne in
        let (file', stored, o', size) = write_page-set s.page s.addr m o m_at m_lt in
        let len = length-set pages m s.page in
        let rest =
          write_back-Flushed slots file' (set pages m s.page) o' (rw len used.1)
            (λ a ne. omega (arith, once a ne)) in
        record {
          after = rest.after;
          disk = rest.disk;
          written = rw stored rest.written;
          is_open = rest.is_open;
          same_length = rest.same_length ∙ len;
          shows = λ k lt.
              rest.shows k (omega (arith, len)) ∙ elim (Bool-cases (s.addr == page_size * k)) [
                | inl h ↦
                    let q = ==→eq s.addr (page_size * k) h in
                    let mk : m ≡ k = omega arith in
                    let none_held : holders (page_size * k) slots ≡ 0 =
                      ground (arith, once (page_size * k) (omega (arith, o.small))) in
                    rw (h, cached-none (page_size * k) slots none_held)
                      (ap (λ x. get_elem? (set pages m s.page) x) (sym mk)
                        ∙ get_elem?-set_self pages m s.page m_lt)
                | inr h ↦
                    let mk : m ≢ k =
                      λ q. ==→ne s.addr (page_size * k) h (m_at ∙ ap (λ a. page_size * a) q) in
                    rw (h, get_elem?-set_ne pages m k s.page mk)
              ];
        }
  ]

  -- Closing a valid pool succeeds and leaves on disk a file of whole pages, as many as before,
  -- that holds the contents of every page as the pool showed them.
  pub close_buffer_pool-view :
      (pool : BufferPool P) (pages : List P)
      → IsValid pool pages
      → (disk : List P) × (closed : BufferPool P) × (close_buffer_pool pool
          ≡ some (some (whole disk), closed))
        × (length disk ≡ length pages)
        × ((k : ℕ) → k < length pages → get_elem? disk k ≡ view pool pages k)
  unfolding close_buffer_pool close_file
  close_buffer_pool-view pool pages v =
      let f = write_back-Flushed pool.slots pool.file pages v.file v.in_file v.once in
      (
        f.disk,
        record pool { file = record { fp = none; length = 0 } },
        rw (f.written, f.is_open.fp),
        f.same_length,
        f.shows,
      )

  abbrev cleared : List (Slot P) → List (Slot P)
  cleared slots = map (λ (s : Slot P). record s { addr = minus_one; ref = 0 }) slots

  length-cleared : (slots : List (Slot P)) → length (cleared slots) ≡ length slots
  length-cleared [] = refl
  length-cleared (s ∷ slots) = ap suc (length-cleared slots)

  cleared-IsSlot : (n : ℕ) (slots : List (Slot P)) → All (IsSlot n) (cleared slots)
  cleared-IsSlot n [] = tt
  cleared-IsSlot n (s ∷ slots) = ((λ ne. absurd (ne refl), λ _. refl), cleared-IsSlot n slots)

  holders-cleared :
      (a : ℕ) (slots : List (Slot P)) (n : ℕ)
      → length slots ≡ n
      → holders a (cleared slots) ≡ count a (replicate n minus_one)
  unfolding holders count
  holders-cleared a [] zero e = refl
  holders-cleared a [] (suc n) e = absurd (omega arith)
  holders-cleared a (s ∷ slots) zero e = absurd (omega arith)
  holders-cleared a (s ∷ slots) (suc n) e = omega (arith, holders-cleared a slots n)

  holders-cleared_ne :
      (a : ℕ) (slots : List (Slot P)) → a ≢ minus_one → holders a (cleared slots) ≡ 0
  unfolding holders
  holders-cleared_ne a [] ne = refl
  holders-cleared_ne a (s ∷ slots) ne = ground (arith, holders-cleared_ne a slots ne)

  -- Opening a file of whole pages, small enough for an off_t, in a pool of CACHE_PAGE slots gives a
  -- valid pool that shows the pages of the file.
  pub init_buffer_pool-view :
      (disk : List P) (created : Option (Stream P)) (pool : BufferPool P)
      → page_size * length disk + page_size < 2 ^ 63
      → length pool.slots ≡ cache_page
      → IsValid (init_buffer_pool (some (whole disk)) created pool) disk
        × ((k : ℕ)
            → k < length disk
            → view (init_buffer_pool (some (whole disk)) created pool) disk k ≡ get_elem? disk k)
  unfolding init_buffer_pool content
  init_buffer_pool-view disk created pool small e = (
    record {
      file = open_file-IsOpen disk created pool.file small;
      slots = length-cleared pool.slots ∙ e;
      lru = refl;
      in_file = cleared-IsSlot (length disk) pool.slots;
      once = λ a ne. omega (arith, holders-cleared_ne a pool.slots ne);
      listed = λ a. sym (holders-cleared a pool.slots cache_page e);
      packed = replicate-IsPacked cache_page;
    },
    λ k lt. rw (
        cached-none (page_size * k) (cleared pool.slots)
          (holders-cleared_ne _ pool.slots (omega arith))),
  )
