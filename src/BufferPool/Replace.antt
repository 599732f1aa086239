-- ===== src/BufferPool/Replace.antt =====
-- One slot of the pool of src/buffer_pool.c is given another page, or another count, and its
-- address goes to the front of the LRU order: what `get_page` does in each of its three cases.
use simple_redis_database.Common.{
  ℕ, ◌*◌, ◌≤◌, ◌<◌, ◌≡◌, refl, ◌≢◌, none, some, List, arith, ◌==◌, length, get_elem?, All-set, set,
  length-set, get_elem?-lt, get_elem?-set_self, get_elem?-set_ne, if◌then◌else◌, Bool-cases, inl,
  inr, ==→eq, ==→ne, sym, ap, ◌∙◌,
}
use simple_redis_database.FileIo.{minus_one, page_size, FileInfo}
use simple_redis_database.FileIo.Pages.{IsOpen, At}
use simple_redis_database.BufferPool.{Slot, BufferPool, to_front}
use simple_redis_database.BufferPool.Slots.{holders, cached, one_if, holders-set, cached-set}
use simple_redis_database.BufferPool.Recency.{
  count, count-remove_at, length-remove_at, remove_at-IsPacked,
}
use simple_redis_database.BufferPool.Cache.{IsValid, view, content, Gets}

module _ {P : Type 0} {pool : BufferPool P} {pages pages' : List P} (v : IsValid pool pages)
    (file' : FileInfo P) (o : IsOpen file' pages') (same_length : length pages' ≡ length pages)
    (i : ℕ) (s t : Slot P) (at : get_elem? pool.slots i ≡ some s) (j : ℕ)
    (recent : get_elem? pool.lru j ≡ some s.addr) (n : ℕ) (t_at : At t.addr n)
    (n_lt : n < length pages) (new : holders t.addr pool.slots ≤ one_if (s.addr == t.addr)) where
  abbrev pub replaced : BufferPool P
  replaced = record { file = file'; slots = set pool.slots i t; lru = to_front j t.addr pool.lru }

  pub ne_unused : t.addr ≢ minus_one
  ne_unused = omega (arith, v.file.small)

  pub once : (a : ℕ) → a ≢ minus_one → holders a (set pool.slots i t) ≤ 1
  once a ne = ground (arith, v.once a ne, holders-set a pool.slots i s t at)

  pub replaced-IsValid : IsValid replaced pages'
  unfolding to_front count
  replaced-IsValid = record {
    file = o;
    slots = omega (arith, length-set pool.slots i t, v.slots);
    lru = omega (arith, length-remove_at j pool.lru (get_elem?-lt pool.lru j recent), v.lru);
    in_file =
        rw same_length
          (All-set _ pool.slots i t v.in_file (λ ne. (n, t_at, n_lt), λ e. absurd (ne_unused e)));
    once = once;
    listed = λ a. omega (
      arith,
      v.listed a,
      holders-set a pool.slots i s t at,
      count-remove_at a j pool.lru s.addr recent,
    );
    packed = (λ e. absurd (ne_unused e), remove_at-IsPacked j pool.lru v.packed);
  }

  -- What the slots hold afterwards, seen through the addresses.
  pub cached-replaced :
      (a : ℕ)
      → a ≢ minus_one
      → cached a (set pool.slots i t)
        ≡ (if t.addr == a then some t.page else if s.addr == a then none else cached a pool.slots)
  cached-replaced a ne = cached-set a pool.slots i s t at (v.once a ne) (once a ne)

  module _ (shows : view pool pages n ≡ some t.page)
      (kept : (k : ℕ)
        → k < length pages
        → page_size * k ≢ t.addr
        → content
            (if s.addr == page_size * k then none else cached (page_size * k) pool.slots)
            (get_elem? pages' k)
          ≡ view pool pages k) where
    view-replaced : (k : ℕ) → k < length pages → view replaced pages' k ≡ view pool pages k
    unfolding content
    view-replaced k lt = elim (Bool-cases (t.addr == page_size * k)) [
      | inl e ↦
          let q : k ≡ n = omega (arith, ==→eq t.addr (page_size * k) e) in
          rw (cached-replaced (page_size * k) (omega (arith, v.file.small)), e)
            (sym shows ∙ ap (λ m. view pool pages m) (sym q))
      | inr e ↦
          rw (cached-replaced (page_size * k) (omega (arith, v.file.small)), e)
            (kept k lt (λ q. ==→ne _ _ e (sym q)))
    ]

    pub replaced-Gets :
        (s.ref ≢ 0 → (t.addr ≡ s.addr) × (t.page ≡ s.page)) → Gets pool pages n i replaced
    replaced-Gets pin = record {
      disk = pages';
      valid = replaced-IsValid;
      same_length = same_length;
      slot = t;
      at = get_elem?-set_self pool.slots i t (get_elem?-lt pool.slots i at);
      addr = t_at;
      shows = shows;
      same = view-replaced;
      pinned = λ k u k_at ne. elim (Bool-cases (i == k)) [
        | inl e ↦
            let q : i ≡ k = ==→eq i k e in
            let e' : s ≡ u = cc (ap (λ m. get_elem? pool.slots m) q) in
            let p = pin (rw e' ne) in
            (
              t,
              rw (← q) (get_elem?-set_self pool.slots i t (get_elem?-lt pool.slots i at)),
              p.0 ∙ ap (λ (w : Slot P). w.addr) e',
              p.1 ∙ ap (λ (w : Slot P). w.page) e',
            )
        | inr e ↦ (u, get_elem?-set_ne pool.slots i k t (==→ne i k e) ∙ k_at, refl, refl)
      ];
    }
