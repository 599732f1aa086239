-- ===== src/BufferPool/GetPage.antt =====
-- `get_page` of src/buffer_pool.c returns the contents of the page that is asked for, and changes
-- the contents of no page: the cache is transparent.
use simple_redis_database.Common.{
  ℕ, zero, suc, ◌*◌, ◌≤◌, ◌<◌, ◌≡◌, refl, ◌≢◌, none, some, List, arith, ◌==◌, length, get_elem?,
  All-get, length-set, get_elem?-set_self, get_elem?-set_ne, Bool-cases, inl, inr, ==→eq, ==→ne,
  ne→==, get_or_lem, sym, ap, ◌∙◌, get_elem?_of_lt, get_or, Option-cases,
}
use simple_redis_database.FileIo.{minus_one, page_size}
use simple_redis_database.FileIo.Pages.{At, read_page-IsOpen, write_page-set}
use simple_redis_database.BufferPool.{
  Slot, BufferPool, cache_page, get_page, hit, fill, victim, evict, find, find_unpinned, index_of,
  incr,
}
use simple_redis_database.BufferPool.Slots.{
  holders, one_if, cached-none, cached_self, holders_pos, find-none, find-holds,
  find_unpinned-holds, find_unpinned_total, find_total, HasRoom,
}
use simple_redis_database.BufferPool.Recency.{
  index_of-holds, index_of_total, index_of-lt, last_unused,
}
use simple_redis_database.BufferPool.Cache.{IsValid, content, Gets}
use simple_redis_database.BufferPool.Replace.{replaced, replaced-Gets}

module _ {P : Type 0} (pool : BufferPool P) where
  victim-holds :
      (n i j : ℕ)
      → victim n pool ≡ some (i, j)
      → (i < n) × (find_unpinned (get_or pool.lru i minus_one) pool.slots ≡ some j)
  unfolding victim
  victim-holds zero i j h = cc
  victim-holds (suc n) i j h = ground (arith, victim-holds n i j)

  victim_total :
      (n i : ℕ)
      → i < n
      → find_unpinned (get_or pool.lru i minus_one) pool.slots ≢ none
      → victim n pool ≢ none
  unfolding victim
  victim_total zero i lt h = absurd (omega arith)
  victim_total (suc n) i lt h = elim (Bool-cases (i == n)) [
    | inl e ↦ let q = ==→eq i n e in ground arith
    | inr e ↦ ground (arith, victim_total n i)
  ]

module _ {P : Type 0} {pool : BufferPool P} {pages : List P} (v : IsValid pool pages) (n : ℕ)
    (n_lt : n < length pages) where
  ne_unused : (k : ℕ) → k < length pages → page_size * k ≢ minus_one
  ne_unused k lt = omega (arith, v.file.small)

  -- The pinned page stays what it was.
  hit-Gets :
      (i : ℕ) (s : Slot P)
      → get_elem? pool.slots i ≡ some s
      → At s.addr n
      → (after : BufferPool P) × (hit s.addr i s pool ≡ some (i, after)) × Gets pool pages n i after
  unfolding hit content
  hit-Gets i s at s_at =
      let lt_held = holders_pos pool.slots i s at in
      let ne : s.addr ≢ minus_one = omega (arith, v.file.small) in
      elim (Option-cases (index_of s.addr pool.lru)) [
        | inl e ↦ absurd (index_of_total s.addr pool.lru (omega (arith, v.listed s.addr)) e)
        | inr (j, e) ↦
            let t : Slot P = record s { ref = incr s.ref } in
            let recent = index_of-holds s.addr pool.lru j e in
            let new : holders t.addr pool.slots ≤ one_if (s.addr == t.addr) =
              ground (arith, v.once s.addr ne) in
            let held = cached_self pool.slots i s at (v.once s.addr ne) in
            (
              replaced v pool.file v.file refl i s t at j recent n s_at n_lt new,
              rw e,
              replaced-Gets v pool.file v.file refl i s t at j recent n s_at n_lt new
                  (rw (← s_at) (rw held)) (λ k lt other. ground arith) (λ pinned. (refl, refl)),
            )
      ]

  -- A page that is not cached is read into an unused slot.
  fill-Gets :
      (i : ℕ) (s : Slot P)
      → get_elem? pool.slots i ≡ some s
      → s.addr ≡ minus_one
      → holders (page_size * n) pool.slots ≡ 0
      → (after : BufferPool P) × (fill (page_size * n) i s pool ≡ some (i, after))
        × Gets pool pages n i after
  unfolding fill content
  fill-Gets i s at unused none_held =
      let (p, p_at) = get_elem?_of_lt pages n n_lt in
      let t : Slot P = record { page = p; addr = page_size * n; ref = incr s.ref } in
      let lt_held = holders_pos pool.slots i s at in
      let recent : get_elem? pool.lru 15 ≡ some s.addr =
        rw unused (
          last_unused 15 pool.lru v.packed v.lru
            (rw (← unused) (omega (arith, v.listed s.addr)))) in
      let new : holders t.addr pool.slots ≤ one_if (s.addr == t.addr) = omega (arith, none_held) in
      (
        replaced v pool.file v.file refl i s t at 15 recent n refl n_lt new,
        rw (read_page-IsOpen s.page p (page_size * n) n v.file refl p_at),
        replaced-Gets v pool.file v.file refl i s t at 15 recent n refl n_lt new
            (rw (cached-none (page_size * n) pool.slots none_held) p_at)
            (λ k lt other. rw (ne→== s.addr (page_size * k) (omega (arith, v.file.small))))
            (λ pinned. absurd (pinned ((All-get _ pool.slots i v.in_file at).1 unused))),
      )

  -- A page that is not cached takes the place of one that is cached and not pinned, and that one
  -- goes back to the file.
  evict-Gets :
      (i j : ℕ) (s : Slot P)
      → get_elem? pool.slots j ≡ some s
      → get_elem? pool.lru i ≡ some s.addr
      → s.addr ≢ minus_one
      → s.ref ≡ 0
      → holders (page_size * n) pool.slots ≡ 0
      → (after : BufferPool P) × (evict (page_size * n) i j s pool ≡ some (j, after))
        × Gets pool pages n j after
  unfolding evict content
  evict-Gets i j s at recent used idle none_held =
      let lt_held = holders_pos pool.slots j s at in
      let (m, m_at, m_lt) = (All-get _ pool.slots j v.in_file at).0 used in
      let differ : m ≢ n = λ e. absurd (
        omega
          (arith, none_held, ap (λ a. holders a pool.slots) (m_at ∙ ap (λ a. page_size * a) e))) in
      let (p, p_at) = get_elem?_of_lt pages n n_lt in
      let t : Slot P = record { page = p; addr = page_size * n; ref = incr s.ref } in
      let (file', written, o, size) = write_page-set s.page s.addr m v.file m_at m_lt in
      let p_at' = get_elem?-set_ne pages m n s.page differ ∙ p_at in
      let new : holders t.addr pool.slots ≤ one_if (s.addr == t.addr) = omega (arith, none_held) in
      let held = cached_self pool.slots j s at (v.once s.addr used) in
      let len = length-set pages m s.page in
      (
        replaced v file' o len j s t at i recent n refl n_lt new,
        rw (written, read_page-IsOpen s.page p (page_size * n) n o refl p_at'),
        replaced-Gets v file' o len j s t at i recent n refl n_lt new
            (rw (cached-none (page_size * n) pool.slots none_held) p_at)
            (λ k lt other. elim (Bool-cases (s.addr == page_size * k)) [
              | inl e ↦
                  let q = ==→eq s.addr (page_size * k) e in
                  let mk : m ≡ k = omega arith in
                  rw (e, ← q, held, ← mk) (get_elem?-set_self pages m s.page m_lt)
              | inr e ↦
                  let mk : m ≢ k =
                    λ q. ==→ne s.addr (page_size * k) e (m_at ∙ ap (λ a. page_size * a) q) in
                  rw (e, get_elem?-set_ne pages m k s.page mk)
            ])
            (λ pinned. absurd (pinned idle)),
      )

  evict_total :
      find (page_size * n) pool.slots ≡ none
      → find minus_one pool.slots ≡ none
      → (i : ℕ) (s : Slot P) → get_elem? pool.slots i ≡ some s
      → s.ref ≡ 0
      → victim cache_page pool ≢ none
  evict_total miss full i s at idle = elim (Option-cases (index_of s.addr pool.lru)) [
    | inl e ↦ absurd (
        index_of_total s.addr pool.lru
          (omega (arith, v.listed s.addr, holders_pos pool.slots i s at)) e)
    | inr (j, e) ↦
        let lt = index_of-lt s.addr pool.lru j e in
        let q : get_or pool.lru j minus_one ≡ s.addr =
          cc (get_or_lem pool.lru j minus_one lt, index_of-holds s.addr pool.lru j e) in
        victim_total pool cache_page j (omega (arith, v.lru))
          (rw q (find_unpinned_total pool.slots i s at idle))
  ]

  -- The conclusion of `get_page-Gets`.
  abbrev Returned : Type 0
  Returned =
      (i : ℕ) × (after : BufferPool P) × (get_page pool (page_size * n) ≡ some (i, after))
      × Gets pool pages n i after

  get_page-hit :
      (i : ℕ) (s : Slot P)
      → get_elem? pool.slots i ≡ some s
      → At s.addr n
      → find (page_size * n) pool.slots ≡ some i
      → Returned
  unfolding get_page
  get_page-hit i s at s_at e =
      let (after, q, g) = hit-Gets i s at s_at in
      (i, after, rw (e, get_page, at) (ap (λ a. hit a i s pool) (sym s_at) ∙ q), g)

  get_page-fill :
      (i : ℕ)
      → find (page_size * n) pool.slots ≡ none
      → find minus_one pool.slots ≡ some i
      → Returned
  unfolding get_page
  get_page-fill i miss e =
      let (s, at, unused) = find-holds minus_one pool.slots i e in
      let (after, q, g) = fill-Gets i s at unused (find-none _ pool.slots miss) in
      (i, after, rw (miss, get_page, e, at) q, g)

  get_page-evict :
      (i j : ℕ)
      → find (page_size * n) pool.slots ≡ none
      → find minus_one pool.slots ≡ none
      → victim cache_page pool ≡ some (i, j)
      → Returned
  unfolding get_page
  get_page-evict i j miss full e =
      let (lt, f) = victim-holds pool cache_page i j e in
      let (s, at, s_at, idle) = find_unpinned-holds _ pool.slots j f in
      let recent : get_elem? pool.lru i ≡ some s.addr =
        rw s_at (get_or_lem pool.lru i minus_one (omega (arith, v.lru))) in
      let used : s.addr ≢ minus_one = λ q. absurd (find_total pool.slots j s at (rw q full)) in
      let (after, q, g) = evict-Gets i j s at recent used idle (find-none _ pool.slots miss) in
      (j, after, rw (miss, get_page, full, e, at) q, g)

  -- On a valid pool, if the page is cached or some slot is not pinned, get_page returns the slot of
  -- the page with the contents that the page had, keeps the contents of every page and what each
  -- pinned slot holds, and keeps the pool valid.
  pub get_page-Gets : HasRoom (page_size * n) pool.slots → Returned
  get_page-Gets (i, s, at, room) = elim (Option-cases (find (page_size * n) pool.slots)) [
    | inr (k, e) ↦ let (t, t_at, held) = find-holds _ pool.slots k e in get_page-hit k t t_at held e
    | inl miss ↦ elim (Option-cases (find minus_one pool.slots)) [
      | inr (k, e) ↦ get_page-fill k miss e
      | inl full ↦ elim (Option-cases (victim cache_page pool)) [
        | inr ((a, b), e) ↦ get_page-evict a b miss full e
        | inl e ↦ elim room [
          | inl held ↦ absurd (find_total pool.slots i s at (rw held miss))
          | inr idle ↦ absurd (evict_total miss full i s at idle e)
        ]
      ]
    ]
  ]
