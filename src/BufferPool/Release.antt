-- ===== src/BufferPool/Release.antt =====
-- `release` of src/buffer_pool.c, a store through a page pointer, and the life of a pool.
use simple_redis_database.Common.{
  ℕ, ◌-◌, ◌*◌, ◌^◌, ◌<◌, ◌≡◌, refl, ◌≢◌, some, List, arith, ◌==◌, length, get_elem?, All-set,
  All-get, set, length-set, get_elem?-lt, get_elem?-set_self, if◌then◌else◌, Bool-cases, inl, inr,
  ==→eq, sym, ◌∙◌,
}
use simple_redis_database.FileIo.{minus_one, page_size}
use simple_redis_database.FileIo.Pages.{At}
use simple_redis_database.BufferPool.{Slot, BufferPool, find, decr, release, store}
use simple_redis_database.BufferPool.Slots.{
  holders, cached, holders-set, cached-set, cached_self, find_unique,
}
use simple_redis_database.BufferPool.Cache.{IsValid, view, content}

module _ {P : Type 0} {pool : BufferPool P} {pages : List P} (v : IsValid pool pages) (i : ℕ)
    (s t : Slot P) (at : get_elem? pool.slots i ≡ some s) (same_addr : t.addr ≡ s.addr)
    (used : s.addr ≢ minus_one) where
  abbrev kept : BufferPool P
  kept = record pool { slots = set pool.slots i t }

  holders-kept : (a : ℕ) → holders a (set pool.slots i t) ≡ holders a pool.slots
  holders-kept a = ground (arith, holders-set a pool.slots i s t at)

  kept-IsValid : IsValid kept pages
  kept-IsValid = record {
    file = v.file;
    slots = omega (arith, length-set pool.slots i t, v.slots);
    lru = v.lru;
    in_file =
        let own = All-get _ pool.slots i v.in_file at in
        All-set _ pool.slots i t v.in_file
          (rw same_addr (own.0), λ e. absurd (used (sym same_addr ∙ e)));
    once = λ a ne. rw (holders-kept a) (v.once a ne);
    listed = λ a. v.listed a ∙ sym (holders-kept a);
    packed = v.packed;
  }

  view-kept :
      (k : ℕ)
      → k < length pages
      → view kept pages k ≡ (if s.addr == page_size * k then some t.page else view pool pages k)
  unfolding content
  view-kept k lt =
      let ne : page_size * k ≢ minus_one = omega (arith, v.file.small) in
      ground (
        arith,
        cached-set (page_size * k) pool.slots i s t at (v.once _ ne),
        holders-kept (page_size * k),
        v.once _ ne,
      )

module _ {P : Type 0} {pool : BufferPool P} {pages : List P} (v : IsValid pool pages) where
  -- A store through the pointer to slot `i`, which holds page `n`: page `n` has the new contents,
  -- and every other page keeps its own.
  pub store-view :
      (i n : ℕ) (s : Slot P) (page : P)
      → get_elem? pool.slots i ≡ some s
      → At s.addr n
      → n < length pages
      → IsValid (store pool i page) pages
        × ((k : ℕ)
            → k < length pages
            → view (store pool i page) pages k ≡ (if n == k then some page else view pool pages k))
  unfolding store
  store-view i n s page at s_at lt =
      let used : s.addr ≢ minus_one = omega (arith, v.file.small) in
      let t : Slot P = record s { page = page } in
      rw (at, store)
        (
          kept-IsValid v i s t at refl used,
          λ k k_lt. view-kept v i s t at refl used k k_lt ∙ ground arith,
        )

  shown :
      (s : Slot P) (k : ℕ)
      → cached s.addr pool.slots ≡ some s.page
      → (if s.addr == page_size * k then some s.page else view pool pages k) ≡ view pool pages k
  unfolding content
  shown s k held = elim (Bool-cases (s.addr == page_size * k)) [
    | inl e ↦ let q = ==→eq s.addr (page_size * k) e in rw (e, ← q, held)
    | inr e ↦ rw e
  ]

  -- On a valid pool, release of a cached and pinned page drops one pin, and keeps the contents of
  -- every page and the validity of the pool.
  pub release-view :
      (n i : ℕ) (s : Slot P)
      → n < length pages
      → get_elem? pool.slots i ≡ some s
      → At s.addr n
      → 0 < s.ref
      → s.ref < 2 ^ 64
      → IsValid (release pool (page_size * n)) pages
        × ((k : ℕ)
            → k < length pages
            → view (release pool (page_size * n)) pages k ≡ view pool pages k)
        × (get_elem? (release pool (page_size * n)).slots i ≡ some (record s { ref = s.ref - 1 }))
  unfolding release content
  release-view n i s lt at s_at pinned small =
      let used : s.addr ≢ minus_one = omega (arith, v.file.small) in
      let t : Slot P = record s { ref = decr s.ref } in
      let fewer : decr s.ref ≡ s.ref - 1 = omega arith in
      let found : find (page_size * n) pool.slots ≡ some i =
        rw (← s_at) (find_unique pool.slots i s at (v.once s.addr used)) in
      let held = cached_self pool.slots i s at (v.once s.addr used) in
      rw (found, release, at)
        (
          kept-IsValid v i s t at refl used,
          λ k k_lt. view-kept v i s t at refl used k k_lt ∙ shown s k held,
          rw (← fewer) (get_elem?-set_self pool.slots i t (get_elem?-lt pool.slots i at)),
        )
