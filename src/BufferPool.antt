-- ===== src/BufferPool.antt =====
-- include/buffer_pool.h and src/buffer_pool.c: a cache of pages with reference counts and LRU
-- replacement.
--
-- The arrays `pages`, `addrs` and `ref` of one index are a `Slot`; a `Page *` is the index of its
-- slot. A `size_t` count wraps modulo 2^64. The result `none` is undefined behaviour: `get_page`
-- runs off its end when every slot is pinned, and a file that failed to open is used.
pub mod Slots
pub mod Recency
pub mod Cache
pub mod Replace
pub mod GetPage
pub mod Release
pub mod Lifetime
mod Tests
use simple_redis_database.Common.{
  ℕ, zero, suc, ◌+◌, ◌-◌, ◌%◌, ◌^◌, Bool, ◌&&◌, Option, none, some, List, [], ◌∷◌, ◌==◌, map,
  if◌then◌else◌, ◌>>=◌, length, get_elem?, get_or, set, replicate,
}
use simple_redis_database.FileIo.{
  minus_one, FileIoResult, Stream, FileInfo, open_file, close_file, read_page, write_page,
}

abbrev pub cache_page : ℕ
cache_page = 16

pub record Slot (P : Type 0) : Type 0 where
  pub page : P
  pub addr : ℕ
  pub ref : ℕ

pub record BufferPool (P : Type 0) : Type 0 where
  pub file : FileInfo P
  pub slots : List (Slot P)
  pub lru : List ℕ

-- The first index at which an array of addresses holds `a`.
unfoldable pub index_of : ℕ → List ℕ → Option ℕ
index_of a [] = none
index_of a (x ∷ xs) = if x == a then some 0 else (index_of a xs >>= λ i. some (suc i))

unfoldable pub remove_at : ℕ → List ℕ → List ℕ
remove_at i [] = []
remove_at zero (x ∷ xs) = xs
remove_at (suc i) (x ∷ xs) = x ∷ remove_at i xs

-- The entries before `j` move one place back, over `lru[j]`, and `a` goes to the front.
unfoldable pub to_front : ℕ → ℕ → List ℕ → List ℕ
unfolding remove_at
to_front j a lru = a ∷ remove_at j lru

abbrev pub incr : ℕ → ℕ
incr n = (n + 1) % 2 ^ 64

abbrev pub decr : ℕ → ℕ
decr n = (n + (2 ^ 64 - 1)) % 2 ^ 64

module _ {P : Type 0} where
  -- The first slot that holds `a`.
  unfoldable pub find : ℕ → List (Slot P) → Option ℕ
  find a [] = none
  find a (s ∷ slots) = if s.addr == a then some 0 else (find a slots >>= λ i. some (suc i))

  -- The first slot that holds `a` and is not pinned.
  unfoldable pub find_unpinned : ℕ → List (Slot P) → Option ℕ
  find_unpinned a [] = none
  find_unpinned a (s ∷ slots) =
      if s.addr == a && s.ref == 0 then some 0 else (find_unpinned a slots >>= λ i. some (suc i))

  unfoldable pub init_buffer_pool :
      (existing created : Option (Stream P)) → BufferPool P → BufferPool P
  init_buffer_pool existing created pool = record {
    file = (open_file existing created pool.file).1;
    slots = map (λ (s : Slot P). record s { addr = minus_one; ref = 0 }) pool.slots;
    lru = replicate cache_page minus_one;
  }

  unfoldable pub write_back : List (Slot P) → FileInfo P → Option (FileInfo P)
  write_back [] file = some file
  write_back (s ∷ slots) file =
      write_page s.page file s.addr >>= λ (_, file'). write_back slots file'

  -- The stream that is closed, which is what stays on disk, comes with the pool.
  unfoldable pub close_buffer_pool : BufferPool P → Option (Option (Stream P) × BufferPool P)
  unfolding write_back
  close_buffer_pool pool = write_back pool.slots pool.file >>= λ file.
      some (file.fp, record pool { file = (close_file file).1 })

  -- The address is in slot `i`.
  unfoldable pub hit : ℕ → ℕ → Slot P → BufferPool P → Option (ℕ × BufferPool P)
  unfolding index_of to_front
  hit addr i s pool = some (
    i,
    record pool {
      slots = set pool.slots i (record s { ref = incr s.ref });
      lru = elim (index_of addr pool.lru) [ none ↦ pool.lru | some j ↦ to_front j addr pool.lru ];
    },
  )

  -- Slot `i` is unused.
  unfoldable pub fill : ℕ → ℕ → Slot P → BufferPool P → Option (ℕ × BufferPool P)
  unfolding to_front
  fill addr i s pool = do
    (_, page) ← read_page s.page pool.file addr
    some (
      i,
      record pool {
        slots = set pool.slots i (record { page = page; addr = addr; ref = incr s.ref });
        lru = to_front (cache_page - 1) addr pool.lru;
      },
    )

  -- The search from the least recently used end, over the `n` entries still to be tried: the place
  -- in `lru` and the slot of the page to replace.
  unfoldable pub victim : ℕ → BufferPool P → Option (ℕ × ℕ)
  unfolding find_unpinned
  victim zero pool = none
  victim (suc i) pool =
      let rest = victim i pool in
      elim (find_unpinned (get_or pool.lru i minus_one) pool.slots) [
        | none ↦ rest
        | some j ↦ some (i, j)
      ]

  -- The page of slot `j` is written back and replaced.
  unfoldable pub evict : ℕ → ℕ → ℕ → Slot P → BufferPool P → Option (ℕ × BufferPool P)
  unfolding to_front
  evict addr i j s pool = do
    (_, file) ← write_page s.page pool.file s.addr
    (_, page) ← read_page s.page file addr
    some (
      j,
      record {
        file = file;
        slots = set pool.slots j (record { page = page; addr = addr; ref = incr s.ref });
        lru = to_front i addr pool.lru;
      },
    )

  unfoldable pub get_page : BufferPool P → ℕ → Option (ℕ × BufferPool P)
  unfolding find hit fill victim evict
  get_page pool addr = elim (find addr pool.slots) [
    | some i ↦ get_elem? pool.slots i >>= λ s. hit addr i s pool
    | none ↦ elim (find minus_one pool.slots) [
      | some i ↦ get_elem? pool.slots i >>= λ s. fill addr i s pool
      | none ↦
          victim cache_page pool >>= λ (i, j). get_elem? pool.slots j >>= λ s. evict addr i j s pool
    ]
  ]

  unfoldable pub release : BufferPool P → ℕ → BufferPool P
  unfolding find
  release pool addr = elim (find addr pool.slots) [
    | none ↦ pool
    | some i ↦ elim (get_elem? pool.slots i) [
      | none ↦ pool
      | some s ↦ record pool { slots = set pool.slots i (record s { ref = decr s.ref }) }
    ]
  ]

  -- A store through the pointer to slot `i`.
  unfoldable pub store : BufferPool P → ℕ → P → BufferPool P
  store pool i page = elim (get_elem? pool.slots i) [
    | none ↦ pool
    | some s ↦ record pool { slots = set pool.slots i (record s { page = page }) }
  ]
