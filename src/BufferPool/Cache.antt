-- ===== src/BufferPool/Cache.antt =====
-- What the pool of src/buffer_pool.c stands for: the pages of its file, with the cached ones in
-- front of those on disk.
use simple_redis_database.Common.{
  ℕ, ◌*◌, ◌≤◌, ◌<◌, ◌≡◌, ◌≢◌, Option, none, some, List, length, get_elem?, All,
}
use simple_redis_database.FileIo.{minus_one, page_size}
use simple_redis_database.FileIo.Pages.{IsOpen, At}
use simple_redis_database.BufferPool.{Slot, BufferPool, cache_page}
use simple_redis_database.BufferPool.Slots.{holders, cached}
use simple_redis_database.BufferPool.Recency.{count, IsPacked}

-- The contents of page `n`: the cached copy, if there is one, and else the page of the file.
unfoldable pub content {ℓ} : {P : Type ℓ} → Option P → Option P → Option P
content none disk = disk
content (some p) disk = some p

module _ {P : Type 0} where
  abbrev pub view : BufferPool P → List P → ℕ → Option P
  view pool pages n = content (cached (page_size * n) pool.slots) (get_elem? pages n)

  -- A used slot holds one of the `total` pages of the file; an unused one is not pinned.
  abbrev pub IsSlot : ℕ → Slot P → Type 0
  IsSlot total s =
      (s.addr ≢ minus_one → (n : ℕ) × At s.addr n × (n < total)) × (s.addr ≡ minus_one → s.ref ≡ 0)

  -- `pages` is what the pool's file holds on disk. No page is cached twice, and `lru` lists the
  -- addresses in the slots, the unused entries last.
  pub record IsValid (pool : BufferPool P) (pages : List P) : Type 0 where
    pub file : IsOpen pool.file pages
    pub slots : length pool.slots ≡ cache_page
    pub lru : length pool.lru ≡ cache_page
    pub in_file : All (IsSlot (length pages)) pool.slots
    pub once : (a : ℕ) → a ≢ minus_one → holders a pool.slots ≤ 1
    pub listed : (a : ℕ) → count a pool.lru ≡ holders a pool.slots
    pub packed : IsPacked pool.lru

-- Page `n` is at slot `i` of `after`, with the contents that it had; every page keeps its contents;
-- and what a pinned slot holds stays there.
pub record Gets {P : Type 0} (pool : BufferPool P) (pages : List P) (n i : ℕ) (after : BufferPool P)
    : Type 0 where
  pub disk : List P
  pub valid : IsValid after disk
  pub same_length : length disk ≡ length pages
  pub slot : Slot P
  pub at : get_elem? after.slots i ≡ some slot
  pub addr : At slot.addr n
  pub shows : view pool pages n ≡ some slot.page
  pub same : (k : ℕ) → k < length pages → view after disk k ≡ view pool pages k
  pub pinned :
      (j : ℕ) (s : Slot P)
      → get_elem? pool.slots j ≡ some s
      → s.ref ≢ 0
      → (t : Slot P) × (get_elem? after.slots j ≡ some t) × (t.addr ≡ s.addr) × (t.page ≡ s.page)
