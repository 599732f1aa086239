-- ===== src/HashMap/PopLowerBound.antt =====
-- hash_table_pop_lower_bound of src/hash_map.c.
use simple_redis_database.Common.{
  ℕ, zero, suc, ◌+◌, ◌-◌, ◌/◌, ◌%◌, ◌^◌, Option, none, some, ◌==◌, if◌then◌else◌, set,
}
use simple_redis_database.FileIo.{minus_one, page_size}
use simple_redis_database.Common.Run.{◌>>=◌, pure, entry}
use simple_redis_database.PageStore.{pin_page, release_page, store}
use simple_redis_database.HashMap.{
  dir_block_size, MapBlock, directory, block, Action, read_control, read_directory, read_block,
  dir_addr, free_block,
}

-- The last item of the first block of entry `j` of directory `d` is taken.
unfoldable pub take_last : ℕ → ℕ → ℕ → Action ℕ
unfolding free_block
take_last d j block_addr = do
  _ ← pin_page block_addr
  b ← read_block block_addr
  let n = b.n_items - 1
  ans ← if b.n_items == 0 then (λ s. none) else entry b.table n
  let b' : MapBlock = record b { n_items = n; table = set b.table n minus_one }
  _ ← store block_addr (block b')
  _ ←
      if n == 0
      then (do
        dir ← read_directory d
        _ ← store d (directory (set dir j b.next))
        free_block block_addr b')
      else pure tt
  _ ← release_page block_addr
  _ ← release_page d
  pure ans

-- The loop over `n` entries of directory `d` from `j` on.
unfoldable pub scan_directory : ℕ → ℕ → ℕ → Action (Option ℕ)
unfolding take_last
scan_directory zero d j = pure none
scan_directory (suc n) d j = do
  _ ← pin_page d
  dir ← read_directory d
  block_addr ← entry dir j
  if block_addr == minus_one
      then (do _ ← release_page d; scan_directory n d (j + 1))
      else (do ans ← take_last d j block_addr; pure (some ans))

-- The `n` rounds that are left of the loop over directories, the first of them from entry `j` on. The
-- counter `i` is an int, whose overflow is undefined.
unfoldable pub scan_directories : ℕ → ℕ → ℕ → ℕ → Action (Option ℕ)
unfolding scan_directory
scan_directories zero i d j = pure none
scan_directories (suc n) i d j = do
  found ← scan_directory (dir_block_size - j) d j
  elim found [
    | some ans ↦ pure (some ans)
    | none ↦ if i == 2 ^ 31 - 1 then (λ s. none) else scan_directories n (i + 1) (d + page_size) 0
  ]

unfoldable pub hash_table_pop_lower_bound : ℕ → Action ℕ
unfolding scan_directories
hash_table_pop_lower_bound size = do
  _ ← pin_page 0
  ctrl ← read_control
  found ←
      scan_directories ((ctrl.n_directory_blocks + 2 ^ 64 - size / dir_block_size) % 2 ^ 64) 0
        (dir_addr size) (size % dir_block_size)
  _ ← release_page 0
  elim found [ some ans ↦ pure ans | none ↦ pure minus_one ]
