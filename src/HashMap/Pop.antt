-- ===== src/HashMap/Pop.antt =====
-- hash_table_pop of src/hash_map.c.
use simple_redis_database.Common.{
  ℕ, zero, suc, ◌+◌, ◌-◌, ◌%◌, Option, none, some, List, ◌==◌, if◌then◌else◌, set,
}
use simple_redis_database.FileIo.{minus_one}
use simple_redis_database.Common.Run.{◌>>=◌, pure, entry}
use simple_redis_database.PageStore.{pin_page, release_page, store}
use simple_redis_database.HashMap.{
  dir_block_size, MapBlock, directory, block, Action, read_directory, read_block, dir_addr,
  free_block,
}

-- The first of the `n` items from place `i` on that is `addr`.
unfoldable index_from : ℕ → ℕ → ℕ → List ℕ → Action (Option ℕ)
index_from zero i addr table = pure none
index_from (suc n) i addr table = do
  x ← entry table i
  if x == addr then pure (some i) else index_from n (i + 1) addr table

-- `n` rounds of the loop that moves the items behind `j` down.
unfoldable move_items : ℕ → ℕ → List ℕ → Action (List ℕ)
move_items zero j table = pure table
move_items (suc n) j table = do x ← entry table (j + 1); move_items n (j + 1) (set table j x)

-- The block `b` at `addr` without its item `i`.
unfoldable remove_item : ℕ → ℕ → MapBlock → Action MapBlock
unfolding move_items
remove_item addr i b = do
  let n = b.n_items - 1
  table ← move_items (n - i) i b.table
  let b' : MapBlock = record b { n_items = n; table = set table n minus_one }
  _ ← store addr (block b')
  pure b'

-- The loop of hash_table_pop over the blocks behind the one at `last`, with fuel.
unfoldable pop_chain : ℕ → ℕ → ℕ → Action (Unit {0})
unfolding index_from remove_item free_block
pop_chain zero last addr = λ s. none
pop_chain (suc fuel) last addr = do
  b ← read_block last
  if b.next == minus_one then pure tt else (do
    _ ← pin_page b.next
    n ← read_block b.next
    found ← index_from n.n_items 0 addr n.table
    elim found [
      | none ↦ do _ ← release_page b.next; pop_chain fuel b.next addr
      | some i ↦ do
        n' ← remove_item b.next i n
        _ ←
            if n'.n_items == 0
            then (do _ ← store last (block (record b { next = n'.next })); free_block b.next n')
            else pure tt
        release_page b.next
    ])

unfoldable pub hash_table_pop : ℕ → ℕ → ℕ → Action (Unit {0})
unfolding pop_chain
hash_table_pop fuel size addr = do
  let d = dir_addr size
  _ ← pin_page 0
  _ ← pin_page d
  dir ← read_directory d
  block_addr ← entry dir (size % dir_block_size)
  _ ← pin_page block_addr
  b ← read_block block_addr
  found ← index_from b.n_items 0 addr b.table
  _ ← elim found [
    | none ↦ pop_chain fuel block_addr addr
    | some i ↦ do
      b' ← remove_item block_addr i b
      if b'.n_items == 0
          then (do
            _ ← store d (directory (set dir (size % dir_block_size) b'.next))
            free_block block_addr b')
          else pure tt
  ]
  _ ← release_page block_addr
  _ ← release_page d
  release_page 0
