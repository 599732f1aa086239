-- ===== src/HashMap/Insert.antt =====
-- hash_table_insert of src/hash_map.c.
use simple_redis_database.Common.{
  ℕ, zero, suc, ◌+◌, ◌-◌, ◌%◌, Option, none, some, ◌∷◌, ◌==◌, if◌then◌else◌, set, replicate, ltb,
}
use simple_redis_database.FileIo.{minus_one}
use simple_redis_database.Common.Run.{◌>>=◌, pure, fail, entry}
use simple_redis_database.PageStore.{pin_page, release_page, store, file_length, append_page}
use simple_redis_database.HashMap.{
  dir_block_size, block_size, ControlBlock, control, directory, block, Action, read_control,
  read_directory, read_block, dir_addr,
}

-- A new page that holds one address.
unfoldable new_block : ℕ → Action (Unit {0})
new_block addr = append_page (
    block (record {
      next = minus_one;
      n_items = 1;
      table = addr ∷ replicate (block_size - 1) minus_one;
    }))

-- The first block of the free list gets one address.
unfoldable reuse_block : ControlBlock → ℕ → Action (Unit {0})
reuse_block ctrl addr = do
  let head = ctrl.free_block_head
  _ ← pin_page head
  free ← read_block head
  _ ← store 0 (control (record ctrl { free_block_head = free.next }))
  _ ← store head (block (record { next = minus_one; n_items = 1; table = set free.table 0 addr }))
  release_page head

-- What a loop of hash_table_insert does at its last block `addr`, which is full.
unfoldable link_block : ℕ → ℕ → Action (Unit {0})
unfolding new_block reuse_block
link_block last addr = do
  ctrl ← read_control
  b ← read_block last
  if ctrl.free_block_head == minus_one
      then (do len ← file_length; _ ← store last (block (record b { next = len })); new_block addr)
      else (do
        _ ← store last (block (record b { next = ctrl.free_block_head }))
        reuse_block ctrl addr)

-- The release of `temp`, the page of the chain that is still pinned.
abbrev pub release_temp : Option ℕ → Action (Unit {0})
release_temp none = pure tt
release_temp (some temp) = release_page temp

-- The loop of hash_table_insert along a chain from `current` on, with fuel. A count that is not below
-- the size of the array makes the write undefined.
unfoldable pub insert_chain : ℕ → ℕ → Option ℕ → ℕ → Action (Unit {0})
unfolding link_block
insert_chain zero current temp addr = λ s. none
insert_chain (suc fuel) current temp addr = do
  b ← read_block current
  if b.n_items == block_size
      then (do
        _ ← release_temp temp
        if b.next == minus_one
            then link_block current addr
            else (do _ ← pin_page b.next; insert_chain fuel b.next (some b.next) addr))
      else if ltb b.n_items block_size
      then (do
        _ ←
            store current
              (block (record b { n_items = b.n_items + 1; table = set b.table b.n_items addr }))
        release_temp temp)
      else fail

unfoldable pub hash_table_insert : ℕ → ℕ → ℕ → Action (Unit {0})
unfolding insert_chain
hash_table_insert fuel size addr = do
  let d = dir_addr size
  _ ← pin_page 0
  _ ← pin_page d
  dir ← read_directory d
  block_addr ← entry dir (size % dir_block_size)
  _ ← release_page d
  ctrl ← read_control
  if block_addr == minus_one
      then (if ctrl.free_block_head == minus_one
          then (do
            len ← file_length
            _ ← store d (directory (set dir (size % dir_block_size) len))
            _ ← new_block addr
            release_page 0)
          else (do
            _ ← store d (directory (set dir (size % dir_block_size) ctrl.free_block_head))
            _ ← reuse_block ctrl addr
            release_page 0))
      else (do
        _ ← pin_page block_addr
        _ ← insert_chain fuel block_addr none addr
        _ ← release_page block_addr
        release_page 0)
