-- ===== src/Table.antt =====
-- include/table.h and src/table.c: records in the slotted pages of a file, with a free space map.
--
-- The data file is the pages of a pool, each a `Block`; the map is the pages of src/hash_map.c. An
-- item is its bytes. A read through the NULL that get_item returns is the result `none`. The fuel is
-- that of the chains of the map.
pub mod Insert
mod Tests
use simple_redis_database.Common.{
  ℕ, zero, suc, ◌+◌, ◌/◌, Option, none, some, List, [], ◌∷◌, ◌==◌, if◌then◌else◌, length,
}
use simple_redis_database.Common.Run.{Run, ◌>>=◌, ◌>>◌, pure, fail, lift}
use simple_redis_database.FileIo.{minus_one, page_size}
use simple_redis_database.PageStore.{Pages}
use simple_redis_database.PageStore
use simple_redis_database.Rid.{Rid}
use simple_redis_database.Block.{
  Block, init_block, get_item, get_item_id_size, new_item, delete_item, free_space, read_bytes,
}
use simple_redis_database.HashMap.{HashMapPages, dir_block_size, hash_table_init}
use simple_redis_database.HashMap.Insert.{hash_table_insert}
use simple_redis_database.HashMap.PopLowerBound.{hash_table_pop_lower_bound}
use simple_redis_database.HashMap.Pop.{hash_table_pop}

pub record Table : Type 0 where
  pub data_pool : Pages Block
  pub fsm_pool : HashMapPages

abbrev pub Action : Type 0 → Type 0
Action A = Run Table A

abbrev on_data_back : {A : Type 0} → Table → Option (A × Pages Block) → Option (A × Table)
on_data_back t none = none
on_data_back t (some (a, s)) = some (a, record t { data_pool = s })

abbrev pub on_data : {A : Type 0} → Run (Pages Block) A → Action A
on_data m t = on_data_back t (m t.data_pool)

abbrev on_fsm_back : {A : Type 0} → Table → Option (A × HashMapPages) → Option (A × Table)
on_fsm_back t none = none
on_fsm_back t (some (a, s)) = some (a, record t { fsm_pool = s })

abbrev pub on_fsm : {A : Type 0} → Run HashMapPages A → Action A
on_fsm m t = on_fsm_back t (m t.fsm_pool)

-- The blocks of an EMPTY_PAGE.
abbrev pub empty_block : Block
empty_block = record { n_items = 0; head_ptr = 0; tail_ptr = 0; ids = λ k. 0; bytes = λ k. 0 }

-- The pages that the initialisation writes; the data file is opened as it is.
unfoldable pub table_init : Action (Unit {0})
unfolding hash_table_init
table_init = on_fsm (hash_table_init (page_size / dir_block_size))

unfoldable pub table_get_total_blocks : Action ℕ
table_get_total_blocks = do len ← on_data PageStore.file_length; pure (len / page_size)

unfoldable pub table_block_get_total_items : ℕ → Action ℕ
table_block_get_total_items block_addr = do
  on_data (PageStore.pin_page block_addr)
  block ← on_data (PageStore.load block_addr)
  on_data (PageStore.release_page block_addr)
  pure block.n_items

-- The bytes that the loop of table_read copies.
unfoldable pub item_bytes : Block → ℕ → Option (List ℕ)
unfolding get_item
item_bytes block idx =
    let size = get_item_id_size (block.ids idx) in
    elim (get_item block idx) [
      | none ↦ if size == 0 then some [] else none
      | some offset ↦ some (read_bytes block.bytes offset size)
    ]

unfoldable pub table_read : Rid → Action (List ℕ)
unfolding item_bytes
table_read rid = do
  on_data (PageStore.pin_page rid.block_addr)
  block ← on_data (PageStore.load rid.block_addr)
  dest ← lift (item_bytes block rid.idx)
  on_data (PageStore.release_page rid.block_addr)
  pure dest

unfoldable pub table_insert : ℕ → List ℕ → Action Rid
unfolding init_block new_item free_space hash_table_insert hash_table_pop_lower_bound
table_insert fuel src = do
  block_addr ← on_fsm (hash_table_pop_lower_bound (length src))
  if block_addr == minus_one
      then (do
        let (idx, block) = new_item (init_block empty_block) src
        len ← on_data PageStore.file_length
        on_fsm (hash_table_insert fuel (free_space block) len)
        on_data (PageStore.append_page block)
        pure (record { block_addr = len; idx = idx }))
      else (do
        on_data (PageStore.pin_page block_addr)
        old ← on_data (PageStore.load block_addr)
        let (idx, block) = new_item old src
        on_data (PageStore.store block_addr block)
        on_fsm (hash_table_insert fuel (free_space block) block_addr)
        on_data (PageStore.release_page block_addr)
        pure (record { block_addr = block_addr; idx = idx }))

unfoldable pub table_delete : ℕ → Rid → Action (Unit {0})
unfolding delete_item free_space hash_table_insert hash_table_pop
table_delete fuel rid = do
  let addr = rid.block_addr
  on_data (PageStore.pin_page addr)
  block ← on_data (PageStore.load addr)
  on_fsm (hash_table_pop fuel (free_space block) addr)
  let block' = delete_item block rid.idx
  on_data (PageStore.store addr block')
  on_fsm (hash_table_insert fuel (free_space block') addr)
  on_data (PageStore.release_page addr)
