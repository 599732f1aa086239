-- ===== src/Table/Tests.antt =====
-- The tables of src/table.c at concrete inputs.
use simple_redis_database.Common.{
  ℕ, zero, suc, ◌+◌, ◌-◌, ◌*◌, ◌/◌, Option, none, some, List, [], ◌∷◌, ◌≡◌, refl, replicate, ◌==◌,
  if◌then◌else◌,
}
use simple_redis_database.FileIo.{minus_one}
use simple_redis_database.Common.Run.{◌>>=◌, ◌>>◌, pure, entry}
use simple_redis_database.PageStore
use simple_redis_database.Block.{
  get_item_id_availability, get_item_id_size, get_item_id_offset, compose_item_id, read_bytes,
  Block, init_block,
}
use simple_redis_database.HashMap.{
  read_control, read_directory, read_block, write_directories, free_block, ControlBlock, MapBlock,
  control, directory, block,
}
use simple_redis_database.Table.{
  Table, Action, empty_block, table_init, table_read, table_insert, table_delete,
  table_get_total_blocks,
}

abbrev empty : Table
empty = record {
  data_pool = record { page = λ a. none; length = 0; pins = λ a. 0 };
  fsm_pool = record { page = λ a. none; length = 0; pins = λ a. 0 };
}

-- The second record fits into the first page, the third does not.
abbrev program : Action (List ℕ × (List ℕ × (ℕ × List ℕ)))
program = do
  table_init
  a ← table_insert 9 (1 ∷ 2 ∷ 3 ∷ [])
  b ← table_insert 9 (replicate 40 7)
  c ← table_insert 9 (replicate 100 9)
  xs ← table_read a
  table_delete 9 a
  d ← table_insert 9 (4 ∷ 5 ∷ [])
  ys ← table_read d
  n ← table_get_total_blocks
  zs ← table_read b
  pure (xs, (ys, (n, zs)))

abbrev value : {A : Type 0} → Option (A × Table) → Option A
value none = none
value (some (a, t)) = some a

runs : value (program empty) ≡ some (1 ∷ 2 ∷ 3 ∷ [], (4 ∷ 5 ∷ [], (2, replicate 40 7)))
unfolding table_init table_read table_insert table_delete table_get_total_blocks read_control
    read_directory read_block write_directories free_block entry PageStore.pin_page
    PageStore.release_page PageStore.load PageStore.store PageStore.append_page
    PageStore.file_length get_item_id_availability get_item_id_size get_item_id_offset
    compose_item_id read_bytes
runs = refl

-- A map of 8 directories in which the size 118 has a block of two pages, and the size 54 one of one.
abbrev heads : ℕ → ℕ
heads k = if k == 118 then 1152 else if k == 54 then 1280 else minus_one

abbrev tabulate : (ℕ → ℕ) → ℕ → ℕ → List ℕ
tabulate f zero k = []
tabulate f (suc n) k = f k ∷ tabulate f n (k + 1)

abbrev ctrl : ControlBlock
ctrl = record { free_block_head = minus_one; n_directory_blocks = 8; max_size = 128 }

abbrev two_pages : MapBlock
two_pages = record { next = minus_one; n_items = 2; table = 256 ∷ 128 ∷ replicate 12 minus_one }

abbrev one_page : MapBlock
one_page = record { next = minus_one; n_items = 1; table = 384 ∷ replicate 13 minus_one }

abbrev old : Block
old = init_block empty_block

abbrev offered : Table
offered = record {
  data_pool = record {
    page = λ a. if a == 128 then some old else none;
    length = 512;
    pins = λ a. 0;
  };
  fsm_pool = record {
    page = λ a.
        if a == 0
        then some (control ctrl)
        else if a == 1152
        then some (block two_pages)
        else if a == 1280
        then some (block one_page)
        else some (directory (tabulate heads 16 ((a / 128 - 1) * 16)));
    length = 1408;
    pins = λ a. 0;
  };
}

abbrev sixty : List ℕ
sixty = replicate 60 7
