-- ===== src/HashMap.antt =====
-- include/hash_map.h and src/hash_map.c: a static hash map from a free size to the pages of that
-- size, kept in pages.
--
-- The pages are those that a BufferPool stands for; a cast to another struct than the one in the
-- page is the result `none`. At most 3 of the 16 slots are pinned at a time, so a page that was just
-- released stays in its slot, and the code may still use it.
pub mod Insert
pub mod PopLowerBound
pub mod Pop
pub mod LowerBound
pub mod Fresh
pub mod Chain
pub mod Taken
mod Tests
use simple_redis_database.Common.{
  ℕ, zero, suc, ◌+◌, ◌-◌, ◌*◌, ◌/◌, ◌%◌, ◌^◌, Option, none, some, List, [], ◌∷◌, ◌==◌, ltb,
  if◌then◌else◌, get_elem?, set, replicate,
}
use simple_redis_database.Common.Run.{Run, ◌>>=◌, pure}
use simple_redis_database.PageStore.{Pages, store, file_length, append_page}
use simple_redis_database.FileIo.{minus_one, page_size}

-- HASH_MAP_DIR_BLOCK_SIZE
abbrev pub dir_block_size : ℕ
dir_block_size = page_size / 8

-- HASH_MAP_BLOCK_SIZE
abbrev pub block_size : ℕ
block_size = (page_size - 2 * 8) / 8

pub record ControlBlock : Type 0 where
  pub free_block_head : ℕ
  pub n_directory_blocks : ℕ
  pub max_size : ℕ

pub record MapBlock : Type 0 where
  pub next : ℕ
  pub n_items : ℕ
  pub table : List ℕ

pub data HashMapPage : Type 0 where
  control : ControlBlock → HashMapPage
  directory : List ℕ → HashMapPage
  block : MapBlock → HashMapPage

abbrev pub HashMapPages : Type 0
HashMapPages = Pages HashMapPage

abbrev pub Action : Type 0 → Type 0
Action A = Run HashMapPages A

-- The struct in a page.
unfoldable pub read_control : Action ControlBlock
read_control s = elim (s.page 0) [ some (control c) ↦ some (c, s) | _ ↦ none ]

unfoldable pub read_directory : ℕ → Action (List ℕ)
read_directory addr s = elim (s.page addr) [ some (directory d) ↦ some (d, s) | _ ↦ none ]

unfoldable pub read_block : ℕ → Action MapBlock
read_block addr s = elim (s.page addr) [ some (block b) ↦ some (b, s) | _ ↦ none ]

abbrev pub dir_addr : ℕ → ℕ
dir_addr size = (size / dir_block_size + 1) * page_size

-- An empty block leaves its chain and is put on the free list.
unfoldable pub free_block : ℕ → MapBlock → Action (Unit {0})
free_block addr b = do
  ctrl ← read_control
  _ ← store addr (block (record b { next = ctrl.free_block_head }))
  store 0 (control (record ctrl { free_block_head = addr }))

-- The directories of a new file, `n` of them, from the one with index `i` on.
unfoldable pub write_directories : ℕ → Action (Unit {0})
write_directories zero = pure tt
write_directories (suc n) = do
  _ ← append_page (directory (replicate dir_block_size minus_one))
  write_directories n

-- The pages that hash_table_init writes when the file is empty.
unfoldable pub hash_table_init : ℕ → Action (Unit {0})
unfolding write_directories
hash_table_init n_directory_blocks = do
  len ← file_length
  if len == 0
      then (do
        _ ← append_page (
            control (record {
              free_block_head = minus_one;
              n_directory_blocks = n_directory_blocks;
              max_size = n_directory_blocks * dir_block_size;
            }))
        write_directories n_directory_blocks)
      else pure tt
