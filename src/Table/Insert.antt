-- ===== src/Table/Insert.antt =====
-- table_insert of src/table.c into a page that the map of free space hands over.
use simple_redis_database.Common.{
  ℕ, ◌+◌, ◌-◌, ◌*◌, ◌<◌, ◌≤◌, ◌≡◌, refl, ap, inl, inr, none, some, false, List, ◌==◌, Option-cases,
  get_elem?,
}
use mathlib.Core.Path.{fun_ext}
use simple_redis_database.FileIo.{minus_one}
use simple_redis_database.Common.Run.{update}
use simple_redis_database.PageStore.{Pages, pin_page, load, release_page}
use simple_redis_database.Block.{Block, free_space, get_item}
use simple_redis_database.Block.Items.{IsBlock, item}
use simple_redis_database.HashMap.{ControlBlock, MapBlock, HashMapPages, block}
use simple_redis_database.HashMap.LowerBound.{IsDirectory, first_size, unpin}
use simple_redis_database.HashMap.Taken.{shortened}
use simple_redis_database.Table.{Table, table_read, item_bytes}

-- The map without the last page of the block `b` at `a`.
abbrev pub without : ℕ → MapBlock → HashMapPages → HashMapPages
without a b s = record s { page = update s.page a (some (block (shortened b))) }

-- The record of an item is its bytes.
item_bytes-item :
    (b : Block) (idx : ℕ) (src : List ℕ) → item b idx ≡ some src → item_bytes b idx ≡ some src
unfolding item item_bytes
item_bytes-item b idx src e = elim (Option-cases (get_item b idx)) [
  | inl lost ↦ (let h : none ≡ some src = rw (lost, item) at e in cc)
  | inr (offset, found) ↦ rw (found, item_bytes) (rw (found, item) at e)
]

abbrev held : ℕ → Pages Block → Pages Block
held a s = record s { pins = update s.pins a (s.pins a + 1) }

pin_lem :
    (a : ℕ) (s : Pages Block) (b : Block) → s.page a ≡ some b → pin_page a s ≡ some (tt, held a s)
unfolding pin_page
pin_lem a s b e = rw (e, pin_page) refl

load_lem : (a : ℕ) (s : Pages Block) (b : Block) → s.page a ≡ some b → load a s ≡ some (b, s)
unfolding load
load_lem a s b e = rw (e, load) refl

release_lem : (a : ℕ) (s : Pages Block) → release_page a (held a s) ≡ some (tt, s)
unfolding release_page
release_lem a s = ap (λ f. some (tt, record s { pins = f })) (fun_ext (unpin s.pins a))

-- An item of a page is read, and nothing is changed.
pub table_read-item :
    (t : Table) (b : Block) (addr idx : ℕ) (src : List ℕ)
    → t.data_pool.page addr ≡ some b
    → item b idx ≡ some src
    → table_read (record { block_addr = addr; idx = idx }) t ≡ some (src, t)
unfolding table_read
table_read-item t b addr idx src at there =
    rw
      (
        pin_lem addr t.data_pool b at,
        load_lem addr (held addr t.data_pool) b at,
        item_bytes-item b idx src there,
        release_lem addr t.data_pool,
      )
      refl

-- The table with the page `new` at `addr`, and with this map.
abbrev pub stored : ℕ → Block → HashMapPages → Table → Table
stored addr new fsm t = record {
  data_pool = record t.data_pool { page = update t.data_pool.page addr (some new) };
  fsm_pool = fsm;
}

-- What the map hands over for `size`: the page `x` from the block `b` of the size `k`, which holds others
-- too, and is the free space of that page.
pub record Offer (t : Table) (ctrl : ControlBlock) (heads : ℕ → ℕ) (size k x : ℕ) (b : MapBlock)
    (old : Block) : Type 0 where
  pub is_map : IsDirectory t.fsm_pool ctrl heads
  pub few : size ≤ ctrl.n_directory_blocks * 16
  pub first : first_size heads size (ctrl.n_directory_blocks * 16 - size) ≡ some k
  pub at_block : t.fsm_pool.page (heads k) ≡ some (block b)
  pub more : 1 < b.n_items
  pub last : get_elem? b.table (b.n_items - 1) ≡ some x
  pub is_page : (x == minus_one) ≡ false
  pub at_page : t.data_pool.page x ≡ some old
  pub is_block : IsBlock old
  pub has_room : free_space old ≡ k
