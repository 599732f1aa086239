-- ===== src/Myjql/Index.antt =====
-- The index of src/myjql.c under its own comparison: where a record goes, and which one is removed.
use simple_redis_database.Common.{
  ℕ, ◌+◌, ◌<◌, ◌≤◌, ◌≡◌, refl, ◌⊎◌, Option, some, List, true, length, get_or,
}
use simple_redis_database.Rid.{Rid, rid_null}
use simple_redis_database.PageStore.{Pages}
use simple_redis_database.Str.{ChunkTable, Sign}
use simple_redis_database.Str.Reader.{lex}
use simple_redis_database.BTree.{BNode, is_minus, is_zero, degree}
use simple_redis_database.BTree.Store.{BPage, BCtrlBlock, control}
use simple_redis_database.BTree.Index.{Signs, Ordered, Splits}
use simple_redis_database.BTree.Split.{LeafInserted}
use simple_redis_database.BTree.Scan.{Known}
use simple_redis_database.BTree.Grow.{b_tree_insert}
use simple_redis_database.BTree.Shrink.{b_tree_delete}
use simple_redis_database.BTree.Removal.{RowRemoved}
use simple_redis_database.BTree.Search.{Descends, at_leaf, through}
use simple_redis_database.BTree.Insertion.{written, leaf_page, Leads, b_tree_insert-Inserted}
use simple_redis_database.BTree.Deletion.{b_tree_delete-Removed}
use simple_redis_database.BTree.Path.{leaf_addr, Descends→Leads}
use simple_redis_database.Myjql.Rows.{RecordTable, Tables, rid_row_row_cmp}
use simple_redis_database.Myjql.Keys.{
  Spells, Spells-leaf, rid_row_row_cmp-lex, lex_self, zero_not_minus,
}
use simple_redis_database.Myjql.Ops.{Store, handlers}

Descends-leaf :
    (page : ℕ → Option BPage) (D : Rid → ℕ → Type 0) (sign : Rid → ℕ → Sign) (height at : ℕ)
    (leaf : BNode)
    → Descends page D sign height at leaf
    → Known D leaf.row_ptr leaf.n 1
Descends-leaf page D sign height at leaf (at_leaf at' b e l room known) = known
Descends-leaf page D sign height at leaf
      (through h at' k child b leaf' e l pos few known to next d) =
    Descends-leaf page D sign h child leaf' d

module _ (recs : RecordTable) (t : ChunkTable) (fuel : ℕ) (key : List ℕ) (s : Tables recs t)
    (keys : Rid → ℕ → List ℕ) where
  -- What the rows stand for, and how the key is ordered with them.
  abbrev pub Row : Rid → ℕ → Type 0
  Row r leaf = Spells recs t s r leaf (keys r leaf)

  abbrev pub sign : Rid → ℕ → Sign
  sign r leaf = lex key (keys r leaf)

  module _ (pool : Pages BPage) (height root : ℕ) (leaf : BNode)
      (down : Descends pool.page Row sign height root leaf) (rid : Rid)
      (spells : Spells recs t s rid 1 key) (lt : length key < fuel) where
    compare :
        (a : Rid) (flag : ℕ) (xs : List ℕ)
        → Spells recs t s a flag xs
        → rid_row_row_cmp recs t fuel s rid a 1 flag ≡ some (lex key xs)
    compare a flag xs d = rid_row_row_cmp-lex recs t fuel s rid a 1 flag key xs lt spells d

    -- The comparison of the code leads to the same leaf.
    lead : Leads pool.page (rid_row_row_cmp recs t fuel s) rid height root (leaf_addr down) leaf
    lead =
        Descends→Leads pool.page Row sign (rid_row_row_cmp recs t fuel s) rid
          (λ a d. compare a 0 (keys a 0) d) height root leaf down

    signs :
        Signs
          (λ a. rid_row_row_cmp recs t fuel s rid a 1 leaf.leaf)
          (λ a. lex key (keys a 1))
          leaf.row_ptr
          leaf.n
    signs j in_leaf =
        let (there, kind) =
          leaf_page (handlers recs t fuel) rid height root (leaf_addr down) leaf lead in
        let known = Descends-leaf pool.page Row sign height root leaf down in
        let a = get_or leaf.row_ptr j rid_null in
        compare a leaf.leaf (keys a 1)
          (Spells-leaf recs t s a 1 leaf.leaf (keys a 1) refl kind (known j in_leaf))

-- The row at place `i` of the leaf is one with the key, in an order that the key respects, and the
-- next one is behind the key.
pub record Present (key : List ℕ) (keys : Rid → ℕ → List ℕ) (leaf : BNode) (i : ℕ) : Type 0 where
  pub inside : i < leaf.n
  pub has_key : keys (get_or leaf.row_ptr i rid_null) 1 ≡ key
  pub ordered : Ordered (λ r. is_minus (lex key (keys r 1))) leaf.row_ptr leaf.n
  pub behind :
      i + 1 < leaf.n → is_minus (lex key (keys (get_or leaf.row_ptr (i + 1) rid_null) 1)) ≡ true
  pub four : leaf.n ≤ 4
  pub whole : length leaf.row_ptr ≡ 4

module _ (recs : RecordTable) (t : ChunkTable) (fuel : ℕ) where
  -- With the handlers of the store, on any two tables: where the lexicographic order of a key with the
  -- keys of the rows leads from the root of the index to a leaf with fewer than 4 rows, whose order
  -- the key respects, b_tree_insert of a record with this key, with fuel for the height and the key,
  -- ends: the record stands in that leaf behind exactly the rows whose keys are not behind its key;
  -- every other page of the index, the pins and the tables are as before.
  pub b_tree_insert-Entered :
      (key : List ℕ) (new : Rid) (height : ℕ) (keys : Rid → ℕ → List ℕ) (leaf : BNode)
      (ctrl : BCtrlBlock) (s : Store recs t fuel)
      → s.pool.page 0 ≡ some (control ctrl)
      → (down : Descends s.pool.page
          (Row recs t fuel key s.tables keys)
          (sign recs t fuel key s.tables keys)
          height
          ctrl.root_node
          leaf)
      → Spells recs t s.tables new 1 key
      → Ordered (λ r. is_minus (lex key (keys r 1))) leaf.row_ptr leaf.n
      → leaf.n < 4
      → length leaf.row_ptr ≡ 4
      → height ≤ fuel
      → length key < fuel
      → (place : ℕ) × (b' : BNode) × (b_tree_insert (handlers recs t fuel) fuel new s
          ≡ some (new, record { pool = written (leaf_addr down) b' s.pool; tables = s.tables }))
        × Splits (λ r. is_minus (lex key (keys r 1))) leaf.row_ptr leaf.n place
        × LeafInserted place new leaf b'
  b_tree_insert-Entered key new height keys leaf ctrl s head down spells order few whole le lt =
      let root = ctrl.root_node in
      b_tree_insert-Inserted (handlers recs t fuel) new fuel height (leaf_addr down) leaf ctrl
        (λ a. lex key (keys a 1)) s.pool s.tables head
        (lead recs t fuel key s.tables keys s.pool height root leaf down new spells lt)
        (signs recs t fuel key s.tables keys s.pool height root leaf down new spells lt) order few
        whole le

  -- With the handlers of the store, on any two tables: where the lexicographic order of a key with the
  -- keys of the rows leads from the root of the index to a leaf, whose order the key respects, the row
  -- at place `i` has the key and is the last one that is not behind it, and the leaf is the root or has
  -- more than DEGREE rows, b_tree_delete of a record with this key, with fuel for the height and the
  -- key, ends: exactly the row at place `i` is gone from the leaf; every other page of the index, the
  -- pins and the tables are as before.
  pub b_tree_delete-Left :
      (key : List ℕ) (rid : Rid) (height i : ℕ) (keys : Rid → ℕ → List ℕ) (leaf : BNode)
      (ctrl : BCtrlBlock) (s : Store recs t fuel)
      → s.pool.page 0 ≡ some (control ctrl)
      → (down : Descends s.pool.page
          (Row recs t fuel key s.tables keys)
          (sign recs t fuel key s.tables keys)
          height
          ctrl.root_node
          leaf)
      → Spells recs t s.tables rid 1 key
      → Present key keys leaf i
      → (height ≡ 1) ⊎ (degree < leaf.n)
      → height ≤ fuel
      → length key < fuel
      → (b' : BNode) × (b_tree_delete (handlers recs t fuel) fuel rid s
          ≡ some (tt, record { pool = written (leaf_addr down) b' s.pool; tables = s.tables }))
        × RowRemoved (i + 1) leaf b'
  b_tree_delete-Left key rid height i keys leaf ctrl s head down spells present many le lt =
      let root = ctrl.root_node in
      let equal : is_zero (lex key (keys (get_or leaf.row_ptr i rid_null) 1)) ≡ true =
        rw present.has_key (lex_self key) in
      b_tree_delete-Removed (handlers recs t fuel) rid fuel height (leaf_addr down) i leaf ctrl
        (λ a. lex key (keys a 1)) s.pool s.tables head
        (lead recs t fuel key s.tables keys s.pool height root leaf down rid spells lt)
        (signs recs t fuel key s.tables keys s.pool height root leaf down rid spells lt)
        present.ordered present.inside (zero_not_minus _ equal) present.behind many present.four
        present.whole le
