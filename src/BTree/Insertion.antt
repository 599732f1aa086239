-- ===== src/BTree/Insertion.antt =====
-- b_tree_insert of src/b_tree.c where the leaf has room for the row.
use simple_redis_database.Common.{
  ℕ, zero, suc, ◌*◌, ◌<◌, ◌≤◌, ◌≡◌, refl, sym, ap, ◌∙◌, inl, inr, Option, some, ◌==◌, ltb,
  get_elem?, length, true, false, Bool-cases, arith, ==→eq,
}
use simple_redis_database.Common.Run.{update}
use simple_redis_database.FileIo.{minus_one}
use simple_redis_database.Rid.{Rid, rid_null}
use simple_redis_database.Str.{Sign}
use simple_redis_database.PageStore.{Pages, store}
use simple_redis_database.BTree.{BNode, is_minus, find_index, degree}
use simple_redis_database.BTree.Store.{
  Handlers, Tree, BPage, BCtrlBlock, control, node, write_node, find,
}
use simple_redis_database.BTree.Insert.{ChildEntry, leaf_insert}
use simple_redis_database.BTree.Grow.{tree_insert, b_tree_insert}
use simple_redis_database.BTree.Index.{Splits, Signs, Ordered, find_index-Splits}
use simple_redis_database.BTree.Split.{LeafInserted, leaf_insert-Inserted}
use simple_redis_database.BTree.Scan.{entry_lem, read_node_lem}
use simple_redis_database.BTree.Search.{pinned, get_page_lem, release_lem, read_control_lem}

-- The pool with a node in a page.
abbrev pub written : ℕ → BNode → Pages BPage → Pages BPage
written at b pool = record pool { page = update pool.page at (some (node b)) }

-- From the page `at` of an index of the given height, the places that find_index gives for a row
-- lead to the page `leaf_at`, which holds the leaf.
pub data Leads (page : ℕ → Option BPage) (cmp : Rid → Rid → ℕ → ℕ → Option Sign) (rid : Rid)
    : ℕ → ℕ → ℕ → BNode → Type 0 where
  here :
      (at : ℕ) (b : BNode)
      → page at ≡ some (node b)
      → (b.leaf == 0) ≡ false
      → Leads page cmp rid 1 at at b
  below :
      (height at k child leaf_at : ℕ) (b leaf : BNode)
      → page at ≡ some (node b)
      → (b.leaf == 0) ≡ true
      → find_index b rid 1 cmp ≡ some k
      → get_elem? b.child k ≡ some child
      → Leads page cmp rid height child leaf_at leaf
      → Leads page cmp rid (suc height) at leaf_at leaf

module _ (h : Handlers) (rid : Rid) where
  open h use {State, cmp}

  abbrev pub tree : Pages BPage → State → Tree State
  tree pool s = record { pool = pool; tables = s }

  pub find_lem :
      (b : BNode) (k : ℕ) (pool : Pages BPage) (s : State)
      → find_index b rid 1 (cmp s) ≡ some k
      → find h b rid 1 (tree pool s) ≡ some (k, tree pool s)
  unfolding find
  find_lem b k pool s e = rw (e, find) refl

  pub write_node_lem :
      (at : ℕ) (b : BNode) (pool : Pages BPage) (s : State)
      → write_node at b (tree pool s) ≡ some (tt, tree (written at b pool) s)
  unfolding write_node store
  write_node_lem at b pool s = refl

  pub first_page :
      {page : ℕ → Option BPage} {c : Rid → Rid → ℕ → ℕ → Option Sign} (height at leaf_at : ℕ)
      (leaf : BNode)
      → Leads page c rid height at leaf_at leaf
      → (p : BPage) × (page at ≡ some p)
  first_page height at leaf_at leaf (here at' b e l) = (node b, e)
  first_page height at leaf_at leaf (below x at' k child y b z e l to next d) = (node b, e)

  pub leaf_page :
      {page : ℕ → Option BPage} {c : Rid → Rid → ℕ → ℕ → Option Sign} (height at leaf_at : ℕ)
      (leaf : BNode)
      → Leads page c rid height at leaf_at leaf
      → (page leaf_at ≡ some (node leaf)) × ((leaf.leaf == 0) ≡ false)
  leaf_page height at leaf_at leaf (here at' b e l) = (e, l)
  leaf_page height at leaf_at leaf (below x at' k child y b z e l to next d) =
      leaf_page x child y z d

  -- The leaf has room, and place `k` is that of the row.
  record Room (cmp : Rid → Rid → ℕ → ℕ → Option Sign) (leaf : BNode) (k : ℕ) : Type 0 where
    at_place : find_index leaf rid 1 cmp ≡ some k
    inside : k ≤ leaf.n
    few : leaf.n < 4
    whole : length leaf.row_ptr ≡ 4

  tree_insert_lem :
      (fuel height at leaf_at k : ℕ) (leaf b' : BNode) (new : ChildEntry) (p : BPage)
      (pool : Pages BPage) (s : State)
      → pool.page 0 ≡ some p
      → Leads pool.page (cmp s) rid height at leaf_at leaf
      → Room (cmp s) leaf k
      → leaf_insert k rid leaf ≡ some b'
      → height ≤ fuel
      → tree_insert h fuel at rid new (tree pool s)
        ≡ some (record new { addr = minus_one }, tree (written leaf_at b' pool) s)
  unfolding tree_insert
  tree_insert_lem zero height at leaf_at k leaf b' new p pool s head (here at' b e l) r i le =
      absurd (omega arith)
  tree_insert_lem zero height at leaf_at k leaf b' new p pool s head
        (below x at' j child y b z e l to next d) r i le =
      absurd (omega arith)
  tree_insert_lem (suc fuel) height at leaf_at k leaf b' new p pool s head (here at' b e l) r i le =
      let few : ltb b.n (2 * degree) ≡ true = (let f = r.few in ground arith) in
      rw
        (
          get_page_lem 0 p pool s head,
          read_node_lem at b (pinned 0 pool) s e,
          find_lem b k (pinned 0 pool) s r.at_place,
          l,
          few,
          i,
          write_node_lem at b' (pinned 0 pool) s,
          release_lem 0 (written at b' pool) s,
        )
        refl
  tree_insert_lem (suc fuel) height at leaf_at k leaf b' new p pool s head
        (below x at' j child y b z e l to next d) r i le =
      let (q, there) = first_page x child y z d in
      let rest =
        tree_insert_lem fuel x child y k z b' new p (pinned child (pinned 0 pool)) s head d r i
          (omega arith) in
      let same : (written y b' (pinned 0 pool)).page at ≡ some (node b) =
        elim (Bool-cases (at == y)) [
          | inr apart ↦ rw apart e
          | inl equal ↦
              let (leaf_page_eq, z_leaf) = leaf_page x child y z d in
              let both : some (node b) ≡ some (node z) =
                sym e ∙ ap pool.page (==→eq at y equal) ∙ leaf_page_eq in
              let one : b ≡ z = cc in
              let clash : true ≡ false = sym l ∙ ap (λ n. n.leaf == 0) one ∙ z_leaf in cc
        ] in
      rw
        (
          get_page_lem 0 p pool s head,
          read_node_lem at b (pinned 0 pool) s e,
          find_lem b j (pinned 0 pool) s to,
          l,
          entry_lem b.child j child (tree (pinned 0 pool) s) next,
          get_page_lem child q (pinned 0 pool) s there,
          rest,
          release_lem child (written y b' (pinned 0 pool)) s,
          read_node_lem at b (written y b' (pinned 0 pool)) s same,
          release_lem 0 (written y b' pool) s,
        )
        refl

  -- Where find_index leads a row from the root of the index to a leaf with fewer than 4 rows, in an
  -- order that the comparison with the row respects, and with fuel for the height, b_tree_insert
  -- ends: the row stands in that leaf behind exactly the rows that are not behind it; every other
  -- page, the pins, the length of the file and the tables are as before.
  pub b_tree_insert-Inserted :
      (fuel height leaf_at : ℕ) (leaf : BNode) (ctrl : BCtrlBlock) (sign : Rid → Sign)
      (pool : Pages BPage) (s : State)
      → pool.page 0 ≡ some (control ctrl)
      → Leads pool.page (cmp s) rid height ctrl.root_node leaf_at leaf
      → Signs (λ r. cmp s rid r 1 leaf.leaf) sign leaf.row_ptr leaf.n
      → Ordered (λ r. is_minus (sign r)) leaf.row_ptr leaf.n
      → leaf.n < 4
      → length leaf.row_ptr ≡ 4
      → height ≤ fuel
      → (k : ℕ) × (b' : BNode) × (b_tree_insert h fuel rid (record { pool = pool; tables = s })
          ≡ some (rid, record { pool = written leaf_at b' pool; tables = s }))
        × Splits (λ r. is_minus (sign r)) leaf.row_ptr leaf.n k
        × LeafInserted k rid leaf b'
  unfolding b_tree_insert
  b_tree_insert-Inserted fuel height leaf_at leaf ctrl sign pool s head lead signs order few whole
        le =
      let root = ctrl.root_node in
      let (k, (at_place, splits)) =
        find_index-Splits leaf rid 1 (cmp s) sign signs order (omega arith) in
      let inside = splits.inside in
      let (b', (ran, inserted)) = leaf_insert-Inserted k rid leaf whole few inside in
      let (q, there) = first_page height root leaf_at leaf lead in
      let r : Room (cmp s) leaf k = record {
        at_place = at_place;
        inside = inside;
        few = few;
        whole = whole;
      } in
      let start : ChildEntry = record { addr = minus_one; rid = rid_null } in
      let rest =
        tree_insert_lem fuel height root leaf_at k leaf b' start (control ctrl)
          (pinned root (pinned 0 pool)) s head lead r ran le in
      (
        k,
        b',
        rw
            (
              get_page_lem 0 (control ctrl) pool s head,
              read_control_lem ctrl (pinned 0 pool) s head,
              get_page_lem root q (pinned 0 pool) s there,
              rest,
              release_lem root (written leaf_at b' (pinned 0 pool)) s,
              release_lem 0 (written leaf_at b' pool) s,
            )
            refl,
        splits,
        inserted,
      )
