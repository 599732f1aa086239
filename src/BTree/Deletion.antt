-- ===== src/BTree/Deletion.antt =====
-- b_tree_delete of src/b_tree.c where the leaf keeps enough rows.
use simple_redis_database.Common.{
  ◌+◌, List, Bool, get_or, ℕ, zero, suc, ◌<◌, ◌≤◌, ◌≡◌, refl, ap, ◌∙◌, ◌⊎◌, inl, inr, Option, some,
  ltb, length, true, false, Bool-cases, arith,
}
use simple_redis_database.Rid.{Rid, rid_null}
use simple_redis_database.Str.{Sign}
use simple_redis_database.PageStore.{Pages}
use simple_redis_database.BTree.{BNode, is_minus, find_index, degree}
use simple_redis_database.BTree.Store.{Handlers, BPage, BCtrlBlock, control, node}
use simple_redis_database.BTree.Remove.{remove_row}
use simple_redis_database.BTree.Shrink.{tree_delete, b_tree_delete}
use simple_redis_database.BTree.Index.{Splits, Signs, Ordered, find_index-Splits}
use simple_redis_database.BTree.Removal.{RowRemoved, remove_row-Removed}
use simple_redis_database.BTree.Scan.{entry_lem, read_node_lem}
use simple_redis_database.BTree.Search.{pinned, get_page_lem, release_lem, read_control_lem}
use simple_redis_database.BTree.Insertion.{
  written, Leads, here, below, tree, find_lem, write_node_lem, first_page,
}

lt_or_le : (i k : ℕ) → (i < k) ⊎ (k ≤ i)
lt_or_le i k = elim (Bool-cases (ltb i k)) [
  | inl lt ↦ inl (ground arith)
  | inr le ↦ inr (ground arith)
]

module _ (h : Handlers) (rid : Rid) where
  open h use {State, cmp}

  -- Without one row, the leaf still has DEGREE rows.
  tree_delete_lem :
      (fuel height parent at leaf_at k : ℕ) (leaf b' : BNode) (old : Rid) (p : BPage)
      (pool : Pages BPage) (s : State)
      → pool.page 0 ≡ some p
      → Leads pool.page (cmp s) rid height at leaf_at leaf
      → find_index leaf rid 1 (cmp s) ≡ some k
      → degree < leaf.n
      → remove_row k leaf ≡ some b'
      → height ≤ fuel
      → tree_delete h fuel parent at rid old (tree h rid pool s)
        ≡ some (rid_null, tree h rid (written leaf_at b' pool) s)
  unfolding tree_delete
  tree_delete_lem zero height parent at leaf_at k leaf b' old p pool s head (here at' b e l) place
        many i le =
      absurd (omega arith)
  tree_delete_lem zero height parent at leaf_at k leaf b' old p pool s head
        (below x at' j child y b z e l to next d) place many i le =
      absurd (omega arith)
  tree_delete_lem (suc fuel) height parent at leaf_at k leaf b' old p pool s head (here at' b e l)
        place many i le =
      let enough : ltb degree b.n ≡ true = ground arith in
      rw
        (
          get_page_lem 0 p pool s head,
          read_node_lem at b (pinned 0 pool) s e,
          find_lem h rid b k (pinned 0 pool) s place,
          l,
          enough,
          i,
          write_node_lem h rid at b' (pinned 0 pool) s,
          release_lem 0 (written at b' pool) s,
        )
        refl
  tree_delete_lem (suc fuel) height parent at leaf_at k leaf b' old p pool s head
        (below x at' j child y b z e l to next d) place many i le =
      let (q, there) = first_page h rid x child y z d in
      let rest =
        tree_delete_lem fuel x at child y k z b' old p (pinned child (pinned 0 pool)) s head d place
          many i (omega arith) in
      rw
        (
          get_page_lem 0 p pool s head,
          read_node_lem at b (pinned 0 pool) s e,
          find_lem h rid b j (pinned 0 pool) s to,
          l,
          entry_lem b.child j child (tree h rid (pinned 0 pool) s) next,
          get_page_lem child q (pinned 0 pool) s there,
          rest,
          release_lem child (written y b' (pinned 0 pool)) s,
          release_lem 0 (written y b' pool) s,
        )
        refl

  positive :
      {page : ℕ → Option BPage} {c : Rid → Rid → ℕ → ℕ → Option Sign} (height at leaf_at : ℕ)
      (leaf : BNode)
      → Leads page c rid height at leaf_at leaf
      → 0 < height
  positive height at leaf_at leaf (here at' b e l) = omega arith
  positive height at leaf_at leaf (below x at' j child y b z e l to next d) = omega arith

  root_lem :
      (fuel height leaf_at k : ℕ) (leaf b' : BNode) (ctrl : BCtrlBlock) (pool : Pages BPage)
      (s : State)
      → pool.page 0 ≡ some (control ctrl)
      → Leads pool.page (cmp s) rid height ctrl.root_node leaf_at leaf
      → find_index leaf rid 1 (cmp s) ≡ some k
      → (height ≡ 1) ⊎ (degree < leaf.n)
      → remove_row k leaf ≡ some b'
      → height ≤ fuel
      → b_tree_delete h fuel rid (tree h rid pool s)
        ≡ some (tt, tree h rid (written leaf_at b' pool) s)
  unfolding b_tree_delete
  root_lem fuel height leaf_at k leaf b' ctrl pool s head (here at b e l) place many i le =
      let root = ctrl.root_node in
      rw
        (
          get_page_lem 0 (control ctrl) pool s head,
          read_control_lem ctrl (pinned 0 pool) s head,
          get_page_lem root (node b) (pinned 0 pool) s e,
          read_node_lem root b (pinned root (pinned 0 pool)) s e,
          find_lem h rid b k (pinned root (pinned 0 pool)) s place,
          l,
          i,
          write_node_lem h rid root b' (pinned root (pinned 0 pool)) s,
          release_lem root (written root b' (pinned 0 pool)) s,
          release_lem 0 (written root b' pool) s,
        )
        refl
  root_lem fuel height leaf_at k leaf b' ctrl pool s head (below x at j child y b z e l to next d)
        place many i le =
      let root = ctrl.root_node in
      let (q, there) = first_page h rid x child y z d in
      let pos = positive x child y z d in
      let enough : degree < z.n = elim many [ inl one ↦ absurd (omega arith) | inr more ↦ more ] in
      let rest =
        tree_delete_lem fuel x root child y k z b' rid_null (control ctrl)
          (pinned child (pinned root (pinned 0 pool))) s head d place enough i (omega arith) in
      rw
        (
          get_page_lem 0 (control ctrl) pool s head,
          read_control_lem ctrl (pinned 0 pool) s head,
          get_page_lem root (node b) (pinned 0 pool) s e,
          read_node_lem root b (pinned root (pinned 0 pool)) s e,
          find_lem h rid b j (pinned root (pinned 0 pool)) s to,
          l,
          entry_lem b.child j child (tree h rid (pinned root (pinned 0 pool)) s) next,
          get_page_lem child q (pinned root (pinned 0 pool)) s there,
          rest,
          release_lem child (written y b' (pinned root (pinned 0 pool))) s,
          release_lem root (written y b' (pinned 0 pool)) s,
          release_lem 0 (written y b' pool) s,
        )
        refl

  -- The last row that is not behind the key is at place `i`.
  place_of :
      (before : Rid → Bool) (rows : List Rid) (n k i : ℕ)
      → Splits before rows n k
      → i < n
      → before (get_or rows i rid_null) ≡ false
      → (i + 1 < n → before (get_or rows (i + 1) rid_null) ≡ true)
      → k ≡ i + 1
  place_of before rows n k i splits lt no_i next =
      let inside = splits.inside in
      elim (lt_or_le i k) [
        | inr le ↦ (let yes = splits.right i le lt in cc)
        | inl up ↦ elim (lt_or_le (i + 1) k) [
          | inl further ↦
              (let no = splits.left (i + 1) further in let yes = next (omega arith) in cc)
          | inr le ↦ omega arith
        ]
      ]

  -- Where find_index leads a row from the root of the index to a leaf, in an order that the comparison
  -- with the row respects, in which the row at place `i` is the last that is not behind it, and which is
  -- the root or has more than DEGREE rows, and with fuel for the height, b_tree_delete ends: exactly the
  -- row at place `i` is gone from that leaf; every other page, the pins, the length of the file and the
  -- tables are as before.
  pub b_tree_delete-Removed :
      (fuel height leaf_at i : ℕ) (leaf : BNode) (ctrl : BCtrlBlock) (sign : Rid → Sign)
      (pool : Pages BPage) (s : State)
      → pool.page 0 ≡ some (control ctrl)
      → Leads pool.page (cmp s) rid height ctrl.root_node leaf_at leaf
      → Signs (λ r. cmp s rid r 1 leaf.leaf) sign leaf.row_ptr leaf.n
      → Ordered (λ r. is_minus (sign r)) leaf.row_ptr leaf.n
      → i < leaf.n
      → is_minus (sign (get_or leaf.row_ptr i rid_null)) ≡ false
      → (i + 1 < leaf.n → is_minus (sign (get_or leaf.row_ptr (i + 1) rid_null)) ≡ true)
      → (height ≡ 1) ⊎ (degree < leaf.n)
      → leaf.n ≤ 4
      → length leaf.row_ptr ≡ 4
      → height ≤ fuel
      → (b' : BNode) × (b_tree_delete h fuel rid (record { pool = pool; tables = s })
          ≡ some (tt, record { pool = written leaf_at b' pool; tables = s }))
        × RowRemoved (i + 1) leaf b'
  b_tree_delete-Removed fuel height leaf_at i leaf ctrl sign pool s head lead signs order lt no_i
        next many four whole le =
      let (k, (at_place, splits)) =
        find_index-Splits leaf rid 1 (cmp s) sign signs order (omega arith) in
      let same = place_of (λ r. is_minus (sign r)) leaf.row_ptr leaf.n k i splits lt no_i next in
      let (b', (ran, removed)) =
        remove_row-Removed (i + 1) leaf whole four (omega arith) (omega arith) in
      (
        b',
        root_lem fuel height leaf_at (i + 1) leaf b' ctrl pool s head lead (at_place ∙ ap some same)
            many ran le,
        removed,
      )
