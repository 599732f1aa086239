-- ===== src/BTree/Shrink.antt =====
-- tree_delete and b_tree_delete of src/b_tree.c.
--
-- A `BNode *` is the address of its page, and a node and its sibling are different pages. The RID
-- that `oldchildentry` holds afterwards is the result; its address is -1 if the parent keeps its
-- rows. tree_delete takes more fuel than the height of the tree.
use simple_redis_database.Common.{ℕ, zero, suc, ◌+◌, ◌==◌, ltb, leb, if◌then◌else◌}
use simple_redis_database.Common.Run.{Run, ◌>>=◌, ◌>>◌, pure, fail, lift, entry}
use simple_redis_database.FileIo.{minus_one}
use simple_redis_database.Rid.{Rid, rid_null}
use simple_redis_database.BTree.{BNode, degree}
use simple_redis_database.BTree.Arrays.{put}
use simple_redis_database.BTree.Remove.{
  remove_row, remove_child, leaf_borrow_next, leaf_merge_next, leaf_borrow_prev, leaf_merge_prev,
  inner_borrow_next, inner_merge_next, inner_borrow_prev, inner_merge_prev, pred,
}
use simple_redis_database.BTree.Store.{
  Handlers, Tree, get_page, release, read_control, write_control, read_node, write_node, find,
  copy_key, drop_key,
}

module _ (h : Handlers) where
  abbrev Action : Type 0 → Type 0
  Action A = Run (Tree (Handlers.State h)) A

  -- A page that is no longer used is put before the free ones.
  unfoldable pub free_node : ℕ → BNode → Action (Unit {0})
  free_node addr b = do
    ctrl ← read_control
    write_node addr (record b { next = ctrl.free_node_head })
    write_control (record ctrl { free_node_head = addr })

  -- The row at `place` of the node at `at` becomes `rid`.
  unfoldable pub set_row : ℕ → ℕ → Rid → Action (Unit {0})
  unfolding put
  set_row at place rid = do
    b ← read_node at
    rows ← lift (put b.row_ptr place rid)
    write_node at (record b { row_ptr = rows })

  -- A leaf with DEGREE rows loses the row before `index`: with the sibling behind it, at place
  -- `place` + 1 of the parent.
  unfoldable pub leaf_with_next : ℕ → ℕ → ℕ → ℕ → Action Rid
  unfolding leaf_borrow_next leaf_merge_next set_row free_node
  leaf_with_next parent at index place = do
    p ← read_node parent
    side ← entry p.child (place + 1)
    get_page side
    child ← read_node at
    sibling ← read_node side
    middle ← entry p.row_ptr place
    old ←
        if ltb degree sibling.n
        then (do
          (child', sibling') ← lift (leaf_borrow_next index child sibling)
          write_node at child'
          write_node side sibling'
          drop_key h middle
          first ← entry sibling'.row_ptr 0
          key ← copy_key h first 1
          set_row parent place key
          pure rid_null)
        else (do
          child' ← lift (leaf_merge_next index child sibling)
          write_node at child'
          free_node side sibling
          pure middle)
    release side
    pure old

  -- With the sibling before it, at place `place` - 1 of the parent.
  unfoldable pub leaf_with_prev : ℕ → ℕ → ℕ → ℕ → Action Rid
  unfolding leaf_borrow_prev leaf_merge_prev set_row free_node
  leaf_with_prev parent at index place = do
    p ← read_node parent
    side ← entry p.child (pred place)
    get_page side
    child ← read_node at
    sibling ← read_node side
    middle ← entry p.row_ptr (pred place)
    old ←
        if ltb degree sibling.n
        then (do
          (child', sibling') ← lift (leaf_borrow_prev index child sibling)
          write_node at child'
          write_node side sibling'
          drop_key h middle
          first ← entry child'.row_ptr 0
          key ← copy_key h first 1
          set_row parent (pred place) key
          pure rid_null)
        else (do
          (child', sibling') ← lift (leaf_merge_prev index child sibling)
          write_node side sibling'
          last ← entry p.child place
          write_node at child'
          ctrl ← read_control
          write_node at (record child' { next = ctrl.free_node_head })
          write_control (record ctrl { free_node_head = last })
          pure middle)
    release side
    pure old

  -- An inner node with fewer than DEGREE rows: with the sibling behind it.
  unfoldable pub inner_with_next : ℕ → ℕ → ℕ → Action Rid
  unfolding inner_borrow_next inner_merge_next set_row free_node
  inner_with_next parent at place = do
    p ← read_node parent
    side ← entry p.child (place + 1)
    get_page side
    child ← read_node at
    sibling ← read_node side
    middle ← entry p.row_ptr place
    old ←
        if ltb degree sibling.n
        then (do
          (child', (sibling', first)) ← lift (inner_borrow_next middle child sibling)
          write_node at child'
          set_row parent place first
          write_node side sibling'
          pure rid_null)
        else (do
          key ← copy_key h middle 0
          child' ← lift (inner_merge_next key child sibling)
          write_node at child'
          free_node side sibling
          pure middle)
    release side
    pure old

  unfoldable pub inner_with_prev : ℕ → ℕ → ℕ → Action Rid
  unfolding inner_borrow_prev inner_merge_prev set_row
  inner_with_prev parent at place = do
    p ← read_node parent
    side ← entry p.child (pred place)
    get_page side
    child ← read_node at
    sibling ← read_node side
    middle ← entry p.row_ptr (pred place)
    old ←
        if ltb degree sibling.n
        then (do
          (child', (sibling', last)) ← lift (inner_borrow_prev middle child sibling)
          write_node at child'
          set_row parent (pred place) last
          write_node side sibling'
          pure rid_null)
        else (do
          key ← copy_key h middle 0
          sibling' ← lift (inner_merge_prev key child sibling)
          write_node side sibling'
          last ← entry p.child place
          ctrl ← read_control
          write_node at (record child { next = ctrl.free_node_head })
          write_control (record ctrl { free_node_head = last })
          pure middle)
    release side
    pure old

  -- What happens to an inner node when the row `old` below it has to go.
  unfoldable pub close_inner : ℕ → ℕ → Rid → Action Rid
  unfolding remove_child inner_with_next inner_with_prev
  close_inner parent at old = do
    child ← read_node at
    index ← find h child old 0
    drop_key h old
    child' ← lift (remove_child index child)
    write_node at child'
    if leb degree child'.n then pure rid_null else (do
      p ← read_node parent
      first ← entry child'.row_ptr 0
      place ← find h p first child'.leaf
      if place == p.n then inner_with_prev parent at place else inner_with_next parent at place)

  unfoldable pub tree_delete : ℕ → ℕ → ℕ → Rid → Rid → Action Rid
  unfolding remove_row leaf_with_next leaf_with_prev close_inner
  tree_delete zero parent at rid old = fail
  tree_delete (suc fuel) parent at rid old = do
    get_page 0
    child ← read_node at
    index ← find h child rid 1
    old ←
        if child.leaf == 0
        then (do
          below ← entry child.child index
          get_page below
          old ← tree_delete fuel at below rid old
          release below
          if old.block_addr == minus_one then pure old else close_inner parent at old)
        else if ltb degree child.n
        then (do child' ← lift (remove_row index child); write_node at child'; pure rid_null)
        else (do
          p ← read_node parent
          first ← entry child.row_ptr 0
          place ← find h p first child.leaf
          if place == p.n
              then leaf_with_prev parent at index place
              else leaf_with_next parent at index place)
    release 0
    pure old

  -- What happens to the root when the row `old` has to go.
  unfoldable pub close_root : ℕ → Rid → Action (Unit {0})
  unfolding remove_child
  close_root root old = do
    parent ← read_node root
    if ltb 1 parent.n
        then (do
          index ← find h parent old 0
          drop_key h old
          parent' ← lift (remove_child index parent)
          write_node root parent')
        else (do
          drop_key h old
          ctrl ← read_control
          first ← entry parent.child 0
          write_node root (record parent { n = pred parent.n; next = ctrl.free_node_head })
          write_control (record { root_node = first; free_node_head = ctrl.root_node }))

  unfoldable pub b_tree_delete : ℕ → Rid → Action (Unit {0})
  unfolding tree_delete close_root remove_row
  b_tree_delete fuel rid = do
    get_page 0
    ctrl ← read_control
    let root = ctrl.root_node
    get_page root
    parent ← read_node root
    index ← find h parent rid 1
    (if parent.leaf == 0
        then (do
          below ← entry parent.child index
          get_page below
          old ← tree_delete fuel root below rid rid_null
          (if old.block_addr == minus_one then pure tt else close_root root old)
          release below)
        else (do parent' ← lift (remove_row index parent); write_node root parent'))
    release root
    release 0
