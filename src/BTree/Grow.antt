-- ===== src/BTree/Grow.antt =====
-- tree_insert, b_tree_insert and b_tree_init of src/b_tree.c.
--
-- A `BNode *` is the address of its page; a new page is written to the file at once, since nothing
-- reads it in between. tree_insert takes more fuel than the height of the tree.
use simple_redis_database.Common.{ℕ, zero, suc, ◌+◌, ◌*◌, ◌==◌, ltb, if◌then◌else◌, set, replicate}
use simple_redis_database.Common.Run.{Run, ◌>>=◌, ◌>>◌, pure, fail, lift, entry}
use simple_redis_database.FileIo.{minus_one, page_size}
use simple_redis_database.Rid.{Rid, rid_null}
use simple_redis_database.BTree.{BNode, degree}
use simple_redis_database.BTree.Insert.{
  ChildEntry, blank, leaf_insert, leaf_split, inner_insert, inner_split,
}
use simple_redis_database.BTree.Store.{
  Handlers, Tree, get_page, release, read_control, write_control, read_node, write_node,
  append_node, file_length, find, copy_key, append_control,
}

module _ (h : Handlers) where
  abbrev Action : Type 0 → Type 0
  Action A = Run (Tree (Handlers.State h)) A

  -- A full leaf: the page of the new leaf is the end of the file or the first free one.
  unfoldable pub split_leaf : ℕ → ℕ → Rid → Action ChildEntry
  unfolding leaf_split
  split_leaf at index rid = do
    ctrl ← read_control
    bnode ← read_node at
    if ctrl.free_node_head == minus_one
        then (do
          addr ← file_length
          (left, right) ← lift (leaf_split index rid addr bnode)
          write_node at left
          first ← entry right.row_ptr 0
          key ← copy_key h first 1
          append_node right
          pure (record { addr = addr; rid = key }))
        else (do
          let addr = ctrl.free_node_head
          get_page addr
          free ← read_node addr
          write_control (record ctrl { free_node_head = free.next })
          (left, right) ← lift (leaf_split index rid addr bnode)
          write_node at left
          write_node addr right
          first ← entry right.row_ptr 0
          key ← copy_key h first 1
          release addr
          pure (record { addr = addr; rid = key }))

  -- A full inner node, with the entry that a split below has left.
  unfoldable pub split_inner : ℕ → ℕ → ChildEntry → Action ChildEntry
  unfolding inner_split
  split_inner at index new = do
    ctrl ← read_control
    bnode ← read_node at
    (left, (right, middle)) ← lift (inner_split index new bnode)
    if ctrl.free_node_head == minus_one
        then (do
          write_node at left
          addr ← file_length
          append_node right
          pure (record { addr = addr; rid = middle }))
        else (do
          let addr = ctrl.free_node_head
          get_page addr
          free ← read_node addr
          write_node at left
          write_control (record ctrl { free_node_head = free.next })
          write_node addr right
          release addr
          pure (record { addr = addr; rid = middle }))

  -- What `newchildentry` holds afterwards; its address is -1 if there is no new child.
  unfoldable pub tree_insert : ℕ → ℕ → Rid → ChildEntry → Action ChildEntry
  unfolding leaf_insert inner_insert split_leaf split_inner
  tree_insert zero at rid new = fail
  tree_insert (suc fuel) at rid new = do
    get_page 0
    bnode ← read_node at
    index ← find h bnode rid 1
    new ←
        if bnode.leaf == 0
        then (do
          child ← entry bnode.child index
          get_page child
          below ← tree_insert fuel child rid new
          release child
          bnode ← read_node at
          if below.addr == minus_one
              then pure below
              else if ltb bnode.n (2 * degree)
              then (do
                b ← lift (inner_insert index below bnode)
                write_node at b
                pure (record below { addr = minus_one }))
              else split_inner at index below)
        else if ltb bnode.n (2 * degree)
        then (do
          b ← lift (leaf_insert index rid bnode)
          write_node at b
          pure (record new { addr = minus_one }))
        else split_leaf at index rid
    release 0
    pure new

  -- The new root above the old one and the new child.
  abbrev new_root : ℕ → ChildEntry → BNode
  new_root old new = record (blank 1 0) {
    row_ptr = set (replicate (2 * degree) rid_null) 0 new.rid;
    child = set (set (replicate (2 * degree + 1) minus_one) 0 old) 1 new.addr;
  }

  unfoldable pub grow_root : ChildEntry → Action (Unit {0})
  unfolding blank
  grow_root new = do
    ctrl ← read_control
    let root = new_root ctrl.root_node new
    if ctrl.free_node_head == minus_one
        then (do
          addr ← file_length
          write_control (record ctrl { root_node = addr })
          append_node root)
        else (do
          let addr = ctrl.free_node_head
          get_page addr
          free ← read_node addr
          write_node addr root
          write_control (record ctrl { root_node = addr; free_node_head = free.next })
          release addr)

  unfoldable pub b_tree_insert : ℕ → Rid → Action Rid
  unfolding tree_insert grow_root
  b_tree_insert fuel rid = do
    get_page 0
    ctrl ← read_control
    get_page ctrl.root_node
    new ← tree_insert fuel ctrl.root_node rid (record { addr = minus_one; rid = rid_null })
    (if new.addr == minus_one then pure tt else grow_root new)
    release ctrl.root_node
    release 0
    pure rid

  -- The pages that b_tree_init writes when the file is empty.
  unfoldable pub b_tree_init : Action (Unit {0})
  unfolding blank
  b_tree_init = do
    len ← file_length
    if len == 0
        then (do
          append_control (record { root_node = page_size; free_node_head = minus_one })
          append_node (blank 0 1))
        else pure tt
