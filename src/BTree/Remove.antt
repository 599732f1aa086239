-- ===== src/BTree/Remove.antt =====
-- The deletion of src/b_tree.c on one or two nodes: what b_tree_delete and tree_delete do to the
-- arrays of a node that loses a row, and of a node and its sibling when rows move between them.
--
-- The place `index` is the one behind the row to remove. A loop from index - 1 up compares it with
-- an unsigned bound, so it makes no round for the place 0.
use simple_redis_database.Common.{
  ℕ, ◌+◌, ◌-◌, ◌*◌, ◌%◌, ◌^◌, Option, some, List, ◌==◌, if◌then◌else◌, ◌>>=◌, get_elem?,
}
use simple_redis_database.FileIo.{minus_one}
use simple_redis_database.Rid.{Rid, rid_null}
use simple_redis_database.BTree.{BNode, degree}
use simple_redis_database.BTree.Arrays.{put, shift_up, shift_down, copy}

-- n - 1 for a size_t
abbrev pub pred : ℕ → ℕ
pred n = (n + 2 ^ 64 - 1) % 2 ^ 64

-- Row index - 1 of the `n` rows is closed up.
unfoldable pub close_row : ℕ → ℕ → List Rid → Option (List Rid)
unfolding shift_down
close_row index n rows = shift_down (if index == 0 then 0 else n - index) (index - 1) rows

unfoldable pub remove_row : ℕ → BNode → Option BNode
unfolding close_row put
remove_row index bnode = do
  rows ← close_row index bnode.n bnode.row_ptr
  rows ← put rows (pred bnode.n) rid_null
  some (record bnode { row_ptr = rows; n = bnode.n - 1 })

-- The row before place `index` and the child behind it.
unfoldable pub remove_child : ℕ → BNode → Option BNode
unfolding remove_row shift_down put
remove_child index bnode = do
  b ← remove_row index bnode
  children ← shift_down (bnode.n - index) index bnode.child
  children ← put children bnode.n minus_one
  some (record b { child = children })

-- Leaves: the first row of the sibling behind the leaf moves to its end.
unfoldable pub leaf_borrow_next : ℕ → BNode → BNode → Option (BNode × BNode)
unfolding close_row shift_down put
leaf_borrow_next index child sibling = do
  rows ← close_row index degree child.row_ptr
  first ← get_elem? sibling.row_ptr 0
  rows ← put rows (degree - 1) first
  rest ← shift_down (sibling.n - 1) 0 sibling.row_ptr
  rest ← put rest (sibling.n - 1) rid_null
  some (record child { row_ptr = rows }, record sibling { row_ptr = rest; n = sibling.n - 1 })

-- The sibling behind the leaf is merged into it.
unfoldable pub leaf_merge_next : ℕ → BNode → BNode → Option BNode
unfolding close_row copy
leaf_merge_next index child sibling = do
  rows ← close_row index degree child.row_ptr
  rows ← copy degree rows (degree - 1) sibling.row_ptr 0
  some (record child { row_ptr = rows; next = sibling.next; n = 2 * degree - 1 })

-- The last row of the sibling before the leaf moves to its front.
unfoldable pub leaf_borrow_prev : ℕ → BNode → BNode → Option (BNode × BNode)
unfolding shift_up put
leaf_borrow_prev index child sibling = do
  rows ← shift_up (index - 1) (index - 2) child.row_ptr
  last ← get_elem? sibling.row_ptr (sibling.n - 1)
  rows ← put rows 0 last
  rest ← put sibling.row_ptr (sibling.n - 1) rid_null
  some (record child { row_ptr = rows }, record sibling { row_ptr = rest; n = sibling.n - 1 })

-- The leaf is merged into the sibling before it; both are returned, the leaf with its rows moved.
unfoldable pub leaf_merge_prev : ℕ → BNode → BNode → Option (BNode × BNode)
unfolding shift_up copy
leaf_merge_prev index child sibling = do
  rows ← shift_up (index - 1) (index - 2) child.row_ptr
  all ← copy (degree - 1) sibling.row_ptr degree rows 1
  some (
    record child { row_ptr = rows },
    record sibling { row_ptr = all; next = child.next; n = 2 * degree - 1 },
  )

-- Inner nodes: a row and a child move over the row of the parent that separates the two, `middle`.
unfoldable pub inner_borrow_next : Rid → BNode → BNode → Option (BNode × (BNode × Rid))
unfolding shift_down put
inner_borrow_next middle child sibling = do
  rows ← put child.row_ptr child.n middle
  first_child ← get_elem? sibling.child 0
  children ← put child.child (child.n + 1) first_child
  first ← get_elem? sibling.row_ptr 0
  rest ← shift_down (sibling.n - 1) 0 sibling.row_ptr
  rest ← put rest (sibling.n - 1) rid_null
  rest_children ← shift_down sibling.n 0 sibling.child
  rest_children ← put rest_children sibling.n minus_one
  some (
    record child { row_ptr = rows; child = children; n = child.n + 1 },
    (record sibling { row_ptr = rest; child = rest_children; n = sibling.n - 1 }, first),
  )

-- `key` is the copy of the row of the parent.
unfoldable pub inner_merge_next : Rid → BNode → BNode → Option BNode
unfolding copy put
inner_merge_next key child sibling = do
  rows ← put child.row_ptr child.n key
  rows ← copy degree rows degree sibling.row_ptr 0
  children ← copy (degree + 1) child.child degree sibling.child 0
  some (record child { row_ptr = rows; child = children; next = sibling.next; n = 2 * degree })

unfoldable pub inner_borrow_prev : Rid → BNode → BNode → Option (BNode × (BNode × Rid))
unfolding shift_up put
inner_borrow_prev middle child sibling = do
  rows ← shift_up (degree - 1) (degree - 2) child.row_ptr
  children ← shift_up degree (degree - 1) child.child
  rows ← put rows 0 middle
  last_child ← get_elem? sibling.child sibling.n
  children ← put children 0 last_child
  last ← get_elem? sibling.row_ptr (sibling.n - 1)
  rest ← put sibling.row_ptr (sibling.n - 1) rid_null
  rest_children ← put sibling.child sibling.n minus_one
  some (
    record child { row_ptr = rows; child = children; n = child.n + 1 },
    (record sibling { row_ptr = rest; child = rest_children; n = sibling.n - 1 }, last),
  )

unfoldable pub inner_merge_prev : Rid → BNode → BNode → Option BNode
unfolding copy put
inner_merge_prev key child sibling = do
  rows ← put sibling.row_ptr degree key
  rows ← copy (degree - 1) rows (degree + 1) child.row_ptr 0
  children ← copy degree sibling.child (degree + 1) child.child 0
  some (record sibling { row_ptr = rows; child = children; next = child.next; n = 2 * degree })
