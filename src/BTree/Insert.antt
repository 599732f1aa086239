-- ===== src/BTree/Insert.antt =====
-- The insertion of src/b_tree.c on one node: what tree_insert does to the arrays of a leaf and of
-- an inner node, with room and without.
--
-- DEGREE is 2, so a node has 4 rows and 5 children. A loop with two assignments to two nodes is
-- the two loops.
use simple_redis_database.Common.{
  ℕ, ◌+◌, ◌-◌, ◌*◌, Option, some, ltb, ◌==◌, if◌then◌else◌, ◌>>=◌, get_elem?, replicate,
}
use simple_redis_database.FileIo.{minus_one}
use simple_redis_database.Rid.{Rid, rid_null}
use simple_redis_database.BTree.{BNode, degree}
use simple_redis_database.BTree.Arrays.{put, shift_up, fill, copy}

pub record ChildEntry : Type 0 where
  pub addr : ℕ
  pub rid : Rid

-- A new node: the loops set every child and every row.
unfoldable pub blank : (n leaf : ℕ) → BNode
blank n leaf = record {
  n = n;
  next = minus_one;
  child = replicate (2 * degree + 1) minus_one;
  row_ptr = replicate (2 * degree) rid_null;
  leaf = leaf;
}

unfoldable pub leaf_insert : ℕ → Rid → BNode → Option BNode
unfolding shift_up put
leaf_insert index rid bnode = do
  rows ← shift_up (bnode.n - index) (bnode.n - 1) bnode.row_ptr
  rows ← put rows index rid
  some (record bnode { row_ptr = rows; n = bnode.n + 1 })

-- The full leaf and the new one behind it, whose page is `addr`.
unfoldable pub leaf_split : ℕ → Rid → ℕ → BNode → Option (BNode × BNode)
unfolding blank copy fill shift_up put
leaf_split index rid addr bnode = do
  let node = blank (degree + 1) 1
  let right =
      if ltb index degree then copy (degree + 1) node.row_ptr 0 bnode.row_ptr (degree - 1) else (do
        rows ← copy (index - degree) node.row_ptr 0 bnode.row_ptr degree
        rows ← put rows (index - degree) rid
        copy (2 * degree - index) rows (index - degree + 1) bnode.row_ptr index)
  let left =
      if ltb index degree
      then (do
        rows ← fill (degree + 1) (degree - 1) rid_null bnode.row_ptr
        rows ← shift_up (degree - 1 - index) (degree - 2) rows
        put rows index rid)
      else fill degree degree rid_null bnode.row_ptr
  node_rows ← right
  rows ← left
  some (
    record bnode { row_ptr = rows; n = degree; next = addr },
    record node { row_ptr = node_rows; next = bnode.next },
  )

-- The entry is the child to insert behind place `index` and the row that separates it.
unfoldable pub inner_insert : ℕ → ChildEntry → BNode → Option BNode
unfolding shift_up put
inner_insert index entry bnode = do
  rows ← shift_up (bnode.n - index) (bnode.n - 1) bnode.row_ptr
  children ← shift_up (bnode.n - index) bnode.n bnode.child
  children ← put children (index + 1) entry.addr
  rows ← put rows index entry.rid
  some (record bnode { row_ptr = rows; child = children; n = bnode.n + 1 })

-- The new node of a split behind the middle: index > DEGREE.
unfoldable pub split_behind : ℕ → ChildEntry → BNode → Option (BNode × (BNode × Rid))
unfolding blank copy fill put
split_behind index entry bnode = do
  let node = blank degree 0
  middle ← get_elem? bnode.row_ptr degree
  rows ← copy (index - degree - 1) node.row_ptr 0 bnode.row_ptr (degree + 1)
  rows ← put rows (index - degree - 1) entry.rid
  rows ← copy (2 * degree - index) rows (index - degree) bnode.row_ptr index
  old_rows ← fill degree degree rid_null bnode.row_ptr
  children ← copy (index - degree) node.child 0 bnode.child (degree + 1)
  children ← put children (index - degree) entry.addr
  children ← copy (2 * degree - index) children (index - degree + 1) bnode.child (index + 1)
  children ← fill (degree - 1) (degree + 1) minus_one children
  some (
    record bnode { row_ptr = old_rows; n = degree },
    (record node { row_ptr = rows; child = children }, middle),
  )

-- index == DEGREE: the row of the entry is the middle.
unfoldable pub split_at : ChildEntry → BNode → Option (BNode × (BNode × Rid))
unfolding blank copy fill put
split_at entry bnode = do
  let node = blank degree 0
  rows ← copy degree node.row_ptr 0 bnode.row_ptr degree
  old_rows ← fill degree degree rid_null bnode.row_ptr
  children ← put node.child 0 entry.addr
  children ← copy degree children 1 bnode.child (degree + 1)
  some (
    record bnode { row_ptr = old_rows; n = degree },
    (record node { row_ptr = rows; child = children }, entry.rid),
  )

-- index < DEGREE
unfoldable pub split_before : ℕ → ChildEntry → BNode → Option (BNode × (BNode × Rid))
unfolding blank copy fill shift_up put
split_before index entry bnode = do
  let node = blank degree 0
  middle ← get_elem? bnode.row_ptr (degree - 1)
  rows ← copy degree node.row_ptr 0 bnode.row_ptr degree
  old_rows ← fill degree degree rid_null bnode.row_ptr
  children ← copy (degree + 1) node.child 0 bnode.child degree
  old_rows ← shift_up (degree - 1 - index) (degree - 2) old_rows
  old_rows ← put old_rows index entry.rid
  old_children ← shift_up (degree - 1 - index) (degree - 1) bnode.child
  old_children ← put old_children (index + 1) entry.addr
  some (
    record bnode { row_ptr = old_rows; child = old_children; n = degree },
    (record node { row_ptr = rows; child = children }, middle),
  )

-- The full inner node, the new one behind it, and the row between them.
unfoldable pub inner_split : ℕ → ChildEntry → BNode → Option (BNode × (BNode × Rid))
unfolding split_before split_at split_behind
inner_split index entry bnode =
    if ltb degree index
    then split_behind index entry bnode
    else if index == degree
    then split_at entry bnode
    else split_before index entry bnode
