-- ===== src/BTree/Lookup.antt =====
-- b_tree_search and tree_search of src/b_tree.c.
--
-- The comparison of the key with a row is an action, since the code's writes a string and deletes
-- it again. A `BNode *` is the address of its page. tree_search takes more fuel than the height.
use simple_redis_database.Common.{
  ℕ, zero, suc, ◌+◌, ◌-◌, ◌%◌, ◌^◌, Option, none, some, List, ◌==◌, if◌then◌else◌,
}
use simple_redis_database.Common.Run.{Run, ◌>>=◌, ◌>>◌, pure, fail, entry}
use simple_redis_database.Rid.{Rid, rid_null}
use simple_redis_database.Str.{Sign}
use simple_redis_database.BTree.{BNode, is_minus, is_zero}
use simple_redis_database.BTree.Store.{Tree, get_page, release, read_control, read_node}

module _ {S : Type 0} (cmp : Rid → ℕ → Run (Tree S) Sign) where
  -- `rounds` rounds from `i` on of the loop over the rows of a leaf
  unfoldable pub find_equal : List Rid → ℕ → ℕ → Run (Tree S) Rid
  find_equal rows zero i = pure rid_null
  find_equal rows (suc rounds) i = do
    row ← entry rows i
    sign ← cmp row 1
    if is_zero sign then pure row else find_equal rows rounds (i + 1)

  -- of the loop that looks for the two rows of an inner node around the key
  unfoldable pub find_around : List Rid → ℕ → ℕ → Run (Tree S) (Option ℕ)
  find_around rows zero i = pure none
  find_around rows (suc rounds) i = do
    row ← entry rows i
    sign ← cmp row 0
    if is_minus sign then find_around rows rounds (i + 1) else (do
      after ← entry rows (i + 1)
      sign ← cmp after 0
      if is_minus sign then pure (some (i + 1)) else find_around rows rounds (i + 1))

  -- The place of the child that the search goes to.
  unfoldable pub search_child : BNode → Run (Tree S) ℕ
  unfolding find_around
  search_child bnode = do
    first ← entry bnode.row_ptr 0
    sign ← cmp first 0
    if is_minus sign then pure 0 else (do
      found ← find_around bnode.row_ptr ((bnode.n + 2 ^ 64 - 1) % 2 ^ 64) 0
      elim found [
        | some k ↦ pure k
        | none ↦ do
          last ← entry bnode.row_ptr (bnode.n - 1)
          sign ← cmp last 0
          if is_minus sign then fail else pure bnode.n
      ])

  unfoldable pub tree_search : ℕ → ℕ → Run (Tree S) Rid
  unfolding find_equal search_child
  tree_search zero at = fail
  tree_search (suc fuel) at = do
    bnode ← read_node at
    if bnode.leaf == 0
        then (do
          k ← search_child bnode
          child ← entry bnode.child k
          get_page child
          rid ← tree_search fuel child
          release child
          pure rid)
        else find_equal bnode.row_ptr bnode.n 0

  unfoldable pub b_tree_search : ℕ → Run (Tree S) Rid
  unfolding tree_search
  b_tree_search fuel = do
    get_page 0
    ctrl ← read_control
    get_page ctrl.root_node
    rid ← tree_search fuel ctrl.root_node
    release ctrl.root_node
    release 0
    pure rid
