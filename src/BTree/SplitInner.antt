-- ===== src/BTree/SplitInner.antt =====
-- What tree_insert of src/b_tree.c does to the rows and the children of an inner node. DEGREE is 2.
use simple_redis_database.Common.{
  ℕ, zero, suc, ◌+◌, ◌<◌, ◌≤◌, ◌≡◌, refl, some, List, [], ◌∷◌, ◌++◌, length, arith,
}
use simple_redis_database.Rid.{Rid}
use simple_redis_database.BTree.{BNode}
use simple_redis_database.BTree.Insert.{ChildEntry, inner_insert, inner_split}
use simple_redis_database.BTree.Split.{insert_at, four, five, rows, children}

-- A node with the given arrays.
abbrev pub with_arrays : (n : ℕ) (xs : List Rid) (cs : List ℕ) → BNode → BNode
with_arrays n xs cs m = record m { n = n; row_ptr = xs; child = cs }

pub record InnerInserted (index : ℕ) (new : ChildEntry) (b b' : BNode) : Type 0 where
  pub row_at_place : rows b' ≡ insert_at index new.rid (rows b)
  pub child_behind : children b' ≡ insert_at (index + 1) new.addr (children b)
  pub count : b'.n ≡ b.n + 1
  pub whole : (length b'.row_ptr ≡ 4) × (length b'.child ≡ 5)
  pub rest : (b'.next ≡ b.next) × (b'.leaf ≡ b.leaf)

module _ (a b c d : Rid) (p q r s t : ℕ) (new : ChildEntry) (m : BNode) where
  abbrev start : ℕ → BNode
  start n = with_arrays n (a ∷ b ∷ c ∷ d ∷ []) (p ∷ q ∷ r ∷ s ∷ t ∷ []) m

  inner_insert_at :
      (n index : ℕ)
      → n < 4
      → index ≤ n
      → (b' : BNode) × ((inner_insert index new (start n) ≡ some b')
          × InnerInserted index new (start n) b')
  unfolding inner_insert
  inner_insert_at zero zero lt le = (
    _,
    (
      refl,
      record {
        row_at_place = refl;
        child_behind = refl;
        count = refl;
        whole = (refl, refl);
        rest = (refl, refl);
      },
    ),
  )
  inner_insert_at zero (suc index) lt le = absurd (omega arith)
  inner_insert_at (suc zero) zero lt le = (
    _,
    (
      refl,
      record {
        row_at_place = refl;
        child_behind = refl;
        count = refl;
        whole = (refl, refl);
        rest = (refl, refl);
      },
    ),
  )
  inner_insert_at (suc zero) (suc zero) lt le = (
    _,
    (
      refl,
      record {
        row_at_place = refl;
        child_behind = refl;
        count = refl;
        whole = (refl, refl);
        rest = (refl, refl);
      },
    ),
  )
  inner_insert_at (suc zero) (suc (suc index)) lt le = absurd (omega arith)
  inner_insert_at (suc (suc zero)) zero lt le = (
    _,
    (
      refl,
      record {
        row_at_place = refl;
        child_behind = refl;
        count = refl;
        whole = (refl, refl);
        rest = (refl, refl);
      },
    ),
  )
  inner_insert_at (suc (suc zero)) (suc zero) lt le = (
    _,
    (
      refl,
      record {
        row_at_place = refl;
        child_behind = refl;
        count = refl;
        whole = (refl, refl);
        rest = (refl, refl);
      },
    ),
  )
  inner_insert_at (suc (suc zero)) (suc (suc zero)) lt le = (
    _,
    (
      refl,
      record {
        row_at_place = refl;
        child_behind = refl;
        count = refl;
        whole = (refl, refl);
        rest = (refl, refl);
      },
    ),
  )
  inner_insert_at (suc (suc zero)) (suc (suc (suc index))) lt le = absurd (omega arith)
  inner_insert_at (suc (suc (suc zero))) zero lt le = (
    _,
    (
      refl,
      record {
        row_at_place = refl;
        child_behind = refl;
        count = refl;
        whole = (refl, refl);
        rest = (refl, refl);
      },
    ),
  )
  inner_insert_at (suc (suc (suc zero))) (suc zero) lt le = (
    _,
    (
      refl,
      record {
        row_at_place = refl;
        child_behind = refl;
        count = refl;
        whole = (refl, refl);
        rest = (refl, refl);
      },
    ),
  )
  inner_insert_at (suc (suc (suc zero))) (suc (suc zero)) lt le = (
    _,
    (
      refl,
      record {
        row_at_place = refl;
        child_behind = refl;
        count = refl;
        whole = (refl, refl);
        rest = (refl, refl);
      },
    ),
  )
  inner_insert_at (suc (suc (suc zero))) (suc (suc (suc zero))) lt le = (
    _,
    (
      refl,
      record {
        row_at_place = refl;
        child_behind = refl;
        count = refl;
        whole = (refl, refl);
        rest = (refl, refl);
      },
    ),
  )
  inner_insert_at (suc (suc (suc zero))) (suc (suc (suc (suc index)))) lt le = absurd (omega arith)
  inner_insert_at (suc (suc (suc (suc n)))) index lt le = absurd (omega arith)

pub record InnerSplit (index : ℕ) (new : ChildEntry) (b left right : BNode) (middle : Rid)
    : Type 0 where
  pub rows_in_order : rows left ++ middle ∷ rows right ≡ insert_at index new.rid (rows b)
  pub children_in_order :
      children left ++ children right ≡ insert_at (index + 1) new.addr (children b)
  pub counts : (left.n ≡ 2) × (right.n ≡ 2)
  pub whole :
      (length left.row_ptr ≡ 4)
      × (length left.child ≡ 5)
      × (length right.row_ptr ≡ 4)
      × (length right.child ≡ 5)
  pub rest : (left.next ≡ b.next) × (left.leaf ≡ b.leaf) × (right.leaf ≡ 0)

module _ (a b c d : Rid) (p q r s t : ℕ) (new : ChildEntry) (m : BNode) where
  inner_split_at :
      (index : ℕ)
      → index ≤ 4
      → (left : BNode) × ((right : BNode) × ((middle : Rid) × ((inner_split index new
                  (start a b c d p q r s t new m 4)
                ≡ some (left, (right, middle)))
              × InnerSplit index new (start a b c d p q r s t new m 4) left right middle)))
  unfolding inner_split
  inner_split_at zero le = (
    _,
    (
      _,
      (
        _,
        (
          refl,
          record {
            rows_in_order = refl;
            children_in_order = refl;
            counts = (refl, refl);
            whole = (refl, refl, refl, refl);
            rest = (refl, refl, refl);
          },
        ),
      ),
    ),
  )
  inner_split_at (suc zero) le = (
    _,
    (
      _,
      (
        _,
        (
          refl,
          record {
            rows_in_order = refl;
            children_in_order = refl;
            counts = (refl, refl);
            whole = (refl, refl, refl, refl);
            rest = (refl, refl, refl);
          },
        ),
      ),
    ),
  )
  inner_split_at (suc (suc zero)) le = (
    _,
    (
      _,
      (
        _,
        (
          refl,
          record {
            rows_in_order = refl;
            children_in_order = refl;
            counts = (refl, refl);
            whole = (refl, refl, refl, refl);
            rest = (refl, refl, refl);
          },
        ),
      ),
    ),
  )
  inner_split_at (suc (suc (suc zero))) le = (
    _,
    (
      _,
      (
        _,
        (
          refl,
          record {
            rows_in_order = refl;
            children_in_order = refl;
            counts = (refl, refl);
            whole = (refl, refl, refl, refl);
            rest = (refl, refl, refl);
          },
        ),
      ),
    ),
  )
  inner_split_at (suc (suc (suc (suc zero)))) le = (
    _,
    (
      _,
      (
        _,
        (
          refl,
          record {
            rows_in_order = refl;
            children_in_order = refl;
            counts = (refl, refl);
            whole = (refl, refl, refl, refl);
            rest = (refl, refl, refl);
          },
        ),
      ),
    ),
  )
  inner_split_at (suc (suc (suc (suc (suc index))))) le = absurd (omega arith)

module _ (index : ℕ) (new : ChildEntry) (b : BNode) where
  -- In an inner node with fewer than 4 rows and whole arrays, the new row goes to place `index`, at
  -- most n, and the new child to the place behind it; n is one more, and the rest is the same.
  pub inner_insert-Inserted :
      length b.row_ptr ≡ 4
      → length b.child ≡ 5
      → b.n < 4
      → index ≤ b.n
      → (b' : BNode) × ((inner_insert index new b ≡ some b') × InnerInserted index new b b')
  inner_insert-Inserted e f lt le =
      let (x, (y, (z, (w, same)))) = four b.row_ptr e in
      let (p, (q, (r, (s, (t, same'))))) = five b.child f in
      rw (same, same') (inner_insert_at x y z w p q r s t new b b.n index lt le)

  -- Splitting a full inner node with a new row for place `index`, at most 4: the rows of the left
  -- node, the row for the parent and the rows of the right node are the old rows with the new one at
  -- its place, and the children of the two are the old ones with the new child behind it.
  pub inner_split-Split :
      length b.row_ptr ≡ 4
      → length b.child ≡ 5
      → b.n ≡ 4
      → index ≤ 4
      → (left : BNode) × ((right : BNode) × ((middle : Rid) × ((inner_split index new b
                ≡ some (left, (right, middle)))
              × InnerSplit index new b left right middle)))
  inner_split-Split e f full le =
      let (x, (y, (z, (w, same)))) = four b.row_ptr e in
      let (p, (q, (r, (s, (t, same'))))) = five b.child f in
      rw (same, same', full) (inner_split_at x y z w p q r s t new b index le)
