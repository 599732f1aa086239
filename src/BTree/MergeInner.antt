-- ===== src/BTree/MergeInner.antt =====
-- What the deletion of src/b_tree.c does to the rows and the children of an inner node and of its
-- sibling. DEGREE is 2.
use simple_redis_database.Common.{
  ℕ, zero, suc, ◌<◌, ◌≤◌, ◌≡◌, refl, ◌⊎◌, inl, inr, some, List, [], ◌∷◌, ◌++◌, length, arith,
}
use simple_redis_database.Rid.{Rid}
use simple_redis_database.BTree.{BNode}
use simple_redis_database.BTree.Remove.{
  inner_borrow_next, inner_merge_next, inner_borrow_prev, inner_merge_prev,
}
use simple_redis_database.BTree.Split.{four, five, rows, children}
use simple_redis_database.BTree.SplitInner.{with_arrays}

-- Two inner nodes with a row between them hold the rows `all` and the children `below`.
pub record InnerHold (all : List Rid) (below : List ℕ) (left : BNode) (middle : Rid) (right : BNode)
    : Type 0 where
  pub rows_together : rows left ++ middle ∷ rows right ≡ all
  pub children_together : children left ++ children right ≡ below
  pub enough : (2 ≤ left.n) × (2 ≤ right.n)
  pub within : (left.n ≤ 4) × (right.n ≤ 4)

-- One inner node holds them.
pub record InnerMerged (all : List Rid) (below : List ℕ) (b : BNode) : Type 0 where
  pub rows_together : rows b ≡ all
  pub children_together : children b ≡ below
  pub count : b.n ≡ 4

module _ (a b c d e f g h middle : Rid) (p q r s t p' q' r' s' t' : ℕ) (m l : BNode) where
  abbrev child : BNode
  child = with_arrays 1 (a ∷ b ∷ c ∷ d ∷ []) (p ∷ q ∷ r ∷ s ∷ t ∷ []) m

  abbrev sibling : ℕ → BNode
  sibling n = with_arrays n (e ∷ f ∷ g ∷ h ∷ []) (p' ∷ q' ∷ r' ∷ s' ∷ t' ∷ []) l

  borrow_next_at :
      (n : ℕ)
      → 2 < n
      → n ≤ 4
      → (left : BNode) × ((right : BNode) × ((first : Rid) × ((inner_borrow_next middle child
                  (sibling n)
                ≡ some (left, (right, first)))
              × InnerHold
                  (rows child ++ middle ∷ rows (sibling n))
                  (children child ++ children (sibling n))
                  left
                  first
                  right)))
  unfolding inner_borrow_next
  borrow_next_at zero lt le = absurd (omega arith)
  borrow_next_at (suc zero) lt le = absurd (omega arith)
  borrow_next_at (suc (suc zero)) lt le = absurd (omega arith)
  borrow_next_at (suc (suc (suc zero))) lt le = (
    _,
    (
      _,
      (
        _,
        (
          refl,
          record {
            rows_together = refl;
            children_together = refl;
            enough = (omega arith, omega arith);
            within = (omega arith, omega arith);
          },
        ),
      ),
    ),
  )
  borrow_next_at (suc (suc (suc (suc zero)))) lt le = (
    _,
    (
      _,
      (
        _,
        (
          refl,
          record {
            rows_together = refl;
            children_together = refl;
            enough = (omega arith, omega arith);
            within = (omega arith, omega arith);
          },
        ),
      ),
    ),
  )
  borrow_next_at (suc (suc (suc (suc (suc n))))) lt le = absurd (omega arith)

  borrow_prev_at :
      (n : ℕ)
      → 2 < n
      → n ≤ 4
      → (right : BNode) × ((left : BNode) × ((last : Rid) × ((inner_borrow_prev middle child
                  (sibling n)
                ≡ some (right, (left, last)))
              × InnerHold
                  (rows (sibling n) ++ middle ∷ rows child)
                  (children (sibling n) ++ children child)
                  left
                  last
                  right)))
  unfolding inner_borrow_prev
  borrow_prev_at zero lt le = absurd (omega arith)
  borrow_prev_at (suc zero) lt le = absurd (omega arith)
  borrow_prev_at (suc (suc zero)) lt le = absurd (omega arith)
  borrow_prev_at (suc (suc (suc zero))) lt le = (
    _,
    (
      _,
      (
        _,
        (
          refl,
          record {
            rows_together = refl;
            children_together = refl;
            enough = (omega arith, omega arith);
            within = (omega arith, omega arith);
          },
        ),
      ),
    ),
  )
  borrow_prev_at (suc (suc (suc (suc zero)))) lt le = (
    _,
    (
      _,
      (
        _,
        (
          refl,
          record {
            rows_together = refl;
            children_together = refl;
            enough = (omega arith, omega arith);
            within = (omega arith, omega arith);
          },
        ),
      ),
    ),
  )
  borrow_prev_at (suc (suc (suc (suc (suc n))))) lt le = absurd (omega arith)

  merge_next_at :
      (key : Rid)
      → (b' : BNode) × ((inner_merge_next key child (sibling 2) ≡ some b')
          × InnerMerged
              (rows child ++ key ∷ rows (sibling 2))
              (children child ++ children (sibling 2))
              b')
  unfolding inner_merge_next
  merge_next_at key =
      (_, (refl, record { rows_together = refl; children_together = refl; count = refl }))

  merge_prev_at :
      (key : Rid)
      → (b' : BNode) × ((inner_merge_prev key child (sibling 2) ≡ some b')
          × InnerMerged
              (rows (sibling 2) ++ key ∷ rows child)
              (children (sibling 2) ++ children child)
              b')
  unfolding inner_merge_prev
  merge_prev_at key =
      (_, (refl, record { rows_together = refl; children_together = refl; count = refl }))

-- An inner node that is left with one row, and a sibling.
pub record TooFew (child sibling : BNode) : Type 0 where
  pub one : child.n ≡ 1
  pub row_arrays : (length child.row_ptr ≡ 4) × (length sibling.row_ptr ≡ 4)
  pub child_arrays : (length child.child ≡ 5) × (length sibling.child ≡ 5)
  pub least : 2 ≤ sibling.n
  pub most : sibling.n ≤ 4

module _ (child sibling : BNode) (middle key : Rid) (few : TooFew child sibling) where
  -- An inner node is left with one row, and its sibling behind has between DEGREE and 2 * DEGREE. If
  -- the sibling has more than DEGREE, the row of the parent between the two comes down, its first
  -- row goes up and its first child moves over: rows and children keep their order, and each node
  -- has at least DEGREE rows. If it has DEGREE, the node takes all its rows and children behind the
  -- given copy of the row of the parent.
  pub inner_next-Hold :
      ((2 < sibling.n)
        × ((left : BNode) × ((right : BNode) × ((first : Rid) × ((inner_borrow_next middle child
                      sibling
                    ≡ some (left, (right, first)))
                  × InnerHold
                      (rows child ++ middle ∷ rows sibling)
                      (children child ++ children sibling)
                      left
                      first
                      right)))))
      ⊎ ((sibling.n ≡ 2)
          × ((b : BNode) × ((inner_merge_next key child sibling ≡ some b)
                × InnerMerged
                    (rows child ++ key ∷ rows sibling)
                    (children child ++ children sibling)
                    b)))
  inner_next-Hold =
      let (x, (y, (z, (w, e1)))) = four child.row_ptr few.row_arrays.0 in
      let (x', (y', (z', (w', e2)))) = four sibling.row_ptr few.row_arrays.1 in
      let (p, (q, (r, (s, (t, e3))))) = five child.child few.child_arrays.0 in
      let (p', (q', (r', (s', (t', e4))))) = five sibling.child few.child_arrays.1 in
      let one = few.one in
      let least = few.least in
      let size : (2 < sibling.n) ⊎ (sibling.n ≡ 2) = omega arith in
      elim size [
        | inl more ↦ inl (
          more,
          rw (e1, e2, e3, e4, one)
              (borrow_next_at x y z w x' y' z' w' middle p q r s t p' q' r' s' t' child sibling
                sibling.n more few.most),
        )
        | inr equal ↦ inr (
          equal,
          rw (e1, e2, e3, e4, one, equal)
              (merge_next_at x y z w x' y' z' w' middle p q r s t p' q' r' s' t' child sibling key),
        )
      ]

  -- An inner node is left with one row, and its sibling before it has between DEGREE and 2 * DEGREE.
  -- If the sibling has more than DEGREE, the row of the parent between the two comes down, its last
  -- row goes up and its last child moves over: rows and children keep their order, and each node
  -- has at least DEGREE rows. If it has DEGREE, it takes the given copy of the row of the parent and
  -- all rows and children of the node.
  pub inner_prev-Hold :
      ((2 < sibling.n)
        × ((right : BNode) × ((left : BNode) × ((last : Rid) × ((inner_borrow_prev middle child
                      sibling
                    ≡ some (right, (left, last)))
                  × InnerHold
                      (rows sibling ++ middle ∷ rows child)
                      (children sibling ++ children child)
                      left
                      last
                      right)))))
      ⊎ ((sibling.n ≡ 2)
          × ((b : BNode) × ((inner_merge_prev key child sibling ≡ some b)
                × InnerMerged
                    (rows sibling ++ key ∷ rows child)
                    (children sibling ++ children child)
                    b)))
  inner_prev-Hold =
      let (x, (y, (z, (w, e1)))) = four child.row_ptr few.row_arrays.0 in
      let (x', (y', (z', (w', e2)))) = four sibling.row_ptr few.row_arrays.1 in
      let (p, (q, (r, (s, (t, e3))))) = five child.child few.child_arrays.0 in
      let (p', (q', (r', (s', (t', e4))))) = five sibling.child few.child_arrays.1 in
      let one = few.one in
      let least = few.least in
      let size : (2 < sibling.n) ⊎ (sibling.n ≡ 2) = omega arith in
      elim size [
        | inl more ↦ inl (
          more,
          rw (e1, e2, e3, e4, one)
              (borrow_prev_at x y z w x' y' z' w' middle p q r s t p' q' r' s' t' child sibling
                sibling.n more few.most),
        )
        | inr equal ↦ inr (
          equal,
          rw (e1, e2, e3, e4, one, equal)
              (merge_prev_at x y z w x' y' z' w' middle p q r s t p' q' r' s' t' child sibling key),
        )
      ]
