-- ===== src/BTree/Merge.antt =====
-- What the deletion of src/b_tree.c does to the rows of a leaf and of its sibling. DEGREE is 2.
use simple_redis_database.Common.{
  ℕ, zero, suc, ◌-◌, ◌<◌, ◌≤◌, ◌≡◌, refl, ◌⊎◌, inl, inr, some, List, ◌++◌, length, arith,
}
use simple_redis_database.Rid.{Rid}
use simple_redis_database.BTree.{BNode}
use simple_redis_database.BTree.Remove.{
  leaf_borrow_next, leaf_merge_next, leaf_borrow_prev, leaf_merge_prev,
}
use simple_redis_database.BTree.Split.{four, rows, four_rows}
use simple_redis_database.BTree.Removal.{remove_at}

-- Two leaves side by side hold the rows `all`, and each has its array whole.
pub record Hold (all : List Rid) (left right : BNode) : Type 0 where
  pub together : rows left ++ rows right ≡ all
  pub enough : (2 ≤ left.n) × (2 ≤ right.n)
  pub whole : (length left.row_ptr ≡ 4) × (length right.row_ptr ≡ 4)
  pub within : (left.n ≤ 4) × (right.n ≤ 4)

-- One leaf holds the rows `all` of two, and is followed by what followed the second.
pub record Merged (all : List Rid) (b second : BNode) : Type 0 where
  pub together : rows b ≡ all
  pub count : b.n ≡ 3
  pub whole : length b.row_ptr ≡ 4
  pub chain : b.next ≡ second.next

module _ (a b c d e f g h : Rid) (m l : BNode) where
  abbrev child : BNode
  child = four_rows 2 a b c d m

  abbrev sibling : ℕ → BNode
  sibling n = four_rows n e f g h l

  borrow_next_at :
      (n index : ℕ)
      → 2 < n
      → n ≤ 4
      → 0 < index
      → index ≤ 2
      → (left : BNode) × ((right : BNode) × ((leaf_borrow_next index child (sibling n)
              ≡ some (left, right))
            × Hold (remove_at (index - 1) (rows child) ++ rows (sibling n)) left right))
  unfolding leaf_borrow_next
  borrow_next_at n zero lt le pos few = absurd (omega arith)
  borrow_next_at zero (suc index) lt le pos few = absurd (omega arith)
  borrow_next_at (suc zero) (suc index) lt le pos few = absurd (omega arith)
  borrow_next_at (suc (suc zero)) (suc index) lt le pos few = absurd (omega arith)
  borrow_next_at (suc (suc (suc zero))) (suc zero) lt le pos few = (
    _,
    (
      _,
      (
        refl,
        record {
          together = refl;
          enough = (omega arith, omega arith);
          whole = (refl, refl);
          within = (omega arith, omega arith);
        },
      ),
    ),
  )
  borrow_next_at (suc (suc (suc zero))) (suc (suc zero)) lt le pos few = (
    _,
    (
      _,
      (
        refl,
        record {
          together = refl;
          enough = (omega arith, omega arith);
          whole = (refl, refl);
          within = (omega arith, omega arith);
        },
      ),
    ),
  )
  borrow_next_at (suc (suc (suc zero))) (suc (suc (suc index))) lt le pos few = absurd (omega arith)
  borrow_next_at (suc (suc (suc (suc zero)))) (suc zero) lt le pos few = (
    _,
    (
      _,
      (
        refl,
        record {
          together = refl;
          enough = (omega arith, omega arith);
          whole = (refl, refl);
          within = (omega arith, omega arith);
        },
      ),
    ),
  )
  borrow_next_at (suc (suc (suc (suc zero)))) (suc (suc zero)) lt le pos few = (
    _,
    (
      _,
      (
        refl,
        record {
          together = refl;
          enough = (omega arith, omega arith);
          whole = (refl, refl);
          within = (omega arith, omega arith);
        },
      ),
    ),
  )
  borrow_next_at (suc (suc (suc (suc zero)))) (suc (suc (suc index))) lt le pos few =
      absurd (omega arith)
  borrow_next_at (suc (suc (suc (suc (suc n))))) (suc index) lt le pos few = absurd (omega arith)

  borrow_prev_at :
      (n index : ℕ)
      → 2 < n
      → n ≤ 4
      → 0 < index
      → index ≤ 2
      → (right : BNode) × ((left : BNode) × ((leaf_borrow_prev index child (sibling n)
              ≡ some (right, left))
            × Hold (rows (sibling n) ++ remove_at (index - 1) (rows child)) left right))
  unfolding leaf_borrow_prev
  borrow_prev_at n zero lt le pos few = absurd (omega arith)
  borrow_prev_at zero (suc index) lt le pos few = absurd (omega arith)
  borrow_prev_at (suc zero) (suc index) lt le pos few = absurd (omega arith)
  borrow_prev_at (suc (suc zero)) (suc index) lt le pos few = absurd (omega arith)
  borrow_prev_at (suc (suc (suc zero))) (suc zero) lt le pos few = (
    _,
    (
      _,
      (
        refl,
        record {
          together = refl;
          enough = (omega arith, omega arith);
          whole = (refl, refl);
          within = (omega arith, omega arith);
        },
      ),
    ),
  )
  borrow_prev_at (suc (suc (suc zero))) (suc (suc zero)) lt le pos few = (
    _,
    (
      _,
      (
        refl,
        record {
          together = refl;
          enough = (omega arith, omega arith);
          whole = (refl, refl);
          within = (omega arith, omega arith);
        },
      ),
    ),
  )
  borrow_prev_at (suc (suc (suc zero))) (suc (suc (suc index))) lt le pos few = absurd (omega arith)
  borrow_prev_at (suc (suc (suc (suc zero)))) (suc zero) lt le pos few = (
    _,
    (
      _,
      (
        refl,
        record {
          together = refl;
          enough = (omega arith, omega arith);
          whole = (refl, refl);
          within = (omega arith, omega arith);
        },
      ),
    ),
  )
  borrow_prev_at (suc (suc (suc (suc zero)))) (suc (suc zero)) lt le pos few = (
    _,
    (
      _,
      (
        refl,
        record {
          together = refl;
          enough = (omega arith, omega arith);
          whole = (refl, refl);
          within = (omega arith, omega arith);
        },
      ),
    ),
  )
  borrow_prev_at (suc (suc (suc (suc zero)))) (suc (suc (suc index))) lt le pos few =
      absurd (omega arith)
  borrow_prev_at (suc (suc (suc (suc (suc n))))) (suc index) lt le pos few = absurd (omega arith)

  merge_next_at :
      (index : ℕ)
      → 0 < index
      → index ≤ 2
      → (b' : BNode) × ((leaf_merge_next index child (sibling 2) ≡ some b')
          × Merged (remove_at (index - 1) (rows child) ++ rows (sibling 2)) b' (sibling 2))
  unfolding leaf_merge_next
  merge_next_at zero pos few = absurd (omega arith)
  merge_next_at (suc zero) pos few =
      (_, (refl, record { together = refl; count = refl; whole = refl; chain = refl }))
  merge_next_at (suc (suc zero)) pos few =
      (_, (refl, record { together = refl; count = refl; whole = refl; chain = refl }))
  merge_next_at (suc (suc (suc index))) pos few = absurd (omega arith)

  merge_prev_at :
      (index : ℕ)
      → 0 < index
      → index ≤ 2
      → (old : BNode) × ((b' : BNode) × ((leaf_merge_prev index child (sibling 2) ≡ some (old, b'))
            × Merged (rows (sibling 2) ++ remove_at (index - 1) (rows child)) b' child))
  unfolding leaf_merge_prev
  merge_prev_at zero pos few = absurd (omega arith)
  merge_prev_at (suc zero) pos few =
      (_, (_, (refl, record { together = refl; count = refl; whole = refl; chain = refl })))
  merge_prev_at (suc (suc zero)) pos few =
      (_, (_, (refl, record { together = refl; count = refl; whole = refl; chain = refl })))
  merge_prev_at (suc (suc (suc index))) pos few = absurd (omega arith)

-- A leaf with DEGREE rows that loses one, and a sibling.
pub record AtLimit (child sibling : BNode) (index : ℕ) : Type 0 where
  pub minimal : child.n ≡ 2
  pub arrays : (length child.row_ptr ≡ 4) × (length sibling.row_ptr ≡ 4)
  pub least : 2 ≤ sibling.n
  pub most : sibling.n ≤ 4
  pub place : (0 < index) × (index ≤ 2)

module _ (child sibling : BNode) (index : ℕ) (at : AtLimit child sibling index) where
  -- A leaf of DEGREE rows loses the one before place `index`, and its sibling behind has between
  -- DEGREE and 2 * DEGREE. If the sibling has more than DEGREE, its first row moves over: the two
  -- leaves hold the remaining rows in order, and each has at least DEGREE. If it has DEGREE, the
  -- leaf takes all its rows and its place in the chain of the leaves.
  pub leaf_next-Hold :
      ((2 < sibling.n)
        × ((left : BNode) × ((right : BNode) × ((leaf_borrow_next index child sibling
                  ≡ some (left, right))
                × Hold (remove_at (index - 1) (rows child) ++ rows sibling) left right))))
      ⊎ ((sibling.n ≡ 2)
          × ((b : BNode) × ((leaf_merge_next index child sibling ≡ some b)
                × Merged (remove_at (index - 1) (rows child) ++ rows sibling) b sibling)))
  leaf_next-Hold =
      let (x, (y, (z, (w, same)))) = four child.row_ptr at.arrays.0 in
      let (p, (q, (r, (s, same')))) = four sibling.row_ptr at.arrays.1 in
      let two = at.minimal in
      let least = at.least in
      let size : (2 < sibling.n) ⊎ (sibling.n ≡ 2) = omega arith in
      elim size [
        | inl more ↦ inl (
          more,
          rw (same, same', two)
              (borrow_next_at x y z w p q r s child sibling sibling.n index more at.most at.place.0
                at.place.1),
        )
        | inr equal ↦ inr (
          equal,
          rw (same, same', two, equal)
              (merge_next_at x y z w p q r s child sibling index at.place.0 at.place.1),
        )
      ]

  -- A leaf of DEGREE rows loses the one before place `index`, and its sibling before it has between
  -- DEGREE and 2 * DEGREE. If the sibling has more than DEGREE, its last row moves over: the two
  -- leaves hold the remaining rows in order, and each has at least DEGREE. If it has DEGREE, it takes
  -- the remaining rows of the leaf and its place in the chain of the leaves.
  pub leaf_prev-Hold :
      ((2 < sibling.n)
        × ((right : BNode) × ((left : BNode) × ((leaf_borrow_prev index child sibling
                  ≡ some (right, left))
                × Hold (rows sibling ++ remove_at (index - 1) (rows child)) left right))))
      ⊎ ((sibling.n ≡ 2)
          × ((old : BNode) × ((b : BNode) × ((leaf_merge_prev index child sibling ≡ some (old, b))
                  × Merged (rows sibling ++ remove_at (index - 1) (rows child)) b child))))
  leaf_prev-Hold =
      let (x, (y, (z, (w, same)))) = four child.row_ptr at.arrays.0 in
      let (p, (q, (r, (s, same')))) = four sibling.row_ptr at.arrays.1 in
      let two = at.minimal in
      let least = at.least in
      let size : (2 < sibling.n) ⊎ (sibling.n ≡ 2) = omega arith in
      elim size [
        | inl more ↦ inl (
          more,
          rw (same, same', two)
              (borrow_prev_at x y z w p q r s child sibling sibling.n index more at.most at.place.0
                at.place.1),
        )
        | inr equal ↦ inr (
          equal,
          rw (same, same', two, equal)
              (merge_prev_at x y z w p q r s child sibling index at.place.0 at.place.1),
        )
      ]
