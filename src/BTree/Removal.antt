-- ===== src/BTree/Removal.antt =====
-- The removal of a row, and of a row with the child behind it, from a node of src/b_tree.c. DEGREE
-- is 2.
use simple_redis_database.Common.{
  ℕ, zero, suc, ◌+◌, ◌-◌, ◌<◌, ◌≤◌, ◌≡◌, refl, some, List, [], ◌∷◌, length, arith,
}
use simple_redis_database.Rid.{Rid}
use simple_redis_database.BTree.{BNode}
use simple_redis_database.BTree.Remove.{remove_row, remove_child}
use simple_redis_database.BTree.Split.{four, five, rows, children, four_rows}
use simple_redis_database.BTree.SplitInner.{with_arrays}

-- A sequence without the element at a place.
abbrev pub remove_at {ℓ} : {A : Type ℓ} → ℕ → List A → List A
remove_at i [] = []
remove_at zero (x ∷ xs) = xs
remove_at (suc i) (x ∷ xs) = x ∷ remove_at i xs

pub record RowRemoved (index : ℕ) (b b' : BNode) : Type 0 where
  pub removed : rows b' ≡ remove_at (index - 1) (rows b)
  pub count : b'.n + 1 ≡ b.n
  pub whole : length b'.row_ptr ≡ 4
  pub rest : (b'.child ≡ b.child) × (b'.next ≡ b.next) × (b'.leaf ≡ b.leaf)

remove_row_at :
    (a b c d : Rid) (n index : ℕ) (m : BNode)
    → n ≤ 4
    → 0 < index
    → index ≤ n
    → (b' : BNode) × ((remove_row index (four_rows n a b c d m) ≡ some b')
        × RowRemoved index (four_rows n a b c d m) b')
unfolding remove_row
remove_row_at a b c d n zero m le pos in_rows = absurd (omega arith)
remove_row_at a b c d zero (suc index) m le pos in_rows = absurd (omega arith)
remove_row_at a b c d (suc zero) (suc zero) m le pos in_rows =
    (_, (refl, record { removed = refl; count = refl; whole = refl; rest = (refl, refl, refl) }))
remove_row_at a b c d (suc zero) (suc (suc index)) m le pos in_rows = absurd (omega arith)
remove_row_at a b c d (suc (suc zero)) (suc zero) m le pos in_rows =
    (_, (refl, record { removed = refl; count = refl; whole = refl; rest = (refl, refl, refl) }))
remove_row_at a b c d (suc (suc zero)) (suc (suc zero)) m le pos in_rows =
    (_, (refl, record { removed = refl; count = refl; whole = refl; rest = (refl, refl, refl) }))
remove_row_at a b c d (suc (suc zero)) (suc (suc (suc index))) m le pos in_rows =
    absurd (omega arith)
remove_row_at a b c d (suc (suc (suc zero))) (suc zero) m le pos in_rows =
    (_, (refl, record { removed = refl; count = refl; whole = refl; rest = (refl, refl, refl) }))
remove_row_at a b c d (suc (suc (suc zero))) (suc (suc zero)) m le pos in_rows =
    (_, (refl, record { removed = refl; count = refl; whole = refl; rest = (refl, refl, refl) }))
remove_row_at a b c d (suc (suc (suc zero))) (suc (suc (suc zero))) m le pos in_rows =
    (_, (refl, record { removed = refl; count = refl; whole = refl; rest = (refl, refl, refl) }))
remove_row_at a b c d (suc (suc (suc zero))) (suc (suc (suc (suc index)))) m le pos in_rows =
    absurd (omega arith)
remove_row_at a b c d (suc (suc (suc (suc zero)))) (suc zero) m le pos in_rows =
    (_, (refl, record { removed = refl; count = refl; whole = refl; rest = (refl, refl, refl) }))
remove_row_at a b c d (suc (suc (suc (suc zero)))) (suc (suc zero)) m le pos in_rows =
    (_, (refl, record { removed = refl; count = refl; whole = refl; rest = (refl, refl, refl) }))
remove_row_at a b c d (suc (suc (suc (suc zero)))) (suc (suc (suc zero))) m le pos in_rows =
    (_, (refl, record { removed = refl; count = refl; whole = refl; rest = (refl, refl, refl) }))
remove_row_at a b c d (suc (suc (suc (suc zero)))) (suc (suc (suc (suc zero)))) m le pos in_rows =
    (_, (refl, record { removed = refl; count = refl; whole = refl; rest = (refl, refl, refl) }))
remove_row_at a b c d (suc (suc (suc (suc zero)))) (suc (suc (suc (suc (suc index))))) m le pos
      in_rows =
    absurd (omega arith)
remove_row_at a b c d (suc (suc (suc (suc (suc n))))) (suc index) m le pos in_rows =
    absurd (omega arith)

-- Removing the row before place `index`, from 1 to n, of a node with at most 4 rows: the others keep
-- their order, n is one less, and the children, the next leaf and the kind of the node are the same.
pub remove_row-Removed :
    (index : ℕ) (b : BNode)
    → length b.row_ptr ≡ 4
    → b.n ≤ 4
    → 0 < index
    → index ≤ b.n
    → (b' : BNode) × ((remove_row index b ≡ some b') × RowRemoved index b b')
remove_row-Removed index b e le pos in_rows =
    let (x, (y, (z, (w, same)))) = four b.row_ptr e in
    rw same (remove_row_at x y z w b.n index b le pos in_rows)

pub record ChildRemoved (index : ℕ) (b b' : BNode) : Type 0 where
  pub row_removed : rows b' ≡ remove_at (index - 1) (rows b)
  pub child_removed : children b' ≡ remove_at index (children b)
  pub count : b'.n + 1 ≡ b.n
  pub whole : (length b'.row_ptr ≡ 4) × (length b'.child ≡ 5)
  pub rest : (b'.next ≡ b.next) × (b'.leaf ≡ b.leaf)

module _ (a b c d : Rid) (p q r s t : ℕ) (m : BNode) where
  abbrev start : ℕ → BNode
  start n = with_arrays n (a ∷ b ∷ c ∷ d ∷ []) (p ∷ q ∷ r ∷ s ∷ t ∷ []) m

  remove_child_at :
      (n index : ℕ)
      → n ≤ 4
      → 0 < index
      → index ≤ n
      → (b' : BNode) × ((remove_child index (start n) ≡ some b') × ChildRemoved index (start n) b')
  unfolding remove_child
  remove_child_at n zero le pos in_rows = absurd (omega arith)
  remove_child_at zero (suc index) le pos in_rows = absurd (omega arith)
  remove_child_at (suc zero) (suc zero) le pos in_rows = (
    _,
    (
      refl,
      record {
        row_removed = refl;
        child_removed = refl;
        count = refl;
        whole = (refl, refl);
        rest = (refl, refl);
      },
    ),
  )
  remove_child_at (suc zero) (suc (suc index)) le pos in_rows = absurd (omega arith)
  remove_child_at (suc (suc zero)) (suc zero) le pos in_rows = (
    _,
    (
      refl,
      record {
        row_removed = refl;
        child_removed = refl;
        count = refl;
        whole = (refl, refl);
        rest = (refl, refl);
      },
    ),
  )
  remove_child_at (suc (suc zero)) (suc (suc zero)) le pos in_rows = (
    _,
    (
      refl,
      record {
        row_removed = refl;
        child_removed = refl;
        count = refl;
        whole = (refl, refl);
        rest = (refl, refl);
      },
    ),
  )
  remove_child_at (suc (suc zero)) (suc (suc (suc index))) le pos in_rows = absurd (omega arith)
  remove_child_at (suc (suc (suc zero))) (suc zero) le pos in_rows = (
    _,
    (
      refl,
      record {
        row_removed = refl;
        child_removed = refl;
        count = refl;
        whole = (refl, refl);
        rest = (refl, refl);
      },
    ),
  )
  remove_child_at (suc (suc (suc zero))) (suc (suc zero)) le pos in_rows = (
    _,
    (
      refl,
      record {
        row_removed = refl;
        child_removed = refl;
        count = refl;
        whole = (refl, refl);
        rest = (refl, refl);
      },
    ),
  )
  remove_child_at (suc (suc (suc zero))) (suc (suc (suc zero))) le pos in_rows = (
    _,
    (
      refl,
      record {
        row_removed = refl;
        child_removed = refl;
        count = refl;
        whole = (refl, refl);
        rest = (refl, refl);
      },
    ),
  )
  remove_child_at (suc (suc (suc zero))) (suc (suc (suc (suc index)))) le pos in_rows =
      absurd (omega arith)
  remove_child_at (suc (suc (suc (suc zero)))) (suc zero) le pos in_rows = (
    _,
    (
      refl,
      record {
        row_removed = refl;
        child_removed = refl;
        count = refl;
        whole = (refl, refl);
        rest = (refl, refl);
      },
    ),
  )
  remove_child_at (suc (suc (suc (suc zero)))) (suc (suc zero)) le pos in_rows = (
    _,
    (
      refl,
      record {
        row_removed = refl;
        child_removed = refl;
        count = refl;
        whole = (refl, refl);
        rest = (refl, refl);
      },
    ),
  )
  remove_child_at (suc (suc (suc (suc zero)))) (suc (suc (suc zero))) le pos in_rows = (
    _,
    (
      refl,
      record {
        row_removed = refl;
        child_removed = refl;
        count = refl;
        whole = (refl, refl);
        rest = (refl, refl);
      },
    ),
  )
  remove_child_at (suc (suc (suc (suc zero)))) (suc (suc (suc (suc zero)))) le pos in_rows = (
    _,
    (
      refl,
      record {
        row_removed = refl;
        child_removed = refl;
        count = refl;
        whole = (refl, refl);
        rest = (refl, refl);
      },
    ),
  )
  remove_child_at (suc (suc (suc (suc zero)))) (suc (suc (suc (suc (suc index))))) le pos in_rows =
      absurd (omega arith)
  remove_child_at (suc (suc (suc (suc (suc n))))) (suc index) le pos in_rows = absurd (omega arith)

-- Removing the row before place `index`, from 1 to n, and the child at it from an inner node with
-- at most 4 rows: the others keep their order, n is one less, and the rest of the node is the same.
pub remove_child-Removed :
    (index : ℕ) (b : BNode)
    → length b.row_ptr ≡ 4
    → length b.child ≡ 5
    → b.n ≤ 4
    → 0 < index
    → index ≤ b.n
    → (b' : BNode) × ((remove_child index b ≡ some b') × ChildRemoved index b b')
remove_child-Removed index b e f le pos in_rows =
    let (x, (y, (z, (w, same)))) = four b.row_ptr e in
    let (p, (q, (r, (s, (t, same'))))) = five b.child f in
    rw (same, same') (remove_child_at x y z w p q r s t b b.n index le pos in_rows)
