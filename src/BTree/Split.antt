-- ===== src/BTree/Split.antt =====
-- What tree_insert of src/b_tree.c does to the rows and the children of a node, as one insertion
-- into a sequence. DEGREE is 2: the arrays have 4 rows and 5 children.
use simple_redis_database.Common.{
  ℕ, zero, suc, ◌+◌, ◌<◌, ◌≤◌, ◌≡◌, refl, ap, some, List, [], ◌∷◌, ◌++◌, length, take, arith,
}
use simple_redis_database.Rid.{Rid}
use simple_redis_database.BTree.{BNode}
use simple_redis_database.BTree.Insert.{leaf_insert, leaf_split}

-- A sequence with one more element, at a place.
abbrev pub insert_at {ℓ} : {A : Type ℓ} → ℕ → A → List A → List A
insert_at zero x xs = x ∷ xs
insert_at (suc i) x [] = x ∷ []
insert_at (suc i) x (y ∷ ys) = y ∷ insert_at i x ys

pub four :
    {A : Type 0} (xs : List A)
    → length xs ≡ 4
    → (a : A) × ((b : A) × ((c : A) × ((d : A) × (xs ≡ a ∷ b ∷ c ∷ d ∷ []))))
four (a ∷ b ∷ c ∷ d ∷ []) e = (a, (b, (c, (d, refl))))
four [] e = absurd (omega arith)
four (a ∷ []) e = absurd (omega arith)
four (a ∷ b ∷ []) e = absurd (omega arith)
four (a ∷ b ∷ c ∷ []) e = absurd (omega arith)
four (a ∷ b ∷ c ∷ d ∷ f ∷ xs) e = absurd (omega arith)

pub five :
    {A : Type 0} (xs : List A)
    → length xs ≡ 5
    → (a : A) × ((b : A) × ((c : A) × ((d : A) × ((e : A) × (xs ≡ a ∷ b ∷ c ∷ d ∷ e ∷ [])))))
five [] e = absurd (omega arith)
five (a ∷ xs) e =
    let (b, (c, (d, (f, same)))) = four xs (omega arith) in
    (a, (b, (c, (d, (f, ap (λ ys. a ∷ ys) same)))))

-- The rows in use, and the children.
abbrev pub rows : BNode → List Rid
rows b = take b.n b.row_ptr

abbrev pub children : BNode → List ℕ
children b = take (b.n + 1) b.child

abbrev pub four_rows : (n : ℕ) (a b c d : Rid) → BNode → BNode
four_rows n a b c d m = record m { n = n; row_ptr = a ∷ b ∷ c ∷ d ∷ [] }

pub record LeafInserted (index : ℕ) (rid : Rid) (b b' : BNode) : Type 0 where
  pub at_place : rows b' ≡ insert_at index rid (rows b)
  pub count : b'.n ≡ b.n + 1
  pub whole : length b'.row_ptr ≡ 4
  pub rest : (b'.child ≡ b.child) × (b'.next ≡ b.next) × (b'.leaf ≡ b.leaf)

leaf_insert_at :
    (a b c d rid : Rid) (n index : ℕ) (m : BNode)
    → n < 4
    → index ≤ n
    → (b' : BNode) × ((leaf_insert index rid (four_rows n a b c d m) ≡ some b')
        × LeafInserted index rid (four_rows n a b c d m) b')
unfolding leaf_insert
leaf_insert_at a b c d rid zero zero m lt le =
    (_, (refl, record { at_place = refl; count = refl; whole = refl; rest = (refl, refl, refl) }))
leaf_insert_at a b c d rid zero (suc index) m lt le = absurd (omega arith)
leaf_insert_at a b c d rid (suc zero) zero m lt le =
    (_, (refl, record { at_place = refl; count = refl; whole = refl; rest = (refl, refl, refl) }))
leaf_insert_at a b c d rid (suc zero) (suc zero) m lt le =
    (_, (refl, record { at_place = refl; count = refl; whole = refl; rest = (refl, refl, refl) }))
leaf_insert_at a b c d rid (suc zero) (suc (suc index)) m lt le = absurd (omega arith)
leaf_insert_at a b c d rid (suc (suc zero)) zero m lt le =
    (_, (refl, record { at_place = refl; count = refl; whole = refl; rest = (refl, refl, refl) }))
leaf_insert_at a b c d rid (suc (suc zero)) (suc zero) m lt le =
    (_, (refl, record { at_place = refl; count = refl; whole = refl; rest = (refl, refl, refl) }))
leaf_insert_at a b c d rid (suc (suc zero)) (suc (suc zero)) m lt le =
    (_, (refl, record { at_place = refl; count = refl; whole = refl; rest = (refl, refl, refl) }))
leaf_insert_at a b c d rid (suc (suc zero)) (suc (suc (suc index))) m lt le = absurd (omega arith)
leaf_insert_at a b c d rid (suc (suc (suc zero))) zero m lt le =
    (_, (refl, record { at_place = refl; count = refl; whole = refl; rest = (refl, refl, refl) }))
leaf_insert_at a b c d rid (suc (suc (suc zero))) (suc zero) m lt le =
    (_, (refl, record { at_place = refl; count = refl; whole = refl; rest = (refl, refl, refl) }))
leaf_insert_at a b c d rid (suc (suc (suc zero))) (suc (suc zero)) m lt le =
    (_, (refl, record { at_place = refl; count = refl; whole = refl; rest = (refl, refl, refl) }))
leaf_insert_at a b c d rid (suc (suc (suc zero))) (suc (suc (suc zero))) m lt le =
    (_, (refl, record { at_place = refl; count = refl; whole = refl; rest = (refl, refl, refl) }))
leaf_insert_at a b c d rid (suc (suc (suc zero))) (suc (suc (suc (suc index)))) m lt le =
    absurd (omega arith)
leaf_insert_at a b c d rid (suc (suc (suc (suc n)))) index m lt le = absurd (omega arith)

-- In a leaf with fewer than 4 rows and an array of 4, the new row goes to place `index`, at most n,
-- of the rows in use; n is one more, and the children, the next leaf and the kind are the same.
pub leaf_insert-Inserted :
    (index : ℕ) (rid : Rid) (b : BNode)
    → length b.row_ptr ≡ 4
    → b.n < 4
    → index ≤ b.n
    → (b' : BNode) × ((leaf_insert index rid b ≡ some b') × LeafInserted index rid b b')
leaf_insert-Inserted index rid b e lt le =
    let (x, (y, (z, (w, same)))) = four b.row_ptr e in
    rw same (leaf_insert_at x y z w rid b.n index b lt le)

pub record LeafSplit (index : ℕ) (rid : Rid) (addr : ℕ) (b left right : BNode) : Type 0 where
  pub in_order : rows left ++ rows right ≡ insert_at index rid (rows b)
  pub counts : (left.n ≡ 2) × (right.n ≡ 3)
  pub whole : (length left.row_ptr ≡ 4) × (length right.row_ptr ≡ 4) × (length right.child ≡ 5)
  pub chain : (left.next ≡ addr) × (right.next ≡ b.next)
  pub leaves : (left.leaf ≡ b.leaf) × (right.leaf ≡ 1)

leaf_split_at :
    (a b c d rid : Rid) (index addr : ℕ) (m : BNode)
    → index ≤ 4
    → (left : BNode) × ((right : BNode) × ((leaf_split index rid addr (four_rows 4 a b c d m)
            ≡ some (left, right))
          × LeafSplit index rid addr (four_rows 4 a b c d m) left right))
unfolding leaf_split
leaf_split_at a b c d rid zero addr m le = (
  _,
  (
    _,
    (
      refl,
      record {
        in_order = refl;
        counts = (refl, refl);
        whole = (refl, refl, refl);
        chain = (refl, refl);
        leaves = (refl, refl);
      },
    ),
  ),
)
leaf_split_at a b c d rid (suc zero) addr m le = (
  _,
  (
    _,
    (
      refl,
      record {
        in_order = refl;
        counts = (refl, refl);
        whole = (refl, refl, refl);
        chain = (refl, refl);
        leaves = (refl, refl);
      },
    ),
  ),
)
leaf_split_at a b c d rid (suc (suc zero)) addr m le = (
  _,
  (
    _,
    (
      refl,
      record {
        in_order = refl;
        counts = (refl, refl);
        whole = (refl, refl, refl);
        chain = (refl, refl);
        leaves = (refl, refl);
      },
    ),
  ),
)
leaf_split_at a b c d rid (suc (suc (suc zero))) addr m le = (
  _,
  (
    _,
    (
      refl,
      record {
        in_order = refl;
        counts = (refl, refl);
        whole = (refl, refl, refl);
        chain = (refl, refl);
        leaves = (refl, refl);
      },
    ),
  ),
)
leaf_split_at a b c d rid (suc (suc (suc (suc zero)))) addr m le = (
  _,
  (
    _,
    (
      refl,
      record {
        in_order = refl;
        counts = (refl, refl);
        whole = (refl, refl, refl);
        chain = (refl, refl);
        leaves = (refl, refl);
      },
    ),
  ),
)
leaf_split_at a b c d rid (suc (suc (suc (suc (suc index))))) addr m le = absurd (omega arith)

-- Splitting a full leaf with a new row for place `index`, at most 4: the rows of the two leaves one
-- after the other are the old ones with the new row at its place, 2 and 3 of them; the new leaf at
-- `addr` follows the old one in the chain, and what followed the old one follows it.
pub leaf_split-Split :
    (index : ℕ) (rid : Rid) (addr : ℕ) (b : BNode)
    → length b.row_ptr ≡ 4
    → b.n ≡ 4
    → index ≤ 4
    → (left : BNode) × ((right : BNode) × ((leaf_split index rid addr b ≡ some (left, right))
          × LeafSplit index rid addr b left right))
leaf_split-Split index rid addr b e full le =
    let (x, (y, (z, (w, same)))) = four b.row_ptr e in
    rw (same, full) (leaf_split_at x y z w rid index addr b le)
