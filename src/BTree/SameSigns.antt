-- ===== src/BTree/SameSigns.antt =====
-- find_index of src/b_tree.c with two comparisons that agree on the rows of a node.
use simple_redis_database.Common.{
  ℕ, zero, suc, ◌+◌, ◌-◌, ◌<◌, ◌≡◌, refl, Option, none, some, List, Option-cases, Bool-cases, inl,
  inr, ◌==◌, if◌then◌else◌, ◌>>=◌, get_elem?, arith,
}
use simple_redis_database.Rid.{Rid}
use simple_redis_database.Str.{Sign}
use simple_redis_database.BTree.{BNode, is_minus, find_between, find_index}

-- The two agree on each of the first `n` rows.
abbrev pub Alike : (c d : Rid → Option Sign) → List Rid → ℕ → Type 0
Alike c d rows n = (j : ℕ) (a : Rid) → j < n → get_elem? rows j ≡ some a → c a ≡ d a

module _ (c d : Rid → Option Sign) (rows : List Rid) (n : ℕ) (alike : Alike c d rows n) where
  test : (i : ℕ) → i < n → (get_elem? rows i >>= c) ≡ (get_elem? rows i >>= d)
  test i lt = elim (Option-cases (get_elem? rows i)) [
    | inl lost ↦ rw lost refl
    | inr (a, at) ↦ rw at (alike i a lt at)
  ]

  pub find_between_same : (m i : ℕ) → i + m < n → find_between c rows m i ≡ find_between d rows m i
  unfolding find_between
  find_between_same zero i lt = refl
  find_between_same (suc m) i lt =
      let rest = find_between_same m (i + 1) (omega arith) in
      let here = test i (omega arith) in
      let next = test (i + 1) (omega arith) in
      λ p. here p >>= λ sign.
      if is_minus sign
      then rest p
      else (next p >>= λ sign. if is_minus sign then some (some (i + 1)) else rest p)

pub find_index-same :
    (b : BNode) (r q : Rid) (c d : Rid → Rid → ℕ → ℕ → Option Sign)
    → Alike (λ a. c r a 1 b.leaf) (λ a. d q a 1 b.leaf) b.row_ptr b.n
    → find_index b r 1 c ≡ find_index b q 1 d
unfolding find_index
find_index-same b r q c d alike = elim (Bool-cases (b.n == 0)) [
  | inl empty ↦ rw empty refl
  | inr full ↦
      let compare : Rid → Option Sign = λ a. c r a 1 b.leaf in
      let compare' : Rid → Option Sign = λ a. d q a 1 b.leaf in
      let some_row : 0 < b.n = ground arith in
      let first = test compare compare' b.row_ptr b.n alike 0 some_row in
      let last = test compare compare' b.row_ptr b.n alike (b.n - 1) (omega arith) in
      let between =
        find_between_same compare compare' b.row_ptr b.n alike (b.n - 1) 0 (omega arith) in
      rw full (λ p. first p >>= λ sign.
      if is_minus sign
      then some 0
      else (between p >>= λ found. elim found [
        | some k ↦ some k
        | none ↦ last p >>= λ sign. if is_minus sign then none else some b.n
      ]))
]
