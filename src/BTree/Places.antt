-- ===== src/BTree/Places.antt =====
-- The places of a sequence with one more element, for the rows of a node of src/b_tree.c.
use simple_redis_database.Common.{
  ℕ, zero, suc, ◌+◌, ◌<◌, ◌≤◌, ◌≡◌, refl, sym, ap, ◌∙◌, ◌⊎◌, inl, inr, List, [], ◌∷◌, length, take,
  get_or, length-take, arith,
}
use simple_redis_database.BTree.Split.{insert_at}

module _ {A : Type 0} (d : A) where
  get_or-take : (n : ℕ) (xs : List A) (j : ℕ) → j < n → get_or (take n xs) j d ≡ get_or xs j d
  get_or-take zero xs j lt = absurd (omega arith)
  get_or-take (suc n) [] j lt = refl
  get_or-take (suc n) (x ∷ xs) zero lt = refl
  get_or-take (suc n) (x ∷ xs) (suc j) lt = get_or-take n xs j (omega arith)

  get_or-insert_at :
      (k : ℕ) (x : A) (xs : List A) → k ≤ length xs → get_or (insert_at k x xs) k d ≡ x
  get_or-insert_at zero x xs le = refl
  get_or-insert_at (suc k) x [] le = absurd (omega arith)
  get_or-insert_at (suc k) x (y ∷ xs) le = get_or-insert_at k x xs (omega arith)

  -- Each place of the longer sequence holds the new element or an old one.
  insert_at-place :
      (k : ℕ) (x : A) (xs : List A) (j : ℕ)
      → j < suc (length xs)
      → (get_or (insert_at k x xs) j d ≡ x)
        ⊎ ((i : ℕ) × (i < length xs) × (get_or (insert_at k x xs) j d ≡ get_or xs i d))
  insert_at-place zero x xs zero lt = inl refl
  insert_at-place zero x xs (suc j) lt = inr (j, omega arith, refl)
  insert_at-place (suc k) x [] zero lt = inl refl
  insert_at-place (suc k) x [] (suc j) lt = absurd (omega arith)
  insert_at-place (suc k) x (y ∷ xs) zero lt = inr (0, omega arith, refl)
  insert_at-place (suc k) x (y ∷ xs) (suc j) lt = elim (insert_at-place k x xs j (omega arith)) [
    | inl new ↦ inl new
    | inr (i, in_old, same) ↦ inr (suc i, omega arith, same)
  ]

  -- The first `m` elements of one list are those of the other with one more.
  module _ (k n m : ℕ) (x : A) (xs ys : List A) (longer : m ≡ n + 1) (room : n ≤ length xs)
      (inside : k ≤ n) (at : take m ys ≡ insert_at k x (take n xs)) where
    len : length (take n xs) ≡ n
    len = omega (arith, length-take n xs)

    pub new_there : get_or ys k d ≡ x
    new_there =
        sym (get_or-take m ys k (omega arith))
        ∙ ap (λ l. get_or l k d) at
        ∙ get_or-insert_at k x (take n xs) (let e = len in omega arith)

    pub new_or_old :
        (j : ℕ)
        → j < m
        → (get_or ys j d ≡ x) ⊎ ((i : ℕ) × (i < n) × (get_or ys j d ≡ get_or xs i d))
    new_or_old j lt =
        let e = len in
        let same : get_or ys j d ≡ get_or (insert_at k x (take n xs)) j d =
          sym (get_or-take m ys j lt) ∙ ap (λ l. get_or l j d) at in
        elim (insert_at-place k x (take n xs) j (omega arith)) [
          | inl new ↦ inl (same ∙ new)
          | inr (i, in_old, old) ↦ inr (
            i,
            (let f = in_old in omega arith),
            same ∙ old ∙ get_or-take n xs i (let f = in_old in omega arith),
          )
        ]
