-- ===== src/BTree/Index.antt =====
-- The place of a key among the rows of a node of src/b_tree.c.
use simple_redis_database.Common.{
  ℕ, zero, suc, ◌+◌, ◌-◌, ◌<◌, ◌≤◌, ◌≡◌, refl, ◌⊎◌, inl, inr, Option, none, some, List, ◌==◌,
  get_or, get_or_lem, length, Bool, true, false, Bool-cases, arith, subst,
}
use simple_redis_database.Rid.{Rid, rid_null}
use simple_redis_database.Str.{Sign}
use simple_redis_database.BTree.{BNode, is_minus, find_between, find_index}

-- `k` rows of the `n` are not behind the key, and they come first.
pub record Splits (before : Rid → Bool) (rows : List Rid) (n k : ℕ) : Type 0 where
  pub inside : k ≤ n
  pub left : (i : ℕ) → i < k → before (get_or rows i rid_null) ≡ false
  pub right : (i : ℕ) → k ≤ i → i < n → before (get_or rows i rid_null) ≡ true

-- The rows are in an order that the comparison respects: behind a row that is behind the key there
-- are only such rows.
abbrev pub Ordered : (Rid → Bool) → List Rid → ℕ → Type 0
Ordered before rows n =
    (i j : ℕ)
    → i ≤ j
    → j < n
    → before (get_or rows i rid_null) ≡ true
    → before (get_or rows j rid_null) ≡ true

-- The comparison succeeds on the rows, with these signs.
abbrev pub Signs : (Rid → Option Sign) → (Rid → Sign) → List Rid → ℕ → Type 0
Signs cmp sign rows n =
    (i : ℕ) → i < n → cmp (get_or rows i rid_null) ≡ some (sign (get_or rows i rid_null))

module _ (cmp : Rid → Option Sign) (sign : Rid → Sign) (rows : List Rid) (n : ℕ)
    (signs : Signs cmp sign rows n) (order : Ordered (λ r. is_minus (sign r)) rows n)
    (room : n ≤ length rows) where
  abbrev before : Rid → Bool
  before r = is_minus (sign r)

  not_before :
      (i j : ℕ)
      → i ≤ j
      → j < n
      → before (get_or rows j rid_null) ≡ false
      → before (get_or rows i rid_null) ≡ false
  not_before i j le lt no_j = elim (Bool-cases (before (get_or rows i rid_null))) [
    | inl yes_i ↦ (let yes_j = order i j le lt yes_i in cc)
    | inr no_i ↦ no_i
  ]

  -- The loop finds the place, or ends at the last row, which is not behind the key.
  find_between_lem :
      (m i : ℕ)
      → i + m + 1 ≡ n
      → before (get_or rows i rid_null) ≡ false
      → ((k : ℕ) × ((find_between cmp rows m i ≡ some (some k)) × Splits before rows n k))
        ⊎ ((find_between cmp rows m i ≡ some none)
            × (before (get_or rows (n - 1) rid_null) ≡ false))
  unfolding find_between
  find_between_lem zero i here no_i =
      let last : i ≡ n - 1 = omega arith in
      inr (refl, subst (λ j. before (get_or rows j rid_null) ≡ false) last no_i)
  find_between_lem (suc m) i here no_i =
      let read_i = get_or_lem rows i rid_null (omega arith) in
      let read_next = get_or_lem rows (i + 1) rid_null (omega arith) in
      let sign_i = signs i (omega arith) in
      let sign_next = signs (i + 1) (omega arith) in
      elim (Bool-cases (before (get_or rows (i + 1) rid_null))) [
        | inl behind ↦ inl (
          i + 1,
          (
            rw (read_i, sign_i, no_i, read_next, sign_next, behind) refl,
            record {
              inside = omega arith;
              left = λ j lt. not_before j i (omega arith) (omega arith) no_i;
              right = λ j le lt. order (i + 1) j le lt behind;
            },
          ),
        )
        | inr no_next ↦
            rw (read_i, sign_i, no_i, read_next, sign_next, no_next)
              (find_between_lem m (i + 1) (omega arith) no_next)
      ]

-- On a node whose n rows lie in its array, in an order that the comparison respects, and where the
-- comparison with each of them succeeds, find_index returns the number of rows that are not behind
-- the key: those before that place are not behind it, and those from it on are. It never runs off
-- its end.
pub find_index-Splits :
    (bnode : BNode) (rid : Rid) (rid_leaf : ℕ) (cmp : Rid → Rid → ℕ → ℕ → Option Sign)
    (sign : Rid → Sign)
    → Signs (λ r. cmp rid r rid_leaf bnode.leaf) sign bnode.row_ptr bnode.n
    → Ordered (λ r. is_minus (sign r)) bnode.row_ptr bnode.n
    → bnode.n ≤ length bnode.row_ptr
    → (k : ℕ) × ((find_index bnode rid rid_leaf cmp ≡ some k)
        × Splits (λ r. is_minus (sign r)) bnode.row_ptr bnode.n k)
unfolding find_index
find_index-Splits bnode rid rid_leaf cmp sign signs order room =
    let compare : Rid → Option Sign = λ r. cmp rid r rid_leaf bnode.leaf in
    let ahead_of : Rid → Bool = λ r. is_minus (sign r) in
    let rows = bnode.row_ptr in
    elim (Bool-cases (bnode.n == 0)) [
      | inl empty ↦ (
        0,
        (
          rw (empty) refl,
          record {
            inside = omega arith;
            left = λ i lt. absurd (omega arith);
            right = λ i le lt. absurd (ground arith);
          },
        ),
      )
      | inr some_row ↦
          let read = get_or_lem rows 0 rid_null (ground arith) in
          let sign_0 = signs 0 (ground arith) in
          elim (Bool-cases (ahead_of (get_or rows 0 rid_null))) [
            | inl behind ↦ (
              0,
              (
                rw (some_row, read, sign_0, behind) refl,
                record {
                  inside = omega arith;
                  left = λ i lt. absurd (omega arith);
                  right = λ i le lt. order 0 i le lt behind;
                },
              ),
            )
            | inr ahead ↦
                elim (find_between_lem compare sign rows bnode.n signs order room (bnode.n - 1) 0
                  (ground arith) ahead) [
                    | inl (k, (found, splits)) ↦
                        (k, (rw (some_row, read, sign_0, ahead, found) refl, splits))
                    | inr (missed, last) ↦
                        let read_last = get_or_lem rows (bnode.n - 1) rid_null (ground arith) in
                        let sign_last = signs (bnode.n - 1) (ground arith) in
                        (
                          bnode.n,
                          (
                            rw (some_row, read, sign_0, ahead, missed, read_last, sign_last, last)
                                refl,
                            record {
                              inside = omega arith;
                              left = λ i lt.
                                  not_before compare sign rows bnode.n signs order room i
                                    (bnode.n - 1) (omega arith) (omega arith) last;
                              right = λ i le lt. absurd (omega arith);
                            },
                          ),
                        )
                  ]
          ]
    ]
