-- ===== src/BTree/Scan.antt =====
-- The search of src/b_tree.c on one node, for a comparison that gives the sign of `sign` on the rows
-- of the index and leaves its pages alone.
use simple_redis_database.Common.{
  ℕ, zero, suc, ◌+◌, ◌-◌, ◌%◌, ◌^◌, ◌<◌, ◌≤◌, ◌≡◌, refl, subst, ◌⊎◌, inl, inr, Option, none, some,
  List, [], ◌∷◌, ◌==◌, get_elem?, get_or, get_or_lem, length, Bool, true, false, Bool-cases,
  Option-cases, arith,
}
use simple_redis_database.Common.Run.{Run, entry}
use simple_redis_database.Rid.{Rid, rid_null}
use simple_redis_database.Str.{Sign}
use simple_redis_database.PageStore.{Pages, load}
use simple_redis_database.BTree.{BNode, is_minus, is_zero, find_between, find_index}
use simple_redis_database.BTree.Store.{Tree, BPage, node, read_node}
use simple_redis_database.BTree.Lookup.{find_equal, find_around, search_child}

-- In every state that satisfies `P`, and for every row that satisfies `D`, the comparison gives the
-- sign, and keeps `P` and the pages.
pub record Agrees (S : Type 0) (P : S → Type 0) (D : Rid → ℕ → Type 0)
    (cmp : Rid → ℕ → Run (Tree S) Sign) (sign : Rid → ℕ → Sign) : Type 0 where
  pub run :
      (r : Rid) (leaf : ℕ) (pool : Pages BPage) (s : S)
      → D r leaf
      → P s
      → (s' : S) × ((cmp r leaf (record { pool = pool; tables = s })
            ≡ some (sign r leaf, record { pool = pool; tables = s' }))
          × P s')

pub entry_lem :
    {A T : Type 0} (xs : List A) (i : ℕ) (x : A) (t : T)
    → get_elem? xs i ≡ some x
    → entry xs i t ≡ some (x, t)
unfolding entry
entry_lem xs i x t e = rw (e, entry) refl

pub read_node_lem :
    {S : Type 0} (at : ℕ) (b : BNode) (pool : Pages BPage) (s : S)
    → pool.page at ≡ some (node b)
    → read_node at (record { pool = pool; tables = s })
      ≡ some (b, record { pool = pool; tables = s })
unfolding read_node load
read_node_lem at b pool s e = rw (e, load) refl

-- `r` is the first of the rows from `i` to `n` that is equal to the key.
pub record Found (equal : Rid → Bool) (rows : List Rid) (i n : ℕ) (r : Rid) : Type 0 where
  pub place : ℕ
  pub from : i ≤ place
  pub inside : place < n
  pub is_row : get_or rows place rid_null ≡ r
  pub matches : equal r ≡ true
  pub first : (j : ℕ) → i ≤ j → j < place → equal (get_or rows j rid_null) ≡ false

-- None of them is, and `r` is the null RID.
pub record Missed (equal : Rid → Bool) (rows : List Rid) (i n : ℕ) (r : Rid) : Type 0 where
  pub null : r ≡ rid_null
  pub unequal : (j : ℕ) → i ≤ j → j < n → equal (get_or rows j rid_null) ≡ false

-- Each of the first `n` rows satisfies `D`.
abbrev pub Known : (D : Rid → ℕ → Type 0) → List Rid → (n leaf : ℕ) → Type 0
Known D rows n leaf = (j : ℕ) → j < n → D (get_or rows j rid_null) leaf

pub known_at :
    (D : Rid → ℕ → Type 0) (rows : List Rid) (n leaf i : ℕ) (a : Rid)
    → Known D rows n leaf
    → i < n
    → get_elem? rows i ≡ some a
    → D a leaf
known_at D rows n leaf i a known lt e = subst (λ r. D r leaf) (get_or_some rows i a e) (known i lt)
  where
    get_or_some :
        (rows : List Rid) (i : ℕ) (a : Rid) → get_elem? rows i ≡ some a → get_or rows i rid_null ≡ a
    get_or_some [] i a e = cc
    get_or_some (r ∷ rows) zero a e = cc
    get_or_some (r ∷ rows) (suc i) a e = get_or_some rows i a e

module _ (S : Type 0) (P : S → Type 0) (D : Rid → ℕ → Type 0) (cmp : Rid → ℕ → Run (Tree S) Sign)
    (sign : Rid → ℕ → Sign) (agree : Agrees S P D cmp sign) where
  abbrev equal : Rid → Bool
  equal r = is_zero (sign r 1)

  pub find_equal_lem :
      (rows : List Rid) (n m i : ℕ) (pool : Pages BPage) (s : S)
      → i + m ≡ n
      → n ≤ length rows
      → Known D rows n 1
      → P s
      → (r : Rid) × ((s' : S) × ((find_equal cmp rows m i (record { pool = pool; tables = s })
              ≡ some (r, record { pool = pool; tables = s' }))
            × ((Found equal rows i n r ⊎ Missed equal rows i n r) × P s')))
  unfolding find_equal
  find_equal_lem rows n zero i pool s at room known p = (
    rid_null,
    (s, (refl, (inr (record { null = refl; unequal = λ j le lt. absurd (omega arith) }), p))),
  )
  find_equal_lem rows n (suc m) i pool s at room known p =
      let q = get_or rows i rid_null in
      let t : Tree S = record { pool = pool; tables = s } in
      let read = entry_lem rows i q t (get_or_lem rows i rid_null (omega arith)) in
      let (s1, (ran, p1)) = agree.run q 1 pool s (known i (omega arith)) p in
      elim (Bool-cases (equal q)) [
        | inl same ↦ (
          q,
          (
            s1,
            (
              rw (read, ran, same) refl,
              (
                inl (record {
                  place = i;
                  from = omega arith;
                  inside = omega arith;
                  is_row = refl;
                  matches = same;
                  first = λ j le lt. absurd (omega arith);
                }),
                p1,
              ),
            ),
          ),
        )
        | inr differs ↦
            let (r, (s2, (result, (either, p2)))) =
              find_equal_lem rows n m (i + 1) pool s1 (omega arith) room known p1 in
            let here : (j : ℕ) → i ≤ j → (j ≡ i) ⊎ (i + 1 ≤ j) = λ j le. omega arith in
            (
              r,
              (
                s2,
                (
                  rw (read, ran, differs) result,
                  (
                    elim either [
                      | inl f ↦ inl (record {
                        place = f.place;
                        from = (let g = f.from in omega arith);
                        inside = f.inside;
                        is_row = f.is_row;
                        matches = f.matches;
                        first = λ j le lt. elim (here j le) [
                          | inl e ↦ rw (e) differs
                          | inr later ↦ f.first j later lt
                        ];
                      })
                      | inr m ↦ inr (record {
                        null = m.null;
                        unequal = λ j le lt. elim (here j le) [
                          | inl e ↦ rw (e) differs
                          | inr later ↦ m.unequal j later lt
                        ];
                      })
                    ],
                    p2,
                  ),
                ),
              ),
            )
      ]

  abbrev tree : Pages BPage → S → Tree S
  tree pool s = record { pool = pool; tables = s }

  abbrev before : Rid → Bool
  before r = is_minus (sign r 0)

  find_around_lem :
      (rows : List Rid) (m i : ℕ) (pool : Pages BPage) (s : S) (found : Option ℕ)
      → find_between (λ r. some (sign r 0)) rows m i ≡ some found
      → Known D rows (i + m + 1) 0
      → P s
      → (s' : S) × ((find_around cmp rows m i (record { pool = pool; tables = s })
            ≡ some (found, record { pool = pool; tables = s' }))
          × P s')
  unfolding find_around find_between
  find_around_lem rows zero i pool s found e known p = (s, (cc, p))
  find_around_lem rows (suc m) i pool s found e known p =
      let later : Known D rows (i + 1 + m + 1) 0 = λ j lt. known j (omega arith) in
      elim (Option-cases (get_elem? rows i)) [
        | inl lost ↦ (let h : none ≡ some found = rw (lost) at e in cc)
        | inr (a, read) ↦
            let (s1, (ran, p1)) =
              agree.run a 0 pool s (known_at D rows (i + suc m + 1) 0 i a known (omega arith) read)
                p in
            let at_a = entry_lem rows i a (tree pool s) read in
            elim (Bool-cases (before a)) [
              | inl is ↦
                  let (s2, (rest, p2)) =
                    find_around_lem rows m (i + 1) pool s1 found (rw (read, is) at e) later p1 in
                  (s2, (rw (at_a, ran, is) rest, p2))
              | inr isnt ↦ elim (Option-cases (get_elem? rows (i + 1))) [
                | inl lost ↦ (let h : none ≡ some found = rw (read, isnt, lost) at e in cc)
                | inr (b, read_b) ↦
                    let (s2, (ran_b, p2)) =
                      agree.run b 0 pool s1
                        (known_at D rows (i + suc m + 1) 0 (i + 1) b known (omega arith) read_b)
                        p1 in
                    let at_b = entry_lem rows (i + 1) b (tree pool s1) read_b in
                    elim (Bool-cases (before b)) [
                      | inl yes_b ↦
                          (let h : some (some (i + 1)) ≡ some found =
                              rw (read, isnt, read_b, yes_b) at e in
                            (s2, (rw (at_a, ran, isnt, at_b, ran_b, yes_b) (cc), p2)))
                      | inr no_b ↦
                          let (s3, (rest, p3)) =
                            find_around_lem rows m (i + 1) pool s2 found
                              (rw (read, isnt, read_b, no_b) at e) later p2 in
                          (s3, (rw (at_a, ran, isnt, at_b, ran_b, no_b) rest, p3))
                    ]
              ]
            ]
      ]

  -- Where find_index with the same signs goes to place `k` of an inner node with at least one row
  -- and fewer than 2^63, all of which can be compared, the search goes to child `k`, and leaves the
  -- pages alone.
  pub search_child-find_index :
      (bnode : BNode) (rid : Rid) (k : ℕ) (pool : Pages BPage) (s : S)
      → 0 < bnode.n
      → bnode.n < 2 ^ 63
      → find_index bnode rid 1 (λ a b x y. some (sign b 0)) ≡ some k
      → Known D bnode.row_ptr bnode.n 0
      → P s
      → (s' : S) × ((search_child cmp bnode (record { pool = pool; tables = s })
            ≡ some (k, record { pool = pool; tables = s' }))
          × P s')
  unfolding search_child find_index
  search_child-find_index bnode rid k pool s some_row few e known p =
      let rows = bnode.row_ptr in
      let known_first : (a : Rid) → get_elem? rows 0 ≡ some a → D a 0 =
        λ a read. known_at D rows bnode.n 0 0 a known (omega arith) read in
      let known_last : (b : Rid) → get_elem? rows (bnode.n - 1) ≡ some b → D b 0 =
        λ b read. known_at D rows bnode.n 0 (bnode.n - 1) b known (omega arith) read in
      let within : Known D rows (0 + (bnode.n - 1) + 1) 0 = λ j lt. known j (omega arith) in
      let full : (bnode.n == 0) ≡ false = ground arith in
      let rounds : (bnode.n + 2 ^ 64 - 1) % 2 ^ 64 ≡ bnode.n - 1 = omega arith in
      elim (Option-cases (get_elem? bnode.row_ptr 0)) [
        | inl lost ↦ (let h : none ≡ some k = rw (full, lost) at e in cc)
        | inr (a, read) ↦
            let (s1, (ran, p1)) = agree.run a 0 pool s (known_first a read) p in
            let at_a = entry_lem bnode.row_ptr 0 a (tree pool s) read in
            elim (Bool-cases (before a)) [
              | inl is ↦
                  (let h : some 0 ≡ some k = rw (full, read, is) at e in
                    (s1, (rw (at_a, ran, is) (cc), p1)))
              | inr isnt ↦
                  elim (Option-cases
                    (find_between (λ r. some (sign r 0)) bnode.row_ptr (bnode.n - 1) 0)) [
                      | inl lost ↦ (let h : none ≡ some k = rw (full, read, isnt, lost) at e in cc)
                      | inr (some j, between) ↦
                          let h : some j ≡ some k = rw (full, read, isnt, between) at e in
                          let (s2, (around, p2)) =
                            find_around_lem bnode.row_ptr (bnode.n - 1) 0 pool s1 (some j) between
                              within p1 in
                          (s2, (rw (at_a, ran, isnt, rounds, around) (cc), p2))
                      | inr (none, between) ↦
                          let (s2, (around, p2)) =
                            find_around_lem bnode.row_ptr (bnode.n - 1) 0 pool s1 none between
                              within p1 in
                          elim (Option-cases (get_elem? bnode.row_ptr (bnode.n - 1))) [
                            | inl lost ↦
                                (let h : none ≡ some k =
                                    rw (full, read, isnt, between, lost) at e in
                                  cc)
                            | inr (b, read_b) ↦
                                let at_b =
                                  entry_lem bnode.row_ptr (bnode.n - 1) b (tree pool s2) read_b in
                                let (s3, (ran_b, p3)) =
                                  agree.run b 0 pool s2 (known_last b read_b) p2 in
                                elim (Bool-cases (before b)) [
                                  | inl ahead ↦
                                      (let h : none ≡ some k =
                                          rw (full, read, isnt, between, read_b, ahead) at e in
                                        cc)
                                  | inr last ↦
                                      (let h : some bnode.n ≡ some k =
                                          rw (full, read, isnt, between, read_b, last) at e in
                                        (
                                          s3,
                                          (
                                            rw (at_a, ran, isnt, rounds, around, at_b, ran_b, last)
                                                (cc),
                                            p3,
                                          ),
                                        ))
                                ]
                          ]
                    ]
            ]
      ]
