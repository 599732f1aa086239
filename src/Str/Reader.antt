-- ===== src/Str/Reader.antt =====
-- Reading a string of src/str.c: the characters come in order, loading stops at the limit, and
-- comparing is lexicographic.
use simple_redis_database.Common.{
  ℕ, zero, suc, ◌+◌, ◌≤◌, ◌<◌, ◌≡◌, refl, true, false, Bool, ltb, subst, some, List, [], ◌∷◌, ◌++◌,
  arith, length, drop, take, All, ◌==◌, get_elem?, if◌then◌else◌, Bool-cases, inl, inr, ==→eq,
  ==→ne, eq→==, ne→==, ap, ◌∙◌,
}
use simple_redis_database.Str.{
  StringRecord, ChunkTable, has_next_char, next_char, load_string, compare_string_record, Sign,
  minus, zero_sign, plus, char_lt, null_addr,
}
use simple_redis_database.Str.Chain.{chars_of, NonEmpty, Chain, Reads}

drop-length : (xs : List ℕ) (i : ℕ) → length xs ≤ i → drop i xs ≡ []
drop-length [] zero h = refl
drop-length [] (suc i) h = refl
drop-length (x ∷ xs) zero h = absurd (omega arith)
drop-length (x ∷ xs) (suc i) h = drop-length xs i (omega arith)

-- The next character and what comes behind it.
drop-cons :
    (xs : List ℕ) (i : ℕ)
    → i < length xs
    → (c : ℕ) × (get_elem? xs i ≡ some c) × (drop i xs ≡ c ∷ drop (suc i) xs)
drop-cons [] i h = absurd (omega arith)
drop-cons (x ∷ xs) zero h = (x, refl, refl)
drop-cons (x ∷ xs) (suc i) h = drop-cons xs i (omega arith)

-- The order of two bytes as chars: those from 128 on are the negative ones.
abbrev pub char_before : ℕ → ℕ → Bool
char_before x y =
    if ltb x 128
    then (if ltb y 128 then ltb x y else false)
    else (if ltb y 128 then true else ltb x y)

abbrev pub IsByte : ℕ → Type 0
IsByte x = x < 256

char_lt-char_before : (x y : ℕ) → IsByte x → IsByte y → char_lt x y ≡ char_before x y
unfolding char_lt
char_lt-char_before x y bx by' = ground arith

-- The order of two strings of chars, a proper prefix before the longer one.
unfoldable pub lex : List ℕ → List ℕ → Sign
lex [] [] = zero_sign
lex [] (y ∷ ys) = minus
lex (x ∷ xs) [] = plus
lex (x ∷ xs) (y ∷ ys) = if x == y then lex xs ys else (if char_before x y then minus else plus)

module _ (t : ChunkTable) where
  open t use {State, table_read}

  -- What is to come at a place of a string.
  pub data Next (s : State) (r : StringRecord) (xs : List ℕ) : Type 0 where
    ended : has_next_char r ≡ false → xs ≡ [] → Next s r xs
    steps :
        (c : ℕ) (rest : List ℕ) (r' : StringRecord)
        → has_next_char r ≡ true
        → next_char t s r ≡ some (c, r')
        → xs ≡ c ∷ rest
        → Reads t s r' rest
        → Next s r xs

  module _ {s : State} (r : StringRecord) (xs : List ℕ) (d : Reads t s r xs) where
    Next-here : r.idx < length d.body → Next s r xs
    unfolding has_next_char next_char
    Next-here lt =
        let (c, at, e) = drop-cons d.body r.idx lt in
        let ne : (r.idx == r.chunk.size) ≡ false = ne→== _ _ (omega (arith, d.size)) in
        let at' : get_elem? r.chunk.body r.idx ≡ some c = ap (λ b. get_elem? b r.idx) d.own ∙ at in
        steps c (drop (suc r.idx) d.body ++ chars_of d.bodies) (record r { idx = r.idx + 1 })
          (rw ne) (rw (ne, at')) (d.left ∙ ap (λ l. l ++ chars_of d.bodies) e)
          (record {
            body = d.body;
            bodies = d.bodies;
            size = d.size;
            own = d.own;
            within = omega arith;
            chain = d.chain;
            filled = d.filled;
            left =
                ap (λ n. drop n d.body ++ chars_of d.bodies) {x = suc r.idx} {y = r.idx + 1}
                  (omega arith);
          })

    Next-behind :
        r.idx ≡ length d.body
        → (bodies : List (List ℕ)) → Chain t s r.chunk.rid bodies
        → All NonEmpty bodies
        → xs ≡ chars_of bodies
        → Next s r xs
    unfolding has_next_char next_char
    Next-behind e [] c f left =
        let done : (r.idx == r.chunk.size) ≡ true = eq→== _ _ (omega (arith, d.size)) in
        ended (rw (done, c)) left
    Next-behind e (body ∷ bodies) (next, used, at, rest) f left =
        let done : (r.idx == r.chunk.size) ≡ true = eq→== _ _ (omega (arith, d.size)) in
        let more : null_addr r.chunk.rid ≡ false = ne→== _ _ used in
        let (c, c_at, e') = drop-cons body 0 f.0 in
        steps c (drop 1 body ++ chars_of bodies)
          (record { chunk = record { rid = next; size = length body; body = body }; idx = 1 })
          (rw (done, more)) (rw (done, at, c_at)) (left ∙ ap (λ l. l ++ chars_of bodies) e')
          (record {
            body = body;
            bodies = bodies;
            size = refl;
            own = refl;
            within = f.0;
            chain = rest;
            filled = f.1;
            left = refl;
          })

    pub next : Next s r xs
    next = elim (Bool-cases (r.idx == length d.body)) [
      | inl e ↦
          let q = ==→eq r.idx (length d.body) e in
          Next-behind q d.bodies d.chain d.filled
            (d.left ∙ ap (λ l. l ++ chars_of d.bodies) (drop-length d.body r.idx (omega arith)))
      | inr e ↦ let ne = ==→ne r.idx (length d.body) e in Next-here (omega (arith, d.within))
    ]

  load-Next :
      (s : State) (n : ℕ)
      → ((r : StringRecord) (xs : List ℕ) → Reads t s r xs → load_string t s r n ≡ some (take n xs))
      → (r : StringRecord) (xs : List ℕ) → Next s r xs
      → load_string t s r (suc n) ≡ some (take (suc n) xs)
  unfolding load_string
  load-Next s n ih r xs (ended e none_left) = rw (e, none_left)
  load-Next s n ih r xs (steps c rest r' e stepped left d) = rw (e, stepped, left, ih r' rest d)

  -- load_string returns the characters that are left at a place of a string, max_size of them at
  -- most.
  pub load_string-take :
      (s : State) (n : ℕ) (r : StringRecord) (xs : List ℕ)
      → Reads t s r xs
      → load_string t s r n ≡ some (take n xs)
  unfolding load_string
  load_string-take s zero r xs d = refl
  load_string-take s (suc n) r xs d = load-Next s n (load_string-take s n) r xs (next r xs d)

  compare-Next :
      (s : State) (fuel : ℕ)
      → ((a b : StringRecord) (xs ys : List ℕ)
          → length xs < fuel
          → Reads t s a xs
          → Reads t s b ys
          → All IsByte xs
          → All IsByte ys
          → compare_string_record t fuel s a b ≡ some (lex xs ys))
      → (a b : StringRecord) (xs ys : List ℕ) → length xs < suc fuel
      → Next s a xs
      → Next s b ys
      → All IsByte xs
      → All IsByte ys
      → compare_string_record t (suc fuel) s a b ≡ some (lex xs ys)
  unfolding compare_string_record lex
  compare-Next s fuel ih a b xs ys lt (ended e p) (ended f q) bx by' = rw (e, f, p, q)
  compare-Next s fuel ih a b xs ys lt (ended e p) (steps y rest b' f stepped q d) bx by' =
      rw (e, f, p, q)
  compare-Next s fuel ih a b xs ys lt (steps x rest a' e stepped p d) (ended f q) bx by' =
      rw (e, f, p, q)
  compare-Next s fuel ih a b xs ys lt (steps x rest a' e stepped p d)
        (steps y rest' b' f stepped' q d') bx by' =
      let cx = subst (All IsByte) p bx in
      let cy = subst (All IsByte) q by' in
      let order = char_lt-char_before x y cx.0 cy.0 in
      let shorter : length rest < fuel = omega (arith, ap length p) in
      rw (e, f, p, q, stepped, stepped', ih a' b' rest rest' shorter d d' cx.1 cy.1)
        (elim (Bool-cases (x == y)) [
          | inl g ↦ rw g
          | inr g ↦
              rw g rw order (elim (Bool-cases (char_before x y)) [ inl h ↦ rw h | inr h ↦ rw h ])
        ])

  -- For strings of bytes, and with more fuel than the first one has characters, compare_string_record
  -- returns the order of the two strings that are left at two places: the lexicographic one of their
  -- signed chars.
  pub compare_string_record-lex :
      (s : State) (fuel : ℕ) (a b : StringRecord) (xs ys : List ℕ)
      → length xs < fuel
      → Reads t s a xs
      → Reads t s b ys
      → All IsByte xs
      → All IsByte ys
      → compare_string_record t fuel s a b ≡ some (lex xs ys)
  compare_string_record-lex s zero a b xs ys lt da db bx by' = absurd (omega arith)
  compare_string_record-lex s (suc fuel) a b xs ys lt da db bx by' =
      compare-Next s fuel (compare_string_record-lex s fuel) a b xs ys lt (next a xs da)
        (next b ys db) bx by'
