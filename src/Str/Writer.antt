-- ===== src/Str/Writer.antt =====
-- Writing a string of src/str.c: which chunks go to the table.
use simple_redis_database.Common.{
  ℕ, zero, suc, false, ◌+◌, ◌-◌, ◌*◌, ◌/◌, ◌%◌, ◌≤◌, ◌<◌, ◌≡◌, refl, Option, none, some, List, [],
  ◌∷◌, ◌++◌, arith, length, drop, All, ◌==◌, Bool-cases, inl, inr, ==→eq, ==→ne, ne→==, sym, ap,
  ◌∙◌, take-append-drop, length-take, length-drop, ◌>>=◌,
}
use simple_redis_database.Rid.{Rid, rid_null}
use simple_redis_database.Str.{ChunkTable, write_string, write_chunks, slice, str_chunk_max_len}
use simple_redis_database.Str.Chain.{chars_of}

drop-nil : (n : ℕ) → drop {A = ℕ} n [] ≡ []
drop-nil zero = refl
drop-nil (suc n) = refl

drop-drop : (xs : List ℕ) (m n : ℕ) → drop m (drop n xs) ≡ drop (n + m) xs
drop-drop xs m zero = ap (λ k. drop k xs) {x = m} {y = 0 + m} (omega arith)
drop-drop [] m (suc n) = drop-nil m ∙ sym (drop-nil (suc n + m))
drop-drop (x ∷ xs) m (suc n) =
    drop-drop xs m n ∙ ap (λ k. drop k (x ∷ xs)) {x = suc (n + m)} {y = suc n + m} (omega arith)

drop-all : (xs : List ℕ) → drop (length xs) xs ≡ []
drop-all [] = refl
drop-all (x ∷ xs) = drop-all xs

-- A slice and what is behind it.
slice-drop : (xs : List ℕ) (p n : ℕ) → slice xs p n ++ drop (p + n) xs ≡ drop p xs
slice-drop xs p n =
    ap (λ l. slice xs p n ++ l) (sym (drop-drop xs n p)) ∙ take-append-drop n (drop p xs)

length-slice : (xs : List ℕ) (p n : ℕ) → p + n ≤ length xs → length (slice xs p n) ≡ n
length-slice xs p n h = omega (arith, length-take n (drop p xs), length-drop p xs)

-- A chunk has room for these characters.
abbrev pub Fits : List ℕ → Type 0
Fits body = length body ≤ 20

-- What a chunk is from a byte of the string on.
abbrev pub NotEmpty : List ℕ → Type 0
NotEmpty body = 0 < length body

module _ (t : ChunkTable) where
  open t use {State, table_insert}

  -- The strings as linked chunks, the last one first: each with the RID of the one behind it, and in a
  -- record of its characters, 10 bytes for the RID and 2 for the size.
  unfoldable pub insert_all : State → List (List ℕ) → Option (Rid × State)
  insert_all s [] = some (rid_null, s)
  insert_all s (body ∷ bodies) = insert_all s bodies >>= λ (next, s').
      table_insert s' (record { rid = next; size = length body; body = body }) (length body + 12)

  bind_assoc :
      {A B C : Type 0} (o : Option A) (f : A → Option B) (g : B → Option C)
      → ((o >>= f) >>= g) ≡ (o >>= λ a. f a >>= g)
  bind_assoc none f g = refl
  bind_assoc (some a) f g = refl

  bind_some : (o : Option (Rid × State)) → (o >>= λ (r, s). some (r, s)) ≡ o
  bind_some none = refl
  bind_some (some (r, s)) = refl

  -- One chunk in front.
  front :
      (s : State) (chars : List ℕ) (p n : ℕ) (bodies : List (List ℕ))
      → p + n ≤ length chars
      → (insert_all s bodies >>= λ (rid, s').
          table_insert s' (record { rid = rid; size = n; body = slice chars p n }) (n + 12))
        ≡ insert_all s (slice chars p n ∷ bodies)
  unfolding insert_all
  front s chars p n bodies le =
      let len : n ≡ length (slice chars p n) = sym (length-slice chars p n le) in
      ap
        (λ (k : ℕ). insert_all s bodies >>= λ (rid, s').
          table_insert s' (record { rid = rid; size = k; body = slice chars p n }) (k + 12))
        len

  -- The string from a place on is in these chunks.
  record Split (xs : List ℕ) (bodies : List (List ℕ)) : Type 0 where
    spells : chars_of bodies ≡ xs
    fit : All Fits bodies
    filled : All NotEmpty bodies

  front-Split :
      (chars : List ℕ) (ptr p n : ℕ) (bodies : List (List ℕ))
      → p + n ≡ ptr
      → ptr ≤ length chars
      → 0 < n
      → n ≤ 20
      → Split (drop ptr chars) bodies
      → Split (drop p chars) (slice chars p n ∷ bodies)
  front-Split chars ptr p n bodies e le pos small d =
      let len : length (slice chars p n) ≡ n = length-slice chars p n (omega arith) in
      record {
        spells =
            ap (λ l. slice chars p n ++ l) (d.spells ∙ ap (λ k. drop k chars) (sym e))
            ∙ slice-drop chars p n;
        fit = (omega arith, d.fit);
        filled = (omega arith, d.filled);
      }

  write_chunks-insert_all :
      (s : State) (chars : List ℕ) (n ptr : ℕ) (bodies : List (List ℕ))
      → ptr ≡ str_chunk_max_len * n
      → ptr ≤ length chars
      → Split (drop ptr chars) bodies
      → (bodies' : List (List ℕ)) × Split chars bodies'
        × ((insert_all s bodies >>= λ (rid, s'). write_chunks t chars n ptr rid s')
            ≡ insert_all s bodies')
  unfolding write_chunks
  write_chunks-insert_all s chars zero ptr bodies e le d =
      let q : ptr ≡ 0 = omega arith in (bodies, rw q at d, bind_some (insert_all s bodies))
  write_chunks-insert_all s chars (suc n) ptr bodies e le d =
      let p = ptr - str_chunk_max_len in
      let (bodies', split, same) =
        write_chunks-insert_all s chars n p (slice chars p 20 ∷ bodies) (omega arith) (omega arith)
          (front-Split chars ptr p 20 bodies (omega arith) le (omega arith) (omega arith) d) in
      (
        bodies',
        split,
        sym (
              bind_assoc (insert_all s bodies)
                (λ (rid, s').
                  table_insert s' (record { rid = rid; size = 20; body = slice chars p 20 }) 32)
                (λ (rid', s''). write_chunks t chars n p rid' s''))
            ∙ ap (λ o. o >>= λ (rid', s''). write_chunks t chars n p rid' s'')
                (front s chars p 20 bodies (omega arith))
            ∙ same,
      )

  -- The first insertion, of the last `n` characters, and the rounds before it.
  last_first :
      (s : State) (chars : List ℕ) (n rounds room : ℕ)
      → room ≡ n + 12
      → 0 < n
      → n ≤ 20
      → length chars ≡ str_chunk_max_len * rounds + n
      → (bodies : List (List ℕ)) × Split chars bodies
        × ((table_insert s
                (record { rid = rid_null; size = n; body = slice chars (length chars - n) n })
                room
              >>= λ (rid, s'). write_chunks t chars rounds (length chars - n) rid s')
            ≡ insert_all s bodies)
  unfolding insert_all
  last_first s chars n rounds room has_room pos small e =
      let size = length chars in
      let p = size - n in
      let nothing : Split (drop size chars) [] = record {
        spells = sym (drop-all chars);
        fit = tt;
        filled = tt;
      } in
      let (bodies, split, same) =
        write_chunks-insert_all s chars rounds p (slice chars p n ∷ []) (omega arith) (omega arith)
          (front-Split chars size p n [] (omega arith) (omega arith) pos small nothing) in
      (
        bodies,
        split,
        ap
              (λ m.
                table_insert s (record { rid = rid_null; size = n; body = slice chars p n }) m
                >>= λ (rid, s'). write_chunks t chars rounds p rid s')
              has_room
            ∙ ap (λ o. o >>= λ (rid, s'). write_chunks t chars rounds p rid s')
                (front s chars p n [] (omega arith))
            ∙ same,
      )

  -- On any table, write_string inserts chunks that hold the characters of the string in their order,
  -- at most 20 each and at least one unless the string is empty: the last chunk first, with the null RID
  -- behind it, each with the RID of the one behind it, in a record with room for its characters, the
  -- RID and the size; it returns the RID of the first chunk, and fails only where the table does.
  pub write_string-insert_all :
      (s : State) (chars : List ℕ)
      → (bodies : List (List ℕ)) × (chars_of bodies ≡ chars)
        × All Fits bodies
        × (0 < length chars → All NotEmpty bodies)
        × (write_string t s chars ≡ insert_all s bodies)
  unfolding write_string insert_all
  write_string-insert_all s [] =
      ([] ∷ [], refl, (omega arith, tt), λ pos. absurd (omega arith), refl)
  write_string-insert_all s (x ∷ xs) =
      let chars = x ∷ xs in
      let size = length chars in
      let last = size % str_chunk_max_len in
      let some_left : (size == 0) ≡ false = ne→== size 0 (omega arith) in
      elim (Bool-cases (last == 0)) [
        | inr e ↦
            let ne = ==→ne last 0 e in
            let (bodies, d, same) =
              last_first s chars last (size / str_chunk_max_len) (last + 10 + 2) (omega arith)
                (omega arith) (omega arith) (omega arith) in
            (bodies, d.spells, d.fit, λ pos. d.filled, rw (some_left, e) same)
        | inl e ↦
            let q = ==→eq last 0 e in
            let (bodies, d, same) =
              last_first s chars 20 (size / str_chunk_max_len - 1) 32 refl (omega arith)
                (omega arith) (omega arith) in
            (bodies, d.spells, d.fit, λ pos. d.filled, rw (some_left, e) same)
      ]
