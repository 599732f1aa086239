-- ===== src/Shell/Lines.antt =====
-- read_input of main/myjqlshell.cpp: what it makes of each line, and the end of the shell.
use simple_redis_database.Common.{
  append-nil, ℕ, zero, suc, ◌+◌, ◌-◌, ◌≤◌, ◌<◌, ◌≡◌, ◌≢◌, refl, sym, ap, ◌∙◌, inl, inr, Bool, true,
  false, ◌&&◌, ◌||◌, Bool-cases, List, [], ◌∷◌, ◌++◌, leb, ◌==◌, ne→==, if◌then◌else◌, length, take,
  drop, All, arith, length-append, length-take,
}
use simple_redis_database.Shell.{
  input_buffer_size, newline, eof, input_success, input_too_long, end_of_input, endless, read_chars,
  discard, last, read_input,
}

-- No character of a line ends it.
abbrev pub IsPlain : ℕ → Type 0
IsPlain c = (c ≢ newline) × (c ≢ eof)

goes_on : (c : ℕ) → IsPlain c → (c == newline || c == eof) ≡ false
goes_on c (no_line, no_end) = rw (ne→== c newline no_line, ne→== c eof no_end) refl

-- A line that fits the buffer, with the character that ends it.
read_chars-stop :
    (n : ℕ) (line rest : List ℕ) (c : ℕ)
    → All IsPlain line
    → n + length line ≤ input_buffer_size
    → (c == newline || c == eof) ≡ true
    → read_chars n (line ++ c ∷ rest) ≡ (line ++ c ∷ [], rest)
unfolding read_chars
read_chars-stop n [] rest c plain le stop =
    let fits : leb n input_buffer_size ≡ true = ground arith in rw (fits, stop) refl
read_chars-stop n (d ∷ line) rest c (p, plain) le stop =
    let fits : leb n input_buffer_size ≡ true = ground arith in
    rw (fits, goes_on d p, read_chars-stop (n + 1) line rest c plain (omega arith) stop) refl

read_chars-end :
    (n : ℕ) (line : List ℕ)
    → All IsPlain line
    → n + length line ≤ input_buffer_size
    → read_chars n line ≡ (line ++ eof ∷ [], [])
unfolding read_chars
read_chars-end n [] plain le =
    let fits : leb n input_buffer_size ≡ true = ground arith in rw fits refl
read_chars-end n (d ∷ line) (p, plain) le =
    let fits : leb n input_buffer_size ≡ true = ground arith in
    rw (fits, goes_on d p, read_chars-end (n + 1) line plain (omega arith)) refl

read_chars-none :
    (n : ℕ) (rest : List ℕ) → n ≡ input_buffer_size + 1 → read_chars n rest ≡ ([], rest)
unfolding read_chars
read_chars-none n [] eq = let full : leb n input_buffer_size ≡ false = ground arith in rw full refl
read_chars-none n (c ∷ rest) eq =
    let full : leb n input_buffer_size ≡ false = ground arith in rw full refl

-- A line that does not fit it: `k` characters do.
read_chars-full :
    (k n : ℕ) (line rest : List ℕ)
    → All IsPlain line
    → n + k ≡ input_buffer_size + 1
    → k ≤ length line
    → read_chars n (line ++ rest) ≡ (take k line, drop k line ++ rest)
unfolding read_chars
read_chars-full zero n line rest plain eq le = read_chars-none n (line ++ rest) (omega arith)
read_chars-full (suc k) n [] rest plain eq le = ground arith
read_chars-full (suc k) n (d ∷ line) rest (p, plain) eq le =
    let fits : leb n input_buffer_size ≡ true = ground arith in
    rw (fits, goes_on d p, read_chars-full k (n + 1) line rest plain (omega arith) (omega arith))
      refl

discard-line :
    (line rest : List ℕ) → All IsPlain line → discard (line ++ newline ∷ rest) ≡ input_too_long rest
unfolding discard
discard-line [] rest plain = refl
discard-line (c ∷ line) rest (p, plain) =
    rw (ne→== c newline p.0, discard-line line rest plain) refl

discard-end : (line : List ℕ) → All IsPlain line → discard line ≡ endless
unfolding discard
discard-end [] plain = refl
discard-end (c ∷ line) (p, plain) = rw (ne→== c newline p.0, discard-end line plain) refl

last-append : (cs : List ℕ) (c : ℕ) → last (cs ++ c ∷ []) ≡ c
unfolding last
last-append [] c = refl
last-append (b ∷ []) c = refl
last-append (b ∷ d ∷ cs) c = last-append (d ∷ cs) c

last-IsPlain : (cs : List ℕ) → All IsPlain cs → 0 < length cs → IsPlain (last cs)
unfolding last
last-IsPlain [] plain pos = ground arith
last-IsPlain (b ∷ []) plain pos = plain.0
last-IsPlain (b ∷ d ∷ cs) plain pos = last-IsPlain (d ∷ cs) plain.1 (omega arith)

take-append : (xs ys : List ℕ) → take (length xs) (xs ++ ys) ≡ xs
take-append [] ys = refl
take-append (x ∷ xs) ys = ap (λ l. x ∷ l) (take-append xs ys)

All-take : (n : ℕ) (xs : List ℕ) → All IsPlain xs → All IsPlain (take n xs)
All-take zero xs p = tt
All-take (suc n) [] p = tt
All-take (suc n) (x ∷ xs) (p, ps) = (p, All-take n xs ps)

All-drop : (n : ℕ) (xs : List ℕ) → All IsPlain xs → All IsPlain (drop n xs)
All-drop zero xs p = p
All-drop (suc n) [] p = tt
All-drop (suc n) (x ∷ xs) (p, ps) = All-drop n xs ps

length-suc : (cs : List ℕ) (c : ℕ) → length (cs ++ c ∷ []) - 1 ≡ length cs
length-suc cs c = let len = length-append cs (c ∷ []) in omega arith

and_false : (b : Bool) → (b && false) ≡ false
and_false true = refl
and_false false = refl

read_input-success :
    (stdin line rest : List ℕ)
    → read_chars 0 stdin ≡ (line ++ newline ∷ [], rest)
    → read_input stdin ≡ input_success line rest
unfolding read_input
read_input-success stdin line rest chars =
    rw
      (
        chars,
        last-append line newline,
        length-suc line newline,
        and_false (length line == input_buffer_size),
        take-append line (newline ∷ []),
      )
      refl

read_input-eof :
    (stdin line rest : List ℕ)
    → read_chars 0 stdin ≡ (line ++ eof ∷ [], rest)
    → read_input stdin ≡ end_of_input
unfolding read_input
read_input-eof stdin line rest chars = rw (chars, last-append line eof) refl

read_input-discard :
    (line rest : List ℕ)
    → All IsPlain line
    → input_buffer_size < length line
    → read_input (line ++ rest) ≡ discard (drop (input_buffer_size + 1) line ++ rest)
unfolding read_input
read_input-discard line rest plain lt =
    let size = input_buffer_size + 1 in
    let chars = read_chars-full size 0 line rest plain refl lt in
    let len : length (take size line) ≡ size = (let l = length-take size line in omega arith) in
    let p = last-IsPlain (take size line) (All-take size line plain) (omega arith) in
    rw
      (chars, ne→== (last (take size line)) eof p.1, ne→== (last (take size line)) newline p.0, len)
      refl

-- Of a line without a new-line or a 255 in it, read_input gives the line when the buffer's 1024
-- characters hold it and a new-line follows, and reports a longer one and goes on behind its new-line.
-- At the end of stdin it exits when the line fits, and never returns when it does not. A character 255
-- has it exit like the end of stdin when the line before it fits, and is discarded like the others
-- when it does not.
pub read_input-line :
    (line rest : List ℕ)
    → All IsPlain line
    → (read_input (line ++ newline ∷ rest) ≡ (
        if leb (length line) input_buffer_size
        then input_success line rest
        else input_too_long rest))
      × (read_input line ≡ (if leb (length line) input_buffer_size then end_of_input else endless))
      × (read_input (line ++ eof ∷ rest) ≡ (
          if leb (length line) input_buffer_size
          then end_of_input
          else discard (drop (input_buffer_size + 1) line ++ eof ∷ rest)))
read_input-line line rest plain = elim (Bool-cases (leb (length line) input_buffer_size)) [
  | inl fits ↦
      let le : 0 + length line ≤ input_buffer_size = ground arith in
      rw fits (
        read_input-success (line ++ newline ∷ rest) line rest
            (read_chars-stop 0 line rest newline plain le refl),
        read_input-eof line line [] (read_chars-end 0 line plain le),
        read_input-eof (line ++ eof ∷ rest) line rest
            (read_chars-stop 0 line rest eof plain le refl),
      )
  | inr long ↦
      let lt : input_buffer_size < length line = ground arith in
      let tail = drop (input_buffer_size + 1) line in
      let ends = All-drop (input_buffer_size + 1) line plain in
      rw long (
        read_input-discard line (newline ∷ rest) plain lt ∙ discard-line tail rest ends,
        (ap read_input (sym (append-nil line))
            ∙ read_input-discard line [] plain lt
            ∙ ap discard (append-nil tail)
            ∙ discard-end tail ends),
        read_input-discard line (eof ∷ rest) plain lt,
      )
]
