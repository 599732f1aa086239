-- ===== src/Shell/Buffers.antt =====
-- The arrays `command`, `key` and `value` of main/myjqlshell.cpp, of 1025 characters each: what sscanf
-- stores in them.
use simple_redis_database.Common.{
  ℕ, suc, ◌+◌, ◌≤◌, ◌<◌, ◌≡◌, refl, ap, subst, inl, inr, Bool, true, false, ◌&&◌, Bool-cases,
  Option, none, some, List, [], ◌∷◌, ◌==◌, length, arith,
}
use simple_redis_database.Server.Protocol.{Request}
use simple_redis_database.Client.{c_string}
use simple_redis_database.Shell.{
  input_buffer_size, input_success, read_input, isspace, skip_space, split_word, non_empty,
  scan_word, same, get_text, set_text, del_text, Command, request, invalid_input, invalid_command,
  one_word, two_words, parse_words, parse,
}
use simple_redis_database.Shell.Bounds.{IsRead, read_input-IsRead}

c_string-length : (cs : List ℕ) → length (c_string cs) ≤ length cs
unfolding c_string
c_string-length [] = omega arith
c_string-length (c ∷ cs) =
    let rest = c_string-length cs in
    elim (Bool-cases (c == 0)) [ inl end ↦ rw end (omega arith) | inr more ↦ rw more (omega arith) ]

skip_space-length : (cs : List ℕ) → length (skip_space cs) ≤ length cs
unfolding skip_space
skip_space-length [] = omega arith
skip_space-length (c ∷ cs) =
    let rest = skip_space-length cs in
    elim (Bool-cases (isspace c)) [
      | inl blank ↦ rw blank (omega arith)
      | inr ink ↦ rw ink (omega arith)
    ]

split_word-length : (cs : List ℕ) → length (split_word cs).0 + length (split_word cs).1 ≡ length cs
unfolding split_word
split_word-length [] = omega arith
split_word-length (c ∷ cs) =
    let rest = split_word-length cs in
    elim (Bool-cases (isspace c)) [
      | inl blank ↦ rw blank (omega arith)
      | inr ink ↦ rw ink (omega arith)
    ]

-- A word found among `n` characters.
abbrev pub Within : ℕ → Option (List ℕ × List ℕ) → Type 0
Within n none = Unit
Within n (some (word, rest)) = (0 < length word) × (length word + length rest ≤ n)

non_empty-Within :
    (n : ℕ) (p : List ℕ × List ℕ) → length p.0 + length p.1 ≤ n → Within n (non_empty p)
non_empty-Within n ([], rest) le = tt
non_empty-Within n (c ∷ word, rest) le = (omega arith, le)

scan_word-Within : (n : ℕ) (cs : List ℕ) → length cs ≤ n → Within n (scan_word cs)
unfolding scan_word
scan_word-Within n cs le =
    let skipped = skip_space-length cs in
    let split = split_word-length (skip_space cs) in
    non_empty-Within n (split_word (skip_space cs)) (omega arith)

-- The strings of a request have `n` characters together at most, and none is empty.
abbrev pub Fits : ℕ → Command → Type 0
Fits n (request (Request.get key)) = (0 < length key) × (length key ≤ n)
Fits n (request (Request.set_to key value)) =
    (0 < length key) × (0 < length value) × (length key + length value ≤ n)
Fits n (request (Request.del key)) = (0 < length key) × (length key ≤ n)
Fits n invalid_input = Unit
Fits n invalid_command = Unit

get-Fits : (n : ℕ) (o : Option (List ℕ × List ℕ)) → Within n o → Fits n (one_word Request.get o)
get-Fits n none w = tt
get-Fits n (some (key, rest)) (pos, le) = (pos, omega arith)

del-Fits : (n : ℕ) (o : Option (List ℕ × List ℕ)) → Within n o → Fits n (one_word Request.del o)
del-Fits n none w = tt
del-Fits n (some (key, rest)) (pos, le) = (pos, omega arith)

value-Fits :
    (n m : ℕ) (key : List ℕ) (o : Option (List ℕ × List ℕ))
    → 0 < length key
    → length key + m ≤ n
    → Within m o
    → Fits n (one_word (λ value. Request.set_to key value) o)
value-Fits n m key none pos le w = tt
value-Fits n m key (some (value, rest)) pos le (pos', le') = (pos, pos', omega arith)

set-Fits : (n : ℕ) (o : Option (List ℕ × List ℕ)) → Within n o → Fits n (two_words o)
unfolding two_words
set-Fits n none w = tt
set-Fits n (some (key, rest)) (pos, le) =
    value-Fits n (length rest) key (scan_word rest) pos le
      (scan_word-Within (length rest) rest (omega arith))

right_true : (a b : Bool) → (a && b) ≡ true → b ≡ true
right_true true b e = e
right_true false b e = cc

same-length : (cs ds : List ℕ) → same cs ds ≡ true → length cs ≡ length ds
unfolding same
same-length [] [] e = refl
same-length [] (d ∷ ds) e = cc
same-length (c ∷ cs) [] e = cc
same-length (c ∷ cs) (d ∷ ds) e = ap suc (same-length cs ds (right_true (c == d) (same cs ds) e))

parse_words-Fits :
    (n : ℕ) (o : Option (List ℕ × List ℕ)) → Within (n + 3) o → Fits n (parse_words o)
unfolding parse_words
parse_words-Fits n none w = tt
parse_words-Fits n (some (command, rest)) (pos, le) = elim (Bool-cases (same command get_text)) [
  | inl is_get ↦
      let three = same-length command get_text is_get in
      rw is_get (get-Fits n (scan_word rest) (scan_word-Within n rest (omega arith)))
  | inr not_get ↦ elim (Bool-cases (same command set_text)) [
    | inl is_set ↦
        let three = same-length command set_text is_set in
        rw (not_get, is_set) (set-Fits n (scan_word rest) (scan_word-Within n rest (omega arith)))
    | inr not_set ↦ elim (Bool-cases (same command del_text)) [
      | inl is_del ↦
          let three = same-length command del_text is_del in
          rw (not_get, not_set, is_del)
            (del-Fits n (scan_word rest) (scan_word-Within n rest (omega arith)))
      | inr not_del ↦ rw (not_get, not_set, not_del) tt
    ]
  ]
]

-- A line that read_input returns fits its buffer with a closing 0, and so does its first word, in
-- `command`. The strings of its request, if it is one, are not empty and have 1021 characters together
-- at most, which fit `key` and `value`.
pub read_input-Fits :
    (stdin line rest : List ℕ)
    → read_input stdin ≡ input_success line rest
    → (length line ≤ input_buffer_size)
      × Within input_buffer_size (scan_word (c_string line))
      × Fits 1021 (parse (c_string line))
unfolding IsRead parse
read_input-Fits stdin line rest e =
    let read = subst (IsRead stdin) e (read_input-IsRead stdin) in
    let shorter = c_string-length line in
    (
      read.0,
      scan_word-Within 1024 (c_string line) (omega arith),
      parse_words-Fits 1021 (scan_word (c_string line))
          (scan_word-Within 1024 (c_string line) (omega arith)),
    )
