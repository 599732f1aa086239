-- ===== src/Shell/Words.antt =====
-- sscanf and the choice of the command in main of main/myjqlshell.cpp.
use simple_redis_database.Common.{
  append-nil, ℕ, ◌≤◌, ◌<◌, ◌≡◌, ◌≢◌, refl, subst, false, some, List, [], ◌∷◌, ◌++◌, All, arith,
}
use simple_redis_database.Server.Protocol.{Request}
use simple_redis_database.Shell.{
  isspace, skip_space, split_word, non_empty, scan_word, same, get_text, set_text, del_text,
  request, two_words, parse_words, parse,
}

abbrev pub space : ℕ
space = 32

-- A character of a word of a line: no white space, no 0 and no EOF.
abbrev pub IsInk : ℕ → Type 0
IsInk c = (isspace c ≡ false) × (c ≢ 0) × (c ≢ 255)

abbrev pub IsWord : List ℕ → Type 0
IsWord [] = ⊥
IsWord (c ∷ cs) = All IsInk (c ∷ cs)

-- The line that asks for a request.
unfoldable pub line_of : Request → List ℕ
line_of (Request.get key) = get_text ++ space ∷ key
line_of (Request.set_to key value) = set_text ++ space ∷ key ++ space ∷ value
line_of (Request.del key) = del_text ++ space ∷ key

-- The strings of a request are words.
abbrev pub InWords : Request → Type 0
InWords (Request.get key) = IsWord key
InWords (Request.set_to key value) = IsWord key × IsWord value
InWords (Request.del key) = IsWord key

split_word-space :
    (w rest : List ℕ) → All IsInk w → split_word (w ++ space ∷ rest) ≡ (w, space ∷ rest)
unfolding split_word isspace
split_word-space [] rest p = refl
split_word-space (c ∷ w) rest (p, ps) = rw (split_word-space w rest ps, p.0) refl

split_word-end : (w : List ℕ) → All IsInk w → split_word w ≡ (w, [])
unfolding split_word
split_word-end [] p = refl
split_word-end (c ∷ w) (p, ps) = rw (split_word-end w ps, p.0) refl

skip_space-blank : (cs : List ℕ) → skip_space (space ∷ cs) ≡ skip_space cs
unfolding skip_space isspace
skip_space-blank cs = refl

skip_space-word : (w rest : List ℕ) → IsWord w → skip_space (w ++ rest) ≡ w ++ rest
unfolding skip_space
skip_space-word [] rest p = absurd p
skip_space-word (c ∷ w) rest (p, ps) = rw p.0 refl

non_empty-word : (w rest : List ℕ) → IsWord w → non_empty (w, rest) ≡ some (w, rest)
non_empty-word [] rest p = absurd p
non_empty-word (c ∷ w) rest p = refl

ink : (w : List ℕ) → IsWord w → All IsInk w
ink [] p = tt
ink (c ∷ w) p = p

-- The next word, before a space and at the end.
scan_word-space :
    (w rest : List ℕ) → IsWord w → scan_word (w ++ space ∷ rest) ≡ some (w, space ∷ rest)
unfolding scan_word
scan_word-space w rest p =
    rw (skip_space-word w (space ∷ rest) p, split_word-space w rest (ink w p))
      (non_empty-word w (space ∷ rest) p)

scan_word-end : (w : List ℕ) → IsWord w → scan_word w ≡ some (w, [])
unfolding scan_word
scan_word-end w p =
    let skip : skip_space w ≡ w =
      subst (λ l. skip_space l ≡ l) (append-nil w) (skip_space-word w [] p) in
    rw (skip, split_word-end w (ink w p)) (non_empty-word w [] p)

scan_word-blank : (cs : List ℕ) → scan_word (space ∷ cs) ≡ scan_word cs
unfolding scan_word
scan_word-blank cs = rw (skip_space-blank cs) refl

pub letter : (c : ℕ) → 33 ≤ c → c < 255 → IsInk c
unfolding isspace
letter c le lt = (ground arith, omega arith, omega arith)

pub get_ink : IsWord get_text
get_ink = (
  letter 103 (omega arith) (omega arith),
  (letter 101 (omega arith) (omega arith), (letter 116 (omega arith) (omega arith), tt)),
)

pub set_ink : IsWord set_text
set_ink = (
  letter 115 (omega arith) (omega arith),
  (letter 101 (omega arith) (omega arith), (letter 116 (omega arith) (omega arith), tt)),
)

pub del_ink : IsWord del_text
del_ink = (
  letter 100 (omega arith) (omega arith),
  (letter 101 (omega arith) (omega arith), (letter 108 (omega arith) (omega arith), tt)),
)

-- A line that asks for a request whose strings are words is read as that request.
pub parse-line_of : (r : Request) → InWords r → parse (line_of r) ≡ request r
unfolding parse parse_words two_words line_of same
parse-line_of (Request.get key) p =
    rw (scan_word-space get_text key get_ink, scan_word-blank key, scan_word-end key p) refl
parse-line_of (Request.set_to key value) (p, q) =
    rw
      (
        scan_word-space set_text (key ++ space ∷ value) set_ink,
        scan_word-blank (key ++ space ∷ value),
        scan_word-space key value p,
      )
      (rw (scan_word-blank value, scan_word-end value q) refl)
parse-line_of (Request.del key) p =
    rw (scan_word-space del_text key del_ink, scan_word-blank key, scan_word-end key p) refl
