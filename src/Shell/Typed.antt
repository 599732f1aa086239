-- ===== src/Shell/Typed.antt =====
-- The lines that a user types into the shell of main/myjqlshell.cpp for requests of words.
use simple_redis_database.Common.{
  ℕ, ◌≤◌, ◌<◌, ◌≡◌, ◌≢◌, refl, false, List, [], ◌∷◌, ◌++◌, ne→==, length, All, arith, length-append,
}
use simple_redis_database.Server.Protocol.{Request, IsRequest}
use simple_redis_database.Client.{c_string}
use simple_redis_database.Client.Wire.{Outcome}
use simple_redis_database.Shell.{
  isspace, input_buffer_size, newline, same, exit_text, get_text, set_text, del_text, Output,
  prompt, bye, show,
}
use simple_redis_database.Shell.Lines.{IsPlain}
use simple_redis_database.Shell.Words.{
  space, IsInk, IsWord, InWords, line_of, get_ink, set_ink, del_ink,
}

-- The strings of the request are words, and its line fits the buffer.
abbrev pub IsTyped : Request → Type 0
IsTyped r = InWords r × (length (line_of r) ≤ input_buffer_size)

-- What the user types for the requests, and to leave the shell.
abbrev pub typed : List Request → List ℕ → List ℕ
typed [] rest = exit_text ++ newline ∷ rest
typed (r ∷ rs) rest = line_of r ++ newline ∷ typed rs rest

-- What the shell prints for the outcomes.
abbrev pub printed : List Outcome → List Output
printed [] = prompt ∷ bye ∷ []
printed (x ∷ xs) = prompt ∷ show x ∷ printed xs

-- Neither the end of a line nor the end of a string.
abbrev pub IsText : ℕ → Type 0
IsText c = IsPlain c × (c ≢ 0)

ink-IsText : (c : ℕ) → IsInk c → IsText c
unfolding isspace
ink-IsText c (no_space, no_end, no_eof) = ((λ e. ground arith, no_eof), no_end)

IsText-letter : (c : ℕ) → 32 ≤ c → c < 255 → IsText c
IsText-letter c le lt = ((omega arith, omega arith), omega arith)

All-append : (xs ys : List ℕ) → All IsText xs → All IsText ys → All IsText (xs ++ ys)
All-append [] ys p q = q
All-append (x ∷ xs) ys (p, ps) q = (p, All-append xs ys ps q)

inks-IsText : (w : List ℕ) → All IsInk w → All IsText w
inks-IsText [] p = tt
inks-IsText (c ∷ w) (p, ps) = (ink-IsText c p, inks-IsText w ps)

pub word-IsText : (w : List ℕ) → IsWord w → All IsText w
word-IsText [] p = tt
word-IsText (c ∷ w) p = inks-IsText (c ∷ w) p

command-IsText : (w cs : List ℕ) → IsWord w → All IsText cs → All IsText (w ++ space ∷ cs)
command-IsText w cs p q =
    All-append w (space ∷ cs) (word-IsText w p) (IsText-letter space (omega arith) (omega arith), q)

pub line_of-IsText : (r : Request) → InWords r → All IsText (line_of r)
unfolding line_of
line_of-IsText (Request.get key) p = command-IsText get_text key get_ink (word-IsText key p)
line_of-IsText (Request.set_to key value) (p, q) =
    command-IsText set_text (key ++ space ∷ value) set_ink (
      All-append key (space ∷ value) (word-IsText key p)
        (IsText-letter space (omega arith) (omega arith), word-IsText value q))
line_of-IsText (Request.del key) p = command-IsText del_text key del_ink (word-IsText key p)

pub c_string-text : (cs : List ℕ) → All IsText cs → c_string cs ≡ cs
unfolding c_string
c_string-text [] p = refl
c_string-text (c ∷ cs) (p, ps) = rw (ne→== c 0 p.1, c_string-text cs ps) refl

pub text-IsPlain : (cs : List ℕ) → All IsText cs → All IsPlain cs
text-IsPlain [] p = tt
text-IsPlain (c ∷ cs) (p, ps) = (p.0, text-IsPlain cs ps)

pub line_of-exit : (r : Request) → same (line_of r) exit_text ≡ false
unfolding line_of same
line_of-exit (Request.get key) = refl
line_of-exit (Request.set_to key value) = refl
line_of-exit (Request.del key) = refl

pub typed-IsRequest : (r : Request) → IsTyped r → IsRequest r
unfolding IsRequest line_of
typed-IsRequest (Request.get key) (p, le) = omega arith
typed-IsRequest (Request.set_to key value) (p, le) =
    let len = length-append key (space ∷ value) in (omega arith, omega arith)
typed-IsRequest (Request.del key) (p, le) = omega arith
