-- ===== src/Shell.antt =====
-- main/myjqlshell.cpp: the shell, which makes a request of the server for each line of its input.
--
-- stdin is the sequence of its bytes, with EOF behind them for good; a `char` is its 8-bit pattern, so
-- that EOF in a `char` is 255. exit does not run the destructor of `client`, and the return from main
-- does. sscanf is modelled for the formats used, in the "C" locale. What is printed is a sequence of
-- outputs.
pub mod Lines
pub mod Words
pub mod Bounds
pub mod Buffers
pub mod Typed
pub mod Served
mod Tests
use simple_redis_database.Common.{
  ℕ, zero, suc, ◌+◌, ◌-◌, Bool, true, false, not, ◌&&◌, ◌||◌, Option, none, some, List, [], ◌∷◌,
  ◌++◌, leb, ◌==◌, if◌then◌else◌, length, take,
}
use simple_redis_database.Server.Protocol.{Request}
use simple_redis_database.Client.{
  Socket, Exception, Result, ok, thrown, blocked, undefined, c_string, destroy,
}
use simple_redis_database.Client.Wire.{Outcome, value, done, raised, perform}

abbrev pub input_buffer_size : ℕ
input_buffer_size = 1024

-- '\n'
abbrev pub newline : ℕ
newline = 10

-- EOF as a `char`
abbrev pub eof : ℕ
eof = 255

-- INPUT_SUCCESS with the line, INPUT_TOO_LONG, the exit at the end of the input, and the loop that
-- waits for a new-line which does not come; with what is left of stdin.
pub data Input : Type 0 where
  input_success : (line rest : List ℕ) → Input
  input_too_long : (rest : List ℕ) → Input
  end_of_input endless : Input

-- The characters stored from place `length` on, and what is left of stdin.
unfoldable pub read_chars : (length : ℕ) → (stdin : List ℕ) → List ℕ × List ℕ
read_chars length [] = if leb length input_buffer_size then (eof ∷ [], []) else ([], [])
read_chars length (c ∷ stdin) =
    let (chars, rest) = read_chars (length + 1) stdin in
    if leb length input_buffer_size
    then (if c == newline || c == eof then (c ∷ [], stdin) else (c ∷ chars, rest))
    else ([], c ∷ stdin)

-- Everything up to the next new-line.
unfoldable pub discard : List ℕ → Input
discard [] = endless
discard (c ∷ stdin) =
    let rest = discard stdin in if c == newline then input_too_long stdin else rest

unfoldable pub last : List ℕ → ℕ
last [] = 0
last (c ∷ []) = c
last (c ∷ d ∷ cs) = last (d ∷ cs)

unfoldable pub read_input : List ℕ → Input
read_input stdin =
    let (chars, rest) = read_chars 0 stdin in
    let size = length chars - 1 in
    if last chars == eof
    then end_of_input
    else if size == input_buffer_size && not (last chars == newline)
    then discard rest
    else input_success (take size chars) rest

unfoldable pub isspace : ℕ → Bool
isspace c = c == 32 || leb 9 c && leb c 13

unfoldable pub skip_space : List ℕ → List ℕ
skip_space [] = []
skip_space (c ∷ cs) = let rest = skip_space cs in if isspace c then rest else c ∷ cs

-- The characters before the next space, and those from it on.
unfoldable pub split_word : List ℕ → List ℕ × List ℕ
split_word [] = ([], [])
split_word (c ∷ cs) =
    let (word, rest) = split_word cs in if isspace c then ([], c ∷ cs) else (c ∷ word, rest)

abbrev pub non_empty : List ℕ × List ℕ → Option (List ℕ × List ℕ)
non_empty ([], rest) = none
non_empty (c ∷ word, rest) = some (c ∷ word, rest)

-- The conversion %s.
unfoldable pub scan_word : List ℕ → Option (List ℕ × List ℕ)
scan_word cs = non_empty (split_word (skip_space cs))

-- strcmp of two strings is 0.
unfoldable pub same : List ℕ → List ℕ → Bool
same [] [] = true
same [] (d ∷ ds) = false
same (c ∷ cs) [] = false
same (c ∷ cs) (d ∷ ds) = c == d && same cs ds

-- "exit", "get", "set" and "del"
abbrev pub exit_text : List ℕ
exit_text = 101 ∷ 120 ∷ 105 ∷ 116 ∷ []

abbrev pub get_text : List ℕ
get_text = 103 ∷ 101 ∷ 116 ∷ []

abbrev pub set_text : List ℕ
set_text = 115 ∷ 101 ∷ 116 ∷ []

abbrev pub del_text : List ℕ
del_text = 100 ∷ 101 ∷ 108 ∷ []

pub data Command : Type 0 where
  request : Request → Command
  invalid_input invalid_command : Command

-- The formats "%*s %s" and "%*s %s %s", behind the first word.
abbrev pub one_word : (List ℕ → Request) → Option (List ℕ × List ℕ) → Command
one_word k none = invalid_input
one_word k (some (key, rest)) = request (k key)

unfoldable pub two_words : Option (List ℕ × List ℕ) → Command
two_words none = invalid_input
two_words (some (key, rest)) = one_word (λ value. Request.set_to key value) (scan_word rest)

-- The command, and what is behind it.
unfoldable pub parse_words : Option (List ℕ × List ℕ) → Command
parse_words none = invalid_input
parse_words (some (command, rest)) =
    if same command get_text
    then one_word Request.get (scan_word rest)
    else if same command set_text
    then two_words (scan_word rest)
    else if same command del_text
    then one_word Request.del (scan_word rest)
    else invalid_command

unfoldable pub parse : List ℕ → Command
parse text = parse_words (scan_word text)

pub data Output : Type 0 where
  prompt too_long bye invalid_input_text invalid_command_text not_found ok_text : Output
  value_text : List ℕ → Output
  error : Exception → Output

unfoldable pub show : Outcome → Output
show (value (some v)) = value_text v
show (value none) = not_found
show done = ok_text
show (raised e) = error e

pub record State : Type 0 where
  pub stdin : List ℕ
  pub socket : Socket
  pub out : List Output

-- The exit at the end of the input, the return from main, a loop that never ends, a call that waits
-- for the server, undefined behaviour, and no fuel.
pub data Ending : Type 0 where
  exit_success returned hangs waiting running : State → Ending
  undefined_behaviour : Ending

pub data Round : Type 0 where
  next : State → Round
  ended : Ending → Round

abbrev pub print : Output → State → State
print x s = record s { out = s.out ++ x ∷ [] }

-- What is printed of a call in a try block, with its catch clause.
unfoldable pub say : Result Outcome → State → Round
say (ok x c) s = next (print (show x) (record s { socket = c }))
say (thrown e c) s = next (print (error e) (record s { socket = c }))
say (blocked c) s = ended (waiting (record s { socket = c }))
say undefined s = ended undefined_behaviour

unfoldable pub execute : Command → State → Round
execute (request r) s = say (perform r s.socket) s
execute invalid_input s = next (print invalid_input_text s)
execute invalid_command s = next (print invalid_command_text s)

-- The return from main, with the destructor of `client`.
unfoldable pub leave : Result (Unit {0}) → State → Ending
leave (ok u c) s = returned (record s { socket = c })
leave (thrown e c) s = returned (record s { socket = c })
leave (blocked c) s = waiting (record s { socket = c })
leave undefined s = undefined_behaviour

-- The part of a round behind read_input.
unfoldable pub handle : Input → State → Round
handle end_of_input s = ended (exit_success s)
handle endless s = ended (hangs s)
handle (input_too_long rest) s = next (print too_long (record s { stdin = rest }))
handle (input_success line rest) s =
    let s' = record s { stdin = rest } in
    if same (c_string line) exit_text
    then ended (leave (destroy s.socket) (print bye s'))
    else execute (parse (c_string line)) s'

-- One round of the loop of main.
unfoldable pub step : State → Round
step s = handle (read_input s.stdin) (print prompt s)

unfoldable pub shell : ℕ → State → Ending
shell zero s = running s
shell (suc fuel) s = elim (step s) [ next s' ↦ shell fuel s' | ended e ↦ e ]
