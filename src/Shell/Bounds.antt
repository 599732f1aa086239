-- ===== src/Shell/Bounds.antt =====
-- main/myjqlshell.cpp: what is read fits its buffers, and every round reads from stdin.
use simple_redis_database.Common.{
  ℕ, zero, suc, ◌+◌, ◌-◌, ◌≤◌, ◌<◌, inl, inr, not, ◌&&◌, ◌||◌, Bool-cases, List, [], ◌∷◌, leb, ◌==◌,
  length, arith, length-take,
}
use simple_redis_database.Client.{Result, ok, thrown, blocked, undefined, c_string, destroy}
use simple_redis_database.Client.Wire.{Outcome, perform}
use simple_redis_database.Shell.{
  input_buffer_size, newline, eof, Input, input_success, input_too_long, end_of_input, endless,
  read_chars, discard, last, read_input, same, exit_text, Command, request, invalid_input,
  invalid_command, parse, Round, next, ended, State, Ending, exit_success, returned, hangs, waiting,
  running, undefined_behaviour, say, execute, leave, handle, step, shell, print, prompt, bye,
}

-- The characters stored from place `n` on do not pass the end of the buffer of 1025, and no more is
-- left of stdin.
read_chars_bounds :
    (n : ℕ) (stdin : List ℕ)
    → n ≤ input_buffer_size + 1
    → (n + length (read_chars n stdin).0 ≤ input_buffer_size + 1)
      × (length (read_chars n stdin).1 ≤ length stdin)
unfolding read_chars
read_chars_bounds n [] le = elim (Bool-cases (leb n input_buffer_size)) [
  | inl fits ↦ rw fits (ground arith, omega arith)
  | inr full ↦ rw full (omega arith, omega arith)
]
read_chars_bounds n (c ∷ stdin) le = elim (Bool-cases (leb n input_buffer_size)) [
  | inl fits ↦
      let le' : n ≤ input_buffer_size = ground arith in
      let rest = read_chars_bounds (n + 1) stdin (omega arith) in
      elim (Bool-cases (c == newline || c == eof)) [
        | inl stop ↦ rw (fits, stop) (omega arith, omega arith)
        | inr more ↦ rw (fits, more) (omega arith, omega arith)
      ]
  | inr full ↦ rw full (omega arith, omega arith)
]

-- Something is read.
read_chars-less :
    (c : ℕ) (stdin : List ℕ) → length (read_chars 0 (c ∷ stdin)).1 < suc (length stdin)
unfolding read_chars
read_chars-less c stdin =
    let rest = (read_chars_bounds 1 stdin (omega arith)).1 in
    elim (Bool-cases (c == newline || c == eof)) [
      | inl stop ↦ rw stop (omega arith)
      | inr more ↦ rw more (omega arith)
    ]

-- The result of read_input: a line fits the buffer, and stdin has become shorter.
unfoldable pub IsRead : List ℕ → Input → Type 0
IsRead stdin (input_success line rest) =
    (length line ≤ input_buffer_size) × (length rest < length stdin)
IsRead stdin (input_too_long rest) = length rest < length stdin
IsRead stdin end_of_input = Unit
IsRead stdin endless = Unit

discard-IsRead : (stdin cs : List ℕ) → length cs < length stdin → IsRead stdin (discard cs)
unfolding IsRead discard
discard-IsRead stdin [] lt = tt
discard-IsRead stdin (c ∷ cs) lt = elim (Bool-cases (c == newline)) [
  | inl stop ↦ rw stop (omega arith)
  | inr more ↦ rw more (discard-IsRead stdin cs (omega arith))
]

read_input-empty : IsRead [] (read_input [])
unfolding IsRead read_input read_chars last
read_input-empty = tt

pub read_input-IsRead : (stdin : List ℕ) → IsRead stdin (read_input stdin)
unfolding IsRead read_input
read_input-IsRead [] = read_input-empty
read_input-IsRead (c ∷ stdin) =
    let chars = (read_chars 0 (c ∷ stdin)).0 in
    let rest = (read_chars 0 (c ∷ stdin)).1 in
    let le = (read_chars_bounds 0 (c ∷ stdin) (omega arith)).0 in
    let lt = read_chars-less c stdin in
    elim (Bool-cases (last chars == eof)) [
      | inl end ↦ rw end tt
      | inr more ↦
          elim (Bool-cases (length chars - 1 == input_buffer_size && not (last chars == newline))) [
            | inl long ↦ rw (more, long) (discard-IsRead (c ∷ stdin) rest lt)
            | inr short ↦
                rw (more, short)
                  ((let size = length-take (length chars - 1) chars in omega arith), lt)
          ]
    ]

-- The ending is not the one of a shell without fuel.
unfoldable pub Ended : Ending → Type 0
Ended (running s) = ⊥
Ended (exit_success s) = Unit
Ended (returned s) = Unit
Ended (hangs s) = Unit
Ended (waiting s) = Unit
Ended undefined_behaviour = Unit

-- The round ended the shell, or fewer than `n` characters are left of stdin.
unfoldable Less : ℕ → Round → Type 0
Less n (next s) = length s.stdin < n
Less n (ended e) = Ended e

say-Less : (n : ℕ) (r : Result Outcome) (s : State) → length s.stdin < n → Less n (say r s)
unfolding Less Ended say
say-Less n (ok x c) s lt = lt
say-Less n (thrown e c) s lt = lt
say-Less n (blocked c) s lt = tt
say-Less n undefined s lt = tt

execute-Less : (n : ℕ) (c : Command) (s : State) → length s.stdin < n → Less n (execute c s)
unfolding Less execute
execute-Less n (request r) s lt = say-Less n (perform r s.socket) s lt
execute-Less n invalid_input s lt = lt
execute-Less n invalid_command s lt = lt

leave-Ended : (r : Result (Unit {0})) (s : State) → Ended (leave r s)
unfolding Ended leave
leave-Ended (ok u c) s = tt
leave-Ended (thrown e c) s = tt
leave-Ended (blocked c) s = tt
leave-Ended undefined s = tt

handle-Less :
    (n : ℕ) (i : Input) (s : State) → length s.stdin ≤ n → IsRead s.stdin i → Less n (handle i s)
unfolding Less IsRead handle Ended
handle-Less n (input_success line rest) s bound (le, lt) =
    elim (Bool-cases (same (c_string line) exit_text)) [
      | inl exit ↦ rw exit (leave-Ended (destroy s.socket) (print bye (record s { stdin = rest })))
      | inr more ↦
          rw more (execute-Less n (parse (c_string line)) (record s { stdin = rest }) (omega arith))
    ]
handle-Less n (input_too_long rest) s bound lt = omega arith
handle-Less n end_of_input s bound lt = tt
handle-Less n endless s bound lt = tt

step-Less : (n : ℕ) (s : State) → length s.stdin ≤ n → Less n (step s)
unfolding step
step-Less n s le =
    handle-Less n (read_input s.stdin) (print prompt s) le (read_input-IsRead s.stdin)

step-Ended :
    (fuel : ℕ) (r : Round)
    → ((s : State) → length s.stdin < fuel → Ended (shell fuel s))
    → Less fuel r
    → Ended (elim r [ next s ↦ shell fuel s | ended e ↦ e ])
unfolding Less
step-Ended fuel (next s) ends lt = ends s lt
step-Ended fuel (ended e) ends lt = lt

-- With more fuel than stdin has characters, the shell does not run out of it, whatever the lines, the
-- answers of the server and the failures of the socket are: each round that goes on has read from stdin.
pub shell-Ended : (fuel : ℕ) (s : State) → length s.stdin < fuel → Ended (shell fuel s)
unfolding shell
shell-Ended zero s lt = ground arith
shell-Ended (suc fuel) s lt =
    step-Ended fuel (step s) (shell-Ended fuel) (step-Less fuel s (omega arith))
