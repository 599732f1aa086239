-- ===== src/Shell/Tests.antt =====
-- The shell of main/myjqlshell.cpp at concrete inputs.
use simple_redis_database.Common.{
  ℕ, ◌+◌, ◌≤◌, ◌≡◌, refl, none, List, [], ◌∷◌, ◌++◌, All, length, leb, drop, if◌then◌else◌, arith,
}
use simple_redis_database.Server.{Message, number, bytes, Recv, received, instance_thread}
use simple_redis_database.Server
use simple_redis_database.Server.Protocol.{Request, reply}
use simple_redis_database.Client.{c_string}
use simple_redis_database.Client.Sample.{cell, cell-Bounded}
use simple_redis_database.Client.Wire.{deliver}
use simple_redis_database.Client.Calls.{outcome}
use simple_redis_database.Client.Session.{socket_of, closed_socket, outcomes, last_store}
use simple_redis_database.Shell.{
  input_buffer_size, newline, eof, Input, input_success, input_too_long, end_of_input, endless,
  read_input, read_chars, discard, scan_word, parse, request, invalid_input, invalid_command,
  Output, prompt, bye, ok_text, value_text, not_found, invalid_input_text, invalid_command_text,
  show, State, exit_success, returned, shell,
}
use simple_redis_database.Shell
use simple_redis_database.Shell.Lines.{IsPlain, read_input-line}
use simple_redis_database.Shell.Words.{IsWord, letter, line_of, parse-line_of}
use simple_redis_database.Shell.Bounds.{Ended, shell-Ended}
use simple_redis_database.Shell.Buffers.{Within, Fits, read_input-Fits}
use simple_redis_database.Shell.Typed.{IsTyped, typed, printed}
use simple_redis_database.Shell.Served.{shell-served}

-- "k" and "v"
abbrev k : List ℕ
k = 107 ∷ []

abbrev v : List ℕ
v = 118 ∷ []

abbrev requests : List Request
requests = Request.get k ∷ Request.set_to k v ∷ Request.get k ∷ Request.del k ∷ []

k-IsWord : IsWord k
k-IsWord = (letter 107 (omega arith) (omega arith), tt)

v-IsWord : IsWord v
v-IsWord = (letter 118 (omega arith) (omega arith), tt)

requests-IsTyped : All IsTyped requests
unfolding line_of
requests-IsTyped = (
  (k-IsWord, omega arith),
  (((k-IsWord, v-IsWord), omega arith), ((k-IsWord, omega arith), ((k-IsWord, omega arith), tt))),
)

abbrev junk : ℕ → ℕ
junk i = 7

-- What is printed.
requests-printed :
    printed (outcomes cell requests none)
    ≡ prompt
      ∷ not_found
      ∷ prompt
      ∷ ok_text
      ∷ prompt
      ∷ value_text v
      ∷ prompt
      ∷ ok_text
      ∷ prompt
      ∷ bye
      ∷ []
unfolding outcomes outcome reply c_string show
requests-printed = refl

shell-served_example :
    (to_server to_client : List Message) × (shell 5 (record {
      stdin = typed requests [];
      socket = socket_of (deliver to_client []) [];
      out = [];
    })
      ≡ returned (record {
        stdin = [];
        socket = closed_socket [] to_server;
        out = printed (outcomes cell requests none);
      }))
    × (instance_thread cell junk 5 99
          (record { recvs = deliver to_server []; faults = []; sent = []; store = none })
        ≡ Server.returned 0 (record {
          recvs = [];
          faults = [];
          sent = to_client;
          store = last_store cell requests none;
        }))
shell-served_example =
    shell-served cell cell-Bounded requests none [] junk 5 5 99 requests-IsTyped (omega arith)
      (omega arith)

-- A blank line, an unknown command, and the end of stdin.
abbrev untidy : State
untidy = record { stdin = 32 ∷ 10 ∷ 120 ∷ 10 ∷ []; socket = socket_of [] []; out = [] }

untidy_run :
    shell 5 untidy
    ≡ exit_success (record untidy {
      stdin = [];
      out = prompt ∷ invalid_input_text ∷ prompt ∷ invalid_command_text ∷ prompt ∷ [];
    })
unfolding shell Shell.step Shell.handle read_input Shell.last read_chars Shell.same c_string
    Shell.execute parse Shell.parse_words scan_word Shell.split_word Shell.skip_space Shell.isspace
untidy_run = refl

shell-Ended_example : Ended (shell 5 untidy)
shell-Ended_example = shell-Ended 5 untidy (omega arith)

v-IsPlain : All IsPlain v
v-IsPlain = ((omega arith, omega arith), tt)

read_input-line_example :
    (read_input (v ++ newline ∷ k)
      ≡ (if leb (length v) input_buffer_size then input_success v k else input_too_long k))
    × (read_input v ≡ (if leb (length v) input_buffer_size then end_of_input else endless))
    × (read_input (v ++ eof ∷ k) ≡ (
        if leb (length v) input_buffer_size
        then end_of_input
        else discard (drop (input_buffer_size + 1) v ++ eof ∷ k)))
read_input-line_example = read_input-line v k v-IsPlain

parse-line_of_example : parse (line_of (Request.set_to k v)) ≡ request (Request.set_to k v)
parse-line_of_example = parse-line_of (Request.set_to k v) (k-IsWord, v-IsWord)

line_is_read :
    read_input (line_of (Request.set_to k v) ++ newline ∷ [])
    ≡ input_success (line_of (Request.set_to k v)) []
unfolding read_input Shell.last read_chars line_of
line_is_read = refl

read_input-Fits_example :
    (length (line_of (Request.set_to k v)) ≤ input_buffer_size)
    × Within input_buffer_size (scan_word (c_string (line_of (Request.set_to k v))))
    × Fits 1021 (parse (c_string (line_of (Request.set_to k v))))
read_input-Fits_example =
    read_input-Fits (line_of (Request.set_to k v) ++ newline ∷ []) (line_of (Request.set_to k v)) []
      line_is_read
