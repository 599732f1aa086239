-- ===== src/Shell/Served.antt =====
-- The shell of main/myjqlshell.cpp, its client and the thread that serves it: from the lines typed to
-- the store and to the lines printed.
use simple_redis_database.Common.{
  append-append, ℕ, zero, suc, ◌≤◌, ◌<◌, ◌≡◌, refl, ap, ◌∙◌, true, List, [], ◌∷◌, ◌++◌, leb,
  if◌then◌else◌, length, All, arith,
}
use simple_redis_database.Server.{Message, Recv, Store, instance_thread, max_str_len}
use simple_redis_database.Server
use simple_redis_database.Server.Protocol.{Request, IsRequest, reply}
use simple_redis_database.Client.{Socket}
use simple_redis_database.Client.Wire.{deliver, messages, Bounded}
use simple_redis_database.Client.Calls.{outcome, perform_lem}
use simple_redis_database.Client.Session.{
  socket_of, all_messages, outcomes, answers, last_store, deliver-append, closed_socket,
  destroy_lem, thread_lem,
}
use simple_redis_database.Shell.{
  isspace, input_buffer_size, newline, Input, input_success, read_input, same, exit_text, get_text,
  set_text, del_text, Command, request, parse, Output, prompt, bye, show, State, Ending, returned,
  Round, next, ended, say, execute, leave, handle, step, shell,
}
use simple_redis_database.Shell
use simple_redis_database.Shell.Lines.{read_input-line}
use simple_redis_database.Shell.Words.{IsWord, line_of, letter, parse-line_of}
use simple_redis_database.Shell.Typed.{
  IsTyped, typed, printed, IsText, word-IsText, line_of-IsText, c_string-text, text-IsPlain,
  line_of-exit, typed-IsRequest,
}

line_read :
    (cs rest : List ℕ)
    → All IsText cs
    → length cs ≤ input_buffer_size
    → read_input (cs ++ newline ∷ rest) ≡ input_success cs rest
line_read cs rest p le =
    let fits : leb (length cs) input_buffer_size ≡ true = ground arith in
    (read_input-line cs rest (text-IsPlain cs p)).0
    ∙ ap (λ b. if b then input_success cs rest else Shell.input_too_long rest) fits

abbrev state_of : List ℕ → Socket → List Output → State
state_of stdin c out = record { stdin = stdin; socket = c; out = out }

exit_ink : IsWord exit_text
exit_ink = (
  letter 101 (omega arith) (omega arith),
  (
    letter 120 (omega arith) (omega arith),
    (letter 105 (omega arith) (omega arith), (letter 116 (omega arith) (omega arith), tt)),
  ),
)

step-exit :
    (rest : List ℕ) (recvs : List Recv) (sent : List Message) (out : List Output)
    → step (
        state_of
          (exit_text ++ newline ∷ rest)
          (socket_of (deliver (Message.number 1 ∷ []) recvs) sent)
          out)
      ≡ ended (
          returned (
            state_of rest
              (closed_socket recvs (sent ++ Message.number 3 ∷ []))
              ((out ++ prompt ∷ []) ++ bye ∷ [])))
unfolding step handle leave same
step-exit rest recvs sent out =
    let text = word-IsText exit_text exit_ink in
    rw
      (
        line_read exit_text rest text (omega arith),
        c_string-text exit_text text,
        destroy_lem recvs sent,
      )
      refl

shell-next : (fuel : ℕ) (s s' : State) → step s ≡ next s' → shell (suc fuel) s ≡ shell fuel s'
unfolding shell
shell-next fuel s s' e = rw (shell, e) refl

shell-ended : (fuel : ℕ) (s : State) (end : Ending) → step s ≡ ended end → shell (suc fuel) s ≡ end
unfolding shell
shell-ended fuel s end e = rw (shell, e) refl

All-requests : (rs : List Request) → All IsTyped rs → All IsRequest rs
All-requests [] valid = tt
All-requests (r ∷ rs) (typed, valid) = (typed-IsRequest r typed, All-requests rs valid)

module _ (store : Store) (bounded : Bounded store) where
  open store use {State}

  step-request :
      (r : Request) (s : store.State) (stdin : List ℕ) (recvs : List Recv) (sent : List Message)
      (out : List Output)
      → IsTyped r
      → step (
          state_of
            (line_of r ++ newline ∷ stdin)
            (socket_of (deliver (reply store r s).0 recvs) sent)
            out)
        ≡ next (
            state_of stdin
              (socket_of recvs (sent ++ messages r))
              ((out ++ prompt ∷ []) ++ show (outcome store r s) ∷ []))
  unfolding step handle execute say
  step-request r s stdin recvs sent out (words, le) =
      let text = line_of-IsText r words in
      rw
        (
          line_read (line_of r) stdin text le,
          c_string-text (line_of r) text,
          line_of-exit r,
          parse-line_of r words,
          perform_lem store r s recvs sent bounded (typed-IsRequest r (words, le)),
        )
        refl

  shell_lem :
      (rs : List Request) (s : store.State) (rest : List ℕ) (fuel : ℕ) (sent : List Message)
      (out : List Output)
      → All IsTyped rs
      → length rs < fuel
      → shell fuel (state_of (typed rs rest) (socket_of (deliver (answers store rs s) []) sent) out)
        ≡ returned (
            state_of rest
              (closed_socket [] (sent ++ all_messages rs))
              (out ++ printed (outcomes store rs s)))
  unfolding outcomes answers
  shell_lem [] s rest zero sent out valid lt = ground arith
  shell_lem (r ∷ rs) s rest zero sent out valid lt = ground arith
  shell_lem [] s rest (suc fuel) sent out valid lt =
      let last =
        shell-ended fuel
          (state_of (typed [] rest) (socket_of (deliver (answers store [] s) []) sent) out)
          (returned (
            state_of rest (closed_socket [] (sent ++ all_messages []))
              ((out ++ prompt ∷ []) ++ bye ∷ [])))
          (step-exit rest [] sent out) in
      rw (last, append-append out (prompt ∷ []) (bye ∷ [])) refl
  shell_lem (r ∷ rs) s rest (suc fuel) sent out valid lt =
      let after = reply store r s in
      let shown = show (outcome store r s) in
      let recvs = deliver (answers store rs after.1) [] in
      let out' = (out ++ prompt ∷ []) ++ shown ∷ [] in
      let first =
        shell-next fuel
          (state_of (typed (r ∷ rs) rest) (socket_of (deliver after.0 recvs) sent) out)
          (state_of (typed rs rest) (socket_of recvs (sent ++ messages r)) out')
          (step-request r s (typed rs rest) recvs sent out valid.0) in
      rw
        (
          deliver-append after.0 (answers store rs after.1) [],
          first,
          shell_lem rs after.1 rest fuel (sent ++ messages r) out' valid.1 (omega arith),
          append-append sent (messages r) (all_messages rs),
          append-append (out ++ prompt ∷ []) (shown ∷ []) (printed (outcomes store rs after.1)),
          append-append out (prompt ∷ []) (shown ∷ printed (outcomes store rs after.1)),
        )
        refl

  -- A user types requests whose strings are words, on lines that fit the buffer, and exit, into a shell
  -- whose connection fails nowhere and delivers every message whole, over a store whose values have
  -- max_str_len bytes at most, with fuel for the shell and the thread: what the shell sends makes the
  -- thread send what makes the shell send that. The shell returns from main with a closed socket, and
  -- has printed a prompt and the outcome for each request, a prompt and bye; the rest of stdin is left.
  -- The thread returns 0 with the store that the requests lead to.
  pub shell-served :
      (rs : List Request) (s : store.State) (rest : List ℕ) (junk : ℕ → ℕ) (fuel rounds code : ℕ)
      → All IsTyped rs
      → length rs < fuel
      → length rs < rounds
      → (to_server to_client : List Message) × (shell fuel (record {
        stdin = typed rs rest;
        socket = socket_of (deliver to_client []) [];
        out = [];
      })
          ≡ returned (record {
            stdin = rest;
            socket = closed_socket [] to_server;
            out = printed (outcomes store rs s);
          }))
        × (instance_thread store junk rounds code
              (record { recvs = deliver to_server []; faults = []; sent = []; store = s })
            ≡ Server.returned 0 (record {
              recvs = [];
              faults = [];
              sent = to_client;
              store = last_store store rs s;
            }))
  shell-served rs s rest junk fuel rounds code valid lt lt' = (
    all_messages rs,
    answers store rs s,
    shell_lem rs s rest fuel [] [] valid lt,
    thread_lem store bounded rs s junk rounds code (All-requests rs valid) lt',
  )
