-- ===== src/Client/Session.antt =====
-- A client of driver/myjqlclient.cpp and the thread of main/myjqlserver.c that serves it: the
-- messages that one sends are those that the other receives.
use simple_redis_database.Common.{
  append-append, ℕ, ◌<◌, ◌≡◌, refl, true, false, ap, ◌∙◌, List, [], ◌∷◌, ◌++◌, All, length, arith,
}
use simple_redis_database.Server.{
  Recv, received, Message, number, bytes, Store, returned, instance_thread,
}
use simple_redis_database.Server.Protocol.{
  Request, IsRequest, word, reply, reply_all, encode, encode_all, instance_thread-reply_all,
}
use simple_redis_database.Client.{
  Socket, ok, Call, ◌>>=◌, ◌>>◌, put, send_message, shut, finish, destroy,
}
use simple_redis_database.Client.Wire.{Outcome, perform, deliver, messages, Bounded, recv_int_lem}
use simple_redis_database.Client.Calls.{outcome, perform_lem}

-- A client makes the requests one after the other, and is destroyed.
unfoldable pub session : List Request → Call (List Outcome)
session [] = destroy >> ok []
session (r ∷ rs) = perform r >>= λ x. session rs >>= λ xs. ok (x ∷ xs)

abbrev pub all_messages : List Request → List Message
all_messages [] = number 3 ∷ []
all_messages (r ∷ rs) = messages r ++ all_messages rs

module _ (store : Store) where
  open store use {State}

  -- What the requests come to, one after the other.
  unfoldable pub outcomes : List Request → State → List Outcome
  outcomes [] s = []
  outcomes (r ∷ rs) s = outcome store r s ∷ outcomes rs (reply store r s).1

  -- The answers, and the store behind them.
  unfoldable pub answers : List Request → State → List Message
  answers [] s = number 1 ∷ []
  answers (r ∷ rs) s = (reply store r s).0 ++ answers rs (reply store r s).1

  unfoldable pub last_store : List Request → State → State
  last_store [] s = s
  last_store (r ∷ rs) s = last_store rs (reply store r s).1

  reply_all_lem :
      (rs : List Request) (sent : List Message) (s : State)
      → reply_all store rs sent s ≡ (sent ++ answers rs s, last_store rs s)
  unfolding reply_all answers last_store
  reply_all_lem [] sent s = refl
  reply_all_lem (r ∷ rs) sent s =
      let step = reply store r s in
      reply_all_lem rs (sent ++ step.0) step.1
      ∙ ap (λ l. (l, last_store rs step.1)) (append-append sent step.0 (answers rs step.1))

pub deliver-append :
    (xs ys : List Message) (rest : List Recv)
    → deliver (xs ++ ys) rest ≡ deliver xs (deliver ys rest)
deliver-append [] ys rest = refl
deliver-append (number n ∷ xs) ys rest = ap (λ l. received (word n) ∷ l) (deliver-append xs ys rest)
deliver-append (bytes bs ∷ xs) ys rest = ap (λ l. received bs ∷ l) (deliver-append xs ys rest)

deliver-messages : (r : Request) (rest : List Recv) → deliver (messages r) rest ≡ encode r rest
unfolding encode
deliver-messages (Request.get key) rest = refl
deliver-messages (Request.set_to key value) rest = refl
deliver-messages (Request.del key) rest = refl

deliver-all_messages : (rs : List Request) → deliver (all_messages rs) [] ≡ encode_all rs []
unfolding encode_all
deliver-all_messages [] = refl
deliver-all_messages (r ∷ rs) =
    deliver-append (messages r) (all_messages rs) []
    ∙ ap (λ l. deliver (messages r) l) (deliver-all_messages rs)
    ∙ deliver-messages r (encode_all rs [])

-- A socket with nothing to come.
abbrev pub socket_of : List Recv → List Message → Socket
socket_of recvs sent = record { recvs = recvs; faults = []; sent = sent; is_open = true }

-- The socket of a destroyed client.
abbrev pub closed_socket : List Recv → List Message → Socket
closed_socket recvs sent = record { recvs = recvs; faults = []; sent = sent; is_open = false }

pub destroy_lem :
    (rest : List Recv) (sent : List Message)
    → destroy (socket_of (received (word 1) ∷ rest) sent)
      ≡ ok tt (closed_socket rest (sent ++ number 3 ∷ []))
unfolding destroy shut finish send_message put
destroy_lem rest sent = rw (recv_int_lem 1 3 rest (sent ++ number 3 ∷ []) (omega arith)) refl

module _ (store : Store) (bounded : Bounded store) where
  open store use {State}

  session_lem :
      (rs : List Request) (s : State) (sent : List Message)
      → All IsRequest rs
      → session rs (socket_of (deliver (answers store rs s) []) sent)
        ≡ ok (outcomes store rs s) (closed_socket [] (sent ++ all_messages rs))
  unfolding session outcomes answers
  session_lem [] s sent valid = rw (destroy_lem [] sent) refl
  session_lem (r ∷ rs) s sent valid =
      let step = reply store r s in
      let first =
        perform_lem store r s (deliver (answers store rs step.1) []) sent bounded valid.0 in
      rw
        (
          deliver-append step.0 (answers store rs step.1) [],
          first,
          session_lem rs step.1 (sent ++ messages r) valid.1,
          append-append sent (messages r) (all_messages rs),
        )
        refl

  -- What the thread makes of the messages of the requests.
  pub thread_lem :
      (rs : List Request) (s : State) (junk : ℕ → ℕ) (fuel code : ℕ)
      → All IsRequest rs
      → length rs < fuel
      → instance_thread store junk fuel code
          (record { recvs = deliver (all_messages rs) []; faults = []; sent = []; store = s })
        ≡ returned 0 (record {
          recvs = [];
          faults = [];
          sent = answers store rs s;
          store = last_store store rs s;
        })
  thread_lem rs s junk fuel code valid lt =
      ap
        (λ l.
          instance_thread store junk fuel code
            (record { recvs = l; faults = []; sent = []; store = s }))
        (deliver-all_messages rs)
      ∙ instance_thread-reply_all store junk rs fuel code [] [] s valid lt
      ∙ ap
          (λ (p : List Message × State).
            returned 0 (record { recvs = []; faults = []; sent = p.0; store = p.1 }))
          (reply_all_lem store rs [] s)

  -- Well-formed requests of one client, on a connection that fails nowhere and delivers every message
  -- whole, over a store whose values have max_str_len bytes at most, and with fuel for the thread:
  -- what the client sends makes the thread send what makes the client send that. The client ends with
  -- the outcomes of the requests one after the other and a closed socket, and the thread returns 0
  -- with the store that they lead to.
  pub session-served :
      (rs : List Request) (s : State) (junk : ℕ → ℕ) (fuel code : ℕ)
      → All IsRequest rs
      → length rs < fuel
      → (to_server to_client : List Message) × (session rs (socket_of (deliver to_client []) [])
          ≡ ok (outcomes store rs s) (closed_socket [] to_server))
        × (instance_thread store junk fuel code
              (record { recvs = deliver to_server []; faults = []; sent = []; store = s })
            ≡ returned 0 (record {
              recvs = [];
              faults = [];
              sent = to_client;
              store = last_store store rs s;
            }))
  session-served rs s junk fuel code valid lt = (
    all_messages rs,
    answers store rs s,
    session_lem rs s [] valid,
    thread_lem rs s junk fuel code valid lt,
  )
