-- ===== src/Client/Calls.antt =====
-- What each call of driver/myjqlclient.cpp sends, and what it makes of the answer of the protocol.
use simple_redis_database.Common.{
  ℕ, ◌%◌, ◌^◌, ◌<◌, ◌≡◌, refl, inl, inr, Bool-cases, Option, none, some, List, [], ◌∷◌, ◌++◌, ltb,
  ◌==◌, if◌then◌else◌, length, arith,
}
use simple_redis_database.Server.{Recv, received, Message, number, bytes, Store, max_str_len}
use simple_redis_database.Server.Protocol.{Request, IsRequest, Sized, word, found, reply}
use simple_redis_database.Client.{
  Socket, Result, ok, thrown, blocked, undefined, Call, Exception, key_too_long, value_too_long,
  ◌>>=◌, ◌>>◌, put, send_message, send_string, recv_from, recv_int, recv_value, c_string,
}
use simple_redis_database.Client
use simple_redis_database.Client.Wire.{
  Outcome, value, done, raised, caught, perform, deliver, messages, Bounded, c_value, sock, spread3,
  spread5, recv_int_lem, send_string_lem, recv_value_lem,
}

module _ (store : Store) where
  open store use {State, myjql_get}

  -- What the protocol makes of a request.
  unfoldable pub outcome : Request → State → Outcome
  outcome (Request.get key) s =
      if ltb max_str_len (length key)
      then raised key_too_long
      else value (c_value (myjql_get s key max_str_len).0)
  outcome (Request.set_to key xs) s =
      if ltb max_str_len (length key)
      then raised key_too_long
      else if ltb max_str_len (length xs)
      then raised value_too_long
      else done
  outcome (Request.del key) s = if ltb max_str_len (length key) then raised key_too_long else done

  -- What a call has sent when it waits for the answer.
  abbrev sent_key : ℕ → List ℕ → List Message → List Message
  sent_key n key sent = ((sent ++ number n ∷ []) ++ number (length key) ∷ []) ++ bytes key ∷ []

  get_lem :
      (key : List ℕ) (rest : List Recv) (sent : List Message) (v : Option (List ℕ))
      → Sized key
      → ((xs : List ℕ) → v ≡ some xs → Sized xs)
      → Client.get key (sock (deliver (found v) rest) sent)
        ≡ ok (c_value v) (sock rest (sent_key 0 key sent))
  unfolding Client.get send_message put
  get_lem key rest sent none small fits =
      rw
        (
          send_string_lem key (deliver (found none) rest) (sent ++ number 0 ∷ []) small,
          recv_int_lem 0 (length key % 2 ^ 32) rest (sent_key 0 key sent) (omega arith),
        )
        refl
  get_lem key rest sent (some v) small fits =
      let after = received (word (length v)) ∷ received v ∷ rest in
      rw
        (
          send_string_lem key (deliver (found (some v)) rest) (sent ++ number 0 ∷ []) small,
          recv_int_lem 1 (length key % 2 ^ 32) after (sent_key 0 key sent) (omega arith),
          recv_value_lem v rest (sent_key 0 key sent) (fits v refl),
        )
        refl

  get_long :
      (key : List ℕ) (rest : List Recv) (sent : List Message)
      → Sized key
      → Client.get key (sock (deliver (number 2 ∷ []) rest) sent)
        ≡ thrown key_too_long (sock rest (sent_key 0 key sent))
  unfolding Client.get send_message put
  get_long key rest sent small =
      rw
        (
          send_string_lem key (received (word 2) ∷ rest) (sent ++ number 0 ∷ []) small,
          recv_int_lem 2 (length key % 2 ^ 32) rest (sent_key 0 key sent) (omega arith),
        )
        refl

  -- What set and del make of the code of an answer.
  abbrev status : ℕ → Socket → Result (Unit {0})
  status n s =
      if n == 1 then ok tt s else if n == 2 then thrown key_too_long s else thrown value_too_long s

  set_lem :
      (key xs : List ℕ) (n : ℕ) (rest : List Recv) (sent : List Message)
      → Sized key
      → Sized xs
      → 0 < n
      → n < 4
      → Client.set key xs (sock (deliver (number n ∷ []) rest) sent)
        ≡ status n (sock rest ((sent_key 1 key sent ++ number (length xs) ∷ []) ++ bytes xs ∷ []))
  unfolding Client.set send_message put
  set_lem key xs n rest sent small fits pos lt =
      let sent' = (sent_key 1 key sent ++ number (length xs) ∷ []) ++ bytes xs ∷ [] in
      rw
        (
          send_string_lem key (received (word n) ∷ rest) (sent ++ number 1 ∷ []) small,
          send_string_lem xs (received (word n) ∷ rest) (sent_key 1 key sent) fits,
          recv_int_lem n (length xs % 2 ^ 32) rest sent' (omega arith),
        )
        (ground arith)

  del_lem :
      (key : List ℕ) (n : ℕ) (rest : List Recv) (sent : List Message)
      → Sized key
      → 0 < n
      → n < 3
      → Client.del key (sock (deliver (number n ∷ []) rest) sent)
        ≡ status n (sock rest (sent_key 2 key sent))
  unfolding Client.del send_message put
  del_lem key n rest sent small pos lt =
      rw
        (
          send_string_lem key (received (word n) ∷ rest) (sent ++ number 2 ∷ []) small,
          recv_int_lem n (length key % 2 ^ 32) rest (sent_key 2 key sent) (omega arith),
        )
        (ground arith)

  -- A request whose lengths fit an `int`, when the answer of the protocol arrives, sends its messages
  -- and ends with what the protocol makes of the request.
  pub perform_lem :
      (r : Request) (s : State) (rest : List Recv) (sent : List Message)
      → Bounded store
      → IsRequest r
      → perform r (sock (deliver (reply store r s).0 rest) sent)
        ≡ ok (outcome r s) (sock rest (sent ++ messages r))
  unfolding perform outcome reply IsRequest caught
  perform_lem (Request.get key) s rest sent bounded small =
      let sends = spread3 sent (number 0) (number (length key)) (bytes key) in
      elim (Bool-cases (ltb max_str_len (length key))) [
        | inl long ↦ rw (long, get_long key rest sent small, sends) refl
        | inr short ↦
            let v = (myjql_get s key max_str_len).0 in
            let fits : (xs : List ℕ) → v ≡ some xs → Sized xs =
              λ xs e. (let le = bounded s key max_str_len xs e in omega arith) in
            rw (short, get_lem key rest sent v small fits, sends) refl
      ]
  perform_lem (Request.set_to key xs) s rest sent bounded (small, fits) =
      let sends =
        spread5 sent (number 1) (number (length key)) (bytes key) (number (length xs)) (bytes xs) in
      elim (Bool-cases (ltb max_str_len (length key))) [
        | inl long ↦
            rw (long, set_lem key xs 2 rest sent small fits (omega arith) (omega arith), sends) refl
        | inr short ↦ elim (Bool-cases (ltb max_str_len (length xs))) [
          | inl long ↦
              rw
                (
                  short,
                  long,
                  set_lem key xs 3 rest sent small fits (omega arith) (omega arith),
                  sends,
                )
                refl
          | inr brief ↦
              rw
                (
                  short,
                  brief,
                  set_lem key xs 1 rest sent small fits (omega arith) (omega arith),
                  sends,
                )
                refl
        ]
      ]
  perform_lem (Request.del key) s rest sent bounded small =
      let sends = spread3 sent (number 2) (number (length key)) (bytes key) in
      elim (Bool-cases (ltb max_str_len (length key))) [
        | inl long ↦
            rw (long, del_lem key 2 rest sent small (omega arith) (omega arith), sends) refl
        | inr short ↦
            rw (short, del_lem key 1 rest sent small (omega arith) (omega arith), sends) refl
      ]
