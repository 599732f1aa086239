-- ===== src/Server/Protocol.antt =====
-- The protocol that the comments of main/myjqlserver.c describe, and the thread of a client that
-- keeps to it.
use simple_redis_database.Common.{
  ℕ, zero, suc, ◌+◌, ◌-◌, ◌/◌, ◌%◌, ◌^◌, ◌<◌, ◌≡◌, refl, ap, inl, inr, false, Option, none, some,
  List, [], ◌∷◌, ◌++◌, ltb, leb, if◌then◌else◌, length, take, All, arith, Bool-cases,
}
use simple_redis_database.Server.{
  Recv, received, Message, number, bytes, Store, Conn, ok, returned, ◌>>=◌, overlay, recv_from,
  recv_int, put_message, send_int, send_bytes, shutdown, buffer, recv_string, answer, get_key,
  set_key, del_key, dispatch, instance_thread, max_str_len,
}

pub data Request : Type 0 where
  get : List ℕ → Request
  set_to : (key value : List ℕ) → Request
  del : List ℕ → Request

-- An `int` as the four bytes that are sent.
abbrev pub word : ℕ → List ℕ
word n = n % 256 ∷ n / 256 % 256 ∷ n / 65536 % 256 ∷ n / 16777216 % 256 ∷ []

-- A string with its length before it.
abbrev pub sized : List ℕ → List Recv → List Recv
sized xs rest = received (word (length xs)) ∷ received xs ∷ rest

unfoldable pub encode : Request → List Recv → List Recv
encode (get key) rest = received (word 0) ∷ sized key rest
encode (set_to key value) rest = received (word 1) ∷ sized key (sized value rest)
encode (del key) rest = received (word 2) ∷ sized key rest

unfoldable pub encode_all : List Request → List Recv → List Recv
unfolding encode
encode_all [] rest = received (word 3) ∷ rest
encode_all (r ∷ rs) rest = encode r (encode_all rs rest)

-- A length of a request is a positive `int` that can still be incremented.
abbrev pub Sized : List ℕ → Type 0
Sized xs = length xs < 2 ^ 31 - 1

unfoldable pub IsRequest : Request → Type 0
IsRequest (get key) = Sized key
IsRequest (set_to key value) = Sized key × Sized value
IsRequest (del key) = Sized key

abbrev pub found : Option (List ℕ) → List Message
found none = number 0 ∷ []
found (some value) = number 1 ∷ number (length value) ∷ bytes value ∷ []

pub overlay-word : (n code : ℕ) → n < 2 ^ 32 → overlay (word n) code % 2 ^ 32 ≡ n
unfolding overlay
overlay-word n code lt = omega arith

pub take-length : (xs : List ℕ) → take (length xs) xs ≡ xs
take-length [] = refl
take-length (x ∷ xs) = ap (λ ys. x ∷ ys) (take-length xs)

module _ (store : Store) where
  open store use {State, myjql_get, myjql_set, myjql_del}

  -- The answer to a request, and the store after it.
  unfoldable pub reply : Request → State → List Message × State
  reply (get key) s =
      if ltb max_str_len (length key)
      then (number 2 ∷ [], s)
      else (let (value, s') = myjql_get s key max_str_len in (found value, s'))
  reply (set_to key value) s =
      if ltb max_str_len (length key)
      then (number 2 ∷ [], s)
      else if ltb max_str_len (length value)
      then (number 3 ∷ [], s)
      else (number 1 ∷ [], myjql_set s key value)
  reply (del key) s =
      if ltb max_str_len (length key) then (number 2 ∷ [], s) else (number 1 ∷ [], myjql_del s key)

  unfoldable pub reply_all : List Request → List Message → State → List Message × State
  unfolding reply
  reply_all [] sent s = (sent ++ number 1 ∷ [], s)
  reply_all (r ∷ rs) sent s = let (xs, s') = reply r s in reply_all rs (sent ++ xs) s'

  module _ (junk : ℕ → ℕ) where
    abbrev conn : List Recv → List Message → State → Conn State
    conn recvs sent s = record { recvs = recvs; faults = []; sent = sent; store = s }

    buffer_lem : (i : ℕ) (xs : List ℕ) → buffer store junk i (length xs) xs ≡ xs
    unfolding buffer
    buffer_lem i [] = refl
    buffer_lem i (x ∷ xs) = ap (λ ys. x ∷ ys) (buffer_lem (i + 1) xs)

    recv_int_lem :
        (n code : ℕ) (rest : List Recv) (sent : List Message) (s : State)
        → n < 2 ^ 32
        → recv_int code (conn (received (word n) ∷ rest) sent s) ≡ ok n (conn rest sent s)
    unfolding recv_int recv_from ◌>>=◌
    recv_int_lem n code rest sent s lt = ap (λ k. ok k (conn rest sent s)) (overlay-word n code lt)

    recv_string_lem :
        (xs : List ℕ) (rest : List Recv) (sent : List Message) (s : State)
        → Sized xs
        → recv_string store junk (length xs) (conn (received xs ∷ rest) sent s)
          ≡ ok xs (conn rest sent s)
    unfolding recv_string recv_from ◌>>=◌
    recv_string_lem xs rest sent s lt =
        let small : leb (2 ^ 31 - 1) (length xs) ≡ false = ground arith in
        rw (small, take-length xs, buffer_lem 0 xs)

    -- The three sends of a value that was found.
    append-append :
        {A : Type 0} (xs : List A) (x : A) (ys : List A) → (xs ++ x ∷ []) ++ ys ≡ xs ++ x ∷ ys
    append-append [] x ys = refl
    append-append (z ∷ xs) x ys = ap (λ zs. z ∷ zs) (append-append xs x ys)

    answer_lem :
        (found_value : Option (List ℕ)) (rest : List Recv) (sent : List Message) (s : State)
        → (k : ℕ) × (answer store junk found_value (conn rest sent s)
            ≡ ok k (conn rest (sent ++ found found_value) s))
    unfolding answer send_int send_bytes put_message ◌>>=◌
    answer_lem none rest sent s = (0, refl)
    answer_lem (some value) rest sent s = (
      length value,
      rw
          (
            append-append (sent ++ number 1 ∷ []) (number (length value)) (bytes value ∷ []),
            append-append sent (number 1) (number (length value) ∷ bytes value ∷ []),
          )
          refl,
    )

    get_key_lem :
        (key : List ℕ) (code : ℕ) (rest : List Recv) (sent : List Message) (s : State)
        → Sized key
        → (k : ℕ) × (get_key store junk code (conn (sized key rest) sent s)
            ≡ ok k (conn rest (sent ++ (reply (get key) s).0) (reply (get key) s).1))
    unfolding get_key reply ◌>>=◌ send_int put_message
    get_key_lem key code rest sent s valid =
        let read_len = recv_int_lem (length key) code (received key ∷ rest) sent s (omega arith) in
        let read_key = recv_string_lem key rest sent s valid in
        elim (Bool-cases (ltb max_str_len (length key))) [
          | inl long ↦ (2, rw (read_len, read_key, long) refl)
          | inr short ↦
              let (value, s') = myjql_get s key max_str_len in
              let (k, e) = answer_lem value rest sent s' in (k, rw (read_len, read_key, short) e)
        ]

    set_key_lem :
        (key value : List ℕ) (code : ℕ) (rest : List Recv) (sent : List Message) (s : State)
        → Sized key
        → Sized value
        → (k : ℕ) × (set_key store junk code (conn (sized key (sized value rest)) sent s)
            ≡ ok k
                (conn rest (sent ++ (reply (set_to key value) s).0) (reply (set_to key value) s).1))
    unfolding set_key reply ◌>>=◌ send_int put_message
    set_key_lem key value code rest sent s valid small =
        let value_recvs = received (word (length value)) ∷ received value ∷ rest in
        let key_len =
          recv_int_lem (length key) code (received key ∷ value_recvs) sent s (omega arith) in
        let read_key = recv_string_lem key value_recvs sent s valid in
        let value_len =
          recv_int_lem (length value) (length key) (received value ∷ rest) sent s (omega arith) in
        let read_value = recv_string_lem value rest sent s small in
        elim (Bool-cases (ltb max_str_len (length key))) [
          | inl long ↦ (2, rw (key_len, read_key, value_len, read_value, long) refl)
          | inr short ↦ elim (Bool-cases (ltb max_str_len (length value))) [
            | inl long ↦ (3, rw (key_len, read_key, value_len, read_value, short, long) refl)
            | inr fits ↦ (1, rw (key_len, read_key, value_len, read_value, short, fits) refl)
          ]
        ]

    del_key_lem :
        (key : List ℕ) (code : ℕ) (rest : List Recv) (sent : List Message) (s : State)
        → Sized key
        → (k : ℕ) × (del_key store junk code (conn (sized key rest) sent s)
            ≡ ok k (conn rest (sent ++ (reply (del key) s).0) (reply (del key) s).1))
    unfolding del_key reply ◌>>=◌ send_int put_message
    del_key_lem key code rest sent s valid =
        let read_len = recv_int_lem (length key) code (received key ∷ rest) sent s (omega arith) in
        let read_key = recv_string_lem key rest sent s valid in
        elim (Bool-cases (ltb max_str_len (length key))) [
          | inl long ↦ (2, rw (read_len, read_key, long) refl)
          | inr short ↦ (1, rw (read_len, read_key, short) refl)
        ]

    -- A round of the loop on a request: the answer is sent, and the loop goes on.
    round_lem :
        (r : Request) (code : ℕ) (rest : List Recv) (sent : List Message) (s : State)
        → IsRequest r
        → (k : ℕ) × ((recv_int code >>= dispatch store junk) (conn (encode r rest) sent s)
            ≡ ok (some k) (conn rest (sent ++ (reply r s).0) (reply r s).1))
    unfolding encode IsRequest dispatch ◌>>=◌
    round_lem (get key) code rest sent s valid =
        let (k, e) = get_key_lem key 0 rest sent s valid in
        (k, rw (recv_int_lem 0 code (sized key rest) sent s (omega arith), e) refl)
    round_lem (set_to key value) code rest sent s valid =
        let (k, e) = set_key_lem key value 1 rest sent s valid.0 valid.1 in
        (k, rw (recv_int_lem 1 code (sized key (sized value rest)) sent s (omega arith), e) refl)
    round_lem (del key) code rest sent s valid =
        let (k, e) = del_key_lem key 2 rest sent s valid in
        (k, rw (recv_int_lem 2 code (sized key rest) sent s (omega arith), e) refl)

    -- A client that sends well-formed requests and then exits receives the answers of the protocol
    -- in their order, and the thread returns 0 with the store that the requests give, if no send
    -- fails and the fuel exceeds the number of requests.
    pub instance_thread-reply_all :
        (rs : List Request) (fuel code : ℕ) (rest : List Recv) (sent : List Message) (s : State)
        → All IsRequest rs
        → length rs < fuel
        → instance_thread store junk fuel code (conn (encode_all rs rest) sent s)
          ≡ returned 0 (conn rest (reply_all rs sent s).0 (reply_all rs sent s).1)
    unfolding instance_thread encode_all reply_all dispatch send_int put_message shutdown ◌>>=◌
    instance_thread-reply_all rs zero code rest sent s valid lt = absurd (omega arith)
    instance_thread-reply_all [] (suc fuel) code rest sent s valid lt =
        rw (recv_int_lem 3 code rest sent s (omega arith)) refl
    instance_thread-reply_all (r ∷ rs) (suc fuel) code rest sent s valid lt =
        let (k, e) = round_lem r code (encode_all rs rest) sent s valid.0 in
        let next =
          instance_thread-reply_all rs fuel k rest (sent ++ (reply r s).0) (reply r s).1 valid.1
            (omega arith) in
        rw (e) next
