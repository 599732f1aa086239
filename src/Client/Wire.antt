-- ===== src/Client/Wire.antt =====
-- The calls of driver/myjqlclient.cpp as the shell makes them, and what each part of a call sends and
-- receives on a connection that delivers every message whole.
use simple_redis_database.Common.{
  append-append, ℕ, ◌-◌, ◌%◌, ◌^◌, ◌≤◌, ◌<◌, ◌≡◌, refl, ap, ◌∙◌, true, false, Option, none, some,
  List, [], ◌∷◌, ◌++◌, leb, eq→==, length, arith,
}
use simple_redis_database.Server.{Recv, received, Message, number, bytes, Store}
use simple_redis_database.Server.Protocol.{Request, Sized, word, overlay-word, take-length}
use simple_redis_database.Client.{
  Socket, Result, ok, thrown, blocked, undefined, Call, Exception, key_too_long, value_too_long,
  ◌>>=◌, ◌>>◌, put, send_message, send_string, recv_from, recv_int, recv_value, c_string,
}
use simple_redis_database.Client

-- What a user of the client sees of a call.
pub data Outcome : Type 0 where
  value : Option (List ℕ) → Outcome
  done : Outcome
  raised : Exception → Outcome

-- try and catch around a call
unfoldable pub caught : Result Outcome → Result Outcome
caught (ok a s) = ok a s
caught (thrown e s) = ok (raised e) s
caught (blocked s) = blocked s
caught undefined = undefined

unfoldable pub perform : Request → Call Outcome
perform (Request.get key) s = caught ((Client.get key >>= λ v. ok (value v)) s)
perform (Request.set_to key xs) s = caught ((Client.set key xs >>= λ _. ok done) s)
perform (Request.del key) s = caught ((Client.del key >>= λ _. ok done) s)

-- Every message arrives whole, as one result of recv.
abbrev pub deliver : List Message → List Recv → List Recv
deliver [] rest = rest
deliver (number n ∷ ms) rest = received (word n) ∷ deliver ms rest
deliver (bytes bs ∷ ms) rest = received bs ∷ deliver ms rest

-- The messages of a request.
abbrev pub messages : Request → List Message
messages (Request.get key) = number 0 ∷ number (length key) ∷ bytes key ∷ []
messages (Request.set_to key xs) =
    number 1 ∷ number (length key) ∷ bytes key ∷ number (length xs) ∷ bytes xs ∷ []
messages (Request.del key) = number 2 ∷ number (length key) ∷ bytes key ∷ []

-- No value is longer than asked for.
abbrev pub Bounded : Store → Type 0
Bounded store =
    (s : store.State) (key : List ℕ) (n : ℕ) (v : List ℕ)
    → (store.myjql_get s key n).0 ≡ some v
    → length v ≤ n

abbrev pub c_value : Option (List ℕ) → Option (List ℕ)
c_value none = none
c_value (some v) = some (c_string v)

abbrev pub sock : List Recv → List Message → Socket
sock recvs sent = record { recvs = recvs; faults = []; sent = sent; is_open = true }

pub spread3 :
    {A : Type 0} (xs : List A) (a b c : A)
    → ((xs ++ a ∷ []) ++ b ∷ []) ++ c ∷ [] ≡ xs ++ a ∷ b ∷ c ∷ []
spread3 xs a b c =
    append-append (xs ++ a ∷ []) (b ∷ []) (c ∷ []) ∙ append-append xs (a ∷ []) (b ∷ c ∷ [])

pub spread5 :
    {A : Type 0} (xs : List A) (a b c d e : A)
    → ((((xs ++ a ∷ []) ++ b ∷ []) ++ c ∷ []) ++ d ∷ []) ++ e ∷ [] ≡ xs ++ a ∷ b ∷ c ∷ d ∷ e ∷ []
spread5 xs a b c d e =
    spread3 ((xs ++ a ∷ []) ++ b ∷ []) c d e
    ∙ append-append (xs ++ a ∷ []) (b ∷ []) (c ∷ d ∷ e ∷ [])
    ∙ append-append xs (a ∷ []) (b ∷ c ∷ d ∷ e ∷ [])

pub recv_int_lem :
    (n code : ℕ) (rest : List Recv) (sent : List Message)
    → n < 2 ^ 32
    → recv_int code (sock (received (word n) ∷ rest) sent) ≡ ok n (sock rest sent)
unfolding recv_int recv_from
recv_int_lem n code rest sent lt = ap (λ k. ok k (sock rest sent)) (overlay-word n code lt)

pub send_string_lem :
    (xs : List ℕ) (recvs : List Recv) (sent : List Message)
    → Sized xs
    → send_string xs (sock recvs sent)
      ≡ ok tt (sock recvs ((sent ++ number (length xs) ∷ []) ++ bytes xs ∷ []))
unfolding send_string send_message put
send_string_lem xs recvs sent small =
    let fits : length xs % 2 ^ 32 ≡ length xs = omega arith in
    let positive : leb (2 ^ 31) (length xs) ≡ false = ground arith in
    rw (fits, positive, take-length xs) refl

pub recv_value_lem :
    (v : List ℕ) (rest : List Recv) (sent : List Message)
    → Sized v
    → recv_value 1 (sock (received (word (length v)) ∷ received v ∷ rest) sent)
      ≡ ok (some (c_string v)) (sock rest sent)
unfolding recv_value recv_from
recv_value_lem v rest sent small =
    let len = recv_int_lem (length v) 1 (received v ∷ rest) sent (omega arith) in
    let positive : leb (2 ^ 31 - 1) (length v) ≡ false = ground arith in
    rw (len, positive, take-length v, eq→== (length v) (length v) refl) refl
