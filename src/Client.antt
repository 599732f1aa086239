-- ===== src/Client.antt =====
-- driver/myjqlclient.h and driver/myjqlclient.cpp: the client of the server.
--
-- The socket is the sequence of the results of recv, of the results of send, and the messages sent,
-- as in Server. An exception is the result `thrown`. `code` keeps its old bytes where recv returns
-- fewer than four. A length that is negative, or whose successor overflows, is undefined behaviour
-- of malloc or of the write behind the buffer. The two variants of the constructor are `client`, on Linux,
-- and `client_windows`; the calls behind it are those of Linux.
pub mod Wire
pub mod Calls
pub mod Session
pub mod Lost
pub mod Sample
mod Tests
use simple_redis_database.Common.{
  ℕ, zero, suc, ◌+◌, ◌-◌, ◌%◌, ◌^◌, Bool, true, false, Option, none, some, List, [], ◌∷◌, ◌++◌, leb,
  ◌==◌, if◌then◌else◌, length, take,
}
use simple_redis_database.Server.{
  Recv, socket_error, received, Message, number, bytes, overlay, sizeof_int,
}

-- The texts of a system_error.
pub data Cause : Type 0 where
  send recv socket gethostbyname connect incomplete_response unknown_return_code : Cause
  wsa_startup getaddrinfo unable_to_connect : Cause

pub data Exception : Type 0 where
  system_error : (msg : Cause) → (error_code : ℕ) → Exception
  key_too_long value_too_long : Exception

-- `is_open` says that close was not called.
pub record Socket : Type 0 where
  pub recvs : List Recv
  pub faults : List Bool
  pub sent : List Message
  pub is_open : Bool

-- A call returns, throws, or waits for a result of recv.
pub data Result (A : Type 0) : Type 0 where
  ok : A → Socket → Result A
  thrown : Exception → Socket → Result A
  blocked : Socket → Result A
  undefined : Result A

abbrev pub Call : Type 0 → Type 0
Call A = Socket → Result A

abbrev pub and_then : {A B : Type 0} → Result A → (A → Call B) → Result B
and_then (ok a s) k = k a s
and_then (thrown e s) k = thrown e s
and_then (blocked s) k = blocked s
and_then undefined k = undefined

infixl 5 ◌>>=◌ ◌>>◌
abbrev pub ◌>>=◌ : {A B : Type 0} → Call A → (A → Call B) → Call B
(m >>= k) s = and_then (m s) k

abbrev pub ◌>>◌ : {A B : Type 0} → Call A → Call B → Call B
m >> k = m >>= λ _. k

abbrev throw : {A : Type 0} → Exception → Call A
throw e s = thrown e s

-- What WSAGetLastError returns.
abbrev last_error : ℕ
last_error = 0

unfoldable pub put : List Bool → Message → Call (Unit {0})
put (true ∷ faults) x s = thrown (system_error send last_error) (record s { faults = faults })
put (false ∷ faults) x s = ok tt (record s { faults = faults; sent = s.sent ++ x ∷ [] })
put [] x s = ok tt (record s { sent = s.sent ++ x ∷ [] })

unfoldable pub send_message : Message → Call (Unit {0})
send_message x s = put s.faults x s

unfoldable pub recv_from : ℕ → List Recv → Call (List ℕ)
recv_from n [] s = blocked s
recv_from n (socket_error ∷ rest) s =
    thrown (system_error recv last_error) (record s { recvs = rest })
recv_from n (received bs ∷ rest) s = ok (take n bs) (record s { recvs = rest })

-- recv into an `int` that holds `code`
unfoldable pub recv_int : ℕ → Call ℕ
recv_int code = (λ s. recv_from sizeof_int s.recvs s) >>= λ bs. ok (overlay bs code % 2 ^ 32)

-- The string in a buffer that ends with 0.
unfoldable pub c_string : List ℕ → List ℕ
c_string [] = []
c_string (c ∷ cs) = if c == 0 then [] else c ∷ c_string cs

-- The key or the value, after its length as an `int`; a negative one is no length of a buffer.
unfoldable pub send_string : List ℕ → Call (Unit {0})
send_string xs =
    let code = length xs % 2 ^ 32 in
    if leb (2 ^ 31) code
    then (send_message (number code) >> λ s. undefined)
    else (send_message (number code) >> send_message (bytes (take code xs)))

-- The value of an answer, with its length before it.
unfoldable pub recv_value : ℕ → Call (Option (List ℕ))
recv_value code = do
  code ← recv_int code
  if leb (2 ^ 31 - 1) code then (λ s. undefined) else (do
    buf ← λ s. recv_from code s.recvs s
    if length buf == code
        then ok (some (c_string buf))
        else throw (system_error incomplete_response 0))

unfoldable pub get : List ℕ → Call (Option (List ℕ))
get key = do
  send_message (number 0)
  send_string key
  code ← recv_int (length key % 2 ^ 32)
  if code == 0
      then ok none
      else if code == 1
      then recv_value code
      else if code == 2
      then throw key_too_long
      else throw (system_error unknown_return_code code)

unfoldable pub set : (key value : List ℕ) → Call (Unit {0})
set key value = do
  send_message (number 1)
  send_string key
  send_string value
  code ← recv_int (length value % 2 ^ 32)
  if code == 1
      then ok tt
      else if code == 2
      then throw key_too_long
      else if code == 3
      then throw value_too_long
      else throw (system_error unknown_return_code code)

unfoldable pub del : List ℕ → Call (Unit {0})
del key = do
  send_message (number 2)
  send_string key
  code ← recv_int (length key % 2 ^ 32)
  if code == 1
      then ok tt
      else if code == 2
      then throw key_too_long
      else throw (system_error unknown_return_code code)

-- The constructor: the results of socket, gethostbyname and connect.
unfoldable pub client :
    (fd : Option ℕ) → (host accepted : Bool) → Socket → Option Exception × Socket
client none host accepted s = (some (system_error socket 0), s)
client (some fd) false accepted s = (some (system_error gethostbyname 0), s)
client (some fd) true false s = (some (system_error connect 0), s)
client (some fd) true true s = (none, record s { is_open = true })

-- What socket and connect come to for one address.
pub data Attempt : Type 0 where
  no_socket not_connected connected : Attempt

-- The addresses one after the other, until one connects; `error` is what WSAGetLastError returns.
unfoldable connect_first : (error : ℕ) → List Attempt → Socket → Option Exception × Socket
connect_first error [] s = (some (system_error unable_to_connect 0), s)
connect_first error (no_socket ∷ attempts) s = (some (system_error socket error), s)
connect_first error (not_connected ∷ attempts) s = connect_first error attempts s
connect_first error (connected ∷ attempts) s = (none, record s { is_open = true })

-- The constructor on Windows: the results of WSAStartup and getaddrinfo, 0 for success, and the
-- addresses found.
unfoldable client_windows :
    (started found error : ℕ) → List Attempt → Socket → Option Exception × Socket
client_windows zero zero error attempts s = connect_first error attempts s
client_windows zero (suc found) error attempts s = (some (system_error getaddrinfo (suc found)), s)
client_windows (suc started) found error attempts s =
    (some (system_error wsa_startup (suc started)), s)

-- An exception of the destructor's calls only ends it early; `blocked` waits for the answer.
abbrev pub closed : Socket → Socket
closed s = record s { is_open = false }

unfoldable pub finish : {A : Type 0} → Result A → Result (Unit {0})
finish (ok a s) = ok tt (closed s)
finish (thrown e s) = ok tt (closed s)
finish (blocked s) = blocked s
finish undefined = undefined

-- The results of shutdown are those of the next send.
unfoldable pub shut : List Bool → Call (Unit {0})
shut [] s = ok tt s
shut (fault ∷ faults) s = ok tt (record s { faults = faults })

unfoldable pub destroy : Call (Unit {0})
destroy s = finish ((send_message (number 3) >> recv_int 3 >> λ s. shut s.faults s) s)
