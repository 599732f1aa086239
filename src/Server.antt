-- ===== src/Server.antt =====
-- main/myjqlserver.c: the thread that serves one client, on Linux.
--
-- The socket is the sequence of the results of recv, the results of send and the messages sent; the
-- store is what `Store` asks of src/myjql.c, each call being one critical section. An `int` is its
-- 32-bit pattern. `junk` is what malloc leaves in the bytes that recv did not fill. malloc succeeds
-- for a length that an `int` holds; one that is negative, or whose successor overflows, is undefined
-- behaviour. Diagnostics and `free` are left out.
pub mod Protocol
pub mod Loop
pub mod Closed
pub mod Threads
mod Tests
use simple_redis_database.Common.{
  ℕ, zero, suc, ◌+◌, ◌-◌, ◌*◌, ◌/◌, ◌%◌, ◌^◌, Bool, true, false, Option, none, some, List, [], ◌∷◌,
  ◌++◌, ltb, leb, ◌==◌, if◌then◌else◌, length, take,
}

-- The size of an `int`.
abbrev pub sizeof_int : ℕ
sizeof_int = 4

abbrev pub max_str_len : ℕ
max_str_len = 1024

-- What recv returns: SOCKET_ERROR, or the bytes read, none of them at the end of the stream.
pub data Recv : Type 0 where
  socket_error : Recv
  received : List ℕ → Recv

pub data Message : Type 0 where
  number : ℕ → Message
  bytes : List ℕ → Message

pub record Store : Type 1 where
  pub State : Type 0
  pub myjql_get : State → List ℕ → ℕ → Option (List ℕ) × State
  pub myjql_set : State → List ℕ → List ℕ → State
  pub myjql_del : State → List ℕ → State

-- `faults` says for the next sends, and the shutdown, whether they fail; those behind it succeed.
pub record Conn (S : Type 0) : Type 0 where
  pub recvs : List Recv
  pub faults : List Bool
  pub sent : List Message
  pub store : S

-- A call goes on with a value, has made the thread return, or waits for more input; `running` is a
-- loop out of fuel.
pub data Result (S A : Type 0) : Type 0 where
  ok : A → Conn S → Result S A
  returned : ℕ → Conn S → Result S A
  blocked running : Conn S → Result S A
  undefined : Result S A

unfoldable pub and_then : {S A B : Type 0} → Result S A → (A → Conn S → Result S B) → Result S B
and_then (ok a c) k = k a c
and_then (returned n c) k = returned n c
and_then (blocked c) k = blocked c
and_then (running c) k = running c
and_then undefined k = undefined

infixl 5 ◌>>=◌
unfoldable pub ◌>>=◌ :
    {S A B : Type 0} → (Conn S → Result S A) → (A → Conn S → Result S B) → Conn S → Result S B
unfolding and_then
(m >>= k) c = and_then (m c) k

-- The first bytes of an `int` are replaced.
unfoldable pub overlay : List ℕ → ℕ → ℕ
overlay [] code = code
overlay (b ∷ bs) code = b + 256 * overlay bs (code / 256)

module _ {S : Type 0} where
  unfoldable pub recv_from : ℕ → List Recv → Conn S → Result S (List ℕ)
  recv_from n [] c = blocked c
  recv_from n (socket_error ∷ rest) c = returned 1 (record c { recvs = rest })
  recv_from n (received bs ∷ rest) c = ok (take n bs) (record c { recvs = rest })

  unfoldable pub recv_int : ℕ → Conn S → Result S ℕ
  unfolding ◌>>=◌
  recv_int code = (λ c. recv_from sizeof_int c.recvs c) >>= λ bs. ok (overlay bs code % 2 ^ 32)

  unfoldable pub put_message : List Bool → Message → ℕ → Conn S → Result S ℕ
  put_message (true ∷ faults) x code c = returned 1 (record c { faults = faults })
  put_message (false ∷ faults) x code c =
      ok code (record c { faults = faults; sent = c.sent ++ x ∷ [] })
  put_message [] x code c = ok code (record c { sent = c.sent ++ x ∷ [] })

  -- The `code` that is sent is the one that the thread goes on with.
  unfoldable pub send_int : ℕ → Conn S → Result S ℕ
  send_int code c = put_message c.faults (number code) code c

  unfoldable pub send_bytes : List ℕ → ℕ → Conn S → Result S ℕ
  send_bytes bs code c = put_message c.faults (bytes bs) code c

  unfoldable pub shutdown : List Bool → Conn S → Result S ℕ
  shutdown (true ∷ faults) c = returned 1 (record c { faults = faults })
  shutdown (false ∷ faults) c = returned 0 (record c { faults = faults })
  shutdown [] c = returned 0 c

module _ (store : Store) (junk : ℕ → ℕ) where
  abbrev pub Served : Type 0 → Type 0
  Served A = Conn store.State → Result store.State A

  -- `n` bytes from place `i` on of a fresh buffer, after the bytes received.
  unfoldable pub buffer : ℕ → ℕ → List ℕ → List ℕ
  buffer i zero bs = []
  buffer i (suc n) [] = junk i ∷ buffer (i + 1) n []
  buffer i (suc n) (b ∷ bs) = b ∷ buffer (i + 1) n bs

  -- malloc, recv and the closing 0 of a string of `code` bytes
  unfoldable pub recv_string : ℕ → Served (List ℕ)
  unfolding ◌>>=◌
  recv_string code =
      if leb (2 ^ 31 - 1) code
      then (λ c. undefined)
      else ((λ c. recv_from code c.recvs c) >>= λ bs. ok (buffer 0 code bs))

  unfoldable pub answer : Option (List ℕ) → Served ℕ
  unfolding ◌>>=◌
  answer none = send_int 0
  answer (some value) = send_int 1 >>= λ _. send_int (length value) >>= send_bytes value

  -- The requests return the `code` that they leave.
  unfoldable pub get_key : ℕ → Served ℕ
  unfolding ◌>>=◌
  get_key code = recv_int code >>= λ code. recv_string code >>= λ key.
      if ltb max_str_len code then send_int 2 else (λ c.
        let (value, s) = store.myjql_get c.store key max_str_len in
        answer value (record c { store = s }))

  unfoldable pub set_key : ℕ → Served ℕ
  unfolding ◌>>=◌
  set_key code = recv_int code >>= λ key_len. recv_string key_len >>= λ key.
      recv_int key_len >>= λ value_len. recv_string value_len >>= λ value.
      if ltb max_str_len key_len
      then send_int 2
      else if ltb max_str_len value_len
      then send_int 3
      else (λ c. send_int 1 (record c { store = store.myjql_set c.store key value }))

  unfoldable pub del_key : ℕ → Served ℕ
  unfolding ◌>>=◌
  del_key code = recv_int code >>= λ code. recv_string code >>= λ key.
      if ltb max_str_len code
      then send_int 2
      else (λ c. send_int 1 (record c { store = store.myjql_del c.store key }))

  -- One round of the loop: the next `code`, or `none` for the `break`.
  unfoldable pub dispatch : ℕ → Served (Option ℕ)
  unfolding ◌>>=◌
  dispatch code =
      if code == 0
      then (get_key code >>= λ k. ok (some k))
      else if code == 1
      then (set_key code >>= λ k. ok (some k))
      else if code == 2
      then (del_key code >>= λ k. ok (some k))
      else if code == 3
      then (send_int 1 >>= λ k. ok none)
      else ok (some code)

  unfoldable pub instance_thread : ℕ → ℕ → Served ℕ
  unfolding ◌>>=◌
  instance_thread zero code = λ c. running c
  instance_thread (suc fuel) code = recv_int code >>= dispatch >>= λ next. elim next [
    | none ↦ λ c. shutdown c.faults c
    | some k ↦ instance_thread fuel k
  ]
