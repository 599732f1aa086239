-- ===== src/Server/Loop.antt =====
-- The thread of main/myjqlserver.c for an arbitrary client: what reaches the store, and that every
-- round reads from the socket.
use simple_redis_database.Common.{
  ℕ, zero, suc, ◌+◌, ◌-◌, ◌%◌, ◌^◌, ◌≤◌, ◌<◌, ◌≡◌, refl, ap, inl, inr, Bool, true, false, Option,
  none, some, List, [], ◌∷◌, ltb, leb, ◌==◌, length, arith, Bool-cases,
}
use simple_redis_database.Server.{
  Recv, socket_error, received, Message, number, bytes, Store, Conn, Result, ok, returned, blocked,
  running, undefined, and_then, ◌>>=◌, overlay, recv_from, recv_int, put_message, send_int,
  send_bytes, shutdown, buffer, recv_string, answer, get_key, set_key, del_key, dispatch,
  instance_thread, max_str_len, sizeof_int,
}

-- A property of the store that every operation keeps on keys and values of max_str_len bytes at
-- most.
pub record Kept (store : Store) (P : store.State → Type 0) : Type 0 where
  pub get :
      (s : store.State) (key : List ℕ)
      → length key ≤ max_str_len
      → P s
      → P (store.myjql_get s key max_str_len).1
  pub set :
      (s : store.State) (key value : List ℕ)
      → length key ≤ max_str_len
      → length value ≤ max_str_len
      → P s
      → P (store.myjql_set s key value)
  pub del :
      (s : store.State) (key : List ℕ) → length key ≤ max_str_len → P s → P (store.myjql_del s key)

-- The call ends with fuel left, and `E` holds of the connection then.
unfoldable pub Ends :
    {S A : Type 0} → (A → Conn S → Type 0) → (Conn S → Type 0) → Result S A → Type 0
Ends Q E (ok a c) = Q a c
Ends Q E (returned n c) = E c
Ends Q E (blocked c) = E c
Ends Q E (running c) = ⊥
Ends Q E undefined = Unit

module _ {S : Type 0} (P : S → Type 0) where
  -- The property holds, and fewer than `n` results of recv are left.
  abbrev pub Left : ℕ → Conn S → Type 0
  Left n c = P c.store × (length c.recvs < n)

  abbrev pub Held : Conn S → Type 0
  Held c = P c.store

  Ends-and_then :
      {A B : Type 0} (Q : A → Conn S → Type 0) (R : B → Conn S → Type 0) (r : Result S A)
      (k : A → Conn S → Result S B)
      → Ends Q Held r
      → ((a : A) (c : Conn S) → Q a c → Ends R Held (k a c))
      → Ends R Held (and_then r k)
  unfolding Ends and_then
  Ends-and_then Q R (ok a c) k e next = next a c e
  Ends-and_then Q R (returned n c) k e next = e
  Ends-and_then Q R (blocked c) k e next = e
  Ends-and_then Q R (running c) k e next = e
  Ends-and_then Q R undefined k e next = e

  recv_from-Ends :
      (n m : ℕ) (recvs : List Recv) (c : Conn S)
      → P c.store
      → length recvs < suc m
      → Ends (λ _. Left m) Held (recv_from n recvs c)
  unfolding Ends recv_from
  recv_from-Ends n m [] c p le = p
  recv_from-Ends n m (socket_error ∷ rest) c p le = p
  recv_from-Ends n m (received bs ∷ rest) c p le = (p, omega arith)

  put_message-Ends :
      (m : ℕ) (faults : List Bool) (x : Message) (code : ℕ) (c : Conn S)
      → Left m c
      → Ends (λ _. Left m) Held (put_message faults x code c)
  unfolding Ends put_message
  put_message-Ends m [] x code c l = l
  put_message-Ends m (true ∷ faults) x code c l = l.0
  put_message-Ends m (false ∷ faults) x code c l = l

  send_int-Ends : (m code : ℕ) (c : Conn S) → Left m c → Ends (λ _. Left m) Held (send_int code c)
  unfolding send_int
  send_int-Ends m code c l = put_message-Ends m c.faults (number code) code c l

  shutdown-Ends :
      (Q : ℕ → Conn S → Type 0) (faults : List Bool) (c : Conn S)
      → P c.store
      → Ends Q Held (shutdown faults c)
  unfolding Ends shutdown
  shutdown-Ends Q [] c p = p
  shutdown-Ends Q (true ∷ faults) c p = p
  shutdown-Ends Q (false ∷ faults) c p = p

  recv_int-Ends :
      (n m code : ℕ) (c : Conn S) → n ≤ suc m → Left n c → Ends (λ _. Left m) Held (recv_int code c)
  unfolding recv_int ◌>>=◌ Ends
  recv_int-Ends n m code c le l =
      Ends-and_then (λ _. Left m) (λ _. Left m) (recv_from sizeof_int c.recvs c)
        (λ bs. ok (overlay bs code % 2 ^ 32))
        (recv_from-Ends sizeof_int m c.recvs c l.0 (omega arith)) (λ bs d l'. l')

module _ (store : Store) (junk : ℕ → ℕ) (P : store.State → Type 0) where
  length-buffer : (i n : ℕ) (bs : List ℕ) → length (buffer store junk i n bs) ≡ n
  unfolding buffer
  length-buffer i zero bs = refl
  length-buffer i (suc n) [] = ap suc (length-buffer (i + 1) n [])
  length-buffer i (suc n) (b ∷ bs) = ap suc (length-buffer (i + 1) n bs)

  abbrev String : ℕ → ℕ → List ℕ → Conn store.State → Type 0
  String m n xs c = (length xs ≡ n) × Left P m c

  recv_string-Ends :
      (m code : ℕ) (c : Conn store.State)
      → Left P m c
      → Ends (String m code) (Held P) (recv_string store junk code c)
  unfolding recv_string ◌>>=◌ Ends
  recv_string-Ends m code c l = elim (Bool-cases (leb (2 ^ 31 - 1) code)) [
    | inl big ↦ rw (big) tt
    | inr small ↦ rw (small) (
        Ends-and_then P (λ _. Left P m) (String m code) (recv_from code c.recvs c)
          (λ bs. ok (buffer store junk 0 code bs))
          (recv_from-Ends P code m c.recvs c l.0 (omega arith))
          (λ bs d l'. (length-buffer 0 code bs, l')))
  ]

  answer-Ends :
      (m : ℕ) (value : Option (List ℕ)) (c : Conn store.State)
      → Left P m c
      → Ends (λ _. Left P m) (Held P) (answer store junk value c)
  unfolding answer ◌>>=◌ send_bytes
  answer-Ends m none c l = send_int-Ends P m 0 c l
  answer-Ends m (some value) c l =
      Ends-and_then P (λ _. Left P m) (λ _. Left P m) (send_int 1 c) _ (send_int-Ends P m 1 c l)
        λ _ d l'.
          Ends-and_then P (λ _. Left P m) (λ _. Left P m) (send_int (length value) d)
            (send_bytes value) (send_int-Ends P m (length value) d l')
            λ code e. put_message-Ends P m e.faults (bytes value) code e

  module _ (kept : Kept store P) where
    get_key-Ends :
        (m code : ℕ) (c : Conn store.State)
        → Left P m c
        → Ends (λ _. Left P m) (Held P) (get_key store junk code c)
    unfolding get_key ◌>>=◌
    get_key-Ends m code c l =
        Ends-and_then P (λ _. Left P m) (λ _. Left P m) (recv_int code c) _
          (recv_int-Ends P m m code c (omega arith) l)
          λ n d l1.
            Ends-and_then P (String m n) (λ _. Left P m) (recv_string store junk n d) _
              (recv_string-Ends m n d l1)
              λ key e (len, l2). elim (Bool-cases (ltb max_str_len n)) [
                | inl long ↦ rw (long) (send_int-Ends P m 2 e l2)
                | inr short ↦ rw (short) (
                    answer-Ends m (store.myjql_get e.store key max_str_len).0
                      (record e { store = (store.myjql_get e.store key max_str_len).1 })
                      (kept.get e.store key (ground arith) l2.0, l2.1))
              ]

    set_key-Ends :
        (m code : ℕ) (c : Conn store.State)
        → Left P m c
        → Ends (λ _. Left P m) (Held P) (set_key store junk code c)
    unfolding set_key ◌>>=◌
    set_key-Ends m code c l =
        Ends-and_then P (λ _. Left P m) (λ _. Left P m) (recv_int code c) _
          (recv_int-Ends P m m code c (omega arith) l)
          λ n d l1.
            Ends-and_then P (String m n) (λ _. Left P m) (recv_string store junk n d) _
              (recv_string-Ends m n d l1)
              λ key e (key_len, l2).
                Ends-and_then P (λ _. Left P m) (λ _. Left P m) (recv_int n e) _
                  (recv_int-Ends P m m n e (omega arith) l2)
                  λ k f l3.
                    Ends-and_then P (String m k) (λ _. Left P m) (recv_string store junk k f) _
                      (recv_string-Ends m k f l3)
                      λ value g (value_len, l4). elim (Bool-cases (ltb max_str_len n)) [
                        | inl long ↦ rw (long) (send_int-Ends P m 2 g l4)
                        | inr short ↦ elim (Bool-cases (ltb max_str_len k)) [
                          | inl long ↦ rw (short, long) (send_int-Ends P m 3 g l4)
                          | inr fits ↦
                              rw (short, fits)
                                (send_int-Ends P m 1
                                  (record g { store = store.myjql_set g.store key value })
                                  (
                                    kept.set g.store key value (ground arith) (ground arith) l4.0,
                                    l4.1,
                                  ))
                        ]
                      ]

    del_key-Ends :
        (m code : ℕ) (c : Conn store.State)
        → Left P m c
        → Ends (λ _. Left P m) (Held P) (del_key store junk code c)
    unfolding del_key ◌>>=◌
    del_key-Ends m code c l =
        Ends-and_then P (λ _. Left P m) (λ _. Left P m) (recv_int code c) _
          (recv_int-Ends P m m code c (omega arith) l)
          λ n d l1.
            Ends-and_then P (String m n) (λ _. Left P m) (recv_string store junk n d) _
              (recv_string-Ends m n d l1)
              λ key e (len, l2). elim (Bool-cases (ltb max_str_len n)) [
                | inl long ↦ rw (long) (send_int-Ends P m 2 e l2)
                | inr short ↦ rw (short) (
                    send_int-Ends P m 1 (record e { store = store.myjql_del e.store key })
                      (kept.del e.store key (ground arith) l2.0, l2.1))
              ]

    dispatch-Ends :
        (m code : ℕ) (c : Conn store.State)
        → Left P m c
        → Ends (λ _. Left P m) (Held P) (dispatch store junk code c)
    unfolding dispatch ◌>>=◌ Ends
    dispatch-Ends m code c l = elim (Bool-cases (code == 0)) [
      | inl is ↦ rw (is) (
          Ends-and_then P (λ _. Left P m) (λ _. Left P m) (get_key store junk code c)
            (λ k. ok (some k)) (get_key-Ends m code c l) (λ k d l'. l'))
      | inr no0 ↦ elim (Bool-cases (code == 1)) [
        | inl is ↦
            rw (no0, is)
              (Ends-and_then P (λ _. Left P m) (λ _. Left P m) (set_key store junk code c)
                (λ k. ok (some k)) (set_key-Ends m code c l) (λ k d l'. l'))
        | inr no1 ↦ elim (Bool-cases (code == 2)) [
          | inl is ↦
              rw (no0, no1, is)
                (Ends-and_then P (λ _. Left P m) (λ _. Left P m) (del_key store junk code c)
                  (λ k. ok (some k)) (del_key-Ends m code c l) (λ k d l'. l'))
          | inr no2 ↦ elim (Bool-cases (code == 3)) [
            | inl is ↦
                rw (no0, no1, no2, is)
                  (Ends-and_then P (λ _. Left P m) (λ _. Left P m) (send_int 1 c) (λ k. ok none)
                    (send_int-Ends P m 1 c l) (λ k d l'. l'))
            | inr no3 ↦ rw (no0, no1, no2, no3) l
          ]
        ]
      ]
    ]

    -- Whatever the client sends and whichever sends fail, with more fuel than there are results of
    -- recv the thread returns or waits for input (or has undefined behaviour), and a property of
    -- the store that every operation keeps on keys and values of at most max_str_len bytes still
    -- holds of it.
    pub instance_thread-Ends :
        (fuel code : ℕ) (c : Conn store.State)
        → length c.recvs < fuel
        → P c.store
        → Ends (λ _ _. ⊥) (λ d. P d.store) (instance_thread store junk fuel code c)
    unfolding instance_thread ◌>>=◌
    instance_thread-Ends zero code c lt p = absurd (omega arith)
    instance_thread-Ends (suc m) code c lt p =
        Ends-and_then P (λ _. Left P m) (λ _ _. ⊥) ((recv_int code >>= dispatch store junk) c) _
          (Ends-and_then P (λ _. Left P m) (λ _. Left P m) (recv_int code c) (dispatch store junk)
            (recv_int-Ends P (suc m) m code c (omega arith) (p, lt)) (dispatch-Ends m))
          λ next d l.
            elim next
              as (λ x.
                Ends (λ _ _. ⊥) (Held P)
                  ((elim x as (λ _. Conn store.State → Result store.State ℕ) [
                    | none ↦ λ d'. shutdown d'.faults d'
                    | some k ↦ instance_thread store junk m k
                  ])
                    d)) [
                      | none ↦ shutdown-Ends P (λ _ _. ⊥) d.faults d l.0
                      | some k ↦ instance_thread-Ends m k d l.1 l.0
                    ]
