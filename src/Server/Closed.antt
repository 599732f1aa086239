-- ===== src/Server/Closed.antt =====
-- The thread of main/myjqlserver.c whose client has closed the socket without the exit request.
use simple_redis_database.Common.{ℕ, zero, suc, List, [], ◌∷◌}
use simple_redis_database.Server.{Recv, received, Message, number, Store, Conn}

-- The results of recv on such a socket, five of them in each of `n` rounds.
unfoldable pub closed_rounds : ℕ → List Recv → List Recv
closed_rounds zero rest = rest
closed_rounds (suc n) rest =
    received [] ∷ received [] ∷ received [] ∷ received [] ∷ received [] ∷ closed_rounds n rest

unfoldable pub confirmations : ℕ → List Message
confirmations zero = []
confirmations (suc n) = number 1 ∷ confirmations n

module _ (store : Store) (junk : ℕ → ℕ) where
  open store use {State, myjql_set}

  -- `n` times a key of the one byte that malloc left there, with such a value.
  unfoldable pub junk_sets : ℕ → State → State
  junk_sets zero s = s
  junk_sets (suc n) s = junk_sets n (myjql_set s (junk 0 ∷ []) (junk 0 ∷ []))

  abbrev pub conn : List Recv → List Message → State → Conn State
  conn recvs sent s = record { recvs = recvs; faults = []; sent = sent; store = s }
