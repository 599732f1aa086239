-- ===== src/Server/Tests.antt =====
-- The thread of main/myjqlserver.c at concrete inputs, over a store that is the list of its updates.
use simple_redis_database.Common.{
  ℕ, ◌≡◌, refl, Option, none, some, Bool, true, false, ◌&&◌, List, [], ◌∷◌, ◌==◌, if◌then◌else◌,
  All, length, ◌≤◌, arith,
}
use simple_redis_database.Server.{
  Store, Conn, number, bytes, socket_error, received, returned, instance_thread, max_str_len,
}
use simple_redis_database.Server.Protocol.{
  Request, get, set_to, del, word, encode_all, IsRequest, reply_all, instance_thread-reply_all,
}
use simple_redis_database.Server.Loop.{Kept, Ends, instance_thread-Ends}

abbrev Updates : Type 0
Updates = List (List ℕ × Option (List ℕ))

abbrev same : List ℕ → List ℕ → Bool
same [] [] = true
same [] (y ∷ ys) = false
same (x ∷ xs) [] = false
same (x ∷ xs) (y ∷ ys) = (x == y) && same xs ys

abbrev last_value : Updates → List ℕ → Option (List ℕ)
last_value [] key = none
last_value ((k, v) ∷ us) key = let rest = last_value us key in if same k key then v else rest

abbrev updates : Store
updates = record {
  State = Updates;
  myjql_get = λ s key n. (last_value s key, s);
  myjql_set = λ s key value. (key, some value) ∷ s;
  myjql_del = λ s key. (key, none) ∷ s;
}

abbrev junk : ℕ → ℕ
junk i = 7

abbrev requests : List Request
requests =
    set_to (107 ∷ []) (118 ∷ 119 ∷ []) ∷ get (107 ∷ []) ∷ del (107 ∷ []) ∷ get (107 ∷ []) ∷ []

abbrev client : Conn Updates
client = record { recvs = encode_all requests []; faults = []; sent = []; store = [] }

answers :
    (reply_all updates requests [] []).0
    ≡ number 1 ∷ number 1 ∷ number 2 ∷ bytes (118 ∷ 119 ∷ []) ∷ number 1 ∷ number 0 ∷ number 1 ∷ []
unfolding reply_all
answers = refl

requests-valid : All IsRequest requests
unfolding IsRequest
requests-valid = ((omega arith, omega arith), (omega arith, (omega arith, (omega arith, tt))))

instance_thread-reply_all_example :
    instance_thread updates junk 5 99 client
    ≡ returned 0 (record client {
      recvs = [];
      sent = (reply_all updates requests [] []).0;
      store = (reply_all updates requests [] []).1;
    })
instance_thread-reply_all_example =
    instance_thread-reply_all updates junk requests 5 99 [] [] [] requests-valid (omega arith)

-- The keys of the updates have max_str_len bytes at most.
abbrev Short : Updates → Type 0
Short = All (λ u. length u.0 ≤ max_str_len)

kept : Kept updates Short
kept = record {
  get = λ s key le p. p;
  set = λ s key value le le' p. (le, p);
  del = λ s key le p. (le, p);
}

instance_thread-Ends_example :
    Ends
      (λ _ _. ⊥)
      (λ d. Short d.store)
      (instance_thread updates junk 20 99
        (record client { recvs = received (word 0) ∷ socket_error ∷ [] }))
instance_thread-Ends_example =
    instance_thread-Ends updates junk Short kept 20 99
      (record client { recvs = received (word 0) ∷ socket_error ∷ [] }) (omega arith) tt
