-- ===== src/Client/Tests.antt =====
-- The client of driver/myjqlclient.cpp at concrete inputs.
use simple_redis_database.Common.{ℕ, ◌≡◌, refl, none, some, List, [], ◌∷◌, All, arith}
use simple_redis_database.Server.{
  Message, number, bytes, received, returned, overlay, instance_thread,
}
use simple_redis_database.Server.Protocol.{Request, IsRequest, reply, word}
use simple_redis_database.Client.{
  Socket, Result, ok, thrown, system_error, key_too_long, incomplete_response, recv, send,
  undefined,
}
use simple_redis_database.Client
use simple_redis_database.Client.Wire.{value, done, deliver}
use simple_redis_database.Client.Calls.{outcome}
use simple_redis_database.Client.Sample.{cell, cell-Bounded}
use simple_redis_database.Client.Lost.{answer_lost}
use simple_redis_database.Client.Session.{
  session, outcomes, last_store, socket_of, closed_socket, session-served,
}

abbrev requests : List Request
requests =
    Request.get (107 ∷ [])
    ∷ Request.set_to (107 ∷ []) (118 ∷ 0 ∷ 119 ∷ [])
    ∷ Request.get (107 ∷ [])
    ∷ Request.del (107 ∷ [])
    ∷ []

-- A value is cut at its first 0.
requests-outcomes :
    outcomes cell requests none ≡ value none ∷ done ∷ value (some (118 ∷ [])) ∷ done ∷ []
unfolding outcomes outcome reply Client.c_string
requests-outcomes = refl

requests-IsRequest : All IsRequest requests
unfolding IsRequest
requests-IsRequest = (omega arith, ((omega arith, omega arith), (omega arith, (omega arith, tt))))

abbrev junk : ℕ → ℕ
junk i = 7

session-served_example :
    (to_server to_client : List Message) × (session requests (socket_of (deliver to_client []) [])
      ≡ ok (outcomes cell requests none) (closed_socket [] to_server))
    × (instance_thread cell junk 5 99
          (record { recvs = deliver to_server []; faults = []; sent = []; store = none })
        ≡ returned 0 (record {
          recvs = [];
          faults = [];
          sent = to_client;
          store = last_store cell requests none;
        }))
session-served_example =
    session-served cell cell-Bounded requests none junk 5 99 requests-IsRequest (omega arith)

-- The answer is cut short.
get_incomplete :
    Client.get
      (107 ∷ [])
      (socket_of (received (word 1) ∷ received (word 3) ∷ received (118 ∷ []) ∷ []) [])
    ≡ thrown
        (system_error incomplete_response 0)
        (socket_of [] (number 0 ∷ number 1 ∷ bytes (107 ∷ []) ∷ []))
unfolding Client.get Client.send_message Client.put Client.send_string Client.recv_int
    Client.recv_from overlay Client.recv_value
get_incomplete = refl

-- The answer is lost, and its `code` is the length of the key.
del_lost :
    Client.del (107 ∷ []) (socket_of (received [] ∷ []) [])
    ≡ ok tt (socket_of [] (number 2 ∷ number 1 ∷ bytes (107 ∷ []) ∷ []))
unfolding Client.del Client.send_message Client.put Client.send_string Client.recv_int
    Client.recv_from overlay
del_lost = refl

answer_lost_example :
    (Client.get (107 ∷ []) (socket_of (received [] ∷ []) [])
      ≡ Client.get (107 ∷ []) (socket_of (received (word 1) ∷ []) []))
    × (Client.set (107 ∷ []) (118 ∷ 119 ∷ []) (socket_of (received [] ∷ []) [])
        ≡ Client.set (107 ∷ []) (118 ∷ 119 ∷ []) (socket_of (received (word 2) ∷ []) []))
    × (Client.del (107 ∷ []) (socket_of (received [] ∷ []) [])
        ≡ Client.del (107 ∷ []) (socket_of (received (word 1) ∷ []) []))
answer_lost_example = answer_lost (107 ∷ []) (118 ∷ 119 ∷ []) [] [] (omega arith) (omega arith)
