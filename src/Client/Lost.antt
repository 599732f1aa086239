-- ===== src/Client/Lost.antt =====
-- A call of driver/myjqlclient.cpp whose answer does not come, because the server closed the
-- connection: recv returns 0 and leaves `code` as it was.
use simple_redis_database.Common.{
  ℕ, ◌%◌, ◌^◌, ◌<◌, ◌≡◌, sym, refl, ◌∙◌, List, [], ◌∷◌, ◌++◌, length, arith,
}
use simple_redis_database.Server.{Recv, received, Message, number, bytes, overlay}
use simple_redis_database.Server.Protocol.{Sized, word}
use simple_redis_database.Client.{Result, ok, send_message, send_string, recv_from, recv_int, put}
use simple_redis_database.Client
use simple_redis_database.Client.Wire.{recv_int_lem, send_string_lem}
use simple_redis_database.Client.Session.{socket_of}

recv_int_lost :
    (n : ℕ) (rest : List Recv) (sent : List Message)
    → n < 2 ^ 32
    → recv_int n (socket_of (received [] ∷ rest) sent) ≡ ok n (socket_of rest sent)
unfolding recv_int recv_from overlay
recv_int_lost n rest sent lt = let small : n % 2 ^ 32 ≡ n = omega arith in rw small refl

recv_int_same :
    (n code : ℕ) (rest : List Recv) (sent : List Message)
    → n < 2 ^ 32
    → code ≡ n
    → recv_int code (socket_of (received [] ∷ rest) sent)
      ≡ recv_int code (socket_of (received (word n) ∷ rest) sent)
recv_int_same n code rest sent lt same =
    rw same (recv_int_lost n rest sent lt ∙ sym (recv_int_lem n n rest sent lt))

-- On a connection whose sends succeed, a call whose answer is lost ends as though the server had
-- answered with the length that the call sent last: that of the key for get and del, and that of the
-- value for set.
pub answer_lost :
    (key value : List ℕ) (rest : List Recv) (sent : List Message)
    → Sized key
    → Sized value
    → (Client.get key (socket_of (received [] ∷ rest) sent)
        ≡ Client.get key (socket_of (received (word (length key)) ∷ rest) sent))
      × (Client.set key value (socket_of (received [] ∷ rest) sent)
          ≡ Client.set key value (socket_of (received (word (length value)) ∷ rest) sent))
      × (Client.del key (socket_of (received [] ∷ rest) sent)
          ≡ Client.del key (socket_of (received (word (length key)) ∷ rest) sent))
unfolding Client.get Client.set Client.del send_message put
answer_lost key value rest sent small fits =
    let key_sent =
      λ (n : ℕ). ((sent ++ number n ∷ []) ++ number (length key) ∷ []) ++ bytes key ∷ [] in
    let value_sent = (key_sent 1 ++ number (length value) ∷ []) ++ bytes value ∷ [] in
    let lost = received [] ∷ rest in
    let answered = λ (n : ℕ). received (word n) ∷ rest in
    (
      rw
          (
            send_string_lem key lost (sent ++ number 0 ∷ []) small,
            send_string_lem key (answered (length key)) (sent ++ number 0 ∷ []) small,
            recv_int_same (length key) (length key % 2 ^ 32) rest (key_sent 0) (omega arith)
                (omega arith),
          )
          refl,
      rw
          (
            send_string_lem key lost (sent ++ number 1 ∷ []) small,
            send_string_lem value lost (key_sent 1) fits,
            send_string_lem key (answered (length value)) (sent ++ number 1 ∷ []) small,
            send_string_lem value (answered (length value)) (key_sent 1) fits,
            recv_int_same (length value) (length value % 2 ^ 32) rest value_sent (omega arith)
                (omega arith),
          )
          refl,
      rw
          (
            send_string_lem key lost (sent ++ number 2 ∷ []) small,
            send_string_lem key (answered (length key)) (sent ++ number 2 ∷ []) small,
            recv_int_same (length key) (length key % 2 ^ 32) rest (key_sent 2) (omega arith)
                (omega arith),
          )
          refl,
    )
