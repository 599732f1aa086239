-- ===== src/Str/Stored.antt =====
-- The table of chunks of src/str.c in the table of src/table.c: a chunk as the bytes of its record.
use simple_redis_database.Common.{
  ℕ, zero, suc, false, ◌+◌, ◌*◌, ◌/◌, ◌%◌, ◌^◌, ◌<◌, ◌≡◌, Option, none, some, List, [], ◌∷◌, ◌++◌,
  length, take, drop, arith, ◌>>=◌, ltb, ge→ltb, if◌then◌else◌,
}
use simple_redis_database.Rid.{Rid}
use simple_redis_database.Str.{StringChunk, ChunkTable}
use simple_redis_database.Table.{Table, table_insert, table_read, table_delete}

-- The `n` bytes of a number, the lowest first.
unfoldable pub number_bytes : ℕ → ℕ → List ℕ
number_bytes zero x = []
number_bytes (suc n) x = x % 256 ∷ number_bytes n (x / 256)

unfoldable pub bytes_number : List ℕ → ℕ
bytes_number [] = 0
bytes_number (b ∷ bs) = b + 256 * bytes_number bs

-- A RID: an off_t and a short.
unfoldable pub rid_bytes : Rid → List ℕ
unfolding number_bytes
rid_bytes r = number_bytes 8 r.block_addr ++ number_bytes 2 r.idx

unfoldable pub bytes_rid : List ℕ → Rid
unfolding bytes_number
bytes_rid bs = record {
  block_addr = bytes_number (take 8 bs);
  idx = bytes_number (take 2 (drop 8 bs));
}

unfoldable pub chunk_bytes : StringChunk → List ℕ
unfolding rid_bytes number_bytes
chunk_bytes c = rid_bytes c.rid ++ number_bytes 2 c.size ++ c.body

-- The chunk in a record; one without a RID and a size leaves them undefined.
unfoldable pub bytes_chunk : List ℕ → Option StringChunk
unfolding bytes_rid bytes_number
bytes_chunk bs =
    if ltb (length bs) 12
    then none
    else some (record {
      rid = bytes_rid bs;
      size = bytes_number (take 2 (drop 10 bs));
      body = drop 12 bs;
    })

abbrev pub value : {A S : Type 0} → Option (A × S) → Option A
value none = none
value (some (a, s)) = some a

abbrev pub state : {A S : Type 0} → Option (A × S) → Option S
state none = none
state (some (a, s)) = some s

-- The table that the strings of the program are in. The fuel is that of the map.
abbrev pub stored : ℕ → ChunkTable
stored fuel = record {
  State = Table;
  table_insert = λ s c size. table_insert fuel (take size (chunk_bytes c)) s;
  table_read = λ s rid. value (table_read rid s) >>= bytes_chunk;
  table_delete = λ s rid. state (table_delete fuel rid s);
}

-- The numbers below this one have `n` bytes.
abbrev pub room : ℕ → ℕ
room zero = 1
room (suc n) = 256 * room n

pub bytes_number-number_bytes : (n x : ℕ) → x < room n → bytes_number (number_bytes n x) ≡ x
unfolding bytes_number number_bytes
bytes_number-number_bytes zero x lt = omega arith
bytes_number-number_bytes (suc n) x lt =
    omega (arith, bytes_number-number_bytes n (x / 256) (omega arith))

-- A chunk whose numbers fit their fields is read from its bytes.
bytes_chunk-chunk_bytes :
    (c : StringChunk)
    → c.rid.block_addr < 2 ^ 64
    → c.rid.idx < 2 ^ 16
    → c.size < 2 ^ 16
    → bytes_chunk (chunk_bytes c) ≡ some c
unfolding bytes_chunk chunk_bytes bytes_rid rid_bytes number_bytes bytes_number
bytes_chunk-chunk_bytes c addr idx size =
    let e1 = bytes_number-number_bytes 8 c.rid.block_addr addr in
    let e2 = bytes_number-number_bytes 2 c.rid.idx idx in
    let e3 = bytes_number-number_bytes 2 c.size size in
    let long : ltb (length (chunk_bytes c)) 12 ≡ false = ge→ltb _ 12 (omega arith) in
    rw long (λ i.
      some (record { rid = record { block_addr = e1 i; idx = e2 i }; size = e3 i; body = c.body }))
