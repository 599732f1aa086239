-- ===== src/Myjql/Stored.antt =====
-- The tables of src/myjql.c in the tables of src/table.c: a record as the bytes of its two RIDs.
use simple_redis_database.Common.{
  ℕ, ◌<◌, ◌^◌, ◌≡◌, Option, none, some, List, ◌++◌, length, drop, ltb, if◌then◌else◌, ◌>>=◌,
}
use simple_redis_database.Str.Stored.{
  number_bytes, bytes_number, rid_bytes, bytes_rid, value, state, bytes_number-number_bytes,
}
use simple_redis_database.Table.{Table, table_insert, table_read, table_delete}
use simple_redis_database.Myjql.Rows.{Record, RecordTable}

unfoldable pub record_bytes : Record → List ℕ
unfolding rid_bytes
record_bytes r = rid_bytes r.key ++ rid_bytes r.value

-- The record in these bytes; fewer of them leave it undefined.
unfoldable pub bytes_record : List ℕ → Option Record
unfolding bytes_rid
bytes_record bs =
    if ltb (length bs) 20
    then none
    else some (record { key = bytes_rid bs; value = bytes_rid (drop 10 bs) })

-- A record whose numbers fit their fields is read from its bytes.
bytes_record-record_bytes :
    (r : Record)
    → r.key.block_addr < 2 ^ 64
    → r.key.idx < 2 ^ 16
    → r.value.block_addr < 2 ^ 64
    → r.value.idx < 2 ^ 16
    → bytes_record (record_bytes r) ≡ some r
unfolding bytes_record record_bytes bytes_rid rid_bytes number_bytes bytes_number
bytes_record-record_bytes r key_addr key_idx value_addr value_idx =
    let e1 = bytes_number-number_bytes 8 r.key.block_addr key_addr in
    let e2 = bytes_number-number_bytes 2 r.key.idx key_idx in
    let e3 = bytes_number-number_bytes 8 r.value.block_addr value_addr in
    let e4 = bytes_number-number_bytes 2 r.value.idx value_idx in
    λ i. some (record {
      key = record { block_addr = e1 i; idx = e2 i };
      value = record { block_addr = e3 i; idx = e4 i };
    })

-- The table that the records of the program are in. The fuel is that of the map.
abbrev pub stored : ℕ → RecordTable
stored fuel = record {
  State = Table;
  table_insert = λ s r. table_insert fuel (record_bytes r) s;
  table_read = λ s rid. value (table_read rid s) >>= bytes_record;
  table_delete = λ s rid. state (table_delete fuel rid s);
}
