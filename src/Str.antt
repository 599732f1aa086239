-- ===== src/Str.antt =====
-- include/str.h and src/str.c: strings as chains of chunks in a table.
--
-- A chunk is kept by its three fields instead of their bytes. A `char` is a byte, and is compared
-- as the signed number that it stands for. The chunks are in a table, whose operations are the
-- parameter `t`; Stored: a chunk as bytes, and the table of src/table.c. `none` is undefined
-- behaviour.
pub mod Chain
pub mod Reader
pub mod Writer
pub mod Stored
mod Tests
use simple_redis_database.Common.{
  ℕ, zero, suc, ◌+◌, ◌-◌, ◌*◌, ◌/◌, ◌%◌, ◌^◌, ◌≡◌, ◌≢◌, Bool, true, false, not, ◌||◌, Option, none,
  some, List, [], ◌∷◌, ltb, ◌==◌, if◌then◌else◌, ◌>>=◌, length, get_elem?, take, drop,
}
use simple_redis_database.FileIo.{minus_one}
use simple_redis_database.Rid.{Rid, rid_null}

-- STR_CHUNK_MAX_LEN: a quarter of a page, less a RID of 10 bytes and a short.
abbrev pub str_chunk_max_len : ℕ
str_chunk_max_len = 128 / 4 - 10 - 2

abbrev pub str_chunk_max_size : ℕ
str_chunk_max_size = 128 / 4

abbrev pub calc_str_chunk_size : ℕ → ℕ
calc_str_chunk_size len = len + 10 + 2

pub record StringChunk : Type 0 where
  pub rid : Rid
  pub size : ℕ
  pub body : List ℕ

pub record StringRecord : Type 0 where
  pub chunk : StringChunk
  pub idx : ℕ

-- The operations of a table of chunks, which may fail: what Str.Stored fills by those of src/table.c.
pub record ChunkTable : Type 1 where
  pub State : Type 0
  pub table_insert : State → StringChunk → (size : ℕ) → Option (Rid × State)
  pub table_read : State → Rid → Option StringChunk
  pub table_delete : State → Rid → Option State

-- The `n` characters from `ptr` on.
abbrev pub slice : List ℕ → ℕ → ℕ → List ℕ
slice chars ptr n = take n (drop ptr chars)

abbrev pub null_addr : Rid → Bool
null_addr rid = rid.block_addr == minus_one

unfoldable pub has_next_char : StringRecord → Bool
has_next_char r = not (r.idx == r.chunk.size) || not (null_addr r.chunk.rid)

-- x < y for two values of type char.
unfoldable pub char_lt : ℕ → ℕ → Bool
char_lt x y = ltb ((x + 128) % 256) ((y + 128) % 256)

-- What compare_string_record returns: -1, 0 or 1.
pub data Sign : Type 0 where
  minus zero_sign plus : Sign

module _ (t : ChunkTable) where
  open t use {State, table_insert, table_read, table_delete}

  unfoldable pub read_string : State → Rid → Option StringRecord
  read_string table rid = do chunk ← table_read table rid; some (record { chunk = chunk; idx = 0 })

  -- The character at `idx`, and the record with `idx` incremented.
  unfoldable pub take_char : StringRecord → Option (ℕ × StringRecord)
  take_char r = do c ← get_elem? r.chunk.body r.idx; some (c, record r { idx = r.idx + 1 })

  unfoldable pub next_char : State → StringRecord → Option (ℕ × StringRecord)
  unfolding read_string take_char
  next_char table r =
      if not (r.idx == r.chunk.size)
      then take_char r
      else read_string table r.chunk.rid >>= take_char

  -- The loop on copies of the two records, with fuel.
  unfoldable pub compare_string_record : ℕ → State → StringRecord → StringRecord → Option Sign
  unfolding has_next_char next_char char_lt
  compare_string_record zero table a b = none
  compare_string_record (suc fuel) table a b =
      let step = next_char table a >>= λ (x, a'). next_char table b >>= λ (y, b').
      let rest = compare_string_record fuel table a' b' in
      if x == y then rest else (if char_lt x y then some minus else some plus) in
      if has_next_char a
      then (if has_next_char b then step else some plus)
      else (if has_next_char b then some minus else some zero_sign)

  -- `n` rounds of the loops of write_string, which go through the string from `ptr` down.
  unfoldable pub write_chunks : List ℕ → ℕ → ℕ → Rid → State → Option (Rid × State)
  write_chunks chars zero ptr rid table = some (rid, table)
  write_chunks chars (suc n) ptr rid table =
      let p = ptr - str_chunk_max_len in
      let chunk : StringChunk = record {
        rid = rid;
        size = str_chunk_max_len;
        body = slice chars p str_chunk_max_len;
      } in
      table_insert table chunk str_chunk_max_size >>= λ (rid', table').
      write_chunks chars n p rid' table'

  unfoldable pub write_string : State → List ℕ → Option (Rid × State)
  unfolding write_chunks
  write_string table chars =
      let size = length chars in
      let last = size % str_chunk_max_len in
      let chunk : ℕ → ℕ → StringChunk =
        λ ptr n. record { rid = rid_null; size = n; body = slice chars ptr n } in
      if size == 0
      then table_insert table (record { rid = rid_null; size = 0; body = [] })
          (calc_str_chunk_size 0)
      else if not (last == 0)
      then (let ptr = size - last in
          table_insert table (chunk ptr last) (calc_str_chunk_size last) >>= λ (rid, table').
          write_chunks chars (size / str_chunk_max_len) ptr rid table')
      else (let ptr = size - str_chunk_max_len in
          table_insert table (chunk ptr str_chunk_max_len) str_chunk_max_size >>= λ (rid, table').
          write_chunks chars (size / str_chunk_max_len - 1) ptr rid table')

  -- The loop, with fuel.
  unfoldable pub delete_string : ℕ → State → Rid → Option State
  delete_string zero table rid = none
  delete_string (suc fuel) table rid =
      let rest = table_read table rid >>= λ chunk.
      table_delete table rid >>= λ table'. delete_string fuel table' chunk.rid in
      if null_addr rid then some table else rest

  -- The rounds that are left before `max_size` characters are loaded.
  unfoldable pub load_string : State → StringRecord → ℕ → Option (List ℕ)
  unfolding has_next_char next_char
  load_string table r zero = some []
  load_string table r (suc n) =
      let step = next_char table r >>= λ (c, r'). load_string table r' n >>= λ cs. some (c ∷ cs) in
      if has_next_char r then step else some []
