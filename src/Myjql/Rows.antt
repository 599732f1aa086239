-- ===== src/Myjql/Rows.antt =====
-- The records of src/myjql.c, the two comparisons and the two handlers.
--
-- A record is the two RIDs of its key and its value. A row of a leaf of the index is the RID of a
-- record, a row of an inner node that of a string. `fuel` is more than the characters and the chunks
-- of a string.
use simple_redis_database.Common.{ℕ, Option, some, List, ◌==◌, if◌then◌else◌, ◌>>=◌}
use simple_redis_database.Rid.{Rid}
use simple_redis_database.Str.{
  ChunkTable, StringRecord, Sign, read_string, compare_string_record, load_string, write_string,
  delete_string,
}

abbrev pub max_str_len : ℕ
max_str_len = 1024

pub record Record : Type 0 where
  pub key : Rid
  pub value : Rid

-- The operations of a table of records, which may fail: what Myjql.Stored fills by those of
-- src/table.c.
pub record RecordTable : Type 1 where
  pub State : Type 0
  pub table_insert : State → Record → Option (Rid × State)
  pub table_read : State → Rid → Option Record
  pub table_delete : State → Rid → Option State

module _ (recs : RecordTable) (t : ChunkTable) where
  pub record Tables : Type 0 where
    pub tbl_rec : recs.State
    pub tbl_str : t.State

  unfoldable pub read_record : Tables → Rid → Option Record
  read_record s rid = recs.table_read s.tbl_rec rid

  unfoldable pub write_record : Tables → Record → Option (Rid × Tables)
  write_record s r = do
    (rid, recs') ← recs.table_insert s.tbl_rec r
    some (rid, record s { tbl_rec = recs' })

  unfoldable pub delete_record : Tables → Rid → Option Tables
  delete_record s rid = do
    recs' ← recs.table_delete s.tbl_rec rid
    some (record s { tbl_rec = recs' })

  -- The string that a row stands for: the key of a record, or the string itself.
  unfoldable pub row_string : Tables → Rid → ℕ → Option StringRecord
  unfolding read_record read_string
  row_string s rid leaf =
      if leaf == 0
      then read_string t s.tbl_str rid
      else (read_record s rid >>= λ r. read_string t s.tbl_str r.key)

  unfoldable pub rid_row_row_cmp : ℕ → Tables → Rid → Rid → ℕ → ℕ → Option Sign
  unfolding row_string compare_string_record
  rid_row_row_cmp fuel s a b aleaf bleaf = do
    aa ← row_string s a aleaf
    bb ← row_string s b bleaf
    compare_string_record t fuel s.tbl_str aa bb

  -- The key is written to the table of strings for the comparison, and deleted again.
  unfoldable pub rid_ptr_row_cmp : ℕ → Tables → List ℕ → Rid → ℕ → Option (Sign × Tables)
  unfolding row_string compare_string_record write_string delete_string
  rid_ptr_row_cmp fuel s p b leaf = do
    (rid, strings) ← write_string t s.tbl_str p
    aa ← read_string t strings rid
    bb ← row_string (record s { tbl_str = strings }) b leaf
    ans ← compare_string_record t fuel strings aa bb
    strings' ← delete_string t fuel strings rid
    some (ans, record s { tbl_str = strings' })

  unfoldable pub insert_handler : Tables → Rid → ℕ → Option (Rid × Tables)
  unfolding row_string load_string write_string
  insert_handler s rid leaf = do
    aa ← row_string s rid leaf
    p ← load_string t s.tbl_str aa max_str_len
    (key, strings) ← write_string t s.tbl_str p
    some (key, record s { tbl_str = strings })

  unfoldable pub delete_handler : ℕ → Tables → Rid → Option Tables
  unfolding delete_string
  delete_handler fuel s rid = do
    strings ← delete_string t fuel s.tbl_str rid
    some (record s { tbl_str = strings })
