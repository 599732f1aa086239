-- ===== src/Myjql/Ops.antt =====
-- myjql_get, myjql_set and myjql_del of src/myjql.c.
--
-- `fuel` is more than the height of the index, and more than the characters and the chunks of a
-- string. The index and the two tables are the global variables of the file.
use simple_redis_database.Common.{
  ℕ, Option, none, some, List, ◌==◌, ◌&&◌, Bool, if◌then◌else◌, ◌>>=◌ as ◌>>=?◌,
}
use simple_redis_database.Common.Run.{Run, ◌>>=◌, ◌>>◌, pure}
use simple_redis_database.FileIo.{minus_one}
use simple_redis_database.Rid.{Rid}
use simple_redis_database.Str.{ChunkTable, read_string, load_string, write_string, delete_string}
use simple_redis_database.BTree.Store.{Handlers, Tree}
use simple_redis_database.BTree.Lookup.{b_tree_search}
use simple_redis_database.BTree.Grow.{b_tree_insert, b_tree_init}
use simple_redis_database.BTree.Shrink.{b_tree_delete}
use simple_redis_database.Myjql.Rows.{
  Record, RecordTable, Tables, read_record, write_record, delete_record, rid_row_row_cmp,
  rid_ptr_row_cmp, insert_handler, delete_handler,
}

-- The test for the null RID.
abbrev is_null : Rid → Bool
is_null rid = rid.block_addr == minus_one && rid.idx == 0

module _ (recs : RecordTable) (t : ChunkTable) (fuel : ℕ) where
  -- The handlers that the store gives to the index.
  abbrev pub handlers : Handlers
  handlers = record {
    State = Tables recs t;
    cmp = rid_row_row_cmp recs t fuel;
    insert_handler = insert_handler recs t;
    delete_handler = delete_handler recs t fuel;
  }

  abbrev pub Store : Type 0
  Store = Tree (Tables recs t)

  -- A part of the code that changes the tables only.
  abbrev back : {A : Type 0} → Store → Option (A × Tables recs t) → Option (A × Store)
  back s none = none
  back s (some (a, tables)) = some (a, record s { tables = tables })

  abbrev on_tables : {A : Type 0} → Run (Tables recs t) A → Run Store A
  on_tables m s = back s (m s.tables)

  abbrev fetch : Rid → Run Store Record
  fetch rid = on_tables λ s. (read_record recs t s rid >>=? λ r. some (r, s))

  abbrev spell : List ℕ → Run Store Rid
  spell chars = on_tables λ s.
      (write_string t s.tbl_str chars >>=? λ (rid, strings).
      some (rid, record s { tbl_str = strings }))

  abbrev unspell : Rid → Run Store (Unit {0})
  unspell rid = on_tables λ s.
      (delete_string t fuel s.tbl_str rid >>=? λ strings. some (tt, record s { tbl_str = strings }))

  abbrev file : Record → Run Store Rid
  file r = on_tables λ s. write_record recs t s r

  abbrev unfile : Rid → Run Store (Unit {0})
  unfile rid = on_tables λ s. (delete_record recs t s rid >>=? λ s'. some (tt, s'))

  abbrev lookup : List ℕ → Run Store Rid
  lookup key =
      b_tree_search (λ b leaf. on_tables λ s. rid_ptr_row_cmp recs t fuel s key b leaf) fuel

  -- The string of `value`, `max_size` characters of it at most, or `none` for the result -1.
  unfoldable pub myjql_get : List ℕ → (max_size : ℕ) → Run Store (Option (List ℕ))
  unfolding b_tree_search rid_ptr_row_cmp read_record read_string load_string
  myjql_get key max_size = do
    rid ← lookup key
    if is_null rid then pure none else (do
      r ← fetch rid
      chars ← on_tables (λ s.
          (read_string t s.tbl_str r.value >>=? λ strrecord.
          load_string t s.tbl_str strrecord max_size >>=? λ p. some (p, s)))
      pure (some chars))

  unfoldable pub myjql_set : List ℕ → List ℕ → Run Store (Unit {0})
  unfolding b_tree_search b_tree_insert b_tree_delete rid_ptr_row_cmp
  myjql_set key value = do
    rid ← lookup key
    if is_null rid
        then (do
          key_rid ← spell key
          value_rid ← spell value
          new ← file (record { key = key_rid; value = value_rid })
          b_tree_insert handlers fuel new
          pure tt)
        else (do
          r ← fetch rid
          b_tree_delete handlers fuel rid
          unfile rid
          unspell r.value
          value_rid ← spell value
          new ← file (record r { value = value_rid })
          b_tree_insert handlers fuel new
          pure tt)

  unfoldable pub myjql_del : List ℕ → Run Store (Unit {0})
  unfolding b_tree_search b_tree_delete rid_ptr_row_cmp
  myjql_del key = do
    rid ← lookup key
    if is_null rid then pure tt else (do
      b_tree_delete handlers fuel rid
      r ← fetch rid
      unfile rid
      unspell r.key
      unspell r.value)

  -- The pages of the index; a table that is opened is a state of its parameter.
  unfoldable pub myjql_init : Run Store (Unit {0})
  unfolding b_tree_init
  myjql_init = b_tree_init handlers
