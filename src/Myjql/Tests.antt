-- ===== src/Myjql/Tests.antt =====
-- The store of src/myjql.c at concrete inputs, over tables of src/table.c.
use simple_redis_database.Common.{
  ℕ, zero, suc, ◌<◌, ◌≡◌, refl, Option, none, some, List, [], ◌∷◌, get_or, arith, inl, sym,
  append-nil, replicate,
}
use simple_redis_database.Common.Run.{Run, ◌>>=◌, ◌>>◌, pure, entry}
use simple_redis_database.PageStore
use simple_redis_database.Rid.{Rid, rid_null}
use simple_redis_database.Block.{
  init_block, new_item, get_item_id_availability, get_item_id_size, get_item_id_offset,
  compose_item_id, read_bytes, first_free, copy_in, get_item, free_space, delete_item,
}
use simple_redis_database.HashMap.{write_directories, free_block, hash_table_init}
use simple_redis_database.HashMap as HashMap
use simple_redis_database.Table.{table_init, table_read, item_bytes, table_insert, table_delete}
use simple_redis_database.Str.{
  write_chunks, write_string, delete_string, take_char, next_char, has_next_char, read_string,
  load_string, compare_string_record, char_lt, StringRecord,
}
use simple_redis_database.Str.Chain.{Reads}
use simple_redis_database.Str.Reader.{lex}
use simple_redis_database.Str.Stored.{
  chunk_bytes, bytes_chunk, rid_bytes, bytes_rid, number_bytes, bytes_number,
}
use simple_redis_database.BTree.{BNode, find_index, is_minus}
use simple_redis_database.BTree.Index.{Ordered, Splits}
use simple_redis_database.BTree.Split.{LeafInserted}
use simple_redis_database.BTree.Removal.{RowRemoved}
use simple_redis_database.BTree.Grow.{b_tree_insert}
use simple_redis_database.BTree.Shrink.{b_tree_delete}
use simple_redis_database.BTree.Search.{Descends, at_leaf}
use simple_redis_database.BTree.Insertion.{written}
use simple_redis_database.BTree.Path.{leaf_addr}
use simple_redis_database.BTree.Insert.{blank}
use simple_redis_database.BTree.Store.{
  Tree, get_page, release, read_control, write_control, read_node, write_node, append_node,
  append_control, file_length, find, copy_key, drop_key,
}
use simple_redis_database.Myjql.Rows.{
  Tables, read_record, write_record, delete_record, row_string, rid_row_row_cmp, rid_ptr_row_cmp,
  insert_handler, delete_handler,
}
use simple_redis_database.Myjql.Ops.{handlers, myjql_init, myjql_get, myjql_set, myjql_del}
use simple_redis_database.Myjql.Stored.{record_bytes, bytes_record}
use simple_redis_database.Myjql.Keys.{Spells, of_record, rid_row_row_cmp-lex}
use simple_redis_database.Myjql.Index.{
  Row, sign, Present, b_tree_insert-Entered, b_tree_delete-Left,
}
use simple_redis_database.Myjql.Sample.{
  records, strings, no_pages, place, chunk, tables, leaf, ctrl, index, keys,
}

abbrev whole : List ℕ → StringRecord
whole body = record { chunk = chunk body; idx = 0 }

whole-Reads : (body : List ℕ) → Reads strings tables.tbl_str (whole body) body
whole-Reads body = record {
  body = body;
  bodies = [];
  size = refl;
  own = refl;
  within = omega arith;
  chain = refl;
  filled = tt;
  left = sym (append-nil body);
}

row_Spells : Spells records strings tables (place 0) 1 (1 ∷ 2 ∷ [])
unfolding row_string read_record read_string table_read item_bytes get_item new_item init_block
    first_free copy_in record_bytes bytes_record chunk_bytes bytes_chunk rid_bytes bytes_rid
    number_bytes bytes_number PageStore.pin_page PageStore.release_page PageStore.load
    get_item_id_availability get_item_id_size get_item_id_offset compose_item_id read_bytes
row_Spells = record {
  of_row = whole (1 ∷ 2 ∷ []);
  opens =
      of_record (record { key = place 0; value = place 128 }) (chunk (1 ∷ 2 ∷ [])) refl refl refl;
  reads = whole-Reads (1 ∷ 2 ∷ []);
  bytes = (omega arith, (omega arith, tt));
}

new_Spells : Spells records strings tables (place 128) 1 (3 ∷ [])
unfolding row_string read_record read_string table_read item_bytes get_item new_item init_block
    first_free copy_in record_bytes bytes_record chunk_bytes bytes_chunk rid_bytes bytes_rid
    number_bytes bytes_number PageStore.pin_page PageStore.release_page PageStore.load
    get_item_id_availability get_item_id_size get_item_id_offset compose_item_id read_bytes
new_Spells = record {
  of_row = whole (3 ∷ []);
  opens = of_record (record { key = place 256; value = place 128 }) (chunk (3 ∷ [])) refl refl refl;
  reads = whole-Reads (3 ∷ []);
  bytes = (omega arith, tt);
}

rid_row_row_cmp-lex_example :
    rid_row_row_cmp records strings 9 tables (place 128) (place 0) 1 1
    ≡ some (lex (3 ∷ []) (1 ∷ 2 ∷ []))
rid_row_row_cmp-lex_example =
    rid_row_row_cmp-lex records strings 9 tables (place 128) (place 0) 1 1 (3 ∷ []) (1 ∷ 2 ∷ [])
      (omega arith) new_Spells row_Spells

first_row : (T : Rid → Type 0) → T (place 0) → (j : ℕ) → j < 1 → T (get_or leaf.row_ptr j rid_null)
first_row T x zero lt = x
first_row T x (suc j) lt = absurd (omega arith)

abbrev full_store : Tree (Tables records strings)
full_store = record { pool = index; tables = tables }

down :
    (key : List ℕ)
    → Descends index.page
        (Row records strings 9 key tables keys)
        (sign records strings 9 key tables keys)
        1
        128
        leaf
unfolding blank
down key =
    at_leaf 128 leaf refl refl (omega arith)
      (first_row (λ r. Spells records strings tables r 1 (1 ∷ 2 ∷ [])) row_Spells)

one_Ordered : (key : List ℕ) → Ordered (λ r. is_minus (lex key (keys r 1))) leaf.row_ptr leaf.n
one_Ordered key i j le lt h = h

b_tree_insert-Entered_example :
    (k : ℕ) × (b' : BNode) × (b_tree_insert (handlers records strings 9) 9 (place 128) full_store
      ≡ some (
        place 128,
        record { pool = written (leaf_addr (down (3 ∷ []))) b' index; tables = tables },
      ))
    × Splits (λ r. is_minus (lex (3 ∷ []) (keys r 1))) leaf.row_ptr leaf.n k
    × LeafInserted k (place 128) leaf b'
unfolding blank
b_tree_insert-Entered_example =
    b_tree_insert-Entered records strings 9 (3 ∷ []) (place 128) 1 keys leaf ctrl full_store refl
      (down (3 ∷ [])) new_Spells (one_Ordered (3 ∷ [])) (omega arith) refl (omega arith)
      (omega arith)

present : Present (1 ∷ 2 ∷ []) keys leaf 0
unfolding blank
present = record {
  inside = omega arith;
  has_key = refl;
  ordered = one_Ordered (1 ∷ 2 ∷ []);
  behind = λ lt. absurd (omega arith);
  four = omega arith;
  whole = refl;
}

b_tree_delete-Left_example :
    (b' : BNode) × (b_tree_delete (handlers records strings 9) 9 (place 0) full_store
      ≡ some
          (tt, record { pool = written (leaf_addr (down (1 ∷ 2 ∷ []))) b' index; tables = tables }))
    × RowRemoved 1 leaf b'
b_tree_delete-Left_example =
    b_tree_delete-Left records strings 9 (1 ∷ 2 ∷ []) (place 0) 1 0 keys leaf ctrl full_store refl
      (down (1 ∷ 2 ∷ [])) row_Spells present (inl refl) (omega arith) (omega arith)

-- Both tables are new; the third insertion overwrites a value, and the string of 25 characters takes two
-- chunks.
abbrev start : Tree (Tables records strings)
start = record {
  pool = no_pages;
  tables = record {
    tbl_rec = record { data_pool = no_pages; fsm_pool = no_pages };
    tbl_str = record { data_pool = no_pages; fsm_pool = no_pages };
  };
}

abbrev open_tables : Run (Tree (Tables records strings)) (Unit {0})
open_tables s = elim (table_init s.tables.tbl_rec) [
  | none ↦ none
  | some (x, r) ↦ elim (table_init s.tables.tbl_str) [
    | none ↦ none
    | some (y, c) ↦ some (tt, record s { tables = record { tbl_rec = r; tbl_str = c } })
  ]
]

abbrev get : List ℕ → Run (Tree (Tables records strings)) (Option (List ℕ))
get key = myjql_get records strings 9 key 1024

abbrev put : List ℕ → List ℕ → Run (Tree (Tables records strings)) (Unit {0})
put key value = myjql_set records strings 9 key value

abbrev program :
    Run
      (Tree (Tables records strings))
      (Option (List ℕ) × (Option (List ℕ) × (Option (List ℕ) × Option (List ℕ))))
program = do
  open_tables
  myjql_init records strings 9
  put (1 ∷ 2 ∷ []) (10 ∷ [])
  put (1 ∷ []) (20 ∷ [])
  put (1 ∷ 2 ∷ []) (replicate 25 7)
  put (3 ∷ []) (40 ∷ [])
  myjql_del records strings 9 (1 ∷ [])
  a ← get (1 ∷ 2 ∷ [])
  b ← get (1 ∷ [])
  c ← get (3 ∷ [])
  d ← get (2 ∷ [])
  pure (a, (b, (c, d)))

abbrev value : {A : Type 0} → Option (A × Tree (Tables records strings)) → Option A
value none = none
value (some (a, t)) = some a

runs : value (program start) ≡ some (some (replicate 25 7), (none, (some (40 ∷ []), none)))
unfolding myjql_init myjql_get myjql_set myjql_del file_length PageStore.file_length append_control
    PageStore.append_page append_node get_page PageStore.pin_page read_control write_control
    PageStore.load read_node release PageStore.release_page find write_node PageStore.store entry
    copy_key drop_key blank find_index write_chunks write_string delete_string take_char next_char
    has_next_char read_string load_string compare_string_record char_lt read_record write_record
    delete_record row_string rid_row_row_cmp rid_ptr_row_cmp insert_handler delete_handler
    table_init table_insert table_delete table_read item_bytes get_item new_item init_block
    first_free copy_in record_bytes bytes_record chunk_bytes bytes_chunk rid_bytes bytes_rid
    number_bytes bytes_number get_item_id_availability get_item_id_size get_item_id_offset
    compose_item_id read_bytes free_space delete_item write_directories free_block hash_table_init
    HashMap.read_control HashMap.read_directory HashMap.read_block
runs = refl
