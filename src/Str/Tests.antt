-- ===== src/Str/Tests.antt =====
-- The strings of src/str.c at concrete inputs, in tables of src/table.c.
use simple_redis_database.Common.{
  ℕ, ◌<◌, ◌≡◌, refl, none, some, Option, List, [], ◌∷◌, arith, length, All, ◌>>=◌, ◌==◌,
  if◌then◌else◌,
}
use simple_redis_database.Common.Run.{entry}
use simple_redis_database.PageStore
use simple_redis_database.PageStore.{Pages}
use simple_redis_database.Rid.{rid_null}
use simple_redis_database.Block.{
  init_block, new_item, get_item_id_availability, get_item_id_size, get_item_id_offset,
  compose_item_id, read_bytes, first_free, copy_in, get_item, free_space, delete_item,
}
use simple_redis_database.HashMap as HashMap
use simple_redis_database.HashMap.{write_directories, free_block, hash_table_init}
use simple_redis_database.Table.{
  Table, empty_block, table_init, table_read, item_bytes, table_insert, table_delete,
}
use simple_redis_database.Str.{
  StringChunk, StringRecord, read_string, write_string, load_string, compare_string_record,
  delete_string, write_chunks, has_next_char, next_char, take_char,
}
use simple_redis_database.Str.Chain.{Reads, chars_of}
use simple_redis_database.Str.Reader.{lex, compare_string_record-lex}
use simple_redis_database.Str.Writer.{Fits, NotEmpty, insert_all, write_string-insert_all}
use simple_redis_database.Str.Stored.{
  stored, chunk_bytes, bytes_chunk, rid_bytes, bytes_rid, number_bytes, bytes_number,
}

-- 25 characters: two chunks.
abbrev long : List ℕ
long =
    1 ∷ 2 ∷ 3 ∷ 4 ∷ 5 ∷ 6 ∷ 7 ∷ 8 ∷ 9 ∷ 10 ∷ 11 ∷ 12 ∷ 13 ∷ 14 ∷ 15 ∷ 16 ∷ 17 ∷ 18 ∷ 19 ∷ 20 ∷ 21
    ∷ 22 ∷ 23 ∷ 24 ∷ 25 ∷ []

abbrev no_pages : {P : Type 0} → Pages P
no_pages = record { page = λ a. none; length = 0; pins = λ a. 0 }

abbrev closed : Table
closed = record { data_pool = no_pages; fsm_pool = no_pages }

-- A string is written to a new table and read back; after it is deleted its first chunk is not there.
abbrev program : Option (List ℕ × Option StringRecord)
program = table_init closed >>= λ (x, opened). write_string (stored 9) opened long >>= λ (rid, s).
    read_string (stored 9) s rid >>= λ r. load_string (stored 9) s r 22 >>= λ chars.
    delete_string (stored 9) 5 s rid >>= λ s'. some (chars, read_string (stored 9) s' rid)

runs :
    program
    ≡ some (
      1 ∷ 2 ∷ 3 ∷ 4 ∷ 5 ∷ 6 ∷ 7 ∷ 8 ∷ 9 ∷ 10 ∷ 11 ∷ 12 ∷ 13 ∷ 14 ∷ 15 ∷ 16 ∷ 17 ∷ 18 ∷ 19 ∷ 20 ∷ 21
          ∷ 22 ∷ [],
      none,
    )
unfolding read_string write_string load_string delete_string write_chunks has_next_char next_char
    take_char table_init table_insert table_delete table_read item_bytes get_item new_item
    init_block first_free copy_in chunk_bytes bytes_chunk rid_bytes bytes_rid number_bytes
    bytes_number get_item_id_availability get_item_id_size get_item_id_offset compose_item_id
    read_bytes free_space delete_item write_directories free_block hash_table_init
    HashMap.read_control HashMap.read_directory HashMap.read_block PageStore.pin_page
    PageStore.release_page PageStore.load PageStore.store PageStore.append_page
    PageStore.file_length entry
runs = refl

-- A table with the chunk 2 200 in its page.
abbrev chunk : List ℕ → StringChunk
chunk body = record { rid = rid_null; size = length body; body = body }

abbrev table : Table
table = record {
  data_pool = record {
    page = λ a.
        if a == 0
        then some (new_item (init_block empty_block) (chunk_bytes (chunk (2 ∷ 200 ∷ [])))).1
        else none;
    length = 128;
    pins = λ a. 0;
  };
  fsm_pool = no_pages;
}

-- 1 2 200, in two chunks, and 1 2 3.
abbrev two : StringRecord
two = record {
  chunk = record { rid = record { block_addr = 0; idx = 0 }; size = 1; body = 1 ∷ [] };
  idx = 0;
}

abbrev one : StringRecord
one = record { chunk = chunk (1 ∷ 2 ∷ 3 ∷ []); idx = 0 }

two-Reads : Reads (stored 9) table two (1 ∷ 2 ∷ 200 ∷ [])
unfolding table_read item_bytes get_item new_item init_block first_free copy_in chunk_bytes
    bytes_chunk rid_bytes bytes_rid number_bytes bytes_number get_item_id_availability
    get_item_id_size get_item_id_offset compose_item_id read_bytes PageStore.pin_page
    PageStore.release_page PageStore.load
two-Reads = record {
  body = 1 ∷ [];
  bodies = (2 ∷ 200 ∷ []) ∷ [];
  size = refl;
  own = refl;
  within = omega arith;
  chain = (rid_null, omega arith, refl, refl);
  filled = (omega arith, tt);
  left = refl;
}

one-Reads : Reads (stored 9) table one (1 ∷ 2 ∷ 3 ∷ [])
one-Reads = record {
  body = 1 ∷ 2 ∷ 3 ∷ [];
  bodies = [];
  size = refl;
  own = refl;
  within = omega arith;
  chain = refl;
  filled = tt;
  left = refl;
}

compare_string_record-lex_example :
    compare_string_record (stored 9) 5 table two one
    ≡ some (lex (1 ∷ 2 ∷ 200 ∷ []) (1 ∷ 2 ∷ 3 ∷ []))
compare_string_record-lex_example =
    compare_string_record-lex (stored 9) table 5 two one (1 ∷ 2 ∷ 200 ∷ []) (1 ∷ 2 ∷ 3 ∷ [])
      (omega arith) two-Reads one-Reads (omega arith, (omega arith, (omega arith, tt)))
      (omega arith, (omega arith, (omega arith, tt)))

write_string-insert_all_example :
    (bodies : List (List ℕ)) × (chars_of bodies ≡ long)
    × All Fits bodies
    × (0 < length long → All NotEmpty bodies)
    × (write_string (stored 9) closed long ≡ insert_all (stored 9) closed bodies)
write_string-insert_all_example = write_string-insert_all (stored 9) closed long
