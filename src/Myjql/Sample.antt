-- ===== src/Myjql/Sample.antt =====
-- A store of src/myjql.c with two records, in tables of src/table.c, for tests.
use simple_redis_database.Common.{ℕ, none, some, List, [], ◌∷◌, ◌==◌, if◌then◌else◌, length}
use simple_redis_database.FileIo.{minus_one}
use simple_redis_database.PageStore.{Pages}
use simple_redis_database.Rid.{Rid, rid_null}
use simple_redis_database.Block.{Block, init_block, new_item}
use simple_redis_database.Table.{empty_block}
use simple_redis_database.Str.{ChunkTable, StringChunk}
use simple_redis_database.Str.Stored.{chunk_bytes}
use simple_redis_database.Str.Stored as StrStored
use simple_redis_database.BTree.{BNode}
use simple_redis_database.BTree.Insert.{blank}
use simple_redis_database.BTree.Store.{BPage, BCtrlBlock, control, node}
use simple_redis_database.Myjql.Rows.{RecordTable, Tables}
use simple_redis_database.Myjql.Stored.{record_bytes}
use simple_redis_database.Myjql.Stored as MyjqlStored

abbrev pub records : RecordTable
records = MyjqlStored.stored 9

abbrev pub strings : ChunkTable
strings = StrStored.stored 9

abbrev pub no_pages : {P : Type 0} → Pages P
no_pages = record { page = λ a. none; length = 0; pins = λ a. 0 }

abbrev pub place : ℕ → Rid
place addr = record { block_addr = addr; idx = 0 }

abbrev pub chunk : List ℕ → StringChunk
chunk body = record { rid = rid_null; size = length body; body = body }

abbrev pub page_of : List ℕ → Block
page_of item = (new_item (init_block empty_block) item).1

-- Two records, of the key 1 2 and of the key 3, with the value 10 20. The first one is in the index.
abbrev pub tables : Tables records strings
tables = record {
  tbl_rec = record {
    data_pool = record {
      page = λ a.
          if a == 0
          then some (page_of (record_bytes (record { key = place 0; value = place 128 })))
          else if a == 128
          then some (page_of (record_bytes (record { key = place 256; value = place 128 })))
          else none;
      length = 256;
      pins = λ a. 0;
    };
    fsm_pool = no_pages;
  };
  tbl_str = record {
    data_pool = record {
      page = λ a.
          if a == 0
          then some (page_of (chunk_bytes (chunk (1 ∷ 2 ∷ []))))
          else if a == 128
          then some (page_of (chunk_bytes (chunk (10 ∷ 20 ∷ []))))
          else if a == 256
          then some (page_of (chunk_bytes (chunk (3 ∷ []))))
          else none;
      length = 384;
      pins = λ a. 0;
    };
    fsm_pool = no_pages;
  };
}

abbrev pub leaf : BNode
leaf = record (blank 1 1) { row_ptr = place 0 ∷ rid_null ∷ rid_null ∷ rid_null ∷ [] }

abbrev pub ctrl : BCtrlBlock
ctrl = record { root_node = 128; free_node_head = minus_one }

abbrev pub index : Pages BPage
index = record {
  page = λ a. if a == 0 then some (control ctrl) else if a == 128 then some (node leaf) else none;
  length = 256;
  pins = λ a. 0;
}

abbrev pub keys : Rid → ℕ → List ℕ
keys r flag = 1 ∷ 2 ∷ []
