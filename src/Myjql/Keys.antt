-- ===== src/Myjql/Keys.antt =====
-- The keys that the rows of the index stand for in src/myjql.c, and what the comparison of two rows is.
use simple_redis_database.Common.{
  ℕ, ◌<◌, ◌≡◌, refl, sym, ◌∙◌, true, false, some, List, [], ◌∷◌, length, All, ◌==◌, eq→==,
}
use simple_redis_database.Rid.{Rid}
use simple_redis_database.Str.{
  ChunkTable, StringChunk, StringRecord, read_string, Sign, minus, zero_sign, plus,
}
use simple_redis_database.Str.Chain.{Reads}
use simple_redis_database.Str.Reader.{lex, IsByte, compare_string_record-lex}
use simple_redis_database.BTree.{is_zero, is_minus}
use simple_redis_database.Myjql.Rows.{
  Record, RecordTable, Tables, read_record, row_string, rid_row_row_cmp,
}

-- A string compares equal with itself.
pub lex_self : (xs : List ℕ) → is_zero (lex xs xs) ≡ true
unfolding lex
lex_self [] = refl
lex_self (x ∷ xs) = rw (eq→== x x refl, lex) (lex_self xs)

pub zero_not_minus : (s : Sign) → is_zero s ≡ true → is_minus s ≡ false
zero_not_minus minus e = cc
zero_not_minus zero_sign e = refl
zero_not_minus plus e = refl

module _ (recs : RecordTable) (t : ChunkTable) where
  -- The string of a row at its begin: that of the key of the record for a row of a leaf, and the one
  -- at the RID itself for a row of an inner node.
  pub data Opens (s : Tables recs t) (rid : Rid) (leaf : ℕ) : StringRecord → Type 0 where
    of_string :
        (c : StringChunk)
        → (leaf == 0) ≡ true
        → t.table_read s.tbl_str rid ≡ some c
        → Opens s rid leaf (record { chunk = c; idx = 0 })
    of_record :
        (r : Record) (c : StringChunk)
        → (leaf == 0) ≡ false
        → recs.table_read s.tbl_rec rid ≡ some r
        → t.table_read s.tbl_str r.key ≡ some c
        → Opens s rid leaf (record { chunk = c; idx = 0 })

  row_string-Opens :
      (s : Tables recs t) (rid : Rid) (leaf : ℕ) (r : StringRecord)
      → Opens s rid leaf r
      → row_string recs t s rid leaf ≡ some r
  unfolding row_string read_record read_string
  row_string-Opens s rid leaf r (of_string c inner at) = rw (inner, row_string, at) refl
  row_string-Opens s rid leaf r (of_record row c is_leaf filed at) =
      rw (is_leaf, row_string, filed, at) refl

  Opens-leaf :
      (s : Tables recs t) (rid : Rid) (m n : ℕ) (r : StringRecord)
      → (m == 0) ≡ false
      → (n == 0) ≡ false
      → Opens s rid m r
      → Opens s rid n r
  Opens-leaf s rid m n r em en (of_string c inner at) = let h : false ≡ true = sym em ∙ inner in cc
  Opens-leaf s rid m n r em en (of_record row c is_leaf filed at) = of_record row c en filed at

  -- The row stands for the key `xs`, a string of bytes.
  pub record Spells (s : Tables recs t) (rid : Rid) (leaf : ℕ) (xs : List ℕ) : Type 0 where
    pub of_row : StringRecord
    pub opens : Opens s rid leaf of_row
    pub reads : Reads t s.tbl_str of_row xs
    pub bytes : All IsByte xs

  -- The flags of two leaves give the same row.
  pub Spells-leaf :
      (s : Tables recs t) (rid : Rid) (m n : ℕ) (xs : List ℕ)
      → (m == 0) ≡ false
      → (n == 0) ≡ false
      → Spells s rid m xs
      → Spells s rid n xs
  Spells-leaf s rid m n xs em en d = record {
    of_row = d.of_row;
    opens = Opens-leaf s rid m n d.of_row em en d.opens;
    reads = d.reads;
    bytes = d.bytes;
  }

  -- On any tables of records and of strings, for two rows, of records or of the strings themselves, that
  -- stand for keys of bytes, and with more fuel than the first key has characters, the comparison of
  -- the rows is the lexicographic order of the keys by their signed chars.
  pub rid_row_row_cmp-lex :
      (fuel : ℕ) (s : Tables recs t) (a b : Rid) (aleaf bleaf : ℕ) (xs ys : List ℕ)
      → length xs < fuel
      → Spells s a aleaf xs
      → Spells s b bleaf ys
      → rid_row_row_cmp recs t fuel s a b aleaf bleaf ≡ some (lex xs ys)
  unfolding rid_row_row_cmp
  rid_row_row_cmp-lex fuel s a b aleaf bleaf xs ys lt da db =
      rw
        (
          row_string-Opens s a aleaf da.of_row da.opens,
          row_string-Opens s b bleaf db.of_row db.opens,
        )
        (compare_string_record-lex t s.tbl_str fuel da.of_row db.of_row xs ys lt da.reads db.reads
          da.bytes db.bytes)
