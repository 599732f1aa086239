-- ===== src/FileIo.antt =====
-- include/file_io.h and src/file_io.c: page-sized reads and writes on a file.
--
-- An off_t is its 64-bit two's complement pattern, so -1 is `minus_one` and `addr < 0` tests the
-- sign bit; `addr & PAGE_MASK` is `addr % page_size`, PAGE_SIZE being a power of two. `Stream` is
-- the C library's file: whole pages, `tail` bytes behind the last of them, and `broken` for a
-- stream on which fseek, fread and fwrite fail. The result `none` is a call through a NULL `fp`.
-- A `struct Page` is a value of the type parameter, the struct that the caller keeps in its pages.
pub mod Pages
mod Tests
use simple_redis_database.Common.{
  ℕ, ◌+◌, ◌-◌, ◌*◌, ◌/◌, ◌%◌, ◌^◌, Bool, ◌||◌, Option, none, some, List, [], ◌∷◌, ◌++◌, leb, ltb,
  ◌==◌, if◌then◌else◌, ◌>>=◌, length, get_elem?, set,
}

abbrev pub page_size : ℕ
page_size = 128

abbrev pub minus_one : ℕ
minus_one = 2 ^ 64 - 1

abbrev pub is_negative : ℕ → Bool
is_negative addr = leb (2 ^ 63) addr

pub data FileIoResult : Type 0 where
  file_io_success file_io_failed invalid_len invalid_addr addr_out_of_range : FileIoResult

pub record Stream (P : Type 0) : Type 0 where
  pub pages : List P
  pub tail : ℕ
  pub broken : Bool

pub record FileInfo (P : Type 0) : Type 0 where
  pub fp : Option (Stream P)
  pub length : ℕ

module _ {P : Type 0} where
  unfoldable pub close_file : FileInfo P → FileIoResult × FileInfo P
  close_file file = (file_io_success, record { fp = none; length = 0 })

  -- fseek to the end, ftell, and the check of the length
  abbrev seek_end : Stream P → FileInfo P → FileIoResult × FileInfo P
  unfolding close_file
  seek_end s file =
      if s.broken
      then (file_io_failed, record file { fp = some s })
      else (let bytes = page_size * length s.pages + s.tail in
          let opened : FileInfo P = record { fp = some s; length = bytes } in
          if bytes % page_size == 0
          then (file_io_success, opened)
          else (invalid_len, (close_file opened).1))

  -- The streams that `fopen` returns in mode "rb+" and then in mode "wb+" are arguments.
  unfoldable pub open_file :
      (existing created : Option (Stream P)) → FileInfo P → FileIoResult × FileInfo P
  unfolding seek_end
  open_file (some s) created file = seek_end s file
  open_file none (some s) file = seek_end s file
  open_file none none file = (file_io_failed, record file { fp = none })

  -- The page that a result comes with is what `*page` holds afterwards.
  abbrev fread : P → ℕ → Stream P → Option (FileIoResult × P)
  fread page n s = if s.broken then some (file_io_failed, page) else elim (get_elem? s.pages n) [
    | none ↦ some (file_io_failed, page)
    | some p ↦ some (file_io_success, p)
  ]

  unfoldable pub read_page : P → FileInfo P → ℕ → Option (FileIoResult × P)
  read_page page file addr =
      if addr % page_size == 0
      then (if is_negative addr || leb file.length addr
          then some (addr_out_of_range, page)
          else file.fp >>= fread page (addr / page_size))
      else some (invalid_addr, page)

  -- The page at an offset is replaced, or appended at the end of the file.
  abbrev overwrite : P → ℕ → List P → List P
  overwrite page n pages = if n == length pages then pages ++ page ∷ [] else set pages n page

  abbrev fwrite : P → ℕ → FileInfo P → Stream P → Option (FileIoResult × FileInfo P)
  fwrite page addr file s =
      if s.broken
      then some (file_io_failed, file)
      else some (
        file_io_success,
        record {
          fp = some (record s { pages = overwrite page (addr / page_size) s.pages });
          length = if addr == file.length then file.length + page_size else file.length;
        },
      )

  unfoldable pub write_page : P → FileInfo P → ℕ → Option (FileIoResult × FileInfo P)
  write_page page file addr =
      if addr % page_size == 0
      then (if is_negative addr || ltb file.length addr
          then some (addr_out_of_range, file)
          else file.fp >>= fwrite page addr file)
      else some (invalid_addr, file)
