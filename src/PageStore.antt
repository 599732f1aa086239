-- ===== src/PageStore.antt =====
-- The pages of one file as a buffer pool shows them: what src/hash_map.c, src/b_tree.c and
-- src/table.c see of src/buffer_pool.c and src/file_io.c.
--
-- A page is the struct that the code casts it to. `Pages` holds the contents of every page by its
-- address, the length of the file, and the pins of each page; get_page of an address without a page
-- is the result `none`. A struct is read and written at the address of its page.
use simple_redis_database.Common.{ℕ, ◌+◌, ◌-◌, Option, none, some}
use simple_redis_database.Common.Run.{Run, update}
use simple_redis_database.FileIo.{page_size}

pub record Pages (P : Type 0) : Type 0 where
  pub page : ℕ → Option P
  pub length : ℕ
  pub pins : ℕ → ℕ

module _ {P : Type 0} where
  unfoldable pub pin_page : ℕ → Run (Pages P) (Unit {0})
  pin_page addr s = elim (s.page addr) [
    | none ↦ none
    | some _ ↦ some (tt, record s { pins = update s.pins addr (s.pins addr + 1) })
  ]

  unfoldable pub release_page : ℕ → Run (Pages P) (Unit {0})
  release_page addr s = some (tt, record s { pins = update s.pins addr (s.pins addr - 1) })

  -- The struct in a page.
  unfoldable pub load : ℕ → Run (Pages P) P
  load addr s = elim (s.page addr) [ none ↦ none | some p ↦ some (p, s) ]

  unfoldable pub store : ℕ → P → Run (Pages P) (Unit {0})
  store addr page s = some (tt, record s { page = update s.page addr (some page) })

  unfoldable pub file_length : Run (Pages P) ℕ
  file_length s = some (s.length, s)

  -- write_page at the end of the file.
  unfoldable pub append_page : P → Run (Pages P) (Unit {0})
  append_page page s =
      some
        (tt, record s { page = update s.page s.length (some page); length = s.length + page_size })
