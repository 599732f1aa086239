-- ===== src/FileIo/Tests.antt =====
-- src/file_io.c at concrete inputs.
use simple_redis_database.Common.{
  ℕ, ◌*◌, ◌≡◌, refl, ◌==◌, false, some, List, [], ◌∷◌, get_elem?, if◌then◌else◌, arith,
}
use simple_redis_database.FileIo.{
  page_size, minus_one, FileInfo, read_page, write_page, file_io_success, invalid_addr,
  addr_out_of_range,
}
use simple_redis_database.FileIo.Pages.{IsOpen, read_page-write_page}

abbrev pages : List ℕ
pages = 10 ∷ 20 ∷ 30 ∷ []

abbrev file : FileInfo ℕ
file = record { fp = some (record { pages = pages; tail = 0; broken = false }); length = 384 }

file-IsOpen : IsOpen file pages
file-IsOpen = record { fp = refl; size = refl; small = omega arith }

reads : read_page 0 file 256 ≡ some (file_io_success, 30)
unfolding read_page
reads = refl

refuses :
    (read_page 0 file 100 ≡ some (invalid_addr, 0))
    × (read_page 0 file 384 ≡ some (addr_out_of_range, 0))
    × (write_page 5 file minus_one ≡ some (invalid_addr, file))
unfolding read_page write_page
refuses = (refl, refl, refl)

read_page-write_page_example :
    (file' : FileInfo ℕ) × (write_page 99 file (page_size * 1) ≡ some (file_io_success, file'))
    × ((m : ℕ) (old buffer : ℕ)
        → get_elem? pages m ≡ some old
        → read_page buffer file' (page_size * m)
          ≡ some (file_io_success, if 1 == m then 99 else old))
read_page-write_page_example = read_page-write_page 99 1 file-IsOpen (omega arith)
