-- ===== src/FileIo/Pages.antt =====
-- The file of src/file_io.c as a sequence of pages.
use simple_redis_database.Common.{
  ℕ, ◌+◌, ◌*◌, ◌/◌, ◌%◌, ◌^◌, ◌<◌, ◌≡◌, refl, true, false, ◌||◌, Option, some, List, [], ◌∷◌, ◌++◌,
  arith, length, get_elem?, set, ◌==◌, length-set, length-append, leb, ltb, get_elem?-lt,
  if◌then◌else◌, Bool-cases, inl, inr, ==→eq, ==→ne, sym, ap, ◌∙◌, get_elem?-set_self,
  get_elem?-set_ne,
}
use simple_redis_database.FileIo.{
  page_size, file_io_success, FileInfo, read_page, write_page, is_negative, minus_one, invalid_addr,
  open_file, Stream,
}

-- An open file of whole pages, whose recorded length is the true one and fits an off_t with room
-- for one more page.
pub record IsOpen {P : Type 0} (file : FileInfo P) (pages : List P) : Type 0 where
  pub fp : file.fp ≡ some (record { pages = pages; tail = 0; broken = false })
  pub size : file.length ≡ page_size * length pages
  pub small : page_size * length pages + page_size < 2 ^ 63

-- `addr` is that of page `n`.
abbrev pub At : ℕ → ℕ → Type 0
At addr n = addr ≡ page_size * n

module _ {P : Type 0} where
  pub read_page-IsOpen :
      {file : FileInfo P} {pages : List P} (page p : P) (addr n : ℕ)
      → IsOpen file pages
      → At addr n
      → get_elem? pages n ≡ some p
      → read_page page file addr ≡ some (file_io_success, p)
  unfolding read_page
  read_page-IsOpen {file} {pages} page p addr n o at e =
      let q : addr / page_size ≡ n = omega arith in
      let lt = get_elem?-lt pages n e in
      let m : (addr % page_size == 0) ≡ true = ground arith in
      let r : (is_negative addr || leb file.length addr) ≡ false = ground arith in
      rw (m, r, o.fp, q, e)

  pub write_page-set :
      {file : FileInfo P} {pages : List P} (page : P) (addr n : ℕ)
      → IsOpen file pages
      → At addr n
      → n < length pages
      → (file' : FileInfo P) × (write_page page file addr ≡ some (file_io_success, file'))
        × IsOpen file' (set pages n page)
        × (file'.length ≡ file.length)
  unfolding write_page
  write_page-set {file} {pages} page addr n o at lt =
      let q : addr / page_size ≡ n = omega arith in
      let m : (addr % page_size == 0) ≡ true = ground arith in
      let r : (is_negative addr || ltb file.length addr) ≡ false = ground arith in
      let e1 : (n == length pages) ≡ false = ground arith in
      let e2 : (addr == file.length) ≡ false = ground arith in
      (
        record {
          fp = some (record { pages = set pages n page; tail = 0; broken = false });
          length = file.length;
        },
        rw (m, r, o.fp, q, e1, e2),
        record {
          fp = refl;
          size = omega (arith, o.size, length-set pages n page);
          small = omega (arith, o.small, length-set pages n page);
        },
        refl,
      )

  pub write_page-append :
      {file : FileInfo P} {pages : List P} (page : P)
      → IsOpen file pages
      → page_size * length pages + page_size + page_size < 2 ^ 63
      → (file' : FileInfo P) × (write_page page file file.length ≡ some (file_io_success, file'))
        × IsOpen file' (pages ++ page ∷ [])
        × (file'.length ≡ file.length + page_size)
  unfolding write_page
  write_page-append {file} {pages} page o room =
      let q : file.length / page_size ≡ length pages = omega arith in
      let m : (file.length % page_size == 0) ≡ true = ground arith in
      let r : (is_negative file.length || ltb file.length file.length) ≡ false = ground arith in
      let e1 : (length pages == length pages) ≡ true = ground arith in
      let e2 : (file.length == file.length) ≡ true = ground arith in
      (
        record {
          fp = some (record { pages = pages ++ page ∷ []; tail = 0; broken = false });
          length = file.length + page_size;
        },
        rw (m, r, o.fp, q, e1, e2),
        record {
          fp = refl;
          size = omega (arith, o.size, length-append pages (page ∷ []));
          small = omega (arith, o.small, length-append pages (page ∷ []));
        },
        refl,
      )

  -- The address of an unused slot is refused.
  pub write_page-minus_one :
      (page : P) (file : FileInfo P) → write_page page file minus_one ≡ some (invalid_addr, file)
  unfolding write_page
  write_page-minus_one page file = refl

  pub open_file-IsOpen :
      (pages : List P) (created : Option (Stream P)) (file : FileInfo P)
      → page_size * length pages + page_size < 2 ^ 63
      → IsOpen
          (open_file (some (record { pages = pages; tail = 0; broken = false })) created file).1
          pages
  unfolding open_file
  open_file-IsOpen pages created file small =
      let m : ((page_size * length pages + 0) % page_size == 0) ≡ true = ground arith in
      rw m (record { fp = refl; size = omega arith; small = small })

  -- write_page succeeds on each page of an open file, and from then on read_page gives the new
  -- contents at that address and the old ones at every other page.
  pub read_page-write_page :
      {file : FileInfo P} {pages : List P} (page : P) (n : ℕ)
      → IsOpen file pages
      → n < length pages
      → (file' : FileInfo P) × (write_page page file (page_size * n)
          ≡ some (file_io_success, file'))
        × ((m : ℕ) (old buffer : P)
            → get_elem? pages m ≡ some old
            → read_page buffer file' (page_size * m)
              ≡ some (file_io_success, if n == m then page else old))
  read_page-write_page {pages} page n o lt =
      let (file', written, o', size) = write_page-set page (page_size * n) n o refl lt in
      (
        file',
        written,
        λ m old buffer at. elim (Bool-cases (n == m)) [
          | inl e ↦
              let q = ==→eq n m e in
              rw e (
                read_page-IsOpen buffer page (page_size * m) m o' refl (
                  ap (λ k. get_elem? (set pages n page) k) (sym q)
                  ∙ get_elem?-set_self pages n page lt))
          | inr e ↦ rw e (
              read_page-IsOpen buffer old (page_size * m) m o' refl
                (get_elem?-set_ne pages n m page (==→ne n m e) ∙ at))
        ],
      )
