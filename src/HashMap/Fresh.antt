-- ===== src/HashMap/Fresh.antt =====
-- The pages that hash_table_init of src/hash_map.c writes.
use simple_redis_database.Common.{
  ℕ, zero, suc, ◌+◌, ◌*◌, ◌^◌, ◌<◌, ◌≡◌, refl, sym, ◌∙◌, some, List, ◌==◌, get_elem?, replicate,
  true, arith, eq→==, ne→==,
}
use simple_redis_database.FileIo.{minus_one, page_size}
use simple_redis_database.Common.Run.{update}
use simple_redis_database.PageStore.{append_page, file_length}
use simple_redis_database.HashMap.{
  dir_block_size, ControlBlock, control, directory, write_directories, hash_table_init,
  HashMapPages,
}
use simple_redis_database.HashMap.LowerBound.{IsDirectory}

abbrev empty_directory : List ℕ
empty_directory = replicate dir_block_size minus_one

get_elem?-replicate : (n i a : ℕ) → i < n → get_elem? (replicate n a) i ≡ some a
get_elem?-replicate zero i a lt = absurd (omega arith)
get_elem?-replicate (suc n) zero a lt = refl
get_elem?-replicate (suc n) (suc i) a lt = get_elem?-replicate n i a (omega arith)

-- `n` directories stand in the pages from `start` on, and the pages before it are those of `s`.
record Written (s s' : HashMapPages) (start n : ℕ) : Type 0 where
  new : (i : ℕ) → i < n → s'.page (start + i * 128) ≡ some (directory empty_directory)
  old : (a : ℕ) → a < start → s'.page a ≡ s.page a

write_directories-Written :
    (n : ℕ) (s : HashMapPages)
    → (s' : HashMapPages) × ((write_directories n s ≡ some (tt, s')) × Written s s' s.length n)
unfolding write_directories append_page
write_directories-Written zero s =
    (s, (refl, record { new = λ i lt. absurd (omega arith); old = λ a lt. refl }))
write_directories-Written (suc n) s =
    let next : HashMapPages = record s {
      page = update s.page s.length (some (directory empty_directory));
      length = s.length + page_size;
    } in
    let (s', (run, w)) = write_directories-Written n next in
    let own : update s.page s.length (some (directory empty_directory)) s.length
        ≡ some (directory empty_directory) =
      rw (eq→== s.length s.length refl) refl in
    let other : (a : ℕ)
        → a < s.length
        → update s.page s.length (some (directory empty_directory)) a ≡ s.page a =
      λ a lt. rw (ne→== a s.length (omega arith)) refl in
    (
      s',
      (
        run,
        record {
          new = λ i lt.
              elim i
                  as (λ i.
                    i < suc n → s'.page (s.length + i * 128) ≡ some (directory empty_directory)) [
                      | zero ↦ λ lt.
                          let here : s.length + 0 * 128 ≡ s.length = omega arith in
                          rw (here) (w.old s.length (omega arith) ∙ own)
                      | suc i ↦ λ lt.
                          let there : s.length + suc i * 128 ≡ s.length + page_size + i * 128 =
                            omega arith in
                          rw (there) (w.new i (omega arith))
                    ]
                lt;
          old = λ a lt. w.old a (omega arith) ∙ other a lt;
        },
      ),
    )

-- On an empty file and for fewer than 2^31 directories, hash_table_init succeeds, and the pages
-- are a map in which no size has a page.
hash_table_init-IsDirectory :
    (n : ℕ) (s : HashMapPages)
    → s.length ≡ 0
    → n < 2 ^ 31
    → (s' : HashMapPages) × ((hash_table_init n s ≡ some (tt, s'))
        × IsDirectory s'
            (record {
              free_block_head = minus_one;
              n_directory_blocks = n;
              max_size = n * dir_block_size;
            })
            (λ k. minus_one))
unfolding hash_table_init append_page file_length
hash_table_init-IsDirectory n s fresh few =
    let ctrl : ControlBlock = record {
      free_block_head = minus_one;
      n_directory_blocks = n;
      max_size = n * dir_block_size;
    } in
    let first : HashMapPages = record s {
      page = update s.page s.length (some (control ctrl));
      length = s.length + page_size;
    } in
    let (s', (run, w)) = write_directories-Written n first in
    let is_new : (s.length == 0) ≡ true = eq→== s.length 0 fresh in
    let own : update s.page s.length (some (control ctrl)) 0 ≡ some (control ctrl) =
      rw (eq→== 0 s.length (sym fresh)) refl in
    (
      s',
      (
        rw (is_new) run,
        record {
          at_control = w.old 0 (omega arith) ∙ own;
          few = few;
          at_head = λ q j lt small.
              let here : (q + 1) * 128 ≡ s.length + page_size + q * 128 = omega arith in
              (empty_directory, (rw (here) (w.new q lt), get_elem?-replicate 16 j minus_one small));
        },
      ),
    )
