-- ===== src/HashMap/Taken.antt =====
-- What hash_table_pop_lower_bound of src/hash_map.c takes, and the pages of the map behind it.
use simple_redis_database.Common.{
  ℕ, zero, suc, ◌+◌, ◌-◌, ◌*◌, ◌/◌, ◌%◌, ◌<◌, ◌≤◌, ◌≡◌, ◌≢◌, refl, sym, ap, subst, ◌∙◌, ◌⊎◌, inl,
  inr, none, some, false, List, length, ◌==◌, if◌then◌else◌, get_elem?, get_elem?_of_lt, set,
  Bool-cases, Option-cases, ne→==, arith,
}
use simple_redis_database.FileIo.{minus_one}
use simple_redis_database.Common.Run.{update, update_other, ◌>>=◌, pure}
use simple_redis_database.PageStore.{store, release_page}
use simple_redis_database.HashMap.{
  dir_block_size, block_size, ControlBlock, MapBlock, HashMapPages, control, directory, block,
  dir_addr, free_block,
}
use simple_redis_database.HashMap.PopLowerBound.{take_last, hash_table_pop_lower_bound}
use simple_redis_database.HashMap.LowerBound.{
  IsDirectory, first_size, take_size, pop_size, pinned, pin_page_lem, read_directory_lem,
  read_control_lem, read_block_lem, entry_lem, release_page_lem,
  hash_table_pop_lower_bound-first_size,
}

-- The first block of each size that has one holds at least one page, and no more than fit.
pub record HasHeads (s : HashMapPages) (ctrl : ControlBlock) (heads : ℕ → ℕ) : Type 0 where
  pub head_block :
      (k : ℕ)
      → k < ctrl.n_directory_blocks * 16
      → (heads k == minus_one) ≡ false
      → (b : MapBlock) × (s.page (heads k) ≡ some (block b))
        × (0 < b.n_items)
        × (b.n_items ≤ block_size)
        × (length b.table ≡ block_size)

-- A block without its last page.
abbrev pub shortened : MapBlock → MapBlock
shortened b = record b { n_items = b.n_items - 1; table = set b.table (b.n_items - 1) minus_one }

-- The pages behind the removal from the block `b` at `a`, the first one of entry `j` of the directory
-- `dir` at `d`: a block that is empty then leaves the chain for the front of the free list.
abbrev pub taken : ℕ → ℕ → ℕ → MapBlock → List ℕ → ControlBlock → HashMapPages → HashMapPages
taken d j a b dir ctrl s = record s {
  page =
      if b.n_items - 1 == 0
      then update
          (update
            (update (update s.page a (some (block (shortened b)))) d
              (some (directory (set dir j b.next))))
            a (some (block (record (shortened b) { next = ctrl.free_block_head }))))
          0 (some (control (record ctrl { free_block_head = a })))
      else update s.page a (some (block (shortened b)));
}

module _ (d j a x : ℕ) (b : MapBlock) (dir : List ℕ) (ctrl : ControlBlock) (s : HashMapPages)
    (at_ctrl : s.page 0 ≡ some (control ctrl)) (at_dir : s.page d ≡ some (directory dir))
    (at_block : s.page a ≡ some (block b)) (used : 0 < b.n_items)
    (last : get_elem? b.table (b.n_items - 1) ≡ some x) where
  dir_ne : d ≢ a
  dir_ne e =
      let h : some (directory dir) ≡ some (block b) = sym at_dir ∙ ap s.page e ∙ at_block in cc

  control_ne : 0 ≢ a
  control_ne e =
      let h : some (control ctrl) ≡ some (block b) = sym at_ctrl ∙ ap s.page e ∙ at_block in cc

  control_ne_dir : 0 ≢ d
  control_ne_dir e =
      let h : some (control ctrl) ≡ some (directory dir) = sym at_ctrl ∙ ap s.page e ∙ at_dir in cc

  releases :
      (s' : HashMapPages)
      → (release_page a >>= λ _. release_page d >>= λ _. pure x) (pinned a (pinned d s'))
        ≡ some (x, s')
  releases s' = rw (release_page_lem a (pinned d s'), release_page_lem d s') refl

  -- take_last takes the last page of the block.
  take_last_lem : take_last d j a (pinned d s) ≡ some (x, taken d j a b dir ctrl s)
  unfolding take_last store free_block
  take_last_lem =
      let some_left : (b.n_items == 0) ≡ false = ne→== _ _ (omega arith) in
      let s1 = pinned a (pinned d s) in
      let p1 = update s.page a (some (block (shortened b))) in
      let s2 : HashMapPages = record s1 { page = p1 } in
      let p2 = update p1 d (some (directory (set dir j b.next))) in
      let s3 : HashMapPages = record s1 { page = p2 } in
      let dir_there : p1 d ≡ some (directory dir) = update_other s.page a _ d dir_ne ∙ at_dir in
      let ctrl_there : p2 0 ≡ some (control ctrl) =
        update_other p1 d _ 0 control_ne_dir ∙ update_other s.page a _ 0 control_ne ∙ at_ctrl in
      let start = pin_page_lem a (pinned d s) (block b) at_block in
      let got = entry_lem b.table (b.n_items - 1) x s1 last in
      elim (Bool-cases (b.n_items - 1 == 0)) [
        | inl empty ↦
            rw
              (
                start,
                read_block_lem a s1 b at_block,
                some_left,
                got,
                empty,
                read_directory_lem d s2 dir dir_there,
                read_control_lem s3 ctrl ctrl_there,
              )
              (releases (record s {
                page =
                    update
                      (update p2 a
                        (some (block (record (shortened b) { next = ctrl.free_block_head }))))
                      0 (some (control (record ctrl { free_block_head = a })));
              }))
        | inr more ↦
            rw (start, read_block_lem a s1 b at_block, some_left, got, more)
              (releases (record s { page = p1 }))
      ]

-- The first size with a page is one of the sizes, and has a page.
pub first_size-Bounds :
    (heads : ℕ → ℕ) (k n : ℕ) {i : ℕ}
    → first_size heads k n ≡ some i
    → (k ≤ i) × (i < k + n) × ((heads i == minus_one) ≡ false)
unfolding first_size
first_size-Bounds heads k zero found = cc
first_size-Bounds heads k (suc n) {i} found = elim (Bool-cases (heads k == minus_one)) [
  | inl empty ↦
      let (ge, lt, full) = first_size-Bounds heads (k + 1) n (rw empty at found) in
      (omega arith, omega arith, full)
  | inr full ↦
      let same : some k ≡ some i = rw full at found in
      let e : k ≡ i = cc in
      (omega arith, omega arith, subst (λ j. (heads j == minus_one) ≡ false) e full)
]

-- What is taken from the first size that has a page.
pub hash_table_pop_lower_bound-found :
    (s : HashMapPages) (ctrl : ControlBlock) (heads : ℕ → ℕ) (size k x : ℕ) (b : MapBlock)
    (dir : List ℕ)
    → IsDirectory s ctrl heads
    → size ≤ ctrl.n_directory_blocks * 16
    → first_size heads size (ctrl.n_directory_blocks * 16 - size) ≡ some k
    → s.page (heads k) ≡ some (block b)
    → s.page (dir_addr k) ≡ some (directory dir)
    → 0 < b.n_items
    → get_elem? b.table (b.n_items - 1) ≡ some x
    → hash_table_pop_lower_bound size s
      ≡ some (x, taken (dir_addr k) (k % dir_block_size) (heads k) b dir ctrl s)
unfolding pop_size take_size
hash_table_pop_lower_bound-found s ctrl heads size k x b dir is le here at_block at_dir used last =
    let run = hash_table_pop_lower_bound-first_size s ctrl heads size is le in
    let d = dir_addr k in
    let after = taken d (k % dir_block_size) (heads k) b dir ctrl s in
    let took =
      take_last_lem d (k % dir_block_size) (heads k) x b dir ctrl (pinned 0 s) is.at_control at_dir
        at_block used last in
    run
    ∙ ap (λ o. pop_size heads o s) here
    ∙ rw
        (
          pin_page_lem 0 s (control ctrl) is.at_control,
          pin_page_lem d (pinned 0 s) (directory dir) at_dir,
          took,
          release_page_lem 0 after,
        )
        refl

-- On pages that hold a map of fewer than 2^31 directories, in which the first block of each size holds
-- at least one page, and for a size up to the number of their entries: if no size from the size asked
-- for on has a page, hash_table_pop_lower_bound returns -1 and changes nothing. Otherwise it returns the
-- last page of the first block of the first such size, which that block then no longer holds; if the
-- block is empty then, its size goes on with the next block, and the block is the first free one. No
-- other page, no pin and not the length of the file changes.
pub hash_table_pop_lower_bound-Taken :
    (s : HashMapPages) (ctrl : ControlBlock) (heads : ℕ → ℕ) (size : ℕ)
    → IsDirectory s ctrl heads
    → HasHeads s ctrl heads
    → size ≤ ctrl.n_directory_blocks * 16
    → ((first_size heads size (ctrl.n_directory_blocks * 16 - size) ≡ none)
        × (hash_table_pop_lower_bound size s ≡ some (minus_one, s)))
      ⊎ ((k x : ℕ) × (b : MapBlock) × (dir : List ℕ) × (first_size heads size
              (ctrl.n_directory_blocks * 16 - size)
            ≡ some k)
          × (s.page (heads k) ≡ some (block b))
          × (s.page (dir_addr k) ≡ some (directory dir))
          × (get_elem? b.table (b.n_items - 1) ≡ some x)
          × (hash_table_pop_lower_bound size s
              ≡ some (x, taken (dir_addr k) (k % dir_block_size) (heads k) b dir ctrl s)))
unfolding pop_size
hash_table_pop_lower_bound-Taken s ctrl heads size is has le =
    let n = ctrl.n_directory_blocks * 16 - size in
    elim (Option-cases (first_size heads size n)) [
      | inl skipped ↦ inl (
        skipped,
        hash_table_pop_lower_bound-first_size s ctrl heads size is le
            ∙ ap (λ o. pop_size heads o s) skipped,
      )
      | inr (k, here) ↦
          let (ge, above, full) = first_size-Bounds heads size n here in
          let (b, at_block, used, fits, whole) = has.head_block k (omega arith) full in
          let (dir, (at_dir, entry)) = is.at_head (k / 16) (k % 16) (omega arith) (omega arith) in
          let (x, last) = get_elem?_of_lt b.table (b.n_items - 1) (omega arith) in
          let took =
            hash_table_pop_lower_bound-found s ctrl heads size k x b dir is le here at_block at_dir
              used last in
          inr (k, x, b, dir, here, at_block, at_dir, last, took)
    ]
