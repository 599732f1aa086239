-- ===== src/HashMap/LowerBound.antt =====
-- The size that hash_table_pop_lower_bound of src/hash_map.c takes its page from.
use simple_redis_database.Common.{
  ℕ, zero, suc, ◌+◌, ◌-◌, ◌*◌, ◌/◌, ◌%◌, ◌^◌, ◌<◌, ◌≤◌, ◌≡◌, refl, sym, ap, ◌∙◌, inl, inr, Option,
  none, some, List, ◌==◌, if◌then◌else◌, get_elem?, Bool-cases, Option-cases, arith, ==→eq, eq→==,
  ne→==, false,
}
use mathlib.Core.Path.{fun_ext}
use simple_redis_database.FileIo.{minus_one, page_size}
use simple_redis_database.Common.Run.{update, and_then, ◌>>=◌, pure, entry}
use simple_redis_database.PageStore.{pin_page, release_page}
use simple_redis_database.HashMap.{
  dir_block_size, ControlBlock, HashMapPage, MapBlock, control, directory, block, read_block,
  Action, read_control, read_directory, dir_addr, HashMapPages,
}
use simple_redis_database.HashMap.PopLowerBound.{
  scan_directory, scan_directories, take_last, hash_table_pop_lower_bound,
}

-- The map that the directories stand for: `heads k` is the first block of size `k`, or -1.
pub record IsDirectory (s : HashMapPages) (ctrl : ControlBlock) (heads : ℕ → ℕ) : Type 0 where
  pub at_control : s.page 0 ≡ some (control ctrl)
  pub few : ctrl.n_directory_blocks < 2 ^ 31
  pub at_head :
      (q j : ℕ)
      → q < ctrl.n_directory_blocks
      → j < 16
      → (dir : List ℕ) × ((s.page ((q + 1) * 128) ≡ some (directory dir))
          × (get_elem? dir j ≡ some (heads (q * 16 + j))))

-- The first of the `n` sizes from `k` on that has a page.
unfoldable pub first_size : (ℕ → ℕ) → ℕ → ℕ → Option ℕ
first_size heads k zero = none
first_size heads k (suc n) =
    let rest = first_size heads (k + 1) n in if heads k == minus_one then rest else some k

-- The last page of size `k` is taken.
unfoldable pub take_size : (ℕ → ℕ) → ℕ → Action ℕ
take_size heads k = do
  _ ← pin_page (dir_addr k)
  take_last (dir_addr k) (k % dir_block_size) (heads k)

unfoldable take_found : (ℕ → ℕ) → Option ℕ → Action (Option ℕ)
unfolding take_size
take_found heads none = pure none
take_found heads (some k) = do ans ← take_size heads k; pure (some ans)

abbrev pub pinned : ℕ → HashMapPages → HashMapPages
pinned a s = record s { pins = update s.pins a (s.pins a + 1) }

pub pin_page_lem :
    (a : ℕ) (s : HashMapPages) (p : HashMapPage)
    → s.page a ≡ some p
    → pin_page a s ≡ some (tt, pinned a s)
unfolding pin_page
pin_page_lem a s p e = rw (e, pin_page) refl

pub read_directory_lem :
    (a : ℕ) (s : HashMapPages) (d : List ℕ)
    → s.page a ≡ some (directory d)
    → read_directory a s ≡ some (d, s)
unfolding read_directory
read_directory_lem a s d e = rw (e, read_directory) refl

pub read_control_lem :
    (s : HashMapPages) (c : ControlBlock)
    → s.page 0 ≡ some (control c)
    → read_control s ≡ some (c, s)
unfolding read_control
read_control_lem s c e = rw (e, read_control) refl

pub read_block_lem :
    (a : ℕ) (s : HashMapPages) (b : MapBlock)
    → s.page a ≡ some (block b)
    → read_block a s ≡ some (b, s)
unfolding read_block
read_block_lem a s b e = rw (e, read_block) refl

pub entry_lem :
    (xs : List ℕ) (i x : ℕ) (s : HashMapPages)
    → get_elem? xs i ≡ some x
    → entry xs i s ≡ some (x, s)
unfolding entry
entry_lem xs i x s e = rw (e, entry) refl

pub unpin :
    (f : ℕ → ℕ) (a b : ℕ) → update (update f a (f a + 1)) a (update f a (f a + 1) a - 1) b ≡ f b
unpin f a b = elim (Bool-cases (b == a)) [
  | inl same ↦ let e = ==→eq b a same in rw (e, eq→== a a refl) (omega arith)
  | inr other ↦ rw (other) refl
]

pub release_page_lem : (a : ℕ) (s : HashMapPages) → release_page a (pinned a s) ≡ some (tt, s)
unfolding release_page
release_page_lem a s = ap (λ f. some (tt, record s { pins = f })) (fun_ext (unpin s.pins a))

module _ {s : HashMapPages} {ctrl : ControlBlock} {heads : ℕ → ℕ}
    (is : IsDirectory s ctrl heads) where
  scan_directory_lem :
      (n q j : ℕ)
      → q < ctrl.n_directory_blocks
      → j + n ≤ 16
      → scan_directory n ((q + 1) * 128) j s ≡ take_found heads (first_size heads (q * 16 + j) n) s
  unfolding scan_directory take_found take_size first_size
  scan_directory_lem zero q j lt le = refl
  scan_directory_lem (suc n) q j lt le =
      let d = (q + 1) * 128 in
      let (dir, (at, here)) = is.at_head q j lt (omega arith) in
      let pin = pin_page_lem d s (directory dir) at in
      let read = read_directory_lem d (pinned d s) dir at in
      let found = entry_lem dir j (heads (q * 16 + j)) (pinned d s) here in
      let next : (j : ℕ) → q * 16 + (j + 1) ≡ q * 16 + j + 1 = λ j. omega arith in
      let here_is : dir_addr (q * 16 + j) ≡ d = omega arith in
      let place : (q * 16 + j) % dir_block_size ≡ j = omega arith in
      elim (Bool-cases (heads (q * 16 + j) == minus_one)) [
        | inl empty ↦
            rw (pin, read, found, empty, release_page_lem d s)
              (rw (sym (next j)) (scan_directory_lem n q (j + 1) lt (omega arith)))
        | inr full ↦ rw (pin, read, found, full, here_is, place, pin) refl
      ]

first_size-none :
    (heads : ℕ → ℕ) (k a b : ℕ)
    → first_size heads k a ≡ none
    → first_size heads k (a + b) ≡ first_size heads (k + a) b
unfolding first_size
first_size-none heads k zero b none_before =
    let same : k ≡ k + 0 = omega arith in
    let all : 0 + b ≡ b = omega arith in rw (all) (ap (λ i. first_size heads i b) same)
first_size-none heads k (suc a) b none_before = elim (Bool-cases (heads k == minus_one)) [
  | inl empty ↦
      let rest = first_size-none heads (k + 1) a b (rw (empty) at none_before) in
      let same : k + 1 + a ≡ k + suc a = omega arith in
      let all : suc a + b ≡ suc (a + b) = omega arith in
      rw (all, empty) (rest ∙ ap (λ i. first_size heads i b) same)
  | inr full ↦ (let h : some k ≡ none = rw (full) at none_before in cc)
]

first_size-some :
    (heads : ℕ → ℕ) (k a b : ℕ) {i : ℕ}
    → first_size heads k a ≡ some i
    → first_size heads k (a + b) ≡ some i
unfolding first_size
first_size-some heads k zero b found = cc
first_size-some heads k (suc a) b found =
    let all : suc a + b ≡ suc (a + b) = omega arith in
    elim (Bool-cases (heads k == minus_one)) [
      | inl empty ↦ rw (all, empty) (first_size-some heads (k + 1) a b (rw (empty) at found))
      | inr full ↦ rw (all, full) (rw (full) at found)
    ]

-- A page that was taken passes the tests of the outer loop.
pass_found :
    (heads : ℕ → ℕ) (k : ℕ) (rest : Action (Option ℕ)) (s : HashMapPages)
    → and_then
        (take_found heads (some k) s)
        (λ found. elim found [ some ans ↦ pure (some ans) | none ↦ rest ])
      ≡ take_found heads (some k) s
unfolding take_found
pass_found heads k rest s = elim (Option-cases (take_size heads k s)) [
  | inl lost ↦ rw (lost) refl
  | inr (r, taken) ↦ rw (taken) refl
]

module _ {s : HashMapPages} {ctrl : ControlBlock} {heads : ℕ → ℕ}
    (is : IsDirectory s ctrl heads) where
  scan_directories_lem :
      (n i q j : ℕ)
      → i + n < 2 ^ 31
      → q + n ≤ ctrl.n_directory_blocks
      → j < 16
      → scan_directories n i ((q + 1) * 128) j s
        ≡ take_found heads (first_size heads (q * 16 + j) (n * 16 - j)) s
  unfolding scan_directories take_found first_size
  scan_directories_lem zero i q j count le lt =
      let nothing : 0 * 16 - j ≡ 0 = omega arith in rw (nothing) refl
  scan_directories_lem (suc n) i q j count le lt =
      let split : suc n * 16 - j ≡ (16 - j) + n * 16 = omega arith in
      let first = scan_directory_lem is (16 - j) q j (omega arith) (omega arith) in
      elim (Option-cases (first_size heads (q * 16 + j) (16 - j))) [
        | inl skipped ↦
            let step : (q + 1) * 128 + page_size ≡ (q + 1 + 1) * 128 = omega arith in
            let from : q * 16 + j + (16 - j) ≡ (q + 1) * 16 + 0 = omega arith in
            let all : n * 16 ≡ n * 16 - 0 = omega arith in
            let more : (i == 2 ^ 31 - 1) ≡ false = ne→== _ _ (omega arith) in
            rw
              (
                first,
                skipped,
                more,
                step,
                split,
                first_size-none heads (q * 16 + j) (16 - j) (n * 16) skipped,
                from,
                all,
              )
              (scan_directories_lem n (i + 1) (q + 1) 0 (omega arith) (omega arith) (omega arith))
        | inr (k, here) ↦
            rw (first, here, split, first_size-some heads (q * 16 + j) (16 - j) (n * 16) here)
              (pass_found heads k _ s)
      ]

-- What a lookup does with the size that it found.
unfoldable pub pop_size : (ℕ → ℕ) → Option ℕ → Action ℕ
unfolding take_size
pop_size heads none = pure minus_one
pop_size heads (some k) = do _ ← pin_page 0; ans ← take_size heads k; _ ← release_page 0; pure ans

-- The end of hash_table_pop_lower_bound after a page was taken.
return_found :
    (heads : ℕ → ℕ) (k : ℕ) (s : HashMapPages)
    → and_then (take_found heads (some k) s) (λ found.
      release_page 0 >>= λ _. elim found [ some ans ↦ pure ans | none ↦ pure minus_one ])
      ≡ (take_size heads k >>= λ ans. release_page 0 >>= λ _. pure ans) s
unfolding take_found release_page
return_found heads k s = elim (Option-cases (take_size heads k s)) [
  | inl lost ↦ rw (lost) refl
  | inr (r, taken) ↦ rw (taken) refl
]

-- What is taken is what take_size takes from the first size, from the size asked for on, that has a
-- page.
pub hash_table_pop_lower_bound-first_size :
    (s : HashMapPages) (ctrl : ControlBlock) (heads : ℕ → ℕ) (size : ℕ)
    → IsDirectory s ctrl heads
    → size ≤ ctrl.n_directory_blocks * 16
    → hash_table_pop_lower_bound size s
      ≡ pop_size heads (first_size heads size (ctrl.n_directory_blocks * 16 - size)) s
unfolding hash_table_pop_lower_bound pop_size take_found
hash_table_pop_lower_bound-first_size s ctrl heads size is le =
    let pin = pin_page_lem 0 s (control ctrl) is.at_control in
    let read = read_control_lem (pinned 0 s) ctrl is.at_control in
    let few = is.few in
    let n = ctrl.n_directory_blocks - size / 16 in
    let is' : IsDirectory (pinned 0 s) ctrl heads = record {
      at_control = is.at_control;
      few = is.few;
      at_head = is.at_head;
    } in
    let rounds : (ctrl.n_directory_blocks + 2 ^ 64 - size / dir_block_size) % 2 ^ 64 ≡ n =
      omega arith in
    let at : size / 16 * 16 + size % 16 ≡ size = omega arith in
    let left : n * 16 - size % 16 ≡ ctrl.n_directory_blocks * 16 - size = omega arith in
    let scan =
      scan_directories_lem is' n 0 (size / 16) (size % 16) (omega arith) (omega arith)
        (omega arith) in
    elim (Option-cases (first_size heads size (ctrl.n_directory_blocks * 16 - size))) [
      | inl skipped ↦ rw (pin, read, rounds, scan, at, left, skipped, release_page_lem 0 s) refl
      | inr (k, here) ↦
          rw (pin, read, rounds, scan, at, left, here, pin) (return_found heads k (pinned 0 s))
    ]
