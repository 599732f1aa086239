-- ===== src/HashMap/Chain.antt =====
-- hash_table_insert of src/hash_map.c into a chain: where the address goes.
use simple_redis_database.Common.{
  ℕ, zero, suc, ◌+◌, ◌-◌, ◌*◌, ◌/◌, ◌%◌, ◌<◌, ◌≡◌, refl, ap, ◌∙◌, Option, none, some, ◌==◌, true,
  false, set, get_elem?, length, ltb, lt→ltb, ne→==, arith,
}
use simple_redis_database.FileIo.{minus_one}
use simple_redis_database.Common.Run.{update}
use simple_redis_database.PageStore.{release_page, store}
use simple_redis_database.HashMap.{
  dir_block_size, block_size, ControlBlock, MapBlock, HashMapPage, HashMapPages, control, directory,
  block, dir_addr,
}
use simple_redis_database.HashMap.Insert.{release_temp, insert_chain, hash_table_insert}
use simple_redis_database.HashMap.LowerBound.{
  IsDirectory, pinned, pin_page_lem, read_directory_lem, read_control_lem, entry_lem,
  read_block_lem, release_page_lem,
}

-- From the block at `at`, behind `n` full blocks, the chain has a block with room at `last`.
pub data Room (page : ℕ → Option HashMapPage) : ℕ → ℕ → ℕ → MapBlock → Type 0 where
  room :
      (at : ℕ) (b : MapBlock)
      → page at ≡ some (block b)
      → b.n_items < block_size
      → length b.table ≡ block_size
      → Room page 0 at at b
  full :
      (n at last : ℕ) (b c : MapBlock)
      → page at ≡ some (block c)
      → (c.n_items == block_size) ≡ true
      → (c.next == minus_one) ≡ false
      → Room page n c.next last b
      → Room page (suc n) at last b

-- The pages with the address behind the items of a block.
abbrev pub added : ℕ → MapBlock → ℕ → HashMapPages → HashMapPages
added last b addr s = record s {
  page =
      update s.page last
        (some (block (record b { n_items = b.n_items + 1; table = set b.table b.n_items addr })));
}

store_lem :
    (last : ℕ) (b : MapBlock) (addr : ℕ) (s : HashMapPages)
    → store last
        (block (record b { n_items = b.n_items + 1; table = set b.table b.n_items addr }))
        s
      ≡ some (tt, added last b addr s)
unfolding store
store_lem last b addr s = refl

first_block :
    {page : ℕ → Option HashMapPage} (n at last : ℕ) (b : MapBlock)
    → Room page n at last b
    → (p : HashMapPage) × (page at ≡ some p)
first_block n at last b (room at' b' e r whole) = (block b, e)
first_block n at last b (full m at' last' b' c e f more rest) = (block c, e)

-- The pages after the release of `temp`.
abbrev released : Option ℕ → HashMapPages → HashMapPages
released none s = s
released (some temp) s = record s { pins = update s.pins temp (s.pins temp - 1) }

release_temp_lem :
    (temp : Option ℕ) (s : HashMapPages) → release_temp temp s ≡ some (tt, released temp s)
unfolding release_page
release_temp_lem none s = refl
release_temp_lem (some temp) s = refl

abbrev ends : HashMapPages → Option (Unit {0} × HashMapPages)
ends s = some (tt, s)

unpinned : (a : ℕ) (s : HashMapPages) → ends (released (some a) (pinned a s)) ≡ ends s
unfolding release_page
unpinned a s = release_page_lem a s

insert_chain_lem :
    (fuel n at last addr : ℕ) (b : MapBlock) (temp : Option ℕ) (s : HashMapPages)
    → Room s.page n at last b
    → n < fuel
    → insert_chain fuel at temp addr s ≡ some (tt, released temp (added last b addr s))
unfolding insert_chain
insert_chain_lem zero n at last addr b temp s chain lt = absurd (omega arith)
insert_chain_lem (suc fuel) n at last addr b temp s (room at' b' e r whole) lt =
    let below : (b.n_items == block_size) ≡ false = ne→== _ _ (omega arith) in
    let fits : ltb b.n_items block_size ≡ true = lt→ltb _ _ r in
    rw (read_block_lem at s b e, below, fits, store_lem at b addr s)
      (release_temp_lem temp (added at b addr s))
insert_chain_lem (suc fuel) n at last addr b none s (full m at' last' b' c e f more rest) lt =
    let (p, there) = first_block m c.next last b rest in
    let next =
      insert_chain_lem fuel m c.next last addr b (some c.next) (pinned c.next s) rest
        (omega arith) in
    rw (read_block_lem at s c e, f, more, pin_page_lem c.next s p there, next)
      (unpinned c.next (added last b addr s))
insert_chain_lem (suc fuel) n at last addr b (some temp) s (full m at' last' b' c e f more rest)
      lt =
    let s' = released (some temp) s in
    let (p, there) = first_block m c.next last b rest in
    let next =
      insert_chain_lem fuel m c.next last addr b (some c.next) (pinned c.next s') rest
        (omega arith) in
    rw
      (
        read_block_lem at s c e,
        f,
        release_temp_lem (some temp) s,
        more,
        pin_page_lem c.next s' p there,
        next,
      )
      (unpinned c.next (added last b addr s'))

-- On pages that hold a map, for a size with a chain in which a block with room stands behind `n` full
-- ones, and with more fuel than these, hash_table_insert ends: the address stands behind the items of
-- that block, and every other page, the length of the file and the pins are as before.
pub hash_table_insert-added :
    (fuel n size addr last : ℕ) (b : MapBlock) (s : HashMapPages) (ctrl : ControlBlock)
    (heads : ℕ → ℕ)
    → IsDirectory s ctrl heads
    → size < ctrl.n_directory_blocks * 16
    → (heads size == minus_one) ≡ false
    → Room s.page n (heads size) last b
    → n < fuel
    → hash_table_insert fuel size addr s ≡ some (tt, added last b addr s)
unfolding hash_table_insert
hash_table_insert-added fuel n size addr last b s ctrl heads is small used chain lt =
    let d = dir_addr size in
    let (dir, (at, here)) = is.at_head (size / 16) (size % 16) (omega arith) (omega arith) in
    let whole : size / 16 * 16 + size % 16 ≡ size = omega arith in
    let there : get_elem? dir (size % dir_block_size) ≡ some (heads size) =
      here ∙ ap (λ k. some (heads k)) whole in
    let place : (size / 16 + 1) * 128 ≡ d = refl in
    let s0 = pinned 0 s in
    let (p, first) = first_block n (heads size) last b chain in
    let run =
      insert_chain_lem fuel n (heads size) last addr b none (pinned (heads size) s0) chain lt in
    rw
      (
        pin_page_lem 0 s (control ctrl) is.at_control,
        pin_page_lem d s0 (directory dir) at,
        read_directory_lem d (pinned d s0) dir at,
        entry_lem dir (size % dir_block_size) (heads size) (pinned d s0) there,
        release_page_lem d s0,
        read_control_lem s0 ctrl is.at_control,
        used,
        pin_page_lem (heads size) s0 p first,
        run,
        release_page_lem (heads size) (added last b addr s0),
      )
      (release_page_lem 0 (added last b addr s))
