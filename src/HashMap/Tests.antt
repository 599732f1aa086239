-- ===== src/HashMap/Tests.antt =====
-- The free space map of src/hash_map.c at concrete inputs.
use simple_redis_database.Common.{
  ℕ, zero, suc, ◌+◌, ◌-◌, ◌*◌, ◌%◌, ◌<◌, ◌≤◌, ◌≡◌, ◌⊎◌, refl, sym, subst, length, get_elem?, false,
  Option, none, some, List, ◌∷◌, arith, replicate, ◌==◌, if◌then◌else◌, get_or, get_or_lem,
}
use simple_redis_database.FileIo.{minus_one}
use simple_redis_database.Common.Run.{◌>>=◌, pure, entry}
use simple_redis_database.PageStore.{pin_page, release_page, store, file_length, append_page}
use simple_redis_database.HashMap.{
  Action, hash_table_init, write_directories, ControlBlock, MapBlock, control, directory, block,
  read_control, read_directory, read_block, HashMapPages, dir_addr,
}
use simple_redis_database.HashMap.Insert.{hash_table_insert}
use simple_redis_database.HashMap.Pop.{hash_table_pop}
use simple_redis_database.HashMap.PopLowerBound.{hash_table_pop_lower_bound}
use simple_redis_database.HashMap.Chain.{room, full, added, hash_table_insert-added}
use simple_redis_database.HashMap.LowerBound.{IsDirectory, first_size}
use simple_redis_database.HashMap.Taken.{HasHeads, taken, hash_table_pop_lower_bound-Taken}

abbrev empty : HashMapPages
empty = record { page = λ a. none; length = 0; pins = λ a. 0 }

-- Two pages of size 20 and one of size 5, the last two taken again.
abbrev run : Action (ℕ × (ℕ × ℕ))
run = do
  _ ← hash_table_init 8
  _ ← hash_table_insert 3 20 1024
  _ ← hash_table_insert 3 20 2048
  _ ← hash_table_insert 3 5 4096
  a ← hash_table_pop_lower_bound 6
  _ ← hash_table_pop 3 20 1024
  b ← hash_table_pop_lower_bound 6
  c ← hash_table_pop_lower_bound 0
  pure (a, (b, c))

abbrev value : {A : Type 0} → Option (A × HashMapPages) → Option A
value none = none
value (some (a, s)) = some a

runs : value (run empty) ≡ some (2048, (minus_one, 4096))
unfolding hash_table_init hash_table_insert hash_table_pop hash_table_pop_lower_bound pin_page
    release_page read_control read_directory read_block store file_length append_page entry
    write_directories
runs = refl

-- A map with one directory, in which only the size 5 has a page.
abbrev dir : List ℕ
dir = minus_one ∷ minus_one ∷ minus_one ∷ minus_one ∷ minus_one ∷ 256 ∷ replicate 10 minus_one

abbrev ctrl : ControlBlock
ctrl = record { free_block_head = minus_one; n_directory_blocks = 1; max_size = 16 }

abbrev one_block : MapBlock
one_block = record { next = minus_one; n_items = 1; table = 4096 ∷ replicate 13 minus_one }

abbrev filled : HashMapPages
filled = record {
  page = λ a.
      if a == 0
      then some (control ctrl)
      else if a == 128
      then some (directory dir)
      else if a == 256
      then some (block one_block)
      else none;
  length = 384;
  pins = λ a. 0;
}

abbrev heads : ℕ → ℕ
heads k = get_or dir k minus_one

filled-IsDirectory : IsDirectory filled ctrl heads
filled-IsDirectory = record {
  at_control = refl;
  few = omega arith;
  at_head = λ q j lt small.
      let zero_q : q ≡ 0 = omega arith in
      let same : 0 * 16 + j ≡ j = omega arith in
      rw (zero_q, same) (dir, (refl, get_or_lem dir j minus_one small));
}

only_five : (k : ℕ) → k < 1 * 16 → (heads k == minus_one) ≡ false → k ≡ 5
only_five zero lt used = cc
only_five (suc zero) lt used = cc
only_five (suc (suc zero)) lt used = cc
only_five (suc (suc (suc zero))) lt used = cc
only_five (suc (suc (suc (suc zero)))) lt used = cc
only_five (suc (suc (suc (suc (suc zero))))) lt used = refl
only_five (suc (suc (suc (suc (suc (suc zero)))))) lt used = cc
only_five (suc (suc (suc (suc (suc (suc (suc zero))))))) lt used = cc
only_five (suc (suc (suc (suc (suc (suc (suc (suc zero)))))))) lt used = cc
only_five (suc (suc (suc (suc (suc (suc (suc (suc (suc zero))))))))) lt used = cc
only_five (suc (suc (suc (suc (suc (suc (suc (suc (suc (suc zero)))))))))) lt used = cc
only_five (suc (suc (suc (suc (suc (suc (suc (suc (suc (suc (suc zero))))))))))) lt used = cc
only_five (suc (suc (suc (suc (suc (suc (suc (suc (suc (suc (suc (suc zero)))))))))))) lt used = cc
only_five (suc (suc (suc (suc (suc (suc (suc (suc (suc (suc (suc (suc (suc zero))))))))))))) lt
      used =
    cc
only_five (suc (suc (suc (suc (suc (suc (suc (suc (suc (suc (suc (suc (suc (suc zero))))))))))))))
      lt used =
    cc
only_five
      (suc (suc (suc (suc (suc (suc (suc (suc (suc (suc (suc (suc (suc (suc (suc zero)))))))))))))))
      lt used =
    cc
only_five
      (suc
        (suc (suc (suc (suc (suc (suc (suc (suc (suc (suc (suc (suc (suc (suc (suc k))))))))))))))))
      lt used =
    absurd (omega arith)

filled-HasHeads : HasHeads filled ctrl heads
filled-HasHeads = record {
  head_block = λ k lt used.
      subst
        (λ i.
          (b : MapBlock) × (filled.page (heads i) ≡ some (block b))
          × (0 < b.n_items)
          × (b.n_items ≤ 14)
          × (length b.table ≡ 14))
        (sym (only_five k lt used)) (one_block, refl, omega arith, omega arith, refl);
}

hash_table_pop_lower_bound-Taken_example :
    ((first_size heads 3 13 ≡ none)
      × (hash_table_pop_lower_bound 3 filled ≡ some (minus_one, filled)))
    ⊎ ((k x : ℕ) × (b : MapBlock) × (d : List ℕ) × (first_size heads 3 13 ≡ some k)
        × (filled.page (heads k) ≡ some (block b))
        × (filled.page (dir_addr k) ≡ some (directory d))
        × (get_elem? b.table (b.n_items - 1) ≡ some x)
        × (hash_table_pop_lower_bound 3 filled
            ≡ some (x, taken (dir_addr k) (k % 16) (heads k) b d ctrl filled)))
hash_table_pop_lower_bound-Taken_example =
    hash_table_pop_lower_bound-Taken filled ctrl heads 3 filled-IsDirectory filled-HasHeads
      (omega arith)

-- The chain of the size 5 is a full block and one with room behind it.
abbrev full_block : MapBlock
full_block = record { next = 384; n_items = 14; table = replicate 14 512 }

abbrev longer : HashMapPages
longer = record filled {
  page = λ a.
      if a == 256
      then some (block full_block)
      else if a == 384
      then some (block one_block)
      else filled.page a;
}

longer-IsDirectory : IsDirectory longer ctrl heads
longer-IsDirectory = record {
  at_control = refl;
  few = omega arith;
  at_head = λ q j lt small.
      let zero_q : q ≡ 0 = omega arith in
      let same : 0 * 16 + j ≡ j = omega arith in
      rw (zero_q, same) (dir, (refl, get_or_lem dir j minus_one small));
}

hash_table_insert-added_example :
    hash_table_insert 2 5 8192 longer ≡ some (tt, added 384 one_block 8192 longer)
hash_table_insert-added_example =
    hash_table_insert-added 2 1 5 8192 384 one_block longer ctrl heads longer-IsDirectory
      (omega arith) refl
      (full 0 256 384 one_block full_block refl refl refl
        (room 384 one_block refl (omega arith) refl))
      (omega arith)
