-- ===== src/BTree.antt =====
-- include/b_tree.h and src/b_tree.c: the nodes of the index, and the place of a row in a node.
--
-- The comparisons are arguments, as in the code: the sign that the handler returns, or `none` if it
-- reads a record that is not there. The flags are 1 for a leaf. A read beyond an array, a page that
-- holds no node and a run off the end of a function are the result `none`.
pub mod Arrays
pub mod Insert
pub mod Store
pub mod Grow
pub mod Remove
pub mod Shrink
pub mod Lookup
pub mod Split
pub mod Places
pub mod SplitInner
pub mod Removal
pub mod Merge
pub mod MergeInner
mod Runs
pub mod Index
pub mod Scan
pub mod Search
pub mod SameSigns
pub mod Insertion
pub mod Deletion
pub mod Path
mod NodeTests
mod Tests
use simple_redis_database.Common.{
  ℕ, zero, suc, ◌+◌, ◌-◌, ◌*◌, ◌/◌, ◌%◌, ◌^◌, Bool, true, false, not, Option, none, some, List, [],
  ◌∷◌, ◌==◌, if◌then◌else◌, ◌>>=◌, get_elem?,
}
use simple_redis_database.FileIo.{page_size}
use simple_redis_database.Rid.{Rid, rid_null}
use simple_redis_database.Str.{Sign, minus, zero_sign, plus}

-- DEGREE: a page of 128 bytes holds 4 rows of 10 bytes and 5 addresses.
abbrev pub degree : ℕ
degree = (page_size - 8 - 2 * 8 - 4) / 2 / (8 + 10)

pub record BNode : Type 0 where
  pub n : ℕ
  pub next : ℕ
  pub child : List ℕ
  pub row_ptr : List Rid
  pub leaf : ℕ

abbrev pub is_minus : Sign → Bool
is_minus minus = true
is_minus zero_sign = false
is_minus plus = false

abbrev pub is_zero : Sign → Bool
is_zero minus = false
is_zero zero_sign = true
is_zero plus = false

-- `rounds` rounds from `i` on of the loop that looks for the two rows around a key; `cmp` compares
-- the key with a row.
unfoldable pub find_between : (Rid → Option Sign) → List Rid → ℕ → ℕ → Option (Option ℕ)
find_between cmp rows zero i = some none
find_between cmp rows (suc rounds) i =
    let rest = find_between cmp rows rounds (i + 1) in
    let test = get_elem? rows (i + 1) >>= cmp >>= λ sign.
    if is_minus sign then some (some (i + 1)) else rest in
    get_elem? rows i >>= cmp >>= λ sign. if is_minus sign then rest else test

unfoldable pub find_index : BNode → Rid → ℕ → (Rid → Rid → ℕ → ℕ → Option Sign) → Option ℕ
unfolding find_between
find_index bnode rid rid_leaf cmp =
    let compare : Rid → Option Sign = λ r. cmp rid r rid_leaf bnode.leaf in
    if bnode.n == 0
    then some 0
    else (get_elem? bnode.row_ptr 0 >>= compare >>= λ first.
        if is_minus first
        then some 0
        else (find_between compare bnode.row_ptr (bnode.n - 1) 0 >>= λ found. elim found [
          | some k ↦ some k
          | none ↦ get_elem? bnode.row_ptr (bnode.n - 1) >>= compare >>= λ last.
              if is_minus last then none else some bnode.n
        ]))
