-- ===== src/BTree/Runs.antt =====
-- Insertions and deletions in the index of src/b_tree.c at concrete keys: the key of a RID is its
-- block address, and the copy of a key is the RID itself.
use simple_redis_database.Common.{
  ℕ, zero, suc, ◌+◌, ◌-◌, ◌≡◌, refl, inr, Option, none, some, List, [], ◌∷◌, ◌++◌, ltb, ◌==◌,
  if◌then◌else◌, map, take, subst, get_or, arith, true,
}
use simple_redis_database.Common.Run.{Run, ◌>>=◌, ◌>>◌, pure, entry}
use simple_redis_database.FileIo.{minus_one}
use simple_redis_database.PageStore.{Pages, pin_page, release_page, load, store, append_page}
use simple_redis_database.PageStore as PageStore
use simple_redis_database.Rid.{Rid, rid_null}
use simple_redis_database.Str.{Sign, minus, zero_sign, plus}
use simple_redis_database.BTree.{find_index}
use simple_redis_database.BTree.Insert.{blank}
use simple_redis_database.BTree.Store.{
  Handlers, Tree, get_page, release, read_control, write_control, read_node, write_node,
  append_node, append_control, file_length, find, copy_key, drop_key,
}
use simple_redis_database.BTree.Grow.{b_tree_init, b_tree_insert}
use simple_redis_database.BTree.Shrink.{b_tree_delete}
use simple_redis_database.BTree.{BNode, is_minus}
use simple_redis_database.BTree.Store.{BPage, BCtrlBlock, control, node}
use simple_redis_database.BTree.Index.{Splits, Signs, Ordered}
use simple_redis_database.BTree.Split.{LeafInserted}
use simple_redis_database.BTree.Removal.{RowRemoved}
use simple_redis_database.BTree.Deletion.{b_tree_delete-Removed}
use simple_redis_database.BTree.Insertion.{Leads, here, below, written, b_tree_insert-Inserted}

abbrev row : ℕ → Rid
row a = record { block_addr = a; idx = 0 }

abbrev by_addr : Rid → Rid → ℕ → ℕ → Sign
by_addr a b x y =
    if ltb a.block_addr b.block_addr
    then minus
    else if a.block_addr == b.block_addr
    then zero_sign
    else plus

-- The state counts the copies of keys.
abbrev by_key : Handlers
by_key = record {
  State = ℕ;
  cmp = λ s a b x y. some (by_addr a b x y);
  insert_handler = λ s rid leaf. some (rid, s + 1);
  delete_handler = λ s rid. some (s - 1);
}

abbrev fresh : Tree ℕ
fresh = record { pool = record { page = λ a. none; length = 0; pins = λ a. 0 }; tables = 0 }

abbrev insert_all : List ℕ → Run (Tree ℕ) (Unit {0})
insert_all [] = pure tt
insert_all (k ∷ ks) = do b_tree_insert by_key 9 (row k); insert_all ks

abbrev delete_all : List ℕ → Run (Tree ℕ) (Unit {0})
delete_all [] = pure tt
delete_all (k ∷ ks) = do b_tree_delete by_key 9 (row k); delete_all ks

-- The rows of the leaves along their chain, and the pins of page 0.
abbrev leaves : ℕ → ℕ → Run (Tree ℕ) (List ℕ)
leaves zero at = pure []
leaves (suc fuel) at = do
  b ← read_node at
  rest ← (if b.next == minus_one then pure [] else leaves fuel b.next)
  pure (map (λ r. r.block_addr) (take b.n b.row_ptr) ++ rest)

abbrev result : {A : Type 0} → Option (A × Tree ℕ) → Option (A × ℕ)
result none = none
result (some (a, t)) = some (a, t.tables)

abbrev keys : List ℕ
keys = 5 ∷ 3 ∷ 8 ∷ 1 ∷ 9 ∷ 2 ∷ 7 ∷ 4 ∷ 6 ∷ 10 ∷ 12 ∷ 11 ∷ 14 ∷ 13 ∷ 15 ∷ 16 ∷ []

abbrev program : Run (Tree ℕ) (List ℕ)
program = do
  b_tree_init by_key
  insert_all keys
  delete_all (3 ∷ 8 ∷ 16 ∷ 1 ∷ 2 ∷ 10 ∷ 15 ∷ [])
  leaves 20 128

runs : result (program fresh) ≡ some (4 ∷ 5 ∷ 6 ∷ 7 ∷ 9 ∷ 11 ∷ 12 ∷ 13 ∷ 14 ∷ [], 3)
unfolding b_tree_init b_tree_insert b_tree_delete blank find_index get_page release read_control
    write_control read_node write_node append_node append_control file_length find copy_key drop_key
    PageStore.pin_page PageStore.release_page PageStore.load PageStore.store PageStore.append_page
    PageStore.file_length entry
runs = refl

abbrev inner : BNode
inner = record (blank 1 0) {
  child = 256 ∷ 384 ∷ minus_one ∷ minus_one ∷ minus_one ∷ [];
  row_ptr = row 20 ∷ rid_null ∷ rid_null ∷ rid_null ∷ [];
}

abbrev leaf : BNode
leaf = record (blank 1 1) { row_ptr = row 20 ∷ rid_null ∷ rid_null ∷ rid_null ∷ [] }

abbrev root : BCtrlBlock
root = record { root_node = 128; free_node_head = minus_one }

abbrev pool : Pages BPage
pool = record {
  page = λ a.
      if a == 0
      then some (control root)
      else if a == 128
      then some (node inner)
      else if a == 384
      then some (node leaf)
      else none;
  length = 512;
  pins = λ a. 0;
}

lead : Leads pool.page (by_key.cmp 0) (row 30) 2 128 384 leaf
unfolding find_index blank
lead = below 1 128 1 384 384 inner leaf refl refl refl refl (here 384 leaf refl refl)

leaf_Signs : Signs (λ r. by_key.cmp 0 (row 30) r 1 1) (λ r. by_addr (row 30) r 1 1) leaf.row_ptr 1
leaf_Signs i lt = refl

leaf_Ordered : Ordered (λ r. is_minus (by_addr (row 30) r 1 1)) leaf.row_ptr 1
leaf_Ordered i j le lt h =
    let same : i ≡ j = omega arith in
    subst (λ k. is_minus (by_addr (row 30) (get_or leaf.row_ptr k rid_null) 1 1) ≡ true) same h

b_tree_insert-Inserted_example :
    (k : ℕ) × (b' : BNode) × (b_tree_insert by_key 9 (row 30) (record { pool = pool; tables = 0 })
      ≡ some (row 30, record { pool = written 384 b' pool; tables = 0 }))
    × Splits (λ r. is_minus (by_addr (row 30) r 1 1)) leaf.row_ptr leaf.n k
    × LeafInserted k (row 30) leaf b'
unfolding blank
b_tree_insert-Inserted_example =
    b_tree_insert-Inserted by_key (row 30) 9 2 384 leaf root (λ r. by_addr (row 30) r 1 1) pool 0
      refl lead leaf_Signs leaf_Ordered (omega arith) refl (omega arith)

-- The leaf with three rows, the second of which is deleted.
abbrev full_leaf : BNode
full_leaf = record (blank 3 1) { row_ptr = row 20 ∷ row 25 ∷ row 30 ∷ rid_null ∷ [] }

abbrev full_pool : Pages BPage
full_pool = record pool { page = λ a. if a == 384 then some (node full_leaf) else pool.page a }

full_lead : Leads full_pool.page (by_key.cmp 0) (row 25) 2 128 384 full_leaf
unfolding find_index blank
full_lead = below 1 128 1 384 384 inner full_leaf refl refl refl refl (here 384 full_leaf refl refl)

full_Ordered : Ordered (λ r. is_minus (by_addr (row 25) r 1 1)) full_leaf.row_ptr 3
full_Ordered i (suc (suc zero)) le lt h = refl
full_Ordered i (suc (suc (suc j))) le lt h = absurd (omega arith)
full_Ordered zero zero le lt h = h
full_Ordered (suc i) zero le lt h = absurd (omega arith)
full_Ordered zero (suc zero) le lt h = cc
full_Ordered (suc zero) (suc zero) le lt h = cc
full_Ordered (suc (suc i)) (suc zero) le lt h = absurd (omega arith)

b_tree_delete-Removed_example :
    (b' : BNode) × (b_tree_delete by_key 9 (row 25) (record { pool = full_pool; tables = 0 })
      ≡ some (tt, record { pool = written 384 b' full_pool; tables = 0 }))
    × RowRemoved 2 full_leaf b'
unfolding blank
b_tree_delete-Removed_example =
    b_tree_delete-Removed by_key (row 25) 9 2 384 1 full_leaf root (λ r. by_addr (row 25) r 1 1)
      full_pool 0 refl full_lead (λ i lt. refl) full_Ordered (omega arith) refl (λ lt. refl)
      (inr (omega arith)) (omega arith) refl (omega arith)
