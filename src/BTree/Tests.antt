-- ===== src/BTree/Tests.antt =====
-- The nodes of src/b_tree.c at concrete inputs: keys are the block addresses of the RIDs.
use simple_redis_database.Common.{
  ◌≤◌, Option, none, ℕ, ◌≡◌, ◌⊎◌, refl, none, some, [], ◌∷◌, ltb, ◌==◌, if◌then◌else◌, arith,
  get_or, subst, true,
}
use simple_redis_database.Rid.{Rid, rid_null}
use simple_redis_database.Str.{Sign, minus, zero_sign, plus}
use simple_redis_database.Common.Run.{Run, pure, entry}
use simple_redis_database.FileIo.{minus_one}
use simple_redis_database.PageStore
use simple_redis_database.PageStore.{Pages}
use simple_redis_database.BTree.{BNode, is_minus, is_zero, find_index}
use simple_redis_database.BTree.Index.{Ordered, Splits, find_index-Splits}
use simple_redis_database.BTree.Store.{
  Tree, BPage, control, get_page, release, read_control, read_node,
}
use simple_redis_database.BTree.Lookup.{b_tree_search}
use simple_redis_database.BTree.Scan.{Agrees, Found, Missed}
use simple_redis_database.BTree.Search.{Descends, through, at_leaf, b_tree_search-Found}

abbrev row : ℕ → Rid
row a = record { block_addr = a; idx = 0 }

abbrev by_addr : Rid → Rid → ℕ → ℕ → Sign
by_addr a b x y =
    if ltb a.block_addr b.block_addr
    then minus
    else if a.block_addr == b.block_addr
    then zero_sign
    else plus

abbrev by_key : Rid → Rid → ℕ → ℕ → Option Sign
by_key a b x y = some (by_addr a b x y)

abbrev node : ℕ → BNode
node leaf = record {
  n = 1;
  next = 0;
  child = 128 ∷ 256 ∷ [];
  row_ptr = row 20 ∷ rid_null ∷ [];
  leaf = leaf;
}

runs : find_index (node 1) (row 30) 1 by_key ≡ some 1
unfolding find_index
runs = refl

-- A comparison without effect, with the key 20.
abbrev sign : Rid → ℕ → Sign
sign q leaf = by_addr (row 20) q 1 leaf

abbrev cmp : Rid → ℕ → Run (Tree ℕ) Sign
cmp q leaf = pure (sign q leaf)

abbrev Any : Rid → ℕ → Type 0
Any r leaf = 0 ≤ leaf

sign-Agrees : Agrees ℕ (λ s. 0 ≤ s) Any cmp sign
sign-Agrees = record { run = λ r leaf pool s d p. (s, (refl, p)) }

abbrev value : {A : Type 0} → Option (A × Tree ℕ) → Option A
value none = none
value (some (a, t)) = some a

-- A root with two leaves.
abbrev pool : Pages BPage
pool = record {
  page = λ a.
      if a == 0
      then some (control (record { root_node = 128; free_node_head = minus_one }))
      else if a == 128
      then some (BPage.node (node 0))
      else if a == 256
      then some (BPage.node (node 1))
      else none;
  length = 384;
  pins = λ a. 0;
}

search_runs : value (b_tree_search cmp 2 (record { pool = pool; tables = 0 })) ≡ some (row 20)
unfolding b_tree_search get_page release read_control read_node entry PageStore.pin_page
    PageStore.release_page PageStore.load
search_runs = refl

find_runs : (rid : Rid) → find_index (node 0) rid 1 (λ a b x y. some (sign b 0)) ≡ some 1
unfolding find_index
find_runs rid = refl

node-Ordered : Ordered (λ r. is_minus (by_addr (row 30) r 1 1)) (node 1).row_ptr 1
node-Ordered i j le lt h =
    let same : i ≡ j = omega arith in
    subst (λ k. is_minus (by_addr (row 30) (get_or (node 1).row_ptr k rid_null) 1 1) ≡ true) same h

find_index-Splits_example :
    (k : ℕ) × ((find_index (node 1) (row 30) 1 by_key ≡ some k)
      × Splits (λ r. is_minus (by_addr (row 30) r 1 1)) (node 1).row_ptr 1 k)
find_index-Splits_example =
    find_index-Splits (node 1) (row 30) 1 by_key (λ r. by_addr (row 30) r 1 1) (λ i lt. refl)
      node-Ordered (omega arith)

descent : Descends pool.page Any sign 2 128 (node 1)
descent =
    through 1 128 1 256 (node 0) (node 1) refl refl (omega arith) (omega arith)
      (λ j lt. omega arith) (find_runs rid_null) refl
      (at_leaf 256 (node 1) refl refl (omega arith) (λ j lt. omega arith))

b_tree_search-Found_example :
    (r : Rid) × ((s' : ℕ) × ((b_tree_search cmp 2 (record { pool = pool; tables = 5 })
          ≡ some (r, record { pool = pool; tables = s' }))
        × ((Found (λ q. is_zero (sign q 1)) (node 1).row_ptr 0 1 r
              ⊎ Missed (λ q. is_zero (sign q 1)) (node 1).row_ptr 0 1 r)
            × (0 ≤ s'))))
b_tree_search-Found_example =
    b_tree_search-Found ℕ (λ s. 0 ≤ s) Any cmp sign sign-Agrees 2 2
      (record { root_node = 128; free_node_head = minus_one }) (node 1) pool 5 refl descent
      (omega arith) (omega arith)
