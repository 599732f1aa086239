-- ===== src/BTree/Search.antt =====
-- The search of src/b_tree.c from the root to a leaf, for a comparison that gives the sign of `sign`
-- on the rows of the index and leaves its pages alone.
use simple_redis_database.Common.{
  ℕ, zero, suc, ◌+◌, ◌-◌, ◌^◌, ◌<◌, ◌≤◌, ◌≡◌, refl, ap, ◌⊎◌, inl, inr, Option, some, ◌==◌,
  get_elem?, length, true, false, Bool-cases, arith, ==→eq, eq→==,
}
use simple_redis_database.Common.Run.{Run, update}
use simple_redis_database.Rid.{Rid, rid_null}
use simple_redis_database.Str.{Sign}
use simple_redis_database.PageStore.{Pages, load, pin_page, release_page}
use simple_redis_database.BTree.{BNode, is_zero, find_index}
use simple_redis_database.BTree.Store.{
  Tree, BPage, BCtrlBlock, control, node, read_control, get_page, release,
}
use simple_redis_database.BTree.Lookup.{tree_search, b_tree_search}
use simple_redis_database.BTree.Scan.{
  Agrees, Known, Found, Missed, entry_lem, read_node_lem, find_equal_lem, search_child-find_index,
}

-- The pool with one more pin on a page.
abbrev pub pinned : ℕ → Pages BPage → Pages BPage
pinned a pool = record pool { pins = update pool.pins a (pool.pins a + 1) }

unpin :
    (a : ℕ) (pins : ℕ → ℕ) (b : ℕ)
    → update (update pins a (pins a + 1)) a (update pins a (pins a + 1) a - 1) b ≡ pins b
unpin a pins b = elim (Bool-cases (b == a)) [
  | inl same ↦ rw (eq→== a a refl, same) (omega (arith, ap pins (==→eq b a same)))
  | inr other ↦ rw other
]

module _ {S : Type 0} where
  abbrev tree : Pages BPage → S → Tree S
  tree pool s = record { pool = pool; tables = s }

  pub get_page_lem :
      (a : ℕ) (p : BPage) (pool : Pages BPage) (s : S)
      → pool.page a ≡ some p
      → get_page a (tree pool s) ≡ some (tt, tree (pinned a pool) s)
  unfolding get_page pin_page
  get_page_lem a p pool s e = rw (e, pin_page) refl

  pub release_lem :
      (a : ℕ) (pool : Pages BPage) (s : S)
      → release a (tree (pinned a pool) s) ≡ some (tt, tree pool s)
  unfolding release release_page
  release_lem a pool s = λ i. some (tt, tree (record pool { pins = λ b. unpin a pool.pins b i }) s)

  pub read_control_lem :
      (c : BCtrlBlock) (pool : Pages BPage) (s : S)
      → pool.page 0 ≡ some (control c)
      → read_control (tree pool s) ≡ some (c, tree pool s)
  unfolding read_control load
  read_control_lem c pool s e = rw (e, load) refl

-- From the page `at` of an index of the given height, the places that find_index gives for a key
-- with these signs lead to the leaf. On the way every node has at least one row, its rows lie in its
-- array and satisfy `D`, and its children are pages.
pub data Descends (page : ℕ → Option BPage) (D : Rid → ℕ → Type 0) (sign : Rid → ℕ → Sign)
    : ℕ → ℕ → BNode → Type 0 where
  at_leaf :
      (at : ℕ) (b : BNode)
      → page at ≡ some (node b)
      → (b.leaf == 0) ≡ false
      → b.n ≤ length b.row_ptr
      → Known D b.row_ptr b.n 1
      → Descends page D sign 1 at b
  through :
      (height at k child : ℕ) (b leaf : BNode)
      → page at ≡ some (node b)
      → (b.leaf == 0) ≡ true
      → 0 < b.n
      → b.n < 2 ^ 63
      → Known D b.row_ptr b.n 0
      → find_index b rid_null 1 (λ a q x y. some (sign q 0)) ≡ some k
      → get_elem? b.child k ≡ some child
      → Descends page D sign height child leaf
      → Descends page D sign (suc height) at leaf

module _ (S : Type 0) (P : S → Type 0) (D : Rid → ℕ → Type 0) (cmp : Rid → ℕ → Run (Tree S) Sign)
    (sign : Rid → ℕ → Sign) (agree : Agrees S P D cmp sign) where
  -- The search at `at` ends with the first row of the leaf that is equal to the key, or without
  -- one, and the pool is as before.
  abbrev pub Ends : BNode → Option (Rid × Tree S) → Pages BPage → Type 0
  Ends leaf result pool =
      (r : Rid) × ((s' : S) × ((result ≡ some (r, tree pool s'))
          × ((Found (λ q. is_zero (sign q 1)) leaf.row_ptr 0 leaf.n r
                ⊎ Missed (λ q. is_zero (sign q 1)) leaf.row_ptr 0 leaf.n r)
              × P s')))

  page_of :
      (page : ℕ → Option BPage) (height at : ℕ) (leaf : BNode)
      → Descends page D sign height at leaf
      → (p : BPage) × (page at ≡ some p)
  page_of page height at leaf (at_leaf at' b e l room known) = (node b, e)
  page_of page height at leaf (through h at' k child b leaf' e l pos few known to below d) =
      (node b, e)

  -- Where find_index leads from a page to a leaf over nodes whose rows can be compared, and with fuel
  -- for the height, tree_search ends and returns the first row of the leaf that compares equal to
  -- the key, and the null RID if none does; pages and pins are as before.
  pub tree_search-Found :
      (fuel height at : ℕ) (leaf : BNode) (pool : Pages BPage) (s : S)
      → Descends pool.page D sign height at leaf
      → height ≤ fuel
      → P s
      → Ends leaf (tree_search cmp fuel at (tree pool s)) pool
  unfolding tree_search
  tree_search-Found zero height at leaf pool s (at_leaf at' b e l room known) le p =
      absurd (omega arith)
  tree_search-Found zero height at leaf pool s
        (through h at' k child b leaf' e l pos few known to below d) le p =
      absurd (omega arith)
  tree_search-Found (suc fuel) height at leaf pool s (at_leaf at' b e l room known) le p =
      let (r, (s', (ran, rest))) =
        find_equal_lem S P D cmp sign agree b.row_ptr b.n b.n 0 pool s (omega arith) room known p in
      (r, (s', (rw (read_node_lem at b pool s e, l) ran, rest)))
  tree_search-Found (suc fuel) height at leaf pool s
        (through h at' k child b leaf' e l pos few known to below d) le p =
      let (s1, (chosen, p1)) =
        search_child-find_index S P D cmp sign agree b rid_null k pool s pos few to known p in
      let (page, there) = page_of pool.page h child leaf' d in
      let (r, (s2, (ran, rest))) =
        tree_search-Found fuel h child leaf' (pinned child pool) s1 d (omega arith) p1 in
      (
        r,
        (
          s2,
          (
            rw
                (
                  read_node_lem at b pool s e,
                  l,
                  chosen,
                  entry_lem b.child k child (tree pool s1) below,
                  get_page_lem child page pool s1 there,
                  ran,
                  release_lem child pool s2,
                )
                refl,
            rest,
          ),
        ),
      )

  -- Where find_index leads from the root of the index to a leaf over nodes whose rows can be
  -- compared, and with fuel for the height, b_tree_search ends and returns the first row of the leaf
  -- that compares equal to the key, and the null RID if none does; pages and pins are as before.
  pub b_tree_search-Found :
      (fuel height : ℕ) (ctrl : BCtrlBlock) (leaf : BNode) (pool : Pages BPage) (s : S)
      → pool.page 0 ≡ some (control ctrl)
      → Descends pool.page D sign height ctrl.root_node leaf
      → height ≤ fuel
      → P s
      → Ends leaf (b_tree_search cmp fuel (tree pool s)) pool
  unfolding b_tree_search
  b_tree_search-Found fuel height ctrl leaf pool s head d le p =
      let root = ctrl.root_node in
      let (page, there) = page_of pool.page height root leaf d in
      let (r, (s', (ran, rest))) =
        tree_search-Found fuel height root leaf (pinned root (pinned 0 pool)) s d le p in
      (
        r,
        (
          s',
          (
            rw
                (
                  get_page_lem 0 (control ctrl) pool s head,
                  read_control_lem ctrl (pinned 0 pool) s head,
                  get_page_lem root page (pinned 0 pool) s there,
                  ran,
                  release_lem root (pinned 0 pool) s',
                  release_lem 0 pool s',
                )
                refl,
            rest,
          ),
        ),
      )
