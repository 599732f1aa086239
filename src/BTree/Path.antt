-- ===== src/BTree/Path.antt =====
-- The search for a key and the insertion of a row with that key in src/b_tree.c go to the same leaf,
-- before and after a row is put into it.
use simple_redis_database.Common.{
  refl, Bool-cases, inl, inr, true, false, ◌==◌, sym, eq→==, ◌≤◌, length, ℕ, ◌≡◌, ap, ◌∙◌, Option,
  some, ==→eq,
}
use simple_redis_database.Common.Run.{update}
use simple_redis_database.Rid.{Rid, rid_null}
use simple_redis_database.Str.{Sign}
use simple_redis_database.BTree.{BNode}
use simple_redis_database.BTree.Store.{BPage, node}
use simple_redis_database.BTree.Scan.{Known, known_at}
use simple_redis_database.BTree.Search.{Descends, at_leaf, through}
use simple_redis_database.BTree.SameSigns.{Alike, find_index-same}
use simple_redis_database.BTree.Insertion.{Leads, here, below}

-- The page of the leaf at the end.
abbrev pub leaf_addr :
    {page : ℕ → Option BPage} {D : Rid → ℕ → Type 0} {sign : Rid → ℕ → Sign} {height at : ℕ}
    {leaf : BNode}
    → Descends page D sign height at leaf
    → ℕ
leaf_addr (at_leaf at b e l room known) = at
leaf_addr (through h at k child b leaf e l pos few known to next d) = leaf_addr d

module _ (page : ℕ → Option BPage) (D : Rid → ℕ → Type 0) (sign : Rid → ℕ → Sign)
    (cmp : Rid → Rid → ℕ → ℕ → Option Sign) (rid : Rid)
    (agree : (a : Rid) → D a 0 → cmp rid a 1 0 ≡ some (sign a 0)) where
  pub Descends→Leads :
      (height at : ℕ) (leaf : BNode) (d : Descends page D sign height at leaf)
      → Leads page cmp rid height at (leaf_addr d) leaf
  Descends→Leads height at leaf (at_leaf at' b e l room known) = here at b e l
  Descends→Leads height at leaf (through h at' k child b leaf' e l pos few known to next d) =
      let lead = Descends→Leads h child leaf' d in
      let inner : b.leaf ≡ 0 = ==→eq b.leaf 0 l in
      let alike : Alike (λ a. cmp rid a 1 b.leaf) (λ a. some (sign a 0)) b.row_ptr b.n =
        λ j a lt read.
          ap (λ f. cmp rid a 1 f) inner ∙ agree a (known_at D b.row_ptr b.n 0 j a known lt read) in
      let same = find_index-same b rid rid_null cmp (λ a q x y. some (sign q 0)) alike in
      below h at k child (leaf_addr d) b leaf' e l (same ∙ to) next lead

pub leaf_there :
    {page : ℕ → Option BPage} {D : Rid → ℕ → Type 0} {sign : Rid → ℕ → Sign} (height at : ℕ)
    (leaf : BNode) (d : Descends page D sign height at leaf)
    → (page (leaf_addr d) ≡ some (node leaf)) × ((leaf.leaf == 0) ≡ false)
leaf_there height at leaf (at_leaf at' b e l room known) = (e, l)
leaf_there height at leaf (through h at' k child b leaf' e l pos few known to next d) =
    leaf_there h child leaf' d

-- Another leaf `b'` in the page of the leaf, and other rows and signs that agree on the inner nodes.
module _ (page : ℕ → Option BPage) (D D' : Rid → ℕ → Type 0) (sign sign' : Rid → ℕ → Sign)
    (same_sign : (a : Rid) → sign' a 0 ≡ sign a 0) (keep : (a : Rid) → D a 0 → D' a 0) (b' : BNode)
    (is_leaf : (b'.leaf == 0) ≡ false) (room : b'.n ≤ length b'.row_ptr)
    (known' : Known D' b'.row_ptr b'.n 1) where
  pub Descends-update :
      (height at : ℕ) (leaf : BNode) (d : Descends page D sign height at leaf)
      → Descends (update page (leaf_addr d) (some (node b'))) D' sign' height at b'
  Descends-update height at leaf (at_leaf at' b e l r known) =
      at_leaf at b' (rw (eq→== at at refl) refl) is_leaf room known'
  Descends-update height at leaf (through h at' k child b leaf' e l pos few known to next d) =
      let (there, kind) = leaf_there h child leaf' d in
      let same : update page (leaf_addr d) (some (node b')) at ≡ some (node b) =
        elim (Bool-cases (at == leaf_addr d)) [
          | inr apart ↦ rw apart e
          | inl equal ↦
              let both : some (node b) ≡ some (node leaf') =
                sym e ∙ ap page (==→eq at (leaf_addr d) equal) ∙ there in
              let one : b ≡ leaf' = cc in
              let clash : true ≡ false = sym l ∙ ap (λ n. n.leaf == 0) one ∙ kind in cc
        ] in
      let found =
        find_index-same b rid_null rid_null (λ a q x y. some (sign' q 0))
          (λ a q x y. some (sign q 0)) (λ j a lt read. ap some (same_sign a)) in
      through h at k child b b' same l pos few (λ j lt. keep _ (known j lt)) (found ∙ to) next
        (Descends-update h child leaf' d)
