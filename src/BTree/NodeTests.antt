-- ===== src/BTree/NodeTests.antt =====
-- The insertions into and the deletions from nodes of src/b_tree.c at concrete nodes.
use simple_redis_database.Common.{ℕ, ◌+◌, ◌<◌, ◌≡◌, refl, ◌⊎◌, some, [], ◌∷◌, ◌++◌, arith}
use simple_redis_database.Rid.{Rid}
use simple_redis_database.BTree.{BNode}
use simple_redis_database.BTree.Insert.{ChildEntry, leaf_split, inner_split}
use simple_redis_database.BTree.Remove.{
  leaf_borrow_next, leaf_merge_next, leaf_borrow_prev, leaf_merge_prev, inner_borrow_next,
  inner_merge_next, inner_borrow_prev, inner_merge_prev,
}
use simple_redis_database.BTree.Split.{rows, children, LeafSplit, leaf_split-Split}
use simple_redis_database.BTree.SplitInner.{InnerSplit, inner_split-Split}
use simple_redis_database.BTree.Removal.{remove_at}
use simple_redis_database.BTree.Merge.{Hold, Merged, AtLimit, leaf_next-Hold, leaf_prev-Hold}
use simple_redis_database.BTree.MergeInner.{
  InnerHold, InnerMerged, TooFew, inner_next-Hold, inner_prev-Hold,
}

abbrev row : ℕ → Rid
row a = record { block_addr = a; idx = 0 }

abbrev sample : (n leaf base : ℕ) → BNode
sample n leaf base = record {
  n = n;
  next = 512;
  child = (base + 1) ∷ (base + 2) ∷ (base + 3) ∷ (base + 4) ∷ (base + 5) ∷ [];
  row_ptr = row (base + 10) ∷ row (base + 20) ∷ row (base + 30) ∷ row (base + 40) ∷ [];
  leaf = leaf;
}

abbrev entry : ChildEntry
entry = record { rid = row 25; addr = 640 }

leaf_split-Split_example :
    (left : BNode) × ((right : BNode) × ((leaf_split 2 (row 25) 640 (sample 4 1 0)
          ≡ some (left, right))
        × LeafSplit 2 (row 25) 640 (sample 4 1 0) left right))
leaf_split-Split_example = leaf_split-Split 2 (row 25) 640 (sample 4 1 0) refl refl (omega arith)

inner_split-Split_example :
    (left : BNode) × ((right : BNode) × ((middle : Rid) × ((inner_split 2 entry (sample 4 0 0)
            ≡ some (left, (right, middle)))
          × InnerSplit 2 entry (sample 4 0 0) left right middle)))
inner_split-Split_example = inner_split-Split 2 entry (sample 4 0 0) refl refl refl (omega arith)

abbrev at_limit : AtLimit (sample 2 1 0) (sample 3 1 100) 1
at_limit = record {
  minimal = refl;
  arrays = (refl, refl);
  least = omega arith;
  most = omega arith;
  place = (omega arith, omega arith);
}

leaf_next-Hold_example :
    ((2 < 3)
      × ((left : BNode) × ((right : BNode) × ((leaf_borrow_next 1 (sample 2 1 0) (sample 3 1 100)
                ≡ some (left, right))
              × Hold (remove_at 0 (rows (sample 2 1 0)) ++ rows (sample 3 1 100)) left right))))
    ⊎ (((sample 3 1 100).n ≡ 2)
        × ((b : BNode) × ((leaf_merge_next 1 (sample 2 1 0) (sample 3 1 100) ≡ some b)
              × Merged
                  (remove_at 0 (rows (sample 2 1 0)) ++ rows (sample 3 1 100))
                  b
                  (sample 3 1 100))))
leaf_next-Hold_example = leaf_next-Hold (sample 2 1 0) (sample 3 1 100) 1 at_limit

leaf_prev-Hold_example :
    ((2 < 3)
      × ((right : BNode) × ((left : BNode) × ((leaf_borrow_prev 1 (sample 2 1 0) (sample 3 1 100)
                ≡ some (right, left))
              × Hold (rows (sample 3 1 100) ++ remove_at 0 (rows (sample 2 1 0))) left right))))
    ⊎ (((sample 3 1 100).n ≡ 2)
        × ((old : BNode) × ((b : BNode) × ((leaf_merge_prev 1 (sample 2 1 0) (sample 3 1 100)
                  ≡ some (old, b))
                × Merged
                    (rows (sample 3 1 100) ++ remove_at 0 (rows (sample 2 1 0)))
                    b
                    (sample 2 1 0)))))
leaf_prev-Hold_example = leaf_prev-Hold (sample 2 1 0) (sample 3 1 100) 1 at_limit

abbrev too_few : TooFew (sample 1 0 0) (sample 2 0 100)
too_few = record {
  one = refl;
  row_arrays = (refl, refl);
  child_arrays = (refl, refl);
  least = omega arith;
  most = omega arith;
}

inner_next-Hold_example :
    ((2 < 2)
      × ((left : BNode) × ((right : BNode) × ((first : Rid) × ((inner_borrow_next
                    (row 50)
                    (sample 1 0 0)
                    (sample 2 0 100)
                  ≡ some (left, (right, first)))
                × InnerHold
                    (rows (sample 1 0 0) ++ row 50 ∷ rows (sample 2 0 100))
                    (children (sample 1 0 0) ++ children (sample 2 0 100))
                    left
                    first
                    right)))))
    ⊎ (((sample 2 0 100).n ≡ 2)
        × ((b : BNode) × ((inner_merge_next (row 60) (sample 1 0 0) (sample 2 0 100) ≡ some b)
              × InnerMerged
                  (rows (sample 1 0 0) ++ row 60 ∷ rows (sample 2 0 100))
                  (children (sample 1 0 0) ++ children (sample 2 0 100))
                  b)))
inner_next-Hold_example = inner_next-Hold (sample 1 0 0) (sample 2 0 100) (row 50) (row 60) too_few

inner_prev-Hold_example :
    ((2 < 2)
      × ((right : BNode) × ((left : BNode) × ((last : Rid) × ((inner_borrow_prev
                    (row 50)
                    (sample 1 0 0)
                    (sample 2 0 100)
                  ≡ some (right, (left, last)))
                × InnerHold
                    (rows (sample 2 0 100) ++ row 50 ∷ rows (sample 1 0 0))
                    (children (sample 2 0 100) ++ children (sample 1 0 0))
                    left
                    last
                    right)))))
    ⊎ (((sample 2 0 100).n ≡ 2)
        × ((b : BNode) × ((inner_merge_prev (row 60) (sample 1 0 0) (sample 2 0 100) ≡ some b)
              × InnerMerged
                  (rows (sample 2 0 100) ++ row 60 ∷ rows (sample 1 0 0))
                  (children (sample 2 0 100) ++ children (sample 1 0 0))
                  b)))
inner_prev-Hold_example = inner_prev-Hold (sample 1 0 0) (sample 2 0 100) (row 50) (row 60) too_few
