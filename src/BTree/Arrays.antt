-- ===== src/BTree/Arrays.antt =====
-- The loops of src/b_tree.c over the arrays of a node. A read or a write beyond the array is `none`.
use simple_redis_database.Common.{
  ℕ, zero, suc, ◌+◌, ◌-◌, Option, none, some, List, ltb, if◌then◌else◌, ◌>>=◌, get_elem?, set,
  length,
}

module _ {A : Type 0} where
  -- xs[i] = x
  unfoldable pub put : List A → ℕ → A → Option (List A)
  put xs i x = if ltb i (length xs) then some (set xs i x) else none

  -- `rounds` times xs[i + 1] = xs[i], with i going down
  unfoldable pub shift_up : ℕ → ℕ → List A → Option (List A)
  unfolding put
  shift_up zero i xs = some xs
  shift_up (suc rounds) i xs = do
    x ← get_elem? xs i
    ys ← put xs (i + 1) x
    shift_up rounds (i - 1) ys

  -- `rounds` times xs[i] = xs[i + 1], with i going up
  unfoldable pub shift_down : ℕ → ℕ → List A → Option (List A)
  unfolding put
  shift_down zero i xs = some xs
  shift_down (suc rounds) i xs = do
    x ← get_elem? xs (i + 1)
    ys ← put xs i x
    shift_down rounds (i + 1) ys

  -- `rounds` times xs[i] = x, with i going up
  unfoldable pub fill : ℕ → ℕ → A → List A → Option (List A)
  unfolding put
  fill zero i x xs = some xs
  fill (suc rounds) i x xs = do ys ← put xs i x; fill rounds (i + 1) x ys

  -- `rounds` times xs[i] = from[j], with i and j going up
  unfoldable pub copy : ℕ → List A → ℕ → List A → ℕ → Option (List A)
  unfolding put
  copy zero xs i from j = some xs
  copy (suc rounds) xs i from j = do
    x ← get_elem? from j
    ys ← put xs i x
    copy rounds ys (i + 1) from (j + 1)
