-- ===== src/BufferPool/Slots.antt =====
-- The slots of src/buffer_pool.c, looked up by address.
use simple_redis_database.Common.{
  ℕ, zero, suc, ◌+◌, ◌≤◌, ◌<◌, ◌≡◌, refl, ◌≢◌, ◌⊎◌, Bool, true, false, Option, none, some, List, [],
  ◌∷◌, arith, ◌==◌, if◌then◌else◌, get_elem?, set,
}
use simple_redis_database.BufferPool.{Slot, find, find_unpinned}

-- 1 where two addresses agree
abbrev pub one_if : Bool → ℕ
one_if true = 1
one_if false = 0

module _ {P : Type 0} where
  -- How many slots hold `a`.
  unfoldable pub holders : ℕ → List (Slot P) → ℕ
  holders a [] = 0
  holders a (s ∷ slots) = one_if (s.addr == a) + holders a slots

  -- The page that the slots hold for `a`.
  unfoldable pub cached : ℕ → List (Slot P) → Option P
  cached a [] = none
  cached a (s ∷ slots) = if s.addr == a then some s.page else cached a slots

  pub find-holds :
      (a : ℕ) (slots : List (Slot P)) (i : ℕ)
      → find a slots ≡ some i
      → (s : Slot P) × (get_elem? slots i ≡ some s) × (s.addr ≡ a)
  unfolding find
  find-holds a [] i h = cc
  find-holds a (s ∷ slots) zero h = (s, refl, ground arith)
  find-holds a (s ∷ slots) (suc i) h = find-holds a slots i (ground arith)

  pub find-none : (a : ℕ) (slots : List (Slot P)) → find a slots ≡ none → holders a slots ≡ 0
  unfolding find holders
  find-none a [] h = refl
  find-none a (s ∷ slots) h = ground (arith, find-none a slots)

  pub cached-none : (a : ℕ) (slots : List (Slot P)) → holders a slots ≡ 0 → cached a slots ≡ none
  unfolding cached holders
  cached-none a [] h = refl
  cached-none a (s ∷ slots) h = ground (arith, cached-none a slots)

  pub holders_pos :
      (slots : List (Slot P)) (i : ℕ) (s : Slot P)
      → get_elem? slots i ≡ some s
      → 0 < holders s.addr slots
  unfolding holders
  holders_pos [] i s h = cc
  holders_pos (t ∷ slots) zero s h = ground arith
  holders_pos (t ∷ slots) (suc i) s h = omega (arith, holders_pos slots i s h)

  pub holders-set :
      (a : ℕ) (slots : List (Slot P)) (i : ℕ) (s t : Slot P)
      → get_elem? slots i ≡ some s
      → holders a (set slots i t) + one_if (s.addr == a) ≡ holders a slots + one_if (t.addr == a)
  unfolding holders
  holders-set a [] i s t h = cc
  holders-set a (u ∷ slots) zero s t h = ground arith
  holders-set a (u ∷ slots) (suc i) s t h = omega (arith, holders-set a slots i s t h)

  pub cached_self :
      (slots : List (Slot P)) (i : ℕ) (s : Slot P)
      → get_elem? slots i ≡ some s
      → holders s.addr slots ≤ 1
      → cached s.addr slots ≡ some s.page
  unfolding cached holders
  cached_self [] i s h u = cc
  cached_self (t ∷ slots) zero s h u = ground arith
  cached_self (t ∷ slots) (suc i) s h u =
      ground (arith, cached_self slots i s h, holders_pos slots i s h)

  -- A write of one slot, seen through the addresses.
  pub cached-set :
      (a : ℕ) (slots : List (Slot P)) (i : ℕ) (s t : Slot P)
      → get_elem? slots i ≡ some s
      → holders a slots ≤ 1
      → holders a (set slots i t) ≤ 1
      → cached a (set slots i t)
        ≡ (if t.addr == a then some t.page else if s.addr == a then none else cached a slots)
  unfolding cached holders
  cached-set a [] i s t h u v = cc
  cached-set a (x ∷ slots) zero s t h u v = ground (arith, cached-none a slots)
  cached-set a (x ∷ slots) (suc i) s t h u v =
      ground
        (arith, cached-set a slots i s t h, holders-set a slots i s t h, holders_pos slots i s h)

  pub find_unpinned-holds :
      (a : ℕ) (slots : List (Slot P)) (i : ℕ)
      → find_unpinned a slots ≡ some i
      → (s : Slot P) × (get_elem? slots i ≡ some s) × (s.addr ≡ a) × (s.ref ≡ 0)
  unfolding find_unpinned
  find_unpinned-holds a [] i h = cc
  find_unpinned-holds a (s ∷ slots) zero h = (s, refl, ground arith, ground arith)
  find_unpinned-holds a (s ∷ slots) (suc i) h = find_unpinned-holds a slots i (ground arith)

  pub find_unpinned_total :
      (slots : List (Slot P)) (i : ℕ) (s : Slot P)
      → get_elem? slots i ≡ some s
      → s.ref ≡ 0
      → find_unpinned s.addr slots ≢ none
  unfolding find_unpinned
  find_unpinned_total [] i s h z = cc
  find_unpinned_total (t ∷ slots) zero s h z = ground arith
  find_unpinned_total (t ∷ slots) (suc i) s h z = ground (arith, find_unpinned_total slots i s h z)

  -- A slot that can be had: it holds the page, or it is not pinned.
  abbrev pub HasRoom : ℕ → List (Slot P) → Type 0
  HasRoom a slots =
      (i : ℕ) × (s : Slot P) × (get_elem? slots i ≡ some s) × ((s.addr ≡ a) ⊎ (s.ref ≡ 0))

  pub find_total :
      (slots : List (Slot P)) (i : ℕ) (s : Slot P)
      → get_elem? slots i ≡ some s
      → find s.addr slots ≢ none
  unfolding find
  find_total [] i s h = cc
  find_total (t ∷ slots) zero s h = ground arith
  find_total (t ∷ slots) (suc i) s h = ground (arith, find_total slots i s h)

  pub find_unique :
      (slots : List (Slot P)) (i : ℕ) (s : Slot P)
      → get_elem? slots i ≡ some s
      → holders s.addr slots ≤ 1
      → find s.addr slots ≡ some i
  unfolding find holders
  find_unique [] i s h u = cc
  find_unique (t ∷ slots) zero s h u = ground arith
  find_unique (t ∷ slots) (suc i) s h u =
      ground (arith, find_unique slots i s h, holders_pos slots i s h)
