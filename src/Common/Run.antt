-- ===== src/Common/Run.antt =====
-- Code that changes a state and may fail: the state is a parameter, and `none` is the failure.
use mathlib.Core.Option.{Option, none, some}
use mathlib.Core.List.{List}
use simple_redis_database.Common.Lists.{get_elem?}
use simple_redis_database.Common.Tests.{◌==◌, eq→==, ne→==, if◌then◌else◌}
use mathlib.Core.Path.{◌≡◌, refl}
use mathlib.Core.Logic.{◌≢◌}
use Prim.Native.Nat.{ℕ}

abbrev pub Run : Type 0 → Type 0 → Type 0
Run S A = S → Option (A × S)

module _ {S : Type 0} where
  abbrev pub and_then : {A B : Type 0} → Option (A × S) → (A → Run S B) → Option (B × S)
  and_then none k = none
  and_then (some (a, s)) k = k a s

  infixl 5 ◌>>=◌ ◌>>◌
  abbrev pub ◌>>=◌ : {A B : Type 0} → Run S A → (A → Run S B) → Run S B
  (m >>= k) s = and_then (m s) k

  abbrev pub ◌>>◌ : {A B : Type 0} → Run S A → Run S B → Run S B
  m >> k = m >>= λ _. k

  abbrev pub pure : {A : Type 0} → A → Run S A
  pure a s = some (a, s)

  abbrev pub fail : {A : Type 0} → Run S A
  fail s = none

  -- What a pure part of the code gives, or its failure.
  abbrev pub lift : {A : Type 0} → Option A → Run S A
  lift none = fail
  lift (some a) = pure a

  -- A read of an array.
  unfoldable pub entry : {A : Type 0} → List A → ℕ → Run S A
  entry xs i s = elim (get_elem? xs i) [ none ↦ none | some x ↦ some (x, s) ]

-- A function, changed at one place.
abbrev pub update : {A : Type 0} → (ℕ → A) → ℕ → A → ℕ → A
update f a x b = if b == a then x else f b

pub update_self : {A : Type 0} (f : ℕ → A) (i : ℕ) (a : A) → update f i a i ≡ a
update_self f i a = rw (eq→== i i refl) refl

pub update_other : {A : Type 0} (f : ℕ → A) (j : ℕ) (a : A) (i : ℕ) → i ≢ j → update f j a i ≡ f i
update_other f j a i other = rw (ne→== i j other) refl
