-- ===== src/BufferPool/Recency.antt =====
-- The LRU order of src/buffer_pool.c as a list of addresses.
use simple_redis_database.Common.{
  ℕ, zero, suc, ◌+◌, ◌≤◌, ◌<◌, ◌≡◌, refl, ◌≢◌, none, some, List, [], ◌∷◌, arith, ◌==◌, length,
  get_elem?, get_elem?-lt, Bool-cases, inl, inr, ==→eq,
}
use simple_redis_database.FileIo.{minus_one}
use simple_redis_database.BufferPool.{index_of, remove_at}
use simple_redis_database.BufferPool.Slots.{one_if}

unfoldable pub count : ℕ → List ℕ → ℕ
count a [] = 0
count a (x ∷ xs) = one_if (x == a) + count a xs

-- Behind an unused entry there are only unused entries.
abbrev pub IsPacked : List ℕ → Type 0
IsPacked [] = Unit {0}
IsPacked (x ∷ xs) = (x ≡ minus_one → count minus_one xs ≡ length xs) × IsPacked xs

pub count-le-length : (a : ℕ) (xs : List ℕ) → count a xs ≤ length xs
unfolding count
count-le-length a [] = omega arith
count-le-length a (x ∷ xs) = ground (arith, count-le-length a xs)

pub index_of-holds :
    (a : ℕ) (xs : List ℕ) (i : ℕ) → index_of a xs ≡ some i → get_elem? xs i ≡ some a
unfolding index_of
index_of-holds a [] i h = cc
index_of-holds a (x ∷ xs) zero h = ground arith
index_of-holds a (x ∷ xs) (suc i) h = index_of-holds a xs i (ground arith)

pub index_of_total : (a : ℕ) (xs : List ℕ) → 0 < count a xs → index_of a xs ≢ none
unfolding index_of count
index_of_total a [] h = absurd (omega arith)
index_of_total a (x ∷ xs) h = ground (arith, index_of_total a xs)

pub index_of-lt : (a : ℕ) (xs : List ℕ) (i : ℕ) → index_of a xs ≡ some i → i < length xs
index_of-lt a xs i h = get_elem?-lt xs i (index_of-holds a xs i h)

pub length-remove_at :
    (i : ℕ) (xs : List ℕ) → i < length xs → suc (length (remove_at i xs)) ≡ length xs
unfolding remove_at
length-remove_at i [] h = absurd (omega arith)
length-remove_at zero (x ∷ xs) h = refl
length-remove_at (suc i) (x ∷ xs) h = omega (arith, length-remove_at i xs)

pub count-remove_at :
    (a : ℕ) (i : ℕ) (xs : List ℕ) (b : ℕ)
    → get_elem? xs i ≡ some b
    → count a (remove_at i xs) + one_if (b == a) ≡ count a xs
unfolding remove_at count
count-remove_at a i [] b h = cc
count-remove_at a zero (x ∷ xs) b h = ground arith
count-remove_at a (suc i) (x ∷ xs) b h = omega (arith, count-remove_at a i xs b h)

remove_at-unused :
    (i : ℕ) (xs : List ℕ)
    → count minus_one xs ≡ length xs
    → count minus_one (remove_at i xs) ≡ length (remove_at i xs)
unfolding remove_at count
remove_at-unused i [] e = refl
remove_at-unused zero (x ∷ xs) e = ground (arith, count-le-length minus_one xs)
remove_at-unused (suc i) (x ∷ xs) e =
    ground (arith, count-le-length minus_one xs, remove_at-unused i xs)

pub remove_at-IsPacked : (i : ℕ) (xs : List ℕ) → IsPacked xs → IsPacked (remove_at i xs)
unfolding remove_at
remove_at-IsPacked i [] p = tt
remove_at-IsPacked zero (x ∷ xs) p = p.1
remove_at-IsPacked (suc i) (x ∷ xs) p =
    (λ e. remove_at-unused i xs (p.0 e), remove_at-IsPacked i xs p.1)

-- An unused entry is last.
pub last_unused :
    (n : ℕ) (xs : List ℕ)
    → IsPacked xs
    → length xs ≡ suc n
    → 0 < count minus_one xs
    → get_elem? xs n ≡ some minus_one
unfolding count
last_unused n [] p e h = absurd (omega arith)
last_unused zero (x ∷ []) p e h = ground arith
last_unused zero (x ∷ y ∷ xs) p e h = absurd (omega arith)
last_unused (suc n) (x ∷ xs) p e h =
    last_unused n xs p.1 (omega arith) (elim (Bool-cases (x == minus_one)) [
      | inl q ↦ let c = p.0 (==→eq x minus_one q) in omega arith
      | inr q ↦ ground arith
    ])
