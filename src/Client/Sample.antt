-- ===== src/Client/Sample.antt =====
-- A store that keeps one value, for tests.
use simple_redis_database.Common.{
  ℕ, zero, suc, ◌≤◌, ◌≡◌, subst, Option, none, some, List, [], ◌∷◌, length, take, arith,
}
use simple_redis_database.Server.{Store}
use simple_redis_database.Client.Wire.{Bounded}

abbrev pub cut : ℕ → Option (List ℕ) → Option (List ℕ)
cut n none = none
cut n (some v) = some (take n v)

take-short : (n : ℕ) (v : List ℕ) → length (take n v) ≤ n
take-short zero v = omega arith
take-short (suc n) [] = omega arith
take-short (suc n) (x ∷ v) = (let le = take-short n v in omega arith)

abbrev pub cell : Store
cell = record {
  State = Option (List ℕ);
  myjql_get = λ s key n. (cut n s, s);
  myjql_set = λ s key value. some value;
  myjql_del = λ s key. none;
}

pub cell-Bounded : Bounded cell
cell-Bounded none key n v e = cc
cell-Bounded (some w) key n v e =
    let same : take n w ≡ v = cc in subst (λ l. length l ≤ n) same (take-short n w)
