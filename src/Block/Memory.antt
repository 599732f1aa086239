-- ===== src/Block/Memory.antt =====
-- The ItemID words and the byte loops of src/block.c.
use simple_redis_database.Common.{
  ℕ, zero, suc, ◌+◌, ◌-◌, ◌^◌, ◌≤◌, ◌<◌, ◌≡◌, refl, ◌≢◌, true, false, ◌&&◌, none, some, List, [],
  ◌∷◌, arith, ltb, leb, ◌==◌, if◌then◌else◌, length, ap, ap₂, ◌⊎◌, inl, inr, Bool-cases, ==→eq,
  ==→ne, eq→==, ne→==, ◌∙◌,
}
use simple_redis_database.Block.{
  get_item_id_availability, get_item_id_offset, get_item_id_size, compose_item_id, put, first_free,
  copy_in, move_up, moved_id, move_ids, read_bytes,
}

-- The fields of a composed ItemID are those that it was composed of, if each fits its width.
pub compose_item_id_fields :
    (availability offset size : ℕ)
    → availability < 2
    → offset < 2 ^ 15
    → size < 2 ^ 15
    → (get_item_id_availability (compose_item_id availability offset size) ≡ availability)
      × (get_item_id_offset (compose_item_id availability offset size) ≡ offset)
      × (get_item_id_size (compose_item_id availability offset size) ≡ size)
unfolding get_item_id_availability get_item_id_offset get_item_id_size compose_item_id
compose_item_id_fields availability offset size a o s = omega arith

pub copy_in-outside :
    (offset : ℕ) (item : List ℕ) (bytes : ℕ → ℕ) (k : ℕ)
    → (k < offset) ⊎ (offset + length item ≤ k)
    → copy_in offset item bytes k ≡ bytes k
unfolding copy_in
copy_in-outside offset [] bytes k h = refl
copy_in-outside offset (x ∷ item) bytes k h =
    ground (arith, copy_in-outside (offset + 1) item (put bytes offset x) k)

pub read_bytes-copy_in :
    (offset : ℕ) (item : List ℕ) (bytes : ℕ → ℕ)
    → read_bytes (copy_in offset item bytes) offset (length item) ≡ item
unfolding copy_in read_bytes
read_bytes-copy_in offset [] bytes = refl
read_bytes-copy_in offset (x ∷ item) bytes = ground (
  arith,
  copy_in-outside (offset + 1) item (put bytes offset x) offset,
  read_bytes-copy_in (offset + 1) item (put bytes offset x),
)

pub read_bytes-cong :
    (f g : ℕ → ℕ) (n offset : ℕ)
    → ((k : ℕ) → offset ≤ k → k < offset + n → f k ≡ g k)
    → read_bytes f offset n ≡ read_bytes g offset n
unfolding read_bytes
read_bytes-cong f g zero offset h = refl
read_bytes-cong f g (suc n) offset h =
    ap₂ ◌∷◌ (h offset (omega arith) (omega arith))
      (read_bytes-cong f g n (offset + 1) (λ k l m. h k (omega arith) (omega arith)))

-- Two memories that agree, the second `d` bytes higher.
pub read_bytes-shift :
    (f g : ℕ → ℕ) (d n offset : ℕ)
    → ((k : ℕ) → offset ≤ k → k < offset + n → f (k + d) ≡ g k)
    → read_bytes f (offset + d) n ≡ read_bytes g offset n
unfolding read_bytes
read_bytes-shift f g d zero offset h = refl
read_bytes-shift f g d (suc n) offset h = ap₂ ◌∷◌ (h offset (omega arith) (omega arith)) (
    ap (λ a. read_bytes f a n) (omega arith)
    ∙ read_bytes-shift f g d n (offset + 1) (λ k l m. h k (omega arith) (omega arith)))

-- The loop writes only the `n` bytes that end `i` below the end of the gap.
pub move_up-outside :
    (offset size n i : ℕ) (bytes : ℕ → ℕ) (k : ℕ)
    → i + n ≤ offset
    → (k + i + n < offset + size) ⊎ (offset + size ≤ k + i)
    → move_up offset size n i bytes k ≡ bytes k
unfolding move_up
move_up-outside offset size zero i bytes k h out = refl
move_up-outside offset size (suc n) i bytes k h out =
    let p = offset + size - 1 - i in
    let ne : (p == k) ≡ false = ne→== p k (omega arith) in
    move_up-outside offset size n (i + 1) (put bytes p (bytes (offset - 1 - i))) k (omega arith)
      (omega arith)
    ∙ rw ne

-- There it stores the bytes that lay `size` lower.
pub move_up-inside :
    (offset size n i : ℕ) (bytes : ℕ → ℕ) (k : ℕ)
    → i + n ≤ offset
    → offset ≤ k + i + n
    → k + i < offset
    → move_up offset size n i bytes (k + size) ≡ bytes k
unfolding move_up
move_up-inside offset size zero i bytes k h lo hi = absurd (omega arith)
move_up-inside offset size (suc n) i bytes k h lo hi =
    let p = offset + size - 1 - i in
    let rest = put bytes p (bytes (offset - 1 - i)) in
    elim (Bool-cases (k + i + 1 == offset)) [
      | inl e ↦
          let q = ==→eq (k + i + 1) offset e in
          let at_p : (p == k + size) ≡ true = eq→== p (k + size) (omega arith) in
          move_up-outside offset size n (i + 1) rest (k + size) (omega arith) (inr (omega arith))
          ∙ rw at_p (ap bytes (omega arith))
      | inr e ↦
          let q = ==→ne (k + i + 1) offset e in
          let ne : (p == k) ≡ false = ne→== p k (omega arith) in
          move_up-inside offset size n (i + 1) rest k (omega arith) (omega arith) (omega arith)
          ∙ rw ne
    ]

pub move_ids_lem :
    (offset size n i : ℕ) (ids : ℕ → ℕ) (k : ℕ)
    → move_ids offset size n i ids k
      ≡ (if leb i k && ltb k (i + n) then moved_id offset size (ids k) else ids k)
unfolding move_ids
move_ids_lem offset size zero i ids k = ground arith
move_ids_lem offset size (suc n) i ids k =
    ground (arith, move_ids_lem offset size n (i + 1) (put ids i (moved_id offset size (ids i))) k)

-- What the search for a reusable ItemID finds is reusable, and if it finds none there is none.
pub first_free-some :
    (ids : ℕ → ℕ) (n i j : ℕ)
    → first_free ids n i ≡ some j
    → (i ≤ j) × (j < i + n) × (get_item_id_availability (ids j) ≡ 1)
unfolding first_free
first_free-some ids zero i j h = cc
first_free-some ids (suc n) i j h = ground (arith, first_free-some ids n (i + 1) j)

pub first_free-none :
    (ids : ℕ → ℕ) (n i k : ℕ)
    → first_free ids n i ≡ none
    → i ≤ k
    → k < i + n
    → get_item_id_availability (ids k) ≢ 1
unfolding first_free
first_free-none ids zero i k h l m = absurd (omega arith)
first_free-none ids (suc n) i k h l m = elim (Bool-cases (i == k)) [
  | inl e ↦ let q = ==→eq i k e in λ a. ground arith
  | inr e ↦ first_free-none ids n (i + 1) k (ground arith) (ground arith) (omega arith)
]
