-- ===== src/Block/Items.antt =====
-- The items of a block of src/block.c, and what keeps them intact.
use simple_redis_database.Common.{
  ℕ, ◌+◌, ◌*◌, ◌≤◌, ◌<◌, ◌≡◌, refl, ◌≢◌, ◌&&◌, ◌||◌, false, Option, none, some, List, arith, ltb,
  leb, ◌==◌, ◌⊎◌, inl, inr, Bool-cases,
}
use simple_redis_database.FileIo.{page_size}
use simple_redis_database.Block.{
  Block, init_block, get_item_id_availability, get_item_id_offset, get_item_id_size, get_item,
  read_bytes, is_negative16,
}

-- The bytes of item `k`, as `table_read` copies them; `none` where `get_item` returns NULL.
unfoldable pub item : Block → ℕ → Option (List ℕ)
item b k = elim (get_item b k) [
  | none ↦ none
  | some offset ↦ some (read_bytes b.bytes offset (get_item_id_size (b.ids k)))
]

abbrev pub available : Block → ℕ → ℕ
available b k = get_item_id_availability (b.ids k)

abbrev pub offset : Block → ℕ → ℕ
offset b k = get_item_id_offset (b.ids k)

abbrev pub size : Block → ℕ → ℕ
size b k = get_item_id_size (b.ids k)

abbrev pub IsUsed : Block → ℕ → Type 0
IsUsed b k = (k < b.n_items) × (available b k ≡ 0)

-- The two sections do not overlap, and the items in use lie in the second, apart from each other,
-- none of them empty.
pub record IsBlock (b : Block) : Type 0 where
  pub head : b.head_ptr ≡ 6 + 4 * b.n_items
  pub room : b.head_ptr ≤ b.tail_ptr
  pub tail : b.tail_ptr ≤ page_size
  pub inside :
      (k : ℕ)
      → IsUsed b k
      → (b.tail_ptr ≤ offset b k) × (offset b k + size b k ≤ page_size) × (0 < size b k)
  pub apart :
      (j k : ℕ)
      → IsUsed b j
      → IsUsed b k
      → j ≢ k
      → (offset b j + size b j ≤ offset b k) ⊎ (offset b k + size b k ≤ offset b j)

pub available-lt : (b : Block) (k : ℕ) → available b k < 2
unfolding get_item_id_availability
available-lt b k = omega arith

module _ {b : Block} (v : IsBlock b) (k : ℕ) where
  pub item-used : IsUsed b k → item b k ≡ some (read_bytes b.bytes (offset b k) (size b k))
  unfolding item get_item
  item-used (lt, free) =
      let e : (is_negative16 k || leb b.n_items k) ≡ false =
        ground (arith, v.head, v.room, v.tail) in
      rw (item, get_item, e, free)

  pub item-unused : ¬ IsUsed b k → item b k ≡ none
  unfolding item get_item
  item-unused dead =
      ground (arith, available-lt b k, λ (p : k < b.n_items) (q : available b k ≡ 0). dead (p, q))

  pub IsUsed-cases : IsUsed b k ⊎ (¬ IsUsed b k)
  IsUsed-cases = elim (Bool-cases (ltb k b.n_items && available b k == 0)) [
    | inl e ↦ inl (ground arith, ground arith)
    | inr e ↦ inr (λ u. ground (arith, u.0, u.1))
  ]

-- A fresh block is well formed and holds nothing.
pub init_block-IsBlock : (b : Block) → IsBlock (init_block b)
unfolding init_block
init_block-IsBlock b = record {
  head = refl;
  room = omega arith;
  tail = omega arith;
  inside = λ k u. absurd (omega (arith, u.0));
  apart = λ j k uj uk ne. absurd (omega (arith, uj.0));
}
