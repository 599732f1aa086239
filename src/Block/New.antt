-- ===== src/Block/New.antt =====
-- `new_item` of src/block.c stores the bytes it is given, and leaves every other item as it was.
use simple_redis_database.Common.{
  ℕ, ◌+◌, ◌-◌, ◌*◌, ◌≤◌, ◌<◌, ◌≡◌, refl, ◌≢◌, none, some, List, arith, ◌==◌, length, ap, ap₂, ◌⊎◌,
  inl, inr, Bool-cases, ◌∙◌, sym, subst, Option-cases, ==→eq, ==→ne, eq→==, ne→==,
}
use simple_redis_database.FileIo.{page_size}
use simple_redis_database.Block.{
  Block, get_item_id_availability, get_item_id_offset, get_item_id_size, read_bytes, put, copy_in,
  compose_item_id, new_item, free_space, first_free, sub16, add16,
}
use simple_redis_database.Block.Memory.{
  compose_item_id_fields, copy_in-outside, read_bytes-copy_in, read_bytes-cong, first_free-some,
}
use simple_redis_database.Block.Items.{
  item, available, offset, size, IsUsed, IsBlock, item-used, item-unused, IsUsed-cases,
}

module _ {b : Block} (v : IsBlock b) (src : List ℕ) (i n h : ℕ) (vacant : ¬ IsUsed b i)
    (i_lt : i < n) (head : h ≡ 6 + 4 * n) (fits : h + length src ≤ b.tail_ptr)
    (pos : 0 < length src) (only : (k : ℕ) → k ≢ i → k < n → k < b.n_items)
    (still : (k : ℕ) → k < b.n_items → k < n) where
  abbrev tail : ℕ
  tail = b.tail_ptr - length src

  abbrev placed : Block
  placed = record {
    n_items = n;
    head_ptr = h;
    tail_ptr = tail;
    ids = put b.ids i (compose_item_id 0 tail (length src));
    bytes = copy_in tail src b.bytes;
  }

  fields :
      (get_item_id_availability (compose_item_id 0 tail (length src)) ≡ 0)
      × (get_item_id_offset (compose_item_id 0 tail (length src)) ≡ tail)
      × (get_item_id_size (compose_item_id 0 tail (length src)) ≡ length src)
  fields =
      compose_item_id_fields 0 tail (length src) (omega arith) (omega (arith, v.tail))
        (omega (arith, v.tail))

  other_id : (k : ℕ) → k ≢ i → placed.ids k ≡ b.ids k
  other_id k ne = rw (ne→== i k (λ e. ne (sym e)))

  own_id : (k : ℕ) → k ≡ i → placed.ids k ≡ compose_item_id 0 tail (length src)
  own_id k e = rw (eq→== i k (sym e))

  -- Where the item stands: the new one at the tail, any other where it stood.
  Stands : ℕ → ℕ → ℕ → ℕ → Type 0
  Stands k a o s = (available placed k ≡ a) × (offset placed k ≡ o) × (size placed k ≡ s)

  own : (k : ℕ) → k ≡ i → Stands k 0 tail (length src)
  unfolding Stands
  own k e =
      let q = own_id k e in
      (
        ap get_item_id_availability q ∙ fields.0,
        ap get_item_id_offset q ∙ fields.1,
        ap get_item_id_size q ∙ fields.2,
      )

  other : (k : ℕ) → k ≢ i → Stands k (available b k) (offset b k) (size b k)
  unfolding Stands
  other k ne =
      let q = other_id k ne in
      (ap get_item_id_availability q, ap get_item_id_offset q, ap get_item_id_size q)

  was-IsUsed : (k : ℕ) → k ≢ i → IsUsed placed k → IsUsed b k
  unfolding Stands
  was-IsUsed k ne (lt, free) = (only k ne lt, sym ((other k ne).0) ∙ free)

  is_used : (k : ℕ) → k ≢ i → IsUsed b k → IsUsed placed k
  unfolding Stands
  is_used k ne (lt, free) = (still k lt, (other k ne).0 ∙ free)

  placed-inside :
      (k : ℕ)
      → IsUsed placed k
      → (tail ≤ offset placed k)
        × (offset placed k + size placed k ≤ page_size)
        × (0 < size placed k)
  unfolding Stands
  placed-inside k u = elim (Bool-cases (k == i)) [
    | inl e ↦ omega (arith, own k (==→eq k i e), v.tail)
    | inr e ↦ let ne = ==→ne k i e in omega (arith, other k ne, v.inside k (was-IsUsed k ne u))
  ]

  placed-apart :
      (j k : ℕ)
      → IsUsed placed j
      → IsUsed placed k
      → j ≢ k
      → (offset placed j + size placed j ≤ offset placed k)
        ⊎ (offset placed k + size placed k ≤ offset placed j)
  unfolding Stands
  placed-apart j k uj uk ne = elim (Bool-cases (j == i)) [
    | inl e ↦
        let q = ==→eq j i e in
        let nk : k ≢ i = λ r. ne (q ∙ sym r) in
        inl (omega (arith, own j q, other k nk, v.inside k (was-IsUsed k nk uk)))
    | inr e ↦
        let nj = ==→ne j i e in
        elim (Bool-cases (k == i)) [
          | inl f ↦
              inr (omega (arith, own k (==→eq k i f), other j nj, v.inside j (was-IsUsed j nj uj)))
          | inr f ↦
              let nk = ==→ne k i f in
              omega (
                arith,
                other j nj,
                other k nk,
                v.apart j k (was-IsUsed j nj uj) (was-IsUsed k nk uk) ne,
              )
        ]
  ]

  placed-IsBlock : IsBlock placed
  placed-IsBlock = record {
    head = head;
    room = omega arith;
    tail = omega (arith, v.tail);
    inside = placed-inside;
    apart = placed-apart;
  }

  item-placed_self : item placed i ≡ some src
  unfolding Stands
  item-placed_self =
      let o = own i refl in
      item-used placed-IsBlock i (i_lt, o.0)
      ∙ ap some (ap₂ (read_bytes placed.bytes) o.1 o.2 ∙ read_bytes-copy_in tail src b.bytes)

  item-placed_ne : (k : ℕ) → k ≢ i → item placed k ≡ item b k
  unfolding Stands
  item-placed_ne k ne = elim (IsUsed-cases v k) [
    | inl u ↦
        let o = other k ne in
        let at = v.inside k u in
        item-used placed-IsBlock k (is_used k ne u)
        ∙ ap some (
            ap₂ (read_bytes placed.bytes) o.1 o.2
            ∙ read_bytes-cong placed.bytes b.bytes (size b k) (offset b k)
                (λ a l m. copy_in-outside tail src b.bytes a (inr (omega arith))))
        ∙ sym (item-used v k u)
    | inr dead ↦
        item-unused placed-IsBlock k (λ u. dead (was-IsUsed k ne u)) ∙ sym (item-unused v k dead)
  ]

-- The block that `new_item` leaves, and the index of the new item in it.
abbrev pub Stores : Block → List ℕ → ℕ × Block → Type 0
Stores b src (i, after) =
    IsBlock after
    × (item b i ≡ none)
    × (item after i ≡ some src)
    × ((k : ℕ) → k ≢ i → item after k ≡ item b k)

module _ {b : Block} (v : IsBlock b) where
  free_space-reuse :
      (i : ℕ) → first_free b.ids b.n_items 0 ≡ some i → free_space b ≡ b.tail_ptr - b.head_ptr
  unfolding free_space
  free_space-reuse i e = rw (e, free_space) (omega (arith, v.room, v.tail))

  free_space-append :
      first_free b.ids b.n_items 0 ≡ none
      → 0 < free_space b
      → free_space b + b.head_ptr + 4 ≡ b.tail_ptr
  unfolding free_space
  free_space-append e = rw (e, free_space) (ground (arith, v.room, v.tail))

  module _ (src : List ℕ) (pos : 0 < length src) (fits : length src ≤ free_space b) where
    new_item-reuse : (i : ℕ) → first_free b.ids b.n_items 0 ≡ some i → Stores b src (new_item b src)
    unfolding new_item
    new_item-reuse i e =
        let (_, lt, free) = first_free-some b.ids b.n_items 0 i e in
        let vacant : ¬ IsUsed b i = λ u. omega (arith, u.1) in
        let i_lt : i < b.n_items = omega arith in
        let space : b.head_ptr + length src ≤ b.tail_ptr =
          omega (arith, free_space-reuse i e, v.room) in
        let less : sub16 b.tail_ptr (length src) ≡ b.tail_ptr - length src =
          omega (arith, v.tail) in
        let is : new_item b src ≡ (
          i,
          placed v src i b.n_items b.head_ptr vacant i_lt v.head space pos (λ k _ l. l) (λ k l. l),
        ) =
          rw (e, new_item, less) in
        subst (Stores b src) (sym is) (
          placed-IsBlock v src i b.n_items b.head_ptr vacant i_lt v.head space pos (λ k _ l. l)
              (λ k l. l),
          item-unused v i vacant,
          item-placed_self v src i b.n_items b.head_ptr vacant i_lt v.head space pos (λ k _ l. l)
              (λ k l. l),
          item-placed_ne v src i b.n_items b.head_ptr vacant i_lt v.head space pos (λ k _ l. l)
              (λ k l. l),
        )

    new_item-append : first_free b.ids b.n_items 0 ≡ none → Stores b src (new_item b src)
    unfolding new_item
    new_item-append e =
        let i = b.n_items in
        let n = add16 i 1 in
        let h = add16 b.head_ptr 4 in
        let more : n ≡ i + 1 = omega (arith, v.head, v.room, v.tail) in
        let vacant : ¬ IsUsed b i = λ u. omega (arith, u.0) in
        let i_lt : i < n = omega arith in
        let head : h ≡ 6 + 4 * n = omega (arith, v.head, v.room, v.tail) in
        let space : h + length src ≤ b.tail_ptr =
          omega (arith, free_space-append e (omega arith)) in
        let only : (k : ℕ) → k ≢ i → k < n → k < i = λ k ne l. omega arith in
        let still : (k : ℕ) → k < i → k < n = λ k l. omega arith in
        let less : sub16 b.tail_ptr (length src) ≡ b.tail_ptr - length src =
          omega (arith, v.tail) in
        let is : new_item b src ≡ (i, placed v src i n h vacant i_lt head space pos only still) =
          rw (e, new_item, less) in
        subst (Stores b src) (sym is) (
          placed-IsBlock v src i n h vacant i_lt head space pos only still,
          item-unused v i vacant,
          item-placed_self v src i n h vacant i_lt head space pos only still,
          item-placed_ne v src i n h vacant i_lt head space pos only still,
        )

-- On a well-formed block, if the item is not empty and free_space says that there is room, new_item
-- keeps the block well formed, returns an index that held no item and now holds these bytes, and
-- changes no other item.
pub new_item-Stores :
    (b : Block) (src : List ℕ)
    → IsBlock b
    → 0 < length src
    → length src ≤ free_space b
    → Stores b src (new_item b src)
new_item-Stores b src v pos fits = elim (Option-cases (first_free b.ids b.n_items 0)) [
  | inr (i, e) ↦ new_item-reuse v src pos fits i e
  | inl e ↦ new_item-append v src pos fits e
]
