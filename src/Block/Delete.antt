-- ===== src/Block/Delete.antt =====
-- `delete_item` of src/block.c closes the gap that an item leaves, and keeps the bytes of every
-- other item.
use simple_redis_database.Common.{
  ℕ, ◌+◌, ◌-◌, ◌*◌, ◌^◌, ◌≤◌, ◌<◌, ◌≡◌, refl, ◌≢◌, none, some, arith, ltb, ◌==◌, ap, ◌⊎◌, inl, inr,
  Bool-cases, ◌∙◌, sym, subst, ltb→lt, ==→eq, ==→ne, eq→==, ne→==,
}
use simple_redis_database.FileIo.{page_size}
use simple_redis_database.Block.{
  Block, get_item_id_availability, get_item_id_offset, get_item_id_size, read_bytes, put, move_up,
  move_ids, moved_id, compose_item_id, delete_item, sub16, add16,
}
use simple_redis_database.Block.Memory.{
  compose_item_id_fields, move_up-inside, move_up-outside, move_ids_lem, read_bytes-cong,
  read_bytes-shift,
}
use simple_redis_database.Block.Items.{
  item, available, available-lt, offset, size, IsUsed, IsBlock, item-used, item-unused,
  IsUsed-cases,
}

size-lt : (id : ℕ) → get_item_id_size id < 2 ^ 15
unfolding get_item_id_size
size-lt id = omega arith

-- The ItemID of an item in use moves up exactly if it lies below the gap; one that is not in use stays.
moved_id_used :
    (o s id : ℕ)
    → get_item_id_availability id ≡ 0
    → get_item_id_offset id + s < 2 ^ 15
    → (get_item_id_availability (moved_id o s id) ≡ 0)
      × (get_item_id_size (moved_id o s id) ≡ get_item_id_size id)
      × (((get_item_id_offset id < o)
            × (get_item_id_offset (moved_id o s id) ≡ get_item_id_offset id + s))
          ⊎ ((o ≤ get_item_id_offset id)
              × (get_item_id_offset (moved_id o s id) ≡ get_item_id_offset id)))
unfolding moved_id
moved_id_used o s id free small =
    let f =
      compose_item_id_fields 0 (get_item_id_offset id + s) (get_item_id_size id) (omega arith) small
        (omega (arith, size-lt id)) in
    elim (Bool-cases (ltb (get_item_id_offset id) o)) [
      | inl e ↦ rw (e, free) (f.0, f.2, inl (ltb→lt _ o e, f.1))
      | inr e ↦ rw e (free, refl, inr (ground arith, refl))
    ]

moved_id_unused : (o s id : ℕ) → get_item_id_availability id ≡ 1 → moved_id o s id ≡ id
unfolding moved_id
moved_id_unused o s id taken = ground arith

module _ {b : Block} (v : IsBlock b) (idx n h : ℕ) (ids : ℕ → ℕ) (used : IsUsed b idx)
    (fewer : n ≤ b.n_items) (head : h ≡ 6 + 4 * n)
    (cover : (k : ℕ) → k ≢ idx → k < b.n_items → k < n)
    (moved : (k : ℕ) → k ≢ idx → k < n → ids k ≡ moved_id (offset b idx) (size b idx) (b.ids k))
    (gone : idx < n → get_item_id_availability (ids idx) ≢ 0) where
  abbrev closed : Block
  closed = record {
    n_items = n;
    head_ptr = h;
    tail_ptr = b.tail_ptr + size b idx;
    ids = ids;
    bytes = move_up (offset b idx) (size b idx) (offset b idx - b.tail_ptr) 0 b.bytes;
  }

  -- Where an item that was in use, other than the deleted one, stands afterwards.
  Shifted : ℕ → Type 0
  Shifted k =
      (available closed k ≡ 0)
      × (size closed k ≡ size b k)
      × (((offset b k < offset b idx) × (offset closed k ≡ offset b k + size b idx))
          ⊎ ((offset b idx ≤ offset b k) × (offset closed k ≡ offset b k)))

  shifted : (k : ℕ) → k ≢ idx → IsUsed b k → Shifted k
  unfolding Shifted
  shifted k ne u = rw (moved k ne (cover k ne u.0)) (
      moved_id_used (offset b idx) (size b idx) (b.ids k) u.1
        (omega (arith, v.inside k u, v.inside idx used)))

  was-IsUsed : (k : ℕ) → IsUsed closed k → (k ≢ idx) × IsUsed b k
  was-IsUsed k (lt, free) =
      let ne : k ≢ idx =
        λ e. gone (subst (λ x. x < n) e lt) (subst (λ x. available closed x ≡ 0) e free) in
      (
        ne,
        (
          omega arith,
          elim (Bool-cases (available b k == 0)) [
            | inl e ↦ ==→eq (available b k) 0 e
            | inr e ↦
                let taken : available b k ≡ 1 = ground (arith, available-lt b k) in
                let stays =
                  moved k ne lt ∙ moved_id_unused (offset b idx) (size b idx) (b.ids k) taken in
                absurd (omega (arith, ap get_item_id_availability stays))
          ],
        ),
      )

  closed-inside :
      (k : ℕ)
      → IsUsed closed k
      → (b.tail_ptr + size b idx ≤ offset closed k)
        × (offset closed k + size closed k ≤ page_size)
        × (0 < size closed k)
  unfolding Shifted
  closed-inside k u =
      let (ne, w) = was-IsUsed k u in
      omega (arith, shifted k ne w, v.inside k w, v.inside idx used, v.apart k idx w used ne)

  closed-apart :
      (j k : ℕ)
      → IsUsed closed j
      → IsUsed closed k
      → j ≢ k
      → (offset closed j + size closed j ≤ offset closed k)
        ⊎ (offset closed k + size closed k ≤ offset closed j)
  unfolding Shifted
  closed-apart j k uj uk ne =
      let (nj, wj) = was-IsUsed j uj in
      let (nk, wk) = was-IsUsed k uk in
      omega (
        arith,
        shifted j nj wj,
        shifted k nk wk,
        v.apart j k wj wk ne,
        v.apart j idx wj used nj,
        v.apart k idx wk used nk,
        v.inside j wj,
        v.inside k wk,
        v.inside idx used,
      )

  closed-IsBlock : IsBlock closed
  closed-IsBlock = record {
    head = head;
    room = omega (arith, v.head, v.room);
    tail = omega (arith, v.inside idx used);
    inside = closed-inside;
    apart = closed-apart;
  }

  item-closed_self : item closed idx ≡ none
  item-closed_self = item-unused closed-IsBlock idx (λ u. absurd (gone u.0 u.1))

  read-shifted :
      (k : ℕ)
      → k ≢ idx
      → IsUsed b k
      → read_bytes closed.bytes (offset closed k) (size b k)
        ≡ read_bytes b.bytes (offset b k) (size b k)
  unfolding Shifted
  read-shifted k ne u = elim ((shifted k ne u).2) [
    | inl (below, at) ↦
        ap (λ a. read_bytes closed.bytes a (size b k)) at
        ∙ read_bytes-shift closed.bytes b.bytes (size b idx) (size b k) (offset b k) (λ a l m.
          move_up-inside (offset b idx) (size b idx) (offset b idx - b.tail_ptr) 0 b.bytes a
            (omega (arith, v.inside k u, v.inside idx used, v.apart k idx u used ne))
            (omega (arith, v.inside k u, v.inside idx used, v.apart k idx u used ne))
            (omega (arith, v.inside k u, v.inside idx used, v.apart k idx u used ne)))
    | inr (above, at) ↦
        ap (λ a. read_bytes closed.bytes a (size b k)) at
        ∙ read_bytes-cong closed.bytes b.bytes (size b k) (offset b k) (λ a l m.
          move_up-outside (offset b idx) (size b idx) (offset b idx - b.tail_ptr) 0 b.bytes a
            (omega (arith, v.inside k u, v.inside idx used, v.apart k idx u used ne))
            (omega (arith, v.inside k u, v.inside idx used, v.apart k idx u used ne)))
  ]

  item-closed_ne : (k : ℕ) → k ≢ idx → item closed k ≡ item b k
  unfolding Shifted
  item-closed_ne k ne = elim (IsUsed-cases v k) [
    | inl u ↦
        let sh = shifted k ne u in
        item-used closed-IsBlock k (cover k ne u.0, sh.0)
        ∙ ap some (ap (read_bytes closed.bytes (offset closed k)) sh.1 ∙ read-shifted k ne u)
        ∙ sym (item-used v k u)
    | inr dead ↦
        item-unused closed-IsBlock k (λ u. dead (was-IsUsed k u).1) ∙ sym (item-unused v k dead)
  ]

-- The block that `delete_item` leaves.
abbrev pub Removes : Block → ℕ → Block → Type 0
Removes b idx after =
    IsBlock after
    × (item after idx ≡ none)
    × ((k : ℕ) → k ≢ idx → item after k ≡ item b k)
    × (after.tail_ptr ≡ b.tail_ptr + size b idx)

module _ {b : Block} (v : IsBlock b) (idx : ℕ) (used : IsUsed b idx) where
  more : add16 b.tail_ptr (size b idx) ≡ b.tail_ptr + size b idx
  more = omega (arith, v.inside idx used, v.tail)

  delete_item-last : idx + 1 ≡ b.n_items → Removes b idx (delete_item b idx)
  unfolding delete_item
  delete_item-last e =
      let n = sub16 b.n_items 1 in
      let h = sub16 b.head_ptr 4 in
      let ids = move_ids (offset b idx) (size b idx) (b.n_items - 1) 0 b.ids in
      let less : n ≡ idx = omega (arith, v.head, v.room, v.tail) in
      let head : h ≡ 6 + 4 * n = omega (arith, v.head, v.room, v.tail) in
      let cover : (k : ℕ) → k ≢ idx → k < b.n_items → k < n = λ k ne l. omega arith in
      let moved : (k : ℕ)
          → k ≢ idx
          → k < n
          → ids k ≡ moved_id (offset b idx) (size b idx) (b.ids k) =
        λ k ne l.
          ground (arith, move_ids_lem (offset b idx) (size b idx) (b.n_items - 1) 0 b.ids k) in
      let gone : idx < n → get_item_id_availability (ids idx) ≢ 0 = λ l. absurd (omega arith) in
      let fewer : n ≤ b.n_items = omega arith in
      let is : delete_item b idx ≡ closed v idx n h ids used fewer head cover moved gone =
        rw (eq→== (idx + 1) b.n_items e, delete_item, more) in
      subst (Removes b idx) (sym is) (
        closed-IsBlock v idx n h ids used fewer head cover moved gone,
        item-closed_self v idx n h ids used fewer head cover moved gone,
        item-closed_ne v idx n h ids used fewer head cover moved gone,
        refl,
      )

  delete_item-inner : idx + 1 ≢ b.n_items → Removes b idx (delete_item b idx)
  unfolding delete_item
  delete_item-inner ne =
      let n = b.n_items in
      let h = b.head_ptr in
      let free = put b.ids idx (compose_item_id 1 0 0) in
      let ids = move_ids (offset b idx) (size b idx) n 0 free in
      let cover : (k : ℕ) → k ≢ idx → k < n → k < n = λ k _ l. l in
      let moved : (k : ℕ)
          → k ≢ idx
          → k < n
          → ids k ≡ moved_id (offset b idx) (size b idx) (b.ids k) =
        λ k other l. ground (arith, move_ids_lem (offset b idx) (size b idx) n 0 free k) in
      let taken = (compose_item_id_fields 1 0 0 (omega arith) (omega arith) (omega arith)).0 in
      let stays = moved_id_unused (offset b idx) (size b idx) (compose_item_id 1 0 0) taken in
      let gone : idx < n → get_item_id_availability (ids idx) ≢ 0 = λ l. ground (
        arith,
        move_ids_lem (offset b idx) (size b idx) n 0 free idx,
        ap get_item_id_availability stays,
      ) in
      let fewer : n ≤ n = omega arith in
      let is : delete_item b idx ≡ closed v idx n h ids used fewer v.head cover moved gone =
        rw (ne→== (idx + 1) b.n_items ne, delete_item, more) in
      subst (Removes b idx) (sym is) (
        closed-IsBlock v idx n h ids used fewer v.head cover moved gone,
        item-closed_self v idx n h ids used fewer v.head cover moved gone,
        item-closed_ne v idx n h ids used fewer v.head cover moved gone,
        refl,
      )

-- Deleting an item in use of a well-formed block keeps the block well formed, removes the item,
-- changes the bytes of no other item although they move, and gives the bytes of the item back to the
-- free space.
pub delete_item-Removes :
    (b : Block) (idx : ℕ) → IsBlock b → IsUsed b idx → Removes b idx (delete_item b idx)
delete_item-Removes b idx v used = elim (Bool-cases (idx + 1 == b.n_items)) [
  | inl e ↦ delete_item-last v idx used (==→eq (idx + 1) b.n_items e)
  | inr e ↦ delete_item-inner v idx used (==→ne (idx + 1) b.n_items e)
]
