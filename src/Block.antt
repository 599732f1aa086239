-- ===== src/Block.antt =====
-- include/block.h and src/block.c: a slotted page of variable-length items.
--
-- The page's two sections are two memories: `ids k` is the 32-bit word at data + 4 * k, and
-- `bytes k` the byte at offset `k` of the block. They do not overlap while head_ptr <= tail_ptr.
-- A `short` is its 16-bit pattern. The bit fields of an ItemID are read and joined by arithmetic:
-- `compose_item_id` joins disjoint fields, so its `|` is `+`.
pub mod Memory
pub mod Items
pub mod New
pub mod Delete
mod Tests
use simple_redis_database.Common.{
  ℕ, zero, suc, ◌+◌, ◌-◌, ◌*◌, ◌/◌, ◌%◌, ◌^◌, Bool, ◌&&◌, ◌||◌, Option, none, some, List, [], ◌∷◌,
  ltb, leb, ◌==◌, if◌then◌else◌, length,
}
use simple_redis_database.FileIo.{page_size}

pub record Block : Type 0 where
  pub n_items : ℕ
  pub head_ptr : ℕ
  pub tail_ptr : ℕ
  pub ids : ℕ → ℕ
  pub bytes : ℕ → ℕ

unfoldable pub get_item_id_availability : ℕ → ℕ
get_item_id_availability id = (id / 2 ^ 30) % 2

unfoldable pub get_item_id_offset : ℕ → ℕ
get_item_id_offset id = (id / 2 ^ 15) % 2 ^ 15

unfoldable pub get_item_id_size : ℕ → ℕ
get_item_id_size id = id % 2 ^ 15

unfoldable pub compose_item_id : (availability offset size : ℕ) → ℕ
compose_item_id availability offset size =
    (availability % 2) * 2 ^ 30 + (offset % 2 ^ 15) * 2 ^ 15 + size % 2 ^ 15

abbrev pub header_size : ℕ
header_size = 6

abbrev pub sizeof_item_id : ℕ
sizeof_item_id = 4

abbrev pub add16 : ℕ → ℕ → ℕ
add16 a b = (a + b) % 2 ^ 16

abbrev pub sub16 : ℕ → ℕ → ℕ
sub16 a b = (a + (2 ^ 16 - b % 2 ^ 16)) % 2 ^ 16

abbrev pub is_negative16 : ℕ → Bool
is_negative16 a = leb (2 ^ 15) a

-- A memory with one cell written.
abbrev pub put : (ℕ → ℕ) → ℕ → ℕ → ℕ → ℕ
put f a v k = if a == k then v else f k

unfoldable pub init_block : Block → Block
init_block block = record block { n_items = 0; head_ptr = header_size; tail_ptr = page_size }

-- The offset of the item, or `none` for NULL.
unfoldable pub get_item : Block → ℕ → Option ℕ
get_item block idx =
    if is_negative16 idx || leb block.n_items idx
    then none
    else if get_item_id_availability (block.ids idx) == 0
    then some (get_item_id_offset (block.ids idx))
    else none

-- The first reusable ItemID among the `n` from index `i` on.
unfoldable pub first_free : (ℕ → ℕ) → ℕ → ℕ → Option ℕ
first_free ids zero i = none
first_free ids (suc n) i =
    let rest = first_free ids n (i + 1) in
    if get_item_id_availability (ids i) == 1 then some i else rest

unfoldable pub copy_in : ℕ → List ℕ → (ℕ → ℕ) → ℕ → ℕ
copy_in offset [] bytes = bytes
copy_in offset (x ∷ item) bytes = copy_in (offset + 1) item (put bytes offset x)

unfoldable pub new_item : Block → List ℕ → ℕ × Block
unfolding first_free copy_in
new_item block item =
    let size = length item in
    let tail = sub16 block.tail_ptr size in
    let id = compose_item_id 0 tail size in
    elim (first_free block.ids block.n_items 0) [
      | some i ↦ (
        i,
        record block {
          tail_ptr = tail;
          ids = put block.ids i id;
          bytes = copy_in tail item block.bytes;
        },
      )
      | none ↦ (
        block.n_items,
        record {
          n_items = add16 block.n_items 1;
          head_ptr = add16 block.head_ptr sizeof_item_id;
          tail_ptr = tail;
          ids = put block.ids block.n_items id;
          bytes = copy_in tail item block.bytes;
        },
      )
    ]

-- `n` rounds, from round `i` on, of the loop that moves the bytes below `offset` up by `size`.
unfoldable pub move_up : (offset size : ℕ) → ℕ → ℕ → (ℕ → ℕ) → ℕ → ℕ
move_up offset size zero i bytes = bytes
move_up offset size (suc n) i bytes =
    move_up offset size n (i + 1) (put bytes (offset + size - 1 - i) (bytes (offset - 1 - i)))

-- The ItemID of an item that lies below `offset`, moved with it.
unfoldable pub moved_id : (offset size : ℕ) → ℕ → ℕ
moved_id offset size id =
    if ltb (get_item_id_offset id) offset && get_item_id_availability id == 0
    then compose_item_id (get_item_id_availability id) (get_item_id_offset id + size)
        (get_item_id_size id)
    else id

unfoldable pub move_ids : (offset size : ℕ) → ℕ → ℕ → (ℕ → ℕ) → ℕ → ℕ
unfolding moved_id
move_ids offset size zero i ids = ids
move_ids offset size (suc n) i ids =
    move_ids offset size n (i + 1) (put ids i (moved_id offset size (ids i)))

unfoldable pub delete_item : Block → ℕ → Block
unfolding move_up move_ids
delete_item block idx =
    let id = block.ids idx in
    let offset = get_item_id_offset id in
    let size = get_item_id_size id in
    let bytes = move_up offset size (offset - block.tail_ptr) 0 block.bytes in
    let tail = add16 block.tail_ptr size in
    if idx + 1 == block.n_items
    then record {
      n_items = sub16 block.n_items 1;
      head_ptr = sub16 block.head_ptr sizeof_item_id;
      tail_ptr = tail;
      ids = move_ids offset size (block.n_items - 1) 0 block.ids;
      bytes = bytes;
    }
    else record block {
      tail_ptr = tail;
      ids = move_ids offset size block.n_items 0 (put block.ids idx (compose_item_id 1 0 0));
      bytes = bytes;
    }

unfoldable pub free_space : Block → ℕ
unfolding first_free
free_space block =
    let ans = sub16 (sub16 block.tail_ptr block.head_ptr) sizeof_item_id in
    elim (first_free block.ids block.n_items 0) [
      | some _ ↦ sub16 block.tail_ptr block.head_ptr
      | none ↦ if is_negative16 ans then 0 else ans
    ]

-- The `n` bytes from `offset` on.
unfoldable pub read_bytes : (ℕ → ℕ) → ℕ → ℕ → List ℕ
read_bytes bytes offset zero = []
read_bytes bytes offset (suc n) = bytes offset ∷ read_bytes bytes (offset + 1) n
