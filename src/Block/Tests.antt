-- ===== src/Block/Tests.antt =====
-- src/block.c at concrete inputs.
use simple_redis_database.Common.{◌≤◌, ◌≡◌, refl, some, none, [], ◌∷◌, arith}
use simple_redis_database.Block.{
  Block, init_block, new_item, delete_item, free_space, get_item_id_availability,
  get_item_id_offset, get_item_id_size, compose_item_id,
}
use simple_redis_database.Block.Items.{item, IsUsed, init_block-IsBlock}
use simple_redis_database.Block.New.{Stores, new_item-Stores}
use simple_redis_database.Block.Delete.{Removes, delete_item-Removes}

abbrev raw : Block
raw = record { n_items = 7; head_ptr = 1; tail_ptr = 2; ids = λ k. 0; bytes = λ k. 0 }

abbrev fresh : Block
fresh = init_block raw

abbrev one : Block
one = (new_item fresh (1 ∷ 2 ∷ 3 ∷ [])).1

abbrev two : Block
two = (new_item one (4 ∷ 5 ∷ [])).1

-- The bytes of the second item move up by the three bytes of the first.
moves :
    (item two 0 ≡ some (1 ∷ 2 ∷ 3 ∷ []))
    × (item (delete_item two 0) 0 ≡ none)
    × (item (delete_item two 0) 1 ≡ some (4 ∷ 5 ∷ []))
    × (free_space (delete_item two 0) ≡ 112)
unfolding init_block new_item delete_item free_space item get_item_id_availability
    get_item_id_offset get_item_id_size compose_item_id simple_redis_database.Block.get_item
    simple_redis_database.Block.read_bytes
moves = (refl, refl, refl, refl)

room_fresh : 3 ≤ free_space fresh
unfolding init_block free_space
room_fresh = omega arith

new_item-Stores_example : Stores fresh (1 ∷ 2 ∷ 3 ∷ []) (new_item fresh (1 ∷ 2 ∷ 3 ∷ []))
new_item-Stores_example =
    new_item-Stores fresh (1 ∷ 2 ∷ 3 ∷ []) (init_block-IsBlock raw) (omega arith) room_fresh

IsUsed-one : IsUsed one 0
unfolding init_block new_item get_item_id_availability compose_item_id
IsUsed-one = (omega arith, refl)

delete_item-Removes_example : Removes one 0 (delete_item one 0)
delete_item-Removes_example = delete_item-Removes one 0 new_item-Stores_example.0 IsUsed-one
