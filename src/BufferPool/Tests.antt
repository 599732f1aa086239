-- ===== src/BufferPool/Tests.antt =====
-- src/buffer_pool.c at concrete inputs.
use simple_redis_database.Common.{
  ℕ, ◌*◌, ◌<◌, ◌≡◌, refl, some, none, inr, List, [], ◌∷◌, length, get_elem?, arith, replicate, ◌-◌,
  sym, ap, subst, ◌∙◌,
}
use simple_redis_database.FileIo.{page_size, minus_one, read_page, open_file}
use simple_redis_database.BufferPool.{
  BufferPool, init_buffer_pool, close_buffer_pool, get_page, release, cache_page, to_front,
}
use simple_redis_database.BufferPool.Slots.{HasRoom}
use simple_redis_database.BufferPool.Cache.{IsValid, view, Gets}
use simple_redis_database.BufferPool.GetPage.{get_page-Gets}
use simple_redis_database.BufferPool.Release.{release-view}
use simple_redis_database.BufferPool.Lifetime.{whole, init_buffer_pool-view, close_buffer_pool-view}

abbrev disk : List ℕ
disk = 10 ∷ 20 ∷ 30 ∷ []

abbrev blank : BufferPool ℕ
blank = record {
  file = record { fp = none; length = 0 };
  slots = replicate cache_page (record { page = 0; addr = 0; ref = 0 });
  lru = [];
}

abbrev start : BufferPool ℕ
start = init_buffer_pool (some (whole disk)) none blank

init_buffer_pool-view_example :
    IsValid start disk × ((k : ℕ) → k < length disk → view start disk k ≡ get_elem? disk k)
init_buffer_pool-view_example = init_buffer_pool-view disk none blank (omega arith) refl

start-IsValid : IsValid start disk
start-IsValid = init_buffer_pool-view_example.0

start-HasRoom : HasRoom (page_size * 1) start.slots
unfolding init_buffer_pool
start-HasRoom = (0, record { page = 0; addr = _; ref = 0 }, refl, inr refl)

get_page-Gets_example :
    (i : ℕ) × (after : BufferPool ℕ) × (get_page start (page_size * 1) ≡ some (i, after))
    × Gets start disk 1 i after
get_page-Gets_example = get_page-Gets start-IsValid 1 (omega arith) start-HasRoom

-- The pool after page 1 is fetched.
abbrev fetched : BufferPool ℕ
fetched = get_page-Gets_example.1

abbrev got : Gets start disk 1 get_page-Gets_example.0 fetched
got = get_page-Gets_example.3

close_buffer_pool-view_example :
    (d : List ℕ) × (closed : BufferPool ℕ) × (close_buffer_pool fetched
      ≡ some (some (whole d), closed))
    × (length d ≡ length got.disk)
    × ((k : ℕ) → k < length got.disk → get_elem? d k ≡ view fetched got.disk k)
close_buffer_pool-view_example = close_buffer_pool-view fetched got.disk got.valid

-- The same pool, computed.
abbrev pinned : BufferPool ℕ
pinned = record {
  file = record { fp = some (whole disk); length = 384 };
  slots =
      record { page = 20; addr = 128; ref = 1 }
      ∷ replicate 15 (record { page = 0; addr = minus_one; ref = 0 });
  lru = 128 ∷ replicate 15 minus_one;
}

runs : get_page start (page_size * 1) ≡ some (0, pinned)
unfolding get_page init_buffer_pool to_front read_page open_file
runs = refl

from_some : {a b : ℕ × BufferPool ℕ} → some a ≡ some b → a ≡ b
from_some e = cc

fetched-eq-pinned : fetched ≡ pinned
fetched-eq-pinned =
    ap (λ (r : ℕ × BufferPool ℕ). r.1) (from_some (sym get_page-Gets_example.2 ∙ runs))

pinned-IsValid : IsValid pinned got.disk
pinned-IsValid = subst (λ p. IsValid p got.disk) fetched-eq-pinned got.valid

release-view_example :
    IsValid (release pinned (page_size * 1)) got.disk
    × ((k : ℕ)
        → k < length got.disk
        → view (release pinned (page_size * 1)) got.disk k ≡ view pinned got.disk k)
    × (get_elem? (release pinned (page_size * 1)).slots 0
        ≡ some (record { page = 20; addr = 128; ref = 1 - 1 }))
release-view_example =
    release-view pinned-IsValid 1 0 (record { page = 20; addr = 128; ref = 1 })
      (omega (arith, got.same_length)) refl refl (omega arith) (omega arith)
