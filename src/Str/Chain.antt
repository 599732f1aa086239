-- ===== src/Str/Chain.antt =====
-- The chunks of src/str.c that a RID leads to, and the characters that they hold.
use simple_redis_database.Common.{
  ℕ, ◌≤◌, ◌<◌, ◌≡◌, ◌≢◌, some, List, [], ◌∷◌, ◌++◌, length, drop, All,
}
use simple_redis_database.FileIo.{minus_one}
use simple_redis_database.Rid.{Rid}
use simple_redis_database.Str.{StringRecord, ChunkTable}

-- All characters of a list of chunks.
abbrev pub chars_of : List (List ℕ) → List ℕ
chars_of [] = []
chars_of (body ∷ bodies) = body ++ chars_of bodies

abbrev pub NonEmpty : List ℕ → Type 0
NonEmpty body = 0 < length body

module _ (t : ChunkTable) where
  open t use {State, table_read}

  -- From `rid` the chunks hold `bodies`, the last of them with the address -1 behind it.
  abbrev pub Chain : State → Rid → List (List ℕ) → Type 0
  Chain s rid [] = rid.block_addr ≡ minus_one
  Chain s rid (body ∷ bodies) =
      (next : Rid) × (rid.block_addr ≢ minus_one)
      × (table_read s rid ≡ some (record { rid = next; size = length body; body = body }))
      × Chain s next bodies

  -- The record is at a place from which the characters `xs` are still to come.
  pub record Reads (s : State) (r : StringRecord) (xs : List ℕ) : Type 0 where
    pub body : List ℕ
    pub bodies : List (List ℕ)
    pub size : r.chunk.size ≡ length body
    pub own : r.chunk.body ≡ body
    pub within : r.idx ≤ length body
    pub chain : Chain s r.chunk.rid bodies
    pub filled : All NonEmpty bodies
    pub left : xs ≡ drop r.idx body ++ chars_of bodies
