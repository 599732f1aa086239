-- ===== src/Rid.antt =====
-- The RID of include/table.h: a block address and an index in that block.
use simple_redis_database.Common.{ℕ}
use simple_redis_database.FileIo.{minus_one}

pub record Rid : Type 0 where
  pub block_addr : ℕ
  pub idx : ℕ

-- The `rid_null` of the code.
abbrev pub rid_null : Rid
rid_null = record { block_addr = minus_one; idx = 0 }
