-- ===== src/Bincode.antt =====
-- The crate bincode, which lays records out as bytes: a parameter of what uses it. The source's
-- records that go through it are the superblock and the shards of the index.
use objstr.Base.{ℕ, ◌<◌, ◌^◌, ◌≡◌, ◌++◌}
use objstr.RawError.{Bytes, Result, ok}
use objstr.Superblock.{Superblock}
use objstr.Index.{ShardData}
use objstr.Extent.{to_le_bytes}

pub record Bincode : Type 0 where
  pub superblock_out : Superblock → Result Bytes
  pub superblock_in : Bytes → Result Superblock
  pub shard_out : ShardData → Result Bytes
  pub shard_in : Bytes → Result ShardData

abbrev pub with_checksum : Superblock → ℕ → Superblock
with_checksum s c = record s { superblock_checksum = c }

-- The documented layout at one superblock: the fields one after another, a u32 as four bytes, low
-- byte first. Reading ignores what stands behind.
pub record IsLaidOut (b : Bincode) (s : Superblock) : Type 0 where
  pub head : Bytes
  pub tail : Bytes
  pub out :
      (c : ℕ)
      → c < 2 ^ 32
      → b.superblock_out (with_checksum s c) ≡ ok (head ++ (to_le_bytes c ++ tail))
  pub into :
      (c : ℕ) (rest : Bytes)
      → c < 2 ^ 32
      → b.superblock_in (head ++ (to_le_bytes c ++ (tail ++ rest))) ≡ ok (with_checksum s c)

-- Reading a shard that was written gives it back.
abbrev pub ReadsShards : Bincode → Type 0
ReadsShards b = (x : ShardData) (bytes : Bytes) → b.shard_out x ≡ ok bytes → b.shard_in bytes ≡ ok x
