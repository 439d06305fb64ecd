-- ===== src/Superblock.antt =====
-- The superblock of rawobjstr/src/superblock.rs.
pub mod Codec
use objstr.Base.{ℕ, List, [], ◌∷◌, replicate}
use objstr.RawError.{Bytes, num_shards}
use objstr.Compression.{Compression, to_u8}

pub record ShardSlotMeta : Type 0 where
  pub active_slot : ℕ
  pub size : ℕ
  pub crc : ℕ

abbrev pub default_slot : ShardSlotMeta
default_slot = record { active_slot = 0; size = 0; crc = 0 }

-- b"RAWOBJST"
abbrev pub superblock_magic : Bytes
superblock_magic = 82 ∷ 65 ∷ 87 ∷ 79 ∷ 66 ∷ 74 ∷ 83 ∷ 84 ∷ []

pub record Superblock : Type 0 where
  pub magic : Bytes
  pub version : ℕ
  pub flags : ℕ
  pub device_size : ℕ
  pub block_align : ℕ
  pub index_region_offset : ℕ
  pub index_region_bytes : ℕ
  pub txn_id : ℕ
  pub index_checksum : ℕ
  pub superblock_checksum : ℕ
  pub prev_index_offset : ℕ
  pub prev_index_size : ℕ
  pub prev_txn_id : ℕ
  pub prev_index_checksum : ℕ
  pub index_slot_capacity : ℕ
  pub shard_slots : List ShardSlotMeta
  pub max_key_length : ℕ
  pub compression : ℕ

unfoldable pub new : ℕ → ℕ → ℕ → ℕ → ℕ → Compression → Superblock
new device_size block_align index_a_offset capacity max_key c = record {
  magic = superblock_magic;
  version = 4;
  flags = 0;
  device_size = device_size;
  block_align = block_align;
  index_region_offset = index_a_offset;
  index_region_bytes = 0;
  txn_id = 0;
  index_checksum = 0;
  superblock_checksum = 0;
  prev_index_offset = index_a_offset;
  prev_index_size = 0;
  prev_txn_id = 0;
  prev_index_checksum = 0;
  index_slot_capacity = capacity;
  shard_slots = replicate num_shards default_slot;
  max_key_length = max_key;
  compression = to_u8 c;
}
