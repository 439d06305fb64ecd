-- ===== src/Index.antt =====
-- The index of rawobjstr/src/index.rs.
pub mod Shards
use Prim.Native.String.{String}
use objstr.Base.{ℕ, ◌%◌, []}
use objstr.RawError.{Bytes}
use objstr.Dict.{Dict}

-- 0 to 255: `& 0xFF` keeps the low byte of the checksum.
unfoldable pub shard_for_key : (Bytes → ℕ) → Bytes → ℕ
shard_for_key crc key = crc key % 256

pub record ExtentInfo : Type 0 where
  pub offset : ℕ
  pub size : ℕ
  pub padded_size : ℕ
  pub crc32c : ℕ
  pub created_txn : ℕ
  pub last_modified : ℕ
  pub meta_len : ℕ
  pub uncompressed_size : ℕ

pub record TombstoneInfo : Type 0 where
  pub size : ℕ
  pub crc32c : ℕ
  pub last_modified : ℕ
  pub reason : String
  pub tombstone_txn : ℕ

pub record DeviceIndex : Type 0 where
  pub files : Dict ExtentInfo
  pub tombstones : Dict TombstoneInfo

abbrev pub new_index : DeviceIndex
new_index = record { files = []; tombstones = [] }

-- One of the 256 parts of the index, as it stands on the device.
pub record ShardData : Type 0 where
  pub files : Dict ExtentInfo
  pub tombstones : Dict TombstoneInfo
