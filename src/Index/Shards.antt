-- ===== src/Index/Shards.antt =====
-- The sharded form of the index: `ShardData` of rawobjstr/src/index.rs, and the bucketing and merging
-- of rawobjstr/src/store.rs.
pub mod Merge
use objstr.Base.{ℕ, zero, suc, ◌+◌, Bool, List, [], ◌∷◌, ◌++◌, ◌==◌, if◌then◌else◌, length}
use objstr.RawError.{Bytes, Result, ok, err, index_corrupt, ◌>>=◌}
use objstr.Dict.{Dict, lookup, insert}
use objstr.Index.{shard_for_key, ExtentInfo, TombstoneInfo, DeviceIndex, ShardData}
use objstr.Bincode.{Bincode}

-- The entries of one shard.
unfoldable pub bucket {ℓ} : {V : Type ℓ} → (Bytes → ℕ) → ℕ → Dict V → Dict V
bucket crc i [] = []
bucket crc i ((k, v) ∷ m) =
    let rest = bucket crc i m in if shard_for_key crc k == i then (k, v) ∷ rest else rest

-- `HashMap::extend`
unfoldable pub extend {ℓ} : {V : Type ℓ} → Dict V → Dict V → Dict V
unfolding insert
extend m [] = m
extend m ((k, v) ∷ r) = extend (insert k v m) r

unfoldable pub shard_of : (Bytes → ℕ) → ℕ → DeviceIndex → ShardData
unfolding bucket
shard_of crc i index = record {
  files = bucket crc i index.files;
  tombstones = bucket crc i index.tombstones;
}

unfoldable pub merge : DeviceIndex → ShardData → DeviceIndex
unfolding extend
merge index shard = record {
  files = extend index.files shard.files;
  tombstones = extend index.tombstones shard.tombstones;
}

module _ (crc : Bytes → ℕ) (b : Bincode) where
  unfoldable pub to_bytes : ShardData → Result (Bytes × ℕ)
  to_bytes shard = do bytes ← b.shard_out shard; ok (bytes, crc bytes)

  unfoldable pub from_bytes : Bytes → ℕ → Result ShardData
  from_bytes bytes expected = if crc bytes == expected then b.shard_in bytes else err index_corrupt
