-- ===== src/Store/Flush/Crash.antt =====
-- What `open_impl` finds after `flush_index` ended, on success, on an error or at a crash,
-- rawobjstr/src/store.rs.
use objstr.Base.{ℕ, ◌+◌, ◌≤◌, ◌<◌, ◌≡◌, ◌≢◌, ◌⊎◌, inl, inr, refl, true, false, Bool-cases}
use objstr.RawError.{
  Bytes, Result, ok, err, RawStoreError, superblock_size, num_shards, min_device_size, data_start,
}
use objstr.Device.{DeviceIo, bytes_at, may_hold}
use objstr.Dict.{same, same→≡, same_iff}
use objstr.Index.{DeviceIndex, new_index as no_files}
use objstr.Index.Shards.{shard_of}
use objstr.Index.Shards.Merge.{merged}
use objstr.Superblock.{Superblock}
use objstr.Superblock.Codec
use objstr.Superblock.Codec.RoundTrip.{IsFormatted}
use objstr.Bincode.{Bincode, ReadsShards, IsLaidOut}
use objstr.Store.{Inner}
use objstr.Store.Open.{pick, read_superblock, regions, capacity_of, load}
use objstr.Store.Open.Load.{IsReadable, pread-IsReadable}
use objstr.Store.Flush.{Regions, slot_at, flag_at}
use objstr.Store.Flush.Stored.{Stored}
use objstr.Store.Flush.Rounds.{WritesBytes}
use objstr.Store.Flush.Copies.{Mixed}

-- The library bincode as the index and the superblock use it.
pub record IsDocumented (b : Bincode) : Type 0 where
  pub reads : ReadsShards b
  pub writes : WritesBytes b
  pub lays_out : (sb : Superblock) → IsFormatted sb → IsLaidOut b sb

-- Outside the data area, what was written is durable.
abbrev pub IsDurable : Regions → DeviceIo → Type 0
IsDurable r d =
    (x v : ℕ) → (x < data_start) ⊎ (r.index_region_a ≤ x) → may_hold d x v ≡ true → v ≡ d.content x

module _ (crc : Bytes → ℕ) (b : Bincode) (r : Regions) (size : ℕ) where
  -- Both copies of the superblock `sb` stand on the device as `block`, and its slots hold `index`.
  pub record IsCommitted (sb : Superblock) (block : Bytes) (index : DeviceIndex) (content : ℕ → ℕ)
      : Type 0 where
    pub first : bytes_at content 0 superblock_size ≡ block
    pub second : bytes_at content superblock_size superblock_size ≡ block
    pub parsed : Codec.from_bytes crc b block ≡ ok sb
    pub place : regions size (capacity_of sb) ≡ r
    pub enough : min_device_size (capacity_of sb) ≤ size
    pub stored :
        (j : ℕ)
        → j < num_shards
        → Stored crc b r content j (slot_at sb.shard_slots j) (shard_of crc j index)

  -- A store over such a device: its superblock names the same slots, and every clean shard is stored.
  pub record IsReady (sb : Superblock) (block : Bytes) (index : DeviceIndex) (s : Inner)
      : Type 0 where
    pub committed : IsCommitted sb block index s.dev.content
    pub readable : IsReadable s.dev
    pub formatted : IsFormatted s.superblock
    pub slots : sb.shard_slots ≡ s.superblock.shard_slots
    pub txn : sb.txn_id ≡ s.superblock.txn_id
    pub capacity : sb.index_slot_capacity ≡ s.superblock.index_slot_capacity
    pub active : (j : ℕ) → j < num_shards → (slot_at sb.shard_slots j).active_slot ≤ 1
    pub synced :
        (j : ℕ)
        → j < num_shards
        → flag_at s.shard_dirty j ≡ false
        → Stored crc b r s.dev.content j
            (slot_at s.superblock.shard_slots j)
            (shard_of crc j s.index)

  pub read-pair :
      (d : DeviceIo)
      → IsReadable d
      → (x y : Bytes) → bytes_at d.content 0 superblock_size ≡ x
      → bytes_at d.content superblock_size superblock_size ≡ y
      → read_superblock crc b d ≡ pick (Codec.from_bytes crc b x) (Codec.from_bytes crc b y)
  unfolding read_superblock
  read-pair d h x y e f =
      rw
        (
          pread-IsReadable d h 0 superblock_size,
          pread-IsReadable d h superblock_size superblock_size,
          e,
          f,
        )
        refl

  -- How a mixed block reads.
  pub data Reads (new old : Bytes) (t : Bytes) : Type 0 where
    as_old : t ≡ old → Reads new old t
    as_new : t ≡ new → Reads new old t
    rejected : (e : RawStoreError) → Codec.from_bytes crc b t ≡ err e → Reads new old t
    passes :
        t ≢ old → t ≢ new → (sb : Superblock) → Codec.from_bytes crc b t ≡ ok sb → Reads new old t

  pub Reads-of : (new old t : Bytes) → Reads new old t
  Reads-of new old t = elim (Bool-cases (same t old)) [
    | inl e ↦ as_old (same→≡ t old e)
    | inr e ↦ elim (Bool-cases (same t new)) [
      | inl f ↦ as_new (same→≡ t new f)
      | inr f ↦
          go (Codec.from_bytes crc b t) refl (λ p. let q = (same_iff t old).1 p in cc)
            (λ p. let q = (same_iff t new).1 p in cc)
    ]
  ]
    where
      go :
          (o : Result Superblock)
          → Codec.from_bytes crc b t ≡ o
          → t ≢ old
          → t ≢ new
          → Reads new old t
      go (err e) f p q = rejected e f
      go (ok sb) f p q = passes p q sb f

  -- What the reading of the device of a flushed store gives: the index of before, or that of the store,
  -- or one of the two superblock blocks on it is neither the old block nor that of the superblock
  -- `written`, a mixture of the two, and passes the checksum.
  pub data AfterFlush (sb : Superblock) (old : Bytes) (index : DeviceIndex) (s : Inner)
      (written : Superblock) (d : DeviceIo) : Type 0 where
    old_index :
        load crc b d size ≡ ok (sb, r, merged crc num_shards 0 index no_files)
        → AfterFlush sb old index s written d
    new_index :
        (next : Superblock)
        → next.txn_id ≡ sb.txn_id + 1
        → load crc b d size ≡ ok (next, r, merged crc num_shards 0 s.index no_files)
        → AfterFlush sb old index s written d
    undetected :
        (new t : Bytes) (next : Superblock)
        → Codec.to_bytes crc b written ≡ ok new
        → (bytes_at d.content 0 superblock_size ≡ t)
          ⊎ (bytes_at d.content superblock_size superblock_size ≡ t)
        → Mixed new old t
        → t ≢ old
        → t ≢ new
        → Codec.from_bytes crc b t ≡ ok next
        → AfterFlush sb old index s written d
