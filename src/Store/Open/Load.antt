-- ===== src/Store/Open/Load.antt =====
-- Reading the index back, `open_impl` of rawobjstr/src/store.rs.
use mathlib.Core.Path.{subst}
use objstr.Base.{
  ℕ, zero, suc, ◌+◌, ◌≤◌, ◌<◌, ◌≡◌, inl, inr, refl, sym, ap, ◌∙◌, true, false, ◌==◌, arith, ltb,
}
use objstr.RawError.{Bytes, ok, num_shards, min_device_size}
use objstr.Device.{DeviceIo, pread, bytes_at}
use objstr.Index.{DeviceIndex, new_index, ShardData}
use objstr.Index.Shards
use objstr.Index.Shards.{shard_of, merge, extend}
use objstr.Index.Shards.Merge.{merged}
use objstr.Superblock.{Superblock}
use objstr.Bincode.{Bincode, ReadsShards}
use objstr.Store.Flush.{Regions, slot_at, slot_offset}
use objstr.Store.Flush.Stored.{Stored, empty_shard}
use objstr.Store.Open.{regions, read_superblock, load_shard, load_shards, load, capacity_of}

-- No range of the file is unreadable.
abbrev pub IsReadable : DeviceIo → Type 0
IsReadable d = (o n : ℕ) → d.unreadable o n ≡ false

pub pread-IsReadable :
    (d : DeviceIo) → IsReadable d → (o n : ℕ) → pread d o n ≡ ok (bytes_at d.content o n)
unfolding pread bytes_at
pread-IsReadable d h o zero = refl
pread-IsReadable d h o (suc n) = rw (h o (suc n)) refl

module _ (crc : Bytes → ℕ) (b : Bincode) (reads : ReadsShards b) (d : DeviceIo)
    (readable : IsReadable d) (r : Regions) (sb : Superblock) where
  merge-empty : (index : DeviceIndex) → merge index empty_shard ≡ index
  unfolding merge extend
  merge-empty index = refl

  load_shard-Stored :
      (i : ℕ) (shard : ShardData) (index : DeviceIndex)
      → Stored crc b r d.content i (slot_at sb.shard_slots i) shard
      → load_shard crc b d r sb i index ≡ ok (merge index shard)
  unfolding load_shard Shards.from_bytes
  load_shard-Stored i shard index (inl (e, f)) =
      rw e (ap ok (sym (merge-empty index)) ∙ ap (λ t. ok (merge index t)) (sym f))
  load_shard-Stored i shard index (inr x) =
      let slot = slot_at sb.shard_slots i in
      let some_bytes : (slot.size == 0) ≡ false = let n = x.some_bytes in ground arith in
      let checked : (crc x.bytes == slot.crc) ≡ true = let n = x.sum in ground arith in
      rw
        (
          some_bytes,
          pread-IsReadable d readable (slot_offset r slot.active_slot i) slot.size,
          x.there,
          checked,
          reads shard x.bytes x.encoded,
        )
        refl

  pub load_shards-Stored :
      (n i : ℕ) (index acc : DeviceIndex)
      → ((j : ℕ)
          → i ≤ j
          → j < i + n
          → Stored crc b r d.content j (slot_at sb.shard_slots j) (shard_of crc j index))
      → load_shards crc b d r sb n i acc ≡ ok (merged crc n i index acc)
  unfolding load_shards merged
  load_shards-Stored zero i index acc h = refl
  load_shards-Stored (suc n) i index acc h =
      rw (load_shard-Stored i (shard_of crc i index) acc (h i (omega arith) (omega arith))) (
        load_shards-Stored n (suc i) index (merge acc (shard_of crc i index))
          (λ j p q. h j (omega arith) (omega arith)))

  -- A device whose superblock is picked and whose slots hold the shards of an index loads that index.
  pub load-Stored :
      (size : ℕ) (index : DeviceIndex)
      → read_superblock crc b d ≡ ok sb
      → regions size (capacity_of sb) ≡ r
      → min_device_size (capacity_of sb) ≤ size
      → ((j : ℕ)
          → j < num_shards
          → Stored crc b r d.content j (slot_at sb.shard_slots j) (shard_of crc j index))
      → load crc b d size ≡ ok (sb, r, merged crc num_shards 0 index new_index)
  unfolding load
  load-Stored size index e place big h =
      let enough : ltb size (min_device_size (capacity_of sb)) ≡ false = ground arith in
      let shards : load_shards crc b d (regions size (capacity_of sb)) sb num_shards 0 new_index
          ≡ ok (merged crc num_shards 0 index new_index) =
        subst
          (λ t.
            load_shards crc b d t sb num_shards 0 new_index
            ≡ ok (merged crc num_shards 0 index new_index))
          (sym place)
          (load_shards-Stored num_shards 0 index new_index (λ j p q. h j (omega arith))) in
      rw (e, enough, shards) (ap (λ t. ok (sb, t, merged crc num_shards 0 index new_index)) place)
