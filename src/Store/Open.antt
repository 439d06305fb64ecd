-- ===== src/Store/Open.antt =====
-- `open_impl` of rawobjstr/src/store.rs and its `rebuild_free_list`. What opens the file and locks it
-- is not modelled: the device is given, with its size.
pub mod Scan
pub mod Opened
pub mod FreeList
pub mod Rebuilt
pub mod Load
use objstr.Base.{
  ℕ, zero, suc, ◌+◌, ◌-◌, ◌*◌, ◌/◌, ◌%◌, Bool, true, false, not, ◌&&◌, ◌||◌, Option, none, some,
  List, [], ◌∷◌, ◌++◌, ltb, leb, ◌==◌, if◌then◌else◌, length, take, drop, replicate, set,
}
use objstr.RawError.{
  Bytes, Result, ok, err, superblock_corrupt, device_too_small, write_protected, io,
  superblock_size, num_shards, index_region_size, min_device_size, data_start, sat_add,
  block_alignment, ◌>>=◌,
}
use objstr.Alloc.{ExtentAllocator, Region, sort_by_offset, from_free_list}
use objstr.Device.{DeviceIo, pread}
use objstr.Extent.{from_le_bytes, padded_extent_size, decode_blocks}
use objstr.Dict.{Dict, lookup, insert, remove}
use objstr.Index.{shard_for_key, ExtentInfo, TombstoneInfo, DeviceIndex, new_index}
use objstr.Index.Shards
use objstr.Index.Shards.{merge}
use objstr.Compression.{from_u8}
use objstr.Superblock.{Superblock}
use objstr.Superblock.Codec
use objstr.Bincode.{Bincode}
use objstr.Store.{Inner}
use objstr.Store.Flush.{Regions, slot_at, slot_offset}

-- Inside [DATA_START, data_end) and not empty.
unfoldable pub in_bounds : ℕ → ℕ → ℕ → Bool
in_bounds data_end o s = leb data_start o && ltb 0 s && leb (sat_add o s) data_end

unfoldable pub used_extents : ℕ → Dict ExtentInfo → List Region
unfolding in_bounds
used_extents data_end [] = []
used_extents data_end ((k, e) ∷ m) =
    let rest = used_extents data_end m in
    if in_bounds data_end e.offset e.padded_size then (e.offset, e.padded_size) ∷ rest else rest

-- The loop over the used extents: a gap before one is free.
unfoldable pub gaps : ℕ → ℕ → List Region → List Region
gaps data_end cursor [] = if ltb cursor data_end then (cursor, data_end - cursor) ∷ [] else []
gaps data_end cursor ((o, s) ∷ used) =
    let rest = gaps data_end (o + s) used in
    if ltb cursor o then (cursor, o - cursor) ∷ rest else rest

unfoldable pub rebuild_free_list : DeviceIndex → ℕ → List Region × List Region
unfolding used_extents gaps
rebuild_free_list index data_end =
    let used = sort_by_offset (used_extents data_end index.files) in
    (used, gaps data_end data_start used)

-- The superblock with the higher transaction of those that are valid.
unfoldable pub pick : Result Superblock → Result Superblock → Result Superblock
pick (ok p) (ok q) = if leb q.txn_id p.txn_id then ok p else ok q
pick (ok p) (err _) = ok p
pick (err _) (ok q) = ok q
pick (err _) (err _) = err superblock_corrupt

unfoldable pub capacity_of : Superblock → ℕ
capacity_of sb = if ltb 0 sb.index_slot_capacity then sb.index_slot_capacity else index_region_size

unfoldable pub regions : ℕ → ℕ → Regions
regions device_size capacity = record {
  index_region_a = device_size - capacity * 2;
  index_region_b = device_size - capacity;
  shard_slot_size = capacity / num_shards;
}

module _ (crc : Bytes → ℕ) (b : Bincode) (d : DeviceIo) where
  unfoldable pub read_superblock : Result Superblock
  unfolding pick
  read_superblock = do
    first ← pread d 0 superblock_size
    second ← pread d superblock_size superblock_size
    pick (Codec.from_bytes crc b first) (Codec.from_bytes crc b second)

  -- One shard of the index, merged into what the shards before it gave.
  unfoldable pub load_shard : Regions → Superblock → ℕ → DeviceIndex → Result DeviceIndex
  unfolding merge slot_at slot_offset
  load_shard r sb i index =
      let slot = slot_at sb.shard_slots i in
      if slot.size == 0 then ok index else (do
        bytes ← pread d (slot_offset r slot.active_slot i) slot.size
        shard ← Shards.from_bytes crc b bytes slot.crc
        ok (merge index shard))

  unfoldable pub load_shards : Regions → Superblock → ℕ → ℕ → DeviceIndex → Result DeviceIndex
  unfolding load_shard
  load_shards r sb zero i index = ok index
  load_shards r sb (suc n) i index = do
    next ← load_shard r sb i index
    load_shards r sb n (suc i) next

  -- Up to the index as it stands on the device.
  unfoldable pub load : ℕ → Result (Superblock × Regions × DeviceIndex)
  unfolding read_superblock load_shards regions capacity_of
  load device_size = do
    sb ← read_superblock
    (if ltb device_size (min_device_size (capacity_of sb))
        then err (device_too_small device_size (min_device_size (capacity_of sb)))
        else (do
          index ← load_shards (regions device_size (capacity_of sb)) sb num_shards 0 new_index
          ok (sb, regions device_size (capacity_of sb), index)))

-- The entries whose extents are out of bounds.
unfoldable pub out_of_bounds : ℕ → Dict ExtentInfo → List Bytes
out_of_bounds data_end [] = []
out_of_bounds data_end ((k, e) ∷ m) =
    let rest = out_of_bounds data_end m in
    if ltb e.offset data_start
      || e.padded_size == 0
      || ltb data_end (sat_add e.offset e.padded_size)
    then k ∷ rest
    else rest

unfoldable pub insert_by_offset : Bytes → ExtentInfo → Dict ExtentInfo → Dict ExtentInfo
insert_by_offset k e [] = (k, e) ∷ []
insert_by_offset k e ((j, x) ∷ m) =
    let rest = insert_by_offset k e m in
    if leb e.offset x.offset then (k, e) ∷ (j, x) ∷ m else (j, x) ∷ rest

unfoldable pub by_offset : Dict ExtentInfo → Dict ExtentInfo
unfolding insert_by_offset
by_offset [] = []
by_offset ((k, e) ∷ m) = insert_by_offset k e (by_offset m)

-- The windows of two: the later of a pair that overlaps.
unfoldable pub overlap_keys : Dict ExtentInfo → List Bytes
overlap_keys [] = []
overlap_keys ((k, e) ∷ []) = []
overlap_keys ((k, e) ∷ (j, x) ∷ m) =
    let rest = overlap_keys ((j, x) ∷ m) in
    if ltb x.offset (e.offset + e.padded_size) then j ∷ rest else rest

unfoldable pub remove_files : List Bytes → DeviceIndex → DeviceIndex
unfolding remove
remove_files [] index = index
remove_files (k ∷ ks) index = remove_files ks (record index { files = remove k index.files })

-- The index without its bad extents, and the keys removed.
unfoldable pub validate : ℕ → DeviceIndex → DeviceIndex × List Bytes
unfolding out_of_bounds by_offset overlap_keys remove_files
validate data_end index =
    let bad = out_of_bounds data_end index.files in
    let inside = remove_files bad index in
    let overlapping = overlap_keys (by_offset inside.files) in
    (remove_files overlapping inside, bad ++ overlapping)
