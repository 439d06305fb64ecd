-- ===== src/Store/Open/Opened.antt =====
-- `open_impl` of rawobjstr/src/store.rs, from the loaded index on.
use Prim.Native.String.{String}
use objstr.Base.{
  ℕ, ◌+◌, ◌/◌, ◌%◌, Bool, true, false, not, ◌&&◌, Option, none, some, List, [], ◌∷◌, ◌++◌, ◌==◌,
  if◌then◌else◌, replicate, set,
}
use objstr.RawError.{Bytes, Result, ok, err, write_protected, io, num_shards, data_start, ◌>>=◌}
use objstr.Alloc.{ExtentAllocator, from_free_list}
use objstr.Device.{DeviceIo}
use objstr.Index.{shard_for_key, DeviceIndex}
use objstr.Compression.{from_u8}
use objstr.Superblock.{Superblock}
use objstr.Bincode.{Bincode}
use objstr.Store.{Inner}
use objstr.Store.Flush.{Regions}
use objstr.Store.Open.{load, validate, rebuild_free_list, remove_files}
use objstr.Store.Open.Scan.{OpenMode, multipart_keys, apply_stale_removals, keys_of, stale}

-- `FLAG_WRITE_PROTECT` is bit 1.
unfoldable pub is_write_protected : Superblock → Bool
is_write_protected sb = sb.flags / 2 % 2 == 1

unfoldable pub any_key : List Bytes → Bool
any_key [] = false
any_key (k ∷ ks) = true

module _ (crc : Bytes → ℕ) (b : Bincode) (hex : ℕ → String) where
  -- `initial_shard_dirty`
  unfoldable pub mark_keys : List Bytes → List Bool → List Bool
  mark_keys [] flags = flags
  mark_keys (k ∷ ks) flags = mark_keys ks (set flags (shard_for_key crc k) true)

  unfoldable pub allocator_for : Bool → DeviceIndex → ℕ → Option ExtentAllocator
  unfolding rebuild_free_list
  allocator_for ro index data_end =
      if ro
      then none
      else some (from_free_list (rebuild_free_list index data_end).1 data_start data_end)

  -- The store over an index whose modified keys are given.
  unfoldable pub opened : Bool → DeviceIo → Superblock → ℕ → DeviceIndex → List Bytes → Result Inner
  unfolding allocator_for mark_keys any_key
  opened ro d sb data_end index modified =
      if sb.max_key_length == 0
      then err (io "superblock has max_key_length=0 (pre-v4 image); reformat required")
      else (do
        compression ← from_u8 sb.compression
        ok (record {
          dev = d;
          index = index;
          allocator = allocator_for ro index data_end;
          superblock = sb;
          dirty = any_key modified;
          ro = ro;
          shard_dirty = mark_keys modified (replicate num_shards false);
          last_flush_bytes = 0;
          max_key_length = sb.max_key_length;
          compression = compression;
        }))

  -- The purge of what unfinished multipart uploads left.
  unfoldable pub purge : Bool → DeviceIndex → List Bytes
  unfolding multipart_keys
  purge ro index = if ro then [] else multipart_keys index.files

  unfoldable pub open_impl : OpenMode → Bool → ℕ → DeviceIo → Result (Inner × Regions)
  unfolding load validate stale apply_stale_removals keys_of is_write_protected purge remove_files
      opened
  open_impl mode ro device_size device =
      let d : DeviceIo = record device { ro = ro } in
      do
        (sb, r, loaded) ← load crc b d device_size
        let (valid, bad) = validate r.index_region_a loaded
        let failed = stale crc hex d mode valid.files
        let scanned = apply_stale_removals ro (sb.txn_id + 1) failed valid
        let purged = purge ro scanned
        (if not ro && is_write_protected sb then err write_protected else (do
          s ←
              opened ro d sb r.index_region_a (remove_files purged scanned)
                (bad ++ keys_of failed ++ purged)
          ok (s, r)))
