-- ===== src/Store/Range.antt =====
-- Range reads of `Inner` of rawobjstr/src/store.rs.
use Prim.Native.String.{String}
use objstr.Base.{ℕ, ◌+◌, ◌-◌, ◌*◌, ◌/◌, ◌%◌, min, none, some, length, slice, ltb, if◌then◌else◌}
use objstr.RawError.{
  Bytes, Result, ok, err, io, not_found, extent_invalid, block_alignment, u64_mod, ◌>>=◌,
}
use objstr.Device.{pread}
use objstr.Extent.{block_data_size, decode_block_range}
use objstr.Dict.{lookup}
use objstr.Index.{ExtentInfo}
use objstr.Store.{Env, Inner, do_get, name_key, compressed_range_read_max}

-- `checked_mul`, `checked_add` on u64, with the reason of the error.
abbrev pub checked : ℕ → String → Result ℕ
checked n reason = if ltb n u64_mod then ok n else err (extent_invalid reason)

module _ (env : Env) where
  -- "Uncompressed extent: efficient partial read". The count of blocks wraps on an empty range, as
  -- the release build computes it.
  unfoldable pub read_blocks : Bytes → ExtentInfo → ℕ → ℕ → Inner → Result (Bytes × ExtentInfo)
  unfolding name_key
  read_blocks key info start end s =
      let first_block = start / block_data_size in
      let last_block = (end - 1) / block_data_size in
      let count = (last_block + u64_mod - first_block + 1) % u64_mod in
      do
        block_byte_offset ←
            checked (first_block * block_alignment) "range read: block offset overflow"
        disk_offset ← checked (info.offset + block_byte_offset) "range read: disk offset overflow"
        disk_len ← checked (count * block_alignment) "range read: disk length overflow"
        raw ← pread s.dev disk_offset disk_len
        part ← name_key key (decode_block_range env.crc raw first_block start end)
        ok (part, info)

  -- "Compressed extent: must read + decompress everything, then slice".
  unfoldable pub read_compressed : Bytes → ExtentInfo → ℕ → ℕ → Inner → Result (Bytes × ExtentInfo)
  read_compressed key info start end s =
      if ltb compressed_range_read_max info.uncompressed_size
      then err (io "range read on compressed object rejected")
      else (do
        (full, found) ← do_get env key s
        let to = min end (length full)
        ok (slice (min start to) to full, found))

  unfoldable pub do_get_range : Bytes → ℕ → ℕ → Inner → Result (Bytes × ExtentInfo)
  unfolding read_blocks read_compressed
  do_get_range key start end s = elim (lookup key s.index.files) [
    | none ↦ err (not_found key)
    | some info ↦
        if ltb 0 info.uncompressed_size
        then read_compressed key info start end s
        else read_blocks key info start end s
  ]
