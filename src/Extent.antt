-- ===== src/Extent.antt =====
-- CRC-protected blocks, rawobjstr/src/extent.rs. The checksum of the crate crc32c is the parameter
-- `crc`. Each block is 4 bytes of checksum and 4092 bytes of data.
pub mod Encode
pub mod RoundTrip
pub mod Batched
pub mod Writer
pub mod Examples
use Prim.Native.String.{String}
use objstr.Base.{
  ℕ, zero, suc, ◌+◌, ◌-◌, ◌*◌, ◌/◌, ◌%◌, ◌≤◌, ◌<◌, ◌^◌, min, max, Bool, true, false, Option, none,
  some, List, [], ◌∷◌, ◌++◌, ltb, leb, ◌==◌, if◌then◌else◌, length, take, drop, slice, replicate,
}
use objstr.RawError.{
  Bytes, Result, ok, err, io, data_corruption, extent_invalid, block, block_alignment, ◌>>=◌,
  u64_mod,
}
use objstr.Device.{DeviceIo, pwrite, pread}

abbrev pub block_crc_size : ℕ
block_crc_size = 4

abbrev pub block_data_size : ℕ
block_data_size = 4092

abbrev pub batch_blocks : ℕ
batch_blocks = 256

unfoldable pub num_blocks : ℕ → ℕ
num_blocks payload_size =
    if payload_size == 0 then 0 else (payload_size + (block_data_size - 1)) / block_data_size

-- `checked_mul` on u64
unfoldable pub padded_extent_size : ℕ → Result ℕ
padded_extent_size payload_size =
    let total = num_blocks payload_size * block_alignment in
    if ltb total u64_mod
    then ok total
    else err (extent_invalid "padded_extent_size: block count overflow")

-- `u32::to_le_bytes`, `u32::from_le_bytes`
unfoldable pub to_le_bytes : ℕ → Bytes
to_le_bytes n = n % 256 ∷ n / 256 % 256 ∷ n / 65536 % 256 ∷ n / 16777216 % 256 ∷ []

unfoldable pub from_le_bytes : Bytes → ℕ
from_le_bytes (a ∷ b ∷ c ∷ d ∷ _) = a + 256 * b + 65536 * c + 16777216 * d
from_le_bytes _ = 0

-- The data region of block `i`: its part of the payload, with zeros behind.
unfoldable pub data_region : Bytes → ℕ → Bytes
data_region payload i =
    let start = i * block_data_size in
    let end = min (start + block_data_size) (length payload) in
    slice start end payload ++ replicate (block_data_size - (end - start)) 0

module _ (crc : Bytes → ℕ) where
  unfoldable pub protect : Bytes → Bytes
  protect region = to_le_bytes (crc region) ++ region

  -- Blocks `i`, `i + 1`, … of a payload, `count` of them.
  unfoldable pub encode_range : Bytes → ℕ → ℕ → Bytes
  encode_range payload i zero = []
  encode_range payload i (suc count) =
      protect (data_region payload i) ++ encode_range payload (i + 1) count

  unfoldable pub encode_blocks : Bytes → Bytes
  unfolding encode_range
  encode_blocks payload = encode_range payload 0 (num_blocks (length payload))

  unfoldable pub verify_block_crc : Bytes → ℕ → Result Bytes
  verify_block_crc raw label =
      let stored_crc = from_le_bytes (take block_crc_size raw) in
      let region = drop block_crc_size raw in
      let actual_crc = crc region in
      if stored_crc == actual_crc
      then ok region
      else err (data_corruption (block label) stored_crc actual_crc)

  -- The loop over the blocks of `raw` from `i`; `label` is the index of its first block.
  unfoldable pub decode_loop : ℕ → Bytes → ℕ → ℕ → ℕ → Bytes → Result Bytes
  decode_loop label raw expected i zero content = ok content
  decode_loop label raw expected i (suc count) content = do
    region ←
        verify_block_crc (slice (i * block_alignment) ((i + 1) * block_alignment) raw) (label + i)
    let n = min (expected - length content) block_data_size
    decode_loop label raw expected (i + 1) count (content ++ take n region)

  unfoldable pub decode_blocks : Bytes → ℕ → Result Bytes
  unfolding decode_loop verify_block_crc
  decode_blocks raw expected = decode_loop 0 raw expected 0 (length raw / block_alignment) []

  -- The part of block `index` inside [start, end).
  unfoldable pub overlap : ℕ → ℕ → ℕ → Bytes → Bytes
  overlap index start end region =
      let block_start = index * block_data_size in
      let from = max start block_start in
      let to = min end (block_start + block_data_size) in
      if ltb from to then slice (from - block_start) (to - block_start) region else []

  unfoldable pub range_loop : ℕ → Bytes → ℕ → ℕ → ℕ → ℕ → Bytes → Result Bytes
  range_loop first raw start end i zero result = ok result
  range_loop first raw start end i (suc count) result = do
    region ←
        verify_block_crc (slice (i * block_alignment) ((i + 1) * block_alignment) raw) (first + i)
    range_loop first raw start end (i + 1) count (result ++ overlap (first + i) start end region)

  unfoldable pub decode_block_range : Bytes → ℕ → ℕ → ℕ → Result Bytes
  unfolding range_loop verify_block_crc overlap
  decode_block_range raw first start end =
      range_loop first raw start end 0 (length raw / block_alignment) []

  -- The batches of `encode_and_write_batched`; each takes at least one block of the fuel.
  unfoldable pub write_batches : ℕ → Bytes → ℕ → ℕ → ℕ → DeviceIo → Result (Unit {0}) × DeviceIo
  write_batches zero payload extent_offset n idx d =
      if ltb idx n then (err (io "out of fuel"), d) else (ok tt, d)
  write_batches (suc fuel) payload extent_offset n idx d =
      let batch_end = min (idx + batch_blocks) n in
      let written =
        pwrite d (extent_offset + idx * block_alignment)
          (encode_range payload idx (batch_end - idx)) in
      let rest : Result (Unit {0}) × DeviceIo = elim written.0 [
        | ok _ ↦ write_batches fuel payload extent_offset n batch_end written.1
        | err e ↦ (err e, written.1)
      ] in
      if ltb idx n then rest else (ok tt, d)

  unfoldable pub encode_and_write_batched : DeviceIo → ℕ → Bytes → Result (Unit {0}) × DeviceIo
  unfolding write_batches encode_range
  encode_and_write_batched d extent_offset payload =
      let n = num_blocks (length payload) in write_batches n payload extent_offset n 0 d

  -- The batches of `read_and_decode_batched`.
  unfoldable pub read_batches : ℕ → DeviceIo → ℕ → ℕ → ℕ → ℕ → Bytes → Result Bytes
  read_batches zero d extent_offset len n idx payload =
      if ltb idx n then err (io "out of fuel") else ok payload
  read_batches (suc fuel) d extent_offset len n idx payload =
      let batch_end = min (idx + batch_blocks) n in
      let count = batch_end - idx in
      let rest = (do
        raw ← pread d (extent_offset + idx * block_alignment) (count * block_alignment)
        more ← decode_loop idx raw len 0 count payload
        read_batches fuel d extent_offset len n batch_end more) in
      if ltb idx n then rest else ok payload

  unfoldable pub read_and_decode_batched : DeviceIo → ℕ → ℕ → Result Bytes
  unfolding read_batches decode_loop verify_block_crc
  read_and_decode_batched d extent_offset payload_size =
      let n = num_blocks payload_size in read_batches n d extent_offset payload_size n 0 []
