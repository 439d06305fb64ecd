-- ===== src/Extent/Examples.antt =====
-- The blocks of rawobjstr/src/extent.rs on a payload of three bytes, under a toy checksum.
use objstr.Base.{
  ◌⊎◌, ◌++◌, replicate, length-append, length-replicate, ℕ, ◌+◌, ◌*◌, ◌%◌, ◌/◌, ◌^◌, ◌≤◌, ◌<◌, ◌≡◌,
  refl, arith, false, [], ◌∷◌, length, take, drop,
}
use objstr.RawError.{Bytes, ok, err, data_corruption, block, block_alignment}
use objstr.Device.{stops_after, DeviceIo, overlay}
use objstr.Device.ReadWrite.{bytes_at-overlay}
use objstr.Extent.{
  num_blocks, encode_blocks, decode_blocks, encode_and_write_batched, read_and_decode_batched,
  block_data_size, block_crc_size, from_le_bytes,
}
use objstr.Extent.Encode.{IsU32, num_blocks_bounds, length-encode_range}
use objstr.Extent.RoundTrip.{
  decode-encode_blocks, decode_blocks_detects, IsFirstBad, Verifies, block_of,
}
use objstr.Extent.Batched.{
  Written, Stores, encode_and_write_batched-Written, read_and_decode_batched_stored,
}
use objstr.Extent.Writer.{stream, concat}
use objstr.Extent.Writer.Finish.{stream-Written}

-- Not the polynomial of the crate: the number of bytes.
abbrev toy_crc : Bytes → ℕ
toy_crc b = length b % 2 ^ 32

toy_IsU32 : IsU32 toy_crc
toy_IsU32 b = omega arith

abbrev three : Bytes
three = 1 ∷ 2 ∷ 3 ∷ []

abbrev blank : DeviceIo
blank = record {
  content = λ _. 0;
  unsynced = [];
  answers = stops_after 100 ∷ [];
  unreadable = λ _ _. false;
  ro = false;
}

abbrev full : DeviceIo
full = record blank { content = overlay (encode_blocks toy_crc three) 8192 (λ _. 0) }

decode-encode_blocks_example :
    decode_blocks toy_crc (encode_blocks toy_crc three) (length three) ≡ ok three
decode-encode_blocks_example = decode-encode_blocks toy_crc toy_IsU32 three

encode_and_write_batched-Written_example :
    Written 8192
      (encode_blocks toy_crc three)
      blank
      (encode_and_write_batched toy_crc blank 8192 three)
encode_and_write_batched-Written_example = encode_and_write_batched-Written toy_crc blank 8192 three

full-Stores : Stores toy_crc full.content 8192 three
unfolding encode_blocks
full-Stores =
    rw (← length-encode_range toy_crc three 0 (num_blocks (length three)))
      (bytes_at-overlay (encode_blocks toy_crc three) 8192 (λ _. 0))

read_and_decode_batched_stored_example :
    read_and_decode_batched toy_crc full 8192 (length three) ≡ ok three
read_and_decode_batched_stored_example =
    read_and_decode_batched_stored toy_crc full 8192 three toy_IsU32 (λ _ _. refl) full-Stores

stream-Written_example : Written 8192 (encode_blocks toy_crc (concat (three ∷ three ∷ []))) blank (
  (stream toy_crc blank 8192 (three ∷ three ∷ [])).0,
  (stream toy_crc blank 8192 (three ∷ three ∷ [])).1.dev,
)
stream-Written_example = stream-Written toy_crc blank 8192 (three ∷ three ∷ [])

num_blocks_bounds_example :
    (3 ≤ num_blocks 3 * block_data_size) × (num_blocks 3 * block_data_size < 3 + block_data_size)
num_blocks_bounds_example = num_blocks_bounds 3

-- A good block and a blank one, whose stored checksum is wrong.
abbrev damaged : Bytes
damaged = encode_blocks toy_crc three ++ replicate block_alignment 0

damaged-length : length damaged % block_alignment ≡ 0
unfolding encode_blocks
damaged-length =
    let a = length-append (encode_blocks toy_crc three) (replicate block_alignment 0) in
    let b = length-replicate {A = ℕ} block_alignment 0 in
    let c = length-encode_range toy_crc three 0 (num_blocks (length three)) in
    omega (arith, a, b, c)

decode_blocks_detects_example :
    (((j : ℕ) → j < length damaged / block_alignment → Verifies toy_crc damaged j)
      × ((c : Bytes) × (decode_blocks toy_crc damaged 4096 ≡ ok c)))
    ⊎ ((k : ℕ) × (IsFirstBad toy_crc damaged (length damaged / block_alignment) k
          × (decode_blocks toy_crc damaged 4096
              ≡ err (
                  data_corruption
                    (block k)
                    (from_le_bytes (take block_crc_size (block_of damaged k)))
                    (toy_crc (drop block_crc_size (block_of damaged k)))))))
decode_blocks_detects_example = decode_blocks_detects toy_crc damaged 4096 damaged-length
