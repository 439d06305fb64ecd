-- ===== src/Superblock/Codec.antt =====
-- `to_bytes` and `from_bytes` of the superblock, rawobjstr/src/superblock.rs.
pub mod RoundTrip
use objstr.Base.{
  ℕ, zero, suc, ◌+◌, ◌-◌, not, Option, none, some, List, [], ◌∷◌, ◌++◌, length, take, drop,
  replicate, ltb, ◌==◌, if◌then◌else◌,
}
use objstr.RawError.{
  Bytes, Result, ok, err, io, not_formatted, superblock_corrupt, superblock_size, num_shards, ◌>>=◌,
}
use objstr.Dict.{same}
use objstr.Extent.{to_le_bytes}
use objstr.Superblock.{Superblock, superblock_magic}
use objstr.Bincode.{Bincode, with_checksum}

-- The first index at which the two differ.
unfoldable pub first_diff : Bytes → Bytes → Option ℕ
first_diff [] q = none
first_diff (a ∷ p) [] = none
first_diff (a ∷ p) (b ∷ q) =
    let rest : Option ℕ = elim (first_diff p q) [ none ↦ none | some i ↦ some (suc i) ] in
    if a == b then rest else some zero

-- `copy_from_slice` of four bytes at `off`.
unfoldable pub put_word : ℕ → Bytes → Bytes → Bytes
put_word off word buf = take off buf ++ (word ++ drop (off + 4) buf)

-- 0xDEAD_BEEF
abbrev pub sentinel : ℕ
sentinel = 3735928559

unfoldable pub located : Option ℕ → Result ℕ
located none = err (io "cannot locate superblock_checksum field in serialized data")
located (some off) = ok off

module _ (crc : Bytes → ℕ) (b : Bincode) where
  -- Where the checksum stands, by a probe with another checksum.
  unfoldable pub checksum_offset : Superblock → Result ℕ
  unfolding first_diff located
  checksum_offset s = do
    bytes ← b.superblock_out (with_checksum s 0)
    probe ← b.superblock_out (with_checksum s sentinel)
    located (first_diff bytes probe)

  unfoldable pub sealed : Superblock → Bytes → Result Bytes
  unfolding checksum_offset put_word
  sealed s bytes =
      let buf = bytes ++ replicate (superblock_size - length bytes) 0 in
      do off ← checksum_offset s; ok (put_word off (to_le_bytes (crc buf)) buf)

  unfoldable pub to_bytes : Superblock → Result Bytes
  unfolding sealed
  to_bytes s = do
    bytes ← b.superblock_out (with_checksum s 0)
    (if ltb superblock_size (length bytes)
        then err (io "serialized superblock exceeds SUPERBLOCK_SIZE")
        else sealed s bytes)

  -- The last step of `from_bytes`.
  unfoldable pub verified : Bytes → Superblock → Result Superblock
  unfolding checksum_offset put_word
  verified buf s = do
    off ← checksum_offset s
    let padded = take superblock_size buf ++ replicate (superblock_size - length buf) 0
    let expected = crc (put_word off (to_le_bytes 0) padded)
    (if expected == s.superblock_checksum then ok s else err superblock_corrupt)

  unfoldable pub from_bytes : Bytes → Result Superblock
  unfolding verified
  from_bytes buf = do
    s ← b.superblock_in buf
    (if not (same s.magic superblock_magic)
        then err not_formatted
        else if not (s.version == 4)
        then err (io "unsupported superblock version")
        else if not (length s.shard_slots == num_shards)
        then err (io "shard_slots length")
        else if s.block_align == 0
        then err superblock_corrupt
        else verified buf s)
