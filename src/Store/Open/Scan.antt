-- ===== src/Store/Open/Scan.antt =====
-- The integrity scan of `open_impl`, rawobjstr/src/store.rs.
use Prim.Native.String.{String, ◌++◌}
use objstr.Base.{
  ℕ, Bool, true, false, ◌&&◌, Option, none, some, List, [], ◌∷◌, ◌==◌, if◌then◌else◌, take, drop,
}
use objstr.RawError.{Bytes, ok, err, block_alignment}
use objstr.Device.{DeviceIo, pread}
use objstr.Extent.{from_le_bytes, padded_extent_size, decode_blocks}
use objstr.Dict.{Dict, lookup, insert, remove}
use objstr.Index.{ExtentInfo, DeviceIndex}

pub data OpenMode : Type 0 where
  default full_verify skip_verify : OpenMode

-- b"__raw_multipart_tmp/"
abbrev pub multipart_tmp_prefix : Bytes
multipart_tmp_prefix =
    95 ∷ 95 ∷ 114 ∷ 97 ∷ 119 ∷ 95 ∷ 109 ∷ 117 ∷ 108 ∷ 116 ∷ 105 ∷ 112 ∷ 97 ∷ 114 ∷ 116 ∷ 95 ∷ 116
    ∷ 109 ∷ 112 ∷ 47 ∷ []

unfoldable pub starts_with : Bytes → Bytes → Bool
starts_with key [] = true
starts_with [] (p ∷ ps) = false
starts_with (k ∷ ks) (p ∷ ps) = k == p && starts_with ks ps

-- The keys that `multipart_tmp_prefix` begins.
unfoldable pub multipart_keys : Dict ExtentInfo → List Bytes
unfolding starts_with
multipart_keys [] = []
multipart_keys ((k, e) ∷ m) =
    let rest = multipart_keys m in if starts_with k multipart_tmp_prefix then k ∷ rest else rest

-- One key of `apply_stale_removals`.
unfoldable pub remove_stale : Bool → ℕ → Bytes → String → DeviceIndex → DeviceIndex
remove_stale ro next_txn key reason index = elim (lookup key index.files) [
  | none ↦ index
  | some info ↦ record {
    files = remove key index.files;
    tombstones =
        if ro
        then index.tombstones
        else insert key
            (record {
              size = info.size;
              crc32c = info.crc32c;
              last_modified = info.last_modified;
              reason = reason;
              tombstone_txn = next_txn;
            })
            index.tombstones;
  }
]

unfoldable pub apply_stale_removals : Bool → ℕ → Dict String → DeviceIndex → DeviceIndex
unfolding remove_stale
apply_stale_removals ro next_txn [] index = index
apply_stale_removals ro next_txn ((key, reason) ∷ stale) index =
    apply_stale_removals ro next_txn stale (remove_stale ro next_txn key reason index)

unfoldable pub keys_of {ℓ} : {V : Type ℓ} → Dict V → List Bytes
keys_of [] = []
keys_of ((k, v) ∷ m) = k ∷ keys_of m

-- `hex` prints as `{:#010x}` does.
module _ (crc : Bytes → ℕ) (hex : ℕ → String) (d : DeviceIo) where
  -- The default mode: the first block of the extent and its checksum.
  unfoldable pub check_first_block : ExtentInfo → Option String
  check_first_block info = elim (pread d info.offset block_alignment) [
    | err _ ↦ some "unreadable block 0"
    | ok raw ↦
        let stored = from_le_bytes (take 4 raw) in
        let actual = crc (drop 4 raw) in
        if stored == actual
        then none
        else some ("block 0 CRC mismatch (expected " ++ hex stored ++ ", got " ++ hex actual ++ ")")
  ]

  -- The full mode: all blocks, and the checksum of the payload.
  unfoldable pub check_payload : ExtentInfo → Option String
  check_payload info = elim (padded_extent_size info.size) [
    | err _ ↦ some "payload size overflow"
    | ok disk_len ↦ elim (pread d info.offset disk_len) [
      | err _ ↦ some "unreadable extent"
      | ok raw ↦ elim (decode_blocks crc raw info.size) [
        | err _ ↦ some "block CRC failure"
        | ok payload ↦
            if crc payload == info.crc32c
            then none
            else some ("payload CRC " ++ hex (crc payload) ++ " != index CRC " ++ hex info.crc32c)
      ]
    ]
  ]

  unfoldable pub check : OpenMode → ExtentInfo → Option String
  unfolding check_first_block check_payload
  check default info = check_first_block info
  check full_verify info = check_payload info
  check skip_verify info = none

  -- The files that fail the check of the mode, with the reasons.
  unfoldable pub stale : OpenMode → Dict ExtentInfo → Dict String
  unfolding check
  stale mode [] = []
  stale mode ((k, info) ∷ m) =
      let rest = stale mode m in
      elim (check mode info) [ none ↦ rest | some reason ↦ (k, reason) ∷ rest ]
