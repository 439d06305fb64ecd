-- ===== src/Store/Entries.antt =====
-- Operations of rawobjstr/src/store.rs that change the index and leave the data area alone, and the
-- operations on metadata, tombstones and existing keys that are built on put, copy and range reads.
pub mod Rename
use objstr.Base.{
  ℕ, zero, suc, ◌+◌, ◌-◌, ◌^◌, Bool, true, false, Option, none, some, List, [], ◌∷◌, ◌++◌, length,
  set, ltb, ◌==◌, if◌then◌else◌,
}
use objstr.RawError.{
  Bytes, Result, ok, err, RawStoreError, read_only, key_too_long, not_found, already_exists,
  metadata_too_large,
}
use objstr.Dict.{Dict, lookup, insert, remove}
use objstr.Index.{shard_for_key, ExtentInfo, TombstoneInfo, DeviceIndex}
use objstr.Store.{Env, Inner, release_old, mark_shard_dirty, do_put_with_meta}
use objstr.Store.Copy.{do_copy}
use objstr.Store.Range.{do_get_range}

-- Marks the shard of each key.
unfoldable pub mark_all : (Bytes → ℕ) → Dict TombstoneInfo → List Bool → List Bool
mark_all crc [] flags = flags
mark_all crc ((k, t) ∷ m) flags = mark_all crc m (set flags (shard_for_key crc k) true)

module _ (env : Env) where
  -- The end of `rename`: the entry moves from one key to the other.
  unfoldable pub move_entry : Bytes → Bytes → ExtentInfo → Inner → Inner
  unfolding mark_shard_dirty release_old
  move_entry from_key to_key info s =
      let rest = remove from_key s.index.files in
      let s' : Inner = record s {
        allocator = release_old (lookup to_key rest) s.allocator;
        index = record s.index { files = insert to_key info (remove to_key rest) };
        dirty = true;
      } in
      mark_shard_dirty env to_key (mark_shard_dirty env from_key s')

  unfoldable pub rename : Bytes → Bytes → Inner → Result (Unit {0}) × Inner
  unfolding move_entry
  rename from_key to_key s =
      if s.ro
      then (err read_only, s)
      else if ltb s.max_key_length (length to_key)
      then (err (key_too_long (length to_key) s.max_key_length), s)
      else elim (lookup from_key s.index.files) [
        | none ↦ (err (not_found from_key), s)
        | some info ↦ (ok tt, move_entry from_key to_key info s)
      ]

  unfoldable pub rename_if_not_exists : Bytes → Bytes → Inner → Result (Unit {0}) × Inner
  unfolding mark_shard_dirty
  rename_if_not_exists from_key to_key s =
      if s.ro
      then (err read_only, s)
      else if ltb s.max_key_length (length to_key)
      then (err (key_too_long (length to_key) s.max_key_length), s)
      else elim (lookup to_key s.index.files) [
        | some old ↦ (err (already_exists to_key), s)
        | none ↦ elim (lookup from_key s.index.files) [
          | none ↦ (err (not_found from_key), s)
          | some info ↦
              let s' : Inner = record s {
                index = record s.index {
                  files = insert to_key info (remove from_key s.index.files);
                };
                dirty = true;
              } in
              (ok tt, mark_shard_dirty env to_key (mark_shard_dirty env from_key s'))
        ]
      ]

  unfoldable pub copy_if_not_exists : Bytes → Bytes → ℕ → Inner → Result (Unit {0}) × Inner
  unfolding do_copy
  copy_if_not_exists from_key to_key now s = elim (lookup to_key s.index.files) [
    | some old ↦ (err (already_exists to_key), s)
    | none ↦ do_copy env from_key to_key now s
  ]

  unfoldable pub put_with_meta : Bytes → Bytes → Bytes → ℕ → Inner → Result (Unit {0}) × Inner
  unfolding do_put_with_meta
  put_with_meta key body metadata now s =
      if ltb (2 ^ 16 - 1) (length metadata)
      then (err (metadata_too_large (length metadata) (2 ^ 16 - 1)), s)
      else do_put_with_meta env key (body ++ metadata) (length metadata) now s

  unfoldable pub get_metadata : Bytes → Inner → Result Bytes
  unfolding do_get_range
  get_metadata key s = elim (lookup key s.index.files) [
    | none ↦ err (not_found key)
    | some info ↦
        let logical_size =
          if ltb 0 info.uncompressed_size then info.uncompressed_size else info.size in
        if info.meta_len == 0
        then ok []
        else elim (do_get_range env key (logical_size - info.meta_len) logical_size s) [
          | ok found ↦ ok found.0
          | err e ↦ err e
        ]
  ]

  unfoldable pub set_meta_len : Bytes → ℕ → Inner → Result (Unit {0}) × Inner
  unfolding mark_shard_dirty
  set_meta_len key meta_len s = elim (lookup key s.index.files) [
    | none ↦ (err (not_found key), s)
    | some info ↦
        let s' : Inner = record s {
          index = record s.index {
            files = insert key (record info { meta_len = meta_len }) s.index.files;
          };
          dirty = true;
        } in
        (ok tt, mark_shard_dirty env key s')
  ]

  unfoldable pub delete_tombstone : Bytes → Inner → Result Bool × Inner
  unfolding mark_shard_dirty
  delete_tombstone key s =
      let s' : Inner = record s {
        index = record s.index { tombstones = remove key s.index.tombstones };
        dirty = true;
      } in
      if s.ro then (err read_only, s) else elim (lookup key s.index.files) [
        | some info ↦ (ok false, s)
        | none ↦ elim (lookup key s.index.tombstones) [
          | none ↦ (ok false, s)
          | some t ↦ (ok true, mark_shard_dirty env key s')
        ]
      ]

  unfoldable pub clear_tombstones : Inner → Result ℕ × Inner
  unfolding mark_all
  clear_tombstones s =
      let count = length s.index.tombstones in
      let s' : Inner = record s {
        shard_dirty = mark_all env.crc s.index.tombstones s.shard_dirty;
        index = record s.index { tombstones = [] };
        dirty = true;
      } in
      if s.ro then (err read_only, s) else (ok count, (if ltb 0 count then s' else s))
