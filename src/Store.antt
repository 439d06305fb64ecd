-- ===== src/Store.antt =====
-- The mutable state of the raw store and its operations, `Inner` of rawobjstr/src/store.rs.
pub mod Tidy
pub mod Write
pub mod Put
pub mod Start
pub mod Get
pub mod PutGet
pub mod Copy
pub mod Range
pub mod Entries
pub mod Flush
pub mod Open
pub mod Examples
use Prim.Native.String.{String}
use objstr.Base.{
  ℕ, zero, suc, ◌+◌, ◌-◌, ◌*◌, ◌/◌, ◌≤◌, ◌<◌, min, Bool, true, false, not, ◌&&◌, ◌||◌, Option, none,
  some, List, [], ◌∷◌, ◌++◌, ltb, leb, ◌==◌, if◌then◌else◌, length, take, drop, slice, set,
}
use objstr.RawError.{
  Bytes, Result, ok, err, RawStoreError, read_only, empty_payload, key_too_long, not_found,
  data_corruption, object, io, extent_invalid, block_alignment, ◌>>=◌, data_start, sat_add, u64_mod,
}
use objstr.Alloc.{ExtentAllocator, Region, alloc, free}
use objstr.Device.{DeviceIo, pwrite, pread}
use objstr.Extent.{
  padded_extent_size, encode_and_write_batched, read_and_decode_batched, decode_block_range,
  block_data_size,
}
use objstr.Extent.Writer.{stream}
use objstr.Dict.{Dict, lookup, insert, remove}
use objstr.Index.{shard_for_key, ExtentInfo, TombstoneInfo, DeviceIndex}
use objstr.Compression.{Compression, to_u8, Codecs, compress, decompress}
use objstr.Superblock.{Superblock}

-- The checksum of the crate crc32c with its incremental form, the codecs, and the clock.
pub record Env : Type 0 where
  pub crc : Bytes → ℕ
  pub crc_append : ℕ → Bytes → ℕ
  pub codecs : Codecs

pub record Inner : Type 0 where
  pub dev : DeviceIo
  pub index : DeviceIndex
  pub allocator : Option ExtentAllocator
  pub superblock : Superblock
  pub dirty : Bool
  pub ro : Bool
  pub shard_dirty : List Bool
  pub last_flush_bytes : ℕ
  pub max_key_length : ℕ
  pub compression : Compression

abbrev pub streaming_put_threshold : ℕ
streaming_put_threshold = 8 * 1024 * 1024

abbrev pub chunk_size : ℕ
chunk_size = 1024 * 1024

abbrev pub compressed_range_read_max : ℕ
compressed_range_read_max = 1024 * 1024 * 1024

-- The 1 MB chunks of the loop in `do_put_with_meta`; each takes a byte at least of the fuel.
unfoldable pub chunks : ℕ → Bytes → List Bytes
chunks fuel [] = []
chunks zero (b ∷ r) = (b ∷ r) ∷ []
chunks (suc fuel) (b ∷ r) = take chunk_size (b ∷ r) ∷ chunks fuel (drop chunk_size (b ∷ r))

-- `self.allocator_mut().map(|a| a.free(..))`
unfoldable pub release : Option ExtentAllocator → ℕ → ℕ → Option ExtentAllocator
release none offset padded = none
release (some a) offset padded = some (free a offset padded)

-- "Free old extent if overwriting".
unfoldable pub release_old : Option ExtentInfo → Option ExtentAllocator → Option ExtentAllocator
unfolding release
release_old none a = a
release_old (some old) a = release a old.offset old.padded_size

-- A corruption error names the key.
unfoldable pub named : Bytes → RawStoreError → RawStoreError
named key (data_corruption place expected actual) = data_corruption (object key) expected actual
named key e = e

-- The `map_err` of the reads.
unfoldable pub name_key : Bytes → Result Bytes → Result Bytes
unfolding named
name_key key (ok content) = ok content
name_key key (err e) = err (named key e)

module _ (env : Env) where
  unfoldable pub mark_shard_dirty : Bytes → Inner → Inner
  mark_shard_dirty key s = record s {
    shard_dirty = set s.shard_dirty (shard_for_key env.crc key) true;
  }

  -- The compression decision of `do_put_with_meta`: what is written, and the original size or 0.
  unfoldable pub stored_form : Compression → Bytes → Bytes × ℕ
  stored_form c payload =
      if not (to_u8 c == 0) && leb 4096 (length payload)
      then elim (compress env.codecs c payload) [
        | some compressed ↦
            if ltb (length compressed) (length payload)
            then (compressed, length payload)
            else (payload, 0)
        | none ↦ (payload, 0)
      ]
      else (payload, 0)

  abbrev pub crc_chunks : ℕ → List Bytes → ℕ
  crc_chunks crc [] = crc
  crc_chunks crc (c ∷ cs) = crc_chunks (env.crc_append crc c) cs

  -- The two write paths of `do_put_with_meta`, with the checksum of the payload.
  unfoldable pub write_extent : DeviceIo → ℕ → Bytes → Result ℕ × DeviceIo
  unfolding chunks
  write_extent d offset payload =
      if leb streaming_put_threshold (length payload)
      then (let cs = chunks (length payload) payload in
          let s = stream env.crc d offset cs in
          (elim s.0 [ ok _ ↦ ok (crc_chunks 0 cs) | err e ↦ err e ], s.1.dev))
      else let r = encode_and_write_batched env.crc d offset payload in
        (elim r.0 [ ok _ ↦ ok (env.crc payload) | err e ↦ err e ], r.1)

  -- The index update at the end of `do_put_with_meta` and `do_copy`.
  unfoldable pub record_file : Bytes → ExtentInfo → Inner → Inner
  unfolding mark_shard_dirty release_old
  record_file key info s =
      let old = lookup key s.index.files in
      let s' : Inner = record s {
        allocator = release_old old s.allocator;
        index = record s.index { files = insert key info (remove key s.index.files) };
        dirty = true;
      } in
      mark_shard_dirty key s'

  -- After the extent at `offset` is allocated.
  unfoldable pub put_at :
      Inner → Bytes → Bytes → ℕ → ℕ → ℕ → ℕ → ℕ → ExtentAllocator → Result (Unit {0}) × Inner
  unfolding write_extent record_file release
  put_at s key payload uncompressed_size padded meta_len now offset a =
      let w = write_extent s.dev offset payload in
      elim w.0 [
        | err e ↦ (err e, record s { dev = w.1; allocator = release (some a) offset padded })
        | ok crc ↦
            let s' : Inner = record s {
              dev = w.1;
              allocator = some a;
              index = record s.index { tombstones = remove key s.index.tombstones };
            } in
            (
              ok tt,
              record_file key
                  (record {
                    offset = offset;
                    size = length payload;
                    padded_size = padded;
                    crc32c = crc;
                    created_txn = s.superblock.txn_id;
                    last_modified = now;
                    meta_len = meta_len;
                    uncompressed_size = uncompressed_size;
                  })
                  s',
            )
      ]

  unfoldable pub allocate : Option ExtentAllocator → ℕ → Result (ℕ × ExtentAllocator)
  allocate none padded = err read_only
  allocate (some a) padded = alloc a padded

  unfoldable pub do_put_with_meta : Bytes → Bytes → ℕ → ℕ → Inner → Result (Unit {0}) × Inner
  unfolding put_at allocate stored_form
  do_put_with_meta key payload meta_len now s =
      if s.ro
      then (err read_only, s)
      else if length payload == 0
      then (err empty_payload, s)
      else if ltb s.max_key_length (length key)
      then (err (key_too_long (length key) s.max_key_length), s)
      else let form = stored_form s.compression payload in
        elim (padded_extent_size (length form.0)) [
          | err e ↦ (err e, s)
          | ok padded ↦ elim (allocate s.allocator padded) [
            | err e ↦ (err e, s)
            | ok (offset, a) ↦ put_at s key form.0 form.1 padded meta_len now offset a
          ]
        ]

  -- The payload as it stands on the device.
  unfoldable pub do_get_raw : Bytes → Inner → Result (Bytes × ExtentInfo)
  unfolding name_key
  do_get_raw key s = elim (lookup key s.index.files) [
    | none ↦ err (not_found key)
    | some info ↦ do
      content ← name_key key (read_and_decode_batched env.crc s.dev info.offset info.size)
      ok (content, info)
  ]

  -- "Decompress if needed".
  unfoldable pub expand : Compression → ExtentInfo → Bytes → Result (Bytes × ExtentInfo)
  expand c info content =
      if ltb 0 info.uncompressed_size
      then (do plain ← decompress env.codecs c content; ok (plain, info))
      else ok (content, info)

  unfoldable pub do_get : Bytes → Inner → Result (Bytes × ExtentInfo)
  unfolding name_key expand
  do_get key s = elim (lookup key s.index.files) [
    | none ↦ err (not_found key)
    | some info ↦ do
      content ← name_key key (read_and_decode_batched env.crc s.dev info.offset info.size)
      expand s.compression info content
  ]

  -- `delete` of the ObjectStore interface.
  unfoldable pub delete : Bytes → Inner → Result (Unit {0}) × Inner
  unfolding mark_shard_dirty release_old
  delete key s = if s.ro then (err read_only, s) else elim (lookup key s.index.files) [
    | none ↦ (ok tt, s)
    | some info ↦
        let s' : Inner = record s {
          allocator = release_old (some info) s.allocator;
          index = record s.index { files = remove key s.index.files };
          dirty = true;
        } in
        (ok tt, mark_shard_dirty key s')
  ]
