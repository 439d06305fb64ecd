-- ===== src/Store/Copy.antt =====
-- Copies of `Inner` of rawobjstr/src/store.rs: the blocks of an extent are copied as they stand.
pub mod Keeps
use objstr.Base.{ℕ, zero, suc, ◌+◌, ◌-◌, ◌*◌, min, Option, none, some, length, ltb, if◌then◌else◌}
use objstr.RawError.{
  Bytes, Result, ok, err, RawStoreError, read_only, key_too_long, not_found, extent_invalid, io,
  block_alignment, u64_mod,
}
use objstr.Alloc.{ExtentAllocator}
use objstr.Device.{DeviceIo, pwrite, pread}
use objstr.Dict.{lookup}
use objstr.Index.{ExtentInfo}
use objstr.Store.{Env, Inner, allocate, release, record_file}

-- How the loop of `do_copy` ends. After an overflow of an offset the new extent is not freed.
pub data CopyEnd : Type 0 where
  copied_all : CopyEnd
  refused overflowed : RawStoreError → CopyEnd

abbrev pub copy_batch : ℕ
copy_batch = 256 * block_alignment

-- The write of a batch that was read.
unfoldable pub copy_write :
    Result Bytes → DeviceIo → ℕ → (DeviceIo → CopyEnd × DeviceIo) → CopyEnd × DeviceIo
copy_write (err e) d at next = (refused e, d)
copy_write (ok raw) d at next =
    let w = pwrite d at raw in elim w.0 [ ok _ ↦ next w.1 | err e ↦ (refused e, w.1) ]

-- Each batch takes a byte at least, so the padded size is enough fuel.
unfoldable pub copy_loop : ℕ → DeviceIo → ℕ → ℕ → ℕ → ℕ → CopyEnd × DeviceIo
unfolding copy_write
copy_loop zero d src dst total copied =
    if ltb copied total then (refused (io "out of fuel"), d) else (copied_all, d)
copy_loop (suc fuel) d src dst total copied =
    let chunk = min (total - copied) copy_batch in
    let step =
      copy_write (pread d (src + copied) chunk) d (dst + copied)
        (λ d'. copy_loop fuel d' src dst total (copied + chunk)) in
    if ltb copied total
    then if ltb (src + copied) u64_mod
      then if ltb (dst + copied) u64_mod
        then step
        else (overflowed (extent_invalid "copy: destination offset overflow"), d)
      else (overflowed (extent_invalid "copy: source offset overflow"), d)
    else (copied_all, d)

module _ (env : Env) where
  -- After the copy loop.
  unfoldable pub copy_end :
      CopyEnd × DeviceIo
      → Bytes
      → ExtentInfo
      → ℕ
      → ℕ
      → ExtentAllocator
      → Inner
      → Result (Unit {0}) × Inner
  unfolding record_file release
  copy_end (refused e, d) to_key info now off a s =
      (err e, record s { dev = d; allocator = release (some a) off info.padded_size })
  copy_end (overflowed e, d) to_key info now off a s =
      (err e, record s { dev = d; allocator = some a })
  copy_end (copied_all, d) to_key info now off a s = (
    ok tt,
    record_file env to_key
        (record info { offset = off; created_txn = s.superblock.txn_id; last_modified = now })
        (record s { dev = d; allocator = some a }),
  )

  -- After the source is found.
  unfoldable pub copy_found : Bytes → ExtentInfo → ℕ → Inner → Result (Unit {0}) × Inner
  unfolding copy_loop copy_end allocate
  copy_found to_key info now s = elim (allocate env s.allocator info.padded_size) [
    | err e ↦ (err e, s)
    | ok (off, a) ↦
        copy_end (copy_loop info.padded_size s.dev info.offset off info.padded_size 0) to_key info
          now off a s
  ]

  unfoldable pub do_copy : Bytes → Bytes → ℕ → Inner → Result (Unit {0}) × Inner
  unfolding copy_found
  do_copy from_key to_key now s =
      if s.ro
      then (err read_only, s)
      else if ltb s.max_key_length (length to_key)
      then (err (key_too_long (length to_key) s.max_key_length), s)
      else elim (lookup from_key s.index.files) [
        | none ↦ (err (not_found from_key), s)
        | some info ↦ copy_found to_key info now s
      ]
