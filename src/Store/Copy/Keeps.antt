-- ===== src/Store/Copy/Keeps.antt =====
-- `do_copy` of rawobjstr/src/store.rs keeps the index and the allocator tidy.
use objstr.Base.{
  ℕ, ◌%◌, ◌^◌, ◌<◌, ◌≡◌, refl, Bool, true, false, Option, none, some, ltb, length, if◌then◌else◌,
  arith,
}
use objstr.RawError.{Bytes, Result, ok, err, read_only, key_too_long, not_found, block_alignment}
use objstr.Alloc.{ExtentAllocator, alloc}
use objstr.Alloc.Laws.{IsSize}
use objstr.Device.{DeviceIo}
use objstr.Dict.{lookup}
use objstr.Index.{ExtentInfo}
use objstr.Store.{Env, Inner, allocate, release, record_file, mark_shard_dirty}
use objstr.Store.Tidy.{IsPlaced, IsTidy, alloc-IsTidy, alloc-fresh, alloc_undone}
use objstr.Store.Put.{Tidy, IsTidyStore, replace-Tidy}
use objstr.Store.Copy.{
  CopyEnd, copied_all, refused, overflowed, copy_loop, copy_end, copy_found, do_copy,
}

placed-IsSize :
    {hi : ℕ} {a : ExtentAllocator} {i : ExtentInfo}
    → hi < 2 ^ 64
    → IsPlaced hi a i
    → IsSize i.padded_size × (i.padded_size % block_alignment ≡ 0)
placed-IsSize m p =
    ((p.some_bytes, omega (arith, p.inside, p.start, p.blocks, m)), omega (arith, p.blocks))

module _ (env : Env) (hi : ℕ) (from_key to_key : Bytes) (now : ℕ) (s : Inner) where
  module _ (info : ExtentInfo) {a a' : ExtentAllocator} {off : ℕ} (t : IsTidy hi a s.index.files)
      (p : IsPlaced hi a info) (done : alloc a info.padded_size ≡ ok (off, a')) where
    copy_end-IsTidy :
        (r : CopyEnd × DeviceIo) → IsTidyStore hi (copy_end env r to_key info now off a' s).1
    unfolding copy_end release record_file mark_shard_dirty
    copy_end-IsTidy (refused e, d) =
        let (size, blocked) = placed-IsSize t.valid.end_bound p in
        rw (alloc_undone t size blocked done) t
    copy_end-IsTidy (overflowed e, d) =
        let (size, blocked) = placed-IsSize t.valid.end_bound p in alloc-IsTidy t size blocked done
    copy_end-IsTidy (copied_all, d) =
        let (size, blocked) = placed-IsSize t.valid.end_bound p in
        let f = alloc-fresh t size blocked done in
        replace-Tidy to_key
          (record info { offset = off; created_txn = s.superblock.txn_id; last_modified = now })
          s.index.files (alloc-IsTidy t size blocked done)
          (record {
            aligned = f.0;
            start = f.1;
            inside = f.2;
            blocks = p.blocks;
            some_bytes = p.some_bytes;
            not_free = f.3;
          })
          f.4

  copy_found-IsTidy :
      (info : ExtentInfo)
      → lookup from_key s.index.files ≡ some info
      → IsTidyStore hi s
      → IsTidyStore hi (copy_found env to_key info now s).1
  unfolding copy_found allocate
  copy_found-IsTidy info found t =
      room s.allocator t (allocate env s.allocator info.padded_size) refl
    where
      after : Result (ℕ × ExtentAllocator) → Result (Unit {0}) × Inner
      after r = elim r [
        | err e ↦ (err e, s)
        | ok (off, a) ↦
            copy_end env (copy_loop info.padded_size s.dev info.offset off info.padded_size 0)
              to_key info now off a s
      ]

      room :
          (o : Option ExtentAllocator)
          → Tidy hi o s.index.files
          → (r : Result (ℕ × ExtentAllocator)) → allocate env o info.padded_size ≡ r
          → IsTidyStore hi (after r).1
      room o h (err e) q = t
      room none h (ok (off, a')) q = cc
      room (some a) h (ok (off, a')) q =
          copy_end-IsTidy info h (h.placed from_key info found) q
            (copy_loop info.padded_size s.dev info.offset off info.padded_size 0)

  -- A copy keeps a tidy store tidy: on success, on every refusal, also onto itself, and where a
  -- read or a write fails between two batches.
  pub do_copy-IsTidy : IsTidyStore hi s → IsTidyStore hi (do_copy env from_key to_key now s).1
  unfolding do_copy
  do_copy-IsTidy t =
      go s.ro (ltb s.max_key_length (length to_key)) (lookup from_key s.index.files) refl
    where
      after : Bool → Bool → Option ExtentInfo → Result (Unit {0}) × Inner
      after ro long o =
          if ro
          then (err read_only, s)
          else if long
          then (err (key_too_long (length to_key) s.max_key_length), s)
          else elim o [
            | none ↦ (err (not_found from_key), s)
            | some info ↦ copy_found env to_key info now s
          ]

      go :
          (ro long : Bool) (o : Option ExtentInfo)
          → lookup from_key s.index.files ≡ o
          → IsTidyStore hi (after ro long o).1
      go true long o e = t
      go false true o e = t
      go false false none e = t
      go false false (some info) e = copy_found-IsTidy info e t
