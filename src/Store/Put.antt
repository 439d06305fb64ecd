-- ===== src/Store/Put.antt =====
-- `do_put_with_meta` and `delete` of rawobjstr/src/store.rs keep the index and the allocator tidy,
-- whether or not the write succeeds.
use objstr.Base.{
  ℕ, ◌*◌, ◌%◌, ◌<◌, ◌≡◌, ◌≢◌, inl, inr, refl, Bool, true, false, Option, none, some, arith,
  if◌then◌else◌, length,
}
use objstr.RawError.{Bytes, Result, ok, err, block_alignment, read_only}
use objstr.Alloc.{ExtentAllocator, alloc}
use objstr.Alloc.Laws.{IsSize}
use objstr.Device.{DeviceIo}
use objstr.Extent.{num_blocks, padded_extent_size}
use objstr.Dict.{Dict, lookup, insert, remove}
use objstr.Index.{ExtentInfo}
use objstr.Store.{
  Env, Inner, release_old, release, record_file, put_at, delete, write_extent, mark_shard_dirty,
}
use objstr.Store.Tidy.{
  IsPlaced, ApartFiles, IsTidy, lookup-remove-some, remove-IsTidy, free-keeps_Apart, free-IsTidy,
  alloc-IsTidy, alloc-fresh, alloc_undone, insert-IsTidy,
}

-- In a read-only store there is no allocator, and nothing to keep.
abbrev pub Tidy : ℕ → Option ExtentAllocator → Dict ExtentInfo → Type 0
Tidy hi none files = Unit {0}
Tidy hi (some a) files = IsTidy hi a files

abbrev pub IsTidyStore : ℕ → Inner → Type 0
IsTidyStore hi s = Tidy hi s.allocator s.index.files

-- Recording a file under a key, and releasing the one that was there.
pub replace-Tidy :
    {hi : ℕ} {a : ExtentAllocator} (key : Bytes) (info : ExtentInfo) (files : Dict ExtentInfo)
    → IsTidy hi a files
    → IsPlaced hi a info
    → ((k : Bytes) (i : ExtentInfo) → lookup k files ≡ some i → ApartFiles info i)
    → Tidy hi (release_old (lookup key files) (some a)) (insert key info (remove key files))
unfolding release_old release
replace-Tidy {hi} {a} key info files t p fresh = go (lookup key files) refl
  where
    apart_rest :
        (k : Bytes) (i : ExtentInfo)
        → lookup k (remove key files) ≡ some i
        → key ≢ k
        → ApartFiles info i
    apart_rest k i h _ = fresh k i (lookup-remove-some key k i files h).0

    go :
        (o : Option ExtentInfo)
        → lookup key files ≡ o
        → Tidy hi (release_old o (some a)) (insert key info (remove key files))
    go none e = insert-IsTidy key info (remove key files) (remove-IsTidy key files t) p apart_rest
    go (some old) e =
        insert-IsTidy key info (remove key files) (free-IsTidy t key old e)
          (record {
            aligned = p.aligned;
            start = p.start;
            inside = p.inside;
            blocks = p.blocks;
            some_bytes = p.some_bytes;
            not_free =
                free-keeps_Apart t key old e info.offset info.padded_size p.some_bytes
                  (elim (fresh key old e) [ inl u ↦ inr u | inr u ↦ inl u ]) p.not_free;
          })
          apart_rest

-- A padded size is a whole number of blocks, and rounds without wrapping.
pub padded-IsSize :
    (n padded : ℕ)
    → 0 < n
    → padded_extent_size n ≡ ok padded
    → (padded ≡ num_blocks n * block_alignment) × IsSize padded
unfolding padded_extent_size num_blocks
padded-IsSize n padded pos h = ground arith

module _ (env : Env) {hi : ℕ} (s : Inner) (key p : Bytes) (unc padded meta_len now off : ℕ)
    {a a' : ExtentAllocator} (t : IsTidy hi a s.index.files) (size : IsSize padded)
    (blocks : padded ≡ num_blocks (length p) * block_alignment)
    (done : alloc a padded ≡ ok (off, a')) where
  pub put_at-Tidy : IsTidyStore hi (put_at env s key p unc padded meta_len now off a').1
  unfolding put_at record_file mark_shard_dirty release
  put_at-Tidy = go (write_extent env s.dev off p)
    where
      blocked : padded % block_alignment ≡ 0
      blocked = omega (arith, blocks)

      after : Result ℕ × DeviceIo → Result (Unit {0}) × Inner
      after w = elim w.0 [
        | err e ↦ (err e, record s { dev = w.1; allocator = release (some a') off padded })
        | ok crc ↦
            let s' : Inner = record s {
              dev = w.1;
              allocator = some a';
              index = record s.index { tombstones = remove key s.index.tombstones };
            } in
            (
              ok tt,
              record_file env key
                  (record {
                    offset = off;
                    size = length p;
                    padded_size = padded;
                    crc32c = crc;
                    created_txn = s.superblock.txn_id;
                    last_modified = now;
                    meta_len = meta_len;
                    uncompressed_size = unc;
                  })
                  s',
            )
      ]

      go : (w : Result ℕ × DeviceIo) → IsTidyStore hi (after w).1
      go (err e, d) = rw (alloc_undone t size blocked done) t
      go (ok crc, d) =
          let f = alloc-fresh t size blocked done in
          replace-Tidy key
            (record {
              offset = off;
              size = length p;
              padded_size = padded;
              crc32c = crc;
              created_txn = s.superblock.txn_id;
              last_modified = now;
              meta_len = meta_len;
              uncompressed_size = unc;
            })
            s.index.files (alloc-IsTidy t size blocked done)
            (record {
              aligned = f.0;
              start = f.1;
              inside = f.2;
              blocks = blocks;
              some_bytes = size.0;
              not_free = f.3;
            })
            f.4

module _ (env : Env) where
  -- Deleting a key keeps a tidy store tidy, whether or not the key is there.
  pub delete-IsTidy :
      (hi : ℕ) (key : Bytes) (s : Inner) → IsTidyStore hi s → IsTidyStore hi (delete env key s).1
  unfolding delete mark_shard_dirty release_old release
  delete-IsTidy hi key s t = go s.ro (lookup key s.index.files) refl
    where
      after : Bool → Option ExtentInfo → Result (Unit {0}) × Inner
      after ro o = if ro then (err read_only, s) else elim o [
        | none ↦ (ok tt, s)
        | some info ↦
            let s' : Inner = record s {
              allocator = release_old (some info) s.allocator;
              index = record s.index { files = remove key s.index.files };
              dirty = true;
            } in
            (ok tt, mark_shard_dirty env key s')
      ]

      released :
          (info : ExtentInfo)
          → lookup key s.index.files ≡ some info
          → (a : Option ExtentAllocator) → Tidy hi a s.index.files
          → Tidy hi (release_old (some info) a) (remove key s.index.files)
      released info e none h = tt
      released info e (some a) h = free-IsTidy h key info e

      go :
          (ro : Bool) (o : Option ExtentInfo)
          → lookup key s.index.files ≡ o
          → IsTidyStore hi (after ro o).1
      go true o e = t
      go false none e = t
      go false (some info) e = released info e s.allocator t
