-- ===== src/Store/Flush/Keeps.antt =====
-- A put of rawobjstr/src/store.rs writes into the data area only, also as far as a crash can tell.
use mathlib.Core.Path.{subst}
use objstr.Base.{ℕ, ◌+◌, ◌*◌, ◌⊎◌, ◌≤◌, ◌<◌, ◌≡◌, sym, ◌∙◌, some, length, arith}
use objstr.RawError.{Bytes, Result, ok, err, data_start, block_alignment}
use objstr.Alloc.{ExtentAllocator}
use objstr.Dict.{remove}
use objstr.Index.{ExtentInfo}
use objstr.Device.{DeviceIo}
use objstr.Extent.{num_blocks, encode_blocks}
use objstr.Extent.Batched.{Written}
use objstr.Extent.Encode.{length-encode_range}
use objstr.Compression.RoundTrip.{IsCodec}
use objstr.Store.{
  Env, Inner, record_file, put_at, write_extent, release, stored_form, do_put_with_meta,
}
use objstr.Store.Write.{write_extent-Written, forget}
use objstr.Store.Tidy.{IsTidy, alloc-fresh}
use objstr.Store.Put.{Tidy, IsTidyStore, padded-IsSize}
use objstr.Store.Start.{Start, refused, begun, do_put-Start, stored_form-Restores}
use objstr.Store.Flush.{Regions}
use objstr.Store.Flush.Crash.{IsDurable}

module _ (env : Env) (r : Regions) (s : Inner) (durable : IsDurable r s.dev) where
  put_at-IsDurable :
      (key p : Bytes) (unc padded meta_len now off : ℕ) (a : ExtentAllocator)
      → padded ≡ num_blocks (length p) * block_alignment
      → data_start ≤ off
      → off + padded ≤ r.index_region_a
      → IsDurable r (put_at env s key p unc padded meta_len now off a).1.dev
  unfolding put_at record_file encode_blocks
  put_at-IsDurable key p unc padded meta_len now off a blocks low high =
      go (write_extent env s.dev off p) (write_extent-Written env s.dev off p)
    where
      kept :
          (w : Result ℕ × DeviceIo)
          → Written off (encode_blocks env.crc p) s.dev (forget w.0, w.1)
          → IsDurable r w.1
      kept w h x v side m =
          let long = length-encode_range env.crc p 0 (num_blocks (length p)) in
          let outside : (x < off) ⊎ (off + length (encode_blocks env.crc p) ≤ x) =
            omega (arith, side, blocks, long) in
          durable x v side (h.lost x v outside m) ∙ sym (h.frame x outside)

      info : ℕ → ExtentInfo
      info crc = record {
        offset = off;
        size = length p;
        padded_size = padded;
        crc32c = crc;
        created_txn = s.superblock.txn_id;
        last_modified = now;
        meta_len = meta_len;
        uncompressed_size = unc;
      }

      recorded : ℕ → DeviceIo → Inner
      recorded crc d = record_file env key (info crc) (record s {
        dev = d;
        allocator = some a;
        index = record s.index { tombstones = remove key s.index.tombstones };
      })

      go :
          (w : Result ℕ × DeviceIo)
          → Written off (encode_blocks env.crc p) s.dev (forget w.0, w.1)
          → IsDurable r
              (elim w.0 as (λ _. Result (Unit {0}) × Inner) [
                | err e ↦ (err e, record s { dev = w.1; allocator = release (some a) off padded })
                | ok crc ↦ (ok tt, recorded crc w.1)
              ]).1.dev
      go (err e, d) h = kept (err e, d) h
      go (ok crc, d) h = kept (ok crc, d) h

  -- Where what was written outside the data area is durable before a put, it is so after the put: on
  -- success, on a refusal, and where the device fails half way. The files are tidy below the index regions, and no codec turns data into nothing.
  pub do_put_with_meta-IsDurable :
      (key payload : Bytes) (meta_len now : ℕ)
      → IsCodec env.codecs
      → IsTidyStore r.index_region_a s
      → IsDurable r (do_put_with_meta env key payload meta_len now s).1.dev
  do_put_with_meta-IsDurable key payload meta_len now laws t =
      go (do_put_with_meta env key payload meta_len now s)
        (do_put-Start env key payload meta_len now s)
    where
      go :
          (u : Result (Unit {0}) × Inner)
          → Start env key payload meta_len now s u
          → IsDurable r u.1.dev
      go u (refused e) = durable
      go u (begun padded off a a' pos q fits done) =
          let form = stored_form env s.compression payload in
          let (blocks, whole) =
            padded-IsSize (length form.0) padded
              (stored_form-Restores env laws s.compression payload pos).0 fits in
          let tidy : IsTidy r.index_region_a a s.index.files =
            subst (λ o. Tidy r.index_region_a o s.index.files) q t in
          let f = alloc-fresh tidy whole (omega (arith, blocks)) done in
          put_at-IsDurable key form.0 form.1 padded meta_len now off a' blocks f.1 f.2
