-- ===== src/Store/Write.antt =====
-- The write and read paths of rawobjstr/src/store.rs: what `write_extent` leaves on the device, and
-- that a read depends on the bytes of its own extent only.
use mathlib.Core.List.{append-nil, append_assoc}
use mathlib.Core.Path.{subst, fun_ext}
use objstr.Base.{
  ℕ, zero, suc, ◌+◌, ◌-◌, ◌*◌, ◌≤◌, ◌<◌, ◌≡◌, inl, inr, refl, ap, sym, ◌∙◌, List, [], ◌∷◌, ◌++◌,
  leb, ltb, min, arith, Bool-cases, length, drop, take-append-drop,
}
use objstr.RawError.{Bytes, Result, ok, err, ◌>>=◌, block_alignment}
use objstr.Device.{DeviceIo, pread}
use objstr.Device.ReadWrite.{bytes_at-cong}
use objstr.Extent.{
  num_blocks, encode_blocks, encode_and_write_batched, read_batches, read_and_decode_batched,
  decode_loop, batch_blocks,
}
use objstr.Extent.Batched.{Written, encode_and_write_batched-Written}
use objstr.Extent.Writer.{stream, concat, Step}
use objstr.Extent.Writer.Finish.{stream-Written}
use objstr.Store.{Env, chunks, chunk_size, write_extent, crc_chunks, streaming_put_threshold}

pub concat-chunks : (fuel : ℕ) (p : Bytes) → concat (chunks fuel p) ≡ p
unfolding chunks
concat-chunks fuel [] = refl
concat-chunks zero (b ∷ r) = append-nil (b ∷ r)
concat-chunks (suc fuel) (b ∷ r) =
    rw (concat-chunks fuel (drop chunk_size (b ∷ r))) (take-append-drop chunk_size (b ∷ r))

-- A result without its value.
abbrev pub forget : Result ℕ → Result (Unit {0})
forget (ok _) = ok tt
forget (err e) = err e

-- What the crate crc32c documents of its incremental form.
pub record IsChecksum (env : Env) : Type 0 where
  pub empty : env.crc [] ≡ 0
  pub extend : (a b : Bytes) → env.crc_append (env.crc a) b ≡ env.crc (a ++ b)

crc_chunks-concat :
    {env : Env}
    → IsChecksum env
    → (seen : Bytes) (cs : List Bytes)
    → crc_chunks env (env.crc seen) cs ≡ env.crc (seen ++ concat cs)
crc_chunks-concat {env} law seen [] = ap env.crc (sym (append-nil seen))
crc_chunks-concat {env} law seen (c ∷ cs) =
    rw (law.extend seen c)
      (crc_chunks-concat law (seen ++ c) cs ∙ ap env.crc (append_assoc seen c (concat cs)))

-- For a checksum with the incremental form that the crate documents, both write paths, where they
-- succeed, give the checksum of the whole payload.
pub write_extent_crc :
    {env : Env}
    → IsChecksum env
    → (d : DeviceIo) (offset : ℕ) (p : Bytes) (c : ℕ) → (write_extent env d offset p).0 ≡ ok c
    → c ≡ env.crc p
unfolding write_extent
write_extent_crc {env} law d offset p c h =
    elim (Bool-cases (leb streaming_put_threshold (length p))) [
      | inl large ↦ streamed (stream env.crc d offset (chunks (length p) p)).0 (rw large at h)
      | inr small ↦ batched (encode_and_write_batched env.crc d offset p).0 (rw small at h)
    ]
  where
    streamed :
        (r : Result (Unit {0}))
        → elim r [ ok _ ↦ ok (crc_chunks env 0 (chunks (length p) p)) | err e ↦ err e ] ≡ ok c
        → c ≡ env.crc p
    streamed (ok _) q =
        let whole : crc_chunks env 0 (chunks (length p) p) ≡ env.crc p =
          ap (λ z. crc_chunks env z (chunks (length p) p)) (sym law.empty)
          ∙ crc_chunks-concat law [] (chunks (length p) p)
          ∙ ap env.crc (concat-chunks (length p) p) in
        cc
    streamed (err e) q = cc

    batched :
        (r : Result (Unit {0}))
        → elim r [ ok _ ↦ ok (env.crc p) | err e ↦ err e ] ≡ ok c
        → c ≡ env.crc p
    batched (ok _) q = cc
    batched (err e) q = cc

module _ (env : Env) where
  -- Both paths write the plain encoding of the payload.
  pub write_extent-Written :
      (d : DeviceIo) (offset : ℕ) (p : Bytes)
      → Written offset
          (encode_blocks env.crc p)
          d
          (forget (write_extent env d offset p).0, (write_extent env d offset p).1)
  unfolding write_extent
  write_extent-Written d offset p = elim (Bool-cases (leb streaming_put_threshold (length p))) [
    | inl large ↦ rw large (
        streamed (stream env.crc d offset cs) (
          subst
            (λ t.
              Written offset (encode_blocks env.crc t) d
                ((stream env.crc d offset cs).0, (stream env.crc d offset cs).1.dev))
            (concat-chunks (length p) p) (stream-Written env.crc d offset cs)))
    | inr small ↦ rw small (
        batched (encode_and_write_batched env.crc d offset p)
          (encode_and_write_batched-Written env.crc d offset p))
  ]
    where
      cs : List Bytes
      cs = chunks (length p) p

      streamed :
          (s : Step)
          → Written offset (encode_blocks env.crc p) d (s.0, s.1.dev)
          → Written offset
              (encode_blocks env.crc p)
              d
              (forget (elim s.0 [ ok _ ↦ ok (crc_chunks env 0 cs) | err e ↦ err e ]), s.1.dev)
      streamed (ok _, w) h = h
      streamed (err e, w) h = h

      batched :
          (r : Result (Unit {0}) × DeviceIo)
          → Written offset (encode_blocks env.crc p) d r
          → Written offset
              (encode_blocks env.crc p)
              d
              (forget (elim r.0 [ ok _ ↦ ok (env.crc p) | err e ↦ err e ]), r.1)
      batched (ok _, d') h = h
      batched (err e, d') h = h

  module _ (d d' : DeviceIo) (readable : d'.unreadable ≡ d.unreadable) where
    pread-cong :
        (offset n : ℕ)
        → ((x : ℕ) → offset ≤ x → x < offset + n → d'.content x ≡ d.content x)
        → pread d' offset n ≡ pread d offset n
    unfolding pread
    pread-cong offset zero h = refl
    pread-cong offset (suc n) h =
        rw (readable, bytes_at-cong d'.content d.content offset (suc n) h) refl

    read_batches-cong :
        (fuel offset len n idx : ℕ) (p : Bytes)
        → ((x : ℕ) → offset ≤ x → x < offset + n * block_alignment → d'.content x ≡ d.content x)
        → read_batches env.crc fuel d' offset len n idx p
          ≡ read_batches env.crc fuel d offset len n idx p
    unfolding read_batches
    read_batches-cong zero offset len n idx p h = refl
    read_batches-cong (suc fuel) offset len n idx p h = elim (Bool-cases (ltb idx n)) [
      | inr done ↦ rw done refl
      | inl more ↦
          let m = min (idx + batch_blocks) n in
          let lt : idx < n = ground arith in
          let e =
            pread-cong (offset + idx * block_alignment) ((m - idx) * block_alignment)
              (λ x u v. h x (omega arith) (omega arith)) in
          rw (more, e)
            (ap
              (λ k.
                pread d (offset + idx * block_alignment) ((m - idx) * block_alignment) >>= λ raw.
                decode_loop env.crc idx raw len 0 (m - idx) p >>= k)
              (fun_ext (λ q. read_batches-cong fuel offset len n m q h)))
    ]

    -- A read gives the same where the device agrees on the extent.
    pub read_and_decode_batched-cong :
        (offset size : ℕ)
        → ((x : ℕ)
            → offset ≤ x
            → x < offset + num_blocks size * block_alignment
            → d'.content x ≡ d.content x)
        → read_and_decode_batched env.crc d' offset size
          ≡ read_and_decode_batched env.crc d offset size
    unfolding read_and_decode_batched
    read_and_decode_batched-cong offset size h =
        read_batches-cong (num_blocks size) offset size (num_blocks size) 0 [] h
