-- ===== src/Extent/Writer/Finish.antt =====
-- The streaming writer of rawobjstr/src/extent.rs lays a payload out as the plain encoding does.
use mathlib.Core.Path.{subst}
use native.Mathlib.Nat.{zero-add}
use objstr.Base.{
  ℕ, ◌+◌, ◌-◌, ◌*◌, ◌≤◌, ◌≡◌, ◌≢◌, inl, inr, refl, ap, sym, ◌∙◌, true, List, [], ◌++◌, ltb, ◌==◌,
  if◌then◌else◌, length, arith, Bool-cases, length-append, replicate, length-drop, length-replicate,
}
use objstr.RawError.{Bytes, Result, ok, err, RawStoreError, block_alignment}
use objstr.Device.{DeviceIo, pwrite}
use objstr.Extent.{block_data_size, num_blocks, encode_range, encode_blocks}
use objstr.Extent.Encode.{length-encode_range, encode_range-add, num_blocks_bounds}
use objstr.Extent.Batched.{Written, Written-append, pwrite-Written}
use objstr.Extent.Writer.{
  StreamingBlockWriter, Step, new, continue, flush_batch, seal_block, absorb, finish,
}
use objstr.Extent.Writer.Regions.{encode_range-zeros}
use objstr.Extent.Writer.Feed.{
  Taken, Outcome, new-Taken, absorb-Outcome, partial-short, feed-Outcome,
}
use objstr.Extent.Writer.{feed, concat, stream}

err-ne-ok : (e : RawStoreError) → ¬ (◌≡◌ {A = Result (Unit {0})} (err e) (ok tt))
err-ne-ok e h = cc

module _ (crc : Bytes → ℕ) where
  flush-Written :
      (d : DeviceIo) (offset : ℕ) (seen : Bytes) (w : StreamingBlockWriter)
      → Taken crc d offset seen w
      → Written offset
          (encode_range crc seen 0 (w.blocks_written + w.blocks_in_batch))
          d
          ((flush_batch w).0, (flush_batch w).1.dev)
  unfolding flush_batch
  flush-Written d offset seen w t = go (pwrite w.dev here w.batch) (
      rw both (
        Written-append offset (encode_range crc seen 0 n) w.batch d (ok tt, w.dev)
          (λ v. pwrite v here w.batch) t.done (rw place (pwrite-Written w.dev here w.batch))))
    where
      n : ℕ
      n = w.blocks_written

      here : ℕ
      here = w.extent_offset + n * block_alignment

      place : offset + length (encode_range crc seen 0 n) ≡ here
      place = omega (arith, length-encode_range crc seen 0 n, t.at)

      both : encode_range crc seen 0 (n + w.blocks_in_batch) ≡ encode_range crc seen 0 n ++ w.batch
      both = rw (t.queue, encode_range-add crc seen 0 n w.blocks_in_batch, zero-add n) refl

      after : Result (Unit {0}) × DeviceIo → Step
      after r = elim r.0 [
        | ok _ ↦ (
          ok tt,
          record w {
            dev = r.1;
            blocks_written = w.blocks_written + w.blocks_in_batch;
            batch = [];
            blocks_in_batch = 0;
          },
        )
        | err e ↦ (err e, record w { dev = r.1 })
      ]

      go :
          (r : Result (Unit {0}) × DeviceIo)
          → Written offset (encode_range crc seen 0 (n + w.blocks_in_batch)) d r
          → Written offset
              (encode_range crc seen 0 (n + w.blocks_in_batch))
              d
              ((after r).0, (after r).1.dev)
      go (ok _, dev) v = v
      go (err e, dev) v = v

  abbrev close : StreamingBlockWriter → Step
  close v = if ltb 0 v.blocks_in_batch then flush_batch v else (ok tt, v)

  close-Written :
      (d : DeviceIo) (offset : ℕ) (seen : Bytes) (w : StreamingBlockWriter)
      → Taken crc d offset seen w
      → Written offset
          (encode_range crc seen 0 (w.blocks_written + w.blocks_in_batch))
          d
          ((close w).0, (close w).1.dev)
  close-Written d offset seen w t = elim (Bool-cases (ltb 0 w.blocks_in_batch)) [
    | inl more ↦ rw more (flush-Written d offset seen w t)
    | inr none_left ↦
        let e : w.blocks_written + w.blocks_in_batch ≡ w.blocks_written = ground arith in
        rw (none_left, e) t.done
  ]

  Written-extend :
      (offset : ℕ) (a b : Bytes) (d d' : DeviceIo) (e : RawStoreError)
      → length a ≤ length b
      → Written offset a d (err e, d')
      → Written offset b d (err e, d')
  Written-extend offset a b d d' e h w = record {
    frame = λ x o. elim o [ inl p ↦ w.frame x (inl p) | inr p ↦ w.frame x (inr (omega arith)) ];
    lost = λ x v o m. elim o [
      | inl p ↦ w.lost x v (inl p) m
      | inr p ↦ w.lost x v (inr (omega arith)) m
    ];
    written = λ x. cc;
    unreadable = w.unreadable;
    ro = w.ro;
    total = λ x y. absurd (err-ne-ok e (w.total x y).0);
  }

  absorb-sealed :
      (bytes : Bytes) (w : StreamingBlockWriter)
      → length (w.partial ++ bytes) ≡ block_data_size
      → absorb crc bytes w ≡ seal_block crc (record w { partial = w.partial ++ bytes })
  unfolding absorb
  absorb-sealed bytes w h =
      let e : (length (w.partial ++ bytes) == block_data_size) ≡ true = ground arith in rw e refl

  closed :
      (d : DeviceIo) (offset : ℕ) (seen zeros : Bytes) (n : ℕ) (s : Step)
      → length (seen ++ zeros) ≡ n * block_data_size
      → encode_range crc (seen ++ zeros) 0 n ≡ encode_range crc seen 0 n
      → Outcome crc d offset (seen ++ zeros) s
      → Written offset
          (encode_range crc seen 0 n)
          d
          ((continue s close).0, (continue s close).1.dev)
  closed d offset seen zeros n (ok _, v) len same u =
      let e : v.blocks_written + v.blocks_in_batch ≡ n = omega (arith, u.full, u.short) in
      subst (λ t. Written offset t d ((close v).0, (close v).1.dev))
        (ap (encode_range crc (seen ++ zeros) 0) e ∙ same)
        (close-Written d offset (seen ++ zeros) v u)
  closed d offset seen zeros n (err e, v) len same (k, h, u) =
      Written-extend offset (encode_range crc (seen ++ zeros) 0 k) (encode_range crc seen 0 n) d
        v.dev e
        (omega
          (arith, length-encode_range crc (seen ++ zeros) 0 k, length-encode_range crc seen 0 n))
        u

  finish-Written :
      (d : DeviceIo) (offset : ℕ) (seen : Bytes) (w : StreamingBlockWriter)
      → Taken crc d offset seen w
      → Written offset (encode_blocks crc seen) d ((finish crc w).0, (finish crc w).1.dev)
  unfolding finish encode_blocks
  finish-Written d offset seen w t =
      let k = w.blocks_written + w.blocks_in_batch in
      let len : length w.partial ≡ length seen - k * block_data_size =
        ap length t.rest ∙ length-drop (k * block_data_size) seen in
      elim (Bool-cases (length w.partial == 0)) [
        | inl empty ↦
            let z : length w.partial ≡ 0 = ground arith in
            let e : num_blocks (length seen) ≡ k =
              omega (arith, num_blocks_bounds (length seen), t.full) in
            rw (empty, e) (close-Written d offset seen w t)
        | inr more ↦
            let nz : length w.partial ≢ 0 = ground arith in
            let m = block_data_size - length w.partial in
            let zeros : Bytes = replicate m 0 in
            let zeros_length : length zeros ≡ m = length-replicate {A = ℕ} m 0 in
            let short = partial-short crc t in
            let e : num_blocks (length seen) ≡ k + 1 =
              omega (arith, num_blocks_bounds (length seen), t.full, t.short) in
            let same : encode_range crc (seen ++ zeros) 0 (k + 1)
                ≡ encode_range crc seen 0 (k + 1) =
              subst
                (λ v.
                  encode_range crc (seen ++ replicate (block_data_size - length v) 0) 0 (k + 1)
                  ≡ encode_range crc seen 0 (k + 1))
                (sym t.rest) (encode_range-zeros crc seen k t.full (omega (arith, t.short))) in
            let sealed : length (w.partial ++ zeros) ≡ block_data_size =
              omega (arith, length-append w.partial zeros) in
            rw (more, e, ← absorb-sealed zeros w sealed)
              (closed d offset seen zeros (k + 1) (absorb crc zeros w)
                (omega (arith, length-append seen zeros, t.full)) same
                (absorb-Outcome crc d offset seen zeros w t (omega arith)))
      ]

  blocks_fit :
      (p : Bytes) (k : ℕ)
      → k * block_data_size ≤ length p
      → length (encode_range crc p 0 k) ≤ length (encode_blocks crc p)
  unfolding encode_blocks
  blocks_fit p k h = omega (
    arith,
    num_blocks_bounds (length p),
    length-encode_range crc p 0 k,
    length-encode_range crc p 0 (num_blocks (length p)),
  )

  -- Feeding the chunks of a payload to a new writer and finishing it writes the plain encoding of
  -- the payload, however it is cut into chunks; a failure leaves what is outside of the encoding's
  -- range as it was, and there is none where no write is refused.
  pub stream-Written :
      (d : DeviceIo) (offset : ℕ) (cs : List Bytes)
      → Written offset
          (encode_blocks crc (concat cs))
          d
          ((stream crc d offset cs).0, (stream crc d offset cs).1.dev)
  unfolding stream
  stream-Written d offset cs =
      go (feed crc cs (new d offset))
        (feed-Outcome crc d offset cs [] (new d offset) (new-Taken crc d offset))
    where
      go :
          (s : Step)
          → Outcome crc d offset (concat cs) s
          → Written offset
              (encode_blocks crc (concat cs))
              d
              ((continue s (finish crc)).0, (continue s (finish crc)).1.dev)
      go (ok _, v) u = finish-Written d offset (concat cs) v u
      go (err e, v) (k, h, u) =
          Written-extend offset (encode_range crc (concat cs) 0 k) (encode_blocks crc (concat cs)) d
            v.dev e (blocks_fit (concat cs) k h) u
