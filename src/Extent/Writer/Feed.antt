-- ===== src/Extent/Writer/Feed.antt =====
-- The streaming writer of rawobjstr/src/extent.rs while it takes bytes: what it has written and queued.
use mathlib.Core.List.{append-nil, append_assoc}
use native.Mathlib.Nat.{add-zero, zero-add}
use objstr.Base.{
  ℕ, zero, suc, ◌+◌, ◌-◌, ◌*◌, ◌≤◌, ◌<◌, ◌≡◌, inl, inr, refl, ap, sym, ◌∙◌, min, List, [], ◌∷◌,
  ◌++◌, ◌==◌, length, take, drop, arith, Bool-cases, length-append, length-take, length-drop,
  take-append-drop,
}
use objstr.RawError.{Bytes, Result, ok, err, RawStoreError, block_alignment}
use objstr.Device.{DeviceIo, pwrite}
use objstr.Extent.{block_data_size, batch_blocks, data_region, protect, encode_range}
use objstr.Extent.Encode.{length-encode_range, encode_range-add}
use objstr.Extent.Batched.{Written, Written-append, Written-nothing, pwrite-Written}
use objstr.Extent.Writer.{
  StreamingBlockWriter, Step, new, continue, flush_batch, seal_block, absorb, write_rounds,
  write_chunk,
}
use objstr.Extent.Writer.Regions.{
  drop-append_le, drop-of_length-le, data_region-last, encode_range-extend, encode_range-last,
}
use objstr.Extent.Writer.{feed, concat}

module _ (crc : Bytes → ℕ) where
  -- The writer, begun on `d` at `offset`, has taken the bytes `seen`.
  pub record Taken (d : DeviceIo) (offset : ℕ) (seen : Bytes) (w : StreamingBlockWriter)
      : Type 0 where
    pub at : w.extent_offset ≡ offset
    pub queue : w.batch ≡ encode_range crc seen w.blocks_written w.blocks_in_batch
    pub rest : w.partial ≡ drop ((w.blocks_written + w.blocks_in_batch) * block_data_size) seen
    pub full : (w.blocks_written + w.blocks_in_batch) * block_data_size ≤ length seen
    pub short : length seen < (w.blocks_written + w.blocks_in_batch + 1) * block_data_size
    pub done : Written offset (encode_range crc seen 0 w.blocks_written) d (ok tt, w.dev)

  -- What a step leaves: after a success the bytes are taken, after an error only blocks of `seen`
  -- have been written.
  abbrev pub Outcome : DeviceIo → ℕ → Bytes → Step → Type 0
  Outcome d offset seen (ok _, w) = Taken d offset seen w
  Outcome d offset seen (err e, w) =
      (n : ℕ) × (n * block_data_size ≤ length seen)
      × Written offset (encode_range crc seen 0 n) d (err e, w.dev)

  pub new-Taken : (d : DeviceIo) (offset : ℕ) → Taken d offset [] (new d offset)
  unfolding new encode_range
  new-Taken d offset = record {
    at = refl;
    queue = refl;
    rest = refl;
    full = omega arith;
    short = omega arith;
    done = Written-nothing offset d;
  }

  flushed :
      (d : DeviceIo) (offset : ℕ) (seen : Bytes) (w : StreamingBlockWriter)
      → Taken d offset seen w
      → (r : Result (Unit {0}) × DeviceIo)
      → Written offset (encode_range crc seen 0 (w.blocks_written + w.blocks_in_batch)) d r
      → Outcome d offset seen (elim r.0 [
        | ok _ ↦ (
          ok tt,
          record w {
            dev = r.1;
            blocks_written = w.blocks_written + w.blocks_in_batch;
            batch = [];
            blocks_in_batch = 0;
          },
        )
        | err e ↦ (err e, record w { dev = r.1 })
      ])
  unfolding encode_range
  flushed d offset seen w t (ok _, dev) v = record {
    at = t.at;
    queue = refl;
    rest = rw (add-zero (w.blocks_written + w.blocks_in_batch)) t.rest;
    full = omega (arith, t.full);
    short = omega (arith, t.short);
    done = v;
  }
  flushed d offset seen w t (err e, dev) v = (w.blocks_written + w.blocks_in_batch, t.full, v)

  flush_batch-Outcome :
      (d : DeviceIo) (offset : ℕ) (seen : Bytes) (w : StreamingBlockWriter)
      → Taken d offset seen w
      → Outcome d offset seen (flush_batch w)
  unfolding flush_batch
  flush_batch-Outcome d offset seen w t =
      let n = w.blocks_written in
      let here = w.extent_offset + n * block_alignment in
      let place : offset + length (encode_range crc seen 0 n) ≡ here =
        omega (arith, length-encode_range crc seen 0 n, t.at) in
      let both : encode_range crc seen 0 (n + w.blocks_in_batch)
          ≡ encode_range crc seen 0 n ++ w.batch =
        rw (t.queue, encode_range-add crc seen 0 n w.blocks_in_batch, zero-add n) refl in
      flushed d offset seen w t (pwrite w.dev here w.batch) (
        rw both (
          Written-append offset (encode_range crc seen 0 n) w.batch d (ok tt, w.dev)
            (λ v. pwrite v here w.batch) t.done (rw place (pwrite-Written w.dev here w.batch))))

  pub absorb-Outcome :
      (d : DeviceIo) (offset : ℕ) (seen bytes : Bytes) (w : StreamingBlockWriter)
      → Taken d offset seen w
      → length w.partial + length bytes ≤ block_data_size
      → Outcome d offset (seen ++ bytes) (absorb crc bytes w)
  unfolding absorb seal_block
  absorb-Outcome d offset seen bytes w t fits =
      let k = w.blocks_written + w.blocks_in_batch in
      let len : length w.partial ≡ length seen - k * block_data_size =
        ap length t.rest ∙ length-drop (k * block_data_size) seen in
      let total : length (w.partial ++ bytes) ≡ length w.partial + length bytes =
        length-append w.partial bytes in
      let grown : length (seen ++ bytes) ≡ length seen + length bytes = length-append seen bytes in
      let part : w.partial ++ bytes ≡ drop (k * block_data_size) (seen ++ bytes) =
        rw (t.rest, drop-append_le seen bytes (k * block_data_size) t.full) refl in
      let queue' : w.batch ≡ encode_range crc (seen ++ bytes) w.blocks_written w.blocks_in_batch =
        t.queue
        ∙ sym (encode_range-extend crc seen bytes w.blocks_written w.blocks_in_batch t.full) in
      let done' : Written offset (encode_range crc (seen ++ bytes) 0 w.blocks_written) d
          (ok tt, w.dev) =
        rw (encode_range-extend crc seen bytes 0 w.blocks_written (omega (arith, t.full))) t.done in
      elim (Bool-cases (length (w.partial ++ bytes) == block_data_size)) [
        | inr more ↦ rw more (record {
          at = t.at;
          queue = queue';
          rest = part;
          full = omega (arith, t.full);
          short = ground (arith, t.full, t.short, len, total, grown);
          done = done';
        })
        | inl sealed ↦
            let fill : length w.partial + length bytes ≡ block_data_size = ground (arith, total) in
            let region : data_region (seen ++ bytes) k ≡ w.partial ++ bytes =
              let none_left : block_data_size - length (w.partial ++ bytes) ≡ 0 = omega arith in
              data_region-last (seen ++ bytes) k (omega (arith, t.full)) (omega (arith, t.short))
              ∙ rw (← part, none_left) (append-nil (w.partial ++ bytes)) in
            let w' : StreamingBlockWriter = record w {
              partial = [];
              batch = w.batch ++ protect crc (w.partial ++ bytes);
              blocks_in_batch = w.blocks_in_batch + 1;
            } in
            let t' : Taken d offset (seen ++ bytes) w' = record {
              at = t.at;
              queue =
                  rw
                    (
                      queue',
                      encode_range-last crc (seen ++ bytes) w.blocks_written w.blocks_in_batch,
                      region,
                    )
                    refl;
              rest = sym (
                  drop-of_length-le ((w.blocks_written + (w.blocks_in_batch + 1)) * block_data_size)
                    (seen ++ bytes) (omega (arith, t.short)));
              full = omega (arith, t.full);
              short = omega (arith, t.short);
              done = done';
            } in
            rw sealed (elim (Bool-cases (w.blocks_in_batch + 1 == batch_blocks)) [
              | inl flush ↦ rw flush (flush_batch-Outcome d offset (seen ++ bytes) w' t')
              | inr keep ↦ rw keep t'
            ])
      ]

  grow :
      (d : DeviceIo) (offset : ℕ) (seen more : Bytes) (e : RawStoreError) (w : StreamingBlockWriter)
      → Outcome d offset seen (err e, w)
      → Outcome d offset (seen ++ more) (err e, w)
  grow d offset seen more e w (n, h, v) = (
    n,
    omega (arith, length-append seen more),
    rw (encode_range-extend crc seen more 0 n (omega arith)) v,
  )

  continue-Outcome :
      (d : DeviceIo) (offset : ℕ) (seen more : Bytes) (s : Step) (f : StreamingBlockWriter → Step)
      → Outcome d offset seen s
      → ((w : StreamingBlockWriter) → Taken d offset seen w → Outcome d offset (seen ++ more) (f w))
      → Outcome d offset (seen ++ more) (continue s f)
  continue-Outcome d offset seen more (ok _, w) f o g = g w o
  continue-Outcome d offset seen more (err e, w) f o g = grow d offset seen more e w o

  pub partial-short :
      {d : DeviceIo} {offset : ℕ} {seen : Bytes} {w : StreamingBlockWriter}
      → Taken d offset seen w
      → length w.partial < block_data_size
  partial-short {d} {offset} {seen} {w} t =
      let k = w.blocks_written + w.blocks_in_batch in
      let len : length w.partial ≡ length seen - k * block_data_size =
        ap length t.rest ∙ length-drop (k * block_data_size) seen in
      omega (arith, t.short, t.full)

  write_rounds-Outcome :
      (d : DeviceIo) (offset fuel : ℕ) (bytes seen : Bytes) (w : StreamingBlockWriter)
      → length bytes ≤ fuel
      → Taken d offset seen w
      → Outcome d offset (seen ++ bytes) (write_rounds crc fuel bytes w)
  unfolding write_rounds
  write_rounds-Outcome d offset fuel [] seen w h t = rw (append-nil seen) t
  write_rounds-Outcome d offset zero (b ∷ r) seen w h t = absurd (omega arith)
  write_rounds-Outcome d offset (suc fuel) (b ∷ r) seen w h t =
      let n = min (length (b ∷ r)) (block_data_size - length w.partial) in
      let now = take n (b ∷ r) in
      let later = drop n (b ∷ r) in
      let some_taken = partial-short t in
      let whole : seen ++ (b ∷ r) ≡ (seen ++ now) ++ later =
        ap (λ t. seen ++ t) (sym (take-append-drop n (b ∷ r)))
        ∙ sym (append_assoc seen now later) in
      rw whole (
        continue-Outcome d offset (seen ++ now) later (absorb crc now w)
          (write_rounds crc fuel later)
          (absorb-Outcome d offset seen now w t (omega (arith, length-take n (b ∷ r))))
          (λ v u.
            write_rounds-Outcome d offset fuel later (seen ++ now) v
              (omega (arith, length-drop n (b ∷ r))) u))

  pub feed-Outcome :
      (d : DeviceIo) (offset : ℕ) (cs : List Bytes) (seen : Bytes) (w : StreamingBlockWriter)
      → Taken d offset seen w
      → Outcome d offset (seen ++ concat cs) (feed crc cs w)
  unfolding write_chunk
  feed-Outcome d offset [] seen w t = rw (append-nil seen) t
  feed-Outcome d offset (c ∷ cs) seen w t = rw (← append_assoc seen c (concat cs)) (
      continue-Outcome d offset (seen ++ c) (concat cs) (write_chunk crc c w) (feed crc cs)
        (write_rounds-Outcome d offset (length c) c seen w (omega arith) t)
        (λ v u. feed-Outcome d offset cs (seen ++ c) v u))
