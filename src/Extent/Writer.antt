-- ===== src/Extent/Writer.antt =====
-- `StreamingBlockWriter` of rawobjstr/src/extent.rs, and the loop that feeds it 1 MB chunks in
-- rawobjstr/src/store.rs.
pub mod Regions
pub mod Feed
pub mod Finish
use Prim.Native.String.{String}
use objstr.Base.{
  ℕ, zero, suc, ◌+◌, ◌-◌, ◌*◌, ◌≤◌, ◌<◌, min, Bool, true, false, List, [], ◌∷◌, ◌++◌, ltb, leb,
  ◌==◌, if◌then◌else◌, length, take, drop, replicate,
}
use objstr.RawError.{Bytes, Result, ok, err, io, block_alignment}
use objstr.Device.{DeviceIo, pwrite}
use objstr.Extent.{block_data_size, batch_blocks, protect}

pub record StreamingBlockWriter : Type 0 where
  pub dev : DeviceIo
  pub extent_offset : ℕ
  pub batch : Bytes
  pub blocks_in_batch : ℕ
  pub partial : Bytes
  pub blocks_written : ℕ

abbrev pub Step : Type 0
Step = Result (Unit {0}) × StreamingBlockWriter

unfoldable pub new : DeviceIo → ℕ → StreamingBlockWriter
new d offset = record {
  dev = d;
  extent_offset = offset;
  batch = [];
  blocks_in_batch = 0;
  partial = [];
  blocks_written = 0;
}

-- `?` on a step: go on after a success, stop with the error.
abbrev pub continue : Step → (StreamingBlockWriter → Step) → Step
continue s f = elim s.0 [ ok _ ↦ f s.1 | err e ↦ (err e, s.1) ]

unfoldable pub flush_batch : StreamingBlockWriter → Step
flush_batch w =
    let r = pwrite w.dev (w.extent_offset + w.blocks_written * block_alignment) w.batch in
    elim r.0 [
      | ok _ ↦ (
        ok tt,
        record w {
          dev = r.1;
          blocks_written = w.blocks_written + w.blocks_in_batch;
          batch = [];
          blocks_in_batch = 0;
        },
      )
      | err e ↦ (err e, record w { dev = r.1 })
    ]

module _ (crc : Bytes → ℕ) where
  unfoldable pub seal_block : StreamingBlockWriter → Step
  unfolding flush_batch
  seal_block w =
      let w' : StreamingBlockWriter = record w {
        batch = w.batch ++ protect crc w.partial;
        partial = [];
        blocks_in_batch = w.blocks_in_batch + 1;
      } in
      if w'.blocks_in_batch == batch_blocks then flush_batch w' else (ok tt, w')

  -- One round of the loop of `write_chunk`, on `n` bytes.
  unfoldable pub absorb : Bytes → StreamingBlockWriter → Step
  unfolding seal_block
  absorb bytes w =
      let w' : StreamingBlockWriter = record w { partial = w.partial ++ bytes } in
      if length w'.partial == block_data_size then seal_block w' else (ok tt, w')

  -- Each round takes a byte at least, so the length of the data is enough fuel.
  unfoldable pub write_rounds : ℕ → Bytes → StreamingBlockWriter → Step
  unfolding absorb
  write_rounds fuel [] w = (ok tt, w)
  write_rounds zero (b ∷ rest) w = (err (io "out of fuel"), w)
  write_rounds (suc fuel) (b ∷ rest) w =
      let n = min (length (b ∷ rest)) (block_data_size - length w.partial) in
      continue (absorb (take n (b ∷ rest)) w) (write_rounds fuel (drop n (b ∷ rest)))

  unfoldable pub write_chunk : Bytes → StreamingBlockWriter → Step
  unfolding write_rounds
  write_chunk bytes w = write_rounds (length bytes) bytes w

  unfoldable pub finish : StreamingBlockWriter → Step
  unfolding seal_block flush_batch
  finish w =
      let padded : StreamingBlockWriter = record w {
        partial = w.partial ++ replicate (block_data_size - length w.partial) 0;
      } in
      continue (if length w.partial == 0 then (ok tt, w) else seal_block padded)
        (λ v. if ltb 0 v.blocks_in_batch then flush_batch v else (ok tt, v))

abbrev pub concat : List Bytes → Bytes
concat [] = []
concat (c ∷ cs) = c ++ concat cs

module _ (crc : Bytes → ℕ) where
  -- The chunks of a payload, one `write_chunk` after another.
  abbrev pub feed : List Bytes → StreamingBlockWriter → Step
  feed [] w = (ok tt, w)
  feed (c ∷ cs) w = continue (write_chunk crc c w) (feed cs)

  -- A new writer, the chunks, and `finish`.
  unfoldable pub stream : DeviceIo → ℕ → List Bytes → Step
  unfolding finish write_chunk new
  stream d offset cs = continue (feed cs (new d offset)) (finish crc)
