-- ===== src/Extent/Encode.antt =====
-- The layout that rawobjstr/src/extent.rs gives a payload.
use mathlib.Core.List.{append_assoc}
use native.Mathlib.Nat.{add-zero, zero-add}
use objstr.Base.{
  ℕ, zero, suc, ◌+◌, ◌-◌, ◌*◌, ◌≤◌, ◌<◌, ◌^◌, ◌≡◌, refl, ap, sym, ◌∙◌, min, ◌++◌, length, take,
  drop, slice, replicate, arith, length-append, length-take, length-drop, length-replicate,
  take-append_first, take-append_slice, slice-append_later,
}
use objstr.RawError.{Bytes, ok, block_alignment}
use objstr.Extent.{
  block_crc_size, block_data_size, num_blocks, to_le_bytes, from_le_bytes, data_region, protect,
  encode_range, verify_block_crc, decode_loop,
}

pub length-data_region : (p : Bytes) (i : ℕ) → length (data_region p i) ≡ block_data_size
unfolding data_region
length-data_region p i =
    let start = i * block_data_size in
    let end = min (start + block_data_size) (length p) in
    omega (
      arith,
      length-append (slice start end p) (replicate (block_data_size - (end - start)) 0),
      length-take (end - start) (drop start p),
      length-drop start p,
      length-replicate {A = ℕ} (block_data_size - (end - start)) 0,
    )

pub from-to_le_bytes :
    (n : ℕ) (rest : Bytes) → n < 2 ^ 32 → from_le_bytes (to_le_bytes n ++ rest) ≡ n
unfolding from_le_bytes to_le_bytes
from-to_le_bytes n rest h = omega arith

from-to_le_bytes-take :
    (n : ℕ) (rest : Bytes)
    → n < 2 ^ 32
    → from_le_bytes (take block_crc_size (to_le_bytes n ++ rest)) ≡ n
unfolding from_le_bytes to_le_bytes
from-to_le_bytes-take n rest h = omega arith

drop-to_le_bytes : (n : ℕ) (rest : Bytes) → drop block_crc_size (to_le_bytes n ++ rest) ≡ rest
unfolding to_le_bytes
drop-to_le_bytes n rest = refl

-- The blocks hold the payload, and one block fewer would not.
pub num_blocks_bounds :
    (n : ℕ)
    → (n ≤ num_blocks n * block_data_size) × (num_blocks n * block_data_size < n + block_data_size)
unfolding num_blocks
num_blocks_bounds n = ground arith

-- What the block at `i * D` adds to the payload read so far.
data_region-take :
    (p : Bytes) (i : ℕ)
    → take (i * block_data_size) p
        ++ take
            (min (length p - length (take (i * block_data_size) p)) block_data_size)
            (data_region p i)
      ≡ take ((i + 1) * block_data_size) p
unfolding data_region
data_region-take p i =
    let start = i * block_data_size in
    let end = min (start + block_data_size) (length p) in
    let m = min (length p - length (take start p)) block_data_size in
    let e : m ≡ end - start = omega (arith, length-take start p) in
    let l : length (slice start end p) ≡ end - start =
      omega (arith, length-take (end - start) (drop start p), length-drop start p) in
    let whole : take start p ++ slice start end p ≡ take (start + block_data_size) p =
      take-append_slice start block_data_size p in
    let part : take m (slice start end p ++ replicate (block_data_size - (end - start)) 0)
        ≡ slice start end p =
      take-append_first (slice start end p) (replicate (block_data_size - (end - start)) 0) m
        (l ∙ sym e) in
    let j : (i + 1) * block_data_size ≡ start + block_data_size = omega arith in rw (part, j) whole

module _ (crc : Bytes → ℕ) where
  pub length-protect :
      (p : Bytes) (i : ℕ) → length (protect crc (data_region p i)) ≡ block_alignment
  unfolding protect to_le_bytes
  length-protect p i = omega (arith, length-data_region p i)

  pub length-encode_range :
      (p : Bytes) (i n : ℕ) → length (encode_range crc p i n) ≡ n * block_alignment
  unfolding encode_range
  length-encode_range p i zero = refl
  length-encode_range p i (suc n) = omega (
    arith,
    length-append (protect crc (data_region p i)) (encode_range crc p (i + 1) n),
    length-protect p i,
    length-encode_range p (i + 1) n,
  )

  pub encode_range-add :
      (p : Bytes) (i n m : ℕ)
      → encode_range crc p i (n + m) ≡ encode_range crc p i n ++ encode_range crc p (i + n) m
  unfolding encode_range
  encode_range-add p i zero m = rw (zero-add, add-zero)
  encode_range-add p i (suc n) m =
      let e : suc n + m ≡ suc (n + m) = omega arith in
      let j : i + suc n ≡ i + 1 + n = omega arith in
      rw (e, j)
        (ap (λ t. protect crc (data_region p i) ++ t) (encode_range-add p (i + 1) n m)
          ∙ sym (
              append_assoc (protect crc (data_region p i)) (encode_range crc p (i + 1) n)
                (encode_range crc p (i + 1 + n) m)))

  -- Block `i` of the encoding.
  pub block-encode_range :
      (p : Bytes) (k n i : ℕ)
      → i < n
      → slice (i * block_alignment) ((i + 1) * block_alignment) (encode_range crc p k n)
        ≡ protect crc (data_region p (k + i))
  unfolding encode_range
  block-encode_range p k zero i h = absurd (omega arith)
  block-encode_range p k (suc n) zero h = rw (add-zero k) (
      take-append_first (protect crc (data_region p k)) (encode_range crc p (k + 1) n)
        block_alignment (length-protect p k))
  block-encode_range p k (suc n) (suc i) h =
      let j : k + suc i ≡ k + 1 + i = omega arith in
      rw j (
        slice-append_later (protect crc (data_region p k)) (encode_range crc p (k + 1) n)
          block_alignment (i * block_alignment) ((i + 1) * block_alignment)
          (suc i * block_alignment) ((suc i + 1) * block_alignment) (length-protect p k)
          (omega arith) (omega arith)
        ∙ block-encode_range p (k + 1) n i (omega arith))

  pub verify-protect :
      (r : Bytes) (label : ℕ) → crc r < 2 ^ 32 → verify_block_crc crc (protect crc r) label ≡ ok r
  unfolding verify_block_crc protect
  verify-protect r label h =
      let e : from_le_bytes (take block_crc_size (to_le_bytes (crc r) ++ r)) ≡ crc r =
        from-to_le_bytes-take (crc r) r h in
      let f : drop block_crc_size (to_le_bytes (crc r) ++ r) ≡ r = drop-to_le_bytes (crc r) r in
      rw (f, e) (ground arith)

  abbrev pub IsU32 : Type 0
  IsU32 = (b : Bytes) → crc b < 2 ^ 32

  -- Decoding `count` blocks of an encoding from the content of those before.
  pub decode_loop-encode :
      IsU32
      → (p : Bytes) (k n label i count : ℕ) → i + count ≤ n
      → decode_loop crc label
          (encode_range crc p k n)
          (length p)
          i
          count
          (take ((k + i) * block_data_size) p)
        ≡ ok (take ((k + i + count) * block_data_size) p)
  unfolding decode_loop
  decode_loop-encode u p k n label i zero h = rw (add-zero (k + i))
  decode_loop-encode u p k n label i (suc count) h =
      let e : k + i + suc count ≡ k + (i + 1) + count = omega arith in
      let j : k + i + 1 ≡ k + (i + 1) = omega arith in
      rw
        (
          block-encode_range p k n i (omega arith),
          verify-protect (data_region p (k + i)) (label + i) (u (data_region p (k + i))),
          data_region-take p (k + i),
          e,
          j,
        )
        (decode_loop-encode u p k n label (i + 1) count (omega arith))
