-- ===== src/Extent/Writer/Regions.antt =====
-- Blocks of a growing payload, for the streaming writer of rawobjstr/src/extent.rs.
use mathlib.Core.List.{append-nil}
use native.Mathlib.Nat.{zero-add}
use objstr.Base.{
  ℕ, zero, suc, ◌+◌, ◌-◌, ◌*◌, ◌≤◌, ◌≡◌, refl, ap, sym, ◌∙◌, min, [], ◌∷◌, ◌++◌, length, drop,
  arith, take-of_length-le, length-append, replicate, take-append_le, length-drop, length-replicate,
}
use objstr.RawError.{Bytes}
use objstr.Extent.{block_data_size, data_region, protect, encode_range}
use objstr.Extent.Encode.{encode_range-add}

pub drop-append_le : (xs ys : Bytes) (n : ℕ) → n ≤ length xs → drop n (xs ++ ys) ≡ drop n xs ++ ys
drop-append_le xs ys zero h = refl
drop-append_le [] ys (suc n) h = absurd (omega arith)
drop-append_le (x ∷ xs) ys (suc n) h = drop-append_le xs ys n (omega arith)

pub drop-of_length-le : (n : ℕ) (xs : Bytes) → length xs ≤ n → drop n xs ≡ []
drop-of_length-le zero [] h = refl
drop-of_length-le zero (x ∷ xs) h = absurd (omega arith)
drop-of_length-le (suc n) [] h = refl
drop-of_length-le (suc n) (x ∷ xs) h = drop-of_length-le n xs (omega arith)

-- A block that is full stays the same when more bytes follow.
pub data_region-extend :
    (s t : Bytes) (i : ℕ)
    → (i + 1) * block_data_size ≤ length s
    → data_region (s ++ t) i ≡ data_region s i
unfolding data_region
data_region-extend s t i h =
    let start = i * block_data_size in
    let e : min (start + block_data_size) (length (s ++ t)) ≡ start + block_data_size =
      omega (arith, length-append s t) in
    let f : min (start + block_data_size) (length s) ≡ start + block_data_size = omega arith in
    rw
      (
        e,
        f,
        drop-append_le s t start (omega arith),
        take-append_le (drop start s) t (start + block_data_size - start)
            (omega (arith, length-drop start s)),
      )
      refl

-- The block at the end of the bytes is what stands behind the full ones, with zeros.
pub data_region-last :
    (s : Bytes) (i : ℕ)
    → i * block_data_size ≤ length s
    → length s ≤ (i + 1) * block_data_size
    → data_region s i
      ≡ drop (i * block_data_size) s
        ++ replicate (block_data_size - length (drop (i * block_data_size) s)) 0
unfolding data_region
data_region-last s i h g =
    let start = i * block_data_size in
    let e : min (start + block_data_size) (length s) ≡ length s = omega arith in
    let f : block_data_size - (length s - start) ≡ block_data_size - length (drop start s) =
      omega (arith, length-drop start s) in
    rw
      (
        e,
        f,
        take-of_length-le (length s - start) (drop start s) (omega (arith, length-drop start s)),
      )
      refl

module _ (crc : Bytes → ℕ) where
  pub encode_range-extend :
      (s t : Bytes) (i n : ℕ)
      → (i + n) * block_data_size ≤ length s
      → encode_range crc (s ++ t) i n ≡ encode_range crc s i n
  unfolding encode_range
  encode_range-extend s t i zero h = refl
  encode_range-extend s t i (suc n) h =
      rw (data_region-extend s t i (omega arith), encode_range-extend s t (i + 1) n (omega arith))
        refl

  pub encode_range-last :
      (s : Bytes) (i n : ℕ)
      → encode_range crc s i (n + 1) ≡ encode_range crc s i n ++ protect crc (data_region s (i + n))
  unfolding encode_range
  encode_range-last s i n =
      encode_range-add crc s i n 1
      ∙ ap (λ t. encode_range crc s i n ++ t) (append-nil (protect crc (data_region s (i + n))))

  -- Zeros behind the last block change nothing.
  pub encode_range-zeros :
      (seen : Bytes) (k : ℕ)
      → k * block_data_size ≤ length seen
      → length seen ≤ (k + 1) * block_data_size
      → encode_range crc
          (seen ++ replicate (block_data_size - length (drop (k * block_data_size) seen)) 0)
          0
          (k + 1)
        ≡ encode_range crc seen 0 (k + 1)
  encode_range-zeros seen k h g =
      let tail = drop (k * block_data_size) seen in
      let m = block_data_size - length tail in
      let zeros : Bytes = replicate m 0 in
      let len : length zeros ≡ m = length-replicate {A = ℕ} m 0 in
      let tail_length = length-drop (k * block_data_size) seen in
      let joined : drop (k * block_data_size) (seen ++ zeros) ≡ tail ++ zeros =
        drop-append_le seen zeros (k * block_data_size) h in
      let none_left : block_data_size - length (tail ++ zeros) ≡ 0 =
        omega (arith, length-append tail zeros) in
      let last : data_region (seen ++ zeros) k ≡ data_region seen k =
        data_region-last (seen ++ zeros) k (omega (arith, length-append seen zeros))
          (omega (arith, length-append seen zeros))
        ∙ rw (joined, none_left) (append-nil (tail ++ zeros))
        ∙ sym (data_region-last seen k h g) in
      rw
        (
          encode_range-last (seen ++ zeros) 0 k,
          encode_range-last seen 0 k,
          zero-add k,
          last,
          encode_range-extend seen zeros 0 k (omega arith),
        )
        refl
