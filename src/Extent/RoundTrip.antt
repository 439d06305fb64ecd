-- ===== src/Extent/RoundTrip.antt =====
-- `decode_blocks` of rawobjstr/src/extent.rs against `encode_blocks`, and what it detects.
use objstr.Base.{
  ◌%◌, ◌⊎◌, inl, inr, refl, ℕ, zero, suc, ◌+◌, ◌-◌, ◌*◌, ◌/◌, ◌≤◌, ◌<◌, ◌≡◌, ◌≢◌, ap, sym, ◌∙◌, min,
  [], ◌++◌, length, take, drop, slice, arith, take-of_length-le,
}
use mathlib.Core.Path.{subst}
use native.Mathlib.Decide.{ℕ_discrete}
use native.Mathlib.Nat.{add-zero, zero-add}
use objstr.RawError.{Bytes, ok, err, data_corruption, block, block_alignment}
use objstr.Extent.{
  block_crc_size, block_data_size, num_blocks, from_le_bytes, encode_range, encode_blocks,
  verify_block_crc, decode_loop, decode_blocks,
}
use objstr.Extent.Encode.{IsU32, decode_loop-encode, num_blocks_bounds, length-encode_range}

-- The block `j` of `raw`.
abbrev pub block_of : Bytes → ℕ → Bytes
block_of raw j = slice (j * block_alignment) ((j + 1) * block_alignment) raw

-- The checksum stored in block `j` is that of its data.
abbrev pub Verifies : (Bytes → ℕ) → Bytes → ℕ → Type 0
Verifies crc raw j =
    from_le_bytes (take block_crc_size (block_of raw j))
    ≡ crc (drop block_crc_size (block_of raw j))

module _ (crc : Bytes → ℕ) where
  -- With a checksum of 32 bits, decoding what was encoded returns the payload, whatever it is.
  pub decode-encode_blocks :
      IsU32 crc → (p : Bytes) → decode_blocks crc (encode_blocks crc p) (length p) ≡ ok p
  unfolding decode_blocks encode_blocks
  decode-encode_blocks u p =
      let n = num_blocks (length p) in
      let e : length (encode_range crc p 0 n) / block_alignment ≡ n =
        omega (arith, length-encode_range crc p 0 n) in
      let whole : take ((0 + 0 + n) * block_data_size) p ≡ p =
        take-of_length-le ((0 + 0 + n) * block_data_size) p
          (omega (arith, num_blocks_bounds (length p))) in
      rw e (decode_loop-encode crc u p 0 n 0 0 n (omega arith) ∙ ap ok whole)

  verify_ok :
      (raw : Bytes) (label : ℕ) (r : Bytes)
      → verify_block_crc crc raw label ≡ ok r
      → from_le_bytes (take block_crc_size raw) ≡ crc (drop block_crc_size raw)
  unfolding verify_block_crc
  verify_ok raw label r h = ground arith

  verify_err :
      (raw : Bytes) (label : ℕ)
      → from_le_bytes (take block_crc_size raw) ≢ crc (drop block_crc_size raw)
      → verify_block_crc crc raw label
        ≡ err (
            data_corruption
              (block label)
              (from_le_bytes (take block_crc_size raw))
              (crc (drop block_crc_size raw)))
  unfolding verify_block_crc
  verify_err raw label h = ground arith

  verify_good :
      (raw : Bytes) (label : ℕ)
      → from_le_bytes (take block_crc_size raw) ≡ crc (drop block_crc_size raw)
      → verify_block_crc crc raw label ≡ ok (drop block_crc_size raw)
  unfolding verify_block_crc
  verify_good raw label h = ground arith

  -- The loop succeeds only past blocks that verify.
  -- At the first block that does not verify the loop stops, with that block's two checksums.
  decode_loop-first_bad :
      (label : ℕ) (raw : Bytes) (expected i k count : ℕ) (content : Bytes)
      → ((j : ℕ) → i ≤ j → j < i + k → Verifies crc raw j)
      → ¬ Verifies crc raw (i + k)
      → k < count
      → decode_loop crc label raw expected i count content
        ≡ err (
            data_corruption
              (block (label + (i + k)))
              (from_le_bytes (take block_crc_size (block_of raw (i + k))))
              (crc (drop block_crc_size (block_of raw (i + k)))))
  unfolding decode_loop
  decode_loop-first_bad label raw expected i k zero content good bad h = absurd (omega arith)
  decode_loop-first_bad label raw expected i zero (suc count) content good bad h =
      let bad' : ¬ Verifies crc raw i = subst (λ t. ¬ Verifies crc raw t) (add-zero i) bad in
      rw (add-zero i, verify_err (block_of raw i) (label + i) bad')
  decode_loop-first_bad label raw expected i (suc k) (suc count) content good bad h =
      let e : i + suc k ≡ i + 1 + k = omega arith in
      let b = block_of raw i in
      let n = min (expected - length content) block_data_size in
      rw (verify_good b (label + i) (good i (omega arith) (omega arith)), e)
        (decode_loop-first_bad label raw expected (i + 1) k count
          (content ++ take n (drop block_crc_size b)) (λ j p q. good j (omega arith) (omega arith))
          (subst (λ t. ¬ Verifies crc raw t) e bad) (omega arith))

  decode_loop_succeeds :
      (label : ℕ) (raw : Bytes) (expected i count : ℕ) (content : Bytes)
      → ((j : ℕ) → i ≤ j → j < i + count → Verifies crc raw j)
      → (c : Bytes) × (decode_loop crc label raw expected i count content ≡ ok c)
  unfolding decode_loop
  decode_loop_succeeds label raw expected i zero content good = (content, refl)
  decode_loop_succeeds label raw expected i (suc count) content good =
      let b = block_of raw i in
      let n = min (expected - length content) block_data_size in
      rw (verify_good b (label + i) (good i (omega arith) (omega arith))) (
        decode_loop_succeeds label raw expected (i + 1) count
          (content ++ take n (drop block_crc_size b)) (λ j p q. good j (omega arith) (omega arith)))

  -- Block `k` is the first of `n` that does not verify.
  pub record IsFirstBad (raw : Bytes) (n k : ℕ) : Type 0 where
    pub inside : k < n
    pub good : (j : ℕ) → j < k → Verifies crc raw j
    pub bad : ¬ Verifies crc raw k

  first_bad :
      (raw : Bytes) (n : ℕ)
      → ((j : ℕ) → j < n → Verifies crc raw j) ⊎ ((k : ℕ) × IsFirstBad raw n k)
  first_bad raw zero = inl (λ j p. absurd (omega arith))
  first_bad raw (suc n) = elim (first_bad raw n) [
    | inr (k, x) ↦ inr (k, record { inside = omega (arith, x.inside); good = x.good; bad = x.bad })
    | inl all ↦
        let b = block_of raw n in
        elim (ℕ_discrete (from_le_bytes (take block_crc_size b)) (crc (drop block_crc_size b))) [
          | no w ↦ inr (n, record { inside = omega arith; good = all; bad = w })
          | yes w ↦ inl (λ j p. elim (ℕ_discrete j n) [
            | yes e ↦ subst (Verifies crc raw) (sym e) w
            | no e ↦ all j (omega arith)
          ])
        ]
  ]

  -- On data of whole blocks `decode_blocks` succeeds where every block verifies, and otherwise reports
  -- the first block that does not, with the stored and the computed checksum.
  pub decode_blocks_detects :
      (raw : Bytes) (expected : ℕ)
      → length raw % block_alignment ≡ 0
      → (((j : ℕ) → j < length raw / block_alignment → Verifies crc raw j)
          × ((c : Bytes) × (decode_blocks crc raw expected ≡ ok c)))
        ⊎ ((k : ℕ) × (IsFirstBad raw (length raw / block_alignment) k
              × (decode_blocks crc raw expected
                  ≡ err (
                      data_corruption
                        (block k)
                        (from_le_bytes (take block_crc_size (block_of raw k)))
                        (crc (drop block_crc_size (block_of raw k)))))))
  unfolding decode_blocks
  decode_blocks_detects raw expected whole =
      let n = length raw / block_alignment in
      elim (first_bad raw n) [
        | inl all ↦
            inl (all, decode_loop_succeeds 0 raw expected 0 n [] (λ j p q. all j (omega arith)))
        | inr (k, x) ↦ inr (
          k,
          (
            x,
            simp zero-add at (
                decode_loop-first_bad 0 raw expected 0 k n [] (λ j u v. x.good j (omega arith))
                  (subst (λ t. ¬ Verifies crc raw t) (sym (zero-add k)) x.bad) x.inside),
          ),
        )
      ]
