-- ===== src/Superblock/Codec/RoundTrip.antt =====
-- A superblock that was written is read back, rawobjstr/src/superblock.rs.
use mathlib.Core.Path.{subst}
use mathlib.Core.List.{append_assoc, append-nil}
use objstr.Base.{
  ℕ, ◌-◌, ◌^◌, ◌≤◌, ◌<◌, ◌≡◌, ◌≢◌, refl, ap, sym, ◌∙◌, true, false, Bool-cases, inl, inr, some, [],
  ◌∷◌, ◌++◌, length, take, replicate, ltb, ◌==◌, arith, length-append, length-replicate,
  take-append_left, drop-append_left, drop-drop, drop-append_first, take-of_length-le,
}
use objstr.RawError.{Bytes, ok, superblock_size, num_shards}
use objstr.Dict.{same}
use objstr.Extent.{to_le_bytes}
use objstr.Superblock.{Superblock, superblock_magic}
use objstr.Bincode.{Bincode, with_checksum, IsLaidOut}
use objstr.Superblock.Codec.{
  first_diff, put_word, sentinel, located, checksum_offset, sealed, to_bytes, verified, from_bytes,
}

-- What `from_bytes` asks for besides the checksum.
pub record IsFormatted (s : Superblock) : Type 0 where
  pub magic : same s.magic superblock_magic ≡ true
  pub version : s.version ≡ 4
  pub slots : length s.shard_slots ≡ num_shards
  pub alignment : s.block_align ≢ 0

first_diff-checksum :
    (h t : Bytes)
    → first_diff (h ++ (to_le_bytes 0 ++ t)) (h ++ (to_le_bytes sentinel ++ t)) ≡ some (length h)
unfolding first_diff to_le_bytes
first_diff-checksum [] t = refl
first_diff-checksum (a ∷ h) t = ground (arith, first_diff-checksum h t)

length-to_le_bytes : (n : ℕ) → length (to_le_bytes n) ≡ 4
unfolding to_le_bytes
length-to_le_bytes n = refl

put_word-middle :
    (h w v t : Bytes) → length w ≡ 4 → put_word (length h) v (h ++ (w ++ t)) ≡ h ++ (v ++ t)
unfolding put_word
put_word-middle h w v t e =
    rw
      (
        take-append_left h (w ++ t),
        ← drop-drop (length h) 4 (h ++ (w ++ t)),
        drop-append_left h (w ++ t),
        drop-append_first w t 4 e,
      )
      refl

module _ (crc : Bytes → ℕ) (b : Bincode) (word : (x : Bytes) → crc x < 2 ^ 32) (s : Superblock)
    (layout : IsLaidOut b s) where
  checksum_offset_lem :
      (c : ℕ) → checksum_offset crc b (with_checksum s c) ≡ ok (length layout.head)
  unfolding checksum_offset located
  checksum_offset_lem c =
      rw
        (
          layout.out 0 (omega arith),
          layout.out sentinel (omega arith),
          first_diff-checksum layout.head layout.tail,
        )
        refl

  body : Bytes
  body = layout.head ++ (to_le_bytes 0 ++ layout.tail)

  filler : Bytes
  filler = replicate (superblock_size - length (layout.head ++ (to_le_bytes 0 ++ layout.tail))) 0

  -- The buffer with the checksum `c` in its place.
  block : ℕ → Bytes
  block c = layout.head ++ (to_le_bytes c ++ (layout.tail ++ filler))

  length-block : (c : ℕ) → length body ≤ superblock_size → length (block c) ≡ superblock_size
  unfolding block filler body
  length-block c fits =
      let e = length-append layout.head (to_le_bytes 0 ++ layout.tail) in
      let f = length-append (to_le_bytes 0) layout.tail in
      let g = length-append layout.head (to_le_bytes c ++ (layout.tail ++ filler)) in
      let h = length-append (to_le_bytes c) (layout.tail ++ filler) in
      let i = length-append layout.tail filler in
      let j : length filler
          ≡ superblock_size - length (layout.head ++ (to_le_bytes 0 ++ layout.tail)) =
        length-replicate (superblock_size - length (layout.head ++ (to_le_bytes 0 ++ layout.tail)))
          0 in
      omega (arith, e, f, g, h, i, j, length-to_le_bytes 0, length-to_le_bytes c)

  regroup : layout.head ++ (to_le_bytes 0 ++ layout.tail) ++ filler ≡ block 0
  unfolding block
  regroup =
      append_assoc layout.head (to_le_bytes 0 ++ layout.tail) filler
      ∙ ap (λ t. layout.head ++ t) (append_assoc (to_le_bytes 0) layout.tail filler)

  put_word-block : (c d : ℕ) → put_word (length layout.head) (to_le_bytes d) (block c) ≡ block d
  unfolding block
  put_word-block c d =
      put_word-middle layout.head (to_le_bytes c) (to_le_bytes d) (layout.tail ++ filler)
        (length-to_le_bytes c)

  sealed-body : sealed crc b s body ≡ ok (block (crc (block 0)))
  unfolding sealed body filler
  sealed-body =
      let start : checksum_offset crc b s ≡ ok (length layout.head) =
        checksum_offset_lem s.superblock_checksum in
      rw (start, regroup) (ap ok (put_word-block 0 (crc (block 0))))

  to_bytes-body : length body ≤ superblock_size → to_bytes crc b s ≡ ok (block (crc (block 0)))
  unfolding to_bytes body filler located
  to_bytes-body fits =
      let small : ltb superblock_size (length body) ≡ false = ground arith in
      rw
        (
          layout.out 0 (omega arith),
          small,
          layout.out sentinel (omega arith),
          first_diff-checksum layout.head layout.tail,
          regroup,
        )
        (ap ok (put_word-block 0 (crc (block 0))))

  self : (n : ℕ) → (n == n) ≡ true
  self n = ground arith

  padded :
      (c : ℕ)
      → length body ≤ superblock_size
      → take superblock_size (block c) ++ replicate (superblock_size - length (block c)) 0 ≡ block c
  padded c fits =
      let e = length-block c fits in
      let none_left : superblock_size - length (block c) ≡ 0 = omega arith in
      rw (none_left, take-of_length-le superblock_size (block c) (omega arith))
        (append-nil (block c))

  verified-block :
      length body ≤ superblock_size
      → verified crc b (block (crc (block 0))) (with_checksum s (crc (block 0)))
        ≡ ok (with_checksum s (crc (block 0)))
  unfolding verified
  verified-block fits =
      rw
        (
          checksum_offset_lem (crc (block 0)),
          padded (crc (block 0)) fits,
          put_word-block (crc (block 0)) 0,
          self (crc (block 0)),
        )
        refl

  -- A superblock that fits its 4,096 bytes is written as a block of that length, and reading the block
  -- gives it back, with the block's checksum in its field, if it is a formatted one. `crc` fits a u32,
  -- and the crate bincode lays the record out as documented.
  pub from_bytes-to_bytes_superblock :
      IsFormatted s
      → length (layout.head ++ (to_le_bytes 0 ++ layout.tail)) ≤ superblock_size
      → (buf : Bytes) × (c : ℕ) × (to_bytes crc b s ≡ ok buf)
        × (length buf ≡ superblock_size)
        × (from_bytes crc b buf ≡ ok (with_checksum s c))
  unfolding from_bytes body block
  from_bytes-to_bytes_superblock f fits =
      let c = crc (block 0) in
      let four : (s.version == 4) ≡ true = rw f.version refl in
      let slots : (length s.shard_slots == num_shards) ≡ true = rw f.slots refl in
      let aligned : (s.block_align == 0) ≡ false = let p = f.alignment in ground arith in
      (
        block c,
        c,
        to_bytes-body fits,
        length-block c fits,
        rw (layout.into c filler (word (block 0)), f.magic, four, slots, aligned)
            (verified-block fits),
      )

  too_long : ltb superblock_size (length body) ≡ true → (buf : Bytes) → to_bytes crc b s ≢ ok buf
  unfolding to_bytes body
  too_long long buf h = let f = rw (layout.out 0 (omega arith), long) at h in cc

  -- What `to_bytes` gives is a block that `from_bytes` reads.
  pub to_bytes-reads :
      IsFormatted s
      → (buf : Bytes) → to_bytes crc b s ≡ ok buf
      → (length buf ≡ superblock_size) × ((c : ℕ) × (from_bytes crc b buf ≡ ok (with_checksum s c)))
  unfolding body
  to_bytes-reads f buf h = elim (Bool-cases (ltb superblock_size (length body))) [
    | inl e ↦ absurd (too_long e buf h)
    | inr e ↦
        let (buf', c, p, q, w) = from_bytes-to_bytes_superblock f (ground arith) in
        let same_block : buf' ≡ buf = (let g = sym p ∙ h in cc) in
        subst
          (λ t.
            (length t ≡ superblock_size)
            × ((c : ℕ) × (from_bytes crc b t ≡ ok (with_checksum s c))))
          same_block (q, (c, w))
  ]
