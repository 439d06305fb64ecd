-- ===== src/Extent/Batched.antt =====
-- The batched writer and reader of rawobjstr/src/extent.rs against the plain layout.
use native.Mathlib.Nat.{add-zero, zero-add}
use objstr.Base.{
  length-take, ℕ, zero, suc, ◌+◌, ◌-◌, ◌*◌, ◌≤◌, ◌<◌, ◌≡◌, ◌⊎◌, inl, inr, refl, ap, sym, ◌∙◌, min,
  Bool, true, false, List, [], ◌∷◌, ◌++◌, ◌==◌, ◌||◌, ltb, if◌then◌else◌, length, take, drop, arith,
  take-of_length-le, Bool-cases, length-append, take-append_first, drop-append_first,
}
use objstr.RawError.{Bytes, Result, ok, err, RawStoreError, block_alignment, read_only}
use objstr.Device.{
  DeviceIo, Answer, whole, stops_after, pwrite, pread, overlay, bytes_at, write_answered, may_hold,
  was,
}
use objstr.Device.ReadWrite.{overlay-outside, overlay-append, bytes_at-append, length-bytes_at}
use objstr.Extent.{
  block_data_size, batch_blocks, num_blocks, encode_range, encode_blocks, decode_loop,
  write_batches, encode_and_write_batched, read_batches, read_and_decode_batched,
}
use objstr.Extent.Encode.{
  IsU32, decode_loop-encode, num_blocks_bounds, length-encode_range, encode_range-add,
}

-- What a run of writes of `bytes` at `offset` may have done, whether or not all succeeded.
pub record Written (offset : ℕ) (bytes : Bytes) (d : DeviceIo) (r : Result (Unit {0}) × DeviceIo)
    : Type 0 where
  -- nothing outside the range has changed
  pub frame : (x : ℕ) → (x < offset) ⊎ (offset + length bytes ≤ x) → r.1.content x ≡ d.content x
  -- nor does a crash change anything there that it would not have changed before
  pub lost :
      (x v : ℕ)
      → (x < offset) ⊎ (offset + length bytes ≤ x)
      → may_hold r.1 x v ≡ true
      → may_hold d x v ≡ true
  -- a success wrote all of it
  pub written : r.0 ≡ ok tt → r.1.content ≡ overlay bytes offset d.content
  pub unreadable : r.1.unreadable ≡ d.unreadable
  pub ro : r.1.ro ≡ d.ro
  -- it succeeds where no write is refused
  pub total : d.ro ≡ false → d.answers ≡ [] → (r.0 ≡ ok tt) × (r.1.answers ≡ [])

-- The present byte is the one before, which the write kept.
lost-kept :
    (a b v : ℕ) (before : Bool)
    → a ≡ b
    → (a == v || (b == v || before)) ≡ true
    → (b == v || before) ≡ true
lost-kept a b v before e h = ground arith

write_answered-Written :
    (d : DeviceIo) (offset : ℕ) (bytes : Bytes) (l : List Answer)
    → d.answers ≡ l
    → Written offset bytes d (write_answered d offset bytes l)
unfolding write_answered may_hold was
write_answered-Written d offset bytes [] e = record {
  frame = λ x h. overlay-outside bytes offset x d.content h;
  lost = λ x v h m.
      lost-kept (overlay bytes offset d.content x) (d.content x) v (was x v d.unsynced)
        (overlay-outside bytes offset x d.content h) m;
  written = λ _. refl;
  unreadable = refl;
  ro = refl;
  total = λ _ h. (refl, h);
}
write_answered-Written d offset bytes (whole ∷ l) e = record {
  frame = λ x h. overlay-outside bytes offset x d.content h;
  lost = λ x v h m.
      lost-kept (overlay bytes offset d.content x) (d.content x) v (was x v d.unsynced)
        (overlay-outside bytes offset x d.content h) m;
  written = λ _. refl;
  unreadable = refl;
  ro = refl;
  total = λ _ h. cc;
}
write_answered-Written d offset bytes (stops_after n ∷ l) e = record {
  frame = λ x h.
      overlay-outside (take n bytes) offset x d.content
        (elim h [ inl u ↦ inl u | inr u ↦ inr (omega (arith, length-take n bytes)) ]);
  lost = λ x v h m.
      lost-kept (overlay (take n bytes) offset d.content x) (d.content x) v (was x v d.unsynced)
        (overlay-outside (take n bytes) offset x d.content
          (elim h [ inl u ↦ inl u | inr u ↦ inr (omega (arith, length-take n bytes)) ]))
        m;
  written = λ h. cc;
  unreadable = refl;
  ro = refl;
  total = λ _ h. cc;
}

pub pwrite-Written :
    (d : DeviceIo) (offset : ℕ) (bytes : Bytes) → Written offset bytes d (pwrite d offset bytes)
unfolding pwrite
pwrite-Written d offset bytes = go d.ro refl
  where
    go :
        (b : Bool)
        → d.ro ≡ b
        → Written offset bytes d
            (if b then (err read_only, d) else write_answered d offset bytes d.answers)
    go true e = record {
      frame = λ x h. refl;
      lost = λ x v h m. m;
      written = λ h. cc;
      unreadable = refl;
      ro = refl;
      total = λ h. cc;
    }
    go false e = write_answered-Written d offset bytes d.answers refl

abbrev pub and_then :
    Result (Unit {0}) × DeviceIo
    → (DeviceIo → Result (Unit {0}) × DeviceIo)
    → Result (Unit {0}) × DeviceIo
and_then r f = elim r.0 [ ok _ ↦ f r.1 | err e ↦ (err e, r.1) ]

pub Written-nothing : (offset : ℕ) (d : DeviceIo) → Written offset [] d (ok tt, d)
unfolding overlay
Written-nothing offset d = record {
  frame = λ x h. refl;
  lost = λ x v h m. m;
  written = λ h. refl;
  unreadable = refl;
  ro = refl;
  total = λ h k. (refl, k);
}

err-ne-ok : (e : RawStoreError) → ¬ (◌≡◌ {A = Result (Unit {0})} (err e) (ok tt))
err-ne-ok e h = cc

-- Two adjacent runs, the second only after a success of the first.
pub Written-append :
    (offset : ℕ) (a b : Bytes) (d : DeviceIo) (r : Result (Unit {0}) × DeviceIo)
    (f : DeviceIo → Result (Unit {0}) × DeviceIo)
    → Written offset a d r
    → Written (offset + length a) b r.1 (f r.1)
    → Written offset (a ++ b) d (and_then r f)
Written-append offset a b d (ok _, d') f w v = record {
  frame = λ x h. elim h [
    | inl p ↦ v.frame x (inl (omega arith)) ∙ w.frame x (inl p)
    | inr p ↦
        let q = length-append a b in v.frame x (inr (omega arith)) ∙ w.frame x (inr (omega arith))
  ];
  lost = λ x y h m. elim h [
    | inl p ↦ w.lost x y (inl p) (v.lost x y (inl (omega arith)) m)
    | inr p ↦
        let q = length-append a b in
        w.lost x y (inr (omega arith)) (v.lost x y (inr (omega arith)) m)
  ];
  written = λ h.
      v.written h
      ∙ ap (overlay b (offset + length a)) (w.written refl)
      ∙ sym (overlay-append a b offset d.content);
  unreadable = v.unreadable ∙ w.unreadable;
  ro = v.ro ∙ w.ro;
  total = λ h k. v.total (w.ro ∙ h) (w.total h k).1;
}
Written-append offset a b d (err e, d') f w v = record {
  frame = λ x h. elim h [
    | inl p ↦ w.frame x (inl p)
    | inr p ↦ let q = length-append a b in w.frame x (inr (omega arith))
  ];
  lost = λ x y h m. elim h [
    | inl p ↦ w.lost x y (inl p) m
    | inr p ↦ let q = length-append a b in w.lost x y (inr (omega arith)) m
  ];
  written = λ h. cc;
  unreadable = w.unreadable;
  ro = w.ro;
  total = λ h k. absurd (err-ne-ok e (w.total h k).0);
}

module _ (crc : Bytes → ℕ) where
  -- The batches from block `idx` on write the encoding of the blocks from there.
  write_batches-Written :
      (fuel : ℕ) (p : Bytes) (offset n idx : ℕ) (d : DeviceIo)
      → idx ≤ n
      → n ≤ idx + fuel
      → Written
          (offset + idx * block_alignment)
          (encode_range crc p idx (n - idx))
          d
          (write_batches crc fuel p offset n idx d)
  unfolding write_batches encode_range
  write_batches-Written zero p offset n idx d h g =
      let e : n - idx ≡ 0 = omega arith in
      let f : ltb idx n ≡ false = ground arith in
      rw (e, f) (Written-nothing (offset + idx * block_alignment) d)
  write_batches-Written (suc fuel) p offset n idx d h g = elim (Bool-cases (ltb idx n)) [
    | inr done ↦
        let e : n - idx ≡ 0 = ground arith in
        rw (done, e) (Written-nothing (offset + idx * block_alignment) d)
    | inl more ↦
        let m = min (idx + batch_blocks) n in
        let lt : idx < n = ground arith in
        let a = encode_range crc p idx (m - idx) in
        let b = encode_range crc p m (n - m) in
        let r = pwrite d (offset + idx * block_alignment) a in
        let e : n - idx ≡ m - idx + (n - m) = omega arith in
        let k : idx + (m - idx) ≡ m = omega arith in
        let both : encode_range crc p idx (n - idx) ≡ a ++ b = rw (e, encode_range-add, k) refl in
        let next : offset + idx * block_alignment + length a ≡ offset + m * block_alignment =
          omega (arith, length-encode_range crc p idx (m - idx)) in
        let rest : Written (offset + idx * block_alignment + length a) b r.1
            (write_batches crc fuel p offset n m r.1) =
          rw next (write_batches-Written fuel p offset n m r.1 (omega arith) (omega arith)) in
        rw (more, both)
          (Written-append (offset + idx * block_alignment) a b d r
            (write_batches crc fuel p offset n m)
            (pwrite-Written d (offset + idx * block_alignment) a) rest)
  ]

  -- The batched writer writes the plain encoding, changes nothing else even when a write fails, and
  -- succeeds where no write is refused.
  pub encode_and_write_batched-Written :
      (d : DeviceIo) (offset : ℕ) (p : Bytes)
      → Written offset (encode_blocks crc p) d (encode_and_write_batched crc d offset p)
  unfolding encode_and_write_batched encode_blocks
  encode_and_write_batched-Written d offset p =
      let n = num_blocks (length p) in
      let e : offset + 0 * block_alignment ≡ offset = omega arith in
      let k : n - 0 ≡ n = omega arith in
      rw (e, k) at (write_batches-Written n p offset n 0 d (omega arith) (omega arith))

  pread_good :
      (d : DeviceIo) (offset n : ℕ)
      → ((o n : ℕ) → d.unreadable o n ≡ false)
      → pread d offset n ≡ ok (bytes_at d.content offset n)
  unfolding pread bytes_at
  pread_good d offset zero good = refl
  pread_good d offset (suc n) good = rw (good offset (suc n))

  middle :
      (a b c : Bytes) (n m : ℕ) → length a ≡ n → length b ≡ m → take m (drop n (a ++ (b ++ c))) ≡ b
  middle a b c n m h k = rw (drop-append_first a (b ++ c) n h) (take-append_first b c m k)

  -- The encoding of `p` stands on the device at `offset`.
  abbrev pub Stores : (ℕ → ℕ) → ℕ → Bytes → Type 0
  Stores content offset p =
      bytes_at content offset (num_blocks (length p) * block_alignment) ≡ encode_blocks crc p

  part_of :
      (f : ℕ → ℕ) (offset : ℕ) (p : Bytes) (n i count rest : ℕ)
      → n ≡ i + (count + rest)
      → bytes_at f offset (n * block_alignment) ≡ encode_range crc p 0 n
      → bytes_at f (offset + i * block_alignment) (count * block_alignment)
        ≡ encode_range crc p i count
  part_of f offset p n i count rest e s =
      let k : n * block_alignment
          ≡ i * block_alignment + (count * block_alignment + rest * block_alignment) =
        omega arith in
      let left : bytes_at f offset (n * block_alignment)
          ≡ bytes_at f offset (i * block_alignment)
            ++ (bytes_at f (offset + i * block_alignment) (count * block_alignment)
                ++ bytes_at f (offset + i * block_alignment + count * block_alignment)
                    (rest * block_alignment)) =
        rw
          (
            k,
            bytes_at-append f offset (i * block_alignment)
                (count * block_alignment + rest * block_alignment),
            bytes_at-append f (offset + i * block_alignment) (count * block_alignment)
                (rest * block_alignment),
          )
          refl in
      let right : encode_range crc p 0 n
          ≡ encode_range crc p 0 i
            ++ (encode_range crc p i count ++ encode_range crc p (i + count) rest) =
        rw
          (
            e,
            encode_range-add crc p 0 i (count + rest),
            zero-add i,
            encode_range-add crc p i count rest,
          )
          refl in
      sym (
        middle (bytes_at f offset (i * block_alignment))
          (bytes_at f (offset + i * block_alignment) (count * block_alignment))
          (bytes_at f (offset + i * block_alignment + count * block_alignment)
            (rest * block_alignment))
          (i * block_alignment) (count * block_alignment)
          (length-bytes_at f offset (i * block_alignment))
          (length-bytes_at f (offset + i * block_alignment) (count * block_alignment)))
      ∙ ap (λ t. take (count * block_alignment) (drop (i * block_alignment) t))
          (sym left ∙ s ∙ right)
      ∙ middle (encode_range crc p 0 i) (encode_range crc p i count)
          (encode_range crc p (i + count) rest) (i * block_alignment) (count * block_alignment)
          (length-encode_range crc p 0 i) (length-encode_range crc p i count)

  stored_part :
      (f : ℕ → ℕ) (offset : ℕ) (p : Bytes) (i count : ℕ)
      → i + count ≤ num_blocks (length p)
      → Stores f offset p
      → bytes_at f (offset + i * block_alignment) (count * block_alignment)
        ≡ encode_range crc p i count
  unfolding encode_blocks
  stored_part f offset p i count h s =
      part_of f offset p (num_blocks (length p)) i count (num_blocks (length p) - (i + count))
        (omega arith) s

  read_batches_stored :
      IsU32 crc
      → (fuel : ℕ) (d : DeviceIo) (offset : ℕ) (p : Bytes) (idx : ℕ)
      → ((o n : ℕ) → d.unreadable o n ≡ false)
      → Stores d.content offset p
      → idx ≤ num_blocks (length p)
      → num_blocks (length p) ≤ idx + fuel
      → read_batches crc fuel d offset
          (length p)
          (num_blocks (length p))
          idx
          (take (idx * block_data_size) p)
        ≡ ok p
  unfolding read_batches
  read_batches_stored u zero d offset p idx good s h g =
      let n = num_blocks (length p) in
      let f : ltb idx n ≡ false = ground arith in
      rw f (
        ap ok (
          take-of_length-le (idx * block_data_size) p
            (omega (arith, num_blocks_bounds (length p)))))
  read_batches_stored u (suc fuel) d offset p idx good s h g =
      let n = num_blocks (length p) in
      elim (Bool-cases (ltb idx n)) [
        | inr done ↦
            let e : idx ≡ n = ground arith in
            rw done (
              ap ok (
                take-of_length-le (idx * block_data_size) p
                  (omega (arith, num_blocks_bounds (length p)))))
        | inl more ↦
            let m = min (idx + batch_blocks) n in
            let lt : idx < n = ground arith in
            let count = m - idx in
            let next : idx + count ≡ m = omega arith in
            let part : decode_loop crc idx (encode_range crc p idx count) (length p) 0 count
                  (take (idx * block_data_size) p)
                ≡ ok (take (m * block_data_size) p) =
              rw (add-zero, next) at
                (decode_loop-encode crc u p idx count idx 0 count (omega arith)) in
            rw
              (
                more,
                pread_good d (offset + idx * block_alignment) (count * block_alignment) good,
                stored_part d.content offset p idx count (omega arith) s,
                part,
              )
              (read_batches_stored u fuel d offset p m good s (omega arith) (omega arith))
      ]

  -- With a checksum of 32 bits and a device that can be read, reading an extent on which the
  -- encoding of a payload stands returns the payload.
  pub read_and_decode_batched_stored :
      (d : DeviceIo) (offset : ℕ) (p : Bytes)
      → IsU32 crc
      → ((o n : ℕ) → d.unreadable o n ≡ false)
      → Stores d.content offset p
      → read_and_decode_batched crc d offset (length p) ≡ ok p
  unfolding read_and_decode_batched
  read_and_decode_batched_stored d offset p u good s =
      read_batches_stored u (num_blocks (length p)) d offset p 0 good s (omega arith) (omega arith)
