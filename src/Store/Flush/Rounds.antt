-- ===== src/Store/Flush/Rounds.antt =====
-- The loop of `flush_index` over the shards, rawobjstr/src/store.rs.
use mathlib.Core.Path.{subst}
use objstr.Base.{
  ℕ, suc, ◌+◌, ◌%◌, ◌^◌, ◌≤◌, ◌<◌, ◌≡◌, ◌≢◌, ◌⊎◌, inl, inr, refl, sym, ◌∙◌, Bool, true, false, ltb,
  ◌==◌, length, set, arith, if◌then◌else◌, Bool-cases,
}
use objstr.RawError.{Bytes, Result, ok, err, RawStoreError, shard_overflow, ◌>>=◌}
use objstr.Device.{DeviceIo, pwrite, may_hold}
use objstr.Index.{ShardData}
use objstr.Index.Shards
use objstr.Index.Shards.{shard_of}
use objstr.Superblock.{ShardSlotMeta}
use objstr.Bincode.{Bincode}
use objstr.Store.{Inner}
use objstr.Store.Flush.{
  Regions, slot_at, flag_at, slot_offset, other_slot, write_shard, flush_shard,
}
use objstr.Store.Flush.Slots.{slot_at-set, length-set, other_slot-other}
use objstr.Store.Flush.Stored.{
  IsWritten, Stored, SameOutside, IsOutcome, pwrite-IsOutcome, outcome-SameOutside, outcome-may,
  outcome-bytes_at,
}

-- An encoded shard is not empty: it begins with the lengths of its two maps.
abbrev pub WritesBytes : Bincode → Type 0
WritesBytes b = (x : ShardData) (bytes : Bytes) → b.shard_out x ≡ ok bytes → 0 < length bytes

module _ (crc : Bytes → ℕ) (b : Bincode) (r : Regions) where
  -- The slot that a flush writes for shard `i`.
  abbrev pub target : Inner → ℕ → ℕ
  target s i = slot_offset r (other_slot (slot_at s.superblock.shard_slots i).active_slot) i

  -- What one round does to the store: on the device it changes bytes of the target only.
  pub record IsRound (i : ℕ) (s : Inner) (t : Result ℕ × Inner) : Type 0 where
    pub content : SameOutside (target s i) r.shard_slot_size s.dev.content t.1.dev.content
    pub others :
        (j : ℕ) → j ≢ i → slot_at t.1.superblock.shard_slots j ≡ slot_at s.superblock.shard_slots j
    pub slots : length t.1.superblock.shard_slots ≡ length s.superblock.shard_slots
    pub index : t.1.index ≡ s.index
    pub flags : t.1.shard_dirty ≡ s.shard_dirty
    pub superblock :
        t.1.superblock ≡ record s.superblock { shard_slots = t.1.superblock.shard_slots }
    pub unreadable : t.1.dev.unreadable ≡ s.dev.unreadable
    pub may :
        (x v : ℕ)
        → (x < target s i) ⊎ (target s i + r.shard_slot_size ≤ x)
        → may_hold t.1.dev x v ≡ true
        → may_hold s.dev x v ≡ true
    pub ro : t.1.dev.ro ≡ s.dev.ro
    pub active :
        (slot_at s.superblock.shard_slots i).active_slot ≤ 1
        → (slot_at t.1.superblock.shard_slots i).active_slot ≤ 1
    pub done :
        (n : ℕ)
        → t.0 ≡ ok n
        → (flag_at s.shard_dirty i ≡ false
            → Stored crc b r s.dev.content i
                (slot_at s.superblock.shard_slots i)
                (shard_of crc i s.index))
        → Stored crc b r t.1.dev.content i
            (slot_at t.1.superblock.shard_slots i)
            (shard_of crc i s.index)

  skipped :
      (i : ℕ) (s : Inner) (t : Result ℕ)
      → ((n : ℕ) → t ≡ ok n → flag_at s.shard_dirty i ≡ false)
      → IsRound i s (t, s)
  skipped i s t h = record {
    content = λ x p. refl;
    others = λ j p. refl;
    slots = refl;
    index = refl;
    flags = refl;
    superblock = refl;
    unreadable = refl;
    may = λ x v p h. h;
    ro = refl;
    active = λ h. h;
    done = λ n e clean. clean (h n e);
  }

  module _ (small : r.shard_slot_size < 2 ^ 32) (nonempty : WritesBytes b) (i : ℕ) (s : Inner)
      (inside : i < length s.superblock.shard_slots) (dirty : flag_at s.shard_dirty i ≡ true)
      (bytes : Bytes) (encoded : b.shard_out (shard_of crc i s.index) ≡ ok bytes) where
    new_slot : ShardSlotMeta
    new_slot = record {
      active_slot = other_slot (slot_at s.superblock.shard_slots i).active_slot;
      size = length bytes % 2 ^ 32;
      crc = crc bytes;
    }

    failed : RawStoreError → DeviceIo → Result ℕ × Inner
    failed e d = (err e, record s { dev = d })

    moved : DeviceIo → Result ℕ × Inner
    moved d = (
      ok (length bytes),
      record s {
        dev = d;
        superblock = record s.superblock { shard_slots = set s.superblock.shard_slots i new_slot };
      },
    )

    failed-IsRound :
        (e : RawStoreError) (d : DeviceIo)
        → length bytes ≤ r.shard_slot_size
        → IsOutcome s.dev (target s i) bytes (err e, d)
        → IsRound i s (failed e d)
    unfolding failed
    failed-IsRound e d short x = record {
      content = λ y p. outcome-SameOutside x y (omega (arith, p));
      others = λ j p. refl;
      slots = refl;
      index = refl;
      flags = refl;
      superblock = refl;
      unreadable = x.unreadable;
      may = λ y v p. outcome-may x y v (omega (arith, p));
      ro = x.ro;
      active = λ h. h;
      done = λ n h. cc;
    }

    written :
        (d : DeviceIo)
        → length bytes ≤ r.shard_slot_size
        → IsOutcome s.dev (target s i) bytes (ok tt, d)
        → IsWritten crc b r d.content i new_slot (shard_of crc i s.index)
    unfolding new_slot
    written d short x =
        let exact : length bytes % 2 ^ 32 ≡ length bytes = omega arith in
        let some_bytes = nonempty (shard_of crc i s.index) bytes encoded in
        record {
          bytes = bytes;
          encoded = encoded;
          some_bytes = λ e. absurd (omega arith);
          size = sym exact;
          fits = omega arith;
          sum = refl;
          there = rw exact (outcome-bytes_at x refl);
        }

    other_low : (slot_at s.superblock.shard_slots i).active_slot ≤ 1 → new_slot.active_slot ≤ 1
    unfolding new_slot
    other_low h = (other_slot-other (slot_at s.superblock.shard_slots i).active_slot h).0

    moved-IsRound :
        (d : DeviceIo)
        → length bytes ≤ r.shard_slot_size
        → IsOutcome s.dev (target s i) bytes (ok tt, d)
        → IsRound i s (moved d)
    unfolding moved
    moved-IsRound d short x =
        let placed : slot_at (set s.superblock.shard_slots i new_slot) i ≡ new_slot =
          slot_at-set s.superblock.shard_slots i i new_slot inside ∙ ground arith in
        record {
          content = λ y p. outcome-SameOutside x y (omega (arith, p));
          others = λ j p. slot_at-set s.superblock.shard_slots i j new_slot inside ∙ ground arith;
          slots = length-set s.superblock.shard_slots i new_slot;
          index = refl;
          flags = refl;
          superblock = refl;
          unreadable = x.unreadable;
          may = λ y v p. outcome-may x y v (omega (arith, p));
          ro = x.ro;
          active = λ h. subst (λ m. m.active_slot ≤ 1) (sym placed) (other_low h);
          done = λ n h clean. rw placed (inr (written d short x));
        }

    write_shard-IsRound : IsRound i s (write_shard crc b r i bytes (crc bytes) s)
    unfolding write_shard failed moved new_slot
    write_shard-IsRound =
        go (ltb r.shard_slot_size (length bytes)) refl (pwrite s.dev (target s i) bytes)
          (pwrite-IsOutcome s.dev (target s i) bytes)
      where
        go :
            (t : Bool)
            → ltb r.shard_slot_size (length bytes) ≡ t
            → (w : Result (Unit {0}) × DeviceIo) → IsOutcome s.dev (target s i) bytes w
            → IsRound i s (
                if t
                then (err (shard_overflow i (length bytes) r.shard_slot_size), s)
                else elim w.0 [ err e ↦ failed e w.1 | ok _ ↦ moved w.1 ])
        go true e w x =
            skipped i s (err (shard_overflow i (length bytes) r.shard_slot_size)) (λ n h. cc)
        go false e (err c, d) x = failed-IsRound c d (ground arith) x
        go false e (ok _, d) x = moved-IsRound d (ground arith) x

  module _ (small : r.shard_slot_size < 2 ^ 32) (nonempty : WritesBytes b) where
    pub flush_shard-IsRound :
        (i : ℕ) (s : Inner)
        → i < length s.superblock.shard_slots
        → IsRound i s (flush_shard crc b r i s)
    unfolding flush_shard Shards.to_bytes
    flush_shard-IsRound i s inside =
        go (flag_at s.shard_dirty i) refl (b.shard_out (shard_of crc i s.index)) refl
      where
        go :
            (t : Bool)
            → flag_at s.shard_dirty i ≡ t
            → (o : Result Bytes) → b.shard_out (shard_of crc i s.index) ≡ o
            → IsRound i s (
                if t
                then (elim (◌>>=◌ {T = Bytes × ℕ} o (λ bytes. ok (bytes, crc bytes))) [
                  | err e ↦ (err e, s)
                  | ok (bytes, sum) ↦ write_shard crc b r i bytes sum s
                ])
                else (ok 0, s))
        go true e (ok bytes) f = write_shard-IsRound small nonempty i s inside e bytes f
        go true e (err c) f = skipped i s (err c) (λ n h. cc)
        go false e o f = skipped i s (ok 0) (λ n h. e)

    -- What the rounds from `i` on do, `n` of them: only the targets change, and after success every
    -- slot holds its shard.
    pub record IsPass (n i : ℕ) (s : Inner) (t : Result ℕ × Inner) : Type 0 where
      pub content :
          (x : ℕ)
          → ((j : ℕ) → i ≤ j → j < i + n → (x < target s j) ⊎ (target s j + r.shard_slot_size ≤ x))
          → t.1.dev.content x ≡ s.dev.content x
      pub others :
          (j : ℕ)
          → (j < i) ⊎ (i + n ≤ j)
          → slot_at t.1.superblock.shard_slots j ≡ slot_at s.superblock.shard_slots j
      pub slots : length t.1.superblock.shard_slots ≡ length s.superblock.shard_slots
      pub index : t.1.index ≡ s.index
      pub flags : t.1.shard_dirty ≡ s.shard_dirty
      pub superblock :
          t.1.superblock ≡ record s.superblock { shard_slots = t.1.superblock.shard_slots }
      pub unreadable : t.1.dev.unreadable ≡ s.dev.unreadable
      pub may :
          (x v : ℕ)
          → ((j : ℕ) → i ≤ j → j < i + n → (x < target s j) ⊎ (target s j + r.shard_slot_size ≤ x))
          → may_hold t.1.dev x v ≡ true
          → may_hold s.dev x v ≡ true
      pub ro : t.1.dev.ro ≡ s.dev.ro
      pub active :
          ((j : ℕ) → i ≤ j → j < i + n → (slot_at s.superblock.shard_slots j).active_slot ≤ 1)
          → (j : ℕ) → i ≤ j
          → j < i + n
          → (slot_at t.1.superblock.shard_slots j).active_slot ≤ 1
      pub done :
          (count : ℕ)
          → t.0 ≡ ok count
          → ((j : ℕ)
              → i ≤ j
              → j < i + n
              → flag_at s.shard_dirty j ≡ false
              → Stored crc b r s.dev.content j
                  (slot_at s.superblock.shard_slots j)
                  (shard_of crc j s.index))
          → (j : ℕ) → i ≤ j
          → j < i + n
          → Stored crc b r t.1.dev.content j
              (slot_at t.1.superblock.shard_slots j)
              (shard_of crc j s.index)

    pub stopped :
        (n i : ℕ) (s : Inner) (e : RawStoreError) (t : Result ℕ × Inner)
        → IsRound i s t
        → IsPass (suc n) i s (err e, t.1)
    stopped n i s e t x = record {
      content = λ y h. x.content y (h i (omega arith) (omega arith));
      others = λ j p. x.others j (omega (arith, p));
      slots = x.slots;
      index = x.index;
      flags = x.flags;
      superblock = x.superblock;
      unreadable = x.unreadable;
      may = λ y v h. x.may y v (h i (omega arith) (omega arith));
      ro = x.ro;
      active = λ low j p q. elim (Bool-cases (i == j)) [
        | inl e ↦
            let same : i ≡ j = ground arith in
            subst (λ k. (slot_at t.1.superblock.shard_slots k).active_slot ≤ 1) same
              (x.active (low i (omega arith) (omega arith)))
        | inr e ↦
            let ne : j ≢ i = ground arith in
            subst (λ m. m.active_slot ≤ 1) (sym (x.others j ne)) (low j p q)
      ];
      done = λ count h. cc;
    }
