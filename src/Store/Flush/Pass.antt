-- ===== src/Store/Flush/Pass.antt =====
-- All rounds of the loop of `flush_index`, rawobjstr/src/store.rs.
use mathlib.Core.Path.{subst}
use objstr.Base.{
  ℕ, zero, suc, ◌+◌, ◌≤◌, ◌<◌, ◌≡◌, ◌≢◌, ◌⊎◌, inl, inr, refl, sym, ap, ◌∙◌, ◌==◌, length, arith,
  Bool-cases,
}
use objstr.RawError.{Bytes, Result, ok, err, num_shards}
use objstr.Index.Shards.{shard_of}
use objstr.Superblock.{Superblock}
use objstr.Bincode.{Bincode}
use objstr.Store.{Inner}
use objstr.Store.Flush.{
  Regions, slot_at, flag_at, slot_offset, other_slot, flush_shard, flush_shards,
}
use objstr.Store.Flush.Slots.{IsLayout, slot_offset-Apart}
use objstr.Store.Flush.Stored.{Stored, Stored-keeps}
use objstr.Store.Flush.Rounds.{IsRound, IsPass, target, WritesBytes, flush_shard-IsRound, stopped}

module _ (crc : Bytes → ℕ) (b : Bincode) (r : Regions) (l : IsLayout r)
    (nonempty : WritesBytes b) where
  abbrev StoredIn : Inner → ℕ → Type 0
  StoredIn s j =
      Stored crc b r s.dev.content j (slot_at s.superblock.shard_slots j) (shard_of crc j s.index)

  -- Another shard's target leaves a slot as it is.
  apart-elsewhere :
      (s : Inner) (u i j : ℕ)
      → i < num_shards
      → j < num_shards
      → i ≢ j
      → (x : ℕ) → slot_offset r u j ≤ x
      → x < slot_offset r u j + r.shard_slot_size
      → (x < target crc b r s i) ⊎ (target crc b r s i + r.shard_slot_size ≤ x)
  apart-elsewhere s u i j p q ne x lo hi =
      let a =
        slot_offset-Apart r l (other_slot (slot_at s.superblock.shard_slots i).active_slot) u i j p
          q (inr ne) in
      ground arith

  module _ {n i : ℕ} {s s1 : Inner} {c : ℕ} {u : Result ℕ × Inner} (inside : i + suc n ≤ num_shards)
      (x : IsRound crc b r i s (ok c, s1))
      (y : IsPass crc b r l.small nonempty n (suc i) s1 u) where
    target-later : (j : ℕ) → i < j → target crc b r s1 j ≡ target crc b r s j
    target-later j p =
        ap (λ t. slot_offset r (other_slot t.active_slot) j) (x.others j (omega arith))

    -- The shard of this round, after the later ones.
    kept_first :
        Stored crc b r s1.dev.content i
          (slot_at s1.superblock.shard_slots i)
          (shard_of crc i s.index)
        → Stored crc b r u.1.dev.content i
            (slot_at u.1.superblock.shard_slots i)
            (shard_of crc i s.index)
    kept_first h =
        subst (λ m. Stored crc b r u.1.dev.content i m (shard_of crc i s.index))
          (sym (y.others i (omega arith)))
          (Stored-keeps crc b r s1.dev.content u.1.dev.content i
            (slot_at s1.superblock.shard_slots i) (shard_of crc i s.index)
            (λ z lo hi. y.content z (λ j p q.
              apart-elsewhere s1 (slot_at s1.superblock.shard_slots i).active_slot j i (omega arith)
                (omega arith) (omega arith) z lo hi))
            h)

    -- A clean shard of a later round, after this one.
    kept_later : (j : ℕ) → i < j → j < num_shards → StoredIn s j → StoredIn s1 j
    kept_later j p q h =
        let base =
          Stored-keeps crc b r s.dev.content s1.dev.content j (slot_at s.superblock.shard_slots j)
            (shard_of crc j s.index)
            (λ z lo hi. x.content z (
              apart-elsewhere s (slot_at s.superblock.shard_slots j).active_slot i j (omega arith) q
                (omega arith) z lo hi))
            h in
        subst (λ m. Stored crc b r s1.dev.content j m (shard_of crc j s1.index))
          (sym (x.others j (omega arith)))
          (subst
            (λ t.
              Stored crc b r s1.dev.content j (slot_at s.superblock.shard_slots j)
                (shard_of crc j t))
            (sym x.index) base)

    passed : IsPass crc b r l.small nonempty (suc n) i s u
    passed = record {
      content = λ z h.
          y.content z (λ j p q.
            subst (λ t. (z < t) ⊎ (t + r.shard_slot_size ≤ z)) (sym (target-later j p))
              (h j (omega arith) (omega arith)))
          ∙ x.content z (h i (omega arith) (omega arith));
      others = λ j p. y.others j (omega (arith, p)) ∙ x.others j (omega (arith, p));
      slots = y.slots ∙ x.slots;
      index = y.index ∙ x.index;
      flags = y.flags ∙ x.flags;
      superblock =
          let with_slots : Superblock → Superblock =
            λ t. record t { shard_slots = u.1.superblock.shard_slots } in
          y.superblock ∙ ap with_slots x.superblock;
      unreadable = y.unreadable ∙ x.unreadable;
      may = λ z v h m. x.may z v (h i (omega arith) (omega arith)) (
          y.may z v
            (λ j p q.
              subst (λ t. (z < t) ⊎ (t + r.shard_slot_size ≤ z)) (sym (target-later j p))
                (h j (omega arith) (omega arith)))
            m);
      ro = y.ro ∙ x.ro;
      active = λ low j p q. elim (Bool-cases (i == j)) [
        | inl g ↦
            let same : i ≡ j = ground arith in
            subst (λ k. (slot_at u.1.superblock.shard_slots k).active_slot ≤ 1) same
              (subst (λ m. m.active_slot ≤ 1) (sym (y.others i (omega arith)))
                (x.active (low i (omega arith) (omega arith))))
        | inr g ↦
            y.active
              (λ k v w.
                subst (λ m. m.active_slot ≤ 1) (sym (x.others k (omega arith)))
                  (low k (omega arith) (omega arith)))
              j (ground arith) (omega arith)
      ];
      done = λ count e clean j p q. elim (Bool-cases (i == j)) [
        | inl g ↦
            let same : i ≡ j = ground arith in
            subst
              (λ k.
                Stored crc b r u.1.dev.content k (slot_at u.1.superblock.shard_slots k)
                  (shard_of crc k s.index))
              same (kept_first (x.done c refl (λ f. clean i (omega arith) (omega arith) f)))
        | inr g ↦
            subst
              (λ t.
                Stored crc b r u.1.dev.content j (slot_at u.1.superblock.shard_slots j)
                  (shard_of crc j t))
              x.index
              (y.done count e
                (λ k v w f.
                  kept_later k (omega arith) (omega arith)
                    (clean k (omega arith) (omega arith) (ap (λ t. flag_at t k) (sym x.flags) ∙ f)))
                j (ground arith) (omega arith))
      ];
    }

  pub flush_shards-IsPass :
      (n i written : ℕ) (s : Inner)
      → i + n ≤ num_shards
      → length s.superblock.shard_slots ≡ num_shards
      → IsPass crc b r l.small nonempty n i s (flush_shards crc b r n i written s)
  unfolding flush_shards
  flush_shards-IsPass zero i written s p q = record {
    content = λ x h. refl;
    others = λ j h. refl;
    slots = refl;
    index = refl;
    flags = refl;
    superblock = refl;
    unreadable = refl;
    may = λ x v p h. h;
    ro = refl;
    active = λ low j v w. absurd (omega arith);
    done = λ count e clean j v w. absurd (omega arith);
  }
  flush_shards-IsPass (suc n) i written s p q =
      go (flush_shard crc b r i s) (flush_shard-IsRound crc b r l.small nonempty i s (omega arith))
        (λ w s1 e. flush_shards-IsPass n (suc i) w s1 (omega arith) e)
    where
      go :
          (t : Result ℕ × Inner)
          → IsRound crc b r i s t
          → ((w : ℕ) (s1 : Inner)
              → length s1.superblock.shard_slots ≡ num_shards
              → IsPass crc b r l.small nonempty n (suc i) s1 (flush_shards crc b r n (suc i) w s1))
          → IsPass crc b r l.small nonempty (suc n) i s (elim t.0 [
            | err e ↦ (err e, t.1)
            | ok count ↦ flush_shards crc b r n (suc i) (written + count) t.1
          ])
      go (err e, s1) x rest = stopped crc b r l.small nonempty n i s e (err e, s1) x
      go (ok c, s1) x rest = passed p x (rest (written + c) s1 (x.slots ∙ q))
