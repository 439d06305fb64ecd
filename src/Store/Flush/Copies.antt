-- ===== src/Store/Flush/Copies.antt =====
-- The two copies of the superblock that `flush_index` writes one after the other, rawobjstr/src/store.rs.
use mathlib.Core.Path.{subst}
use objstr.Base.{
  ℕ, zero, suc, ◌+◌, ◌≤◌, ◌<◌, ◌≡◌, ◌⊎◌, inl, inr, refl, sym, ap, ◌∙◌, [], ◌∷◌, length, take, arith,
}
use objstr.RawError.{Bytes, Result, ok, err, RawStoreError, superblock_size}
use objstr.Device.{DeviceIo, overlay, bytes_at, pwrite, sync, Crashed}
use objstr.Device.ReadWrite.{bytes_at-cong, bytes_at-overlay, overlay-outside}
use objstr.Store.Flush.{write_synced, write_both}
use objstr.Store.Flush.Stored.{
  IsOutcome, pwrite-IsOutcome, outcome-SameOutside, outcome-bytes_at, IsSync, sync-IsSync, IsSynced,
}

-- Each byte is that of the new block or that of the old one.
pub data Mixed : Bytes → Bytes → Bytes → Type 0 where
  none_left : Mixed [] [] []
  byte_new : {a b : ℕ} {new old t : Bytes} → Mixed new old t → Mixed (a ∷ new) (b ∷ old) (a ∷ t)
  byte_old : {a b : ℕ} {new old t : Bytes} → Mixed new old t → Mixed (a ∷ new) (b ∷ old) (b ∷ t)

bytes_at-Mixed :
    (n o : ℕ) (f g c : ℕ → ℕ)
    → ((x : ℕ) → (c x ≡ f x) ⊎ (c x ≡ g x))
    → Mixed (bytes_at f o n) (bytes_at g o n) (bytes_at c o n)
unfolding bytes_at
bytes_at-Mixed zero o f g c h = none_left
bytes_at-Mixed (suc n) o f g c h =
    let rest = bytes_at-Mixed n (o + 1) f g c h in
    elim (h o) [
      | inl e ↦
          subst
            (λ v.
              Mixed (f o ∷ bytes_at f (o + 1) n) (g o ∷ bytes_at g (o + 1) n)
                (v ∷ bytes_at c (o + 1) n))
            (sym e) (byte_new rest)
      | inr e ↦
          subst
            (λ v.
              Mixed (f o ∷ bytes_at f (o + 1) n) (g o ∷ bytes_at g (o + 1) n)
                (v ∷ bytes_at c (o + 1) n))
            (sym e) (byte_old rest)
    ]

-- The first bytes of a write are those of the whole write.
overlay-take :
    (n : ℕ) (bytes : Bytes) (o : ℕ) (f : ℕ → ℕ) (x : ℕ)
    → (overlay (take n bytes) o f x ≡ overlay bytes o f x) ⊎ (overlay (take n bytes) o f x ≡ f x)
unfolding overlay
overlay-take zero bytes o f x = inr refl
overlay-take (suc n) [] o f x = inr refl
overlay-take (suc n) (b ∷ bytes) o f x = let rest = overlay-take n bytes (o + 1) f x in ground arith

-- What a crash after a write leaves, when no write before it waits for a sync.
module _ {d : DeviceIo} {o : ℕ} {bytes : Bytes} {w : Result (Unit {0}) × DeviceIo}
    (x : IsOutcome d o bytes w) (whole : IsSynced d) (c : ℕ → ℕ) (crash : Crashed w.1 c) where
  crash_byte : (z : ℕ) → (c z ≡ overlay bytes o d.content z) ⊎ (c z ≡ d.content z)
  crash_byte z = elim (x.may z (c z) (crash z)) [
    | inr e ↦ inr (whole z (c z) e)
    | inl e ↦
        let f : overlay (take x.written bytes) o d.content z ≡ c z =
          ap (λ t. t z) (sym x.content) ∙ e in
        elim (overlay-take x.written bytes o d.content z) [
          | inl g ↦ inl (sym f ∙ g)
          | inr g ↦ inr (sym f ∙ g)
        ]
  ]

  crash_outside : (z : ℕ) → (z < o) ⊎ (o + length bytes ≤ z) → c z ≡ d.content z
  crash_outside z h = elim (crash_byte z) [
    | inl e ↦ e ∙ overlay-outside bytes o z d.content h
    | inr e ↦ e
  ]

  crash_block : Mixed bytes (bytes_at d.content o (length bytes)) (bytes_at c o (length bytes))
  crash_block =
      subst (λ t. Mixed t (bytes_at d.content o (length bytes)) (bytes_at c o (length bytes)))
        (bytes_at-overlay bytes o d.content)
        (bytes_at-Mixed (length bytes) o (overlay bytes o d.content) d.content c crash_byte)

-- What stands in the two places after a crash: a mixed first block over the old second one, or the new
-- first block and a mixed second one.
pub data Copies (new old : Bytes) (content : ℕ → ℕ) : Type 0 where
  first_torn :
      (t : Bytes)
      → Mixed new old t
      → bytes_at content 0 superblock_size ≡ t
      → bytes_at content superblock_size superblock_size ≡ old
      → Copies new old content
  second_torn :
      (t : Bytes)
      → Mixed new old t
      → bytes_at content 0 superblock_size ≡ new
      → bytes_at content superblock_size superblock_size ≡ t
      → Copies new old content

pub record IsDouble (d : DeviceIo) (new old : Bytes) (w : Result (Unit {0}) × DeviceIo)
    : Type 0 where
  pub outside : (x : ℕ) → superblock_size + superblock_size ≤ x → w.1.content x ≡ d.content x
  pub quiet :
      (c : ℕ → ℕ)
      → Crashed w.1 c
      → (x : ℕ) → superblock_size + superblock_size ≤ x
      → c x ≡ d.content x
  pub copies : (c : ℕ → ℕ) → Crashed w.1 c → Copies new old c
  pub complete :
      w.0 ≡ ok tt
      → (bytes_at w.1.content 0 superblock_size ≡ new)
        × (bytes_at w.1.content superblock_size superblock_size ≡ new)
  pub unreadable : w.1.unreadable ≡ d.unreadable
  pub whole : w.0 ≡ ok tt → IsSynced w.1

-- A write and the sync, whichever of the two stops. When both succeed no write waits.
pub record IsDone (d : DeviceIo) (o : ℕ) (bytes : Bytes) (w : Result (Unit {0}) × DeviceIo)
    : Type 0 where
  pub outcome : IsOutcome d o bytes w
  pub whole : w.0 ≡ ok tt → IsSynced w.1

write_synced-IsDone :
    (d : DeviceIo) (o : ℕ) (bytes : Bytes) → IsDone d o bytes (write_synced d o bytes)
unfolding write_synced
write_synced-IsDone d o bytes = go (pwrite d o bytes) (pwrite-IsOutcome d o bytes)
  where
    after_sync :
        (d1 : DeviceIo) (y : Result (Unit {0}) × DeviceIo)
        → IsSync d1 y
        → IsOutcome d o bytes (ok tt, d1)
        → IsDone d o bytes y
    after_sync d1 y s x = record {
      outcome = record {
        written = x.written;
        content = s.content ∙ x.content;
        complete = λ e. x.complete refl;
        unreadable = s.unreadable ∙ x.unreadable;
        ro = s.ro ∙ x.ro;
        may = λ z v h. elim (x.may z v (s.may z v h)) [
          | inl e ↦ inl (ap (λ t. t z) s.content ∙ e)
          | inr e ↦ inr e
        ];
      };
      whole = s.done;
    }

    go :
        (w : Result (Unit {0}) × DeviceIo)
        → IsOutcome d o bytes w
        → IsDone d o bytes (elim w.0 [ err e ↦ (err e, w.1) | ok _ ↦ sync w.1 ])
    go (err e, d1) x = record { outcome = x; whole = λ h. cc }
    go (ok _, d1) x = after_sync d1 (sync d1) (sync-IsSync d1) x

module _ (d : DeviceIo) (whole : IsSynced d) (new old : Bytes) (long : length new ≡ superblock_size)
    (here : bytes_at d.content 0 superblock_size ≡ old)
    (there : bytes_at d.content superblock_size superblock_size ≡ old) where
  -- After the first of the two, when it is whole.
  first_written :
      {d1 : DeviceIo}
      → IsOutcome d 0 new (ok tt, d1)
      → (bytes_at d1.content 0 superblock_size ≡ new)
        × (bytes_at d1.content superblock_size superblock_size ≡ old)
  first_written {d1} x = (
    subst (λ n. bytes_at d1.content 0 n ≡ new) long (outcome-bytes_at x refl),
    bytes_at-cong d1.content d.content superblock_size superblock_size
          (λ y p q. outcome-SameOutside x y (inr (omega arith)))
        ∙ there,
  )

  after_second :
      (d1 : DeviceIo) {w : Result (Unit {0}) × DeviceIo}
      → IsDone d 0 new (ok tt, d1)
      → IsDone d1 superblock_size new w
      → IsDouble d new old w
  after_second d1 {w} u v =
      let x = u.outcome in
      let y = v.outcome in
      let synced = u.whole refl in
      let (f, s) = first_written x in
      record {
        outside = λ z p.
            outcome-SameOutside y z (inr (omega arith))
            ∙ outcome-SameOutside x z (inr (omega arith));
        quiet = λ c crash z p.
            crash_outside y synced c crash z (inr (omega arith))
            ∙ outcome-SameOutside x z (inr (omega arith));
        copies = λ c crash.
            second_torn (bytes_at c superblock_size superblock_size)
              (subst (λ t. Mixed new t (bytes_at c superblock_size superblock_size)) s
                (subst
                  (λ n.
                    Mixed new (bytes_at d1.content superblock_size n)
                      (bytes_at c superblock_size n))
                  long (crash_block y synced c crash)))
              (bytes_at-cong c d1.content 0 superblock_size
                  (λ z p q. crash_outside y synced c crash z (inl (omega arith)))
                ∙ f)
              refl;
        complete = λ e. (
          bytes_at-cong w.1.content d1.content 0 superblock_size
                (λ z p q. outcome-SameOutside y z (inl (omega arith)))
              ∙ f,
          subst (λ n. bytes_at w.1.content superblock_size n ≡ new) long (outcome-bytes_at y e),
        );
        unreadable = y.unreadable ∙ x.unreadable;
        whole = v.whole;
      }

  stopped_first :
      {d1 : DeviceIo} (e : RawStoreError)
      → IsOutcome d 0 new (err e, d1)
      → IsDouble d new old (err e, d1)
  stopped_first e x = record {
    outside = λ z p. outcome-SameOutside x z (inr (omega arith));
    quiet = λ c crash z p. crash_outside x whole c crash z (inr (omega arith));
    copies = λ c crash.
        first_torn (bytes_at c 0 superblock_size)
          (subst (λ t. Mixed new t (bytes_at c 0 superblock_size)) here
            (subst (λ n. Mixed new (bytes_at d.content 0 n) (bytes_at c 0 n)) long
              (crash_block x whole c crash)))
          refl
          (bytes_at-cong c d.content superblock_size superblock_size
              (λ z p q. crash_outside x whole c crash z (inr (omega arith)))
            ∙ there);
    complete = λ h. cc;
    unreadable = x.unreadable;
    whole = λ h. cc;
  }

  pub write_both-IsDouble : IsDouble d new old (write_both d new)
  unfolding write_both
  write_both-IsDouble = go (write_synced d 0 new) (write_synced-IsDone d 0 new)
    where
      go :
          (w : Result (Unit {0}) × DeviceIo)
          → IsDone d 0 new w
          → IsDouble d new old
              (elim w.0 [ err e ↦ (err e, w.1) | ok _ ↦ write_synced w.1 superblock_size new ])
      go (err e, d1) x = stopped_first e x.outcome
      go (ok _, d1) x = after_second d1 x (write_synced-IsDone d1 superblock_size new)
