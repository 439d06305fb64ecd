-- ===== src/Store/Flush/Stored.antt =====
-- What a slot of the index holds, and what a write elsewhere leaves, rawobjstr/src/store.rs.
use objstr.Base.{
  ℕ, ◌+◌, ◌≤◌, ◌<◌, ◌≡◌, ◌≢◌, ◌⊎◌, inl, inr, refl, ap, sym, ◌∙◌, ◌==◌, ◌||◌, Bool, true, false,
  List, [], ◌∷◌, length, take, length-take, take-of_length-le, arith, if◌then◌else◌,
}
use objstr.RawError.{Bytes, Result, ok, err, read_only}
use objstr.Device.{
  DeviceIo, Answer, whole, stops_after, overlay, bytes_at, pwrite, write_answered, sync,
  sync_answered, may_hold, was,
}
use objstr.Device.ReadWrite.{overlay-outside, bytes_at-cong, bytes_at-overlay}
use objstr.Index.{ShardData}
use objstr.Superblock.{ShardSlotMeta}
use objstr.Bincode.{Bincode}
use objstr.Store.Flush.{Regions, slot_offset}

-- The shard in the slot that the superblock names: its bytes with their checksum, or nothing if the
-- shard is empty.
pub record IsWritten (crc : Bytes → ℕ) (b : Bincode) (r : Regions) (content : ℕ → ℕ) (i : ℕ)
    (m : ShardSlotMeta) (shard : ShardData) : Type 0 where
  pub bytes : Bytes
  pub encoded : b.shard_out shard ≡ ok bytes
  pub some_bytes : m.size ≢ 0
  pub size : length bytes ≡ m.size
  pub fits : m.size ≤ r.shard_slot_size
  pub sum : crc bytes ≡ m.crc
  pub there : bytes_at content (slot_offset r m.active_slot i) m.size ≡ bytes

abbrev pub empty_shard : ShardData
empty_shard = record { files = []; tombstones = [] }

abbrev pub Stored :
    (Bytes → ℕ) → Bincode → Regions → (ℕ → ℕ) → ℕ → ShardSlotMeta → ShardData → Type 0
Stored crc b r content i m shard =
    ((m.size ≡ 0) × (shard ≡ empty_shard)) ⊎ IsWritten crc b r content i m shard

-- Outside [o, o + n) the two are the same.
abbrev pub SameOutside : ℕ → ℕ → (ℕ → ℕ) → (ℕ → ℕ) → Type 0
SameOutside o n f g = (x : ℕ) → (x < o) ⊎ (o + n ≤ x) → g x ≡ f x

take-all : (bytes : Bytes) → take (length bytes) bytes ≡ bytes
take-all bytes = take-of_length-le (length bytes) bytes (omega arith)

-- What a write does on any answer: some first bytes of the data are written, all of them if it
-- succeeds.
pub record IsOutcome (d : DeviceIo) (o : ℕ) (bytes : Bytes) (w : Result (Unit {0}) × DeviceIo)
    : Type 0 where
  pub written : ℕ
  pub content : w.1.content ≡ overlay (take written bytes) o d.content
  pub complete : w.0 ≡ ok tt → take written bytes ≡ bytes
  pub unreadable : w.1.unreadable ≡ d.unreadable
  pub ro : w.1.ro ≡ d.ro
  pub may : (x v : ℕ) → may_hold w.1 x v ≡ true → (w.1.content x ≡ v) ⊎ (may_hold d x v ≡ true)

-- The present byte, or what was there before.
may-or : (a v : ℕ) (before : Bool) → (a == v || before) ≡ true → (a ≡ v) ⊎ (before ≡ true)
may-or a v before h = ground arith

write_answered-IsOutcome :
    (d : DeviceIo) (o : ℕ) (bytes : Bytes) (answers : List Answer)
    → IsOutcome d o bytes (write_answered d o bytes answers)
unfolding write_answered may_hold was
write_answered-IsOutcome d o bytes [] = record {
  written = length bytes;
  content = rw (take-all bytes) refl;
  complete = λ e. take-all bytes;
  unreadable = refl;
  ro = refl;
  may = λ x v h. may-or (overlay bytes o d.content x) v (d.content x == v || was x v d.unsynced) h;
}
write_answered-IsOutcome d o bytes (whole ∷ rest) = record {
  written = length bytes;
  content = rw (take-all bytes) refl;
  complete = λ e. take-all bytes;
  unreadable = refl;
  ro = refl;
  may = λ x v h. may-or (overlay bytes o d.content x) v (d.content x == v || was x v d.unsynced) h;
}
write_answered-IsOutcome d o bytes (stops_after n ∷ rest) = record {
  written = n;
  content = refl;
  complete = λ e. cc;
  unreadable = refl;
  ro = refl;
  may = λ x v h.
      may-or (overlay (take n bytes) o d.content x) v (d.content x == v || was x v d.unsynced) h;
}

pub pwrite-IsOutcome :
    (d : DeviceIo) (o : ℕ) (bytes : Bytes) → IsOutcome d o bytes (pwrite d o bytes)
unfolding pwrite overlay
pwrite-IsOutcome d o bytes = go d.ro
  where
    go :
        (t : Bool)
        → IsOutcome d o bytes (if t then (err read_only, d) else write_answered d o bytes d.answers)
    go true = record {
      written = 0;
      content = refl;
      complete = λ h. cc;
      unreadable = refl;
      ro = refl;
      may = λ x v h. inr h;
    }
    go false = write_answered-IsOutcome d o bytes d.answers

module _ {d : DeviceIo} {o : ℕ} {bytes : Bytes} {w : Result (Unit {0}) × DeviceIo}
    (x : IsOutcome d o bytes w) where
  pub outcome-SameOutside : SameOutside o (length bytes) d.content w.1.content
  outcome-SameOutside y h =
      let short = length-take x.written bytes in
      ap (λ t. t y) x.content
      ∙ overlay-outside (take x.written bytes) o y d.content (ground (arith, short))

  -- Nor does a crash change a byte elsewhere.
  pub outcome-may :
      (y v : ℕ) → (y < o) ⊎ (o + length bytes ≤ y) → may_hold w.1 y v ≡ true → may_hold d y v ≡ true
  unfolding may_hold
  outcome-may y v h m = elim (x.may y v m) [
    | inr e ↦ e
    | inl e ↦ let f = outcome-SameOutside y h in let g : d.content y ≡ v = cc in ground arith
  ]

  pub outcome-bytes_at : w.0 ≡ ok tt → bytes_at w.1.content o (length bytes) ≡ bytes
  outcome-bytes_at h = rw (x.content, x.complete h) (bytes_at-overlay bytes o d.content)

-- No write waits for a sync.
abbrev pub IsSynced : DeviceIo → Type 0
IsSynced d = (x v : ℕ) → may_hold d x v ≡ true → v ≡ d.content x

-- A sync changes no byte, and when it succeeds no write waits.
pub record IsSync (d : DeviceIo) (y : Result (Unit {0}) × DeviceIo) : Type 0 where
  pub content : y.1.content ≡ d.content
  pub unreadable : y.1.unreadable ≡ d.unreadable
  pub ro : y.1.ro ≡ d.ro
  pub may : (x v : ℕ) → may_hold y.1 x v ≡ true → may_hold d x v ≡ true
  pub done : y.0 ≡ ok tt → IsSynced y.1

synced : (d : DeviceIo) → d.unsynced ≡ [] → IsSynced d
unfolding may_hold was
synced d e x v h = let g : was x v d.unsynced ≡ false = rw e refl in ground arith

only_content :
    (d e : DeviceIo)
    → e.content ≡ d.content
    → e.unsynced ≡ []
    → (x v : ℕ) → may_hold e x v ≡ true
    → may_hold d x v ≡ true
unfolding may_hold was
only_content d e p q x v h =
    let f = synced e q x v h in
    let g : d.content x ≡ v = ap (λ t. t x) (sym p) ∙ sym f in ground arith

sync_answered-IsSync : (d : DeviceIo) (answers : List Answer) → IsSync d (sync_answered d answers)
unfolding sync_answered may_hold
sync_answered-IsSync d [] = record {
  content = refl;
  unreadable = refl;
  ro = refl;
  may = only_content d (record d { unsynced = [] }) refl refl;
  done = λ e. synced (record d { unsynced = [] }) refl;
}
sync_answered-IsSync d (whole ∷ rest) = record {
  content = refl;
  unreadable = refl;
  ro = refl;
  may = only_content d (record d { unsynced = []; answers = rest }) refl refl;
  done = λ e. synced (record d { unsynced = []; answers = rest }) refl;
}
sync_answered-IsSync d (stops_after n ∷ rest) = record {
  content = refl;
  unreadable = refl;
  ro = refl;
  may = λ x v h. h;
  done = λ e. cc;
}

pub sync-IsSync : (d : DeviceIo) → IsSync d (sync d)
unfolding sync
sync-IsSync d = go d.ro
  where
    go : (t : Bool) → IsSync d (if t then (err read_only, d) else sync_answered d d.answers)
    go true = record {
      content = refl;
      unreadable = refl;
      ro = refl;
      may = λ x v h. h;
      done = λ e. cc;
    }
    go false = sync_answered-IsSync d d.answers

-- A slot keeps its shard while its bytes stay.
pub Stored-keeps :
    (crc : Bytes → ℕ) (b : Bincode) (r : Regions) (f g : ℕ → ℕ) (i : ℕ) (m : ShardSlotMeta)
    (shard : ShardData)
    → ((x : ℕ)
        → slot_offset r m.active_slot i ≤ x
        → x < slot_offset r m.active_slot i + r.shard_slot_size
        → g x ≡ f x)
    → Stored crc b r f i m shard
    → Stored crc b r g i m shard
Stored-keeps crc b r f g i m shard h (inl e) = inl e
Stored-keeps crc b r f g i m shard h (inr x) = inr (record {
  bytes = x.bytes;
  encoded = x.encoded;
  some_bytes = x.some_bytes;
  size = x.size;
  fits = x.fits;
  sum = x.sum;
  there =
      bytes_at-cong g f (slot_offset r m.active_slot i) m.size
        (λ y p q. h y p (omega (arith, x.fits)))
      ∙ x.there;
})
