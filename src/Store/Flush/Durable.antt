-- ===== src/Store/Flush/Durable.antt =====
-- Opening the device after a flush of rawobjstr/src/store.rs that wrote a superblock.
use mathlib.Core.Path.{subst}
use objstr.Base.{ℕ, ◌+◌, ◌≤◌, ◌<◌, ◌≡◌, inl, inr, refl, sym, ap, ◌∙◌, arith}
use objstr.RawError.{Bytes, ok, num_shards, data_start, min_device_size}
use objstr.Device.{DeviceIo}
use objstr.Index.{DeviceIndex, new_index as no_files}
use objstr.Index.Shards.{shard_of}
use objstr.Index.Shards.Merge.{merged}
use objstr.Superblock.{Superblock}
use objstr.Superblock.Codec
use objstr.Bincode.{Bincode, with_checksum}
use objstr.Store.{Inner}
use objstr.Store.Open.{pick, read_superblock, regions, capacity_of, load}
use objstr.Store.Open.Load.{IsReadable, load-Stored}
use objstr.Store.Flush.{Regions, slot_at, next_superblock}
use objstr.Store.Flush.Slots.{IsLayout, slot_offset-bounds}
use objstr.Store.Flush.Stored.{Stored, Stored-keeps}
use objstr.Store.Flush.Copies.{Copies, first_torn, second_torn}
use objstr.Store.Flush.Recover.{Quiet, load_old, picks_first}
use objstr.Store.Flush.Crash.{
  IsDocumented, IsReady, AfterFlush, old_index, new_index, undetected, as_old, as_new, rejected,
  passes, Reads-of, read-pair,
}

module _ {crc : Bytes → ℕ} {b : Bincode} {r : Regions} {size : ℕ} (doc : IsDocumented b)
    (l : IsLayout r) {sb : Superblock} {old : Bytes} {index : DeviceIndex} {s : Inner}
    (ready : IsReady crc b r size sb old index s) (s1 : Inner)
    (header : s1.superblock ≡ record s.superblock { shard_slots = s1.superblock.shard_slots }) where
  abbrev pub committed_superblock : ℕ → Superblock
  committed_superblock c = with_checksum (next_superblock s1.superblock) c

  pub same_capacity : (c : ℕ) → capacity_of (committed_superblock c) ≡ capacity_of sb
  unfolding capacity_of next_superblock
  same_capacity c =
      let e : s1.superblock.index_slot_capacity ≡ sb.index_slot_capacity =
        ap (λ t. t.index_slot_capacity) header ∙ sym ready.capacity in
      rw e refl

  pub next_txn : (c : ℕ) → (committed_superblock c).txn_id ≡ sb.txn_id + 1
  unfolding next_superblock
  next_txn c = ap (λ t. t.txn_id + 1) header ∙ ap (λ t. t + 1) (sym ready.txn)

  pub new_slots :
      (g : ℕ → ℕ)
      → ((x : ℕ) → data_start ≤ x → g x ≡ s1.dev.content x)
      → ((j : ℕ)
          → j < num_shards
          → Stored crc b r s1.dev.content j
              (slot_at s1.superblock.shard_slots j)
              (shard_of crc j s.index))
      → (j : ℕ) → j < num_shards
      → Stored crc b r g j (slot_at s1.superblock.shard_slots j) (shard_of crc j s.index)
  new_slots g quiet shards j p =
      let low = slot_offset-bounds r l (slot_at s1.superblock.shard_slots j).active_slot j p in
      Stored-keeps crc b r s1.dev.content g j (slot_at s1.superblock.shard_slots j)
        (shard_of crc j s.index) (λ x lo hi. quiet x (omega arith)) (shards j p)

  load_new :
      (c : ℕ) (d : DeviceIo)
      → IsReadable d
      → ((j : ℕ)
          → j < num_shards
          → Stored crc b r d.content j
              (slot_at s1.superblock.shard_slots j)
              (shard_of crc j s.index))
      → read_superblock crc b d ≡ ok (committed_superblock c)
      → load crc b d size ≡ ok (committed_superblock c, r, merged crc num_shards 0 s.index no_files)
  unfolding next_superblock
  load_new c d h shards e =
      load-Stored crc b doc.reads d h r (committed_superblock c) size s.index e
        (ap (regions size) (same_capacity c) ∙ ready.committed.place)
        (subst (λ t. min_device_size t ≤ size) (sym (same_capacity c)) ready.committed.enough)
        shards

  picks_higher : (p q : Superblock) → q.txn_id < p.txn_id → pick (ok p) (ok q) ≡ ok p
  unfolding pick
  picks_higher p q h = ground arith

  module _ (c : ℕ) (new : Bytes)
      (encoded : Codec.to_bytes crc b (next_superblock s1.superblock) ≡ ok new)
      (parsed : Codec.from_bytes crc b new ≡ ok (committed_superblock c)) (d : DeviceIo)
      (h : IsReadable d) (quiet : Quiet doc l ready d.content)
      (shards : (j : ℕ)
        → j < num_shards
        → Stored crc b r d.content j
            (slot_at s1.superblock.shard_slots j)
            (shard_of crc j s.index)) where
    found_new :
        read_superblock crc b d ≡ ok (committed_superblock c)
        → AfterFlush crc b r size sb old index s (next_superblock s1.superblock) d
    found_new e = new_index (committed_superblock c) (next_txn c) (load_new c d h shards e)

    found_old :
        read_superblock crc b d ≡ ok sb
        → AfterFlush crc b r size sb old index s (next_superblock s1.superblock) d
    found_old e = old_index (load_old doc l ready d h quiet e)

    higher : sb.txn_id < (committed_superblock c).txn_id
    higher = let e = next_txn c in omega arith

    -- Whatever the two writes left.
    pub copies-AfterFlush :
        Copies new old d.content
        → AfterFlush crc b r size sb old index s (next_superblock s1.superblock) d
    unfolding pick
    copies-AfterFlush (first_torn t mixed e f) =
        let pair = read-pair crc b r size d h t old e f in
        elim (Reads-of crc b r size new old t) [
          | as_old p ↦
              found_old (pair ∙ rw (p, ready.committed.parsed) (picks_first doc l ready sb))
          | as_new p ↦ found_new (
              pair
              ∙ rw (p, parsed, ready.committed.parsed)
                  (picks_higher (committed_superblock c) sb higher))
          | rejected w p ↦ found_old (pair ∙ rw (p, ready.committed.parsed) refl)
          | passes u v next p ↦ undetected new t next encoded (inl e) mixed u v p
        ]
    copies-AfterFlush (second_torn t mixed e f) =
        let pair = read-pair crc b r size d h new t e f in
        elim (Reads-of crc b r size new old t) [
          | as_old p ↦ found_new (
              pair
              ∙ rw (p, parsed, ready.committed.parsed)
                  (picks_higher (committed_superblock c) sb higher))
          | as_new p ↦
              found_new (pair ∙ rw (p, parsed) (picks_first doc l ready (committed_superblock c)))
          | rejected w p ↦ found_new (pair ∙ rw (p, parsed) refl)
          | passes u v next p ↦ undetected new t next encoded (inr f) mixed u v p
        ]
