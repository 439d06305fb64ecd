-- ===== src/Store/Flush/Recover.antt =====
-- Opening the device after a flush of rawobjstr/src/store.rs: the slots that hold the old index stay.
use mathlib.Core.Path.{subst}
use objstr.Base.{ℕ, ◌+◌, ◌≤◌, ◌<◌, ◌≡◌, ◌≢◌, ◌⊎◌, inl, inr, sym, ap, ◌∙◌, ◌==◌, arith, Bool-cases}
use objstr.RawError.{Bytes, ok, superblock_size, num_shards, data_start}
use objstr.Device.{DeviceIo, bytes_at}
use objstr.Device.ReadWrite.{bytes_at-cong}
use objstr.Index.{DeviceIndex, new_index as no_files}
use objstr.Index.Shards.{shard_of}
use objstr.Index.Shards.Merge.{merged}
use objstr.Superblock.{Superblock}
use objstr.Bincode.{Bincode}
use objstr.Store.{Inner}
use objstr.Store.Open.{pick, read_superblock, load}
use objstr.Store.Open.Load.{IsReadable, load-Stored}
use objstr.Store.Flush.{Regions, slot_at, slot_offset, other_slot}
use objstr.Store.Flush.Slots.{
  IsLayout, slot_offset-Apart, slot_offset-bounds, slot_offset-above, other_slot-other,
}
use objstr.Store.Flush.Stored.{Stored, Stored-keeps}
use objstr.Store.Flush.Rounds.{target}
use objstr.Store.Flush.Crash.{IsDocumented, IsReady, AfterFlush, old_index, read-pair}

module _ {crc : Bytes → ℕ} {b : Bincode} {r : Regions} {size : ℕ} (doc : IsDocumented b)
    (l : IsLayout r) {sb : Superblock} {old : Bytes} {index : DeviceIndex} {s : Inner}
    (ready : IsReady crc b r size sb old index s) where
  -- No byte of the index regions is another but in the slots that the flush writes.
  abbrev pub Quiet : (ℕ → ℕ) → Type 0
  Quiet g =
      (x : ℕ)
      → r.index_region_a ≤ x
      → ((j : ℕ)
          → j < num_shards
          → (x < target crc b r s j) ⊎ (target crc b r s j + r.shard_slot_size ≤ x))
      → g x ≡ s.dev.content x

  -- Nor one of the superblocks.
  abbrev pub Untouched : (ℕ → ℕ) → Type 0
  Untouched g =
      (x : ℕ)
      → (x < data_start) ⊎ (r.index_region_a ≤ x)
      → ((j : ℕ)
          → j < num_shards
          → (x < target crc b r s j) ⊎ (target crc b r s j + r.shard_slot_size ≤ x))
      → g x ≡ s.dev.content x

  -- No target shares a byte with a slot in use.
  target-outside :
      (j k x : ℕ)
      → j < num_shards
      → k < num_shards
      → slot_offset r (slot_at sb.shard_slots j).active_slot j ≤ x
      → x < slot_offset r (slot_at sb.shard_slots j).active_slot j + r.shard_slot_size
      → (x < target crc b r s k) ⊎ (target crc b r s k + r.shard_slot_size ≤ x)
  target-outside j k x p q lo hi =
      let u = (slot_at sb.shard_slots j).active_slot in
      let v = (slot_at s.superblock.shard_slots k).active_slot in
      let same_slots : (slot_at sb.shard_slots k).active_slot ≡ v =
        ap (λ t. (slot_at t k).active_slot) ready.slots in
      let apart : ((other_slot v == 0) ≢ (u == 0)) ⊎ (k ≢ j) = elim (Bool-cases (k == j)) [
        | inl e ↦
            let kj : k ≡ j = ground arith in
            let low = ready.active k q in
            let uv : v ≡ u = sym same_slots ∙ ap (λ t. (slot_at sb.shard_slots t).active_slot) kj in
            inl (
              subst (λ t. (other_slot v == 0) ≢ (t == 0)) uv
                (other_slot-other v (omega (arith, same_slots, low))).1)
        | inr e ↦ inr (ground arith)
      ] in
      let a = slot_offset-Apart r l (other_slot v) u k j q p apart in ground arith

  old_slots :
      (g : ℕ → ℕ)
      → Quiet g
      → (j : ℕ) → j < num_shards
      → Stored crc b r g j (slot_at sb.shard_slots j) (shard_of crc j index)
  old_slots g h j p =
      Stored-keeps crc b r s.dev.content g j (slot_at sb.shard_slots j) (shard_of crc j index)
        (λ x lo hi.
          h x
            (let low = slot_offset-above r l (slot_at sb.shard_slots j).active_slot j in
              omega arith)
            (λ k q. target-outside j k x p q lo hi))
        (ready.committed.stored j p)

  pub load_old :
      (d : DeviceIo)
      → IsReadable d
      → Quiet d.content
      → read_superblock crc b d ≡ ok sb
      → load crc b d size ≡ ok (sb, r, merged crc num_shards 0 index no_files)
  load_old d h quiet e =
      load-Stored crc b doc.reads d h r sb size index e ready.committed.place ready.committed.enough
        (old_slots d.content quiet)

  pub picks_first : (p : Superblock) → pick (ok p) (ok p) ≡ ok p
  unfolding pick
  picks_first p = ground arith

  -- The copies of the superblock stay, while the flush writes shards.
  pub old_copies :
      (g : ℕ → ℕ)
      → Untouched g
      → (bytes_at g 0 superblock_size ≡ old) × (bytes_at g superblock_size superblock_size ≡ old)
  old_copies g h =
      let below : (x : ℕ) → x < data_start → g x ≡ s.dev.content x = λ x p. h x (inl p) (λ j q.
        let low =
          slot_offset-bounds r l (other_slot (slot_at s.superblock.shard_slots j).active_slot) j
            q in
        inl (omega arith)) in
      (
        bytes_at-cong g s.dev.content 0 superblock_size (λ x p q. below x (omega arith))
            ∙ ready.committed.first,
        bytes_at-cong g s.dev.content superblock_size superblock_size
              (λ x p q. below x (omega arith))
            ∙ ready.committed.second,
      )

  -- A flush that wrote no superblock.
  pub unchanged_superblock :
      (d : DeviceIo)
      → IsReadable d
      → Untouched d.content
      → (written : Superblock) → AfterFlush crc b r size sb old index s written d
  unchanged_superblock d h same_bytes written =
      let (first, second) = old_copies d.content same_bytes in
      old_index (
        load_old d h (λ x p. same_bytes x (inr p))
          (read-pair crc b r size d h old old first second
            ∙ rw ready.committed.parsed (picks_first sb)))
