-- ===== src/Store/Flush.antt =====
-- `flush_index` of rawobjstr/src/store.rs: the dirty shards go to their other slots, and after a sync
-- the superblock to its two places. An answer that stops a write or a sync ends it there, as a crash does.
pub mod Slots
pub mod Stored
pub mod Rounds
pub mod Pass
pub mod Copies
pub mod Crash
pub mod Recover
pub mod Durable
pub mod Atomic
pub mod Success
pub mod Dirty
pub mod Keeps
pub mod Encoding
pub mod Examples
use objstr.Base.{
  ℕ, zero, suc, ◌+◌, ◌-◌, ◌*◌, ◌%◌, ◌^◌, Bool, true, false, Option, none, some, List, [], ◌∷◌, ltb,
  ◌==◌, if◌then◌else◌, length, get_elem?, set, replicate,
}
use objstr.RawError.{
  Bytes, Result, ok, err, RawStoreError, read_only, shard_overflow, superblock_size, num_shards,
}
use objstr.Device.{DeviceIo, pwrite, sync}
use objstr.Index.{ShardData}
use objstr.Index.Shards
use objstr.Index.Shards.{shard_of}
use objstr.Superblock.{Superblock, ShardSlotMeta, default_slot}
use objstr.Superblock.Codec
use objstr.Bincode.{Bincode}
use objstr.Store.{Inner}

-- The layout of the index, fields of `RawObjectStore`.
pub record Regions : Type 0 where
  pub index_region_a : ℕ
  pub index_region_b : ℕ
  pub shard_slot_size : ℕ

unfoldable pub flag_at : List Bool → ℕ → Bool
flag_at flags i = elim (get_elem? flags i) [ none ↦ false | some d ↦ d ]

unfoldable pub slot_at : List ShardSlotMeta → ℕ → ShardSlotMeta
slot_at slots i = elim (get_elem? slots i) [ none ↦ default_slot | some m ↦ m ]

unfoldable pub slot_offset : Regions → ℕ → ℕ → ℕ
slot_offset r slot i =
    if slot == 0
    then r.index_region_a + i * r.shard_slot_size
    else r.index_region_b + i * r.shard_slot_size

-- `1 - cur_slot` on u8
unfoldable pub other_slot : ℕ → ℕ
other_slot cur = (257 - cur) % 256

unfoldable pub total_size : List ShardSlotMeta → ℕ
total_size [] = 0
total_size (m ∷ r) = m.size + total_size r

unfoldable pub next_superblock : Superblock → Superblock
unfolding total_size
next_superblock sb = record sb {
  prev_txn_id = sb.txn_id;
  txn_id = sb.txn_id + 1;
  index_region_bytes = total_size sb.shard_slots;
}

-- A write and the sync behind it.
unfoldable pub write_synced : DeviceIo → ℕ → Bytes → Result (Unit {0}) × DeviceIo
write_synced d offset bytes =
    let w = pwrite d offset bytes in
    let y = sync w.1 in elim w.0 [ err e ↦ (err e, w.1) | ok _ ↦ y ]

-- The superblock to both places.
unfoldable pub write_both : DeviceIo → Bytes → Result (Unit {0}) × DeviceIo
unfolding write_synced
write_both d bytes =
    let first = write_synced d 0 bytes in
    let second = write_synced first.1 superblock_size bytes in
    elim first.0 [ err e ↦ (err e, first.1) | ok _ ↦ second ]

-- Behind the writes of the superblock: the dirty flags are cleared.
unfoldable pub committed : ℕ → Inner → Result (Unit {0}) × DeviceIo → Result (Unit {0}) × Inner
committed written s (err e, d) = (err e, record s { dev = d })
committed written s (ok _, d) = (
  ok tt,
  record s {
    dev = d;
    shard_dirty = replicate (length s.shard_dirty) false;
    dirty = false;
    last_flush_bytes = written + 2 * superblock_size;
  },
)

unfoldable pub commit_encoded : ℕ → Inner → Result Bytes → Result (Unit {0}) × Inner
unfolding write_both committed
commit_encoded written s (err e) = (err e, s)
commit_encoded written s (ok bytes) = committed written s (write_both s.dev bytes)

module _ (crc : Bytes → ℕ) (b : Bincode) (r : Regions) where
  -- A dirty shard with its bytes and their checksum: written to the other slot, which becomes active.
  unfoldable pub write_shard : ℕ → Bytes → ℕ → Inner → Result ℕ × Inner
  unfolding other_slot slot_at slot_offset
  write_shard i bytes sum s =
      let new_slot = other_slot (slot_at s.superblock.shard_slots i).active_slot in
      let w = pwrite s.dev (slot_offset r new_slot i) bytes in
      if ltb r.shard_slot_size (length bytes)
      then (err (shard_overflow i (length bytes) r.shard_slot_size), s)
      else elim w.0 [
        | err e ↦ (err e, record s { dev = w.1 })
        | ok _ ↦ (
          ok (length bytes),
          record s {
            dev = w.1;
            superblock = record s.superblock {
              shard_slots =
                  set s.superblock.shard_slots i
                    (record { active_slot = new_slot; size = length bytes % 2 ^ 32; crc = sum });
            };
          },
        )
      ]

  -- One round of the loop.
  unfoldable pub flush_shard : ℕ → Inner → Result ℕ × Inner
  unfolding write_shard flag_at
  flush_shard i s =
      if flag_at s.shard_dirty i
      then (elim (Shards.to_bytes crc b (shard_of crc i s.index)) [
        | err e ↦ (err e, s)
        | ok (bytes, sum) ↦ write_shard i bytes sum s
      ])
      else (ok 0, s)

  -- The rounds for the `n` shards from `i` on, with the bytes written so far.
  unfoldable pub flush_shards : ℕ → ℕ → ℕ → Inner → Result ℕ × Inner
  unfolding flush_shard
  flush_shards zero i written s = (ok written, s)
  flush_shards (suc n) i written s =
      let step = flush_shard i s in
      elim step.0 [
        | err e ↦ (err e, step.1)
        | ok count ↦ flush_shards n (suc i) (written + count) step.1
      ]

  unfoldable pub commit_superblock : ℕ → Inner → Result (Unit {0}) × Inner
  unfolding next_superblock commit_encoded
  commit_superblock written s =
      let next : Inner = record s { superblock = next_superblock s.superblock } in
      commit_encoded written next (Codec.to_bytes crc b next.superblock)

  -- Behind the sync of the shards.
  unfoldable pub commit_synced :
      ℕ → Inner → Result (Unit {0}) × DeviceIo → Result (Unit {0}) × Inner
  unfolding commit_superblock
  commit_synced written s (err e, d) = (err e, record s { dev = d })
  commit_synced written s (ok _, d) = commit_superblock written (record s { dev = d })

  -- Behind the loop over the shards.
  unfoldable pub commit : Result ℕ × Inner → Result (Unit {0}) × Inner
  unfolding commit_synced
  commit (err e, s) = (err e, s)
  commit (ok written, s) = commit_synced written s (sync s.dev)

  unfoldable pub flush_index : Inner → Result (Unit {0}) × Inner
  unfolding flush_shards commit
  flush_index s = if s.ro then (err read_only, s) else commit (flush_shards num_shards 0 0 s)
