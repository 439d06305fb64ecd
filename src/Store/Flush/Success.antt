-- ===== src/Store/Flush/Success.antt =====
-- After a flush that succeeded, `flush_index` of rawobjstr/src/store.rs.
use mathlib.Core.Path.{subst}
use objstr.Base.{
  ℕ, zero, suc, ◌+◌, ◌≤◌, ◌<◌, ◌^◌, ◌≡◌, refl, sym, ap, ◌∙◌, Bool, true, false, arith,
  if◌then◌else◌,
}
use objstr.RawError.{Bytes, Result, ok, err, num_shards, min_device_size}
use objstr.Device.{DeviceIo}
use objstr.Index.{DeviceIndex, new_index as no_files}
use objstr.Index.Shards.{shard_of}
use objstr.Index.Shards.Merge.{merged}
use objstr.Superblock.{Superblock}
use objstr.Superblock.Codec
use objstr.Bincode.{Bincode, with_checksum}
use objstr.Store.{Inner}
use objstr.Store.Open.{regions, load}
use objstr.Store.Flush.{Regions, slot_at, next_superblock}
use objstr.Store.Flush.Slots.{IsLayout}
use objstr.Store.Flush.Stored.{Stored}
use objstr.Store.Flush.Rounds.{IsPass}
use objstr.Store.Flush.Recover.{load_old, picks_first}
use objstr.Store.Flush.Crash.{IsDocumented, IsReady, IsDurable, read-pair}
use objstr.RawError.{read_only}
use objstr.Device.{sync}
use objstr.Store.Flush.{
  write_both, commit_superblock, commit, commit_synced, commit_encoded, committed, flush_shards,
  flush_index, flag_at,
}
use objstr.Store.Flush.Stored.{IsSync, IsSynced, sync-IsSync}
use objstr.Store.Flush.Pass.{flush_shards-IsPass}
use objstr.Store.Flush.Copies.{IsDouble}
use objstr.Store.Flush.Durable.{new_slots, next_txn, same_capacity}
use objstr.Base.{replicate}
use objstr.Index.Shards.Merge.{lookup-merged, IsMap}
use objstr.Dict.{lookup}
use objstr.Store.Flush.Atomic.{
  still-IsReadable, all_shards, next-IsFormatted, double, block_reads, sized,
}

module _ {crc : Bytes → ℕ} {b : Bincode} {r : Regions} {size : ℕ}
    (word : (x : Bytes) → crc x < 2 ^ 32) (doc : IsDocumented b) (l : IsLayout r) {sb : Superblock}
    {old : Bytes} {index : DeviceIndex} {s : Inner}
    (ready : IsReady crc b r size sb old index s) where
  -- The store after a flush is ready again, with its own index committed.
  abbrev Flushed : Result (Unit {0}) × Inner → Type 0
  Flushed t =
      t.0 ≡ ok tt
      → (c : ℕ) × ((block : Bytes) × (IsReady crc b r size (with_checksum t.1.superblock c) block
              s.index t.1
            × IsDurable r t.1.dev
            × (t.1.index ≡ s.index)
            × ((with_checksum t.1.superblock c).txn_id ≡ sb.txn_id + 1)))

  flag_at-clean : (n j : ℕ) → flag_at (replicate n false) j ≡ false
  unfolding flag_at
  flag_at-clean zero j = refl
  flag_at-clean (suc n) zero = refl
  flag_at-clean (suc n) (suc j) = flag_at-clean n j

  module _ {u : Result ℕ × Inner} (pass : IsPass crc b r l.small doc.writes num_shards 0 s u)
      (count : ℕ) (succeeded : u.0 ≡ ok count) (d : DeviceIo)
      (sync_content : d.content ≡ u.1.dev.content)
      (sync_unreadable : d.unreadable ≡ u.1.dev.unreadable) (whole : IsSynced d) where
    next : Inner
    next = record u.1 { dev = d; superblock = next_superblock u.1.superblock }

    written_both :
        (new : Bytes)
        → Codec.to_bytes crc b (next_superblock u.1.superblock) ≡ ok new
        → (w : Result (Unit {0}) × DeviceIo) → IsDouble d new old w
        → Flushed (committed count next w)
    unfolding committed next next_superblock
    written_both new encoded (err e, d1) x h = cc
    written_both new encoded (ok _, d1) x h =
        let (long, (c, parsed)) =
          block_reads word doc l ready pass count succeeded d sync_content sync_unreadable whole new
            encoded in
        let low : (j : ℕ) → j < num_shards → (slot_at s.superblock.shard_slots j).active_slot ≤ 1 =
          λ j p. subst (λ t. (slot_at t j).active_slot ≤ 1) ready.slots (ready.active j p) in
        let (first, second) = x.complete refl in
        let stored =
          new_slots doc l ready u.1 pass.superblock d1.content
            (λ y p. x.outside y (omega arith) ∙ ap (λ t. t y) sync_content)
            (all_shards word doc l ready pass count succeeded) in
        (
          c,
          (
            new,
            (
              record {
                committed = record {
                  first = first;
                  second = second;
                  parsed = parsed;
                  place =
                      ap (regions size) (same_capacity doc l ready u.1 pass.superblock c)
                      ∙ ready.committed.place;
                  enough =
                      subst (λ t. min_device_size t ≤ size)
                        (sym (same_capacity doc l ready u.1 pass.superblock c))
                        ready.committed.enough;
                  stored = stored;
                };
                readable = λ o n.
                    ap (λ t. t o n) (x.unreadable ∙ sync_unreadable)
                    ∙ still-IsReadable word doc l ready pass o n;
                formatted = next-IsFormatted word doc l ready pass;
                slots = refl;
                txn = refl;
                capacity = refl;
                active =
                    λ j p. pass.active (λ k v w. low k (omega arith)) j (omega arith) (omega arith);
                synced = λ j p e.
                    subst
                      (λ t.
                        Stored crc b r d1.content j (slot_at u.1.superblock.shard_slots j)
                          (shard_of crc j t))
                      (sym pass.index) (stored j p);
              },
              λ x' v side m. x.whole refl x' v m,
              pass.index,
              next_txn doc l ready u.1 pass.superblock c,
            ),
          ),
        )

    superblock_written : Flushed (commit_superblock crc b r count (record u.1 { dev = d }))
    unfolding commit_superblock next
    superblock_written = go (Codec.to_bytes crc b (next_superblock u.1.superblock)) refl
      where
        go :
            (o : Result Bytes)
            → Codec.to_bytes crc b (next_superblock u.1.superblock) ≡ o
            → Flushed (commit_encoded count next o)
        go (err e) f h = cc
        go (ok new) f h =
            written_both new f (write_both d new)
              (double word doc l ready pass count succeeded d sync_content sync_unreadable whole new
                f)
              h

  commit-Flushed :
      (u : Result ℕ × Inner)
      → IsPass crc b r l.small doc.writes num_shards 0 s u
      → Flushed (commit crc b r u)
  unfolding commit
  commit-Flushed (err e, s1) pass h = cc
  commit-Flushed (ok count, s1) pass h = go (sync s1.dev) (sync-IsSync s1.dev) h
    where
      go :
          (y : Result (Unit {0}) × DeviceIo)
          → IsSync s1.dev y
          → Flushed (commit_synced crc b r count s1 y)
      go (err e, d) x h = cc
      go (ok _, d) x h = superblock_written pass count refl d x.content x.unreadable (x.done refl) h

  -- A flush of a store that is ready, when it succeeds, leaves a store that is ready: both copies of its
  -- superblock, with the next transaction number, stand on the device, and its slots hold all shards of
  -- the store's index, and what was written is durable. `crc` fits a u32, and the crate bincode is as documented.
  pub flush_index-IsReady :
      (flush_index crc b r s).0 ≡ ok tt
      → (c : ℕ) × ((block : Bytes) × (IsReady crc b r size
              (with_checksum (flush_index crc b r s).1.superblock c)
              block
              s.index
              (flush_index crc b r s).1
            × IsDurable r (flush_index crc b r s).1.dev
            × ((flush_index crc b r s).1.index ≡ s.index)
            × ((with_checksum (flush_index crc b r s).1.superblock c).txn_id ≡ sb.txn_id + 1)))
  unfolding flush_index
  flush_index-IsReady = go s.ro
    where
      go :
          (t : Bool)
          → Flushed (
              if t
              then (err read_only, s)
              else commit crc b r (flush_shards crc b r num_shards 0 0 s))
      go true h = cc
      go false h =
          commit-Flushed (flush_shards crc b r num_shards 0 0 s)
            (flush_shards-IsPass crc b r l doc.writes num_shards 0 0 s (omega arith)
              (sized word doc l ready))
            h

-- A device over which a store is ready loads the committed index.
ready-load :
    {crc : Bytes → ℕ} {b : Bincode} {r : Regions} {size : ℕ} (doc : IsDocumented b) (l : IsLayout r)
    {sb : Superblock} {old : Bytes} {index : DeviceIndex} {s : Inner}
    (ready : IsReady crc b r size sb old index s)
    → load crc b s.dev size ≡ ok (sb, r, merged crc num_shards 0 index no_files)
ready-load {crc} {b} {r} {size} doc l {sb} {old} {index} {s} ready =
    load_old doc l ready s.dev ready.readable (λ x p h. refl)
      (read-pair crc b r size s.dev ready.readable old old ready.committed.first
          ready.committed.second
        ∙ rw ready.committed.parsed (picks_first doc l ready sb))

module _ {crc : Bytes → ℕ} {b : Bincode} {r : Regions} {size : ℕ}
    (word : (x : Bytes) → crc x < 2 ^ 32) (doc : IsDocumented b) (l : IsLayout r) {sb : Superblock}
    {old : Bytes} {index : DeviceIndex} {s : Inner}
    (ready : IsReady crc b r size sb old index s) where
  -- When a flush of a store that is ready succeeds, `load`, which is the reading of the superblock and
  -- of the shards in `open_impl`, before the checks of the entries, finds for every key the file and the
  -- tombstone that the store's index has for it. No key stands twice in the index, `crc` fits a u32,
  -- and the crate bincode is as documented.
  pub load-flush_index :
      IsMap s.index.files
      → IsMap s.index.tombstones
      → (flush_index crc b r s).0 ≡ ok tt
      → (next : Superblock) × ((loaded : DeviceIndex) × ((load crc b
                (flush_index crc b r s).1.dev
                size
              ≡ ok (next, r, loaded))
            × ((k : Bytes)
                → (lookup k loaded.files ≡ lookup k s.index.files)
                  × (lookup k loaded.tombstones ≡ lookup k s.index.tombstones))))
  load-flush_index u v h =
      let (c, (block, (after, _, _, _))) = flush_index-IsReady word doc l ready h in
      (
        with_checksum (flush_index crc b r s).1.superblock c,
        (
          merged crc num_shards 0 s.index no_files,
          (ready-load doc l after, λ k. lookup-merged crc k s.index u v),
        ),
      )
