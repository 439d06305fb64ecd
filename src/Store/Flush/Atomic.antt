-- ===== src/Store/Flush/Atomic.antt =====
-- A flush of the index is atomic, `flush_index` of rawobjstr/src/store.rs.
use objstr.Base.{
  ℕ, ◌≤◌, ◌<◌, ◌^◌, ◌≡◌, refl, sym, ap, ◌∙◌, Bool, true, false, length, arith, if◌then◌else◌,
}
use objstr.RawError.{Bytes, Result, ok, err, superblock_size, num_shards, data_start}
use objstr.Device.{DeviceIo}
use objstr.Index.{DeviceIndex}
use objstr.Index.Shards.{shard_of}
use objstr.Superblock.{Superblock, superblock_magic}
use objstr.Superblock.Codec
use objstr.Bincode.{Bincode, with_checksum}
use objstr.Store.{Inner}
use objstr.Store.Open.Load.{IsReadable}
use objstr.Store.Flush.{Regions, slot_at, next_superblock}
use objstr.Store.Flush.Slots.{IsLayout}
use objstr.Store.Flush.Stored.{Stored}
use objstr.Store.Flush.Rounds.{IsPass}
use objstr.Store.Flush.Crash.{IsDocumented, IsReady, IsDurable, AfterFlush}
use objstr.Dict.{same}
use objstr.Superblock.Codec.RoundTrip.{IsFormatted, to_bytes-reads}
use objstr.RawError.{read_only}
use objstr.Device.{sync, may_hold, Crashed, reopened}
use objstr.Store.Flush.{
  write_both, commit_superblock, commit, commit_synced, commit_encoded, committed, flush_shards,
  flush_index,
}
use objstr.Store.Flush.Stored.{IsSync, IsSynced, sync-IsSync}
use objstr.Store.Flush.Pass.{flush_shards-IsPass}
use objstr.Store.Flush.Copies.{IsDouble, write_both-IsDouble}
use objstr.Store.Flush.Recover.{Untouched, unchanged_superblock, old_copies}
use objstr.Store.Flush.Durable.{copies-AfterFlush, new_slots}

module _ {crc : Bytes → ℕ} {b : Bincode} {r : Regions} {size : ℕ}
    (word : (x : Bytes) → crc x < 2 ^ 32) (doc : IsDocumented b) (l : IsLayout r) {sb : Superblock}
    {old : Bytes} {index : DeviceIndex} {s : Inner}
    (ready : IsReady crc b r size sb old index s) where
  pub sized : length s.superblock.shard_slots ≡ num_shards
  sized = ready.formatted.slots

  module _ {u : Result ℕ × Inner} (pass : IsPass crc b r l.small doc.writes num_shards 0 s u) where
    pub still-IsReadable : IsReadable u.1.dev
    still-IsReadable o n = ap (λ t. t o n) pass.unreadable ∙ ready.readable o n

    -- A crash of a device that only the shards were written to.
    untouched :
        IsDurable r s.dev
        → (d : DeviceIo) → ((x v : ℕ) → may_hold d x v ≡ true → may_hold u.1.dev x v ≡ true)
        → (c : ℕ → ℕ) → Crashed d c
        → Untouched doc l ready c
    untouched durable d may c crash x side h =
        durable x (c x) side (pass.may x (c x) (λ j p q. h j (omega arith)) (may x (c x) (crash x)))

    only_shards :
        IsDurable r s.dev
        → (d : DeviceIo) → d.unreadable ≡ u.1.dev.unreadable
        → ((x v : ℕ) → may_hold d x v ≡ true → may_hold u.1.dev x v ≡ true)
        → (c : ℕ → ℕ) → Crashed d c
        → AfterFlush crc b r size sb old index s (next_superblock u.1.superblock) (reopened d c)
    unfolding reopened
    only_shards durable d e may c crash =
        unchanged_superblock doc l ready (reopened d c)
          (λ o n. ap (λ t. t o n) e ∙ still-IsReadable o n) (untouched durable d may c crash)
          (next_superblock u.1.superblock)

    pub next-IsFormatted : IsFormatted (next_superblock u.1.superblock)
    unfolding next_superblock
    next-IsFormatted = record {
      magic = ap (λ t. same t.magic superblock_magic) pass.superblock ∙ ready.formatted.magic;
      version = ap (λ t. t.version) pass.superblock ∙ ready.formatted.version;
      slots = pass.slots ∙ sized;
      alignment =
          λ e. ready.formatted.alignment (sym (ap (λ t. t.block_align) pass.superblock) ∙ e);
    }

    pub all_shards :
        (count : ℕ)
        → u.0 ≡ ok count
        → (j : ℕ) → j < num_shards
        → Stored crc b r u.1.dev.content j
            (slot_at u.1.superblock.shard_slots j)
            (shard_of crc j s.index)
    all_shards count e j p =
        pass.done count e (λ k v w f. ready.synced k (omega arith) f) j (omega arith) (omega arith)

    -- The new superblock after all shards.
    module _ (count : ℕ) (succeeded : u.0 ≡ ok count) (d : DeviceIo)
        (sync_content : d.content ≡ u.1.dev.content)
        (sync_unreadable : d.unreadable ≡ u.1.dev.unreadable) (whole : IsSynced d) (new : Bytes)
        (encoded : Codec.to_bytes crc b (next_superblock u.1.superblock) ≡ ok new) where
      pub block_reads :
          (length new ≡ superblock_size)
          × ((c : ℕ) × (Codec.from_bytes crc b new
                ≡ ok (with_checksum (next_superblock u.1.superblock) c)))
      block_reads =
          to_bytes-reads crc b word (next_superblock u.1.superblock)
            (doc.lays_out (next_superblock u.1.superblock) next-IsFormatted) next-IsFormatted new
            encoded

      pub double : IsDouble d new old (write_both d new)
      double =
          let (first, second) = old_copies doc l ready d.content (λ x side h.
            ap (λ t. t x) sync_content ∙ pass.content x (λ j p q. h j (omega arith))) in
          write_both-IsDouble d whole new old block_reads.0 first second

      pub double-IsReadable : IsReadable (write_both d new).1
      double-IsReadable o n =
          ap (λ t. t o n) (double.unreadable ∙ sync_unreadable) ∙ still-IsReadable o n

      with_superblock :
          (c : ℕ → ℕ)
          → Crashed (write_both d new).1 c
          → AfterFlush crc b r size sb old index s
              (next_superblock u.1.superblock)
              (reopened (write_both d new).1 c)
      unfolding reopened
      with_superblock c crash =
          let quiet : (x : ℕ) → data_start ≤ x → c x ≡ u.1.dev.content x =
            λ x p. double.quiet c crash x (omega arith) ∙ ap (λ t. t x) sync_content in
          copies-AfterFlush doc l ready u.1 pass.superblock block_reads.1.0 new encoded
            block_reads.1.1 (reopened (write_both d new).1 c) double-IsReadable
            (λ x p h.
              let low = l.start in
              quiet x (omega arith) ∙ pass.content x (λ j v w. h j (omega arith)))
            (new_slots doc l ready u.1 pass.superblock c quiet (all_shards count succeeded))
            (double.copies c crash)

    module _ (durable : IsDurable r s.dev) (count : ℕ) (succeeded : u.0 ≡ ok count) (d : DeviceIo)
        (sync_content : d.content ≡ u.1.dev.content)
        (sync_unreadable : d.unreadable ≡ u.1.dev.unreadable)
        (sync_may : (x v : ℕ) → may_hold d x v ≡ true → may_hold u.1.dev x v ≡ true)
        (whole : IsSynced d) where
      -- After any crash of the device `e`.
      abbrev Recovers : DeviceIo → Type 0
      Recovers e =
          (c : ℕ → ℕ)
          → Crashed e c
          → AfterFlush crc b r size sb old index s (next_superblock u.1.superblock) (reopened e c)

      after_superblock : Recovers (commit_superblock crc b r count (record u.1 { dev = d })).1.dev
      unfolding commit_superblock
      after_superblock = go (Codec.to_bytes crc b (next_superblock u.1.superblock)) refl
        where
          next : Inner
          next = record u.1 { dev = d; superblock = next_superblock u.1.superblock }

          done :
              (w : Result (Unit {0}) × DeviceIo)
              → Recovers w.1
              → Recovers (committed count next w).1.dev
          done (err e, d1) h = h
          done (ok _, d1) h = h

          go :
              (o : Result Bytes)
              → Codec.to_bytes crc b (next_superblock u.1.superblock) ≡ o
              → Recovers (commit_encoded count next o).1.dev
          go (err e) f = only_shards durable d sync_unreadable sync_may
          go (ok new) f =
              done (write_both d new)
                (with_superblock count succeeded d sync_content sync_unreadable whole new f)

  after_commit :
      IsDurable r s.dev
      → (u : Result ℕ × Inner) → IsPass crc b r l.small doc.writes num_shards 0 s u
      → (c : ℕ → ℕ) → Crashed (commit crc b r u).1.dev c
      → AfterFlush crc b r size sb old index s
          (next_superblock u.1.superblock)
          (reopened (commit crc b r u).1.dev c)
  unfolding commit
  after_commit durable (err e, s1) pass = only_shards pass durable s1.dev refl (λ x v h. h)
  after_commit durable (ok count, s1) pass = go (sync s1.dev) (sync-IsSync s1.dev)
    where
      go :
          (y : Result (Unit {0}) × DeviceIo)
          → IsSync s1.dev y
          → (c : ℕ → ℕ) → Crashed (commit_synced crc b r count s1 y).1.dev c
          → AfterFlush crc b r size sb old index s
              (next_superblock s1.superblock)
              (reopened (commit_synced crc b r count s1 y).1.dev c)
      go (err e, d) h = only_shards pass durable d h.unreadable h.may
      go (ok _, d) h =
          after_superblock pass durable count refl d h.content h.unreadable h.may (h.done refl)

  -- Wherever a flush of a store that is ready ends, by success, by an error or by a write or sync that
  -- stopped, and whichever bytes of the writes that no sync has followed a crash then loses, reading the
  -- device (`load`, the first part of `open_impl`) gives the index that was committed before or the index
  -- of the store, or one of the superblock blocks on the device mixes bytes of the old block with bytes of
  -- the one that this flush writes, is neither of the two, and passes its checksum. Before the flush, what
  -- was written outside the data area is durable. `crc` fits a u32, and the crate bincode is as
  -- documented.
  pub flush_index-AfterFlush :
      IsDurable r s.dev
      → (c : ℕ → ℕ) → Crashed (flush_index crc b r s).1.dev c
      → AfterFlush crc b r size sb old index s
          (next_superblock (flush_shards crc b r num_shards 0 0 s).1.superblock)
          (reopened (flush_index crc b r s).1.dev c)
  unfolding flush_index reopened
  flush_index-AfterFlush durable = go s.ro
    where
      after_shards : Superblock
      after_shards = next_superblock (flush_shards crc b r num_shards 0 0 s).1.superblock

      flushed : Bool → Inner
      flushed t =
          (if t
            then (err read_only, s)
            else commit crc b r (flush_shards crc b r num_shards 0 0 s)).1

      go :
          (t : Bool) (c : ℕ → ℕ)
          → Crashed (flushed t).dev c
          → AfterFlush crc b r size sb old index s after_shards (reopened (flushed t).dev c)
      go true c crash =
          unchanged_superblock doc l ready (reopened s.dev c) ready.readable
            (λ x side h. durable x (c x) side (crash x)) after_shards
      go false c crash =
          after_commit durable (flush_shards crc b r num_shards 0 0 s)
            (flush_shards-IsPass crc b r l doc.writes num_shards 0 0 s (omega arith) sized) c crash
