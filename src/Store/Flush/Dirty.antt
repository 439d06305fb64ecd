-- ===== src/Store/Flush/Dirty.antt =====
-- The dirty flags of rawobjstr/src/store.rs: an operation that changes the index marks the shard.
use mathlib.Core.Path.{subst, ap₂}
use objstr.Base.{
  ℕ, zero, suc, ◌+◌, ◌*◌, ◌⊎◌, ◌≤◌, ◌<◌, ◌≡◌, refl, sym, ap, ◌∙◌, Bool, true, false, inl, inr, List,
  [], ◌∷◌, ◌==◌, length, set, arith, Bool-cases, if◌then◌else◌, Option, none, some,
}
use objstr.RawError.{Bytes, Result, ok, err, read_only, num_shards, data_start, superblock_size}
use objstr.Dict.{Dict, lookup, remove, insert, same, same_iff}
use objstr.Index.{shard_for_key, ExtentInfo, DeviceIndex, ShardData}
use objstr.Index.Shards.{bucket, shard_of}
use objstr.Superblock.{Superblock, ShardSlotMeta}
use objstr.Bincode.{Bincode}
use objstr.Store.{Env, Inner, delete, mark_shard_dirty, release_old, record_file}
use objstr.Store.Flush.{Regions, slot_at, flag_at}
use objstr.Store.Flush.Stored.{Stored, Stored-keeps}
use objstr.Store.Flush.Slots.{IsLayout, slot_offset-above}
use objstr.Device.{DeviceIo}
use objstr.Device.ReadWrite.{bytes_at-cong}
use objstr.Alloc.{ExtentAllocator}
use objstr.RawError.{block_alignment}
use objstr.Extent.{num_blocks, encode_blocks}
use objstr.Extent.Batched.{Written}
use objstr.Extent.Encode.{length-encode_range}
use objstr.Store.Write.{write_extent-Written, forget}
use objstr.Store.{put_at, write_extent, release, stored_form, do_put_with_meta}
use objstr.Store.Tidy.{IsTidy, alloc-fresh}
use objstr.Store.Put.{Tidy, IsTidyStore, padded-IsSize}
use objstr.Store.Start.{Start, refused, begun, do_put-Start, stored_form-Restores}
use objstr.Compression.RoundTrip.{IsCodec}
use objstr.Store.Flush.Crash.{IsReady, IsCommitted}
use objstr.Superblock.Codec.RoundTrip.{IsFormatted}

bucket-remove :
    {V : Type 0} (crc : Bytes → ℕ) (i : ℕ) (key : Bytes) (m : Dict V)
    → (shard_for_key crc key == i) ≡ false
    → bucket crc i (remove key m) ≡ bucket crc i m
unfolding bucket remove
bucket-remove crc i key [] h = refl
bucket-remove crc i key ((k, v) ∷ m) h = elim (Bool-cases (same k key)) [
  | inl e ↦
      let same_key : k ≡ key = (same_iff k key).0 e in
      let out : (shard_for_key crc k == i) ≡ false =
        subst (λ t. (shard_for_key crc t == i) ≡ false) (sym same_key) h in
      rw (e, out) (bucket-remove crc i key m h)
  | inr e ↦ rw (e, bucket-remove crc i key m h) refl
]

bucket-insert :
    {V : Type 0} (crc : Bytes → ℕ) (i : ℕ) (key : Bytes) (v : V) (m : Dict V)
    → (shard_for_key crc key == i) ≡ false
    → bucket crc i (insert key v m) ≡ bucket crc i m
unfolding bucket insert
bucket-insert crc i key v m h = rw h (bucket-remove crc i key m h)

flag_at-set :
    (l : List Bool) (i j : ℕ)
    → i < length l
    → flag_at (set l i true) j ≡ (if i == j then true else flag_at l j)
unfolding flag_at
flag_at-set [] i j h = absurd (omega arith)
flag_at-set (x ∷ l) zero zero h = refl
flag_at-set (x ∷ l) zero (suc j) h = ground arith
flag_at-set (x ∷ l) (suc i) zero h = ground arith
flag_at-set (x ∷ l) (suc i) (suc j) h = flag_at-set l i j (omega arith) ∙ ground arith

module _ (env : Env) {b : Bincode} {r : Regions} {size : ℕ} {sb : Superblock} {old : Bytes}
    {index : DeviceIndex} {s : Inner} (ready : IsReady env.crc b r size sb old index s)
    (flags : length s.shard_dirty ≡ num_shards) where
  -- A change of the index that touches only the shard of the key, which is marked.
  changed-IsReady :
      (key : Bytes) (t : Inner)
      → t.dev ≡ s.dev
      → t.superblock ≡ s.superblock
      → t.shard_dirty ≡ set s.shard_dirty (shard_for_key env.crc key) true
      → ((j : ℕ)
          → (shard_for_key env.crc key == j) ≡ false
          → shard_of env.crc j t.index ≡ shard_of env.crc j s.index)
      → IsReady env.crc b r size sb old index t
  unfolding shard_for_key
  changed-IsReady key t d h f same_shards = record {
    committed =
        subst (λ x. IsCommitted env.crc b r size sb old index x.content) (sym d) ready.committed;
    readable = λ o n. ap (λ x. x.unreadable o n) d ∙ ready.readable o n;
    formatted = subst IsFormatted (sym h) ready.formatted;
    slots = ready.slots ∙ ap (λ x. x.shard_slots) (sym h);
    txn = ready.txn ∙ ap (λ x. x.txn_id) (sym h);
    capacity = ready.capacity ∙ ap (λ x. x.index_slot_capacity) (sym h);
    active = ready.active;
    synced = λ j p e.
        let flag : (if shard_for_key env.crc key == j then true else flag_at s.shard_dirty j)
            ≡ false =
          sym (flag_at-set s.shard_dirty (shard_for_key env.crc key) j (omega (arith, flags)))
          ∙ ap (λ x. flag_at x j) (sym f)
          ∙ e in
        let other : (shard_for_key env.crc key == j) ≡ false = ground arith in
        let clean : flag_at s.shard_dirty j ≡ false = ground arith in
        subst
          (λ x.
            Stored env.crc b r x.content j (slot_at t.superblock.shard_slots j)
              (shard_of env.crc j t.index))
          (sym d)
          (subst
            (λ x.
              Stored env.crc b r s.dev.content j (slot_at x.shard_slots j)
                (shard_of env.crc j t.index))
            (sym h)
            (subst (λ x. Stored env.crc b r s.dev.content j (slot_at s.superblock.shard_slots j) x)
              (sym (same_shards j other)) (ready.synced j p clean)));
  }

  -- A deletion keeps a store ready for the next flush.
  pub delete-IsReady : (key : Bytes) → IsReady env.crc b r size sb old index (delete env key s).1
  unfolding delete mark_shard_dirty shard_of
  delete-IsReady key = go s.ro (lookup key s.index.files)
    where
      go :
          (ro : Bool) (o : Option ExtentInfo)
          → IsReady env.crc b r size sb old index
              (if ro then (err read_only, s) else elim o as (λ _. Result (Unit {0}) × Inner) [
                | none ↦ (ok tt, s)
                | some info ↦
                    let s' : Inner = record s {
                      allocator = release_old (some info) s.allocator;
                      index = record s.index { files = remove key s.index.files };
                      dirty = true;
                    } in
                    (ok tt, mark_shard_dirty env key s')
              ]).1
      go true o = ready
      go false none = ready
      go false (some info) =
          changed-IsReady key
            (mark_shard_dirty env key (record s {
              allocator = release_old (some info) s.allocator;
              index = record s.index { files = remove key s.index.files };
              dirty = true;
            }))
            refl refl refl
            (λ j e.
              ap (λ x. record { files = x; tombstones = bucket env.crc j s.index.tombstones })
                (bucket-remove env.crc j key s.index.files e))

  -- So does the recording of a file.
  pub record_file-IsReady :
      (key : Bytes) (info : ExtentInfo)
      → IsReady env.crc b r size sb old index (record_file env key info s)
  unfolding record_file mark_shard_dirty shard_of
  record_file-IsReady key info =
      changed-IsReady key (record_file env key info s) refl refl refl (λ j e.
        ap (λ x. record { files = x; tombstones = bucket env.crc j s.index.tombstones })
          (bucket-insert env.crc j key info (remove key s.index.files) e
            ∙ bucket-remove env.crc j key s.index.files e))

module _ (env : Env) {b : Bincode} {r : Regions} (l : IsLayout r) {size : ℕ} {sb : Superblock}
    {old : Bytes} {index : DeviceIndex} {s : Inner}
    (ready : IsReady env.crc b r size sb old index s) where
  -- The allocator is not looked at.
  pub with_allocator :
      {t : Inner}
      → IsReady env.crc b r size sb old index t
      → (o : Option ExtentAllocator)
      → IsReady env.crc b r size sb old index (record t { allocator = o })
  with_allocator x o = record {
    committed = x.committed;
    readable = x.readable;
    formatted = x.formatted;
    slots = x.slots;
    txn = x.txn;
    capacity = x.capacity;
    active = x.active;
    synced = x.synced;
  }

  -- A write inside the data area keeps a store ready.
  data-IsReady :
      (d : DeviceIo)
      → d.unreadable ≡ s.dev.unreadable
      → ((x : ℕ) → (x < data_start) ⊎ (r.index_region_a ≤ x) → d.content x ≡ s.dev.content x)
      → IsReady env.crc b r size sb old index (record s { dev = d })
  data-IsReady d h same_bytes = record {
    committed = record {
      first =
          bytes_at-cong d.content s.dev.content 0 superblock_size
            (λ x p q. same_bytes x (inl (omega arith)))
          ∙ ready.committed.first;
      second =
          bytes_at-cong d.content s.dev.content superblock_size superblock_size
            (λ x p q. same_bytes x (inl (omega arith)))
          ∙ ready.committed.second;
      parsed = ready.committed.parsed;
      place = ready.committed.place;
      enough = ready.committed.enough;
      stored = λ j p.
          kept j (slot_at sb.shard_slots j) (shard_of env.crc j index) (ready.committed.stored j p);
    };
    readable = λ o n. ap (λ t. t o n) h ∙ ready.readable o n;
    formatted = ready.formatted;
    slots = ready.slots;
    txn = ready.txn;
    capacity = ready.capacity;
    active = ready.active;
    synced = λ j p e.
        kept j (slot_at s.superblock.shard_slots j) (shard_of env.crc j s.index)
          (ready.synced j p e);
  }
    where
      kept :
          (j : ℕ) (m : ShardSlotMeta) (shard : ShardData)
          → Stored env.crc b r s.dev.content j m shard
          → Stored env.crc b r d.content j m shard
      kept j m shard = Stored-keeps env.crc b r s.dev.content d.content j m shard (λ x lo hi.
          same_bytes x (inr (let low = slot_offset-above r l m.active_slot j in omega arith)))

  module _ (flags : length s.shard_dirty ≡ num_shards) where
    -- After the extent at `off` is allocated, whatever the write gives.
    put_at-IsReady :
        (key p : Bytes) (unc padded meta_len now off : ℕ) (a : ExtentAllocator)
        → padded ≡ num_blocks (length p) * block_alignment
        → data_start ≤ off
        → off + padded ≤ r.index_region_a
        → IsReady env.crc b r size sb old index (put_at env s key p unc padded meta_len now off a).1
    unfolding put_at record_file mark_shard_dirty shard_of encode_blocks
    put_at-IsReady key p unc padded meta_len now off a blocks low high =
        go (write_extent env s.dev off p) (write_extent-Written env s.dev off p)
      where
        info : ℕ → ExtentInfo
        info crc = record {
          offset = off;
          size = length p;
          padded_size = padded;
          crc32c = crc;
          created_txn = s.superblock.txn_id;
          last_modified = now;
          meta_len = meta_len;
          uncompressed_size = unc;
        }

        recorded : ℕ → DeviceIo → Inner
        recorded crc d = record_file env key (info crc) (record s {
          dev = d;
          allocator = some a;
          index = record s.index { tombstones = remove key s.index.tombstones };
        })

        ready_at :
            (w : Result ℕ × DeviceIo)
            → Written off (encode_blocks env.crc p) s.dev (forget w.0, w.1)
            → IsReady env.crc b r size sb old index (record s { dev = w.1 })
        ready_at w h = data-IsReady w.1 h.unreadable (λ x side. h.frame x (
            let long = length-encode_range env.crc p 0 (num_blocks (length p)) in
            omega (arith, side, blocks, long)))

        go :
            (w : Result ℕ × DeviceIo)
            → Written off (encode_blocks env.crc p) s.dev (forget w.0, w.1)
            → IsReady env.crc b r size sb old index
                (elim w.0 as (λ _. Result (Unit {0}) × Inner) [
                  | err e ↦ (err e, record s { dev = w.1; allocator = release (some a) off padded })
                  | ok crc ↦ (ok tt, recorded crc w.1)
                ]).1
        go (err e, d) h = with_allocator (ready_at (err e, d) h) (release (some a) off padded)
        go (ok crc, d) h =
            changed-IsReady env (ready_at (ok crc, d) h) flags key (recorded crc d) refl refl refl
              (λ j e.
                ap₂ (λ x y. record { files = x; tombstones = y })
                  (bucket-insert env.crc j key (info crc) (remove key s.index.files) e
                    ∙ bucket-remove env.crc j key s.index.files e)
                  (bucket-remove env.crc j key s.index.tombstones e))

    -- A put keeps a store ready for the next flush, on success, on a refusal, and where the device fails
    -- half way: the committed index stays on the device, and the shard of the key is marked dirty. The
    -- files are tidy below the index regions, and no codec turns data into nothing.
    pub do_put_with_meta-IsReady :
        (key payload : Bytes) (meta_len now : ℕ)
        → IsCodec env.codecs
        → IsTidyStore r.index_region_a s
        → IsReady env.crc b r size sb old index (do_put_with_meta env key payload meta_len now s).1
    do_put_with_meta-IsReady key payload meta_len now laws t =
        go (do_put_with_meta env key payload meta_len now s)
          (do_put-Start env key payload meta_len now s)
      where
        go :
            (u : Result (Unit {0}) × Inner)
            → Start env key payload meta_len now s u
            → IsReady env.crc b r size sb old index u.1
        go u (refused e) = ready
        go u (begun padded off a a' pos q fits done) =
            let form = stored_form env s.compression payload in
            let (blocks, whole) =
              padded-IsSize (length form.0) padded
                (stored_form-Restores env laws s.compression payload pos).0 fits in
            let tidy : IsTidy r.index_region_a a s.index.files =
              subst (λ o. Tidy r.index_region_a o s.index.files) q t in
            let f = alloc-fresh tidy whole (omega (arith, blocks)) done in
            put_at-IsReady key form.0 form.1 padded meta_len now off a' blocks f.1 f.2
