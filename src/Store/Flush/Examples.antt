-- ===== src/Store/Flush/Examples.antt =====
-- A small device with one dirty shard, for the flush of rawobjstr/src/store.rs.
use mathlib.Core.Path.{subst}
use objstr.Base.{
  ℕ, zero, suc, ◌+◌, ◌%◌, ◌^◌, ◌≤◌, ◌<◌, ◌≡◌, refl, sym, ap, ◌∙◌, true, false, inl, inr, none, some,
  [], ◌∷◌, ◌++◌, ◌==◌, length, replicate, length-replicate, set, arith, Bool-cases, ltb, leb, ◌&&◌,
  not,
}
use objstr.RawError.{Bytes, ok, superblock_size, num_shards}
use objstr.Dict.{lookup, same}
use objstr.Extent.{to_le_bytes}
use objstr.Index.{ExtentInfo, DeviceIndex, new_index}
use objstr.Superblock.{Superblock, superblock_magic, default_slot}
use objstr.Superblock.Codec.RoundTrip.{IsFormatted, from_bytes-to_bytes_superblock}
use objstr.Superblock.Codec.{to_bytes, from_bytes}
use objstr.Bincode.{with_checksum}
use objstr.RawError.{min_device_size, data_start}
use objstr.Device.{overlay, bytes_at, pwrite, sync}
use objstr.Index.Shards
use objstr.Device.ReadWrite.{bytes_at-cong, bytes_at-overlay, overlay-outside}
use objstr.Compression.{Compression}
use objstr.Index.{shard_for_key}
use objstr.Index.Shards.{shard_of, bucket}
use objstr.Alloc.{from_free_list}
use objstr.Alloc.Shape.{covers}
use objstr.Store.Tidy.{IsTidy}
use objstr.Store.Open.{load, rebuild_free_list, used_extents}
use objstr.Store.Open.Rebuilt.{AreExtents, rebuild_free_list-IsTidy}
use objstr.Extent.{num_blocks}
use objstr.Alloc.{ExtentAllocator}
use objstr.Store.{Env, do_put_with_meta}
use objstr.Store.Put.{IsTidyStore}
use objstr.Store.Examples.{no_codecs, no_codecs_law}
use objstr.Store.Flush.Dirty.{with_allocator, do_put_with_meta-IsReady}
use objstr.Store.{Inner}
use objstr.Store.Open.{regions, capacity_of}
use objstr.Store.Flush.{Regions, flag_at, slot_at, flush_index, flush_shards, next_superblock}
use objstr.Store.Flush.Slots.{IsLayout}
use objstr.Store.Flush.Keeps.{do_put_with_meta-IsDurable}
use objstr.Device.{DeviceIo, whole, stops_after, may_hold, was, Crashed, reopened}
use objstr.Store.Flush.Crash.{IsReady, IsDurable, AfterFlush}
use objstr.Store.Flush.Atomic.{flush_index-AfterFlush}
use objstr.Store.Flush.Success.{flush_index-IsReady, load-flush_index}
use objstr.Store.Flush.Encoding.{
  head_of, tail_of, encoding, encoding-IsLaidOut, encoding-IsDocumented,
}

-- In place of the checksum.
abbrev sum : Bytes → ℕ
sum [] = 0
sum (x ∷ r) = x + sum r

abbrev toy_crc : Bytes → ℕ
toy_crc x = sum x % 2 ^ 32

toy_crc-fits : (x : Bytes) → toy_crc x < 2 ^ 32
toy_crc-fits x = omega arith

abbrev device_size : ℕ
device_size = 24576

abbrev layout : Regions
layout = record { index_region_a = 16384; index_region_b = 20480; shard_slot_size = 16 }

layout-IsLayout : IsLayout layout
layout-IsLayout = record { start = omega arith; second = omega arith; small = omega arith }

abbrev fresh : Superblock
fresh = record {
  magic = superblock_magic;
  version = 4;
  flags = 0;
  device_size = device_size;
  block_align = 4096;
  index_region_offset = 16384;
  index_region_bytes = 0;
  txn_id = 0;
  index_checksum = 0;
  superblock_checksum = 0;
  prev_index_offset = 16384;
  prev_index_size = 0;
  prev_txn_id = 0;
  prev_index_checksum = 0;
  index_slot_capacity = 4096;
  shard_slots = replicate num_shards default_slot;
  max_key_length = 16;
  compression = 0;
}

fresh-IsFormatted : IsFormatted fresh
unfolding same
fresh-IsFormatted = record {
  magic = refl;
  version = refl;
  slots = length-replicate num_shards default_slot;
  alignment = λ e. absurd (omega arith);
}

fresh-fits : length (head_of fresh ++ (to_le_bytes 0 ++ tail_of fresh)) ≤ superblock_size
unfolding to_le_bytes
fresh-fits =
    let e : length (head_of fresh ++ (to_le_bytes 0 ++ tail_of fresh)) ≡ 795 = refl in
    omega (arith, e)

fresh_block :
    (buf : Bytes) × (c : ℕ) × (to_bytes toy_crc encoding fresh ≡ ok buf)
    × (length buf ≡ superblock_size)
    × (from_bytes toy_crc encoding buf ≡ ok (with_checksum fresh c))
unfolding encoding-IsLaidOut
fresh_block =
    from_bytes-to_bytes_superblock toy_crc encoding toy_crc-fits fresh
      (encoding-IsLaidOut fresh fresh-IsFormatted) fresh-IsFormatted fresh-fits

abbrev file : ExtentInfo
file = record {
  offset = 8192;
  size = 3;
  padded_size = 4096;
  crc32c = 6;
  created_txn = 0;
  last_modified = 1;
  meta_len = 0;
  uncompressed_size = 0;
}

abbrev one_file : DeviceIndex
one_file = record { files = (7 ∷ [], file) ∷ []; tombstones = [] }

-- A fresh device whose store has put one file, into shard 7.
unfoldable store_on : Bytes → Inner
store_on block = record {
  dev = record {
    content = overlay block superblock_size (overlay block 0 (λ x. 0));
    unsynced = [];
    answers = [];
    unreadable = λ o n. false;
    ro = false;
  };
  index = one_file;
  allocator = none;
  superblock = fresh;
  dirty = true;
  ro = false;
  shard_dirty = set (replicate num_shards false) 7 true;
  last_flush_bytes = 0;
  max_key_length = 16;
  compression = Compression.none;
}

clean-other :
    (j : ℕ) → flag_at (set (replicate num_shards false) 7 true) j ≡ false → (7 == j) ≡ false
unfolding flag_at
clean-other j h = elim (Bool-cases (7 == j)) [
  | inl e ↦
      let same_shard : 7 ≡ j = ground arith in
      cc (
        subst (λ t. flag_at (set (replicate num_shards false) 7 true) t ≡ false) (sym same_shard) h)
  | inr e ↦ e
]

default_slots : (n j : ℕ) → slot_at (replicate n default_slot) j ≡ default_slot
unfolding slot_at
default_slots zero j = refl
default_slots (suc n) zero = refl
default_slots (suc n) (suc j) = default_slots n j

store-IsReady :
    (block : Bytes) (c : ℕ)
    → length block ≡ superblock_size
    → from_bytes toy_crc encoding block ≡ ok (with_checksum fresh c)
    → IsReady toy_crc encoding layout device_size
        (with_checksum fresh c)
        block
        new_index
        (store_on block)
unfolding store_on shard_of regions capacity_of min_device_size bucket shard_for_key
store-IsReady block c long parsed = record {
  committed = record {
    first =
        ap (bytes_at (overlay block superblock_size (overlay block 0 (λ x. 0))) 0) (sym long)
        ∙ bytes_at-cong (overlay block superblock_size (overlay block 0 (λ x. 0)))
            (overlay block 0 (λ x. 0)) 0 (length block)
            (λ x p q.
              overlay-outside block superblock_size x (overlay block 0 (λ x. 0))
                (inl (omega arith)))
        ∙ bytes_at-overlay block 0 (λ x. 0);
    second =
        ap (bytes_at (overlay block superblock_size (overlay block 0 (λ x. 0))) superblock_size)
          (sym long)
        ∙ bytes_at-overlay block superblock_size (overlay block 0 (λ x. 0));
    parsed = parsed;
    place = refl;
    enough = omega arith;
    stored = λ j p. inl (ap (λ m. m.size) (default_slots num_shards j), refl);
  };
  readable = λ o n. refl;
  formatted = fresh-IsFormatted;
  slots = refl;
  txn = refl;
  capacity = refl;
  active = λ j p. rw (default_slots num_shards j) (omega arith);
  synced = λ j p h. inl (ap (λ m. m.size) (default_slots num_shards j), rw (clean-other j h) refl);
}

abbrev block_0 : Bytes
block_0 = fresh_block.0

abbrev committed_0 : Superblock
committed_0 = with_checksum fresh fresh_block.1

store_0-IsReady :
    IsReady toy_crc encoding layout device_size committed_0 block_0 new_index (store_on block_0)
store_0-IsReady = store-IsReady block_0 fresh_block.1 fresh_block.3 fresh_block.4

store_0-flushes : (flush_index toy_crc encoding layout (store_on block_0)).0 ≡ ok tt
unfolding flush_index store_on Shards.to_bytes shard_of pwrite sync to_bytes to_le_bytes
    shard_for_key
store_0-flushes = refl

-- The same store on a device that stops the first write of the superblock after ten bytes.
abbrev stopping : Inner
unfolding store_on
stopping = record (store_on block_0) {
  dev = record (store_on block_0).dev { answers = whole ∷ whole ∷ stops_after 10 ∷ [] };
}

stopping-IsReady :
    IsReady toy_crc encoding layout device_size committed_0 block_0 new_index stopping
unfolding store_on
stopping-IsReady =
    let x = store_0-IsReady in
    record {
      committed = x.committed;
      readable = x.readable;
      formatted = x.formatted;
      slots = x.slots;
      txn = x.txn;
      capacity = x.capacity;
      active = x.active;
      synced = x.synced;
    }

stopping-IsDurable : IsDurable layout stopping.dev
unfolding store_on may_hold was
stopping-IsDurable x v side h = ground arith

-- A crash may also lose nothing.
nothing_lost : (d : DeviceIo) → Crashed d d.content
unfolding may_hold
nothing_lost d x = ground arith

flush_index-AfterFlush_example :
    let t = flush_index toy_crc encoding layout stopping in
    AfterFlush toy_crc encoding layout device_size committed_0 block_0 new_index stopping
      (next_superblock (flush_shards toy_crc encoding layout num_shards 0 0 stopping).1.superblock)
      (reopened t.1.dev t.1.dev.content)
flush_index-AfterFlush_example =
    flush_index-AfterFlush toy_crc-fits encoding-IsDocumented layout-IsLayout stopping-IsReady
      stopping-IsDurable (flush_index toy_crc encoding layout stopping).1.dev.content
      (nothing_lost (flush_index toy_crc encoding layout stopping).1.dev)

flush_index-IsReady_example :
    let t = flush_index toy_crc encoding layout (store_on block_0) in
    (c : ℕ) × ((block : Bytes) × (IsReady toy_crc encoding layout device_size
          (with_checksum t.1.superblock c)
          block
          one_file
          t.1
        × IsDurable layout t.1.dev
        × (t.1.index ≡ one_file)
        × ((with_checksum t.1.superblock c).txn_id ≡ 0 + 1)))
unfolding store_on
flush_index-IsReady_example =
    flush_index-IsReady toy_crc-fits encoding-IsDocumented layout-IsLayout store_0-IsReady
      store_0-flushes

load-flush_index_example :
    (next : Superblock) × ((loaded : DeviceIndex) × ((load toy_crc encoding
            (flush_index toy_crc encoding layout (store_on block_0)).1.dev
            device_size
          ≡ ok (next, layout, loaded))
        × ((k : Bytes)
            → (lookup k loaded.files ≡ lookup k one_file.files)
              × (lookup k loaded.tombstones ≡ lookup k one_file.tombstones))))
unfolding store_on lookup
load-flush_index_example =
    load-flush_index toy_crc-fits encoding-IsDocumented layout-IsLayout store_0-IsReady (refl, tt)
      tt store_0-flushes

from_bytes-to_bytes_superblock_example :
    (buf : Bytes) × (c : ℕ) × (to_bytes toy_crc encoding fresh ≡ ok buf)
    × (length buf ≡ superblock_size)
    × (from_bytes toy_crc encoding buf ≡ ok (with_checksum fresh c))
unfolding encoding-IsLaidOut
from_bytes-to_bytes_superblock_example =
    from_bytes-to_bytes_superblock toy_crc encoding toy_crc-fits fresh
      (encoding-IsLaidOut fresh fresh-IsFormatted) fresh-IsFormatted fresh-fits

file-AreExtents : AreExtents 16384 one_file.files
unfolding num_blocks
file-AreExtents = (
  record {
    aligned = omega arith;
    start = omega arith;
    inside = omega arith;
    blocks = omega arith;
    some_bytes = omega arith;
  },
  tt,
  tt,
)

rebuild_free_list-IsTidy_example :
    let a = from_free_list (rebuild_free_list one_file 16384).1 data_start 16384 in
    IsTidy 16384 a one_file.files
    × ((x : ℕ)
        → covers x a.free_list
          ≡ (leb data_start x && ltb x 16384 && not (covers x (used_extents 16384 one_file.files))))
rebuild_free_list-IsTidy_example =
    rebuild_free_list-IsTidy 16384 one_file (omega arith) (omega arith) file-AreExtents

abbrev flush_env : Env
flush_env = record { crc = toy_crc; crc_append = λ c x. c; codecs = no_codecs }

abbrev free_part : ExtentAllocator
free_part = from_free_list (rebuild_free_list one_file 16384).1 data_start 16384

-- The store with the free list of the device.
abbrev with_space : Inner
with_space = record (store_on block_0) { allocator = some free_part }

with_space-IsReady :
    IsReady flush_env.crc encoding layout device_size committed_0 block_0 new_index with_space
with_space-IsReady =
    with_allocator flush_env layout-IsLayout store_0-IsReady store_0-IsReady (some free_part)

with_space-IsTidy : IsTidyStore 16384 with_space
unfolding store_on
with_space-IsTidy =
    (rebuild_free_list-IsTidy 16384 one_file (omega arith) (omega arith) file-AreExtents).0

flags_0 : length with_space.shard_dirty ≡ num_shards
unfolding store_on
flags_0 = refl

do_put_with_meta-IsReady_example :
    IsReady flush_env.crc encoding layout device_size committed_0 block_0 new_index
      (do_put_with_meta flush_env (9 ∷ []) (1 ∷ 2 ∷ []) 0 3 with_space).1
do_put_with_meta-IsReady_example =
    do_put_with_meta-IsReady flush_env layout-IsLayout with_space-IsReady flags_0 (9 ∷ [])
      (1 ∷ 2 ∷ []) 0 3 no_codecs_law with_space-IsTidy

with_space-IsDurable : IsDurable layout with_space.dev
unfolding store_on may_hold was
with_space-IsDurable x v side h = ground arith

do_put_with_meta-IsDurable_example :
    IsDurable layout (do_put_with_meta flush_env (9 ∷ []) (1 ∷ 2 ∷ []) 0 3 with_space).1.dev
do_put_with_meta-IsDurable_example =
    do_put_with_meta-IsDurable flush_env layout with_space with_space-IsDurable (9 ∷ [])
      (1 ∷ 2 ∷ []) 0 3 no_codecs_law with_space-IsTidy
