-- ===== src/Store/Flush/Encoding.antt =====
-- An encoding in place of the crate bincode, for the tests of the flush of rawobjstr/src/store.rs.
use mathlib.Core.Path.{subst}
use objstr.Base.{
  ℕ, zero, suc, ◌+◌, ◌*◌, ◌%◌, ◌/◌, ◌<◌, ◌≡◌, refl, sym, ap, none, some, List, [], ◌∷◌, ◌++◌,
  length, take, drop, get_elem?, arith,
}
use objstr.RawError.{Bytes, Result, ok, err, io, num_shards}
use objstr.Dict.{Dict, same→≡}
use objstr.Extent.{to_le_bytes, from_le_bytes}
use objstr.Index.{ExtentInfo, TombstoneInfo, ShardData}
use objstr.Superblock.{Superblock, ShardSlotMeta, superblock_magic}
use objstr.Superblock.Codec.RoundTrip.{IsFormatted}
use objstr.Bincode.{Bincode, IsLaidOut, with_checksum}
use objstr.Store.Flush.Crash.{IsDocumented}

abbrev nth : ℕ → Bytes → ℕ
nth i bytes = elim (get_elem? bytes i) [ none ↦ 0 | some x ↦ x ]

abbrev flat_slots : List ShardSlotMeta → Bytes
flat_slots [] = []
flat_slots (m ∷ r) = m.active_slot ∷ m.size ∷ m.crc ∷ flat_slots r

abbrev read_slots : ℕ → Bytes → List ShardSlotMeta
read_slots zero bytes = []
read_slots (suc n) (a ∷ s ∷ c ∷ rest) =
    record { active_slot = a; size = s; crc = c } ∷ read_slots n rest
read_slots (suc n) _ = []

pub read-flat_slots :
    (l : List ShardSlotMeta) (rest : Bytes) → read_slots (length l) (flat_slots l ++ rest) ≡ l
read-flat_slots [] rest = refl
read-flat_slots (m ∷ l) rest = ap (λ t. m ∷ t) (read-flat_slots l rest)

abbrev pub head_of : Superblock → Bytes
head_of s =
    s.magic
    ++ s.version ∷ s.flags ∷ s.device_size ∷ s.block_align ∷ s.index_region_offset
      ∷ s.index_region_bytes ∷ s.txn_id ∷ s.index_checksum ∷ []

abbrev pub tail_of : Superblock → Bytes
tail_of s =
    s.prev_index_offset
    ∷ s.prev_index_size
    ∷ s.prev_txn_id
    ∷ s.prev_index_checksum
    ∷ s.index_slot_capacity
    ∷ s.max_key_length
    ∷ s.compression
    ∷ flat_slots s.shard_slots

abbrev read_superblock_fields : Bytes → Superblock
read_superblock_fields x = record {
  magic = take 8 x;
  version = nth 8 x;
  flags = nth 9 x;
  device_size = nth 10 x;
  block_align = nth 11 x;
  index_region_offset = nth 12 x;
  index_region_bytes = nth 13 x;
  txn_id = nth 14 x;
  index_checksum = nth 15 x;
  superblock_checksum = from_le_bytes (take 4 (drop 16 x));
  prev_index_offset = nth 20 x;
  prev_index_size = nth 21 x;
  prev_txn_id = nth 22 x;
  prev_index_checksum = nth 23 x;
  index_slot_capacity = nth 24 x;
  max_key_length = nth 25 x;
  compression = nth 26 x;
  shard_slots = read_slots num_shards (drop 27 x);
}

-- A shard of at most one file with a key of one byte; others are refused.
abbrev shard_bytes : Dict ExtentInfo → Dict TombstoneInfo → Result Bytes
shard_bytes [] [] = ok (0 ∷ [])
shard_bytes ((k ∷ [], e) ∷ []) [] = ok (
    1 ∷ k ∷ e.offset ∷ e.size ∷ e.padded_size ∷ e.crc32c ∷ e.created_txn ∷ e.last_modified
    ∷ e.meta_len ∷ e.uncompressed_size ∷ [])
shard_bytes _ _ = err (io "bincode")

abbrev shard_from : Bytes → Result ShardData
shard_from (zero ∷ []) = ok (record { files = []; tombstones = [] })
shard_from (suc n ∷ k ∷ o ∷ s ∷ p ∷ c ∷ t ∷ l ∷ m ∷ u ∷ []) = ok (record {
  files =
      (
        k ∷ [],
        record {
          offset = o;
          size = s;
          padded_size = p;
          crc32c = c;
          created_txn = t;
          last_modified = l;
          meta_len = m;
          uncompressed_size = u;
        },
      )
      ∷ [];
  tombstones = [];
})
shard_from _ = err (io "bincode")

abbrev pub encoding : Bincode
encoding = record {
  superblock_out = λ s. ok (head_of s ++ (to_le_bytes s.superblock_checksum ++ tail_of s));
  superblock_in = λ x. ok (read_superblock_fields x);
  shard_out = λ x. shard_bytes x.files x.tombstones;
  shard_in = shard_from;
}

reads_back :
    (files : Dict ExtentInfo) (tombstones : Dict TombstoneInfo) (bytes : Bytes)
    → shard_bytes files tombstones ≡ ok bytes
    → (shard_from bytes ≡ ok (record { files = files; tombstones = tombstones }))
      × (0 < length bytes)
reads_back [] [] bytes h =
    let e : 0 ∷ [] ≡ bytes = cc in
    subst (λ t. (shard_from t ≡ ok (record { files = []; tombstones = [] })) × (0 < length t)) e
      (refl, omega arith)
reads_back ((k ∷ [], e) ∷ []) [] bytes h =
    let file : 1 ∷ k ∷ e.offset ∷ e.size ∷ e.padded_size ∷ e.crc32c ∷ e.created_txn
          ∷ e.last_modified ∷ e.meta_len ∷ e.uncompressed_size ∷ []
        ≡ bytes =
      cc in
    subst
      (λ t.
        (shard_from t ≡ ok (record { files = (k ∷ [], e) ∷ []; tombstones = [] })) × (0 < length t))
      file (refl, omega arith)
reads_back _ _ bytes h = cc

unfoldable pub encoding-IsLaidOut : (s : Superblock) → IsFormatted s → IsLaidOut encoding s
unfolding to_le_bytes from_le_bytes
encoding-IsLaidOut s f =
    let magic : s.magic ≡ superblock_magic = same→≡ s.magic superblock_magic f.magic in
    record {
      head = head_of s;
      tail = tail_of s;
      out = λ c p. refl;
      into = λ c rest p.
          let word : c % 256
                + 256 * (c / 256 % 256)
                + 65536 * (c / 65536 % 256)
                + 16777216 * (c / 16777216 % 256)
              ≡ c =
            omega arith in
          let slots : read_slots num_shards (flat_slots s.shard_slots ++ rest) ≡ s.shard_slots =
            subst (λ n. read_slots n (flat_slots s.shard_slots ++ rest) ≡ s.shard_slots) f.slots
              (read-flat_slots s.shard_slots rest) in
          subst
            (λ m.
              ok (
                read_superblock_fields
                  (head_of (record s { magic = m }) ++ (to_le_bytes c ++ (tail_of s ++ rest))))
              ≡ ok (record (with_checksum s c) { magic = m }))
            (sym magic)
            (λ i. ok (record s {
              magic = superblock_magic;
              superblock_checksum = word i;
              shard_slots = slots i;
            }));
    }

pub encoding-IsDocumented : IsDocumented encoding
encoding-IsDocumented = record {
  reads = λ x bytes h. (reads_back x.files x.tombstones bytes h).0;
  writes = λ x bytes h. (reads_back x.files x.tombstones bytes h).1;
  lays_out = encoding-IsLaidOut;
}
