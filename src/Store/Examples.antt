-- ===== src/Store/Examples.antt =====
-- The store of rawobjstr/src/store.rs on a small device with one object, under a toy checksum and
-- codecs that compress nothing.
use mathlib.Core.Path.{subst}
use objstr.Base.{
  ℕ, ◌+◌, ◌*◌, ◌%◌, ◌^◌, ◌<◌, ◌≡◌, ◌≢◌, inl, inr, refl, ap, arith, Bool-cases, false, Option, none,
  some, [], ◌∷◌, length, replicate, length-append, if◌then◌else◌, ◌==◌,
}
use objstr.RawError.{Bytes, ok, err, not_found, block_alignment}
use objstr.Alloc.{ExtentAllocator, largest}
use objstr.Device.{pwrite}
use objstr.Dict.{lookup, insert, remove, same}
use objstr.Index.{ExtentInfo}
use objstr.Compression.{Compression, Codecs, snappy, compress, decompress, to_u8, or_data}
use objstr.Compression.RoundTrip.{IsCodec, decompress-compress}
use objstr.Extent.{num_blocks, encode_and_write_batched, padded_extent_size}
use objstr.Superblock.{new}
use objstr.Store.{Env, Inner, stored_form, do_put_with_meta, do_get, delete, write_extent}
use objstr.Store.Tidy.{IsTidy, insert-IsTidy}
use objstr.Store.Write.{IsChecksum, write_extent_crc}
use objstr.Store.Put.{IsTidyStore, delete-IsTidy}
use objstr.Store.Start.{do_put_with_meta-IsTidy}
use objstr.Store.Copy.{do_copy}
use objstr.Store.Copy.Keeps.{do_copy-IsTidy}
use objstr.Store.Entries.{rename}
use objstr.Store.Entries.Rename.{rename-IsTidy, do_get-rename}
use objstr.Store.PutGet.{
  do_get-do_put, do_get-do_put_other, do_put_with_meta_succeeds, do_get-delete,
}

abbrev pub no_codecs : Codecs
no_codecs = record {
  zstd_bulk = λ _. none;
  snappy_vec = λ _. none;
  gzip_level = λ _ _. none;
  zstd_read = λ _. none;
  snappy_read = λ _. none;
  gzip_read = λ _. none;
}

abbrev toy : Env
toy = record {
  crc = λ b. length b % 2 ^ 32;
  crc_append = λ c b. (c + length b) % 2 ^ 32;
  codecs = no_codecs;
}

abbrev old_key : Bytes
old_key = 97 ∷ []

abbrev new_key : Bytes
new_key = 98 ∷ 99 ∷ []

abbrev old_info : ExtentInfo
old_info = record {
  offset = 8192;
  size = 5;
  padded_size = 4096;
  crc32c = 0;
  created_txn = 0;
  last_modified = 0;
  meta_len = 0;
  uncompressed_size = 0;
}

abbrev pool : ExtentAllocator
pool = record { free_list = (12288, 8192) ∷ []; alignment = 4096 }

abbrev shop : Inner
shop = record {
  dev = record {
    content = λ _. 0;
    unsynced = [];
    answers = [];
    unreadable = λ _ _. false;
    ro = false;
  };
  index = record { files = (old_key, old_info) ∷ []; tombstones = [] };
  allocator = some pool;
  superblock = new 65536 4096 20480 16777216 1024 Compression.none;
  dirty = false;
  ro = false;
  shard_dirty = replicate 256 false;
  last_flush_bytes = 0;
  max_key_length = 1024;
  compression = Compression.none;
}

pub no_codecs_law : IsCodec no_codecs
no_codecs_law = record {
  zstd_law = λ b z h. cc;
  snappy_law = λ b z h. cc;
  gzip_law = λ l b z h. cc;
}

no_files : IsTidy 20480 pool []
unfolding lookup
no_files = record {
  valid = record {
    separated = ground arith;
    aligned = ground arith;
    by_block = refl;
    end_bound = omega arith;
  };
  placed = λ k i h. cc;
  apart = λ k j x y h g n. cc;
}

one_block : 4096 ≡ num_blocks 5 * block_alignment
unfolding num_blocks
one_block = refl

shop-IsTidy : IsTidyStore 20480 shop
unfolding insert remove lookup
shop-IsTidy =
    insert-IsTidy old_key old_info [] no_files
      (record {
        aligned = refl;
        start = omega arith;
        inside = omega arith;
        blocks = one_block;
        some_bytes = omega arith;
        not_free = (inr (omega arith), tt);
      })
      (λ k i h n. cc)

abbrev three : Bytes
three = 1 ∷ 2 ∷ 3 ∷ []

three_padded : padded_extent_size (length (stored_form toy shop.compression three).0) ≡ ok 4096
unfolding padded_extent_size stored_form num_blocks to_u8
three_padded = refl

different : new_key ≢ old_key
different h = absurd (omega (arith, ap length h))

do_put_with_meta-IsTidy_example : IsTidyStore 20480 (do_put_with_meta toy new_key three 0 7 shop).1
do_put_with_meta-IsTidy_example =
    do_put_with_meta-IsTidy toy new_key three 0 7 shop 20480 no_codecs_law shop-IsTidy

delete-IsTidy_example : IsTidyStore 20480 (delete toy old_key shop).1
delete-IsTidy_example = delete-IsTidy toy 20480 old_key shop shop-IsTidy

three_put : (do_put_with_meta toy new_key three 0 7 shop).0 ≡ ok tt
unfolding largest
three_put =
    do_put_with_meta_succeeds toy new_key three 0 7 shop 20480 {padded = 4096} {a = pool} refl
      (omega arith) (omega arith) no_codecs_law refl shop-IsTidy three_padded (omega arith) refl
      refl

do_put_with_meta_succeeds_example : (do_put_with_meta toy new_key three 0 7 shop).0 ≡ ok tt
unfolding largest
do_put_with_meta_succeeds_example =
    do_put_with_meta_succeeds toy new_key three 0 7 shop 20480 {padded = 4096} {a = pool} refl
      (omega arith) (omega arith) no_codecs_law refl shop-IsTidy three_padded (omega arith) refl
      refl

do_get-do_put_example :
    (info : ExtentInfo) × (do_get toy new_key (do_put_with_meta toy new_key three 0 7 shop).1
      ≡ ok (three, info))
    × (info.meta_len ≡ 0)
    × (info.last_modified ≡ 7)
do_get-do_put_example =
    do_get-do_put toy new_key three 0 7 shop no_codecs_law (λ b. omega arith) (λ o n. refl)
      three_put

do_get-do_put_other_example :
    do_get toy old_key (do_put_with_meta toy new_key three 0 7 shop).1 ≡ do_get toy old_key shop
do_get-do_put_other_example =
    do_get-do_put_other toy new_key three 0 7 shop 20480 old_key no_codecs_law shop-IsTidy
      (inl different)

do_get-delete_example :
    ((delete toy old_key shop).0 ≡ ok tt)
    × (do_get toy old_key (delete toy old_key shop).1 ≡ err (not_found old_key))
    × ((k : Bytes) → old_key ≢ k → do_get toy k (delete toy old_key shop).1 ≡ do_get toy k shop)
do_get-delete_example = do_get-delete toy old_key shop refl

toy-IsChecksum : IsChecksum toy
toy-IsChecksum = record { empty = refl; extend = λ a b. omega (arith, length-append a b) }

wrote_three : (write_extent toy shop.dev 12288 three).0 ≡ ok 3
unfolding write_extent encode_and_write_batched num_blocks pwrite
wrote_three = refl

write_extent_crc_example : 3 ≡ toy.crc three
write_extent_crc_example = write_extent_crc toy-IsChecksum shop.dev 12288 three 3 wrote_three

abbrev halve : Bytes → Option Bytes
halve (a ∷ b ∷ []) = if a == b then some (a ∷ []) else none
halve _ = none

abbrev double : Bytes → Option Bytes
double (a ∷ []) = some (a ∷ a ∷ [])
double _ = none

halve_law : (b z : Bytes) → halve b ≡ some z → (0 < length z) × (double z ≡ some b)
halve_law [] z h = cc
halve_law (a ∷ []) z h = cc
halve_law (a ∷ b ∷ []) z h = elim (Bool-cases (a == b)) [
  | inr e ↦ cc (rw e at h)
  | inl e ↦
      let q : some (a ∷ []) ≡ some z = rw e at h in
      let same_data : a ∷ [] ≡ z = cc in
      let twice : a ≡ b = ground arith in
      subst (λ t. (0 < length t) × (double t ≡ some (a ∷ b ∷ []))) same_data
        (omega arith, ap (λ t. some (a ∷ t ∷ [])) twice)
]
halve_law (a ∷ b ∷ c ∷ r) z h = cc

-- A codec that keeps the first byte of two equal bytes.
abbrev halves : Codecs
halves = record no_codecs { snappy_vec = λ b. halve b; snappy_read = λ z. double z }

halves-IsCodec : IsCodec halves
halves-IsCodec = record { zstd_law = λ b z h. cc; snappy_law = halve_law; gzip_law = λ l b z h. cc }

halved : compress halves snappy (4 ∷ 4 ∷ []) ≡ some (4 ∷ [])
unfolding compress or_data
halved = refl

decompress-compress_example :
    (0 < length {A = ℕ} (4 ∷ [])) × (decompress halves snappy (4 ∷ []) ≡ ok (4 ∷ 4 ∷ []))
decompress-compress_example =
    decompress-compress halves-IsCodec snappy (4 ∷ 4 ∷ []) (4 ∷ []) halved (omega arith)

rename-IsTidy_example : IsTidyStore 20480 (rename toy old_key new_key shop).1
rename-IsTidy_example = rename-IsTidy toy old_key new_key shop 20480 shop-IsTidy

renamed : (rename toy old_key new_key shop).0 ≡ ok tt
unfolding rename lookup same
renamed = refl

do_get-rename_example :
    ((r : Bytes × ExtentInfo)
      → do_get toy old_key shop ≡ ok r
      → do_get toy new_key (rename toy old_key new_key shop).1 ≡ ok r)
    × (old_key ≢ new_key
        → do_get toy old_key (rename toy old_key new_key shop).1 ≡ err (not_found old_key))
    × ((k : Bytes)
        → old_key ≢ k
        → new_key ≢ k
        → do_get toy k (rename toy old_key new_key shop).1 ≡ do_get toy k shop)
do_get-rename_example = do_get-rename toy old_key new_key shop renamed

do_copy-IsTidy_example : IsTidyStore 20480 (do_copy toy old_key new_key 9 shop).1
do_copy-IsTidy_example = do_copy-IsTidy toy 20480 old_key new_key 9 shop shop-IsTidy
