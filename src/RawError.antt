-- ===== src/RawError.antt =====
-- The error type and the constants of rawobjstr/src/lib.rs.
use Prim.Native.String.{String}
use objstr.Base.{ℕ, ◌+◌, ◌-◌, ◌*◌, ◌%◌, ◌^◌, List, ltb, ◌==◌, ◌||◌, not, if◌then◌else◌, min}

-- A Rust `String` as its UTF-8 bytes.
abbrev pub Bytes : Type 0
Bytes = List ℕ

-- The `path` of a corruption error: `block {i}` inside extent.rs, the key outside.
pub data Place : Type 0 where
  block : ℕ → Place
  object : Bytes → Place

pub data RawStoreError : Type 0 where
  not_formatted superblock_corrupt index_corrupt : RawStoreError
  data_corruption : Place → ℕ → ℕ → RawStoreError
  extent_invalid : String → RawStoreError
  no_space : ℕ → ℕ → RawStoreError
  not_found already_exists : Bytes → RawStoreError
  device_too_small : ℕ → ℕ → RawStoreError
  invalid_index_slot_size : ℕ → RawStoreError
  key_too_long : ℕ → ℕ → RawStoreError
  shard_overflow : ℕ → ℕ → ℕ → RawStoreError
  max_key_length_too_large metadata_too_large : ℕ → ℕ → RawStoreError
  empty_payload read_only write_protected device_locked : RawStoreError
  insufficient_writes : Bytes → ℕ → ℕ → RawStoreError
  io bincode : String → RawStoreError

pub data Result {ℓ} (A : Type ℓ) : Type ℓ where
  ok : A → Result A
  err : RawStoreError → Result A

infixl 5 ◌>>=◌
-- `?`: go on with the value, or stop with the error.
abbrev pub ◌>>=◌ {ℓ κ} : {S : Type ℓ} {T : Type κ} → Result S → (S → Result T) → Result T
err stop >>= next = err stop
ok value >>= next = next value

abbrev pub u64_mod : ℕ
u64_mod = 2 ^ 64

-- `saturating_add` on u64
abbrev pub sat_add : ℕ → ℕ → ℕ
sat_add a b = min (a + b) (2 ^ 64 - 1)

abbrev pub superblock_size : ℕ
superblock_size = 4096

abbrev pub data_start : ℕ
data_start = superblock_size * 2

abbrev pub block_alignment : ℕ
block_alignment = 4096

abbrev pub index_region_size : ℕ
index_region_size = 16 * 1024 * 1024

abbrev pub num_shards : ℕ
num_shards = 256

-- `&` with the complement of `alignment - 1` clears the low bits, as `alignment` is a power of two.
unfoldable pub align_up : ℕ → ℕ → ℕ
align_up value alignment =
    let raised = (value + alignment - 1) % 2 ^ 64 in raised - raised % alignment

unfoldable pub min_device_size : ℕ → ℕ
min_device_size index_slot_size = data_start + block_alignment + index_slot_size * 2

unfoldable pub validate_index_slot_size : ℕ → Result (Unit {0})
validate_index_slot_size slot_size =
    if ltb slot_size index_region_size || not (slot_size % index_region_size == 0)
    then err (invalid_index_slot_size slot_size)
    else ok tt
