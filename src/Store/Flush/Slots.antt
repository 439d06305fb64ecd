-- ===== src/Store/Flush/Slots.antt =====
-- Where the shards of the index stand, rawobjstr/src/store.rs: the two slots of 256 shards.
use objstr.Base.{
  ℕ, zero, suc, ◌+◌, ◌*◌, ◌^◌, ◌≤◌, ◌<◌, ◌≡◌, ◌≢◌, ◌⊎◌, refl, ap, ◌∙◌, List, [], ◌∷◌, ◌==◌,
  if◌then◌else◌, length, set, arith,
}
use objstr.RawError.{num_shards, data_start}
use objstr.Alloc.Apart.{Apart}
use objstr.Superblock.{ShardSlotMeta}
use objstr.Store.Flush.{Regions, slot_at, slot_offset, other_slot}

-- Behind the superblocks the first slots, behind them the second ones.
pub record IsLayout (r : Regions) : Type 0 where
  pub start : data_start ≤ r.index_region_a
  pub second : r.index_region_a + num_shards * r.shard_slot_size ≤ r.index_region_b
  pub small : r.shard_slot_size < 2 ^ 32

mul-below : (j k z : ℕ) → j < k → j * z + z ≤ k * z
mul-below j k z h = grind arith

pub slot_offset-Apart :
    (r : Regions)
    → IsLayout r
    → (u v j k : ℕ) → j < num_shards
    → k < num_shards
    → ((u == 0) ≢ (v == 0)) ⊎ (j ≢ k)
    → Apart (slot_offset r u j) r.shard_slot_size (slot_offset r v k) r.shard_slot_size
unfolding slot_offset
slot_offset-Apart r l u v j k p q ne =
    let one = mul-below j num_shards r.shard_slot_size p in
    let two = mul-below k num_shards r.shard_slot_size q in
    let less = mul-below j k r.shard_slot_size in
    let more = mul-below k j r.shard_slot_size in let second = l.second in ground arith

pub slot_offset-bounds :
    (r : Regions) → IsLayout r → (u j : ℕ) → j < num_shards → data_start ≤ slot_offset r u j
unfolding slot_offset
slot_offset-bounds r l u j p = let h = l.start in ground arith

pub slot_at-set :
    (l : List ShardSlotMeta) (i j : ℕ) (v : ShardSlotMeta)
    → i < length l
    → slot_at (set l i v) j ≡ (if i == j then v else slot_at l j)
unfolding slot_at
slot_at-set [] i j v h = absurd (omega arith)
slot_at-set (x ∷ l) zero zero v h = refl
slot_at-set (x ∷ l) zero (suc j) v h = ground arith
slot_at-set (x ∷ l) (suc i) zero v h = ground arith
slot_at-set (x ∷ l) (suc i) (suc j) v h = slot_at-set l i j v (omega arith) ∙ ground arith

pub length-set :
    (l : List ShardSlotMeta) (i : ℕ) (v : ShardSlotMeta) → length (set l i v) ≡ length l
length-set [] i v = refl
length-set (x ∷ l) zero v = refl
length-set (x ∷ l) (suc i) v = ap suc (length-set l i v)

pub other_slot-other : (u : ℕ) → u ≤ 1 → (other_slot u ≤ 1) × ((other_slot u == 0) ≢ (u == 0))
unfolding other_slot
other_slot-other u h = ground arith

pub slot_offset-above :
    (r : Regions) → IsLayout r → (u j : ℕ) → r.index_region_a ≤ slot_offset r u j
unfolding slot_offset
slot_offset-above r l u j = let h = l.second in ground arith
