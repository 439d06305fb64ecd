-- ===== src/Cluster/Targets.antt =====
-- Which shards hold a new object, `select_targets` of shardedobjstr/src/lib.rs. The jump consistent hash of
-- shardedobjstr/src/replication.rs computes with floating point and is a parameter.
pub mod Ring
use native.Mathlib.Nat.{mod-eq_of_lt, mod-eq-sub-mod}
use objstr.Base.{
  ℕ, zero, suc, ◌+◌, ◌-◌, ◌*◌, ◌%◌, ◌^◌, ◌≤◌, ◌<◌, ◌≡◌, ◌≢◌, min, max, refl, sym, ap, ◌∙◌, inl, inr,
  Bool, true, false, not, ◌&&◌, ◌||◌, Option, none, some, List, [], ◌∷◌, ltb, leb, ◌==◌,
  if◌then◌else◌, length, get_elem?, arith, Bool-cases,
}
use objstr.RawError.{Bytes}
use objstr.Catalog.{contains}
use objstr.Cluster.{ShardInfo, Cluster, is_unavailable, is_syncing}

module _ {S : Type 0} where
  unfoldable pub takes_writes : ShardInfo S → Bool
  unfolding is_unavailable is_syncing
  takes_writes s = not (is_unavailable s.health) && not (is_syncing s.health)

  unfoldable pub writable_at : List (ShardInfo S) → ℕ → Bool
  unfolding takes_writes
  writable_at shards id = elim (get_elem? shards id) [ none ↦ false | some s ↦ takes_writes s ]

-- The `k` shards from `id` on that are writable.
unfoldable pub writable_from : (ℕ → Bool) → ℕ → ℕ → List ℕ
writable_from writable zero id = []
writable_from writable (suc k) id =
    let rest = writable_from writable k (suc id) in if writable id then id ∷ rest else rest

-- The loop over the `k` last offsets from home, until `left` shards are taken.
unfoldable pub clockwise : (ℕ → Bool) → ℕ → ℕ → ℕ → ℕ → ℕ → List ℕ
clockwise writable home n zero offset left = []
clockwise writable home n (suc k) offset left =
    let id = (home + offset) % n in
    let rest = clockwise writable home n k (suc offset) (if writable id then left - 1 else left) in
    if writable id then id ∷ (if left == 1 then [] else rest) else rest

module _ (crc : Bytes → ℕ) (jump_consistent_hash : ℕ → ℕ → ℕ) where
  -- Over `n` shards.
  unfoldable pub targets_among : (ℕ → Bool) → ℕ → ℕ → Bytes → List ℕ
  unfolding writable_from clockwise
  targets_among writable n rf path =
      let all = writable_from writable n 0 in
      let home = jump_consistent_hash (crc path) n in
      if n == 0 then [] else if leb (length all) rf then all else clockwise writable home n n 0 rf

  unfoldable pub select_targets : {S : Type 0} → Bytes → Cluster S → List ℕ
  unfolding targets_among writable_at
  select_targets path c =
      targets_among (writable_at c.shards) (length c.shards) c.replication_factor path

-- No shard stands twice.
abbrev pub IsDistinct : List ℕ → Type 0
IsDistinct [] = Unit {0}
IsDistinct (x ∷ l) = (contains x l ≡ false) × IsDistinct l

module _ (writable : ℕ → Bool) where
  pub writable_from-range :
      (x k id : ℕ)
      → contains x (writable_from writable k id) ≡ (leb id x && ltb x (id + k) && writable x)
  unfolding writable_from contains
  writable_from-range x zero id = ground arith
  writable_from-range x (suc k) id =
      let rest = writable_from-range x k (suc id) in
      let here : id ≡ x → writable id ≡ writable x = ap writable in
      elim (Bool-cases (writable id)) [ inl e ↦ rw e (ground arith) | inr e ↦ rw e (ground arith) ]

  pub writable_from-IsDistinct : (k id : ℕ) → IsDistinct (writable_from writable k id)
  unfolding writable_from
  writable_from-IsDistinct zero id = tt
  writable_from-IsDistinct (suc k) id = elim (Bool-cases (writable id)) [
    | inl e ↦
        rw e (writable_from-range id k (suc id) ∙ ground arith, writable_from-IsDistinct k (suc id))
    | inr e ↦ rw e (writable_from-IsDistinct k (suc id))
  ]
