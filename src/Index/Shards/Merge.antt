-- ===== src/Index/Shards/Merge.antt =====
-- The index put together again from its shards.
use mathlib.Core.Path.{subst}
use objstr.Base.{
  ℕ, zero, suc, ◌+◌, ◌≡◌, refl, ap, ◌∙◌, ◌&&◌, inl, inr, Option, none, some, [], ◌∷◌, ltb, leb,
  ◌==◌, if◌then◌else◌, arith, Bool-cases,
}
use objstr.RawError.{Bytes, num_shards}
use objstr.Dict.{Dict, lookup, insert, same, same→≡, same_iff, lookup-insert}
use objstr.Index.{shard_for_key, DeviceIndex, new_index}
use objstr.Index.Shards.{bucket, extend, shard_of, merge}

-- No key stands twice.
abbrev pub IsMap {ℓ} : {V : Type ℓ} → Dict V → Type ℓ
IsMap [] = Unit
IsMap ((k, v) ∷ m) = (lookup k m ≡ none) × IsMap m

-- The first if there is one.
unfoldable pub or_else {ℓ} : {V : Type ℓ} → Option V → Option V → Option V
or_else none o = o
or_else (some v) o = some v

module _ {V : Type 0} where
  pub lookup-extend :
      (k : Bytes) (m r : Dict V)
      → IsMap r
      → lookup k (extend m r) ≡ or_else (lookup k r) (lookup k m)
  unfolding extend lookup or_else
  lookup-extend k m [] u = refl
  lookup-extend k m ((j, v) ∷ r) u =
      lookup-extend k (insert j v m) r u.1
      ∙ rw (lookup-insert j k v m) (elim (Bool-cases (same j k)) [
        | inl e ↦
            let f : lookup k r ≡ none = subst (λ t. lookup t r ≡ none) (same→≡ j k e) u.0 in
            rw (f, e) refl
        | inr e ↦ rw e refl
      ])

  pub lookup-bucket :
      (crc : Bytes → ℕ) (i : ℕ) (k : Bytes) (m : Dict V)
      → lookup k (bucket crc i m) ≡ (if shard_for_key crc k == i then lookup k m else none)
  unfolding bucket lookup
  lookup-bucket crc i k [] = ground arith
  lookup-bucket crc i k ((j, v) ∷ m) = ground (arith, lookup-bucket crc i k m, same_iff j k)

  IsMap-bucket : (crc : Bytes → ℕ) (i : ℕ) (m : Dict V) → IsMap m → IsMap (bucket crc i m)
  unfolding bucket
  IsMap-bucket crc i [] u = tt
  IsMap-bucket crc i ((j, v) ∷ m) u = elim (Bool-cases (shard_for_key crc j == i)) [
    | inl e ↦ rw e (lookup-bucket crc i j m ∙ rw (e, u.0) refl, IsMap-bucket crc i m u.1)
    | inr e ↦ rw e (IsMap-bucket crc i m u.1)
  ]

  -- The buckets from `i` on, `n` of them, put together.
  unfoldable pub gather : (Bytes → ℕ) → ℕ → ℕ → Dict V → Dict V → Dict V
  unfolding extend bucket
  gather crc zero i m acc = acc
  gather crc (suc n) i m acc = gather crc n (suc i) m (extend acc (bucket crc i m))

  lookup-gather :
      (crc : Bytes → ℕ) (n i : ℕ) (k : Bytes) (m acc : Dict V)
      → IsMap m
      → lookup k (gather crc n i m acc) ≡ (
          if leb i (shard_for_key crc k) && ltb (shard_for_key crc k) (i + n)
          then or_else (lookup k m) (lookup k acc)
          else lookup k acc)
  unfolding gather or_else
  lookup-gather crc zero i k m acc u = ground arith
  lookup-gather crc (suc n) i k m acc u =
      let step : lookup k (extend acc (bucket crc i m)) ≡ (
          if shard_for_key crc k == i then or_else (lookup k m) (lookup k acc) else lookup k acc) =
        lookup-extend k acc (bucket crc i m) (IsMap-bucket crc i m u)
        ∙ rw (lookup-bucket crc i k m) (ground arith) in
      lookup-gather crc n (suc i) k m (extend acc (bucket crc i m)) u ∙ rw step (ground arith)

  pub lookup-gather_all :
      (crc : Bytes → ℕ) (k : Bytes) (m : Dict V)
      → IsMap m
      → lookup k (gather crc num_shards 0 m []) ≡ lookup k m
  unfolding or_else lookup shard_for_key
  lookup-gather_all crc k m u = lookup-gather crc num_shards 0 k m [] u ∙ ground arith

-- The shards from `i` on, `n` of them, merged into `acc`.
unfoldable pub merged : (Bytes → ℕ) → ℕ → ℕ → DeviceIndex → DeviceIndex → DeviceIndex
unfolding merge shard_of
merged crc zero i index acc = acc
merged crc (suc n) i index acc = merged crc n (suc i) index (merge acc (shard_of crc i index))

merged-gather :
    (crc : Bytes → ℕ) (n i : ℕ) (index acc : DeviceIndex)
    → ((merged crc n i index acc).files ≡ gather crc n i index.files acc.files)
      × ((merged crc n i index acc).tombstones ≡ gather crc n i index.tombstones acc.tombstones)
unfolding merged gather
merged-gather crc zero i index acc = (refl, refl)
merged-gather crc (suc n) i index acc =
    merged-gather crc n (suc i) index (merge acc (shard_of crc i index))

-- The index that merging the 256 shards of an index gives finds for every key what that index does.
pub lookup-merged :
    (crc : Bytes → ℕ) (k : Bytes) (index : DeviceIndex)
    → IsMap index.files
    → IsMap index.tombstones
    → (lookup k (merged crc num_shards 0 index new_index).files ≡ lookup k index.files)
      × (lookup k (merged crc num_shards 0 index new_index).tombstones ≡ lookup k index.tombstones)
lookup-merged crc k index u v =
    let (f, t) = merged-gather crc num_shards 0 index new_index in
    (
      ap (lookup k) f ∙ lookup-gather_all crc k index.files u,
      ap (lookup k) t ∙ lookup-gather_all crc k index.tombstones v,
    )
