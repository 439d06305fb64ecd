-- ===== src/Dict.antt =====
-- Maps with text keys, for the HashMaps of the source. No result depends on the order of the entries.
use objstr.Base.{
  ◌≡◌, ◌↔◌, ◌⊎◌, inl, inr, Bool-cases, refl, Bool, true, false, ◌&&◌, Option, none, some, List, [],
  ◌∷◌, ◌==◌, if◌then◌else◌, arith,
}
use objstr.RawError.{Bytes}

-- Equality of keys.
unfoldable pub same : Bytes → Bytes → Bool
same [] [] = true
same (a ∷ x) (b ∷ y) = a == b && same x y
same [] (b ∷ y) = false
same (a ∷ x) [] = false

pub same→≡ : (x y : Bytes) → same x y ≡ true → x ≡ y
unfolding same
same→≡ [] [] h = refl
same→≡ (a ∷ x) (b ∷ y) h = ground (arith, same→≡ x y)
same→≡ [] (b ∷ y) h = cc
same→≡ (a ∷ x) [] h = cc

pub same_refl : (x : Bytes) → same x x ≡ true
unfolding same
same_refl [] = refl
same_refl (a ∷ x) = ground (arith, same_refl x)

pub same_iff : (x y : Bytes) → (same x y ≡ true) ↔ (x ≡ y)
same_iff x y = (same→≡ x y, λ e. rw e (same_refl y))

abbrev pub Dict {ℓ} : Type ℓ → Type ℓ
Dict V = List (Bytes × V)

module _ {ℓ} {V : Type ℓ} where
  unfoldable pub lookup : Bytes → Dict V → Option V
  lookup k [] = none
  lookup k ((j, v) ∷ m) = if same j k then some v else lookup k m

  unfoldable pub remove : Bytes → Dict V → Dict V
  remove k [] = []
  remove k ((j, v) ∷ m) = let rest = remove k m in if same j k then rest else (j, v) ∷ rest

  unfoldable pub insert : Bytes → V → Dict V → Dict V
  unfolding remove
  insert k v m = (k, v) ∷ remove k m

  pub lookup-remove :
      (k j : Bytes) (m : Dict V) → lookup j (remove k m) ≡ (if same k j then none else lookup j m)
  unfolding lookup remove
  lookup-remove k j [] = ground arith
  lookup-remove k j ((i, v) ∷ m) =
      ground (arith, lookup-remove k j m, same_iff i k, same_iff i j, same_iff k j)

  pub lookup-insert :
      (k j : Bytes) (v : V) (m : Dict V)
      → lookup j (insert k v m) ≡ (if same k j then some v else lookup j m)
  unfolding lookup insert
  lookup-insert k j v m = ground (arith, lookup-remove k j m)

  -- The first entry of a map is what a key finds, or the rest is.
  pub lookup-cons :
      (k j : Bytes) (v w : V) (m : Dict V)
      → lookup k ((j, v) ∷ m) ≡ some w
      → ((same j k ≡ true) × (v ≡ w)) ⊎ ((same j k ≡ false) × (lookup k m ≡ some w))
  unfolding lookup
  lookup-cons k j v w m h = elim (Bool-cases (same j k)) [
    | inl e ↦ let f : some v ≡ some w = rw e at h in inl (e, cc)
    | inr e ↦ inr (e, rw e at h)
  ]
