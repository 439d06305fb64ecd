-- ===== src/Alloc/Take.antt =====
-- `alloc` of rawobjstr/src/allocator.rs: what it hands out, what stays free, and when it fails.
use mathlib.Core.Path.{subst}
use objstr.Base.{
  ℕ, ◌+◌, ◌-◌, ◌≤◌, ◌<◌, ◌≡◌, refl, true, false, ◌||◌, Option, none, inl, inr, some, List, [], ◌∷◌,
  ltb, leb, if◌then◌else◌, arith, Bool-cases,
}
use objstr.RawError.{Result, ok, err, no_space, RawStoreError}
use objstr.Alloc.{Region, alloc_list, largest, free_space}
use objstr.Alloc.Shape.{IsSeparated, within, covers, first_fit, alloc_list-first_fit}

-- Taking `n` bytes at `off` from a free list, past regions that are too small.
pub data Takes (n off : ℕ) : List Region → List Region → Type 0 where
  whole : {s : ℕ} {r : List Region} → s ≡ n → Takes n off ((off, s) ∷ r) r
  split : {s : ℕ} {r : List Region} → n < s → Takes n off ((off, s) ∷ r) ((off + n, s - n) ∷ r)
  skip :
      {o s : ℕ} {l l' : List Region}
      → s < n
      → Takes n off l l'
      → Takes n off ((o, s) ∷ l) ((o, s) ∷ l')

-- Every region is smaller than `n`.
abbrev pub AllBelow : ℕ → List Region → Type 0
AllBelow n [] = Unit {0}
AllBelow n ((o, s) ∷ r) = (s < n) × AllBelow n r

abbrev Outcome : ℕ → List Region → Option (ℕ × List Region) → Type 0
Outcome n l none = AllBelow n l
Outcome n l (some (off, l')) = Takes n off l l'

skip-Outcome :
    (n o s : ℕ) (r : List Region) (res : Option (ℕ × List Region))
    → s < n
    → Outcome n r res
    → Outcome n ((o, s) ∷ r) (elim res [ none ↦ none | some (off, l) ↦ some (off, (o, s) ∷ l) ])
skip-Outcome n o s r none small h = (small, h)
skip-Outcome n o s r (some (off, l)) small h = skip small h

take-Outcome :
    (n o s : ℕ) (r : List Region)
    → n ≤ s
    → Takes n o ((o, s) ∷ r) (if ltb 0 (s - n) then (o + n, s - n) ∷ r else r)
take-Outcome n o s r h = elim (Bool-cases (ltb 0 (s - n))) [
  | inl more ↦ rw more (split (ground arith))
  | inr fits ↦ rw fits (whole (ground arith))
]

first_fit-Outcome : (n : ℕ) (l : List Region) → Outcome n l (first_fit n l)
unfolding first_fit
first_fit-Outcome n [] = tt
first_fit-Outcome n ((o, s) ∷ r) = elim (Bool-cases (leb n s)) [
  | inl fits ↦ rw fits (take-Outcome n o s r (ground arith))
  | inr small ↦
      rw small (skip-Outcome n o s r (first_fit n r) (ground arith) (first_fit-Outcome n r))
]

abbrev Answer : ℕ → List Region → Result (ℕ × List Region) → Type 0
Answer n l (ok (off, l')) = Takes n off l l'
Answer n l (err e) = AllBelow n l × (e ≡ no_space n (largest l))

answer :
    (n : ℕ) (l : List Region) (res : Option (ℕ × List Region))
    → Outcome n l res
    → Answer n l (elim res [ none ↦ err (no_space n (largest l)) | some d ↦ ok d ])
answer n l none h = (h, refl)
answer n l (some (off, l')) h = h

alloc_list-Answer : (n : ℕ) (l : List Region) → Answer n l (alloc_list n l)
alloc_list-Answer n l = rw alloc_list-first_fit (answer n l (first_fit n l) (first_fit-Outcome n l))

pub alloc_list-Takes :
    (n off : ℕ) (l l' : List Region) → alloc_list n l ≡ ok (off, l') → Takes n off l l'
alloc_list-Takes n off l l' h = subst (Answer n l) h (alloc_list-Answer n l)

pub alloc_list-AllBelow :
    (n : ℕ) (l : List Region) (e : RawStoreError)
    → alloc_list n l ≡ err e
    → AllBelow n l × (e ≡ no_space n (largest l))
alloc_list-AllBelow n l e h = subst (Answer n l) h (alloc_list-Answer n l)

pub IsSeparated-weaken :
    (lo lo' hi : ℕ) (l : List Region) → lo' ≤ lo → IsSeparated lo hi l → IsSeparated lo' hi l
IsSeparated-weaken lo lo' hi [] h s = tt
IsSeparated-weaken lo lo' hi ((a, b) ∷ r) h s = (omega arith, s.1, s.2, s.3)

pub below-covers :
    (hi lo x : ℕ) (l : List Region) → x < lo → IsSeparated lo hi l → covers x l ≡ false
unfolding covers
below-covers hi lo x [] h w = refl
below-covers hi lo x ((o, s) ∷ r) h w = ground (arith, below-covers hi (o + s + 1) x r)

module _ {n off : ℕ} (hi : ℕ) (pos : 0 < n) where
  pub Takes-IsSeparated :
      {l l' : List Region}
      → Takes n off l l'
      → (lo : ℕ) → IsSeparated lo hi l
      → IsSeparated lo hi l' × (lo ≤ off) × (off + n ≤ hi)
  Takes-IsSeparated (whole {s} {r} e) lo w =
      (IsSeparated-weaken (off + s + 1) lo hi r (omega arith) w.3, omega arith, omega arith)
  Takes-IsSeparated (split {s} {r} e) lo w = (
    (omega arith, omega arith, omega arith, IsSeparated-weaken _ _ hi r (omega arith) w.3),
    omega arith,
    omega arith,
  )
  Takes-IsSeparated (skip {o} {s} e t) lo w =
      let (w', a, b) = Takes-IsSeparated t (o + s + 1) w.3 in
      ((w.0, w.1, w.2, w'), omega arith, omega arith)

  pub Takes-covers :
      {l l' : List Region}
      → Takes n off l l'
      → (x : ℕ) → covers x l ≡ (within x off n || covers x l')
  unfolding covers
  Takes-covers (whole e) x = ground arith
  Takes-covers (split e) x = ground arith
  Takes-covers (skip e t) x = ground (arith, Takes-covers t x)

  pub Takes-disjoint :
      {l l' : List Region}
      → Takes n off l l'
      → (lo x : ℕ) → IsSeparated lo hi l
      → within x off n ≡ true
      → covers x l' ≡ false
  unfolding covers
  Takes-disjoint (whole {s} {r} e) lo x w h = below-covers hi (off + s + 1) x r (ground arith) w.3
  Takes-disjoint (split {s} {r} e) lo x w h = ground (arith, below-covers hi (off + s + 1) x r)
  Takes-disjoint (skip {o} {s} e t) lo x w h =
      let (w', a, b) = Takes-IsSeparated t (o + s + 1) w.3 in
      ground (arith, Takes-disjoint t (o + s + 1) x w.3)

  pub Takes-free_space : {l l' : List Region} → Takes n off l l' → free_space l ≡ n + free_space l'
  unfolding free_space
  Takes-free_space (whole e) = omega arith
  Takes-free_space (split e) = omega arith
  Takes-free_space (skip e t) = omega (arith, Takes-free_space t)
