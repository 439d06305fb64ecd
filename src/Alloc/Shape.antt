-- ===== src/Alloc/Shape.antt =====
-- What a free list means: its shape, the bytes that it covers, and the structural forms of the
-- indexed loops of rawobjstr/src/allocator.rs.
use objstr.Base.{
  ℕ, ◌+◌, ◌-◌, ◌≤◌, ◌<◌, ◌≡◌, refl, Bool, false, ◌&&◌, ◌||◌, Option, none, some, List, [], ◌∷◌, ltb,
  leb, if◌then◌else◌, arith,
}
use objstr.RawError.{ok, err, no_space}
use mathlib.Core.Logic.{◌⊎◌}
use objstr.Alloc.{Region, position_fit, take_at, alloc_list, largest}

-- Sorted by offset inside [lo, hi), no empty region, and a gap before each next region.
abbrev pub IsSeparated : ℕ → ℕ → List Region → Type 0
IsSeparated lo hi [] = Unit {0}
IsSeparated lo hi ((o, s) ∷ r) = (lo ≤ o) × (0 < s) × (o + s ≤ hi) × IsSeparated (o + s + 1) hi r

-- Does the byte `x` lie in the region at `o` of size `s`?
abbrev pub within : ℕ → ℕ → ℕ → Bool
within x o s = leb o x && ltb x (o + s)

-- Does the byte `x` lie in one of the regions?
unfoldable pub covers : ℕ → List Region → Bool
covers x [] = false
covers x ((o, s) ∷ r) = within x o s || covers x r

-- No region shares a byte with the one at `o` of size `s`.
abbrev pub IsApart : ℕ → ℕ → List Region → Type 0
IsApart o s [] = Unit {0}
IsApart o s ((a, b) ∷ r) = ((a + b ≤ o) ⊎ (o + s ≤ a)) × IsApart o s r

-- The structural form of the first-fit search with its split.
unfoldable pub first_fit : ℕ → List Region → Option (ℕ × List Region)
first_fit needed [] = none
first_fit needed ((o, s) ∷ r) =
    let rest : Option (ℕ × List Region) = elim (first_fit needed r) [
      | none ↦ none
      | some (off, l) ↦ some (off, (o, s) ∷ l)
    ] in
    if leb needed s
    then some (o, (if ltb 0 (s - needed) then (o + needed, s - needed) ∷ r else r))
    else rest

abbrev fit_then_take : ℕ → List Region → Option ℕ → Option (ℕ × List Region)
fit_then_take needed l none = none
fit_then_take needed l (some i) = take_at needed i l

position-first_fit :
    (needed : ℕ) (l : List Region)
    → fit_then_take needed l (position_fit needed l) ≡ first_fit needed l
unfolding position_fit first_fit take_at
position-first_fit needed [] = refl
position-first_fit needed ((o, s) ∷ r) = ground (arith, position-first_fit needed r)

pub alloc_list-first_fit :
    (needed : ℕ) (l : List Region)
    → alloc_list needed l
      ≡ elim (first_fit needed l) [ none ↦ err (no_space needed (largest l)) | some d ↦ ok d ]
unfolding alloc_list
alloc_list-first_fit needed l = ground (arith, position-first_fit needed l)
