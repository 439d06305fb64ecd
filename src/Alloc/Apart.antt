-- ===== src/Alloc/Apart.antt =====
-- Extents that lie apart from the free list, across `alloc` and `free` of
-- rawobjstr/src/allocator.rs.
use objstr.Base.{
  ℕ, ◌+◌, ◌≤◌, ◌<◌, ◌^◌, ◌≡◌, ◌⊎◌, inl, inr, List, [], ◌∷◌, ltb, ◌==◌, arith, Bool-cases,
}
use objstr.RawError.{sat_add}
use objstr.Alloc.{Region}
use objstr.Alloc.Shape.{IsSeparated, IsApart}
use objstr.Alloc.Take.{Takes, whole, split, skip, Takes-IsSeparated}
use objstr.Alloc.Give.{give, link}

-- Two regions share no byte.
abbrev pub Apart : ℕ → ℕ → ℕ → ℕ → Type 0
Apart a b o s = (a + b ≤ o) ⊎ (o + s ≤ a)

pub Apart-sym : (a b o s : ℕ) → Apart a b o s → Apart o s a b
Apart-sym a b o s (inl h) = inr h
Apart-sym a b o s (inr h) = inl h

-- The region taken is apart from everything that the free list was apart from.
pub Takes-Apart :
    {n off : ℕ} {l l' : List Region}
    → Takes n off l l'
    → (o s : ℕ) → IsApart o s l
    → Apart off n o s × IsApart o s l'
Takes-Apart (whole e) o s h = (omega arith, h.1)
Takes-Apart (split e) o s h = elim h.0 [
  | inl p ↦ (inl (omega arith), (inl (omega arith), h.1))
  | inr p ↦ (inr (omega arith), (inr (omega arith), h.1))
]
Takes-Apart (skip e t) o s h = let (u, v) = Takes-Apart t o s h.1 in (u, (h.0, v))

-- The region taken is apart from what stays free.
ahead-IsApart : (lo hi o s : ℕ) (l : List Region) → o + s ≤ lo → IsSeparated lo hi l → IsApart o s l
ahead-IsApart lo hi o s [] h w = tt
ahead-IsApart lo hi o s ((a, b) ∷ r) h w =
    (inr (omega arith), ahead-IsApart (a + b + 1) hi o s r (omega arith) w.3)

pub Takes-IsApart :
    {n off : ℕ} {l l' : List Region}
    → Takes n off l l'
    → (lo hi : ℕ) → 0 < n
    → IsSeparated lo hi l
    → IsApart off n l'
Takes-IsApart {n} {off} (whole {s} {r} e) lo hi pos w =
    ahead-IsApart (off + s + 1) hi off n r (omega arith) w.3
Takes-IsApart {n} {off} (split {s} {r} e) lo hi pos w =
    (inr (omega arith), ahead-IsApart (off + s + 1) hi off n r (omega arith) w.3)
Takes-IsApart {n} {off} (skip {o} {s} e t) lo hi pos w =
    let (u, p, q) = Takes-IsSeparated hi pos t (o + s + 1) w.3 in
    (inl (omega arith), Takes-IsApart t (o + s + 1) hi pos w.3)

join : (x y o s c d : ℕ) → o + s ≡ c → 0 < y → Apart o s x y → Apart c d x y → Apart o (s + d) x y
join x y o s c d e pos (inl p) (inl q) = inl (omega arith)
join x y o s c d e pos (inl p) (inr q) = absurd (omega arith)
join x y o s c d e pos (inr p) q = inr p

-- Joining touching regions keeps a nonempty extent apart.
link-IsApart :
    (x y o s : ℕ) (l : List Region)
    → o + s < 2 ^ 64
    → 0 < y
    → Apart o s x y
    → IsApart x y l
    → IsApart x y (link (o, s) l)
link-IsApart x y o s [] m pos a h = (a, tt)
link-IsApart x y o s ((c, d) ∷ r) m pos a h = elim (Bool-cases (sat_add o s == c)) [
  | inl e ↦ let t : o + s ≡ c = ground arith in rw e (join x y o s c d t pos a h.0, h.1)
  | inr e ↦ rw e (a, h)
]

pub give-IsApart :
    (lo hi x y o s : ℕ) (l : List Region)
    → hi < 2 ^ 64
    → o + s ≤ hi
    → IsSeparated lo hi l
    → 0 < y
    → Apart o s x y
    → IsApart x y l
    → IsApart x y (give o s l)
unfolding give
give-IsApart lo hi x y o s [] m inside w pos a h = (a, tt)
give-IsApart lo hi x y o s ((c, d) ∷ r) m inside w pos a h = elim (Bool-cases (ltb c o)) [
  | inl e ↦ rw e (
      link-IsApart x y c d (give o s r) (omega arith) pos h.0
        (give-IsApart (c + d + 1) hi x y o s r m inside w.3 pos a h.1))
  | inr e ↦ rw e (link-IsApart x y o s ((c, d) ∷ r) (omega arith) pos a h)
]
