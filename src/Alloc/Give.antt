-- ===== src/Alloc/Give.antt =====
-- `free` of rawobjstr/src/allocator.rs: insertion with the merges on both sides.
use objstr.Base.{
  ℕ, zero, suc, ◌+◌, ◌≤◌, ◌<◌, ◌^◌, ◌≡◌, refl, ap, true, ◌||◌, inl, inr, List, [], ◌∷◌, ltb, ◌==◌,
  if◌then◌else◌, arith, Bool-cases, ◌∙◌,
}
use objstr.RawError.{sat_add}
use objstr.Alloc.{Region, merge_at, free_at, partition_point, free_list_free, free_space}
use objstr.Alloc.Shape.{IsSeparated, within, covers, IsApart}
use objstr.Alloc.Take.{Takes, whole, split, skip, Takes-IsSeparated, IsSeparated-weaken}

-- The structural form: a region joins the head of the list behind it when they touch.
abbrev pub link : Region → List Region → List Region
link (o, s) [] = (o, s) ∷ []
link (o, s) ((a, b) ∷ r) = if sat_add o s == a then (o, s + b) ∷ r else (o, s) ∷ (a, b) ∷ r

unfoldable pub give : ℕ → ℕ → List Region → List Region
give o s [] = (o, s) ∷ []
give o s ((a, b) ∷ r) = if ltb a o then link (a, b) (give o s r) else link (o, s) ((a, b) ∷ r)

merge_at-zero : (e : Region) (r : List Region) → merge_at zero (e ∷ r) ≡ link e r
unfolding merge_at
merge_at-zero e [] = refl
merge_at-zero e (f ∷ r) = refl

merge_at-suc : (i : ℕ) (e : Region) (r : List Region) → merge_at (suc i) (e ∷ r) ≡ e ∷ merge_at i r
unfolding merge_at
merge_at-suc i e r = ground arith

-- The first region begins above `k`.
abbrev HeadAbove : ℕ → List Region → Type 0
HeadAbove k [] = Unit {0}
HeadAbove k ((c, d) ∷ r) = k < c

IsSeparated-HeadAbove : (k hi : ℕ) (l : List Region) → IsSeparated (k + 1) hi l → HeadAbove k l
IsSeparated-HeadAbove k hi [] w = tt
IsSeparated-HeadAbove k hi ((a, b) ∷ r) w = omega arith

link-above :
    (a b : ℕ) (l : List Region) → a + b < 2 ^ 64 → HeadAbove (a + b) l → link (a, b) l ≡ (a, b) ∷ l
link-above a b [] m h = refl
link-above a b ((c, d) ∷ r) m h = ground arith

link-HeadAbove : (k a b : ℕ) (l : List Region) → k < a → HeadAbove k (link (a, b) l)
link-HeadAbove k a b [] h = h
link-HeadAbove k a b ((c, d) ∷ r) h = elim (Bool-cases (sat_add a b == c)) [
  | inl e ↦ rw e h
  | inr e ↦ rw e h
]

give-HeadAbove : (k o s : ℕ) (l : List Region) → k < o → HeadAbove k l → HeadAbove k (give o s l)
unfolding give
give-HeadAbove k o s [] h w = h
give-HeadAbove k o s ((a, b) ∷ r) h w = elim (Bool-cases (ltb a o)) [
  | inl e ↦ rw e (link-HeadAbove k a b (give o s r) w)
  | inr e ↦ rw e (link-HeadAbove k o s ((a, b) ∷ r) h)
]

free_at-cons_zero :
    (a b o s : ℕ) (r : List Region) → free_at 1 o s ((a, b) ∷ r) ≡ link (a, b) (free_at 0 o s r)
unfolding free_at
free_at-cons_zero a b o s r = rw (merge_at-suc, merge_at-zero)

free_at-cons_suc :
    (q a b o s : ℕ) (r : List Region)
    → free_at (suc (suc q)) o s ((a, b) ∷ r) ≡ (a, b) ∷ free_at (suc q) o s r
unfolding free_at
free_at-cons_suc q a b o s r = rw (merge_at-suc, merge_at-suc)

free_at-zero : (o s : ℕ) (l : List Region) → free_at 0 o s l ≡ link (o, s) l
unfolding free_at
free_at-zero o s l = merge_at-zero (o, s) l

module _ (hi o s : ℕ) (m : hi < 2 ^ 64) where
  past :
      (a b c d : ℕ) (r : List Region)
      → ltb a o ≡ true
      → ltb c o ≡ true
      → IsSeparated (a + b) hi ((c, d) ∷ r)
      → a + b < c
      → free_list_free ((c, d) ∷ r) o s ≡ give o s ((c, d) ∷ r)
      → free_list_free ((a, b) ∷ (c, d) ∷ r) o s ≡ link (a, b) (give o s ((c, d) ∷ r))
  unfolding free_list_free
  past a b c d r e f w gap ih =
      let above : HeadAbove (a + b) (give o s ((c, d) ∷ r)) =
        give-HeadAbove (a + b) o s ((c, d) ∷ r) (ground arith) gap in
      rw (link-above a b (give o s ((c, d) ∷ r)) (omega arith) above) (
        rw (e, f)
          (free_at-cons_suc (partition_point o r) a b o s ((c, d) ∷ r)
            ∙ ap (λ t. (a, b) ∷ t) (rw f at ih)))

  give-past :
      (a b : ℕ) (r : List Region)
      → ltb a o ≡ true
      → link (a, b) (give o s r) ≡ give o s ((a, b) ∷ r)
  unfolding give
  give-past a b r e = rw e

  pub free_list_free-give :
      (lo : ℕ) (l : List Region) → IsSeparated lo hi l → free_list_free l o s ≡ give o s l
  unfolding free_list_free give
  free_list_free-give lo [] w = free_at-zero o s []
  free_list_free-give lo ((a, b) ∷ []) w = elim (Bool-cases (ltb a o)) [
    | inl e ↦ rw e (free_at-cons_zero a b o s [] ∙ ap (link (a, b)) (free_at-zero o s []))
    | inr e ↦ rw e (free_at-zero o s ((a, b) ∷ []))
  ]
  free_list_free-give lo ((a, b) ∷ (c, d) ∷ r) w =
      let ih = free_list_free-give (a + b + 1) ((c, d) ∷ r) w.3 in
      elim (Bool-cases (ltb a o)) [
        | inr e ↦ rw e (free_at-zero o s ((a, b) ∷ (c, d) ∷ r))
        | inl e ↦ elim (Bool-cases (ltb c o)) [
          | inr f ↦
              let ih' : free_at 0 o s ((c, d) ∷ r) ≡ link (o, s) ((c, d) ∷ r) =
                free_at-zero o s ((c, d) ∷ r) in
              rw (e, f) (free_at-cons_zero a b o s ((c, d) ∷ r) ∙ ap (link (a, b)) ih')
          | inl f ↦
              past a b c d r e f (omega arith, w.3.1, w.3.2, w.3.3) (omega arith) ih
              ∙ give-past a b ((c, d) ∷ r) e
        ]
      ]

module _ (hi o s : ℕ) (m : hi < 2 ^ 64) (pos : 0 < s) (inside : o + s ≤ hi) where
  link-covers :
      (x a b : ℕ) (l : List Region)
      → a + b < 2 ^ 64
      → covers x (link (a, b) l) ≡ (within x a b || covers x l)
  unfolding covers
  link-covers x a b [] h = ground arith
  link-covers x a b ((c, d) ∷ r) h = ground arith

  pub give-covers :
      (lo x : ℕ) (l : List Region)
      → IsSeparated lo hi l
      → covers x (give o s l) ≡ (within x o s || covers x l)
  unfolding give covers
  give-covers lo x [] w = ground arith
  give-covers lo x ((a, b) ∷ r) w = ground (
    arith,
    link-covers x a b (give o s r),
    link-covers x o s ((a, b) ∷ r),
    give-covers (a + b + 1) x r,
  )

  link-free_space : (a b : ℕ) (l : List Region) → free_space (link (a, b) l) ≡ b + free_space l
  unfolding free_space
  link-free_space a b [] = ground arith
  link-free_space a b ((c, d) ∷ r) = ground arith

  pub give-free_space : (l : List Region) → free_space (give o s l) ≡ s + free_space l
  unfolding give free_space
  give-free_space [] = ground arith
  give-free_space ((a, b) ∷ r) =
      ground (
        arith,
        link-free_space a b (give o s r),
        link-free_space o s ((a, b) ∷ r),
        give-free_space r,
      )

  link-IsSeparated :
      (lo a b : ℕ) (l : List Region)
      → lo ≤ a
      → 0 < b
      → a + b ≤ hi
      → IsSeparated (a + b) hi l
      → IsSeparated lo hi (link (a, b) l)
  link-IsSeparated lo a b [] h p q w = (h, p, q, tt)
  link-IsSeparated lo a b ((c, d) ∷ r) h p q w = elim (Bool-cases (sat_add a b == c)) [
    | inl e ↦
        let t : a + b ≡ c = ground arith in
        rw e (
          h,
          omega arith,
          omega arith,
          IsSeparated-weaken (c + d + 1) (a + (b + d) + 1) hi r (omega arith) w.3,
        )
    | inr e ↦ rw e (h, p, q, (ground arith, w.1, w.2, w.3))
  ]

  pub give-IsSeparated :
      (lo : ℕ) (l : List Region)
      → lo ≤ o
      → IsSeparated lo hi l
      → IsApart o s l
      → IsSeparated lo hi (give o s l)
  unfolding give
  give-IsSeparated lo [] h w p = (h, pos, inside, tt)
  give-IsSeparated lo ((a, b) ∷ r) h w p = elim (Bool-cases (ltb a o)) [
    | inl e ↦ rw e (
        link-IsSeparated lo a b (give o s r) w.0 w.1 w.2 (
          give-IsSeparated (a + b) r (ground (arith, p.0))
            (IsSeparated-weaken (a + b + 1) (a + b) hi r (omega arith) w.3) p.1))
    | inr e ↦
        rw e
          (link-IsSeparated lo o s ((a, b) ∷ r) h pos inside (ground (arith, p.0), w.1, w.2, w.3))
  ]

give-ahead :
    (hi o s : ℕ) (r : List Region)
    → o + s < 2 ^ 64
    → IsSeparated (o + s + 1) hi r
    → give o s r ≡ (o, s) ∷ r
unfolding give
give-ahead hi o s [] m w = refl
give-ahead hi o s ((a, b) ∷ r) m w = ground arith

-- Giving back what was taken restores the list.
pub give-Takes :
    {n off : ℕ} {l l' : List Region}
    → Takes n off l l'
    → (hi lo : ℕ) → 0 < n
    → hi < 2 ^ 64
    → IsSeparated lo hi l
    → give off n l' ≡ l
unfolding give
give-Takes {n} {off} (whole {s} {r} e) hi lo pos m w =
    rw (← e) (give-ahead hi off s r (omega arith) w.3)
give-Takes {n} {off} (split {s} {r} e) hi lo pos m w = ground arith
give-Takes {n} {off} (skip {o} {s} {l} {l'} e t) hi lo pos m w =
    let (w', a, b) = Takes-IsSeparated hi pos t (o + s + 1) w.3 in
    let f : ltb o off ≡ true = ground arith in
    rw f (
      rw (give-Takes t hi (o + s + 1) pos m w.3)
        (link-above o s l (omega arith) (IsSeparated-HeadAbove (o + s) hi l w.3)))
