-- ===== src/Alloc/Laws.antt =====
-- The contract of rawobjstr/src/allocator.rs: validity, the bytes that are free, and the round trip
-- of `alloc` and `free`.
use mathlib.Core.Path.{subst}
use objstr.Base.{
  ℕ, ◌+◌, ◌%◌, ◌≤◌, ◌<◌, ◌^◌, ◌≡◌, refl, ap, true, false, ◌||◌, inl, inr, List, [], ◌∷◌, ltb, ◌==◌,
  arith, Bool-cases, ◌∙◌,
}
use objstr.RawError.{Result, ok, err, no_space, align_up, block_alignment, sat_add}
use objstr.Alloc.{
  ExtentAllocator, Region, alloc_list, alloc, free, free_list_free, free_space, largest,
}
use objstr.Alloc.Shape.{IsSeparated, within, covers, IsApart}
use objstr.Alloc.Take.{
  Takes, whole, split, skip, AllBelow, alloc_list-Takes, alloc_list-AllBelow, Takes-IsSeparated,
  Takes-covers, Takes-disjoint, Takes-free_space,
}
use objstr.Alloc.Give.{
  give, link, free_list_free-give, give-covers, give-free_space, give-IsSeparated, give-Takes,
}

-- Every offset and size is a multiple of the block.
abbrev pub AllAligned : List Region → Type 0
AllAligned [] = Unit {0}
AllAligned ((o, s) ∷ r) = (o % block_alignment ≡ 0) × (s % block_alignment ≡ 0) × AllAligned r

pub record IsValid (lo hi : ℕ) (a : ExtentAllocator) : Type 0 where
  pub separated : IsSeparated lo hi a.free_list
  pub aligned : AllAligned a.free_list
  pub by_block : a.alignment ≡ block_alignment
  pub end_bound : hi < 2 ^ 64

-- A size that `align_up` rounds without wrapping.
abbrev pub IsSize : ℕ → Type 0
IsSize needed = (0 < needed) × (needed + block_alignment ≤ 2 ^ 64)

pub align_up_bounds :
    (needed : ℕ)
    → IsSize needed
    → (align_up needed block_alignment % block_alignment ≡ 0)
      × (needed ≤ align_up needed block_alignment)
      × (align_up needed block_alignment < needed + block_alignment)
unfolding align_up
align_up_bounds needed h = omega arith

module _ {n off : ℕ} (al : n % block_alignment ≡ 0) where
  Takes-AllAligned :
      {l l' : List Region}
      → Takes n off l l'
      → AllAligned l
      → AllAligned l' × (off % block_alignment ≡ 0)
  Takes-AllAligned (whole e) h = (h.2, h.0)
  Takes-AllAligned (split e) h = ((omega arith, omega arith, h.2), h.0)
  Takes-AllAligned (skip e t) h = let (u, v) = Takes-AllAligned t h.2 in ((h.0, h.1, u), v)

link-AllAligned :
    (o s : ℕ) (l : List Region)
    → o % block_alignment ≡ 0
    → s % block_alignment ≡ 0
    → AllAligned l
    → AllAligned (link (o, s) l)
link-AllAligned o s [] p q h = (p, q, tt)
link-AllAligned o s ((a, b) ∷ r) p q h = elim (Bool-cases (sat_add o s == a)) [
  | inl e ↦ rw e (p, omega arith, h.2)
  | inr e ↦ rw e (p, q, h)
]

give-AllAligned :
    (o s : ℕ) (l : List Region)
    → o % block_alignment ≡ 0
    → s % block_alignment ≡ 0
    → AllAligned l
    → AllAligned (give o s l)
unfolding give
give-AllAligned o s [] p q h = (p, q, tt)
give-AllAligned o s ((a, b) ∷ r) p q h = elim (Bool-cases (ltb a o)) [
  | inl e ↦ rw e (link-AllAligned a b (give o s r) h.0 h.1 (give-AllAligned o s r p q h.2))
  | inr e ↦ rw e (link-AllAligned o s ((a, b) ∷ r) p q h)
]

-- A successful `alloc` is a `Takes` of the aligned size.
abbrev Allocated : ExtentAllocator → ℕ → Result (ℕ × ExtentAllocator) → Type 0
Allocated a n (ok (off, a')) =
    Takes n off a.free_list a'.free_list × (a' ≡ record a { free_list = a'.free_list })
Allocated a n (err e) = AllBelow n a.free_list × (e ≡ no_space n (largest a.free_list))

pub alloc-Allocated :
    (a : ExtentAllocator) (needed : ℕ) → Allocated a (align_up needed a.alignment) (alloc a needed)
unfolding alloc
alloc-Allocated a needed = go (alloc_list (align_up needed a.alignment) a.free_list) refl
  where
    go :
        (r : Result (ℕ × List Region))
        → alloc_list (align_up needed a.alignment) a.free_list ≡ r
        → Allocated a
            (align_up needed a.alignment)
            (elim r [ err e ↦ err e | ok (offset, l) ↦ ok (offset, record a { free_list = l }) ])
    go (ok (off, l)) e = (alloc_list-Takes (align_up needed a.alignment) off a.free_list l e, refl)
    go (err x) e = alloc_list-AllBelow (align_up needed a.alignment) a.free_list x e

module _ {lo hi needed off : ℕ} {a a' : ExtentAllocator} (v : IsValid lo hi a)
    (size : IsSize needed) (done : alloc a needed ≡ ok (off, a')) where
  pub allocated :
      Takes (align_up needed block_alignment) off a.free_list a'.free_list
      × (a' ≡ record a { free_list = a'.free_list })
  allocated =
      rw (← v.by_block)
        (subst (Allocated a (align_up needed a.alignment)) done (alloc-Allocated a needed))

  needed_bounds :
      (align_up needed block_alignment % block_alignment ≡ 0)
      × (needed ≤ align_up needed block_alignment)
      × (align_up needed block_alignment < needed + block_alignment)
  needed_bounds = align_up_bounds needed size

  -- For a valid allocator and a positive size that rounds without wrapping: a region that `alloc`
  -- returns lies block-aligned inside the data area, and what is left is valid.
  pub alloc-IsValid :
      IsValid lo hi a'
      × (lo ≤ off)
      × (off + align_up needed block_alignment ≤ hi)
      × (off % block_alignment ≡ 0)
  alloc-IsValid =
      let (w, p, q) =
        Takes-IsSeparated hi (omega (arith, needed_bounds)) allocated.0 lo v.separated in
      let (u, z) = Takes-AllAligned needed_bounds.0 allocated.0 v.aligned in
      (
        record {
          separated = w;
          aligned = u;
          by_block = ap (λ t. t.alignment) allocated.1 ∙ v.by_block;
          end_bound = v.end_bound;
        },
        p,
        q,
        z,
      )

  -- For a valid allocator and a positive size that rounds without wrapping: the free bytes before
  -- a successful `alloc` are those of the region and those free after, and no byte is both.
  pub alloc-covers :
      (x : ℕ)
      → (covers x a.free_list
          ≡ (within x off (align_up needed block_alignment) || covers x a'.free_list))
        × (within x off (align_up needed block_alignment) ≡ true → covers x a'.free_list ≡ false)
  alloc-covers x = (
    Takes-covers hi (omega (arith, needed_bounds)) allocated.0 x,
    Takes-disjoint hi (omega (arith, needed_bounds)) allocated.0 lo x v.separated,
  )

  -- For a valid allocator and a positive size that rounds without wrapping: the free space falls
  -- by the aligned size.
  pub alloc-free_space :
      free_space a.free_list ≡ align_up needed block_alignment + free_space a'.free_list
  alloc-free_space = Takes-free_space hi (omega (arith, needed_bounds)) allocated.0

  -- For a valid allocator and a positive size that rounds without wrapping: `free` of the region
  -- that `alloc` returned restores the allocator exactly.
  pub free-alloc : free a' off (align_up needed block_alignment) ≡ a
  unfolding free
  free-alloc =
      let n = align_up needed block_alignment in
      let list : free_list_free a'.free_list off n ≡ a.free_list =
        free_list_free-give hi off n v.end_bound lo a'.free_list alloc-IsValid.0.separated
        ∙ give-Takes allocated.0 hi lo (omega (arith, needed_bounds)) v.end_bound v.separated in
      let same : a'.alignment ≡ a.alignment = ap (λ t. t.alignment) allocated.1 in
      λ i. record { free_list = list i; alignment = same i }

AllBelow-largest : (n : ℕ) (l : List Region) → 0 < n → AllBelow n l → largest l < n
unfolding largest
AllBelow-largest n [] h w = omega arith
AllBelow-largest n ((o, s) ∷ r) h w = omega (arith, AllBelow-largest n r h w.1)

Takes-largest : {n off : ℕ} {l l' : List Region} → Takes n off l l' → n ≤ largest l
unfolding largest
Takes-largest (whole e) = omega arith
Takes-largest (split e) = omega arith
Takes-largest (skip e t) = omega (arith, Takes-largest t)

module _ {lo hi needed : ℕ} {a : ExtentAllocator} (v : IsValid lo hi a) (size : IsSize needed) where
  -- For a valid allocator and a positive size that rounds without wrapping: `alloc` succeeds if
  -- the largest free region holds the aligned size; otherwise its error reports the aligned size
  -- and the largest free region.
  pub alloc_outcome :
      (align_up needed block_alignment ≤ largest a.free_list
        → (off : ℕ) × (a' : ExtentAllocator) × (alloc a needed ≡ ok (off, a')))
      × (largest a.free_list < align_up needed block_alignment
          → alloc a needed ≡ err (no_space (align_up needed block_alignment) (largest a.free_list)))
  alloc_outcome = go (alloc a needed) refl
    where
      go :
          (r : Result (ℕ × ExtentAllocator))
          → alloc a needed ≡ r
          → (align_up needed block_alignment ≤ largest a.free_list
              → (off : ℕ) × (a' : ExtentAllocator) × (r ≡ ok (off, a')))
            × (largest a.free_list < align_up needed block_alignment
                → r ≡ err (no_space (align_up needed block_alignment) (largest a.free_list)))
      go (ok (off, a')) e =
          let t : Allocated a (align_up needed block_alignment) (ok (off, a')) =
            rw (← v.by_block)
              (subst (Allocated a (align_up needed a.alignment)) e (alloc-Allocated a needed)) in
          (λ _. (off, a', refl), λ h. absurd (omega (arith, Takes-largest t.0)))
      go (err x) e =
          let t : Allocated a (align_up needed block_alignment) (err x) =
            rw (← v.by_block)
              (subst (Allocated a (align_up needed a.alignment)) e (alloc-Allocated a needed)) in
          let big = align_up_bounds needed size in
          (
            λ h. absurd (
                omega (
                  arith,
                  AllBelow-largest (align_up needed block_alignment) a.free_list (omega arith) t.0,
                )),
            λ _. ap err t.1,
          )

module _ {lo hi o s : ℕ} {a : ExtentAllocator} (v : IsValid lo hi a)
    (start : o % block_alignment ≡ 0) (blocks : s % block_alignment ≡ 0) (some_bytes : 0 < s)
    (above : lo ≤ o) (inside : o + s ≤ hi) (apart : IsApart o s a.free_list) where
  pub freed : free_list_free a.free_list o s ≡ give o s a.free_list
  freed = free_list_free-give hi o s v.end_bound lo a.free_list v.separated

  -- Freeing a block-aligned region of the data area that is not empty and shares no byte with the
  -- free ones keeps the allocator valid: sorted, in bounds, and merged with both neighbours.
  pub free-IsValid : IsValid lo hi (free a o s)
  unfolding free
  free-IsValid = record {
    separated = rw freed (
        give-IsSeparated hi o s v.end_bound some_bytes inside lo a.free_list above v.separated
          apart);
    aligned = rw freed (give-AllAligned o s a.free_list start blocks v.aligned);
    by_block = v.by_block;
    end_bound = v.end_bound;
  }

  -- After `free` of such a region, block-aligned, not empty and apart from the free ones, the free
  -- bytes are those free before and those of the region, and the free space has grown by its size.
  pub free-covers :
      ((x : ℕ) → covers x (free a o s).free_list ≡ (within x o s || covers x a.free_list))
      × (free_space (free a o s).free_list ≡ s + free_space a.free_list)
  unfolding free
  free-covers = (
    λ x. rw freed (give-covers hi o s v.end_bound some_bytes inside lo x a.free_list v.separated),
    rw freed (give-free_space hi o s v.end_bound some_bytes inside a.free_list),
  )
