-- ===== src/Alloc/Restore.antt =====
-- `from_free_list` and `new` of rawobjstr/src/allocator.rs.
use mathlib.Core.List.{append_assoc, append-nil}
use objstr.Base.{
  ◌-◌, min, ℕ, ◌+◌, ◌%◌, ◌≤◌, ◌<◌, ◌^◌, ◌≡◌, refl, ◌&&◌, ◌==◌, suc, ap, Bool, true, if◌then◌else◌,
  inl, inr, List, [], ◌∷◌, ◌++◌, ltb, leb, arith, Bool-cases, ◌∙◌, sym,
}
use objstr.RawError.{block_alignment, sat_add}
use objstr.Alloc.{
  ExtentAllocator, Region, from_free_list, sort_by_offset, sort_go, insert_sorted, retain, new,
}
use objstr.Alloc.Shape.{IsSeparated, covers}
use objstr.Alloc.Laws.{IsValid}

abbrev AllBefore : ℕ → List Region → Type 0
AllBefore k [] = Unit {0}
AllBefore k ((o, s) ∷ r) = (o < k) × AllBefore k r

insert_sorted-last :
    (o s : ℕ) (l : List Region) → AllBefore o l → insert_sorted (o, s) l ≡ l ++ (o, s) ∷ []
unfolding insert_sorted
insert_sorted-last o s [] h = refl
insert_sorted-last o s ((a, b) ∷ r) h = ground (arith, insert_sorted-last o s r)

AllBefore-last :
    (k k' o s : ℕ) (l : List Region)
    → AllBefore k l
    → k ≤ k'
    → o < k'
    → AllBefore k' (l ++ (o, s) ∷ [])
AllBefore-last k k' o s [] h p q = (q, tt)
AllBefore-last k k' o s ((a, b) ∷ r) h p q = (omega arith, AllBefore-last k k' o s r h.1 p q)

AllBefore-mono : (k k' : ℕ) (l : List Region) → AllBefore k l → k ≤ k' → AllBefore k' l
AllBefore-mono k k' [] h p = tt
AllBefore-mono k k' ((o, s) ∷ r) h p = (omega arith, AllBefore-mono k k' r h.1 p)

sort_go-sorted :
    (lo hi : ℕ) (acc l : List Region)
    → AllBefore lo acc
    → IsSeparated lo hi l
    → sort_go acc l ≡ acc ++ l
unfolding sort_go
sort_go-sorted lo hi acc [] h w = sym (append-nil acc)
sort_go-sorted lo hi acc ((o, s) ∷ r) h w =
    rw (insert_sorted-last o s acc (AllBefore-mono lo o acc h w.0)) (
      sort_go-sorted (o + s + 1) hi (acc ++ (o, s) ∷ []) r
        (AllBefore-last lo (o + s + 1) o s acc h (omega arith) (omega arith)) w.3
      ∙ append_assoc acc ((o, s) ∷ []) r)

sorted-sort_by_offset : (lo hi : ℕ) (l : List Region) → IsSeparated lo hi l → sort_by_offset l ≡ l
unfolding sort_by_offset
sorted-sort_by_offset lo hi l w = sort_go-sorted lo hi [] l tt w

retain-all :
    (lo lo' hi : ℕ) (l : List Region)
    → lo ≤ lo'
    → hi < 2 ^ 64
    → IsSeparated lo' hi l
    → (retain (λ o s. leb lo o && leb (sat_add o s) hi) l ≡ l) × (retain (λ o s. ltb 0 s) l ≡ l)
unfolding retain
retain-all lo lo' hi [] p m w = (refl, refl)
retain-all lo lo' hi ((o, s) ∷ r) p m w =
    let (u, v) = retain-all lo (o + s + 1) hi r (omega arith) m w.3 in (ground arith, ground arith)

-- A valid free list is taken as it is.
pub from_free_list_valid :
    {lo hi : ℕ} {a : ExtentAllocator} → IsValid lo hi a → from_free_list a.free_list lo hi ≡ a
unfolding from_free_list
from_free_list_valid {lo} {hi} {a} v =
    let sorted : sort_by_offset a.free_list ≡ a.free_list =
      sorted-sort_by_offset lo hi a.free_list v.separated in
    let (bounds, sizes) = retain-all lo lo hi a.free_list (omega arith) v.end_bound v.separated in
    let list : (from_free_list a.free_list lo hi).free_list ≡ a.free_list =
      rw (sorted, sizes) bounds in
    λ i. record { free_list = list i; alignment = sym v.by_block i }

-- A fresh allocator over a block-aligned area below 2 ^ 64 is valid, and exactly the area's bytes
-- are free.
pub new-IsValid :
    (lo hi x : ℕ)
    → hi < 2 ^ 64
    → lo % block_alignment ≡ 0
    → hi % block_alignment ≡ 0
    → IsValid lo hi (new lo hi block_alignment)
      × (covers x (new lo hi block_alignment).free_list ≡ (leb lo x && ltb x hi))
unfolding new covers
new-IsValid lo hi x m p q = elim (Bool-cases (ltb lo hi)) [
  | inl e ↦ (
    record {
      separated = rw e (ground arith);
      aligned = rw e (ground arith);
      by_block = refl;
      end_bound = m;
    },
    rw e (ground arith),
  )
  | inr e ↦ (
    record { separated = rw e tt; aligned = rw e tt; by_block = refl; end_bound = m },
    rw e (ground arith),
  )
]

-- By offset, the smallest first.
abbrev pub IsSortedFrom : ℕ → List Region → Type 0
IsSortedFrom k [] = Unit {0}
IsSortedFrom k ((o, s) ∷ r) = (k ≤ o) × IsSortedFrom o r

-- How often a region stands in a list.
abbrev pub count : ℕ → ℕ → List Region → ℕ
count o s [] = 0
count o s ((a, b) ∷ r) = if a == o && b == s then suc (count o s r) else count o s r

IsSortedFrom-mono : (j k : ℕ) (l : List Region) → j ≤ k → IsSortedFrom k l → IsSortedFrom j l
IsSortedFrom-mono j k [] p h = tt
IsSortedFrom-mono j k ((o, s) ∷ r) p h = (omega (arith, h.0), h.1)

insert_sorted-IsSortedFrom :
    (k o s : ℕ) (l : List Region)
    → k ≤ o
    → IsSortedFrom k l
    → IsSortedFrom k (insert_sorted (o, s) l)
unfolding insert_sorted
insert_sorted-IsSortedFrom k o s [] p h = (p, tt)
insert_sorted-IsSortedFrom k o s ((a, b) ∷ r) p h =
    let rest = insert_sorted-IsSortedFrom a o s r in ground (arith, h.0, h.1)

count-insert_sorted :
    (x y o s : ℕ) (l : List Region) → count x y (insert_sorted (o, s) l) ≡ count x y ((o, s) ∷ l)
unfolding insert_sorted
count-insert_sorted x y o s [] = refl
count-insert_sorted x y o s ((a, b) ∷ r) =
    let rest = count-insert_sorted x y o s r in ground (arith, rest)

retain-IsSortedFrom :
    (keep : ℕ → ℕ → Bool) (k : ℕ) (l : List Region)
    → IsSortedFrom k l
    → IsSortedFrom k (retain keep l)
unfolding retain
retain-IsSortedFrom keep k [] h = tt
retain-IsSortedFrom keep k ((o, s) ∷ r) h = elim (Bool-cases (keep o s)) [
  | inl e ↦ rw e (h.0, retain-IsSortedFrom keep o r h.1)
  | inr e ↦ rw e (IsSortedFrom-mono k o (retain keep r) h.0 (retain-IsSortedFrom keep o r h.1))
]

count-retain :
    (keep : ℕ → ℕ → Bool) (x y : ℕ) (l : List Region)
    → count x y (retain keep l) ≡ (if keep x y then count x y l else 0)
unfolding retain
count-retain keep x y [] = ground arith
count-retain keep x y ((o, s) ∷ r) =
    let rest = count-retain keep x y r in
    let here : (o == x && s == y) ≡ true → keep o s ≡ keep x y = λ h.
      let p : o ≡ x = ground arith in
      let q : s ≡ y = ground arith in ap (λ t. keep t s) p ∙ ap (keep x) q in
    elim (Bool-cases (keep o s)) [ inl e ↦ rw e (ground arith) | inr e ↦ rw e (ground arith) ]

sort_go-IsSortedFrom : (acc l : List Region) → IsSortedFrom 0 acc → IsSortedFrom 0 (sort_go acc l)
unfolding sort_go
sort_go-IsSortedFrom acc [] h = h
sort_go-IsSortedFrom acc ((o, s) ∷ r) h =
    sort_go-IsSortedFrom (insert_sorted (o, s) acc) r
      (insert_sorted-IsSortedFrom 0 o s acc (omega arith) h)

count-sort_go :
    (x y : ℕ) (acc l : List Region) → count x y (sort_go acc l) ≡ count x y acc + count x y l
unfolding sort_go
count-sort_go x y acc [] = omega arith
count-sort_go x y acc ((o, s) ∷ r) =
    let rest = count-sort_go x y (insert_sorted (o, s) acc) r in
    let e = count-insert_sorted x y o s acc in ground (arith, rest, e)

-- From any free list, the entries inside the area that are not empty are kept, each as often as it
-- stands in the list and no others, and they are sorted by offset. One that ends behind 2 ^ 64 is taken
-- to end at 2 ^ 64 - 1.
pub from_free_list_lem :
    (free_list : List Region) (lo hi : ℕ)
    → IsSortedFrom 0 (from_free_list free_list lo hi).free_list
      × ((o s : ℕ)
          → count o s (from_free_list free_list lo hi).free_list ≡ (
              if ltb 0 s && leb lo o && leb (min (o + s) (2 ^ 64 - 1)) hi
              then count o s free_list
              else 0))
      × ((from_free_list free_list lo hi).alignment ≡ block_alignment)
unfolding from_free_list sort_by_offset
from_free_list_lem l lo hi = (
  retain-IsSortedFrom (λ o s. leb lo o && leb (sat_add o s) hi) 0
      (retain (λ o s. ltb 0 s) (sort_by_offset l))
      (retain-IsSortedFrom (λ o s. ltb 0 s) 0 (sort_by_offset l) (sort_go-IsSortedFrom [] l tt)),
  λ o s.
      let a =
        count-retain (λ o s. leb lo o && leb (sat_add o s) hi) o s
          (retain (λ o s. ltb 0 s) (sort_by_offset l)) in
      let b = count-retain (λ o s. ltb 0 s) o s (sort_by_offset l) in
      let c = count-sort_go o s [] l in ground (arith, a, b, c),
  refl,
)
