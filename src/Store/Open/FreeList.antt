-- ===== src/Store/Open/FreeList.antt =====
-- The free list that `rebuild_free_list` of rawobjstr/src/store.rs leaves.
use objstr.Base.{
  ℕ, ◌+◌, ◌-◌, ◌%◌, ◌≤◌, ◌<◌, ◌^◌, ◌≡◌, refl, true, false, ◌&&◌, ◌||◌, not, inl, inr, List, [], ◌∷◌,
  ltb, leb, arith, tests, Bool-cases,
}
use objstr.RawError.{data_start, block_alignment}
use objstr.Alloc.{Region, insert_sorted, sort_go, sort_by_offset, from_free_list}
use objstr.Alloc.Shape.{IsSeparated, covers, within, IsApart}
use objstr.Alloc.Take.{IsSeparated-weaken}
use objstr.Alloc.Apart.{Apart, Apart-sym}
use objstr.Alloc.Laws.{AllAligned, IsValid}
use objstr.Alloc.Restore.{from_free_list_valid}
use objstr.Store.Open.{gaps}

-- In order inside [lo, hi), none empty, no two with a common byte.
abbrev pub IsPacked : ℕ → ℕ → List Region → Type 0
IsPacked lo hi [] = Unit {0}
IsPacked lo hi ((o, s) ∷ r) = (lo ≤ o) × (0 < s) × (o + s ≤ hi) × IsPacked (o + s) hi r

gaps-IsSeparated :
    (lo hi : ℕ) (used : List Region) → IsPacked lo hi used → IsSeparated lo hi (gaps hi lo used)
unfolding gaps
gaps-IsSeparated lo hi [] h = ground arith
gaps-IsSeparated lo hi ((o, s) ∷ r) h =
    let rest = gaps-IsSeparated (o + s) hi r h.3 in
    elim (Bool-cases (ltb lo o)) [
      | inl e ↦ rw e (
        omega (tests),
        omega (tests),
        omega tests,
        IsSeparated-weaken (o + s) (lo + (o - lo) + 1) hi (gaps hi (o + s) r) (omega (tests)) rest,
      )
      | inr e ↦ rw e (IsSeparated-weaken (o + s) lo hi (gaps hi (o + s) r) (omega arith) rest)
    ]

below-IsPacked : (x lo hi : ℕ) (l : List Region) → x < lo → IsPacked lo hi l → covers x l ≡ false
unfolding covers
below-IsPacked x lo hi [] b h = refl
below-IsPacked x lo hi ((o, s) ∷ r) b h = ground (arith, below-IsPacked x (o + s) hi r)

covers-gaps :
    (x lo hi : ℕ) (used : List Region)
    → IsPacked lo hi used
    → covers x (gaps hi lo used) ≡ (leb lo x && ltb x hi && not (covers x used))
unfolding gaps covers
covers-gaps x lo hi [] h = ground arith
covers-gaps x lo hi ((o, s) ∷ r) h =
    let rest = covers-gaps x (o + s) hi r h.3 in
    let below = below-IsPacked x (o + s) hi r in
    elim (Bool-cases (ltb lo o)) [ inl e ↦ rw e (ground arith) | inr e ↦ rw e (ground arith) ]

insert_sorted-IsPacked :
    (lo hi o s : ℕ) (l : List Region)
    → lo ≤ o
    → 0 < s
    → o + s ≤ hi
    → IsApart o s l
    → IsPacked lo hi l
    → IsPacked lo hi (insert_sorted (o, s) l)
unfolding insert_sorted
insert_sorted-IsPacked lo hi o s [] a b c h p = (a, b, c, tt)
insert_sorted-IsPacked lo hi o s ((u, v) ∷ r) a b c h p =
    ground (arith, insert_sorted-IsPacked (u + v) hi o s r)

covers-insert_sorted :
    (x o s : ℕ) (l : List Region) → covers x (insert_sorted (o, s) l) ≡ (within x o s || covers x l)
unfolding insert_sorted covers
covers-insert_sorted x o s [] = refl
covers-insert_sorted x o s ((u, v) ∷ r) = ground (arith, covers-insert_sorted x o s r)

gaps-AllAligned :
    (lo hi : ℕ) (used : List Region)
    → lo % block_alignment ≡ 0
    → hi % block_alignment ≡ 0
    → AllAligned used
    → IsPacked lo hi used
    → AllAligned (gaps hi lo used)
unfolding gaps
gaps-AllAligned lo hi [] p q a h = ground arith
gaps-AllAligned lo hi ((o, s) ∷ r) p q a h =
    let rest = gaps-AllAligned (o + s) hi r (omega arith) q a.2 h.3 in
    elim (Bool-cases (ltb lo o)) [ inl e ↦ rw e (p, omega tests, rest) | inr e ↦ rw e rest ]

insert_sorted-AllAligned :
    (o s : ℕ) (l : List Region)
    → o % block_alignment ≡ 0
    → s % block_alignment ≡ 0
    → AllAligned l
    → AllAligned (insert_sorted (o, s) l)
unfolding insert_sorted
insert_sorted-AllAligned o s [] p q a = (p, q, tt)
insert_sorted-AllAligned o s ((u, v) ∷ r) p q a =
    let rest = insert_sorted-AllAligned o s r p q a.2 in
    elim (Bool-cases (ltb o u)) [ inl e ↦ rw e (p, q, a) | inr e ↦ rw e (a.0, a.1, rest) ]

insert_sorted-IsApart :
    (u v o s : ℕ) (l : List Region)
    → Apart o s u v
    → IsApart u v l
    → IsApart u v (insert_sorted (o, s) l)
unfolding insert_sorted
insert_sorted-IsApart u v o s [] p a = (p, tt)
insert_sorted-IsApart u v o s ((x, y) ∷ r) p a =
    let rest = insert_sorted-IsApart u v o s r p a.1 in
    elim (Bool-cases (ltb o x)) [ inl e ↦ rw e (p, a) | inr e ↦ rw e (a.0, rest) ]

-- Every region inside [lo, hi), not empty, of whole blocks, and apart from the later ones.
abbrev pub AreDisjoint : ℕ → ℕ → List Region → Type 0
AreDisjoint lo hi [] = Unit {0}
AreDisjoint lo hi ((o, s) ∷ r) =
    ((lo ≤ o) × (0 < s) × (o + s ≤ hi) × (o % block_alignment ≡ 0) × (s % block_alignment ≡ 0))
    × IsApart o s r
    × AreDisjoint lo hi r

-- Every region of the second list is apart from those of the first.
abbrev AllApart : List Region → List Region → Type 0
AllApart acc [] = Unit {0}
AllApart acc ((o, s) ∷ r) = IsApart o s acc × AllApart acc r

insert_sorted-AllApart :
    (o s : ℕ) (acc l : List Region)
    → IsApart o s l
    → AllApart acc l
    → AllApart (insert_sorted (o, s) acc) l
insert_sorted-AllApart o s acc [] p a = tt
insert_sorted-AllApart o s acc ((u, v) ∷ r) p a = (
  insert_sorted-IsApart u v o s acc (Apart-sym u v o s p.0) a.0,
  insert_sorted-AllApart o s acc r p.1 a.1,
)

sort_go-IsPacked :
    (lo hi : ℕ) (acc l : List Region)
    → IsPacked lo hi acc
    → AllAligned acc
    → AllApart acc l
    → AreDisjoint lo hi l
    → IsPacked lo hi (sort_go acc l)
      × AllAligned (sort_go acc l)
      × ((x : ℕ) → covers x (sort_go acc l) ≡ (covers x acc || covers x l))
unfolding sort_go covers
sort_go-IsPacked lo hi acc [] p al a d = (p, al, λ x. ground arith)
sort_go-IsPacked lo hi acc ((o, s) ∷ r) p al a d =
    let (in_order, blocks, same_bytes) =
      sort_go-IsPacked lo hi (insert_sorted (o, s) acc) r
        (insert_sorted-IsPacked lo hi o s acc d.0.0 d.0.1 d.0.2 a.0 p)
        (insert_sorted-AllAligned o s acc d.0.3 d.0.4 al) (insert_sorted-AllApart o s acc r d.1 a.1)
        d.2 in
    (
      in_order,
      blocks,
      λ x. let e = same_bytes x in let f = covers-insert_sorted x o s acc in ground arith,
    )

AllApart-nil : (l : List Region) → AllApart [] l
AllApart-nil [] = tt
AllApart-nil ((o, s) ∷ r) = (tt, AllApart-nil r)

sort_by_offset-IsPacked :
    (lo hi : ℕ) (l : List Region)
    → AreDisjoint lo hi l
    → IsPacked lo hi (sort_by_offset l)
      × AllAligned (sort_by_offset l)
      × ((x : ℕ) → covers x (sort_by_offset l) ≡ covers x l)
unfolding sort_by_offset covers
sort_by_offset-IsPacked lo hi l d = sort_go-IsPacked lo hi [] l tt tt (AllApart-nil l) d

-- Regions that are not empty and cover no byte of [o, o + s) are apart from it.
pub uncovered-IsApart :
    (o s lo hi : ℕ) (l : List Region)
    → 0 < s
    → IsSeparated lo hi l
    → ((x : ℕ) → within x o s ≡ true → covers x l ≡ false)
    → IsApart o s l
unfolding covers
uncovered-IsApart o s lo hi [] pos w h = tt
uncovered-IsApart o s lo hi ((a, b) ∷ r) pos w h = (
  (let first = h o in let later = h a in ground arith),
  uncovered-IsApart o s (a + b + 1) hi r pos w.3 (λ x e. let f = h x e in ground arith),
)

-- The free list of a device whose used regions are disjoint blocks in its data area.
pub gaps-sort_by_offset :
    (hi : ℕ) (used : List Region)
    → hi < 2 ^ 64
    → hi % block_alignment ≡ 0
    → AreDisjoint data_start hi used
    → let free = gaps hi data_start (sort_by_offset used) in
      IsValid data_start hi (from_free_list free data_start hi)
      × ((x : ℕ)
          → covers x (from_free_list free data_start hi).free_list
            ≡ (leb data_start x && ltb x hi && not (covers x used)))
gaps-sort_by_offset hi used m al d =
    let (in_order, blocks, same_bytes) = sort_by_offset-IsPacked data_start hi used d in
    let free = gaps hi data_start (sort_by_offset used) in
    let v : IsValid data_start hi (record { free_list = free; alignment = block_alignment }) =
      record {
        separated = gaps-IsSeparated data_start hi (sort_by_offset used) in_order;
        aligned = gaps-AllAligned data_start hi (sort_by_offset used) refl al blocks in_order;
        by_block = refl;
        end_bound = m;
      } in
    rw (from_free_list_valid v) (
      v,
      λ x.
          let e = same_bytes x in
          let f = covers-gaps x data_start hi (sort_by_offset used) in_order in rw (f, e) refl,
    )
