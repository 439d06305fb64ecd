-- ===== src/Store/Open/Rebuilt.antt =====
-- The allocator that `open_impl` of rawobjstr/src/store.rs rebuilds agrees with the index.
use mathlib.Core.Path.{subst}
use objstr.Base.{
  ℕ, ◌+◌, ◌*◌, ◌%◌, ◌≤◌, ◌<◌, ◌^◌, ◌≡◌, ◌≢◌, refl, ap, sym, ◌∙◌, true, ◌&&◌, not, inl, inr, some,
  List, [], ◌∷◌, ltb, leb, arith,
}
use objstr.RawError.{Bytes, data_start, block_alignment}
use objstr.Alloc.{Region, from_free_list, sort_by_offset}
use objstr.Alloc.Shape.{covers, within, IsApart}
use objstr.Alloc.Apart.{Apart, Apart-sym}
use objstr.Extent.{num_blocks}
use objstr.Dict.{Dict, lookup, same→≡, lookup-cons}
use objstr.Index.{ExtentInfo, DeviceIndex}
use objstr.Store.Tidy.{IsTidy}
use objstr.Store.Open.{used_extents, gaps, rebuild_free_list, in_bounds}
use objstr.Store.Open.FreeList.{AreDisjoint, gaps-sort_by_offset, uncovered-IsApart}

-- An extent of whole blocks in the data area that ends at `hi`.
pub record IsExtent (hi : ℕ) (info : ExtentInfo) : Type 0 where
  pub aligned : info.offset % block_alignment ≡ 0
  pub start : data_start ≤ info.offset
  pub inside : info.offset + info.padded_size ≤ hi
  pub blocks : info.padded_size ≡ num_blocks info.size * block_alignment
  pub some_bytes : 0 < info.padded_size

abbrev regions_of : Dict ExtentInfo → List Region
regions_of [] = []
regions_of ((k, e) ∷ m) = (e.offset, e.padded_size) ∷ regions_of m

-- Every file is such an extent, and apart from the later ones.
abbrev pub AreExtents : ℕ → Dict ExtentInfo → Type 0
AreExtents hi [] = Unit {0}
AreExtents hi ((k, e) ∷ m) =
    IsExtent hi e × IsApart e.offset e.padded_size (regions_of m) × AreExtents hi m

regions_of-AreDisjoint :
    (hi : ℕ) (m : Dict ExtentInfo) → AreExtents hi m → AreDisjoint data_start hi (regions_of m)
regions_of-AreDisjoint hi [] h = tt
regions_of-AreDisjoint hi ((k, e) ∷ m) (x, a, h) = (
  (x.start, x.some_bytes, x.inside, x.aligned, omega (arith, x.blocks)),
  a,
  regions_of-AreDisjoint hi m h,
)

used_extents-all :
    (hi : ℕ) (m : Dict ExtentInfo)
    → hi < 2 ^ 64
    → AreExtents hi m
    → used_extents hi m ≡ regions_of m
unfolding used_extents in_bounds
used_extents-all hi [] b h = refl
used_extents-all hi ((k, e) ∷ m) b (x, a, h) =
    let ok : in_bounds hi e.offset e.padded_size ≡ true =
      (let p = x.start in let q = x.inside in let r = x.some_bytes in ground arith) in
    rw ok (ap (λ t. (e.offset, e.padded_size) ∷ t) (used_extents-all hi m b h))

covers-file :
    (hi x : ℕ) (k : Bytes) (i : ExtentInfo) (m : Dict ExtentInfo)
    → lookup k m ≡ some i
    → within x i.offset i.padded_size ≡ true
    → covers x (regions_of m) ≡ true
unfolding lookup covers
covers-file hi x k i [] h w = cc
covers-file hi x k i ((j, e) ∷ m) h w = elim (lookup-cons k j e i m h) [
  | inl (s, p) ↦ let here : within x e.offset e.padded_size ≡ true = rw p w in rw here refl
  | inr (s, p) ↦ rw (covers-file hi x k i m p w) (ground arith)
]

lookup-IsExtent :
    (hi : ℕ) (k : Bytes) (i : ExtentInfo) (m : Dict ExtentInfo)
    → lookup k m ≡ some i
    → AreExtents hi m
    → IsExtent hi i
unfolding lookup
lookup-IsExtent hi k i [] h a = cc
lookup-IsExtent hi k i ((j, e) ∷ m) h a = elim (lookup-cons k j e i m h) [
  | inl (s, p) ↦ subst (IsExtent hi) p a.0
  | inr (s, p) ↦ lookup-IsExtent hi k i m p a.2
]

-- A file apart from all is apart from the one that a key finds.
lookup-Apart :
    (k : Bytes) (i : ExtentInfo) (m : Dict ExtentInfo) (o s : ℕ)
    → lookup k m ≡ some i
    → IsApart o s (regions_of m)
    → Apart o s i.offset i.padded_size
unfolding lookup
lookup-Apart k i [] o s h a = cc
lookup-Apart k i ((j, e) ∷ m) o s h a = elim (lookup-cons k j e i m h) [
  | inl (q, p) ↦
      subst (λ t. Apart o s t.offset t.padded_size) p (Apart-sym e.offset e.padded_size o s a.0)
  | inr (q, p) ↦ lookup-Apart k i m o s p a.1
]

lookup-both_Apart :
    (hi : ℕ) (k j : Bytes) (x y : ExtentInfo) (m : Dict ExtentInfo)
    → lookup k m ≡ some x
    → lookup j m ≡ some y
    → k ≢ j
    → AreExtents hi m
    → Apart x.offset x.padded_size y.offset y.padded_size
unfolding lookup
lookup-both_Apart hi k j x y [] h g ne a = cc
lookup-both_Apart hi k j x y ((l, e) ∷ m) h g ne a = elim (lookup-cons k l e x m h) [
  | inl (q, p) ↦ elim (lookup-cons j l e y m g) [
    | inl (r, _) ↦ absurd (ne (sym (same→≡ l k q) ∙ same→≡ l j r))
    | inr (r, u) ↦
        subst (λ t. Apart t.offset t.padded_size y.offset y.padded_size) p
          (lookup-Apart j y m e.offset e.padded_size u a.1)
  ]
  | inr (q, p) ↦ elim (lookup-cons j l e y m g) [
    | inl (r, u) ↦ Apart-sym y.offset y.padded_size x.offset x.padded_size (
        subst (λ t. Apart t.offset t.padded_size x.offset x.padded_size) u
          (lookup-Apart k x m e.offset e.padded_size p a.1))
    | inr (r, u) ↦ lookup-both_Apart hi k j x y m p u ne a.2
  ]
]

-- Over files whose extents are whole blocks of the data area, no two with a common byte, the free
-- list that `rebuild_free_list` makes gives an allocator that is tidy with them, and the bytes free
-- are those of the data area that no file has.
pub rebuild_free_list-IsTidy :
    (hi : ℕ) (index : DeviceIndex)
    → hi < 2 ^ 64
    → hi % block_alignment ≡ 0
    → AreExtents hi index.files
    → let a = from_free_list (rebuild_free_list index hi).1 data_start hi in
      IsTidy hi a index.files
      × ((x : ℕ)
          → covers x a.free_list
            ≡ (leb data_start x && ltb x hi && not (covers x (used_extents hi index.files))))
unfolding rebuild_free_list
rebuild_free_list-IsTidy hi index m al h =
    let e = used_extents-all hi index.files m h in
    let (v, bytes) =
      gaps-sort_by_offset hi (regions_of index.files) m al
        (regions_of-AreDisjoint hi index.files h) in
    rw e (
      record {
        valid = v;
        placed = λ k i found.
            let x = lookup-IsExtent hi k i index.files found h in
            record {
              aligned = x.aligned;
              start = x.start;
              inside = x.inside;
              blocks = x.blocks;
              some_bytes = x.some_bytes;
              not_free =
                  uncovered-IsApart i.offset i.padded_size data_start hi
                    (from_free_list (gaps hi data_start (sort_by_offset (regions_of index.files)))
                      data_start hi).free_list
                    x.some_bytes v.separated
                    (λ y w.
                      let f = covers-file hi y k i index.files found w in
                      let g = bytes y in g ∙ rw f (ground arith));
            };
        apart = λ k j x y p q ne. lookup-both_Apart hi k j x y index.files p q ne h;
      },
      bytes,
    )
