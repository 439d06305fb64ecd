-- ===== src/Store/Tidy.antt =====
-- The extents of the index in rawobjstr/src/store.rs against the allocator: no two files share a
-- byte, and no file shares one with the free list.
use mathlib.Core.Path.{subst}
use objstr.Base.{
  ℕ, ◌+◌, ◌*◌, ◌%◌, ◌≤◌, ◌<◌, ◌≡◌, ◌≢◌, ◌⊎◌, inl, inr, sym, ◌∙◌, true, some, arith, Bool-cases,
}
use objstr.RawError.{Bytes, ok, block_alignment, data_start, align_up}
use objstr.Alloc.{ExtentAllocator, alloc, free}
use objstr.Alloc.Shape.{IsApart}
use objstr.Alloc.Laws.{
  IsValid, IsSize, allocated, alloc-IsValid, free-alloc, free-IsValid, freed, align_up_bounds,
}
use objstr.Alloc.Apart.{Apart, Apart-sym, Takes-Apart, Takes-IsApart, give-IsApart}
use objstr.Extent.{num_blocks}
use objstr.Dict.{Dict, lookup, insert, remove, lookup-insert, lookup-remove, same, same_iff, same→≡}
use objstr.Index.{ExtentInfo}

-- One file's extent.
pub record IsPlaced (hi : ℕ) (a : ExtentAllocator) (info : ExtentInfo) : Type 0 where
  pub aligned : info.offset % block_alignment ≡ 0
  pub start : data_start ≤ info.offset
  pub inside : info.offset + info.padded_size ≤ hi
  pub blocks : info.padded_size ≡ num_blocks info.size * block_alignment
  pub some_bytes : 0 < info.padded_size
  pub not_free : IsApart info.offset info.padded_size a.free_list

abbrev pub ApartFiles : ExtentInfo → ExtentInfo → Type 0
ApartFiles i j = Apart i.offset i.padded_size j.offset j.padded_size

pub record IsTidy (hi : ℕ) (a : ExtentAllocator) (files : Dict ExtentInfo) : Type 0 where
  pub valid : IsValid data_start hi a
  pub placed : (k : Bytes) (i : ExtentInfo) → lookup k files ≡ some i → IsPlaced hi a i
  pub apart :
      (k j : Bytes) (x y : ExtentInfo)
      → lookup k files ≡ some x
      → lookup j files ≡ some y
      → k ≢ j
      → ApartFiles x y

-- A file that is left after a key is removed.
pub lookup-remove-some :
    (key k : Bytes) (i : ExtentInfo) (files : Dict ExtentInfo)
    → lookup k (remove key files) ≡ some i
    → (lookup k files ≡ some i) × (key ≢ k)
lookup-remove-some key k i files h = elim (Bool-cases (same key k)) [
  | inl e ↦ cc (rw (lookup-remove key k files, e) at h)
  | inr e ↦ (
    rw (lookup-remove key k files, e) at h,
    λ p. let q : same key k ≡ true = (same_iff key k).1 p in cc,
  )
]

pub remove-IsTidy :
    {hi : ℕ} {a : ExtentAllocator} (key : Bytes) (files : Dict ExtentInfo)
    → IsTidy hi a files
    → IsTidy hi a (remove key files)
remove-IsTidy key files t = record {
  valid = t.valid;
  placed = λ k i h. t.placed k i (lookup-remove-some key k i files h).0;
  apart = λ k j x y p q.
      t.apart k j x y (lookup-remove-some key k x files p).0 (lookup-remove-some key j y files q).0;
}

module _ {hi : ℕ} {a : ExtentAllocator} {files : Dict ExtentInfo} (t : IsTidy hi a files)
    (key : Bytes) (old : ExtentInfo) (found : lookup key files ≡ some old) where
  place : IsPlaced hi a old
  place = t.placed key old found

  blocked : old.padded_size % block_alignment ≡ 0
  blocked = omega (arith, place.blocks)

  -- A nonempty extent apart from the free list and from the freed file stays apart.
  pub free-keeps_Apart :
      (x y : ℕ)
      → 0 < y
      → Apart old.offset old.padded_size x y
      → IsApart x y a.free_list
      → IsApart x y (free a old.offset old.padded_size).free_list
  unfolding free
  free-keeps_Apart x y pos p h =
      rw
        (freed t.valid place.aligned blocked place.some_bytes place.start place.inside
          place.not_free)
        (give-IsApart data_start hi x y old.offset old.padded_size a.free_list t.valid.end_bound
          place.inside t.valid.separated pos p h)

  -- Removing a file and freeing its extent.
  pub free-IsTidy : IsTidy hi (free a old.offset old.padded_size) (remove key files)
  free-IsTidy = record {
    valid =
        free-IsValid t.valid place.aligned blocked place.some_bytes place.start place.inside
          place.not_free;
    placed = λ k i h.
        let (h', ne) = lookup-remove-some key k i files h in
        let p = t.placed k i h' in
        record {
          aligned = p.aligned;
          start = p.start;
          inside = p.inside;
          blocks = p.blocks;
          some_bytes = p.some_bytes;
          not_free =
              free-keeps_Apart i.offset i.padded_size p.some_bytes (t.apart key k old i found h' ne)
                p.not_free;
        };
    apart = λ k j x y p q.
        t.apart k j x y (lookup-remove-some key k x files p).0
          (lookup-remove-some key j y files q).0;
  }

-- Allocating an extent: it is apart from every file and from what stays free.
module _ {hi padded off : ℕ} {a a' : ExtentAllocator} {files : Dict ExtentInfo}
    (t : IsTidy hi a files) (size : IsSize padded) (blocked : padded % block_alignment ≡ 0)
    (done : alloc a padded ≡ ok (off, a')) where
  exact : align_up padded block_alignment ≡ padded
  exact = omega (arith, align_up_bounds padded size, blocked, size)

  pub alloc-IsTidy : IsTidy hi a' files
  alloc-IsTidy = record {
    valid = (alloc-IsValid t.valid size done).0;
    placed = λ k i h.
        let p = t.placed k i h in
        record {
          aligned = p.aligned;
          start = p.start;
          inside = p.inside;
          blocks = p.blocks;
          some_bytes = p.some_bytes;
          not_free =
              (Takes-Apart (allocated t.valid size done).0 i.offset i.padded_size p.not_free).1;
        };
    apart = t.apart;
  }

  pub alloc-fresh :
      (off % block_alignment ≡ 0)
      × (data_start ≤ off)
      × (off + padded ≤ hi)
      × IsApart off padded a'.free_list
      × ((k : Bytes) (i : ExtentInfo)
          → lookup k files ≡ some i
          → Apart off padded i.offset i.padded_size)
  alloc-fresh =
      let v = alloc-IsValid t.valid size done in
      let taken = allocated t.valid size done in
      (
        v.3,
        v.1,
        rw exact at v.2,
        rw exact at
            (Takes-IsApart taken.0 data_start hi (omega (arith, exact, size)) t.valid.separated),
        λ k i h.
            rw exact at (Takes-Apart taken.0 i.offset i.padded_size (t.placed k i h).not_free).0,
      )

  pub alloc_undone : free a' off padded ≡ a
  alloc_undone = rw exact at (free-alloc t.valid size done)

pub lookup-insert-some :
    (key k : Bytes) (v i : ExtentInfo) (files : Dict ExtentInfo)
    → lookup k (insert key v files) ≡ some i
    → ((key ≡ k) × (v ≡ i)) ⊎ ((key ≢ k) × (lookup k files ≡ some i))
lookup-insert-some key k v i files h = elim (Bool-cases (same key k)) [
  | inl e ↦
      let h' : some v ≡ some i = rw (lookup-insert key k v files, e) at h in
      inl (same→≡ key k e, cc)
  | inr e ↦ inr (
    λ p. let q : same key k ≡ true = (same_iff key k).1 p in cc,
    rw (lookup-insert key k v files, e) at h,
  )
]

-- Adding a file that is apart from the others.
pub insert-IsTidy :
    {hi : ℕ} {a : ExtentAllocator} (key : Bytes) (info : ExtentInfo) (files : Dict ExtentInfo)
    → IsTidy hi a files
    → IsPlaced hi a info
    → ((k : Bytes) (i : ExtentInfo) → lookup k files ≡ some i → key ≢ k → ApartFiles info i)
    → IsTidy hi a (insert key info files)
insert-IsTidy {hi} {a} key info files t p fresh = record {
  valid = t.valid;
  placed = λ k i h. elim (lookup-insert-some key k info i files h) [
    | inl (_, e) ↦ subst (IsPlaced hi a) e p
    | inr (_, h') ↦ t.placed k i h'
  ];
  apart = λ k j x y p q ne. elim (lookup-insert-some key k info x files p) [
    | inl (ek, ex) ↦ elim (lookup-insert-some key j info y files q) [
      | inl (ej, _) ↦ absurd (ne (sym ek ∙ ej))
      | inr (nj, q') ↦ subst (λ z. ApartFiles z y) ex (fresh j y q' nj)
    ]
    | inr (nk, p') ↦ elim (lookup-insert-some key j info y files q) [
      | inl (ej, ey) ↦
          subst (λ z. ApartFiles x z) ey
            (Apart-sym info.offset info.padded_size x.offset x.padded_size (fresh k x p' nk))
      | inr (nj, q') ↦ t.apart k j x y p' q' ne
    ]
  ];
}
