-- ===== src/Alloc/Examples.antt =====
-- The allocator of rawobjstr/src/allocator.rs on a pool with two free regions.
use objstr.Base.{
  ◌^◌, ◌-◌, ◌&&◌, List, if◌then◌else◌, min, ℕ, ◌+◌, ◌<◌, ◌%◌, ◌≤◌, ◌≡◌, refl, arith, true, false,
  ◌||◌, ◌&&◌, [], ◌∷◌, inl, leb, ltb,
}
use objstr.RawError.{ok, err, no_space, align_up, block_alignment}
use objstr.Alloc.{Region, ExtentAllocator, alloc, free, free_space, from_free_list, new, largest}
use objstr.Alloc.Shape.{covers, within}
use objstr.Alloc.Laws.{
  IsValid, IsSize, alloc-IsValid, alloc-covers, alloc-free_space, free-alloc, alloc_outcome,
  free-IsValid, free-covers,
}
use objstr.Alloc.Restore.{from_free_list_lem, IsSortedFrom, count, new-IsValid}

abbrev pool : ExtentAllocator
pool = record { free_list = (8192, 4096) ∷ (16384, 8192) ∷ []; alignment = 4096 }

abbrev left : ExtentAllocator
left = record { free_list = (8192, 4096) ∷ []; alignment = 4096 }

pool-IsValid : IsValid 8192 24576 pool
pool-IsValid = record {
  separated = ground arith;
  aligned = ground arith;
  by_block = refl;
  end_bound = omega arith;
}

left-IsValid : IsValid 8192 24576 left
left-IsValid = record {
  separated = ground arith;
  aligned = ground arith;
  by_block = refl;
  end_bound = omega arith;
}

IsSize-5000 : IsSize 5000
IsSize-5000 = ground arith

alloc_5000 : alloc pool 5000 ≡ ok (16384, left)
unfolding alloc
alloc_5000 = refl

alloc-IsValid_example :
    IsValid 8192 24576 left
    × (8192 ≤ 16384)
    × (16384 + align_up 5000 block_alignment ≤ 24576)
    × (16384 % block_alignment ≡ 0)
alloc-IsValid_example = alloc-IsValid pool-IsValid IsSize-5000 alloc_5000

alloc-covers_example :
    (covers 17000 pool.free_list
      ≡ (within 17000 16384 (align_up 5000 block_alignment) || covers 17000 left.free_list))
    × (within 17000 16384 (align_up 5000 block_alignment) ≡ true
        → covers 17000 left.free_list ≡ false)
alloc-covers_example = alloc-covers pool-IsValid IsSize-5000 alloc_5000 17000

alloc-free_space_example :
    free_space pool.free_list ≡ align_up 5000 block_alignment + free_space left.free_list
alloc-free_space_example = alloc-free_space pool-IsValid IsSize-5000 alloc_5000

free-alloc_example : free left 16384 (align_up 5000 block_alignment) ≡ pool
free-alloc_example = free-alloc pool-IsValid IsSize-5000 alloc_5000

alloc_outcome_example :
    (align_up 5000 block_alignment ≤ largest pool.free_list
      → (off : ℕ) × (a' : ExtentAllocator) × (alloc pool 5000 ≡ ok (off, a')))
    × (largest pool.free_list < align_up 5000 block_alignment
        → alloc pool 5000 ≡ err (no_space (align_up 5000 block_alignment) (largest pool.free_list)))
alloc_outcome_example = alloc_outcome pool-IsValid IsSize-5000

free-IsValid_example : IsValid 8192 24576 (free left 12288 4096)
free-IsValid_example =
    free-IsValid left-IsValid refl refl (omega arith) (omega arith) (omega arith)
      (inl (omega arith), tt)

free-covers_example :
    ((x : ℕ)
      → covers x (free left 12288 4096).free_list
        ≡ (within x 12288 4096 || covers x left.free_list))
    × (free_space (free left 12288 4096).free_list ≡ 4096 + free_space left.free_list)
free-covers_example =
    free-covers left-IsValid refl refl (omega arith) (omega arith) (omega arith)
      (inl (omega arith), tt)

-- Out of order, with an empty entry and one behind the area.
abbrev unordered : List Region
unordered = (16384, 4096) ∷ (12288, 0) ∷ (40960, 4096) ∷ (8192, 4096) ∷ []

from_free_list_lem_example :
    IsSortedFrom 0 (from_free_list unordered 8192 24576).free_list
    × ((o s : ℕ)
        → count o s (from_free_list unordered 8192 24576).free_list ≡ (
            if ltb 0 s && leb 8192 o && leb (min (o + s) (2 ^ 64 - 1)) 24576
            then count o s unordered
            else 0))
    × ((from_free_list unordered 8192 24576).alignment ≡ block_alignment)
from_free_list_lem_example = from_free_list_lem unordered 8192 24576

new-IsValid_example :
    IsValid 8192 24576 (new 8192 24576 block_alignment)
    × (covers 9000 (new 8192 24576 block_alignment).free_list ≡ (leb 8192 9000 && ltb 9000 24576))
new-IsValid_example = new-IsValid 8192 24576 9000 (omega arith) refl refl
