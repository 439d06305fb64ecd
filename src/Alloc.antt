-- ===== src/Alloc.antt =====
-- The extent allocator, rawobjstr/src/allocator.rs. The free list is a list of (offset, size).
pub mod Shape
pub mod Take
pub mod Give
pub mod Laws
pub mod Restore
pub mod Apart
pub mod Examples
use objstr.Base.{
  ℕ, zero, suc, ◌+◌, ◌-◌, ◌≤◌, max, Bool, ◌&&◌, Option, none, some, List, [], ◌∷◌, ltb, leb, ◌==◌,
  if◌then◌else◌, length, get_elem?, set, insert_at, remove_at,
}
use objstr.RawError.{Result, ok, err, no_space, sat_add, align_up, block_alignment}

abbrev pub Region : Type 0
Region = ℕ × ℕ

pub record ExtentAllocator : Type 0 where
  pub free_list : List Region
  pub alignment : ℕ

unfoldable pub new : ℕ → ℕ → ℕ → ExtentAllocator
new lo hi alignment = record {
  free_list = if ltb lo hi then (lo, hi - lo) ∷ [] else [];
  alignment = alignment;
}

-- `sort_by_key` on the offset is stable: an entry goes behind those with the same offset.
unfoldable pub insert_sorted : Region → List Region → List Region
insert_sorted (o, s) [] = (o, s) ∷ []
insert_sorted (o, s) ((a, b) ∷ r) =
    if ltb o a then (o, s) ∷ (a, b) ∷ r else (a, b) ∷ insert_sorted (o, s) r

unfoldable pub sort_go : List Region → List Region → List Region
unfolding insert_sorted
sort_go sorted [] = sorted
sort_go sorted (e ∷ r) = sort_go (insert_sorted e sorted) r

unfoldable pub sort_by_offset : List Region → List Region
unfolding sort_go
sort_by_offset l = sort_go [] l

-- `Vec::retain`
unfoldable pub retain : (ℕ → ℕ → Bool) → List Region → List Region
retain keep [] = []
retain keep ((o, s) ∷ r) = let rest = retain keep r in if keep o s then (o, s) ∷ rest else rest

unfoldable pub from_free_list : List Region → ℕ → ℕ → ExtentAllocator
unfolding sort_by_offset retain
from_free_list free_list lo hi = record {
  free_list =
      retain (λ o s. leb lo o && leb (sat_add o s) hi)
        (retain (λ o s. ltb 0 s) (sort_by_offset free_list));
  alignment = block_alignment;
}

unfoldable pub free_space : List Region → ℕ
free_space [] = 0
free_space ((o, s) ∷ r) = s + free_space r

-- The largest free size, 0 for an empty list.
unfoldable pub largest : List Region → ℕ
largest [] = 0
largest ((o, s) ∷ r) = max s (largest r)

-- `iter().position(|(_, size)| size >= needed)`
unfoldable pub position_fit : ℕ → List Region → Option ℕ
position_fit needed [] = none
position_fit needed ((o, s) ∷ r) =
    let rest : Option ℕ = elim (position_fit needed r) [ none ↦ none | some i ↦ some (suc i) ] in
    if leb needed s then some zero else rest

-- The body of the `Some(idx)` arm.
unfoldable pub take_at : ℕ → ℕ → List Region → Option (ℕ × List Region)
take_at needed idx l = elim (get_elem? l idx) [
  | none ↦ none
  | some (offset, size) ↦ some (
    offset,
    (if ltb 0 (size - needed) then set l idx (offset + needed, size - needed) else remove_at idx l),
  )
]

-- The search and the arms, on an aligned size. An index out of range would be a panic; it is
-- reported here as the error, and never happens.
unfoldable pub alloc_list : ℕ → List Region → Result (ℕ × List Region)
unfolding position_fit take_at largest
alloc_list needed l = elim (position_fit needed l) [
  | none ↦ err (no_space needed (largest l))
  | some idx ↦ elim (take_at needed idx l) [
    | none ↦ err (no_space needed (largest l))
    | some done ↦ ok done
  ]
]

unfoldable pub alloc : ExtentAllocator → ℕ → Result (ℕ × ExtentAllocator)
unfolding alloc_list align_up
alloc a needed = elim (alloc_list (align_up needed a.alignment) a.free_list) [
  | err e ↦ err e
  | ok (offset, l) ↦ ok (offset, record a { free_list = l })
]

-- `partition_point(|(o, _)| o < offset)` on a list sorted by offset.
unfoldable pub partition_point : ℕ → List Region → ℕ
partition_point offset [] = 0
partition_point offset ((o, s) ∷ r) = if ltb o offset then suc (partition_point offset r) else 0

-- Both merges of `free`: the entry at `i` swallows the one behind it if they touch.
unfoldable pub merge_at : ℕ → List Region → List Region
merge_at i l = elim (get_elem? l i) [
  | none ↦ l
  | some (off, sz) ↦ elim (get_elem? l (suc i)) [
    | none ↦ l
    | some (next_off, next_sz) ↦
        if sat_add off sz == next_off then remove_at (suc i) (set l i (off, sz + next_sz)) else l
  ]
]

-- The merge with the entry before, `if insert_pos > 0`.
unfoldable pub merge_prev : ℕ → List Region → List Region
unfolding merge_at
merge_prev zero l = l
merge_prev (suc i) l = merge_at i l

unfoldable pub free_at : ℕ → ℕ → ℕ → List Region → List Region
unfolding merge_at merge_prev
free_at pos offset size l = merge_prev pos (merge_at pos (insert_at pos (offset, size) l))

unfoldable pub free_list_free : List Region → ℕ → ℕ → List Region
unfolding free_at partition_point
free_list_free l offset padded_size = free_at (partition_point offset l) offset padded_size l

unfoldable pub free : ExtentAllocator → ℕ → ℕ → ExtentAllocator
unfolding free_list_free
free a offset padded_size = record a { free_list = free_list_free a.free_list offset padded_size }
