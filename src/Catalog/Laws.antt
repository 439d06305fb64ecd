-- ===== src/Catalog/Laws.antt =====
-- The lists of shards in the entries of the catalog, shardedobjstr/src/catalog.rs.
use objstr.Base.{ℕ, ◌≡◌, refl, ◌&&◌, ◌||◌, not, List, [], ◌∷◌, ◌++◌, ◌==◌, length, arith}
use objstr.RawError.{Bytes}
use objstr.Dict.{Dict, remove}
use objstr.Catalog.{PlacementEntry, contains, without, strip, remove_keys, references}

pub contains-without :
    (id x : ℕ) (l : List ℕ) → contains x (without id l) ≡ (contains x l && not (x == id))
unfolding contains without
contains-without id x [] = refl
contains-without id x (s ∷ r) = ground (arith, contains-without id x r)

pub contains-append :
    (x id : ℕ) (l : List ℕ) → contains x (l ++ id ∷ []) ≡ (contains x l || id == x)
unfolding contains
contains-append x id [] = ground arith
contains-append x id (s ∷ r) = ground (arith, contains-append x id r)

pub references-strip : (id : ℕ) (m : Dict PlacementEntry) → references id (strip id m).0 ≡ []
unfolding references strip
references-strip id [] = refl
references-strip id ((k, e) ∷ m) =
    ground (arith, references-strip id m, contains-without id id e.shards)

references-remove :
    (id : ℕ) (k : Bytes) (m : Dict PlacementEntry)
    → references id m ≡ []
    → references id (remove k m) ≡ []
unfolding references remove
references-remove id k [] h = refl
references-remove id k ((j, e) ∷ m) h = ground (arith, references-remove id k m)

pub references-remove_keys :
    (id : ℕ) (ks : List Bytes) (m : Dict PlacementEntry)
    → references id m ≡ []
    → references id (remove_keys ks m) ≡ []
unfolding remove_keys
references-remove_keys id [] m h = h
references-remove_keys id (k ∷ ks) m h =
    references-remove_keys id ks (remove k m) (references-remove id k m h)

pub strip_count : (id : ℕ) (m : Dict PlacementEntry) → (strip id m).1.0 ≡ length (references id m)
unfolding references strip
strip_count id [] = refl
strip_count id ((k, e) ∷ m) = ground (arith, strip_count id m)
