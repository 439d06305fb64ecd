-- ===== src/Catalog/Examples.antt =====
-- The catalog of shardedobjstr/src/catalog.rs with one object on two shards.
use objstr.Base.{
  refl, ℕ, false, ◌≢◌, ◌≡◌, true, none, [], ◌∷◌, ◌&&◌, ◌||◌, not, ◌==◌, ltb, length, if◌then◌else◌,
}
use objstr.RawError.{Bytes}
use objstr.Dict.{lookup, same}
use objstr.Catalog.{
  Catalog, PlacementEntry, contains, put, add_replica, remove_shard, remove_entry, try_insert,
  remove_all_for_shard, entries_for_shard,
}
use objstr.Catalog.Removal.{remove_all_for_shard_lem}
use objstr.Index.Shards.Merge.{IsMap}
use objstr.Catalog.Holds.{holds, catalog_holds}

abbrev key : Bytes
key = 97 ∷ []

abbrev entry : PlacementEntry
entry = record { shards = 0 ∷ 2 ∷ []; size = 10; crc32c = none; updated = 0; meta_len = 0 }

abbrev one_object : Catalog
one_object = record { inner = (key, entry) ∷ []; dirty = true }

one_object-IsMap : IsMap one_object.inner
unfolding lookup
one_object-IsMap = (refl, tt)

remove_all_for_shard_lem_example :
    ((x : ℕ) (k : Bytes)
      → holds x k (remove_all_for_shard 2 one_object).1 ≡ (holds x k one_object && not (x == 2)))
    × (entries_for_shard 2 (remove_all_for_shard 2 one_object).1 ≡ [])
    × ((remove_all_for_shard 2 one_object).0 ≡ length (entries_for_shard 2 one_object))
    × ((remove_all_for_shard 2 one_object).1.dirty
        ≡ (if ltb 0 (length (entries_for_shard 2 one_object)) then true else one_object.dirty))
remove_all_for_shard_lem_example = remove_all_for_shard_lem 2 one_object one_object-IsMap

catalog_holds_example :
    (holds 2 key (put key (1 ∷ []) 5 none 0 9 one_object)
      ≡ (if same key key then contains 2 (1 ∷ []) else holds 2 key one_object))
    × (holds 2 key (add_replica key 1 5 0 9 one_object)
        ≡ (holds 2 key one_object || (same key key && 1 == 2)))
    × (holds 2 key (remove_shard key 1 one_object)
        ≡ (holds 2 key one_object && not (same key key && 2 == 1)))
    × (holds 2 key (remove_entry key one_object).1 ≡ (holds 2 key one_object && not (same key key)))
    × ((try_insert key (1 ∷ []) 5 9 one_object).0 ≡ true
        → (lookup key one_object.inner ≡ none)
          × (holds 2 key (try_insert key (1 ∷ []) 5 9 one_object).1
              ≡ (if same key key then contains 2 (1 ∷ []) else holds 2 key one_object)))
    × ((try_insert key (1 ∷ []) 5 9 one_object).0 ≡ false
        → (lookup key one_object.inner ≢ none)
          × ((try_insert key (1 ∷ []) 5 9 one_object).1 ≡ one_object))
catalog_holds_example = catalog_holds one_object key key (1 ∷ []) none 1 2 5 0 9
