-- ===== src/Catalog.antt =====
-- The placement catalog, shardedobjstr/src/catalog.rs: which shards hold an object. The lock is not
-- modelled: each operation holds it from its first access to its last. The time is an argument.
pub mod Laws
pub mod Holds
pub mod Removal
pub mod Examples
use objstr.Base.{
  ℕ, zero, suc, ◌+◌, Bool, true, false, ◌&&◌, ◌||◌, not, Option, none, some, List, [], ◌∷◌, ◌++◌,
  ltb, ◌==◌, if◌then◌else◌, length,
}
use objstr.RawError.{Bytes}
use objstr.Dict.{Dict, lookup, insert, remove}

pub record PlacementEntry : Type 0 where
  pub shards : List ℕ
  pub size : ℕ
  pub crc32c : Option ℕ
  pub updated : ℕ
  pub meta_len : ℕ

pub record Catalog : Type 0 where
  pub inner : Dict PlacementEntry
  pub dirty : Bool

-- `Vec::contains`
unfoldable pub contains : ℕ → List ℕ → Bool
contains id [] = false
contains id (s ∷ r) = s == id || contains id r

-- `retain(|&s| s != shard_id)`
unfoldable pub without : ℕ → List ℕ → List ℕ
without id [] = []
without id (s ∷ r) = let rest = without id r in if s == id then rest else s ∷ rest

unfoldable pub is_empty : List ℕ → Bool
is_empty [] = true
is_empty (s ∷ r) = false

abbrev pub new : Catalog
new = record { inner = []; dirty = false }

abbrev pub clear_dirty : Catalog → Catalog
clear_dirty c = record c { dirty = false }

-- Every change of the map goes with `mark_dirty`.
abbrev pub changed : Dict PlacementEntry → Catalog
changed m = record { inner = m; dirty = true }

unfoldable pub put : Bytes → List ℕ → ℕ → Option ℕ → ℕ → ℕ → Catalog → Catalog
put key shards size crc meta_len now c = changed (
    insert key
      (record { shards = shards; size = size; crc32c = crc; updated = now; meta_len = meta_len })
      c.inner)

-- The entry or the new one, with its metadata length and the shard added.
unfoldable pub with_replica : Option PlacementEntry → ℕ → ℕ → ℕ → ℕ → PlacementEntry
with_replica found shard_id size meta_len now =
    let entry : PlacementEntry = elim found [
      | some e ↦ e
      | none ↦ record {
        shards = [];
        size = size;
        crc32c = none;
        updated = now;
        meta_len = meta_len;
      }
    ] in
    record entry {
      meta_len = if ltb 0 meta_len then meta_len else entry.meta_len;
      shards =
          if contains shard_id entry.shards then entry.shards else entry.shards ++ shard_id ∷ [];
    }

unfoldable pub add_replica : Bytes → ℕ → ℕ → ℕ → ℕ → Catalog → Catalog
unfolding with_replica
add_replica key shard_id size meta_len now c =
    changed (insert key (with_replica (lookup key c.inner) shard_id size meta_len now) c.inner)

abbrev pub get : Bytes → Catalog → Option PlacementEntry
get key c = lookup key c.inner

unfoldable pub try_insert : Bytes → List ℕ → ℕ → ℕ → Catalog → Bool × Catalog
try_insert key shards size now c = elim (lookup key c.inner) [
  | some e ↦ (false, c)
  | none ↦ (
    true,
    changed (
        insert key
          (record { shards = shards; size = size; crc32c = none; updated = now; meta_len = 0 })
          c.inner),
  )
]

unfoldable pub remove_entry : Bytes → Catalog → Option PlacementEntry × Catalog
remove_entry key c = elim (lookup key c.inner) [
  | none ↦ (none, c)
  | some e ↦ (some e, changed (remove key c.inner))
]

abbrev pub clear : Catalog → Catalog
clear c = changed []

abbrev pub replace : Dict PlacementEntry → Catalog → Catalog
replace m c = changed m

unfoldable pub remove_shard : Bytes → ℕ → Catalog → Catalog
remove_shard key shard_id c = elim (lookup key c.inner) [
  | none ↦ c
  | some e ↦
      let left = without shard_id e.shards in
      if is_empty left
      then changed (remove key c.inner)
      else changed (insert key (record e { shards = left }) c.inner)
]

-- The loop over the entries: what it leaves, the count, and the keys to remove.
unfoldable pub strip : ℕ → Dict PlacementEntry → Dict PlacementEntry × (ℕ × List Bytes)
strip id [] = ([], (0, []))
strip id ((k, e) ∷ m) =
    let rest = strip id m in
    let left = without id e.shards in
    if contains id e.shards
    then (
      (k, record e { shards = left }) ∷ rest.0,
      (suc rest.1.0, (if is_empty left then k ∷ rest.1.1 else rest.1.1)),
    )
    else ((k, e) ∷ rest.0, rest.1)

unfoldable pub remove_keys : List Bytes → Dict PlacementEntry → Dict PlacementEntry
remove_keys [] m = m
remove_keys (k ∷ ks) m = remove_keys ks (remove k m)

unfoldable pub remove_all_for_shard : ℕ → Catalog → ℕ × Catalog
unfolding strip remove_keys
remove_all_for_shard id c =
    let r = strip id c.inner in
    let m = remove_keys r.1.1 r.0 in
    (r.1.0, record { inner = m; dirty = if ltb 0 r.1.0 then true else c.dirty })

unfoldable pub references : ℕ → Dict PlacementEntry → Dict PlacementEntry
references id [] = []
references id ((k, e) ∷ m) =
    let rest = references id m in if contains id e.shards then (k, e) ∷ rest else rest

unfoldable pub entries_for_shard : ℕ → Catalog → Dict PlacementEntry
unfolding references
entries_for_shard id c = references id c.inner

abbrev pub len : Catalog → ℕ
len c = length c.inner

-- "Does NOT mark dirty -- caller just loaded from disk".
abbrev pub load_into : Catalog → Catalog → Catalog
load_into other c = record { inner = other.inner; dirty = false }
