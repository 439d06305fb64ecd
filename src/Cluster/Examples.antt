-- ===== src/Cluster/Examples.antt =====
-- A cluster of four shards, one of them missing and one that refuses writes, for shardedobjstr/src/lib.rs.
use native.Mathlib.Nat.{mod-lt}
use objstr.Base.{
  if◌then◌else◌, ℕ, ◌%◌, ◌≤◌, ◌<◌, ◌≡◌, min, refl, Bool, true, false, ◌||◌, Option, none, some,
  List, [], ◌∷◌, ltb, length, get_elem?, arith,
}
use objstr.RawError.{Bytes}
use objstr.Dict.{Dict, lookup, insert, remove, same}
use objstr.Catalog
use objstr.Catalog.{contains}
use objstr.Cluster.{
  ShardInfo, Cluster, manual, is_unavailable, is_degraded, detached, new_with_offline, hold_offline,
}
use objstr.Cluster.Health.{fresh, after, holds, Reaches-AllDated, is_dated}
use objstr.Cluster.Targets.{IsDistinct, select_targets, writable_at, writable_from}
use objstr.Cluster.Targets.Ring.{select_targets-IsDistinct}
use objstr.Cluster.Reads.{count, resolve_shards, resolve_shards_lem, readable_at}
use objstr.Cluster.Fanout.{write_to_shards_inner, placed_on}
use objstr.Cluster.Fanout.Placed.{HoldsAt}
use objstr.Cluster.Fanout.Quorum.{write_to_shards_inner-HasQuorum}

-- A store that takes puts or not, and its objects.
abbrev ToyStore : Type 0
ToyStore = Bool × Dict Bytes

abbrev toy_put : Bytes → Bytes → ToyStore → Bool × ToyStore
toy_put key payload (true, m) = (true, (true, insert key payload m))
toy_put key payload (false, m) = (false, (false, m))

abbrev toy_delete : Bytes → ToyStore → Bool × ToyStore
toy_delete key (on, m) = (on, (on, remove key m))

abbrev key_7 : Bytes
key_7 = 7 ∷ []

abbrev two_bytes : Bytes
two_bytes = 1 ∷ 2 ∷ []

abbrev Holds : ToyStore → Type 0
Holds s = lookup key_7 s.1 ≡ some two_bytes

put-Holds :
    (s : ToyStore) → (toy_put key_7 two_bytes s).0 ≡ true → Holds (toy_put key_7 two_bytes s).1
unfolding lookup insert same
put-Holds (true, m) h = refl
put-Holds (false, m) h = cc

-- In place of the checksum and of the jump consistent hash.
abbrev first_byte : Bytes → ℕ
first_byte [] = 0
first_byte (b ∷ r) = b

abbrev hash : ℕ → ℕ → ℕ
hash key buckets = key % buckets

hash-below : (key buckets : ℕ) → 0 < buckets → hash key buckets < buckets
hash-below key buckets h = mod-lt key h

abbrev absent : ℕ → ToyStore
absent id = (false, [])

abbrev toy_stores : List (Option ToyStore)
toy_stores = some (true, []) ∷ some (true, []) ∷ none ∷ some (false, []) ∷ []

abbrev four : Cluster ToyStore
four = new_with_offline absent 5 toy_stores 2

select_targets-IsDistinct_example :
    let targets = select_targets first_byte hash key_7 four in
    ((x : ℕ)
      → contains x targets ≡ true
      → (writable_at four.shards x ≡ true) × (x < length four.shards))
    × IsDistinct targets
    × (length targets
        ≡ min four.replication_factor
            (length (writable_from (writable_at four.shards) (length four.shards) 0)))
unfolding new_with_offline
select_targets-IsDistinct_example =
    select_targets-IsDistinct first_byte hash hash-below key_7 four (omega arith)

resolve_shards_lem_example : count 1 (resolve_shards first_byte hash key_7 four).0.0 ≡ (
    if readable_at four.shards 1
    then (elim (Catalog.get key_7 four.catalog) [
      | some e ↦ count 1 e.shards
      | none ↦ if ltb 1 (length four.shards) then 1 else 0
    ])
    else 0)
resolve_shards_lem_example = resolve_shards_lem first_byte hash key_7 four 1

abbrev both : List ℕ
both = 0 ∷ 1 ∷ []

toy_written :
    (write_to_shards_inner first_byte hash toy_put toy_delete 6 key_7 two_bytes
      (0 ∷ 3 ∷ 1 ∷ [])
      2
      true
      four).0
    ≡ placed_on both
unfolding write_to_shards_inner new_with_offline
toy_written = refl

write_to_shards_inner-HasQuorum_example :
    let t =
      write_to_shards_inner first_byte hash toy_put toy_delete 6 key_7 two_bytes
        (0 ∷ 3 ∷ 1 ∷ [])
        2
        true
        four in
    IsDistinct both
    × (2 ≤ length both)
    × ((x : ℕ)
        → contains x both ≡ true
        → HoldsAt first_byte hash toy_put toy_delete key_7 two_bytes Holds put-Holds t.1 x)
    × (t.1.catalog ≡ four.catalog)
unfolding contains new_with_offline
write_to_shards_inner-HasQuorum_example =
    write_to_shards_inner-HasQuorum first_byte hash toy_put toy_delete key_7 two_bytes Holds
      put-Holds 2 true four 6 hash-below (omega arith) (0 ∷ 3 ∷ 1 ∷ []) both
      (refl, (refl, (refl, tt))) toy_written

abbrev held : Cluster ToyStore
held = (hold_offline absent 9 1 true manual four).1

abbrev held_shard : ShardInfo ToyStore
held_shard = record {
  store = absent 1;
  health = detached;
  free_space = 0;
  offline_since = some 9;
  crc_error_count = 0;
  detach_reason = some manual;
  suppress_replication = true;
}

held-shard : get_elem? held.shards 1 ≡ some held_shard
unfolding new_with_offline hold_offline
held-shard = refl

held-unavailable : (is_unavailable held_shard.health || is_degraded held_shard.health) ≡ true
unfolding is_unavailable
held-unavailable = refl

Reaches-AllDated_example : is_dated held_shard.offline_since ≡ true
unfolding contains
Reaches-AllDated_example =
    Reaches-AllDated (after fresh (holds 9 1 true manual four)) 1 held_shard refl held-shard
      held-unavailable
