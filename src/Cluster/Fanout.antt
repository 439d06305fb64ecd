-- ===== src/Cluster/Fanout.antt =====
-- The fan-out of a write to the shards, `write_to_shards_inner` of shardedobjstr/src/lib.rs with the
-- health marking and the cleanup. The puts to different shards do not meet, so that they are done one
-- after the other. `put` and `delete` are the operations of a shard's store; `delete` removes the
-- sidecar too. The text of an error is left out, its shard is kept.
pub mod Placed
pub mod Quorum
use objstr.Base.{
  ℕ, zero, suc, ◌+◌, ◌≤◌, ◌<◌, Bool, true, false, not, ◌&&◌, Option, none, some, List, [], ◌∷◌,
  ◌++◌, ltb, ◌==◌, if◌then◌else◌, length, get_elem?, set,
}
use objstr.RawError.{Bytes}
use objstr.Catalog
use objstr.Catalog.{contains, is_empty}
use objstr.Cluster.{
  ShardInfo, Cluster, ShardHealth, healthy, degraded, offline, is_healthy, set_shard_health,
  shard_health,
}
use objstr.Cluster.Targets.{select_targets}

pub data WriteError : Type 0 where
  all_replicas_failed : Bytes → List ℕ → WriteError
  insufficient_writes : Bytes → ℕ → ℕ → List ℕ → WriteError

pub data WriteResult : Type 0 where
  placed_on : List ℕ → WriteResult
  failed_with : WriteError → WriteResult

module _ {S : Type 0} where
  unfoldable pub with_store : ℕ → ShardInfo S → S → Cluster S → Cluster S
  with_store id s store c = record c { shards = set c.shards id (record s { store = store }) }

  unfoldable pub set_all_health : ℕ → ShardHealth → List ℕ → Cluster S → Cluster S
  unfolding set_shard_health
  set_all_health now mark [] c = c
  set_all_health now mark (id ∷ r) c = set_all_health now mark r (set_shard_health now id mark c).1

  -- "Partial failure": a healthy shard that failed is degraded.
  unfoldable pub degrade : ℕ → List ℕ → Cluster S → Cluster S
  unfolding set_shard_health shard_health is_healthy
  degrade now [] c = c
  degrade now (id ∷ r) c = degrade now r (elim (shard_health id c) [
    | none ↦ c
    | some h ↦ if is_healthy h then (set_shard_health now id degraded c).1 else c
  ])

-- `filter(|sid| !tried.contains(sid))`
unfoldable pub untried : List ℕ → List ℕ → List ℕ
untried tried [] = []
untried tried (id ∷ r) = let rest = untried tried r in if contains id tried then rest else id ∷ rest

module _ {S : Type 0} (crc : Bytes → ℕ) (jump_consistent_hash : ℕ → ℕ → ℕ)
    (put : Bytes → Bytes → S → Bool × S) (delete : Bytes → S → Bool × S) where
  -- The shards where the put succeeded, those where it failed, and the cluster.
  unfoldable pub fan_out : Bytes → Bytes → List ℕ → Cluster S → (List ℕ × List ℕ) × Cluster S
  unfolding with_store
  fan_out key payload [] c = (([], []), c)
  fan_out key payload (id ∷ r) c = elim (get_elem? c.shards id) [
    | none ↦ fan_out key payload r c
    | some s ↦
        let w = put key payload s.store in
        let rest = fan_out key payload r (with_store id s w.1 c) in
        if w.0 then ((id ∷ rest.0.0, rest.0.1), rest.1) else ((rest.0.0, id ∷ rest.0.1), rest.1)
  ]

  unfoldable pub mark_write_failures :
      ℕ → List ℕ → List ℕ → List ℕ → Bytes → Cluster S → List ℕ × Cluster S
  unfolding set_all_health degrade untried select_targets is_empty
  mark_write_failures now placed failed tried key c =
      if is_empty placed && not (is_empty failed)
      then (let c' = set_all_health now offline failed c in
          (untried tried (select_targets crc jump_consistent_hash key c'), c'))
      else ([], degrade now failed c)

  unfoldable pub delete_from : Bytes → List ℕ → Cluster S → Cluster S
  unfolding with_store
  delete_from key [] c = c
  delete_from key (id ∷ r) c = delete_from key r (elim (get_elem? c.shards id) [
    | none ↦ c
    | some s ↦ with_store id s (delete key s.store).1 c
  ])

  -- For a key that the catalog has, nothing is deleted.
  unfoldable pub cleanup_orphaned_writes : Bytes → List ℕ → Cluster S → Cluster S
  unfolding delete_from
  cleanup_orphaned_writes key placed c = elim (Catalog.get key c.catalog) [
    | some e ↦ c
    | none ↦ delete_from key placed c
  ]

  -- "Enforce min_required".
  unfoldable pub enforce : Bytes → ℕ → Bool → List ℕ → List ℕ → Cluster S → WriteResult × Cluster S
  unfolding cleanup_orphaned_writes
  enforce key min_required cleanup_on_fail placed failed c =
      if ltb (length placed) min_required
      then (
        failed_with (insufficient_writes key min_required (length placed) failed),
        (if cleanup_on_fail then cleanup_orphaned_writes key placed c else c),
      )
      else (placed_on placed, c)

  -- Behind the retry.
  unfoldable pub after_retry :
      Bytes → ℕ → Bool → List ℕ → (List ℕ × List ℕ) × Cluster S → WriteResult × Cluster S
  unfolding enforce is_empty
  after_retry key min_required cleanup_on_fail failed ((placed, again), c) =
      if is_empty placed
      then (failed_with (all_replicas_failed key (failed ++ again)), c)
      else enforce key min_required cleanup_on_fail placed (failed ++ again) c

  -- Behind the first fan-out.
  unfoldable pub after_first :
      ℕ
      → Bytes
      → Bytes
      → List ℕ
      → ℕ
      → Bool
      → (List ℕ × List ℕ) × Cluster S
      → WriteResult × Cluster S
  unfolding after_retry mark_write_failures fan_out
  after_first now key payload targets min_required cleanup_on_fail ((placed, failed), c) =
      let marked = mark_write_failures now placed failed targets key c in
      if is_empty placed && not (is_empty failed)
      then after_retry key min_required cleanup_on_fail failed
          (fan_out key payload marked.0 marked.1)
      else enforce key min_required cleanup_on_fail placed failed marked.1

  unfoldable pub write_to_shards_inner :
      ℕ → Bytes → Bytes → List ℕ → ℕ → Bool → Cluster S → WriteResult × Cluster S
  unfolding after_first
  write_to_shards_inner now key payload targets min_required cleanup_on_fail c =
      after_first now key payload targets min_required cleanup_on_fail
        (fan_out key payload targets c)
