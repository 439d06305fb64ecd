-- ===== src/Cluster.antt =====
-- The shards of a cluster and their health, shardedobjstr/src/lib.rs. A lock is not modelled: each
-- operation holds it from its first access to its last. What a shard's store keeps is a parameter
-- `S`: the trait ObjectStore is the crate object_store's. The time is an argument.
pub mod Health
pub mod Targets
pub mod Reads
pub mod Fanout
pub mod Examples
use objstr.Base.{
  ℕ, zero, suc, ◌+◌, ◌-◌, ◌*◌, ◌%◌, ◌^◌, min, max, Bool, true, false, not, ◌&&◌, ◌||◌, Option, none,
  some, List, [], ◌∷◌, ◌++◌, ltb, leb, ◌==◌, if◌then◌else◌, length, get_elem?, set, take, drop,
}
use objstr.RawError.{Bytes}
use objstr.Catalog.{Catalog, PlacementEntry, new as new_catalog}

pub data ShardHealth : Type 0 where
  healthy degraded offline syncing detached : ShardHealth

pub data DetachReason : Type 0 where
  manual probe_failure device_missing drain : DetachReason

pub data ReadPreference : Type 0 where
  round_robin ordered : ReadPreference

unfoldable pub is_writable : ShardHealth → Bool
is_writable healthy = true
is_writable degraded = true
is_writable _ = false

unfoldable pub is_unavailable : ShardHealth → Bool
is_unavailable offline = true
is_unavailable detached = true
is_unavailable _ = false

unfoldable pub is_degraded : ShardHealth → Bool
is_degraded degraded = true
is_degraded _ = false

unfoldable pub is_healthy : ShardHealth → Bool
is_healthy healthy = true
is_healthy _ = false

unfoldable pub is_syncing : ShardHealth → Bool
is_syncing syncing = true
is_syncing _ = false

unfoldable pub is_detached : ShardHealth → Bool
is_detached detached = true
is_detached _ = false

-- The `id` of a shard is its index in the list.
pub record ShardInfo (S : Type 0) : Type 0 where
  pub store : S
  pub health : ShardHealth
  pub free_space : ℕ
  pub offline_since : Option ℕ
  pub crc_error_count : ℕ
  pub detach_reason : Option DetachReason
  pub suppress_replication : Bool

-- The parts of `ShardedObjectStore` that placement, health and the fan-out of writes use.
pub record Cluster (S : Type 0) : Type 0 where
  pub shards : List (ShardInfo S)
  pub catalog : Catalog
  pub replication_factor : ℕ
  pub min_writes : ℕ
  pub read_counter : ℕ
  pub read_preference : ReadPreference

-- `ReplicationPolicy::new`
unfoldable pub policy : ℕ → ℕ → ℕ
policy replication_factor shard_count = max (min replication_factor shard_count) 1

unfoldable pub default_min_writes : ℕ → ℕ → ℕ
default_min_writes replication_factor shard_count = max (min replication_factor shard_count - 1) 1

module _ {S : Type 0} where
  unfoldable pub available : S → ShardInfo S
  available store = record {
    store = store;
    health = healthy;
    free_space = 2 ^ 64 - 1;
    offline_since = none;
    crc_error_count = 0;
    detach_reason = none;
    suppress_replication = false;
  }

  unfoldable pub missing : (ℕ → S) → ℕ → ℕ → ShardInfo S
  missing placeholder now id = record {
    store = placeholder id;
    health = offline;
    free_space = 0;
    offline_since = some now;
    crc_error_count = 0;
    detach_reason = none;
    suppress_replication = false;
  }

  -- The shards of `new_with_offline`, from the index `id` on; `placeholder` is the store of a shard
  -- that is not there.
  unfoldable pub shard_infos : (ℕ → S) → ℕ → ℕ → List (Option S) → List (ShardInfo S)
  unfolding available missing
  shard_infos placeholder now id [] = []
  shard_infos placeholder now id (none ∷ r) =
      missing placeholder now id ∷ shard_infos placeholder now (suc id) r
  shard_infos placeholder now id (some store ∷ r) =
      available store ∷ shard_infos placeholder now (suc id) r

  unfoldable pub new_with_offline : (ℕ → S) → ℕ → List (Option S) → ℕ → Cluster S
  unfolding shard_infos policy default_min_writes
  new_with_offline placeholder now stores replication_factor = record {
    shards = shard_infos placeholder now 0 stores;
    catalog = new_catalog;
    replication_factor = policy replication_factor (length stores);
    min_writes = default_min_writes replication_factor (length stores);
    read_counter = 0;
    read_preference = round_robin;
  }

  unfoldable pub with_min_writes : ℕ → Cluster S → Cluster S
  with_min_writes min_writes c = record c {
    min_writes = min (max min_writes 1) c.replication_factor;
  }

  unfoldable pub shard_health : ℕ → Cluster S → Option ShardHealth
  shard_health id c = elim (get_elem? c.shards id) [ none ↦ none | some s ↦ some s.health ]

  -- One shard of `set_shard_health`.
  unfoldable pub with_health : ℕ → ShardHealth → ShardInfo S → ShardInfo S
  unfolding is_unavailable is_degraded is_healthy
  with_health now health s =
      let known = is_unavailable s.health || is_degraded s.health in
      if is_unavailable health || is_degraded health
      then record s { health = health; offline_since = if known then s.offline_since else some now }
      else if is_healthy health
      then record s {
        health = health;
        offline_since = none;
        detach_reason = none;
        suppress_replication = false;
      }
      else record s { health = health }

  -- `shards[id]` is replaced, and its old health is the answer.
  unfoldable pub update :
      ℕ → (ShardInfo S → ShardInfo S) → Cluster S → Option ShardHealth × Cluster S
  update id change c = elim (get_elem? c.shards id) [
    | none ↦ (none, c)
    | some s ↦ (some s.health, record c { shards = set c.shards id (change s) })
  ]

  unfoldable pub set_shard_health : ℕ → ℕ → ShardHealth → Cluster S → Option ShardHealth × Cluster S
  unfolding update with_health
  set_shard_health now id health c = update id (with_health now health) c

  -- `offline_since` when a shard is taken out of service.
  unfoldable pub since : ℕ → ShardInfo S → Option ℕ
  unfolding is_unavailable
  since now s = if is_unavailable s.health then s.offline_since else some now

  unfoldable pub detach_shard : (ℕ → S) → ℕ → ℕ → Cluster S → Option ShardHealth × Cluster S
  unfolding update since
  detach_shard placeholder now id c =
      update id
        (λ s. record s {
          store = placeholder id;
          health = offline;
          free_space = 0;
          offline_since = since now s;
        })
        c

  unfoldable pub hold_offline :
      (ℕ → S) → ℕ → ℕ → Bool → DetachReason → Cluster S → Option ShardHealth × Cluster S
  unfolding update since
  hold_offline placeholder now id suppress reason c =
      update id
        (λ s. record s {
          store = placeholder id;
          health = detached;
          free_space = 0;
          offline_since = since now s;
          detach_reason = some reason;
          suppress_replication = suppress;
        })
        c

  -- A shard that is held becomes offline.
  unfoldable pub release_hold : ℕ → Cluster S → Bool × Cluster S
  unfolding is_detached
  release_hold id c = elim (get_elem? c.shards id) [
    | none ↦ (false, c)
    | some s ↦
        if is_detached s.health
        then (
          true,
          record c {
            shards =
                set c.shards id (record s {
                  health = offline;
                  detach_reason = none;
                  suppress_replication = false;
                });
          },
        )
        else (false, c)
  ]

  -- `attach_shard` up to the scan: the store is there, and the shard is syncing.
  unfoldable pub attach_start : ℕ → S → Cluster S → Option ShardHealth × Cluster S
  unfolding update
  attach_start id store c =
      update id
        (λ s. record s {
          store = store;
          health = syncing;
          free_space = 2 ^ 64 - 1;
          offline_since = none;
          suppress_replication = false;
          detach_reason = none;
        })
        c

  -- Behind the scan, by its result.
  unfoldable pub attach_finish : ℕ → ℕ → Bool → Cluster S → Option ShardHealth × Cluster S
  unfolding update
  attach_finish now id scanned c =
      update id
        (λ s.
          if scanned
          then record s { health = healthy }
          else record s { health = offline; offline_since = some now })
        c

  -- `invalidate_shard` up to the scan: the shard is degraded, and no time is set.
  unfoldable pub invalidate_start : ℕ → Cluster S → Option ShardHealth × Cluster S
  unfolding update
  invalidate_start id c = update id (λ s. record s { health = degraded }) c

  -- Behind the scan, by its result.
  unfoldable pub invalidate_finish : ℕ → Bool → Cluster S → Option ShardHealth × Cluster S
  unfolding update
  invalidate_finish id scanned c =
      update id (λ s. if scanned then record s { health = healthy; offline_since = none } else s) c
