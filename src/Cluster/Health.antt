-- ===== src/Cluster/Health.antt =====
-- The states of a shard's health, shardedobjstr/src/lib.rs: the steps that change it, and what holds in
-- every state that they reach.
use mathlib.Core.Path.{subst}
use objstr.Base.{
  ℕ, zero, suc, ◌≡◌, refl, sym, ◌∙◌, inl, inr, Bool, true, false, ◌||◌, Option, none, some, List,
  [], ◌∷◌, ◌==◌, if◌then◌else◌, get_elem?, set, arith, Bool-cases, get_elem?-set-same,
  get_elem?-set-other,
}
use objstr.Cluster.{
  ShardHealth, DetachReason, ShardInfo, Cluster, offline, detached, is_unavailable, is_degraded,
  is_healthy, is_detached, available, missing, shard_infos, new_with_offline, update, with_health,
  since, set_shard_health, detach_shard, hold_offline, release_hold, attach_start, attach_finish,
  degraded, invalidate_start, invalidate_finish,
}
use objstr.Catalog.{contains, without}
use objstr.Catalog.Laws.{contains-without}

unfoldable pub is_dated : Option ℕ → Bool
is_dated none = false
is_dated (some t) = true

module _ {S : Type 0} where
  -- A shard that is degraded or unavailable has the time since when.
  abbrev pub IsDated : ShardInfo S → Type 0
  IsDated s =
      (is_unavailable s.health || is_degraded s.health) ≡ true → is_dated s.offline_since ≡ true

  -- So it is for the shards that are not in `pending`.
  abbrev pub AllDated : List ℕ → List (ShardInfo S) → Type 0
  AllDated pending shards =
      (id : ℕ) (s : ShardInfo S)
      → contains id pending ≡ false
      → get_elem? shards id ≡ some s
      → IsDated s

  -- One operation on the health of a shard.
  pub data Step (placeholder : ℕ → S) : Cluster S → Cluster S → Type 0 where
    health_set :
        (now id : ℕ) (mark : ShardHealth) (c : Cluster S)
        → Step placeholder c (set_shard_health now id mark c).1
    detaches :
        (now id : ℕ) (c : Cluster S) → Step placeholder c (detach_shard placeholder now id c).1
    holds :
        (now id : ℕ) (suppress : Bool) (reason : DetachReason) (c : Cluster S)
        → Step placeholder c (hold_offline placeholder now id suppress reason c).1
    releases : (id : ℕ) (c : Cluster S) → Step placeholder c (release_hold id c).1
    attaches : (id : ℕ) (store : S) (c : Cluster S) → Step placeholder c (attach_start id store c).1
    scan_failed : (id : ℕ) (c : Cluster S) → Step placeholder c (invalidate_finish id false c).1

  -- What ends the wait for the scan of a shard: a scan that succeeds, or the end of an attachment.
  pub data Settles (id : ℕ) : Cluster S → Cluster S → Type 0 where
    scanned : (c : Cluster S) → Settles id c (invalidate_finish id true c).1
    attached :
        (now : ℕ) (scanned : Bool) (c : Cluster S) → Settles id c (attach_finish now id scanned c).1

  -- From a new cluster, by any number of operations in any order, with the shards whose invalidation
  -- is under way or ended in a scan that failed.
  pub data Reaches (placeholder : ℕ → S) (now : ℕ) (stores : List (Option S)) (factor : ℕ)
      : List ℕ → Cluster S → Type 0 where
    fresh :
        Reaches placeholder now stores factor [] (new_with_offline placeholder now stores factor)
    after :
        {pending : List ℕ} {c d : Cluster S}
        → Reaches placeholder now stores factor pending c
        → Step placeholder c d
        → Reaches placeholder now stores factor pending d
    invalidates :
        {pending : List ℕ} {c : Cluster S} (id : ℕ)
        → Reaches placeholder now stores factor pending c
        → Reaches placeholder now stores factor (id ∷ pending) (invalidate_start id c).1
    settles :
        {pending : List ℕ} {c d : Cluster S} (id : ℕ)
        → Reaches placeholder now stores factor pending c
        → Settles id c d
        → Reaches placeholder now stores factor (without id pending) d

  set-AllDated :
      (shards : List (ShardInfo S)) (id : ℕ) (old new : ShardInfo S) (before pending : List ℕ)
      → get_elem? shards id ≡ some old
      → (contains id pending ≡ false → IsDated new)
      → ((j : ℕ) → (id == j) ≡ false → contains j pending ≡ false → contains j before ≡ false)
      → AllDated before shards
      → AllDated pending (set shards id new)
  set-AllDated shards id old new before pending found dated fewer all j s q h =
      elim (Bool-cases (id == j)) [
        | inl e ↦
            let same : id ≡ j = ground arith in
            let there : get_elem? (set shards id new) j ≡ some new =
              subst (λ t. get_elem? (set shards id new) t ≡ some new) same
                (get_elem?-set-same shards id new old found) in
            let both : some new ≡ some s = sym there ∙ h in
            let new_s : new ≡ s = cc in
            subst IsDated new_s (dated (subst (λ t. contains t pending ≡ false) (sym same) q))
        | inr e ↦
            all j s (fewer j e q) (sym (get_elem?-set-other shards id j new (ground arith)) ∙ h)
      ]

  update-AllDated :
      (id : ℕ) (change : ShardInfo S → ShardInfo S) (c : Cluster S) (before pending : List ℕ)
      → ((s : ShardInfo S)
          → contains id pending ≡ false
          → (contains id before ≡ false → IsDated s)
          → IsDated (change s))
      → ((j : ℕ) → (id == j) ≡ false → contains j pending ≡ false → contains j before ≡ false)
      → AllDated before c.shards
      → (get_elem? c.shards id ≡ none → AllDated pending c.shards)
      → AllDated pending (update id change c).1.shards
  unfolding update
  update-AllDated id change c before pending keeps fewer all absent =
      go (get_elem? c.shards id) refl
    where
      go :
          (o : Option (ShardInfo S))
          → get_elem? c.shards id ≡ o
          → AllDated pending
              (elim o as (λ _. Option ShardHealth × Cluster S) [
                | none ↦ (none, c)
                | some s ↦ (some s.health, record c { shards = set c.shards id (change s) })
              ]).1.shards
      go none e = absent e
      go (some s) e =
          set-AllDated c.shards id s (change s) before pending e
            (λ q. keeps s q (λ p. all id s p e)) fewer all

  -- A change of a shard that keeps it dated.
  changed-AllDated :
      (id : ℕ) (change : ShardInfo S → ShardInfo S) (c : Cluster S) (pending : List ℕ)
      → ((s : ShardInfo S) → IsDated s → IsDated (change s))
      → AllDated pending c.shards
      → AllDated pending (update id change c).1.shards
  changed-AllDated id change c pending keeps all =
      update-AllDated id change c pending pending (λ s q h. keeps s (h q)) (λ j e q. q) all
        (λ e. all)

  with_health-IsDated :
      (now : ℕ) (mark : ShardHealth) (s : ShardInfo S)
      → IsDated s
      → IsDated (with_health now mark s)
  unfolding with_health is_dated
  with_health-IsDated now mark s h = elim (Bool-cases (is_unavailable mark || is_degraded mark)) [
    | inl e ↦ elim (Bool-cases (is_unavailable s.health || is_degraded s.health)) [
      | inl f ↦ rw (e, f) (λ g. h f)
      | inr f ↦ rw (e, f) (λ g. refl)
    ]
    | inr e ↦ elim (Bool-cases (is_healthy mark)) [
      | inl f ↦ rw (e, f) (λ g. let no = sym g ∙ e in cc)
      | inr f ↦ rw (e, f) (λ g. let no = sym g ∙ e in cc)
    ]
  ]

  since-IsDated : (now : ℕ) (s : ShardInfo S) → IsDated s → is_dated (since now s) ≡ true
  unfolding since is_dated
  since-IsDated now s h = elim (Bool-cases (is_unavailable s.health)) [
    | inl e ↦ rw e (h (rw e refl))
    | inr e ↦ rw e refl
  ]

  released-AllDated :
      (id : ℕ) (c : Cluster S) (pending : List ℕ)
      → AllDated pending c.shards
      → AllDated pending (release_hold id c).1.shards
  unfolding release_hold is_unavailable is_degraded
  released-AllDated id c pending all = go (get_elem? c.shards id) refl
    where
      held_since :
          (s : ShardInfo S)
          → IsDated s
          → (m : ShardHealth) → s.health ≡ m
          → is_detached m ≡ true
          → is_dated s.offline_since ≡ true
      held_since s h detached e g = h (rw e refl)
      held_since s h _ e g = cc

      go :
          (o : Option (ShardInfo S))
          → get_elem? c.shards id ≡ o
          → AllDated pending
              (elim o as (λ _. Bool × Cluster S) [
                | none ↦ (false, c)
                | some s ↦
                    if is_detached s.health
                    then (
                      true,
                      record c {
                        shards = set c.shards id (record s {
                          health = offline;
                          detach_reason = none;
                          suppress_replication = false;
                        });
                      },
                    )
                    else (false, c)
              ]).1.shards
      go none e = all
      go (some s) e = elim (Bool-cases (is_detached s.health)) [
        | inl f ↦ rw f (
            set-AllDated c.shards id s
              (record s { health = offline; detach_reason = none; suppress_replication = false })
              pending pending e (λ q g. held_since s (all id s q e) s.health refl f) (λ j w q. q)
              all)
        | inr f ↦ rw f all
      ]

  Step-AllDated :
      {placeholder : ℕ → S} {c d : Cluster S} (pending : List ℕ)
      → Step placeholder c d
      → AllDated pending c.shards
      → AllDated pending d.shards
  unfolding set_shard_health detach_shard hold_offline release_hold attach_start invalidate_finish
      is_unavailable is_degraded is_dated
  Step-AllDated pending (health_set now id mark c) all =
      changed-AllDated id (with_health now mark) c pending (with_health-IsDated now mark) all
  Step-AllDated {placeholder} pending (detaches now id c) all =
      changed-AllDated id
        (λ s. record s {
          store = placeholder id;
          health = offline;
          free_space = 0;
          offline_since = since now s;
        })
        c pending (λ s h g. since-IsDated now s h) all
  Step-AllDated {placeholder} pending (holds now id suppress reason c) all =
      changed-AllDated id
        (λ s. record s {
          store = placeholder id;
          health = detached;
          free_space = 0;
          offline_since = since now s;
          detach_reason = some reason;
          suppress_replication = suppress;
        })
        c pending (λ s h g. since-IsDated now s h) all
  Step-AllDated pending (releases id c) all = released-AllDated id c pending all
  Step-AllDated pending (attaches id store c) all =
      changed-AllDated id _ c pending (λ s h g. cc) all
  Step-AllDated pending (scan_failed id c) all = changed-AllDated id _ c pending (λ s h. h) all

  invalidate-AllDated :
      (id : ℕ) (c : Cluster S) (pending : List ℕ)
      → AllDated pending c.shards
      → AllDated (id ∷ pending) (invalidate_start id c).1.shards
  unfolding invalidate_start contains
  invalidate-AllDated id c pending all =
      update-AllDated id (λ s. record s { health = degraded }) c pending (id ∷ pending)
        (λ s q h. absurd (ground arith)) (λ j e q. ground arith) all
        (λ e j s q h. all j s (ground arith) h)

  -- A change after which the shard is dated whatever it was.
  settled-AllDated :
      (id : ℕ) (change : ShardInfo S → ShardInfo S) (c : Cluster S) (pending : List ℕ)
      → ((s : ShardInfo S) → IsDated (change s))
      → AllDated pending c.shards
      → AllDated (without id pending) (update id change c).1.shards
  settled-AllDated id change c pending dated all =
      update-AllDated id change c pending (without id pending) (λ s q h. dated s) others all nowhere
    where
      others :
          (j : ℕ)
          → (id == j) ≡ false
          → contains j (without id pending) ≡ false
          → contains j pending ≡ false
      others j e q = let f = contains-without id j pending in ground arith

      nowhere : get_elem? c.shards id ≡ none → AllDated (without id pending) c.shards
      nowhere e j s q h = elim (Bool-cases (id == j)) [
        | inl f ↦
            let same : id ≡ j = ground arith in
            let there : get_elem? c.shards j ≡ none =
              subst (λ t. get_elem? c.shards t ≡ none) same e in
            let no = sym there ∙ h in cc
        | inr f ↦ all j s (others j f q) h
      ]

  Settles-AllDated :
      {id : ℕ} {c d : Cluster S} (pending : List ℕ)
      → Settles id c d
      → AllDated pending c.shards
      → AllDated (without id pending) d.shards
  unfolding invalidate_finish attach_finish is_unavailable is_degraded is_dated
  Settles-AllDated {id} pending (scanned c) all = settled-AllDated id _ c pending (λ s g. cc) all
  Settles-AllDated {id} pending (attached now true c) all =
      settled-AllDated id _ c pending (λ s g. cc) all
  Settles-AllDated {id} pending (attached now false c) all =
      settled-AllDated id _ c pending (λ s g. refl) all

  shard_infos-AllDated :
      (placeholder : ℕ → S) (now id : ℕ) (stores : List (Option S))
      → AllDated [] (shard_infos placeholder now id stores)
  unfolding shard_infos is_unavailable is_degraded is_dated contains
  shard_infos-AllDated placeholder now id [] j s q h = cc
  shard_infos-AllDated placeholder now id (none ∷ r) zero s q h =
      let first : missing placeholder now id ≡ s = cc in subst IsDated first (λ g. refl)
  shard_infos-AllDated placeholder now id (some store ∷ r) zero s q h =
      let first : available store ≡ s = cc in subst IsDated first (λ g. cc)
  shard_infos-AllDated placeholder now id (none ∷ r) (suc j) s q h =
      shard_infos-AllDated placeholder now (suc id) r j s refl h
  shard_infos-AllDated placeholder now id (some store ∷ r) (suc j) s q h =
      shard_infos-AllDated placeholder now (suc id) r j s refl h

  -- However the health of the shards of a cluster is changed, a shard that is degraded, offline or
  -- detached has the time since when, which the grace period of the repair sweeps is counted from,
  -- unless its invalidation is under way or ended in a scan that failed, and neither a later scan
  -- succeeded nor was a store attached since.
  pub Reaches-AllDated :
      {placeholder : ℕ → S} {now : ℕ} {stores : List (Option S)} {factor : ℕ} {pending : List ℕ}
      {c : Cluster S}
      → Reaches placeholder now stores factor pending c
      → (id : ℕ) (s : ShardInfo S) → contains id pending ≡ false
      → get_elem? c.shards id ≡ some s
      → (is_unavailable s.health || is_degraded s.health) ≡ true
      → is_dated s.offline_since ≡ true
  unfolding new_with_offline contains
  Reaches-AllDated {placeholder} {now} {stores} fresh =
      shard_infos-AllDated placeholder now 0 stores
  Reaches-AllDated (after before step) = Step-AllDated _ step (Reaches-AllDated before)
  Reaches-AllDated (invalidates {pending} {c} id before) =
      invalidate-AllDated id c pending (Reaches-AllDated before)
  Reaches-AllDated (settles id before step) = Settles-AllDated _ step (Reaches-AllDated before)
