-- ===== src/Cluster/Fanout/Placed.antt =====
-- What a fan-out of shardedobjstr/src/lib.rs leaves in the stores of the shards.
use mathlib.Core.Path.{subst}
use objstr.Base.{
  ℕ, ◌≡◌, ◌≢◌, refl, sym, ap, ◌∙◌, inl, inr, Bool, true, false, ◌||◌, Option, none, some, List, [],
  ◌∷◌, ◌==◌, if◌then◌else◌, get_elem?, set, arith, Bool-cases, get_elem?-set-same,
  get_elem?-set-other,
}
use objstr.RawError.{Bytes}
use objstr.Catalog.{contains}
use objstr.Cluster.{
  ShardInfo, Cluster, ShardHealth, with_health, set_shard_health, shard_health, is_unavailable,
  is_degraded, is_healthy, degraded,
}
use objstr.Cluster.Targets.{IsDistinct}
use objstr.Cluster.Fanout.{fan_out, with_store, set_all_health, degrade, untried}

module _ {S : Type 0} where
  -- The same shards with the same stores, and the same catalog.
  pub record Keeps (c c' : Cluster S) : Type 0 where
    pub stores :
        (x : ℕ) (s : ShardInfo S)
        → get_elem? c.shards x ≡ some s
        → (t : ShardInfo S) × ((get_elem? c'.shards x ≡ some t) × (t.store ≡ s.store))
    pub catalog : c'.catalog ≡ c.catalog
    pub factor : c'.replication_factor ≡ c.replication_factor

  pub Keeps-refl : (c : Cluster S) → Keeps c c
  Keeps-refl c = record { stores = λ x s h. (s, (h, refl)); catalog = refl; factor = refl }

  pub Keeps-trans : (c d e : Cluster S) → Keeps c d → Keeps d e → Keeps c e
  Keeps-trans c d e p q = record {
    stores = λ x s h.
        let (t, (u, v)) = p.stores x s h in
        let (t', (u', v')) = q.stores x t u in (t', (u', v' ∙ v));
    catalog = q.catalog ∙ p.catalog;
    factor = q.factor ∙ p.factor;
  }

  with_health-store :
      (now : ℕ) (h : ShardHealth) (s : ShardInfo S) → (with_health now h s).store ≡ s.store
  unfolding with_health
  with_health-store now h s = elim (Bool-cases (is_unavailable h || is_degraded h)) [
    | inl e ↦ rw e refl
    | inr e ↦ elim (Bool-cases (is_healthy h)) [ inl f ↦ rw (e, f) refl | inr f ↦ rw (e, f) refl ]
  ]

  set_shard_health-Keeps :
      (now id : ℕ) (h : ShardHealth) (c : Cluster S) → Keeps c (set_shard_health now id h c).1
  unfolding set_shard_health
  set_shard_health-Keeps now id h c = go (get_elem? c.shards id) refl
    where
      go :
          (o : Option (ShardInfo S))
          → get_elem? c.shards id ≡ o
          → Keeps c
              (elim o as (λ _. Option ShardHealth × Cluster S) [
                | none ↦ (none, c)
                | some s ↦
                    (some s.health, record c { shards = set c.shards id (with_health now h s) })
              ]).1
      go none e = Keeps-refl c
      go (some old) e = record {
        stores = λ x s found. elim (Bool-cases (id == x)) [
          | inl f ↦
              let same : id ≡ x = ground arith in
              let here : get_elem? (set c.shards id (with_health now h old)) x
                  ≡ some (with_health now h old) =
                subst
                  (λ t.
                    get_elem? (set c.shards id (with_health now h old)) t
                    ≡ some (with_health now h old))
                  same (get_elem?-set-same c.shards id (with_health now h old) old e) in
              let both : some old ≡ some s = sym e ∙ ap (get_elem? c.shards) same ∙ found in
              let old_s : old ≡ s = cc in
              (with_health now h old, (here, with_health-store now h old ∙ ap (λ t. t.store) old_s))
          | inr f ↦ (
            s,
            (
              get_elem?-set-other c.shards id x (with_health now h old) (ground arith) ∙ found,
              refl,
            ),
          )
        ];
        catalog = refl;
        factor = refl;
      }

  pub set_all_health-Keeps :
      (now : ℕ) (h : ShardHealth) (ids : List ℕ) (c : Cluster S)
      → Keeps c (set_all_health now h ids c)
  unfolding set_all_health
  set_all_health-Keeps now h [] c = Keeps-refl c
  set_all_health-Keeps now h (id ∷ r) c =
      Keeps-trans c (set_shard_health now id h c).1
        (set_all_health now h r (set_shard_health now id h c).1) (set_shard_health-Keeps now id h c)
        (set_all_health-Keeps now h r (set_shard_health now id h c).1)

  pub degrade-Keeps : (now : ℕ) (ids : List ℕ) (c : Cluster S) → Keeps c (degrade now ids c)
  unfolding degrade
  degrade-Keeps now [] c = Keeps-refl c
  degrade-Keeps now (id ∷ r) c =
      Keeps-trans c (one (shard_health id c)) (degrade now r (one (shard_health id c)))
        (go (shard_health id c)) (degrade-Keeps now r (one (shard_health id c)))
    where
      one : Option ShardHealth → Cluster S
      one o = elim o [
        | none ↦ c
        | some h ↦ if is_healthy h then (set_shard_health now id degraded c).1 else c
      ]

      go : (o : Option ShardHealth) → Keeps c (one o)
      go none = Keeps-refl c
      go (some h) = elim (Bool-cases (is_healthy h)) [
        | inl e ↦ rw e (set_shard_health-Keeps now id degraded c)
        | inr e ↦ rw e (Keeps-refl c)
      ]

untried-members :
    (tried l : List ℕ) (x : ℕ) → contains x l ≡ false → contains x (untried tried l) ≡ false
unfolding untried contains
untried-members tried [] x h = refl
untried-members tried (id ∷ l) x h =
    let rest = untried-members tried l x in
    elim (Bool-cases (contains id tried)) [
      | inl e ↦ rw e (ground arith)
      | inr e ↦ rw e (ground arith)
    ]

pub untried-IsDistinct : (tried l : List ℕ) → IsDistinct l → IsDistinct (untried tried l)
unfolding untried
untried-IsDistinct tried [] h = tt
untried-IsDistinct tried (id ∷ l) h = elim (Bool-cases (contains id tried)) [
  | inl e ↦ rw e (untried-IsDistinct tried l h.1)
  | inr e ↦ rw e (untried-members tried l id h.0, untried-IsDistinct tried l h.1)
]

module _ {S : Type 0} (crc : Bytes → ℕ) (jump_consistent_hash : ℕ → ℕ → ℕ)
    (put : Bytes → Bytes → S → Bool × S) (delete : Bytes → S → Bool × S) (key payload : Bytes)
    (Holds : S → Type 0)
    (accepts : (s : S) → (put key payload s).0 ≡ true → Holds (put key payload s).1) where
  -- The shard's store holds the payload.
  abbrev pub HoldsAt : Cluster S → ℕ → Type 0
  HoldsAt c x = (s : ShardInfo S) × ((get_elem? c.shards x ≡ some s) × Holds s.store)

  pub Keeps-HoldsAt : (c c' : Cluster S) → Keeps c c' → (x : ℕ) → HoldsAt c x → HoldsAt c' x
  Keeps-HoldsAt c c' k x (s, (h, v)) =
      let (t, (u, w)) = k.stores x s h in (t, (u, subst Holds (sym w) v))

  -- What a fan-out over distinct targets does.
  pub record IsFanout (targets : List ℕ) (c : Cluster S) (t : (List ℕ × List ℕ) × Cluster S)
      : Type 0 where
    pub members : (x : ℕ) → contains x t.0.0 ≡ true → contains x targets ≡ true
    pub distinct : IsDistinct t.0.0
    pub held : (x : ℕ) → contains x t.0.0 ≡ true → HoldsAt t.1 x
    pub others :
        (x : ℕ) → contains x targets ≡ false → get_elem? t.1.shards x ≡ get_elem? c.shards x
    pub catalog : t.1.catalog ≡ c.catalog
    pub factor : t.1.replication_factor ≡ c.replication_factor

  abbrev fan : List ℕ → Cluster S → (List ℕ × List ℕ) × Cluster S
  fan = fan_out crc jump_consistent_hash put delete key payload

  -- One more target, whose put was done.
  module _ (id : ℕ) {r : List ℕ} (c : Cluster S) (s : ShardInfo S)
      {t : (List ℕ × List ℕ) × Cluster S} (d : IsDistinct (id ∷ r))
      (found : get_elem? c.shards id ≡ some s)
      (x : IsFanout r (with_store id s (put key payload s.store).1 c) t) where
    after : ShardInfo S
    after = record s { store = (put key payload s.store).1 }

    untouched :
        (y : ℕ) → contains y (id ∷ r) ≡ false → get_elem? t.1.shards y ≡ get_elem? c.shards y
    unfolding contains with_store after
    untouched y h =
        let ne : id ≢ y = ground arith in
        x.others y (ground arith) ∙ get_elem?-set-other c.shards id y after ne

    in_place : get_elem? t.1.shards id ≡ some after
    unfolding with_store after
    in_place = x.others id d.0 ∙ get_elem?-set-same c.shards id after s found

    fresh : contains id t.0.0 ≡ false
    fresh = elim (Bool-cases (contains id t.0.0)) [
      | inl f ↦ let g = x.members id f in let h = d.0 in cc
      | inr f ↦ f
    ]

    accepted : (put key payload s.store).0 ≡ true → IsFanout (id ∷ r) c ((id ∷ t.0.0, t.0.1), t.1)
    unfolding contains with_store after
    accepted done = record {
      members = λ y h. let m = x.members y in ground arith;
      distinct = (fresh, x.distinct);
      held = λ y h. elim (Bool-cases (id == y)) [
        | inl e ↦
            let same : id ≡ y = ground arith in
            subst (HoldsAt t.1) same (after, (in_place, accepts s.store done))
        | inr e ↦ x.held y (ground arith)
      ];
      others = untouched;
      catalog = x.catalog;
      factor = x.factor;
    }

    refused : IsFanout (id ∷ r) c ((t.0.0, id ∷ t.0.1), t.1)
    unfolding contains with_store
    refused = record {
      members = λ y h. let m = x.members y in ground arith;
      distinct = x.distinct;
      held = x.held;
      others = untouched;
      catalog = x.catalog;
      factor = x.factor;
    }

  pub fan_out-IsFanout :
      (targets : List ℕ) (c : Cluster S) → IsDistinct targets → IsFanout targets c (fan targets c)
  unfolding fan_out contains
  fan_out-IsFanout [] c d = record {
    members = λ x h. h;
    distinct = tt;
    held = λ x h. cc;
    others = λ x h. refl;
    catalog = refl;
    factor = refl;
  }
  fan_out-IsFanout (id ∷ r) c d = go (get_elem? c.shards id) refl (λ c'. fan_out-IsFanout r c' d.1)
    where
      go :
          (o : Option (ShardInfo S))
          → get_elem? c.shards id ≡ o
          → ((c' : Cluster S) → IsFanout r c' (fan r c'))
          → IsFanout (id ∷ r) c (elim o as (λ _. (List ℕ × List ℕ) × Cluster S) [
            | none ↦ fan r c
            | some s ↦
                let w = put key payload s.store in
                let rest = fan r (with_store id s w.1 c) in
                if w.0
                then ((id ∷ rest.0.0, rest.0.1), rest.1)
                else ((rest.0.0, id ∷ rest.0.1), rest.1)
          ])
      go none e rest =
          let x = rest c in
          record {
            members = λ y h. let m = x.members y in ground arith;
            distinct = x.distinct;
            held = x.held;
            others = λ y h. x.others y (ground arith);
            catalog = x.catalog;
            factor = x.factor;
          }
      go (some s) e rest =
          let x = rest (with_store id s (put key payload s.store).1 c) in
          elim (Bool-cases (put key payload s.store).0) [
            | inl f ↦ rw f (accepted id c s d e x f)
            | inr f ↦ rw f (refused id c s d e x)
          ]
