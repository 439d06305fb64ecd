-- ===== src/Catalog/Holds.antt =====
-- The abstract view of shardedobjstr/src/catalog.rs: which shard holds a copy of which object.
use mathlib.Core.Path.{subst}
use objstr.Base.{
  ℕ, ◌≡◌, ◌≢◌, inl, inr, refl, ap, sym, ◌∙◌, Bool, true, false, ◌&&◌, ◌||◌, not, Option, none, some,
  List, [], ◌∷◌, ◌==◌, if◌then◌else◌, arith, Bool-cases,
}
use objstr.RawError.{Bytes}
use objstr.Dict.{Dict, lookup, insert, remove, lookup-insert, lookup-remove, same, same→≡}
use objstr.Catalog.{
  PlacementEntry, Catalog, contains, without, is_empty, put, with_replica, add_replica, changed,
  try_insert, remove_entry, remove_shard,
}
use objstr.Catalog.Laws.{contains-without, contains-append}

abbrev pub copy_in : ℕ → Option PlacementEntry → Bool
copy_in x none = false
copy_in x (some e) = contains x e.shards

-- Does the shard `x` hold a copy of the object `k`?
abbrev pub holds : ℕ → Bytes → Catalog → Bool
holds x k c = copy_in x (lookup k c.inner)

copy_in-if :
    (x : ℕ) (b : Bool) (p q : Option PlacementEntry)
    → copy_in x (if b then p else q) ≡ (if b then copy_in x p else copy_in x q)
copy_in-if x true p q = refl
copy_in-if x false p q = refl

copy_in-with_replica :
    (x id size meta_len now : ℕ) (o : Option PlacementEntry)
    → copy_in x (some (with_replica o id size meta_len now)) ≡ (copy_in x o || id == x)
unfolding with_replica contains
copy_in-with_replica x id size meta_len now none = ground arith
copy_in-with_replica x id size meta_len now (some e) = elim (Bool-cases (contains id e.shards)) [
  | inr fresh ↦ rw fresh (contains-append x id e.shards)
  | inl there ↦ rw there (known there)
]
  where
    same_shard :
        contains id e.shards ≡ true
        → (id == x) ≡ true
        → contains x e.shards ≡ (contains x e.shards || true)
    same_shard there h =
        let p : id ≡ x = ground arith in rw (subst (λ t. contains t e.shards ≡ true) p there)

    known : contains id e.shards ≡ true → contains x e.shards ≡ (contains x e.shards || id == x)
    known there = elim (Bool-cases (id == x)) [
      | inl h ↦ rw h (same_shard there h)
      | inr h ↦ rw h (ground arith)
    ]

module _ (x : ℕ) (key k : Bytes) (m : Dict PlacementEntry) where
  same_entry : same key k ≡ true → lookup key m ≡ lookup k m
  same_entry h = ap (λ t. lookup t m) (same→≡ key k h)

  holds_insert :
      (e : PlacementEntry)
      → copy_in x (lookup k (insert key e m))
        ≡ (if same key k then contains x e.shards else copy_in x (lookup k m))
  holds_insert e =
      ap (copy_in x) (lookup-insert key k e m) ∙ copy_in-if x (same key k) (some e) (lookup k m)

  holds_removed : copy_in x (lookup k (remove key m)) ≡ (copy_in x (lookup k m) && not (same key k))
  holds_removed =
      ap (copy_in x) (lookup-remove key k m)
      ∙ copy_in-if x (same key k) none (lookup k m)
      ∙ elim (Bool-cases (same key k)) [ inl h ↦ rw h (ground arith) | inr h ↦ rw h (ground arith) ]

  holds_added :
      (id size meta_len now : ℕ)
      → copy_in x (lookup k (insert key (with_replica (lookup key m) id size meta_len now) m))
        ≡ (copy_in x (lookup k m) || (same key k && id == x))
  holds_added id size meta_len now =
      holds_insert (with_replica (lookup key m) id size meta_len now)
      ∙ elim (Bool-cases (same key k)) [
        | inl h ↦ rw h (
            copy_in-with_replica x id size meta_len now (lookup key m)
            ∙ ap (λ o. copy_in x o || id == x) (same_entry h))
        | inr h ↦ rw h (ground arith)
      ]

pub empty-contains : (x : ℕ) (l : List ℕ) → is_empty l ≡ true → contains x l ≡ false
unfolding is_empty contains
empty-contains x [] h = refl
empty-contains x (s ∷ r) h = cc

module _ (c : Catalog) (key k : Bytes) (id x : ℕ) where
  stays : (b : Bool) → same key k ≡ false → b ≡ (b && not (same key k && x == id))
  stays b h = rw h (ground arith)

  holds_shard_removed :
      holds x k (remove_shard key id c) ≡ (holds x k c && not (same key k && x == id))
  unfolding remove_shard
  holds_shard_removed = go (lookup key c.inner) refl
    where
      after : Option PlacementEntry → Catalog
      after o = elim o [
        | none ↦ c
        | some e ↦
            let left = without id e.shards in
            if is_empty left
            then changed (remove key c.inner)
            else changed (insert key (record e { shards = left }) c.inner)
      ]

      here :
          (e : PlacementEntry)
          → lookup key c.inner ≡ some e
          → same key k ≡ true
          → holds x k c ≡ contains x e.shards
      here e q h = ap (copy_in x) (sym (same_entry x key k c.inner h) ∙ q)

      go :
          (o : Option PlacementEntry)
          → lookup key c.inner ≡ o
          → holds x k (after o) ≡ (holds x k c && not (same key k && x == id))
      go none q = elim (Bool-cases (same key k)) [
        | inr h ↦ stays (holds x k c) h
        | inl h ↦
            let z : holds x k c ≡ false = ap (copy_in x) (sym (same_entry x key k c.inner h) ∙ q) in
            rw h (z ∙ sym (ap (λ b. b && not (x == id)) z))
      ]
      go (some e) q =
          let left = without id e.shards in
          elim (Bool-cases (is_empty left)) [
            | inl no_copy ↦ rw no_copy (
                holds_removed x key k c.inner ∙ elim (Bool-cases (same key k)) [
                  | inr h ↦ rw h refl
                  | inl h ↦
                      let gone : (contains x e.shards && not (x == id)) ≡ false =
                        sym (contains-without id x e.shards) ∙ empty-contains x left no_copy in
                      rw (h, here e q h) (ground (arith, gone))
                ])
            | inr some_copy ↦ rw some_copy (
                holds_insert x key k c.inner (record e { shards = left })
                ∙ elim (Bool-cases (same key k)) [
                  | inr h ↦ rw h (ground arith)
                  | inl h ↦ rw (h, here e q h) (contains-without id x e.shards)
                ])
          ]

  holds_entry_removed : holds x k (remove_entry key c).1 ≡ (holds x k c && not (same key k))
  unfolding remove_entry
  holds_entry_removed = go (lookup key c.inner) refl
    where
      go :
          (o : Option PlacementEntry)
          → lookup key c.inner ≡ o
          → holds x k
              (elim o as (λ _. Option PlacementEntry × Catalog) [
                | none ↦ (none, c)
                | some e ↦ (some e, changed (remove key c.inner))
              ]).1
            ≡ (holds x k c && not (same key k))
      go (some e) q = holds_removed x key k c.inner
      go none q = elim (Bool-cases (same key k)) [
        | inr h ↦ rw h (ground arith)
        | inl h ↦
            let z : holds x k c ≡ false = ap (copy_in x) (sym (same_entry x key k c.inner h) ∙ q) in
            rw h (z ∙ sym (ap (λ b. b && false) z))
      ]

  holds_tried :
      (shards : List ℕ) (size now : ℕ)
      → ((try_insert key shards size now c).0 ≡ true
          → (lookup key c.inner ≡ none)
            × (holds x k (try_insert key shards size now c).1
                ≡ (if same key k then contains x shards else holds x k c)))
        × ((try_insert key shards size now c).0 ≡ false
            → (lookup key c.inner ≢ none) × ((try_insert key shards size now c).1 ≡ c))
  unfolding try_insert
  holds_tried shards size now = go (lookup key c.inner) refl
    where
      entry : PlacementEntry
      entry = record { shards = shards; size = size; crc32c = none; updated = now; meta_len = 0 }

      after : Option PlacementEntry → Bool × Catalog
      after o = elim o [ some e ↦ (false, c) | none ↦ (true, changed (insert key entry c.inner)) ]

      go :
          (o : Option PlacementEntry)
          → lookup key c.inner ≡ o
          → ((after o).0 ≡ true
              → (o ≡ none)
                × (holds x k (after o).1 ≡ (if same key k then contains x shards else holds x k c)))
            × ((after o).0 ≡ false → (o ≢ none) × ((after o).1 ≡ c))
      go none q = (λ h. (refl, holds_insert x key k c.inner entry), λ h. cc)
      go (some e) q = (λ h. cc, λ h. (λ n. cc, refl))

-- A put replaces the copies of its key by those given, `add_replica` adds one, `remove_shard` and
-- `remove_entry` take one and all away. `try_insert` gives a key without an entry the copies given and
-- answers true, and otherwise answers false and leaves the catalog. The copies of other keys stay.
pub catalog_holds :
    (c : Catalog) (key k : Bytes) (shards : List ℕ) (crc : Option ℕ) (id x size meta_len now : ℕ)
    → (holds x k (put key shards size crc meta_len now c)
        ≡ (if same key k then contains x shards else holds x k c))
      × (holds x k (add_replica key id size meta_len now c)
          ≡ (holds x k c || (same key k && id == x)))
      × (holds x k (remove_shard key id c) ≡ (holds x k c && not (same key k && x == id)))
      × (holds x k (remove_entry key c).1 ≡ (holds x k c && not (same key k)))
      × ((try_insert key shards size now c).0 ≡ true
          → (lookup key c.inner ≡ none)
            × (holds x k (try_insert key shards size now c).1
                ≡ (if same key k then contains x shards else holds x k c)))
      × ((try_insert key shards size now c).0 ≡ false
          → (lookup key c.inner ≢ none) × ((try_insert key shards size now c).1 ≡ c))
unfolding put add_replica
catalog_holds c key k shards crc id x size meta_len now = (
  holds_insert x key k c.inner
      (record { shards = shards; size = size; crc32c = crc; updated = now; meta_len = meta_len }),
  holds_added x key k c.inner id size meta_len now,
  holds_shard_removed c key k id x,
  holds_entry_removed c key k id x,
  (holds_tried c key k id x shards size now).0,
  (holds_tried c key k id x shards size now).1,
)
