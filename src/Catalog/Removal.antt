-- ===== src/Catalog/Removal.antt =====
-- The removal of a shard from the catalog, `remove_all_for_shard` of shardedobjstr/src/catalog.rs.
use objstr.Base.{
  ℕ, ◌≡◌, inl, inr, refl, ap, sym, ◌∙◌, Bool, true, false, ◌&&◌, ◌||◌, not, none, some, List, [],
  ◌∷◌, ltb, ◌==◌, if◌then◌else◌, length, arith, Bool-cases,
}
use objstr.RawError.{Bytes}
use objstr.Dict.{Dict, lookup, remove, lookup-remove, same, same→≡}
use objstr.Index.Shards.Merge.{IsMap}
use objstr.Catalog.{
  PlacementEntry, Catalog, contains, without, is_empty, strip, remove_keys, remove_all_for_shard,
  entries_for_shard,
}
use objstr.Catalog.Laws.{contains-without, references-strip, references-remove_keys, strip_count}
use objstr.Catalog.Holds.{holds, copy_in, empty-contains}

abbrev named : Bytes → List Bytes → Bool
named k [] = false
named k (j ∷ ks) = same j k || named k ks

lookup-remove_keys :
    (ks : List Bytes) (k : Bytes) (m : Dict PlacementEntry)
    → lookup k (remove_keys ks m) ≡ (if named k ks then none else lookup k m)
unfolding remove_keys
lookup-remove_keys [] k m = refl
lookup-remove_keys (j ∷ ks) k m =
    let rest = lookup-remove_keys ks k (remove j m) in
    rest
    ∙ rw (lookup-remove j k m)
        (elim (Bool-cases (same j k)) [ inl e ↦ rw e (ground arith) | inr e ↦ rw e refl ])

copy_in-strip :
    (id x : ℕ) (k : Bytes) (m : Dict PlacementEntry)
    → copy_in x (lookup k (strip id m).0) ≡ (copy_in x (lookup k m) && not (x == id))
unfolding strip lookup
copy_in-strip id x k [] = refl
copy_in-strip id x k ((j, e) ∷ m) =
    let rest = copy_in-strip id x k m in
    elim (Bool-cases (contains id e.shards)) [
      | inl h ↦ elim (Bool-cases (same j k)) [
        | inl f ↦ rw (h, f) (contains-without id x e.shards)
        | inr f ↦ rw (h, f) rest
      ]
      | inr h ↦ elim (Bool-cases (same j k)) [
        | inl f ↦
            rw (h, f)
              (elim (Bool-cases (x == id)) [
                | inl g ↦
                    let p : x ≡ id = ground arith in
                    let q : contains x e.shards ≡ false = ap (λ t. contains t e.shards) p ∙ h in
                    rw (g, q) refl
                | inr g ↦ rw g (ground arith)
              ])
        | inr f ↦ rw (h, f) rest
      ]
    ]

-- Only keys of the catalog are emptied.
named-missing :
    (id : ℕ) (k : Bytes) (m : Dict PlacementEntry)
    → lookup k m ≡ none
    → named k (strip id m).1.1 ≡ false
unfolding strip lookup
named-missing id k [] h = refl
named-missing id k ((j, e) ∷ m) h = elim (Bool-cases (same j k)) [
  | inl f ↦ let no : some e ≡ none = rw f at h in cc
  | inr f ↦
      let rest = named-missing id k m (rw f at h) in
      elim (Bool-cases (contains id e.shards)) [
        | inl u ↦ elim (Bool-cases (is_empty (without id e.shards))) [
          | inl v ↦ rw (u, v, f) rest
          | inr v ↦ rw (u, v) rest
        ]
        | inr u ↦ rw u rest
      ]
]

-- A key that is removed has no replica left.
named-empty :
    (id x : ℕ) (k : Bytes) (m : Dict PlacementEntry)
    → IsMap m
    → named k (strip id m).1.1 ≡ true
    → copy_in x (lookup k (strip id m).0) ≡ false
unfolding strip lookup
named-empty id x k [] u h = refl
named-empty id x k ((j, e) ∷ m) u h = elim (Bool-cases (same j k)) [
  | inr f ↦ elim (Bool-cases (contains id e.shards)) [
    | inl c ↦ elim (Bool-cases (is_empty (without id e.shards))) [
      | inl v ↦ rw (c, f) (named-empty id x k m u.1 (rw (c, v, f) at h))
      | inr v ↦ rw (c, f) (named-empty id x k m u.1 (rw (c, v) at h))
    ]
    | inr c ↦ rw (c, f) (named-empty id x k m u.1 (rw c at h))
  ]
  | inl f ↦
      let gone : lookup k m ≡ none = ap (λ t. lookup t m) (sym (same→≡ j k f)) ∙ u.0 in
      let later = named-missing id k m gone in
      elim (Bool-cases (contains id e.shards)) [
        | inl c ↦ elim (Bool-cases (is_empty (without id e.shards))) [
          | inl v ↦ rw (c, f) (empty-contains x (without id e.shards) v)
          | inr v ↦
              let now : named k (strip id m).1.1 ≡ true = rw (c, v) at h in
              let no = sym now ∙ later in cc
        ]
        | inr c ↦
            let now : named k (strip id m).1.1 ≡ true = rw c at h in let no = sym now ∙ later in cc
      ]
]

holds-remove_all :
    (id x : ℕ) (k : Bytes) (c : Catalog)
    → IsMap c.inner
    → holds x k (remove_all_for_shard id c).1 ≡ (holds x k c && not (x == id))
unfolding remove_all_for_shard
holds-remove_all id x k c u =
    let stripped = copy_in-strip id x k c.inner in
    rw (lookup-remove_keys (strip id c.inner).1.1 k (strip id c.inner).0)
      (elim (Bool-cases (named k (strip id c.inner).1.1)) [
        | inl h ↦ rw h (sym (named-empty id x k c.inner u h) ∙ stripped)
        | inr h ↦ rw h stripped
      ])

-- After `remove_all_for_shard` the shard holds no copy of any object and no entry refers to it, and
-- every copy on another shard is still there. The count that it returns is the number of the entries
-- that referred to it, and the catalog is dirty if there were any. No key stands twice in the catalog.
pub remove_all_for_shard_lem :
    (id : ℕ) (c : Catalog)
    → IsMap c.inner
    → ((x : ℕ) (k : Bytes)
        → holds x k (remove_all_for_shard id c).1 ≡ (holds x k c && not (x == id)))
      × (entries_for_shard id (remove_all_for_shard id c).1 ≡ [])
      × ((remove_all_for_shard id c).0 ≡ length (entries_for_shard id c))
      × ((remove_all_for_shard id c).1.dirty
          ≡ (if ltb 0 (length (entries_for_shard id c)) then true else c.dirty))
unfolding remove_all_for_shard entries_for_shard
remove_all_for_shard_lem id c u = (
  λ x k. holds-remove_all id x k c u,
  references-remove_keys id (strip id c.inner).1.1 (strip id c.inner).0
      (references-strip id c.inner),
  strip_count id c.inner,
  rw (strip_count id c.inner) refl,
)
