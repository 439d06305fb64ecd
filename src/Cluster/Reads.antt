-- ===== src/Cluster/Reads.antt =====
-- The order in which shards are read, and what a failed read does: `resolve_shards`,
-- `balanced_shard_order` and `handle_read_error` of shardedobjstr/src/lib.rs.
use native.Mathlib.Nat.{mod-lt}
use objstr.Base.{
  ℕ, zero, suc, ◌+◌, ◌-◌, ◌%◌, ◌^◌, ◌<◌, ◌≡◌, refl, sym, ap, ◌∙◌, inl, inr, Bool, true, false, not,
  ◌&&◌, Option, none, some, List, [], ◌∷◌, ◌++◌, ltb, leb, ◌==◌, if◌then◌else◌, length, get_elem?,
  set, take, drop, arith, Bool-cases, take-append-drop, length-append, length-drop, length-take,
}
use objstr.RawError.{Bytes}
use objstr.Catalog
use objstr.Catalog.{contains, PlacementEntry, remove_shard}
use objstr.Cluster.{ShardInfo, Cluster, ReadPreference, round_robin, ordered, is_unavailable}

module _ {S : Type 0} where
  -- The shard is there and can be read.
  unfoldable pub readable_at : List (ShardInfo S) → ℕ → Bool
  unfolding is_unavailable
  readable_at shards id = elim (get_elem? shards id) [
    | none ↦ false
    | some s ↦ not (is_unavailable s.health)
  ]

  -- A rotation by the counter, which a list of one shard at most leaves alone.
  unfoldable pub balanced_shard_order : List ℕ → Cluster S → List ℕ × Cluster S
  balanced_shard_order ids c =
      let idx = c.read_counter % length ids in
      if leb (length ids) 1
      then (ids, c)
      else (drop idx ids ++ take idx ids, record c { read_counter = (c.read_counter + 1) % 2 ^ 64 })

unfoldable pub keep : (ℕ → Bool) → List ℕ → List ℕ
keep p [] = []
keep p (id ∷ r) = let rest = keep p r in if p id then id ∷ rest else rest

unfoldable pub range : ℕ → ℕ → List ℕ
range zero id = []
range (suc k) id = id ∷ range k (suc id)

-- `sort_by_key` is stable.
unfoldable pub insert_by : (ℕ → ℕ) → ℕ → List ℕ → List ℕ
insert_by key id [] = id ∷ []
insert_by key id (j ∷ r) =
    let rest = insert_by key id r in if leb (key id) (key j) then id ∷ j ∷ r else j ∷ rest

unfoldable pub sort_by_key : (ℕ → ℕ) → List ℕ → List ℕ
unfolding insert_by
sort_by_key key [] = []
sort_by_key key (id ∷ r) = insert_by key id (sort_by_key key r)

module _ (crc : Bytes → ℕ) (jump_consistent_hash : ℕ → ℕ → ℕ) where
  -- The shards of the entry that can be read, or all that can be read, the home shard first.
  unfoldable pub candidates : {S : Type 0} → Bytes → Cluster S → List ℕ
  unfolding keep range sort_by_key readable_at
  candidates key c =
      let n = length c.shards in
      let home = jump_consistent_hash (crc key) n in
      elim (Catalog.get key c.catalog) [
        | some e ↦ keep (readable_at c.shards) e.shards
        | none ↦ sort_by_key (λ id. (id + n - home) % n) (keep (readable_at c.shards) (range n 0))
      ]

  unfoldable pub is_fallback : {S : Type 0} → Bytes → Cluster S → Bool
  is_fallback key c = elim (Catalog.get key c.catalog) [ some e ↦ false | none ↦ true ]

  unfoldable pub resolve_shards : {S : Type 0} → Bytes → Cluster S → (List ℕ × Bool) × Cluster S
  unfolding candidates is_fallback balanced_shard_order
  resolve_shards key c =
      let rotated = balanced_shard_order (candidates key c) c in
      elim c.read_preference [
        | ordered ↦ ((candidates key c, is_fallback key c), c)
        | round_robin ↦ ((rotated.0, is_fallback key c), rotated.1)
      ]

module _ {S : Type 0} where
  -- `corrupt` says that the message of the error contains "data corruption".
  unfoldable pub handle_read_error : ℕ → Bytes → Bool → Cluster S → Bool × Cluster S
  unfolding remove_shard
  handle_read_error id key corrupt c =
      if not corrupt then (false, c) else elim (get_elem? c.shards id) [
        | none ↦ (true, c)
        | some s ↦ (
          true,
          record c {
            shards =
                set c.shards id (record s { crc_error_count = (s.crc_error_count + 1) % 2 ^ 64 });
            catalog = remove_shard key id c.catalog;
          },
        )
      ]

-- How often a shard stands in a list.
unfoldable pub count : ℕ → List ℕ → ℕ
count x [] = 0
count x (id ∷ l) = let rest = count x l in if id == x then suc rest else rest

count-append : (x : ℕ) (l m : List ℕ) → count x (l ++ m) ≡ count x l + count x m
unfolding count
count-append x [] m = omega arith
count-append x (s ∷ l) m = ground (arith, count-append x l m)

count-rotation : (x i : ℕ) (l : List ℕ) → count x (drop i l ++ take i l) ≡ count x l
count-rotation x i l =
    let e = count-append x (drop i l) (take i l) in
    let f = count-append x (take i l) (drop i l) in
    let g = ap (count x) (take-append-drop i l) in omega (arith, e, f, g)

count-keep :
    (x : ℕ) (p : ℕ → Bool) (l : List ℕ) → count x (keep p l) ≡ (if p x then count x l else 0)
unfolding count keep
count-keep x p [] = ground arith
count-keep x p (s ∷ l) =
    let rest = count-keep x p l in
    let here : s ≡ x → p s ≡ p x = ap p in
    elim (Bool-cases (p s)) [ inl e ↦ rw e (ground arith) | inr e ↦ rw e (ground arith) ]

count-insert_by :
    (x : ℕ) (key : ℕ → ℕ) (id : ℕ) (l : List ℕ) → count x (insert_by key id l) ≡ count x (id ∷ l)
unfolding count insert_by
count-insert_by x key id [] = refl
count-insert_by x key id (j ∷ l) =
    let rest = count-insert_by x key id l in
    elim (Bool-cases (leb (key id) (key j))) [ inl e ↦ rw e refl | inr e ↦ rw e (ground arith) ]

count-sort_by_key : (x : ℕ) (key : ℕ → ℕ) (l : List ℕ) → count x (sort_by_key key l) ≡ count x l
unfolding count sort_by_key
count-sort_by_key x key [] = refl
count-sort_by_key x key (id ∷ l) =
    count-insert_by x key id (sort_by_key key l) ∙ rw (count-sort_by_key x key l) refl

count-range : (x k id : ℕ) → count x (range k id) ≡ (if leb id x && ltb x (id + k) then 1 else 0)
unfolding count range
count-range x zero id = ground arith
count-range x (suc k) id = let rest = count-range x k (suc id) in ground arith

get_elem?-rotation :
    (i : ℕ) (l m : List ℕ) → i < length l → get_elem? (drop i l ++ m) 0 ≡ get_elem? l i
get_elem?-rotation i [] m h = absurd (omega arith)
get_elem?-rotation zero (x ∷ l) m h = refl
get_elem?-rotation (suc i) (x ∷ l) m h = get_elem?-rotation i l m (omega arith)

module _ {S : Type 0} where
  count-balanced :
      (x : ℕ) (ids : List ℕ) (c : Cluster S) → count x (balanced_shard_order ids c).0 ≡ count x ids
  unfolding balanced_shard_order
  count-balanced x ids c = elim (Bool-cases (leb (length ids) 1)) [
    | inl e ↦ rw e refl
    | inr e ↦ rw e (count-rotation x (c.read_counter % length ids) ids)
  ]

  -- The balanced order has the shards of the list, each as often as the list, and it begins with the one at the counter's place, counted around the list.
  pub balanced_shard_order_lem :
      (ids : List ℕ) (c : Cluster S)
      → 0 < length ids
      → let order = (balanced_shard_order ids c).0 in
        ((x : ℕ) → count x order ≡ count x ids)
        × (length order ≡ length ids)
        × (get_elem? order 0 ≡ get_elem? ids (c.read_counter % length ids))
  unfolding balanced_shard_order
  balanced_shard_order_lem ids c pos =
      let i = c.read_counter % length ids in
      let inside : i < length ids = mod-lt c.read_counter pos in
      elim (Bool-cases (leb (length ids) 1)) [
        | inl e ↦
            let first : c.read_counter % length ids ≡ 0 = ground arith in
            rw e (λ x. refl, refl, ap (get_elem? ids) (sym first))
        | inr e ↦ rw e (
          λ x. count-rotation x i ids,
          (let p = length-append (drop i ids) (take i ids) in
              let q = length-drop i ids in
              let r = length-take i ids in omega (arith, p, q, r, inside)),
          get_elem?-rotation i ids (take i ids) inside,
        )
      ]

  candidates_lem :
      (crc : Bytes → ℕ) (jump_consistent_hash : ℕ → ℕ → ℕ) (key : Bytes) (c : Cluster S) (x : ℕ)
      → count x (candidates crc jump_consistent_hash key c) ≡ (
          if readable_at c.shards x
          then (elim (Catalog.get key c.catalog) [
            | some e ↦ count x e.shards
            | none ↦ if ltb x (length c.shards) then 1 else 0
          ])
          else 0)
  unfolding candidates
  candidates_lem crc jump key c x = go (Catalog.get key c.catalog)
    where
      n : ℕ
      n = length c.shards

      by_home : ℕ → ℕ
      by_home id = (id + n - jump (crc key) n) % n

      go :
          (o : Option PlacementEntry)
          → count x (elim o [
            | some e ↦ keep (readable_at c.shards) e.shards
            | none ↦ sort_by_key by_home (keep (readable_at c.shards) (range n 0))
          ])
            ≡ (if readable_at c.shards x
                then (elim o [ some e ↦ count x e.shards | none ↦ if ltb x n then 1 else 0 ])
                else 0)
      go none =
          count-sort_by_key x by_home (keep (readable_at c.shards) (range n 0))
          ∙ count-keep x (readable_at c.shards) (range n 0)
          ∙ rw (count-range x n 0) (ground arith)
      go (some e) = count-keep x (readable_at c.shards) e.shards

  -- A read tries the shards that are there and that are neither offline nor detached: when the catalog
  -- has the key, each as often as its entry names it, and otherwise each once. So the read preference
  -- changes only their order.
  pub resolve_shards_lem :
      (crc : Bytes → ℕ) (jump_consistent_hash : ℕ → ℕ → ℕ) (key : Bytes) (c : Cluster S) (x : ℕ)
      → count x (resolve_shards crc jump_consistent_hash key c).0.0 ≡ (
          if readable_at c.shards x
          then (elim (Catalog.get key c.catalog) [
            | some e ↦ count x e.shards
            | none ↦ if ltb x (length c.shards) then 1 else 0
          ])
          else 0)
  unfolding resolve_shards
  resolve_shards_lem crc jump key c x = go c.read_preference
    where
      ids : List ℕ
      ids = candidates crc jump key c

      order : ReadPreference → (List ℕ × Bool) × Cluster S
      order p = elim p [
        | ordered ↦ ((ids, is_fallback crc jump key c), c)
        | round_robin ↦ (
          ((balanced_shard_order ids c).0, is_fallback crc jump key c),
          (balanced_shard_order ids c).1,
        )
      ]

      rotated : count x (balanced_shard_order ids c).0 ≡ count x ids
      rotated = count-balanced x ids c

      go :
          (p : ReadPreference)
          → count x (order p).0.0 ≡ (
              if readable_at c.shards x
              then (elim (Catalog.get key c.catalog) [
                | some e ↦ count x e.shards
                | none ↦ if ltb x (length c.shards) then 1 else 0
              ])
              else 0)
      go ordered = candidates_lem crc jump key c x
      go round_robin = rotated ∙ candidates_lem crc jump key c x
