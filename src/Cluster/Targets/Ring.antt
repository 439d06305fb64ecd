-- ===== src/Cluster/Targets/Ring.antt =====
-- The walk around the shards in `select_targets` of shardedobjstr/src/lib.rs.
use native.Mathlib.Nat.{mod-eq_of_lt, mod-eq-sub-mod}
use objstr.Base.{
  ℕ, zero, suc, ◌+◌, ◌-◌, ◌%◌, ◌≤◌, ◌<◌, ◌≡◌, min, refl, sym, ap, ◌∙◌, inl, inr, Bool, true, false,
  ltb, leb, ◌==◌, if◌then◌else◌, length, arith, Bool-cases,
}
use objstr.RawError.{Bytes}
use objstr.Catalog.{contains}
use objstr.Cluster.{Cluster}
use objstr.Cluster.Targets.{
  writable_from, writable_from-range, writable_from-IsDistinct, clockwise, IsDistinct,
  targets_among, select_targets, writable_at,
}

module _ (writable : ℕ → Bool) (home n : ℕ) (inside : home < n) where
  -- The shard at an offset, and the offset of a shard.
  ring_id : (o : ℕ) → o < n → (home + o) % n ≡ (if ltb (home + o) n then home + o else home + o - n)
  ring_id o p = elim (Bool-cases (ltb (home + o) n)) [
    | inl e ↦ let small : home + o < n = ground arith in rw e (mod-eq_of_lt small)
    | inr e ↦
        let large : n ≤ home + o = ground arith in
        let small : home + o - n < n = ground arith in
        rw e (mod-eq-sub-mod large ∙ mod-eq_of_lt small)
  ]

  abbrev ring_offset : ℕ → ℕ
  ring_offset x = if leb home x then x - home else x + n - home

  ring_offset-id : (o : ℕ) → o < n → (ring_offset ((home + o) % n) ≡ o) × ((home + o) % n < n)
  ring_offset-id o p = let e = ring_id o p in ground arith

  clockwise-members :
      (k o left : ℕ)
      → o + k ≤ n
      → (x : ℕ) → contains x (clockwise writable home n k o left) ≡ true
      → (writable x ≡ true) × (x < n) × (o ≤ ring_offset x) × (ring_offset x < o + k)
  unfolding clockwise contains
  clockwise-members zero o left p x h = cc
  clockwise-members (suc k) o left p x h =
      let id = (home + o) % n in
      let (at_o, low) = ring_offset-id o (omega arith) in
      elim (Bool-cases (writable id)) [
        | inl e ↦
            let rest = clockwise-members k (suc o) (left - 1) (omega arith) x in
            elim (Bool-cases (id == x)) [
              | inl f ↦
                  let same : id ≡ x = ground arith in
                  (
                    ap writable (sym same) ∙ e,
                    omega (arith, low, same),
                    omega (arith, at_o, ap ring_offset same),
                    omega (arith, at_o, ap ring_offset same),
                  )
              | inr f ↦ elim (Bool-cases (left == 1)) [
                | inl g ↦ let no = rw (e, f, g) at h in cc
                | inr g ↦
                    let (u, v, w, z) = rest (rw (e, f, g) at h) in (u, v, omega arith, omega arith)
              ]
            ]
        | inr e ↦
            let (u, v, w, z) = clockwise-members k (suc o) left (omega arith) x (rw e at h) in
            (u, v, omega arith, omega arith)
      ]

  -- The writable shards at the `k` offsets from `o` on.
  unfoldable ring_count : ℕ → ℕ → ℕ
  ring_count zero o = 0
  ring_count (suc k) o = (if writable ((home + o) % n) then 1 else 0) + ring_count k (suc o)

  length-clockwise :
      (k o left : ℕ)
      → 0 < left
      → length (clockwise writable home n k o left) ≡ min left (ring_count k o)
  unfolding clockwise ring_count
  length-clockwise zero o left p = omega arith
  length-clockwise (suc k) o left p = elim (Bool-cases (writable ((home + o) % n))) [
    | inl e ↦ elim (Bool-cases (left == 1)) [
      | inl f ↦ rw (e, f) (ground arith)
      | inr f ↦
          let rest = length-clockwise k (suc o) (left - 1) (ground arith) in
          rw (e, f) (ground arith)
    ]
    | inr e ↦ rw e (length-clockwise k (suc o) left p ∙ omega arith)
  ]

  clockwise-IsDistinct :
      (k o left : ℕ) → o + k ≤ n → IsDistinct (clockwise writable home n k o left)
  unfolding clockwise contains
  clockwise-IsDistinct zero o left p = tt
  clockwise-IsDistinct (suc k) o left p =
      let id = (home + o) % n in
      let (at_o, low) = ring_offset-id o (omega arith) in
      elim (Bool-cases (writable id)) [
        | inl e ↦
            let fresh : contains id (clockwise writable home n k (suc o) (left - 1)) ≡ false =
              elim (Bool-cases (contains id (clockwise writable home n k (suc o) (left - 1)))) [
                | inl f ↦
                    let (_, _, w, _) = clockwise-members k (suc o) (left - 1) (omega arith) id f in
                    absurd (omega (arith, at_o))
                | inr f ↦ f
              ] in
            elim (Bool-cases (left == 1)) [
              | inl f ↦ rw (e, f) (refl, tt)
              | inr f ↦ rw (e, f) (fresh, clockwise-IsDistinct k (suc o) (left - 1) (omega arith))
            ]
        | inr e ↦ rw e (clockwise-IsDistinct k (suc o) left (omega arith))
      ]

  ring_count-add : (j k o : ℕ) → ring_count (j + k) o ≡ ring_count j o + ring_count k (o + j)
  unfolding ring_count
  ring_count-add zero k o =
      let a : 0 + k ≡ k = omega arith in
      let c : o + 0 ≡ o = omega arith in
      let e : ring_count (0 + k) o ≡ ring_count k o = ap (λ t. ring_count t o) a in
      let f : ring_count k (o + 0) ≡ ring_count k o = ap (ring_count k) c in omega (arith, e, f)
  ring_count-add (suc j) k o =
      let a : suc j + k ≡ suc (j + k) = omega arith in
      let c : o + suc j ≡ suc o + j = omega arith in
      let e : ring_count (suc j + k) o ≡ ring_count (suc (j + k)) o = ap (λ t. ring_count t o) a in
      let f : ring_count k (o + suc j) ≡ ring_count k (suc o + j) = ap (ring_count k) c in
      let rest = ring_count-add j k (suc o) in e ∙ omega (arith, f, rest)

  ring_count-plain :
      (k o : ℕ) → home + (o + k) ≤ n → ring_count k o ≡ length (writable_from writable k (home + o))
  unfolding ring_count writable_from
  ring_count-plain zero o p = refl
  ring_count-plain (suc k) o p =
      let e = ring_id o (omega arith) in
      let low : (home + o) % n ≡ home + o = ground arith in
      let next : home + suc o ≡ suc (home + o) = omega arith in
      let rest : ring_count k (suc o) ≡ length (writable_from writable k (suc (home + o))) =
        ring_count-plain k (suc o) (omega arith)
        ∙ ap (λ t. length (writable_from writable k t)) next in
      rw (low, rest)
        (elim (Bool-cases (writable (home + o))) [
          | inl f ↦ rw f (omega arith)
          | inr f ↦ rw f (omega arith)
        ])

  ring_count-wrapped :
      (k o : ℕ)
      → n ≤ home + o
      → o + k ≤ n
      → ring_count k o ≡ length (writable_from writable k (home + o - n))
  unfolding ring_count writable_from
  ring_count-wrapped zero o p q = refl
  ring_count-wrapped (suc k) o p q =
      let e = ring_id o (omega arith) in
      let low : (home + o) % n ≡ home + o - n = ground arith in
      let next : home + suc o - n ≡ suc (home + o - n) = omega arith in
      let rest : ring_count k (suc o) ≡ length (writable_from writable k (suc (home + o - n))) =
        ring_count-wrapped k (suc o) (omega arith) (omega arith)
        ∙ ap (λ t. length (writable_from writable k t)) next in
      rw (low, rest)
        (elim (Bool-cases (writable (home + o - n))) [
          | inl f ↦ rw f (omega arith)
          | inr f ↦ rw f (omega arith)
        ])

  writable_from-add :
      (j k id : ℕ)
      → length (writable_from writable (j + k) id)
        ≡ length (writable_from writable j id) + length (writable_from writable k (id + j))
  unfolding writable_from
  writable_from-add zero k id =
      let a : 0 + k ≡ k = omega arith in
      let c : id + 0 ≡ id = omega arith in
      let e : length (writable_from writable (0 + k) id) ≡ length (writable_from writable k id) =
        ap (λ t. length (writable_from writable t id)) a in
      let f : length (writable_from writable k (id + 0)) ≡ length (writable_from writable k id) =
        ap (λ t. length (writable_from writable k t)) c in
      omega (arith, e, f)
  writable_from-add (suc j) k id =
      let a : suc j + k ≡ suc (j + k) = omega arith in
      let c : id + suc j ≡ suc id + j = omega arith in
      let f : length (writable_from writable k (id + suc j))
          ≡ length (writable_from writable k (suc id + j)) =
        ap (λ t. length (writable_from writable k t)) c in
      let rest = writable_from-add j k (suc id) in
      ap (λ t. length (writable_from writable t id)) a ∙ elim (Bool-cases (writable id)) [
        | inl e ↦ rw e (omega (arith, f, rest))
        | inr e ↦ rw e (omega (arith, f, rest))
      ]

  -- All offsets see every writable shard once.
  ring_count-all : ring_count n 0 ≡ length (writable_from writable n 0)
  ring_count-all =
      let m = n - home in
      let split : m + home ≡ n = omega arith in
      let wrap : home + m - n ≡ 0 = omega arith in
      let back : home + m ≡ n = omega arith in
      let whole : ring_count n 0 ≡ ring_count (m + home) 0 = ap (λ t. ring_count t 0) (sym split) in
      let late : ring_count home m ≡ length (writable_from writable home 0) =
        ring_count-wrapped home m (omega arith) (omega arith)
        ∙ ap (λ t. length (writable_from writable home t)) wrap in
      let start : home + 0 ≡ home = omega arith in
      let early : ring_count m 0 ≡ length (writable_from writable m home) =
        ring_count-plain m 0 (omega arith) ∙ ap (λ t. length (writable_from writable m t)) start in
      let zero_m : 0 + m ≡ m = omega arith in
      let parts : ring_count (m + home) 0 ≡ ring_count m 0 + ring_count home m =
        ring_count-add m home 0 ∙ ap (λ t. ring_count m 0 + ring_count home t) zero_m in
      let zero_home : 0 + home ≡ home = omega arith in
      let ordered : length (writable_from writable n 0)
          ≡ length (writable_from writable home 0) + length (writable_from writable m home) =
        ap (λ t. length (writable_from writable t 0)) (sym back)
        ∙ writable_from-add home m 0
        ∙ ap (λ t. length (writable_from writable home 0) + length (writable_from writable m t))
            zero_home in
      omega (arith, whole, parts, early, late, ordered)

-- Over any flags of writability.
targets_among-IsDistinct :
    (crc : Bytes → ℕ) (jump_consistent_hash : ℕ → ℕ → ℕ)
    → ((key buckets : ℕ) → 0 < buckets → jump_consistent_hash key buckets < buckets)
    → (writable : ℕ → Bool) (n rf : ℕ) (path : Bytes) → 0 < rf
    → let targets = targets_among crc jump_consistent_hash writable n rf path in
      ((x : ℕ) → contains x targets ≡ true → (writable x ≡ true) × (x < n))
      × IsDistinct targets
      × (length targets ≡ min rf (length (writable_from writable n 0)))
unfolding targets_among contains
targets_among-IsDistinct crc jump law writable n rf path pos = elim (Bool-cases (n == 0)) [
  | inl e ↦ let none_there : n ≡ 0 = ground arith in rw (e, none_there) (λ x h. cc, tt, omega arith)
  | inr e ↦
      let all = writable_from writable n 0 in
      let home = jump (crc path) n in
      let inside : home < n = law (crc path) n (ground arith) in
      elim (Bool-cases (leb (length all) rf)) [
        | inl f ↦
            rw (e, f)
              (
                λ x h. let r = writable_from-range writable x n 0 in ground arith,
                writable_from-IsDistinct writable n 0,
                ground arith,
              )
        | inr f ↦
            rw (e, f)
              (
                λ x h.
                    let (u, v, _, _) =
                      clockwise-members writable home n inside n 0 rf (omega arith) x h in
                    (u, v),
                clockwise-IsDistinct writable home n inside n 0 rf (omega arith),
                length-clockwise writable home n inside n 0 rf pos
                    ∙ ap (min rf) (ring_count-all writable home n inside),
              )
      ]
]

-- The shards that a new object goes to are writable shards of the cluster, none twice, and as many as
-- the replication factor, or all that are writable where these are fewer. The factor is at least 1, and
-- the jump consistent hash stays below its number of buckets.
pub select_targets-IsDistinct :
    {S : Type 0} (crc : Bytes → ℕ) (jump_consistent_hash : ℕ → ℕ → ℕ)
    → ((key buckets : ℕ) → 0 < buckets → jump_consistent_hash key buckets < buckets)
    → (path : Bytes) (c : Cluster S) → 0 < c.replication_factor
    → let targets = select_targets crc jump_consistent_hash path c in
      ((x : ℕ)
        → contains x targets ≡ true
        → (writable_at c.shards x ≡ true) × (x < length c.shards))
      × IsDistinct targets
      × (length targets
          ≡ min c.replication_factor
              (length (writable_from (writable_at c.shards) (length c.shards) 0)))
unfolding select_targets
select_targets-IsDistinct crc jump law path c pos =
    targets_among-IsDistinct crc jump law (writable_at c.shards) (length c.shards)
      c.replication_factor path pos
