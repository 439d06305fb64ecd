-- ===== src/Cluster/Fanout/Quorum.antt =====
-- A write that succeeds has its quorum, `write_to_shards_inner` of shardedobjstr/src/lib.rs.
use mathlib.Core.Path.{subst}
use objstr.Base.{
  ℕ, ◌≤◌, ◌<◌, ◌≡◌, ◌∙◌, inl, inr, Bool, true, not, ◌&&◌, List, ◌++◌, ltb, length, arith,
  Bool-cases,
}
use objstr.RawError.{Bytes}
use objstr.Catalog.{contains, is_empty}
use objstr.Cluster.{Cluster, offline}
use objstr.Cluster.Targets.{IsDistinct, select_targets}
use objstr.Cluster.Targets.Ring.{select_targets-IsDistinct}
use objstr.Cluster.Fanout.{
  fan_out, mark_write_failures, enforce, after_retry, after_first, write_to_shards_inner,
  WriteResult, placed_on, set_all_health, degrade, untried,
}
use objstr.Cluster.Fanout.Placed.{
  IsFanout, fan_out-IsFanout, HoldsAt, Keeps-HoldsAt, set_all_health-Keeps, degrade-Keeps,
  untried-IsDistinct,
}

module _ {S : Type 0} (crc : Bytes → ℕ) (jump_consistent_hash : ℕ → ℕ → ℕ)
    (put : Bytes → Bytes → S → Bool × S) (delete : Bytes → S → Bool × S) (key payload : Bytes)
    (Holds : S → Type 0)
    (accepts : (s : S) → (put key payload s).0 ≡ true → Holds (put key payload s).1)
    (min_required : ℕ) (cleanup_on_fail : Bool) (c : Cluster S) where
  -- What a success means.
  abbrev pub HasQuorum : WriteResult × Cluster S → Type 0
  HasQuorum t =
      (placed : List ℕ)
      → t.0 ≡ placed_on placed
      → IsDistinct placed
        × (min_required ≤ length placed)
        × ((x : ℕ)
            → contains x placed ≡ true
            → HoldsAt crc jump_consistent_hash put delete key payload Holds accepts t.1 x)
        × (t.1.catalog ≡ c.catalog)

  enforce-HasQuorum :
      (placed failed : List ℕ) (d : Cluster S)
      → IsDistinct placed
      → ((x : ℕ)
          → contains x placed ≡ true
          → HoldsAt crc jump_consistent_hash put delete key payload Holds accepts d x)
      → d.catalog ≡ c.catalog
      → HasQuorum (
          enforce crc jump_consistent_hash put delete key min_required cleanup_on_fail placed failed
            d)
  unfolding enforce
  enforce-HasQuorum placed failed d distinct held same_catalog result h =
      elim (Bool-cases (ltb (length placed) min_required)) [
        | inl e ↦ let f = rw e at h in cc
        | inr e ↦
            let f : placed_on placed ≡ placed_on result = rw e at h in
            let g : placed ≡ result = cc in
            rw e (
              subst
                (λ l.
                  IsDistinct l
                  × (min_required ≤ length l)
                  × ((x : ℕ)
                      → contains x l ≡ true
                      → HoldsAt crc jump_consistent_hash put delete key payload Holds accepts d x)
                  × (d.catalog ≡ c.catalog))
                g (distinct, ground arith, held, same_catalog))
      ]

  abbrev fan : List ℕ → Cluster S → (List ℕ × List ℕ) × Cluster S
  fan = fan_out crc jump_consistent_hash put delete key payload

  abbrev Fanned : List ℕ → Cluster S → (List ℕ × List ℕ) × Cluster S → Type 0
  Fanned = IsFanout crc jump_consistent_hash put delete key payload Holds accepts

  after_retry-HasQuorum :
      (failed retry : List ℕ) (d : Cluster S) (t : (List ℕ × List ℕ) × Cluster S)
      → Fanned retry d t
      → d.catalog ≡ c.catalog
      → HasQuorum (
          after_retry crc jump_consistent_hash put delete key min_required cleanup_on_fail failed t)
  unfolding after_retry
  after_retry-HasQuorum failed retry d ((placed, again), e) x same_catalog result h =
      elim (Bool-cases (is_empty placed)) [
        | inl f ↦ let g = rw f at h in cc
        | inr f ↦ rw f (
            enforce-HasQuorum placed (failed ++ again) e x.distinct x.held
              (x.catalog ∙ same_catalog) result (rw f at h))
      ]

  module _ (now : ℕ)
      (law : (key buckets : ℕ) → 0 < buckets → jump_consistent_hash key buckets < buckets)
      (factor : 0 < c.replication_factor) where
    after_first-HasQuorum :
        (targets : List ℕ) (t : (List ℕ × List ℕ) × Cluster S)
        → Fanned targets c t
        → HasQuorum (
            after_first crc jump_consistent_hash put delete now key payload targets min_required
              cleanup_on_fail t)
    unfolding after_first mark_write_failures
    after_first-HasQuorum targets ((placed, failed), d) x =
        elim (Bool-cases (is_empty placed && not (is_empty failed))) [
          | inl f ↦
              let marked = set_all_health now offline failed d in
              let kept = set_all_health-Keeps now offline failed d in
              let factor_kept : marked.replication_factor ≡ c.replication_factor =
                kept.factor ∙ x.factor in
              let positive : 0 < marked.replication_factor = omega (arith, factor_kept) in
              let chosen = select_targets crc jump_consistent_hash key marked in
              let (_, distinct, _) =
                select_targets-IsDistinct crc jump_consistent_hash law key marked positive in
              let retry = untried targets chosen in
              rw f (
                after_retry-HasQuorum failed retry marked (fan retry marked)
                  (fan_out-IsFanout crc jump_consistent_hash put delete key payload Holds accepts
                    retry marked (untried-IsDistinct targets chosen distinct))
                  (kept.catalog ∙ x.catalog))
          | inr f ↦
              let marked = degrade now failed d in
              let kept = degrade-Keeps now failed d in
              rw f (
                enforce-HasQuorum placed failed marked x.distinct
                  (λ y h.
                    Keeps-HoldsAt crc jump_consistent_hash put delete key payload Holds accepts d
                      marked kept y (x.held y h))
                  (kept.catalog ∙ x.catalog))
        ]

    -- A write to distinct targets that succeeds was placed on `min_required` shards at least, none
    -- counted twice, the store of each of them holds the payload afterwards, whether it was written at
    -- first or in the retry, and the catalog is untouched. `Holds` is what the store promises of a put
    -- that it accepts, the replication factor is at least 1, and the jump consistent hash stays below
    -- its number of buckets.
    pub write_to_shards_inner-HasQuorum :
        (targets placed : List ℕ)
        → IsDistinct targets
        → (write_to_shards_inner crc jump_consistent_hash put delete now key payload targets
            min_required cleanup_on_fail c).0
          ≡ placed_on placed
        → IsDistinct placed
          × (min_required ≤ length placed)
          × ((x : ℕ)
              → contains x placed ≡ true
              → HoldsAt crc jump_consistent_hash put delete key payload Holds accepts
                  (write_to_shards_inner crc jump_consistent_hash put delete now key payload targets
                    min_required cleanup_on_fail c).1
                  x)
          × ((write_to_shards_inner crc jump_consistent_hash put delete now key payload targets
                min_required cleanup_on_fail c).1.catalog
              ≡ c.catalog)
    unfolding write_to_shards_inner
    write_to_shards_inner-HasQuorum targets placed d h =
        after_first-HasQuorum targets (fan targets c)
          (fan_out-IsFanout crc jump_consistent_hash put delete key payload Holds accepts targets c
            d)
          placed h
