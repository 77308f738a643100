-- ===== src/Plugins/Scaled.antt =====
-- A cluster of the Vanilla plugin after a scaling that its checks let pass.
use mathlib.Core.Path.{subst}
use sahara.Base.{
  ℕ, ◌+◌, ◌≤◌, ◌<◌, ◌≡◌, sym, ap, ◌∙◌, inl, inr, true, false, not, ◌&&◌, Option, some, String, List,
  [], ◌∷◌, ok, Error, raise_if, raise_if-eq-ok, >>-eq-ok, >>-ok, raise_if-ok, arith, Bool-cases,
  All, length, ltb, ◌==◌, str_eq, eq_iff, is_some,
}
use sahara.Base.Dict.{Dict, update, contains}
use sahara.Objects.{NodeGroup, Instance}
use sahara.Ops.Surplus.{IsFull}
use sahara.Plugins.{runs, get_instances_count, get_instances, get_by_id, is_scalable}
use sahara.Plugins.Moves.{HasOwnIds, All-map, unmerged}
use sahara.Plugins.Counts.{rescale, length-get_instances}
use sahara.Plugins.Vanilla.{
  scalable_processes, check_oozie, check_counts, check_added, check_found, check_ids,
}

pub oozie_passed :
    (oo dn nm hs : ℕ) → check_oozie oo dn nm hs ≡ ok tt → oo ≡ 1 → (1 ≤ dn) × (1 ≤ nm) × (hs ≡ 1)
oozie_passed oo dn nm hs h e = ground arith

pub oozie_passes :
    (oo dn nm hs : ℕ) → (oo ≡ 1 → (1 ≤ dn) × (1 ≤ nm) × (hs ≡ 1)) → check_oozie oo dn nm hs ≡ ok tt
oozie_passes oo dn nm hs h = ground arith

pub check_counts-passed :
    (rep nn snn rm hs nm oo dn hive : ℕ)
    → check_counts rep nn snn rm hs nm oo dn hive ≡ ok tt
    → (nn ≡ 1)
      × (snn ≤ 1)
      × (rm ≤ 1)
      × (hs ≤ 1)
      × (rm ≡ 0 → nm ≡ 0)
      × (oo ≤ 1)
      × (check_oozie oo dn nm hs ≡ ok tt)
      × (rep ≤ dn)
      × (hive ≤ 1)
check_counts-passed rep nn snn rm hs nm oo dn hive h =
    let (h1, r1) = >>-eq-ok (raise_if (not (nn == 1)) Error.invalid_component_count) _ h in
    let (h2, r2) = >>-eq-ok (raise_if (ltb 1 snn) Error.invalid_component_count) _ r1 in
    let (h3, r3) = >>-eq-ok (raise_if (ltb 1 rm) Error.invalid_component_count) _ r2 in
    let (h4, r4) = >>-eq-ok (raise_if (ltb 1 hs) Error.invalid_component_count) _ r3 in
    let (h5, r5) = >>-eq-ok (raise_if (rm == 0 && ltb 0 nm) Error.required_service_missing) _ r4 in
    let (h6, r6) = >>-eq-ok (raise_if (ltb 1 oo) Error.invalid_component_count) _ r5 in
    let (h7, r7) = >>-eq-ok (check_oozie oo dn nm hs) _ r6 in
    let (h8, h9) = >>-eq-ok (raise_if (ltb dn rep) Error.invalid_component_count) _ r7 in
    (
      ground (arith, raise_if-eq-ok (not (nn == 1)) Error.invalid_component_count h1),
      ground (arith, raise_if-eq-ok (ltb 1 snn) Error.invalid_component_count h2),
      ground (arith, raise_if-eq-ok (ltb 1 rm) Error.invalid_component_count h3),
      ground (arith, raise_if-eq-ok (ltb 1 hs) Error.invalid_component_count h4),
      ground (arith, raise_if-eq-ok (rm == 0 && ltb 0 nm) Error.required_service_missing h5),
      ground (arith, raise_if-eq-ok (ltb 1 oo) Error.invalid_component_count h6),
      h7,
      ground (arith, raise_if-eq-ok (ltb dn rep) Error.invalid_component_count h8),
      ground (arith, raise_if-eq-ok (ltb 1 hive) Error.invalid_component_count h9),
    )

pub check_counts-passes :
    (rep nn snn rm hs nm oo dn hive : ℕ)
    → nn ≡ 1
    → snn ≤ 1
    → rm ≤ 1
    → hs ≤ 1
    → (rm ≡ 0 → nm ≡ 0)
    → oo ≤ 1
    → check_oozie oo dn nm hs ≡ ok tt
    → rep ≤ dn
    → hive ≤ 1
    → check_counts rep nn snn rm hs nm oo dn hive ≡ ok tt
check_counts-passes rep nn snn rm hs nm oo dn hive h1 h2 h3 h4 h5 h6 h7 h8 h9 =
    >>-ok (raise_if-ok (not (nn == 1)) _ (ground arith)) (
      >>-ok (raise_if-ok (ltb 1 snn) _ (ground arith)) (
        >>-ok (raise_if-ok (ltb 1 rm) _ (ground arith)) (
          >>-ok (raise_if-ok (ltb 1 hs) _ (ground arith)) (
            >>-ok (raise_if-ok (rm == 0 && ltb 0 nm) _ (ground arith)) (
              >>-ok (raise_if-ok (ltb 1 oo) _ (ground arith)) (
                >>-ok h7 (
                  >>-ok (raise_if-ok (ltb dn rep) _ (ground arith))
                    (raise_if-ok (ltb 1 hive) _ (ground arith)))))))))

-- The check of an id that was added.
check_ids-at :
    (rm : Option Instance) (ngs : List NodeGroup) (additional : Dict ℕ) (id : String)
    → check_ids rm ngs additional ≡ ok tt
    → contains id additional ≡ true
    → check_found rm (get_by_id id ngs) ≡ ok tt
check_ids-at rm ngs [] id h there = absurd (cc there)
check_ids-at rm ngs ((j, n) ∷ additional) id h there =
    let (first, rest) = >>-eq-ok (check_found rm (get_by_id j ngs)) _ h in
    elim (Bool-cases (str_eq j id)) [
      | inl same ↦
          subst (λ k. check_found rm (get_by_id k ngs) ≡ ok tt) ((eq_iff j id).0 same) first
      | inr other ↦ check_ids-at rm ngs additional id rest (rw other at there)
    ]

module _ (rep_factor : ℕ) (ngs : List NodeGroup) (existing additional : Dict ℕ) where
  abbrev pub scaled : List NodeGroup
  scaled = rescale (update existing additional) ngs

  -- What a scaling starts from: the instances of the counts are there, ids are unique, node groups
  -- that were added have no instances, those that are resized have some, and there is a replica.
  pub record Ready : Type 0 where
    pub full : IsFull ngs
    pub ids : HasOwnIds ngs
    pub fresh : All (λ ng. contains ng.id additional ≡ true → ng.count ≡ 0) ngs
    pub used : All (λ ng. contains ng.id existing ≡ true → 0 < ng.count) ngs
    pub replicated : 1 ≤ rep_factor

  -- What an added node group was checked for.
  abbrev pub Added : Option Instance → NodeGroup → Type 0
  Added rm ng =
      contains ng.id additional ≡ true
      → (is_scalable scalable_processes ng ≡ true)
        × (is_some rm ≡ false → runs "nodemanager" ng ≡ false)

  added_passed :
      (rm : Option Instance) (ng : NodeGroup)
      → check_added rm ng ≡ ok tt
      → (is_scalable scalable_processes ng ≡ true)
        × (is_some rm ≡ false → runs "nodemanager" ng ≡ false)
  added_passed rm ng h =
      let (h1, h2) =
        >>-eq-ok
          (raise_if (not (is_scalable scalable_processes ng)) Error.node_group_cannot_be_scaled) _
          h in
      (
        ground (
          arith,
          raise_if-eq-ok (not (is_scalable scalable_processes ng)) Error.node_group_cannot_be_scaled
              h1,
        ),
        λ no_rm. ground (
          arith,
          raise_if-eq-ok (not (is_some rm) && runs "nodemanager" ng)
              Error.node_group_cannot_be_scaled h2,
        ),
      )

  pub All-Added :
      (rm : Option Instance) (gs : List NodeGroup)
      → check_ids rm ngs additional ≡ ok tt
      → All (λ ng. get_by_id ng.id ngs ≡ some ng) gs
      → All (Added rm) gs
  All-Added rm gs h own =
      All-map (λ ng. get_by_id ng.id ngs ≡ some ng) (Added rm) gs
        (λ ng e there.
          added_passed rm ng
            (rw (e, check_found) at (check_ids-at rm ngs additional ng.id h there)))
        own

  -- Without a resource manager only node groups that have node managers already get more of them.
  pub All-managed :
      (rm : Option Instance) (gs : List NodeGroup)
      → is_some rm ≡ false
      → All (Added rm) gs
      → All (λ ng. contains ng.id existing ≡ true → 0 < ng.count) gs
      → All
          (λ ng.
            contains ng.id (update existing additional) ≡ true
            → runs "nodemanager" ng ≡ true
            → 0 < ng.count)
          gs
  All-managed rm [] no_rm added used = tt
  All-managed rm (ng ∷ gs) no_rm (h, hs) (k, ks) = (
    (λ there runs_it. elim (Bool-cases (contains ng.id additional)) [
      | inl new ↦ absurd (cc ((h new).1 no_rm, runs_it))
      | inr out ↦ k (ap is_some (sym (unmerged ng.id existing additional out)) ∙ there)
    ]),
    All-managed rm gs no_rm hs ks,
  )

  -- The datanodes that are left are enough for the replicas.
  pub replicas_left :
      (d : ℕ)
      → IsFull ngs
      → get_instances_count "datanode" ngs ≤ get_instances_count "datanode" scaled + d
      → rep_factor ≤ get_instances_count "datanode" ngs
      → raise_if
          (ltb 0 d && ltb (length (get_instances "datanode" ngs)) (rep_factor + d))
          Error.cluster_cannot_be_scaled
        ≡ ok tt
      → rep_factor ≤ get_instances_count "datanode" scaled
  replicas_left d full bound before h = ground (
    arith,
    length-get_instances "datanode" ngs full,
    raise_if-eq-ok (ltb 0 d && ltb (length (get_instances "datanode" ngs)) (rep_factor + d))
        Error.cluster_cannot_be_scaled h,
  )
