-- ===== src/Plugins/Deletions.antt =====
-- The datanodes that a scaling takes away.
use sahara.Base.{
  ℕ, ◌+◌, ◌≤◌, ◌≡◌, refl, sym, ◌∙◌, ◌⊎◌, inl, inr, true, not, Option, none, some, String, List, [],
  ◌∷◌, ok, Error, raise_if, raise_if-eq-ok, >>=-eq-ok, arith, All, ok-injective,
}
use sahara.Base.Dict.{Dict, lookup}
use sahara.Objects.{NodeGroup}
use sahara.Plugins.{get_instances_count, is_scalable, deleted, datanodes_to_delete}
use sahara.Plugins.Counts.{rescaled, rescale, part, count_cons, Movable}

-- The map of a scaling agrees with the requested counts, but for node groups with no instances.
abbrev pub Merges : Dict ℕ → Dict ℕ → List NodeGroup → Type 0
Merges m existing ngs = All (λ ng. (lookup ng.id m ≡ lookup ng.id existing) ⊎ (ng.count ≡ 0)) ngs

part-deleted :
    (m existing : Dict ℕ) (ng : NodeGroup) (n : ℕ)
    → lookup ng.id existing ≡ some n
    → (lookup ng.id m ≡ lookup ng.id existing) ⊎ (ng.count ≡ 0)
    → part "datanode" ng ≤ part "datanode" (rescaled m ng) + deleted ng n
part-deleted m existing ng n e (inr z) = ground arith
part-deleted m existing ng n e (inl same) = rw (same ∙ e, rescaled) (ground arith)

part_kept :
    (m existing : Dict ℕ) (ng : NodeGroup)
    → lookup ng.id existing ≡ none
    → (lookup ng.id m ≡ lookup ng.id existing) ⊎ (ng.count ≡ 0)
    → part "datanode" ng ≤ part "datanode" (rescaled m ng)
part_kept m existing ng e (inr z) = ground arith
part_kept m existing ng e (inl same) = rw (same ∙ e, rescaled) (ground arith)

deleted_cons :
    (scalable : List String) (existing : Dict ℕ) (ng : NodeGroup) (ngs : List NodeGroup) (n : ℕ)
    {d : ℕ}
    → lookup ng.id existing ≡ some n
    → datanodes_to_delete scalable existing (ng ∷ ngs) ≡ ok d
    → (rest : ℕ) × (is_scalable scalable ng ≡ true)
      × (datanodes_to_delete scalable existing ngs ≡ ok rest)
      × (d ≡ deleted ng n + rest)
unfolding datanodes_to_delete
deleted_cons scalable existing ng ngs n {d} e h =
    let (x, passed, h₁) =
      >>=-eq-ok (raise_if (not (is_scalable scalable ng)) Error.node_group_cannot_be_scaled) _
        (rw (e, datanodes_to_delete) at h) in
    let (rest, e₂, h₂) = >>=-eq-ok (datanodes_to_delete scalable existing ngs) _ h₁ in
    (
      rest,
      ground (
        arith,
        raise_if-eq-ok (not (is_scalable scalable ng)) Error.node_group_cannot_be_scaled passed,
      ),
      e₂,
      sym (ok-injective h₂),
    )

-- The bound and the groups that move, as one statement.
abbrev Enough : List String → Dict ℕ → Dict ℕ → List NodeGroup → ℕ → Type 0
Enough scalable m existing ngs d =
    (get_instances_count "datanode" ngs ≤ get_instances_count "datanode" (rescale m ngs) + d)
    × Movable scalable existing ngs

-- The scaling takes away at most the datanodes that the loop counts, and moves scalable groups only.
pub deleted-Enough :
    (scalable : List String) (m existing : Dict ℕ) (ngs : List NodeGroup) (d : ℕ)
    → Merges m existing ngs
    → datanodes_to_delete scalable existing ngs ≡ ok d
    → Enough scalable m existing ngs d
unfolding datanodes_to_delete
deleted-Enough scalable m existing [] d merges h = (omega arith, tt)
deleted-Enough scalable m existing (ng ∷ ngs) d (merge, merges) h =
    go (lookup ng.id existing) refl (λ r q. deleted-Enough scalable m existing ngs r merges q)
  where
    go :
        (o : Option ℕ)
        → lookup ng.id existing ≡ o
        → ((r : ℕ)
            → datanodes_to_delete scalable existing ngs ≡ ok r
            → Enough scalable m existing ngs r)
        → Enough scalable m existing (ng ∷ ngs) d
    go none e later =
        let (bound, movable) = later d (rw (e, datanodes_to_delete) at h) in
        (
          omega (
            arith,
            count_cons "datanode" ng ngs,
            count_cons "datanode" (rescaled m ng) (rescale m ngs),
            part_kept m existing ng e merge,
            bound,
          ),
          (λ there. absurd (cc (rw e at there)), movable),
        )
    go (some n) e later =
        let (rest, scales, e₂, split) = deleted_cons scalable existing ng ngs n e h in
        let (bound, movable) = later rest e₂ in
        (
          omega (
            arith,
            count_cons "datanode" ng ngs,
            count_cons "datanode" (rescaled m ng) (rescale m ngs),
            part-deleted m existing ng n e merge,
            bound,
            split,
          ),
          (λ there. scales, movable),
        )
