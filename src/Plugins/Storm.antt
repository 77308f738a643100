-- ===== src/Plugins/Storm.antt =====
-- The checks of the plugin for Storm (sahara/plugins/storm/plugin.py).
use sahara.Base.{
  ℕ, ◌≤◌, ◌≡◌, refl, not, String, List, [], ◌∷◌, ok, Error, Check, raise_if, raise_if-eq-ok,
  raise_if-ok, >>-eq-ok, >>-ok, ◌>>◌, arith, ltb, ◌==◌,
}
use sahara.Base.Dict.{Dict, update}
use sahara.Objects.{NodeGroup}
use sahara.Plugins.{get_instances_count, check_additional, check_existing}
use sahara.Plugins.Counts.{rescale, count_unmoved}
use sahara.Plugins.Moves.{
  HasOwnIds, update-Movable, check_additional-Movable, check_existing-Movable,
}

abbrev pub storm_scalable : List String
storm_scalable = "supervisor" ∷ []

-- The checks of `validate`, on the counts of the processes.
abbrev pub check_storm : (nimbus supervisor : ℕ) → Check
check_storm nimbus supervisor = do
  raise_if (not (nimbus == 1)) Error.required_service_missing
  raise_if (ltb supervisor 1) Error.invalid_component_count

unfoldable pub validate_storm : List NodeGroup → Check
validate_storm ngs =
    check_storm (get_instances_count "nimbus" ngs) (get_instances_count "supervisor" ngs)

unfoldable pub validate_storm_scaling : List NodeGroup → Dict ℕ → Dict ℕ → Check
validate_storm_scaling ngs existing additional = do
  check_existing storm_scalable existing ngs
  check_additional storm_scalable ngs additional

-- A scaling of a valid cluster that the plugin accepts keeps the one nimbus, where ids are unique,
-- so that the cluster after it is valid exactly when a supervisor is left.
pub validate_storm_scaling-validate_storm :
    (ngs : List NodeGroup) (existing additional : Dict ℕ)
    → HasOwnIds ngs
    → validate_storm ngs ≡ ok tt
    → validate_storm_scaling ngs existing additional ≡ ok tt
    → (1 ≤ get_instances_count "supervisor" (rescale (update existing additional) ngs)
        → validate_storm (rescale (update existing additional) ngs) ≡ ok tt)
      × (validate_storm (rescale (update existing additional) ngs) ≡ ok tt
          → 1 ≤ get_instances_count "supervisor" (rescale (update existing additional) ngs))
unfolding validate_storm validate_storm_scaling
validate_storm_scaling-validate_storm ngs existing additional own valid h =
    let (h1, h2) = >>-eq-ok (check_existing storm_scalable existing ngs) _ h in
    let (one, some_left) =
      >>-eq-ok
        (raise_if (not (get_instances_count "nimbus" ngs == 1)) Error.required_service_missing) _
        valid in
    let same = count_unmoved storm_scalable (update existing additional) "nimbus" ngs refl (
      update-Movable storm_scalable existing additional ngs
        (check_additional-Movable storm_scalable ngs additional own h2)
        (check_existing-Movable storm_scalable existing ngs h1)) in
    (
      (λ left.
          >>-ok
            (raise_if-ok
              (not (get_instances_count "nimbus" (rescale (update existing additional) ngs) == 1)) _
              (ground (
                arith,
                same,
                raise_if-eq-ok (not (get_instances_count "nimbus" ngs == 1))
                    Error.required_service_missing one,
              )))
            (raise_if-ok
              (ltb (get_instances_count "supervisor" (rescale (update existing additional) ngs)) 1)
              _ (ground arith))),
      λ after.
          let (_, left) =
            >>-eq-ok
              (raise_if
                (not (get_instances_count "nimbus" (rescale (update existing additional) ngs) == 1))
                Error.required_service_missing)
              _ after in
          ground (
            arith,
            raise_if-eq-ok
                (ltb (get_instances_count "supervisor" (rescale (update existing additional) ngs))
                  1)
                Error.invalid_component_count left,
          ),
    )
