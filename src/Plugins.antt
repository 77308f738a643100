-- ===== src/Plugins.antt =====
-- What the plugins ask of a cluster (sahara/plugins/utils.py), and the checks that the plugins for
-- Spark and for Vanilla Hadoop 2 share for a scaling.
pub mod Vanilla
pub mod Spark
pub mod Storm
pub mod Counts
pub mod Deletions
pub mod Moves
pub mod Scaled
pub mod Survival
mod Tests
use sahara.Base.{
  ℕ, zero, suc, ◌+◌, ◌-◌, Bool, true, false, not, ◌&&◌, Option, none, some, String, List, [], ◌∷◌,
  ◌++◌, Result, ok, err, Error, Check, raise_if, ◌>>=◌, ◌>>◌, if◌then◌else◌, ltb, ◌==◌, str_eq, mem,
  keep, all, length,
}
use sahara.Base.Dict.{Dict, lookup, contains}
use sahara.Objects.{NodeGroup, Instance}

abbrev pub runs : String → NodeGroup → Bool
runs process ng = mem process ng.node_processes

-- `get_node_groups(cluster, node_process)`
abbrev pub get_node_groups : String → List NodeGroup → List NodeGroup
get_node_groups process ngs = keep (runs process) ngs

abbrev pub total : List NodeGroup → ℕ
total [] = 0
total (ng ∷ ngs) = ng.count + total ngs

unfoldable pub get_instances_count : String → List NodeGroup → ℕ
get_instances_count process ngs = total (get_node_groups process ngs)

abbrev pub chain : List NodeGroup → List Instance
chain [] = []
chain (ng ∷ ngs) = ng.instances ++ chain ngs

unfoldable pub get_instances : String → List NodeGroup → List Instance
get_instances process ngs = chain (get_node_groups process ngs)

abbrev pub the_instance : List Instance → Result (Option Instance)
the_instance [] = ok none
the_instance (i ∷ []) = ok (some i)
the_instance (i ∷ j ∷ is) = err Error.invalid_component_count

-- None without an instance, InvalidComponentCountException with several.
unfoldable pub get_instance : String → List NodeGroup → Result (Option Instance)
unfolding get_instances
get_instance process ngs = the_instance (get_instances process ngs)

-- `get_by_id(cluster.node_groups, id)` (sahara/utils/general.py)
unfoldable pub get_by_id : String → List NodeGroup → Option NodeGroup
get_by_id id [] = none
get_by_id id (ng ∷ ngs) = if str_eq ng.id id then some ng else get_by_id id ngs

-- `set(ng.node_processes).issubset(scalable)`
abbrev pub is_scalable : List String → NodeGroup → Bool
is_scalable scalable ng = all (λ p. mem p scalable) ng.node_processes

-- What one round of the loop over the node groups adds to `dn_to_delete`.
abbrev pub deleted : NodeGroup → ℕ → ℕ
deleted ng new_count =
    if ltb new_count ng.count && runs "datanode" ng then ng.count - new_count else 0

-- The loop of `validate_existing_ng_scaling`: the datanodes to delete.
unfoldable pub datanodes_to_delete : List String → Dict ℕ → List NodeGroup → Result ℕ
datanodes_to_delete scalable existing [] = ok 0
datanodes_to_delete scalable existing (ng ∷ ngs) = elim (lookup ng.id existing) [
  | none ↦ datanodes_to_delete scalable existing ngs
  | some new_count ↦ (do
    raise_if (not (is_scalable scalable ng)) Error.node_group_cannot_be_scaled
    rest ← datanodes_to_delete scalable existing ngs
    ok (deleted ng new_count + rest))
]

-- `dn_amount - dn_to_delete < rep_factor`, where the difference may be negative.
unfoldable pub validate_existing_ng_scaling : List String → ℕ → List NodeGroup → Dict ℕ → Check
unfolding datanodes_to_delete get_instances
validate_existing_ng_scaling scalable rep_factor ngs existing = do
  dn_to_delete ← datanodes_to_delete scalable existing ngs
  raise_if
      (ltb 0 dn_to_delete
        && ltb (length (get_instances "datanode" ngs)) (rep_factor + dn_to_delete))
      Error.cluster_cannot_be_scaled

abbrev pub check_scalable : List String → Option NodeGroup → Check
check_scalable scalable none = err Error.attribute_error
check_scalable scalable (some ng) =
    raise_if (not (is_scalable scalable ng)) Error.node_group_cannot_be_scaled

-- `_validate_additional_ng_scaling` of the plugins for Spark and for Storm.
unfoldable pub check_additional : List String → List NodeGroup → Dict ℕ → Check
check_additional scalable ngs [] = ok tt
check_additional scalable ngs ((id, n) ∷ additional) =
    check_scalable scalable (get_by_id id ngs) >> check_additional scalable ngs additional

-- `_validate_existing_ng_scaling` of the plugin for Storm.
unfoldable pub check_existing : List String → Dict ℕ → List NodeGroup → Check
check_existing scalable existing [] = ok tt
check_existing scalable existing (ng ∷ ngs) = do
  raise_if (contains ng.id existing && not (is_scalable scalable ng))
      Error.node_group_cannot_be_scaled
  check_existing scalable existing ngs
