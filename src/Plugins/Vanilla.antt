-- ===== src/Plugins/Vanilla.antt =====
-- The checks of the plugin for Vanilla Hadoop 2 (sahara/plugins/vanilla/hadoop2/validation.py).
use sahara.Base.{
  ℕ, not, ◌&&◌, Option, none, some, String, List, [], ◌∷◌, ok, err, Error, Check, raise_if, ◌>>=◌,
  ◌>>◌, if◌then◌else◌, ltb, ◌==◌, is_some,
}
use sahara.Base.Dict.{Dict}
use sahara.Objects.{NodeGroup, Instance}
use sahara.Plugins.{
  get_instances_count, get_instance, get_by_id, runs, is_scalable, validate_existing_ng_scaling,
}

abbrev pub scalable_processes : List String
scalable_processes = "datanode" ∷ "nodemanager" ∷ []

-- The checks that an Oozie server asks for.
abbrev pub check_oozie : ℕ → ℕ → ℕ → ℕ → Check
check_oozie oo_count dn_count nm_count hs_count =
    if oo_count == 1
    then (do
      raise_if (ltb dn_count 1) Error.required_service_missing
      raise_if (ltb nm_count 1) Error.required_service_missing
      raise_if (not (hs_count == 1)) Error.required_service_missing)
    else ok tt

-- The checks of `validate_cluster_creating`, on the counts of the processes.
abbrev pub check_counts : (rep_factor nn snn rm hs nm oo dn hive : ℕ) → Check
check_counts rep_factor nn snn rm hs nm oo dn hive = do
  raise_if (not (nn == 1)) Error.invalid_component_count
  raise_if (ltb 1 snn) Error.invalid_component_count
  raise_if (ltb 1 rm) Error.invalid_component_count
  raise_if (ltb 1 hs) Error.invalid_component_count
  raise_if (rm == 0 && ltb 0 nm) Error.required_service_missing
  raise_if (ltb 1 oo) Error.invalid_component_count
  check_oozie oo dn nm hs
  raise_if (ltb dn rep_factor) Error.invalid_component_count
  raise_if (ltb 1 hive) Error.invalid_component_count

-- `rep_factor` is the config dfs.replication, with its default.
unfoldable pub validate_cluster_creating : ℕ → List NodeGroup → Check
unfolding get_instances_count
validate_cluster_creating rep_factor ngs =
    check_counts rep_factor (get_instances_count "namenode" ngs)
      (get_instances_count "secondarynamenode" ngs) (get_instances_count "resourcemanager" ngs)
      (get_instances_count "historyserver" ngs) (get_instances_count "nodemanager" ngs)
      (get_instances_count "oozie" ngs) (get_instances_count "datanode" ngs)
      (get_instances_count "hiveserver" ngs)

-- The checks of a node group that was added.
abbrev pub check_added : Option Instance → NodeGroup → Check
check_added rm ng = do
  raise_if (not (is_scalable scalable_processes ng)) Error.node_group_cannot_be_scaled
  raise_if (not (is_some rm) && runs "nodemanager" ng) Error.node_group_cannot_be_scaled

abbrev pub check_found : Option Instance → Option NodeGroup → Check
check_found rm none = err Error.attribute_error
check_found rm (some ng) = check_added rm ng

abbrev pub check_ids : Option Instance → List NodeGroup → Dict ℕ → Check
check_ids rm ngs [] = ok tt
check_ids rm ngs ((id, n) ∷ additional) =
    check_found rm (get_by_id id ngs) >> check_ids rm ngs additional

unfoldable pub validate_additional_ng_scaling : List NodeGroup → Dict ℕ → Check
unfolding get_instance get_by_id
validate_additional_ng_scaling ngs additional = do
  rm ← get_instance "resourcemanager" ngs
  check_ids rm ngs additional

-- `validate_vanilla_scaling` of the version handlers.
unfoldable pub validate_vanilla_scaling : ℕ → List NodeGroup → Dict ℕ → Dict ℕ → Check
unfolding validate_additional_ng_scaling
validate_vanilla_scaling rep_factor ngs existing additional = do
  validate_additional_ng_scaling ngs additional
  validate_existing_ng_scaling scalable_processes rep_factor ngs existing
