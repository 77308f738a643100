-- ===== src/Validation/Scaling.antt =====
-- The check of a scaling (sahara/service/validations/clusters_scaling.py, and check_resize and
-- check_add_node_groups of validations/base.py).
use text.Mathlib.Text.{starts_with}
use sahara.Base.{
  Bool, true, not, ◌&&◌, Option, none, some, String, List, map, ok, err, Error, Check, raise_if,
  ◌>>=◌, ◌>>◌, mem, str_eq, any,
}
use sahara.Base.Dict.{Dict}
use sahara.Objects.{Cluster, NodeGroup, truthy, is_active}
use sahara.Validation.{Services, NodeGroupData, if_any, check_each, the_plugin, get_plugin_configs}
use sahara.Validation.Nodes.{
  check_duplicates_node_groups_names, check_group, check_network_config,
  check_cluster_hostnames_lengths,
}
use sahara.Validation.Acl.{check_tenant_for_update, check_protected_from_update}

-- The names of the resized node groups, the node groups to add, and the request itself.
pub record ScalingData (V : Type 0) : Type 0 where
  pub resize_node_groups : List NodeGroupData
  pub add_node_groups : List NodeGroupData
  pub request : Dict V

abbrev pub group_names : Cluster → List String
group_names c = map (λ (ng : NodeGroup). ng.name) c.node_groups

-- `cluster.has_proxy_gateway()`
abbrev pub has_proxy_gateway : Cluster → Bool
has_proxy_gateway c = any (λ (ng : NodeGroup). ng.is_proxy_gateway) c.node_groups

abbrev pub is_known : Cluster → NodeGroupData → Check
is_known c ng = raise_if (not (mem ng.name (group_names c))) Error.invalid_reference

abbrev pub is_new : Cluster → NodeGroupData → Check
is_new c ng = raise_if (mem ng.name (group_names c)) Error.invalid_reference

unfoldable pub check_resize : Cluster → List NodeGroupData → Check
check_resize c groups = check_duplicates_node_groups_names groups >> check_each (is_known c) groups

module _ (s : Services) where
  abbrev pub check_added : Cluster → Option (Dict (List String)) → NodeGroupData → Check
  check_added c confs ng = is_new c ng >> check_group s c.plugin_name c.hadoop_version confs ng

  unfoldable pub check_add_node_groups : Cluster → List NodeGroupData → Check
  check_add_node_groups c groups = do
    check_duplicates_node_groups_names groups
    confs ← get_plugin_configs s c.plugin_name c.hadoop_version
    check_each (check_added c (some confs)) groups

  -- `cluster.sahara_info.get(...) if cluster.sahara_info else None`
  abbrev pub engine_of : Cluster → Option String
  engine_of c = elim c.sahara_info [ none ↦ none | some e ↦ e ]

  abbrev pub is_other : Option String → String → Bool
  is_other none new = true
  is_other (some old) new = not (str_eq old new)

  -- A cluster with no `sahara_info` is older than the field.
  abbrev pub check_engine : Cluster → String → Check
  check_engine c new = do
    raise_if (not (truthy (engine_of c)) && not (starts_with new "direct")) Error.invalid_reference
    elim c.sahara_info [
      | none ↦ ok tt
      | some old ↦ raise_if (is_other old new) Error.invalid_reference
    ]

  abbrev pub supports_scaling : Cluster → Check
  supports_scaling c = do
    plugin ← the_plugin s c.plugin_name
    raise_if (not (plugin.implements "scale_cluster" && plugin.implements "decommission_nodes"))
        Error.invalid_reference

  abbrev pub check_added_groups : Cluster → List NodeGroupData → Check
  check_added_groups c groups = do
    check_add_node_groups c groups
    check_network_config s groups (has_proxy_gateway c)
    check_cluster_hostnames_lengths s c.name groups

  module _ {V : Type 0} (same : V → V → Bool) (holds : V → Bool) where
    abbrev pub check_found : String → String → Dict V → Cluster → ScalingData V → Check
    check_found tenant_id engine obj c d = do
      check_tenant_for_update tenant_id c.tenant_id
      check_protected_from_update same holds c.is_protected obj d.request
      check_engine c engine
      supports_scaling c
      raise_if (not (is_active c.status)) Error.invalid_reference
      if_any d.resize_node_groups (check_resize c d.resize_node_groups)
      if_any d.add_node_groups (check_added_groups c d.add_node_groups)

    -- `engine` is the type and version of the engine that runs, `obj` the cluster's dict.
    unfoldable pub check_cluster_scaling :
        String → String → Dict V → Option Cluster → ScalingData V → Check
    check_cluster_scaling tenant_id engine obj none d = err Error.not_found
    check_cluster_scaling tenant_id engine obj (some c) d = check_found tenant_id engine obj c d
