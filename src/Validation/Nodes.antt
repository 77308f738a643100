-- ===== src/Validation/Nodes.antt =====
-- The checks of node groups (sahara/service/validations/base.py).
use Prim.Native.String.{count}
use sahara.Base.{
  ℕ, ◌+◌, Bool, true, false, not, ◌&&◌, Option, none, some, String, List, map, Result, ok, err,
  Error, Check, raise_if, ◌>>=◌, ◌>>◌, if◌then◌else◌, ◌==◌, ltb, any,
}
use sahara.Base.Dict.{Dict}
use sahara.Objects.{truthy}
use sahara.Validation.{
  Services, Fields, NodeGroupData, if_set, if_any, check_each, check_duplicates, get_plugin_configs,
  check_node_group_configs, check_flavor_exists, check_node_processes, check_image_registered,
  check_volume_availability_zone_exist, check_volume_type_exists, check_floatingip_pool_exists,
  check_security_groups_exist, check_availability_zone_exist, instance_name_length,
  max_hostname_length,
}

unfoldable pub check_duplicates_node_groups_names : List NodeGroupData → Check
check_duplicates_node_groups_names node_groups =
    check_duplicates (map (λ (ng : NodeGroupData). ng.name) node_groups)

module _ (s : Services) where
  abbrev pub check_volumes : Fields → Check
  check_volumes f = if f.volumes_per_node == 0 then ok tt else (do
    raise_if (not s.cinder_exists) Error.invalid_reference
    if_set f.volumes_availability_zone (check_volume_availability_zone_exist s)
    if_set f.volume_type (check_volume_type_exists s)
    raise_if (f.volumes_size == 0) Error.invalid_reference)

  -- The fields of the node group itself, or of a template.
  unfoldable pub check_fields : String → String → Fields → Option (Dict (List String)) → Check
  check_fields name version f plugin_configs = do
    if_any f.node_configs (check_node_group_configs s name version f.node_configs plugin_configs)
    if_set f.flavor_id (check_flavor_exists s)
    if_any f.node_processes (check_node_processes s name version f.node_processes)
    if_set f.image_id (check_image_registered s)
    check_volumes f
    if_set f.floating_ip_pool (check_floatingip_pool_exists s)
    if_any f.security_groups (check_security_groups_exist s f.security_groups)
    if_set f.availability_zone (check_availability_zone_exist s)

  abbrev pub check_template : String → String → Option (Dict (List String)) → String → Check
  check_template name version plugin_configs id = elim (s.node_group_template id) [
    | none ↦ err Error.not_found
    | some f ↦ check_fields name version f plugin_configs
  ]

  -- A template is checked first, by the same function; a template has no template of its own.
  unfoldable pub check_node_group_basic_fields :
      String → String → NodeGroupData → Option (Dict (List String)) → Check
  unfolding check_fields
  check_node_group_basic_fields name version ng plugin_configs = do
    if_set ng.node_group_template_id (check_template name version plugin_configs)
    check_fields name version ng.fields plugin_configs

  abbrev pub check_group : String → String → Option (Dict (List String)) → NodeGroupData → Check
  check_group name version confs ng = check_node_group_basic_fields name version ng confs

  unfoldable pub check_all_configurations :
      String → String → Dict (List String) → List NodeGroupData → Check
  check_all_configurations name version cluster_configs node_groups = do
    confs ← get_plugin_configs s name version
    if_any cluster_configs (check_node_group_configs s name version cluster_configs (some confs))
    if_any node_groups (do
      check_duplicates_node_groups_names node_groups
      check_each (check_group name version (some confs)) node_groups)

  -- `_get_floating_ip_pool`, as a test. A template that is missing is an AttributeError.
  abbrev pub template_has_pool : Option String → Result Bool
  template_has_pool none = ok false
  template_has_pool (some id) =
      if truthy (some id)
      then elim (s.node_group_template id) [
        | none ↦ err Error.attribute_error
        | some f ↦ ok (truthy f.floating_ip_pool)
      ]
      else ok false

  unfoldable pub has_floating_ip_pool : NodeGroupData → Result Bool
  has_floating_ip_pool ng =
      if truthy ng.fields.floating_ip_pool
      then ok true
      else template_has_pool ng.node_group_template_id

  abbrev pub check_pool : Bool → NodeGroupData → Check
  check_pool proxy_gateway_used ng =
      if (if proxy_gateway_used then ng.is_proxy_gateway else true)
      then (do
        has_pool ← has_floating_ip_pool ng
        raise_if (not has_pool) Error.missing_floating_network)
      else ok tt

  unfoldable pub check_network_config : List NodeGroupData → Bool → Check
  check_network_config node_groups proxy_gateway_used =
      if s.use_floating_ips && s.use_neutron
      then check_each (check_pool proxy_gateway_used) node_groups
      else ok tt

  -- `len(longest_hostname)`
  abbrev pub hostname_length : String → NodeGroupData → ℕ
  hostname_length cluster_name ng =
      instance_name_length cluster_name ng.name ng.count + 1 + count s.node_domain

  abbrev pub check_hostname : String → NodeGroupData → Check
  check_hostname cluster_name ng =
      raise_if (ltb max_hostname_length (hostname_length cluster_name ng)) Error.invalid_data

  unfoldable pub check_cluster_hostnames_lengths : String → List NodeGroupData → Check
  check_cluster_hostnames_lengths cluster_name node_groups =
      check_each (check_hostname cluster_name) node_groups

-- `len([...]) > 0`
abbrev pub uses_proxy_gateway : List NodeGroupData → Bool
uses_proxy_gateway node_groups = any (λ (ng : NodeGroupData). ng.is_proxy_gateway) node_groups
