-- ===== src/Validation/Creation.antt =====
-- The check of a new cluster (sahara/service/validations/clusters.py).
use sahara.Base.{
  not, Option, none, some, String, List, Result, ok, err, Error, Check, raise_if, ◌>>=◌, ◌>>◌,
  if◌then◌else◌, mem, is_empty, is_some, all,
}
use sahara.Base.Dict.{Dict}
use sahara.Objects.{truthy}
use sahara.Validation.{
  Services, NodeGroupData, ClusterTemplate, if_set, if_any, check_each, the_plugin,
  check_plugin_name_exists, check_plugin_supports_version, check_image_registered,
  check_node_processes,
}
use sahara.Validation.Nodes.{
  check_all_configurations, check_network_config, check_cluster_hostnames_lengths,
  uses_proxy_gateway, check_group,
}

pub record ClusterData : Type 0 where
  pub name : String
  pub plugin_name : String
  pub hadoop_version : String
  pub cluster_template_id : Option String
  pub user_keypair_id : Option String
  pub default_image_id : Option String
  pub cluster_configs : Dict (List String)
  pub node_groups : List NodeGroupData
  pub anti_affinity : List String
  pub neutron_management_network : Option String

module _ (s : Services) where
  unfoldable pub check_cluster_unique_name : String → Check
  check_cluster_unique_name name = raise_if (mem name s.cluster_names) Error.name_already_exists

  unfoldable pub check_keypair_exists : String → Check
  check_keypair_exists keypair = raise_if (not (s.keypair_exists keypair)) Error.not_found

  unfoldable pub check_network_exists : String → Check
  check_network_exists id = raise_if (not (s.network_exists id)) Error.not_found

  unfoldable pub check_cluster_template_exists : String → Check
  check_cluster_template_exists id =
      raise_if (not (is_some (s.cluster_template id))) Error.not_found

  unfoldable pub check_required_image_tags : String → String → String → Check
  check_required_image_tags name version image_id = do
    tags ← s.image_tags image_id
    plugin ← the_plugin s name
    raise_if (not (all (λ t. mem t tags) (plugin.required_image_tags version)))
        Error.invalid_reference

  abbrev pub the_template : String → Result ClusterTemplate
  the_template id = elim (s.cluster_template id) [
    | none ↦ err Error.attribute_error
    | some t ↦ ok t
  ]

  unfoldable pub check_node_groups_in_cluster_templates : String → String → String → String → Check
  check_node_groups_in_cluster_templates cluster_name name version id = do
    template ← the_template id
    check_network_config s template.node_groups (uses_proxy_gateway template.node_groups)
    check_each (check_group s name version none) template.node_groups
    check_cluster_hostnames_lengths s cluster_name template.node_groups

  -- `_get_cluster_field`, for the field that `own` is and that `of` reads from the template.
  abbrev pub get_cluster_field :
      ClusterData → Option String → (ClusterTemplate → Option String) → Result (Option String)
  get_cluster_field d own of = if truthy own then ok own else elim d.cluster_template_id [
    | none ↦ ok none
    | some id ↦
        if truthy (some id)
        then (do
          template ← the_template id
          ok (if truthy (of template) then of template else none))
        else ok none
  ]

  abbrev pub check_template : ClusterData → String → Check
  check_template d id = do
    check_cluster_template_exists id
    (if is_empty d.node_groups
        then check_node_groups_in_cluster_templates d.name d.plugin_name d.hadoop_version id
        else ok tt)

  abbrev pub check_image : ClusterData → Option String → Check
  check_image d none = err Error.not_found
  check_image d (some id) =
      if truthy (some id)
      then (do
        check_image_registered s id
        check_required_image_tags d.plugin_name d.hadoop_version id)
      else err Error.not_found

  abbrev pub check_groups : ClusterData → Check
  check_groups d = do
    check_network_config s d.node_groups (uses_proxy_gateway d.node_groups)
    check_cluster_hostnames_lengths s d.name d.node_groups

  abbrev pub check_network : Option String → Check
  check_network none = raise_if s.use_neutron Error.not_found
  check_network (some id) =
      if truthy (some id)
      then (do raise_if (not s.use_neutron) Error.invalid_reference; check_network_exists id)
      else raise_if s.use_neutron Error.not_found

  -- `_check_cluster_create`
  unfoldable pub check_cluster_data : ClusterData → Check
  check_cluster_data d = do
    check_plugin_name_exists s d.plugin_name
    check_plugin_supports_version s d.plugin_name d.hadoop_version
    if_set d.cluster_template_id (check_template d)
    if_set d.user_keypair_id check_keypair_exists
    image ← get_cluster_field d d.default_image_id (λ t. t.default_image_id)
    check_image d image
    check_all_configurations s d.plugin_name d.hadoop_version d.cluster_configs d.node_groups
    if_any d.anti_affinity (check_node_processes s d.plugin_name d.hadoop_version d.anti_affinity)
    if_any d.node_groups (check_groups d)
    network ← get_cluster_field d d.neutron_management_network (λ t. t.neutron_management_network)
    check_network network

  unfoldable pub check_cluster_create : ClusterData → Check
  unfolding check_cluster_data
  check_cluster_create d = do check_cluster_unique_name d.name; check_cluster_data d
