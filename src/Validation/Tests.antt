-- ===== src/Validation/Tests.antt =====
-- A small installation, a request for a cluster and one for a scaling, and the theorems at them.
use sahara.Base.{
  ◌≡◌, refl, ◌↔◌, ◌⊎◌, Bool, true, false, not, none, some, [], ◌∷◌, map, ok, err, Error, mem,
  distinct, All, str_eq, if◌then◌else◌,
}
use sahara.Base.Dict.{Dict, contains}
use sahara.Objects.{Cluster}
use sahara.Status.Tests.{cluster}
use sahara.Validation.{
  Services, PluginInfo, NodeGroupData, get_plugin_configs, check_plugin_name_exists,
  check_plugin_supports_version, check_image_registered, check_node_group_configs,
  check_flavor_exists, check_security_groups_exist, check_floatingip_pool_exists,
  check_node_processes, check_availability_zone_exist, check_volume_availability_zone_exist,
  check_volume_type_exists, instance_name_length,
}
use sahara.Validation.Nodes.{
  check_duplicates_node_groups_names, check_fields, check_node_group_basic_fields,
  check_all_configurations, has_floating_ip_pool, check_network_config,
  check_cluster_hostnames_lengths,
}
use sahara.Validation.Creation.{
  ClusterData, check_cluster_unique_name, check_keypair_exists, check_network_exists,
  check_required_image_tags, check_cluster_data, check_cluster_create,
}
use sahara.Validation.Scaling.{
  ScalingData, check_resize, check_add_node_groups, check_cluster_scaling,
}
use sahara.Validation.Scalable.{ScalingValid, check_cluster_scaling-ScalingValid}
use sahara.Validation.Known.{Given}
use sahara.Validation.FieldsValid.{AllFieldsValid}
use sahara.Validation.Valid.{GroupsFit, TemplateFits, check_cluster_create-Valid}
use sahara.Validation.Acl.{
  check_tenant_for_update, check_protected_from_update, Lifts, Stays,
  check_protected_from_update_iff,
}

abbrev vanilla : PluginInfo
vanilla = record {
  versions = "2.7.1" ∷ [];
  all_configs =
      λ v. ("HDFS", "dfs.replication") ∷ ("YARN", "yarn.nodes") ∷ ("HDFS", "dfs.name") ∷ [];
  node_processes = λ v. ("namenode" ∷ "datanode" ∷ []) ∷ ("resourcemanager" ∷ []) ∷ [];
  required_image_tags = λ v. "vanilla" ∷ [];
  implements = λ m. true;
}

abbrev services : Services
services = record {
  plugin_names = "vanilla" ∷ [];
  get_plugin = λ n. if str_eq n "vanilla" then some vanilla else none;
  cluster_names = "old" ∷ [];
  cluster_template = λ id. none;
  node_group_template = λ id. none;
  registered_images = "image" ∷ [];
  image_tags = λ id. ok ("vanilla" ∷ "2.7.1" ∷ []);
  flavors = "small" ∷ "large" ∷ [];
  security_group_ids = [];
  security_group_names = "default" ∷ [];
  network_exists = λ id. true;
  floating_ip_pools = [];
  keypair_exists = λ k. true;
  nova_zones = "nova" ∷ [];
  cinder_exists = true;
  cinder_zones = "nova" ∷ [];
  volume_types = "lvm" ∷ "ssd" ∷ [];
  use_neutron = true;
  use_floating_ips = true;
  node_domain = "novalocal";
}

abbrev workers : NodeGroupData
workers = record {
  name = "workers";
  count = 3;
  is_proxy_gateway = false;
  node_group_template_id = none;
  fields = record {
    node_configs = ("HDFS", "dfs.name" ∷ []) ∷ [];
    flavor_id = some "large";
    node_processes = "datanode" ∷ [];
    image_id = none;
    volumes_per_node = 2;
    volumes_size = 10;
    volumes_availability_zone = some "nova";
    volume_type = some "lvm";
    floating_ip_pool = some "public";
    security_groups = "default" ∷ [];
    availability_zone = some "nova";
  };
}

abbrev wanted : ClusterData
wanted = record {
  name = "new";
  plugin_name = "vanilla";
  hadoop_version = "2.7.1";
  cluster_template_id = none;
  user_keypair_id = some "key";
  default_image_id = some "image";
  cluster_configs = [];
  node_groups = workers ∷ record workers { name = "masters"; count = 1 } ∷ [];
  anti_affinity = "datanode" ∷ [];
  neutron_management_network = some "net";
}

creation_passes : check_cluster_create services wanted ≡ ok tt
unfolding check_cluster_create check_cluster_unique_name check_cluster_data check_plugin_name_exists
    check_plugin_supports_version check_keypair_exists check_image_registered
    check_required_image_tags check_all_configurations get_plugin_configs
    check_duplicates_node_groups_names check_node_group_basic_fields check_fields
    check_node_group_configs check_flavor_exists check_node_processes
    check_volume_availability_zone_exist check_volume_type_exists check_floatingip_pool_exists
    check_security_groups_exist check_availability_zone_exist check_network_config
    has_floating_ip_pool check_cluster_hostnames_lengths instance_name_length check_network_exists
creation_passes = refl

name_is_taken :
    check_cluster_create services (record wanted { name = "old" }) ≡ err Error.name_already_exists
unfolding check_cluster_create check_cluster_unique_name
name_is_taken = refl

check_cluster_create-Valid_example :
    (mem wanted.name services.cluster_names ≡ false)
    × (mem wanted.plugin_name services.plugin_names ≡ true)
    × (distinct (map (λ (ng : NodeGroupData). ng.name) wanted.node_groups) ≡ true)
    × All (AllFieldsValid services wanted.plugin_name wanted.hadoop_version) wanted.node_groups
    × GroupsFit services wanted.name wanted.node_groups
    × Given wanted.cluster_template_id (TemplateFits services wanted)
check_cluster_create-Valid_example = check_cluster_create-Valid services wanted creation_passes

-- The values of these requests are flags.
abbrev same : Bool → Bool → Bool
same a b = if a then b else not b

abbrev truth : Bool → Bool
truth b = b

abbrev more : ScalingData Bool
more = record {
  resize_node_groups = record workers { count = 5 } ∷ [];
  add_node_groups = record workers { name = "spare" } ∷ [];
  request = [];
}

scaling_passes :
    check_cluster_scaling services same truth "tenant" "direct.1.1" [] (some cluster) more ≡ ok tt
unfolding check_cluster_scaling check_tenant_for_update check_protected_from_update check_resize
    check_add_node_groups get_plugin_configs check_duplicates_node_groups_names
    check_node_group_basic_fields check_fields check_node_group_configs check_flavor_exists
    check_node_processes check_volume_availability_zone_exist check_volume_type_exists
    check_floatingip_pool_exists check_security_groups_exist check_availability_zone_exist
    check_network_config has_floating_ip_pool check_cluster_hostnames_lengths instance_name_length
scaling_passes = refl

check_cluster_scaling-ScalingValid_example :
    (c : Cluster) × (some cluster ≡ some c)
    × ScalingValid services same truth "tenant" "direct.1.1" c more
check_cluster_scaling-ScalingValid_example =
    check_cluster_scaling-ScalingValid services same truth "tenant" "direct.1.1" [] (some cluster)
      more scaling_passes

abbrev shared : Dict Bool
shared = ("is_public", true) ∷ ("is_protected", true) ∷ []

abbrev private_one : Dict Bool
private_one = ("is_public", false) ∷ ("is_protected", true) ∷ []

check_protected_from_update_iff_example :
    (check_protected_from_update same truth true private_one shared ≡ ok tt) ↔ (
      (true ≡ false)
      ⊎ Lifts same truth shared
      ⊎ ((contains "is_public" shared ≡ true) × All (Stays same truth private_one) shared))
check_protected_from_update_iff_example =
    check_protected_from_update_iff same truth true private_one shared
