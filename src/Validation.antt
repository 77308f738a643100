-- ===== src/Validation.antt =====
-- The checks of requests before they reach the operations (sahara/service/validations). The plugins,
-- the OpenStack services and the stored objects are parameters.
pub mod Nodes
pub mod Creation
pub mod Scaling
pub mod Acl
pub mod Digits
pub mod Known
pub mod FieldsValid
pub mod GroupsValid
pub mod Valid
pub mod Scalable
mod Tests
use Prim.Native.String.{count}
use sahara.Base.{
  ℕ, zero, suc, ◌+◌, ◌/◌, max, Bool, true, false, not, ◌&&◌, ◌||◌, Option, none, some, String, List,
  [], ◌∷◌, ◌++◌, Result, ok, err, Error, Check, raise_if, ◌>>=◌, ◌>>◌, if◌then◌else◌, ◌==◌, ltb,
  str_eq, mem, distinct, all, any, is_empty,
}
use sahara.Base.Dict.{Dict, lookup, insert}
use sahara.Objects.{truthy}

-- What a plugin says of itself for a version.
pub record PluginInfo : Type 0 where
  pub versions : List String
  -- the applicable target and the name of each config
  pub all_configs : String → List (String × String)
  pub node_processes : String → List (List String)
  pub required_image_tags : String → List String
  pub implements : String → Bool

-- The fields that a node group and a node group template share. A number that is not given is 0, a
-- list that is not given is empty.
pub record Fields : Type 0 where
  pub node_configs : Dict (List String)
  pub flavor_id : Option String
  pub node_processes : List String
  pub image_id : Option String
  pub volumes_per_node : ℕ
  pub volumes_size : ℕ
  pub volumes_availability_zone : Option String
  pub volume_type : Option String
  pub floating_ip_pool : Option String
  pub security_groups : List String
  pub availability_zone : Option String

pub record NodeGroupData : Type 0 where
  pub name : String
  pub count : ℕ
  pub is_proxy_gateway : Bool
  pub node_group_template_id : Option String
  pub fields : Fields

pub record ClusterTemplate : Type 0 where
  pub node_groups : List NodeGroupData
  pub default_image_id : Option String
  pub neutron_management_network : Option String

pub record Services : Type 0 where
  -- the plugins and the stored objects
  pub plugin_names : List String
  pub get_plugin : String → Option PluginInfo
  pub cluster_names : List String
  pub cluster_template : String → Option ClusterTemplate
  pub node_group_template : String → Option Fields
  -- Nova, Cinder and Neutron
  pub registered_images : List String
  pub image_tags : String → Result (List String)
  pub flavors : List String
  pub security_group_ids : List String
  pub security_group_names : List String
  pub network_exists : String → Bool
  pub floating_ip_pools : List String
  pub keypair_exists : String → Bool
  pub nova_zones : List String
  pub cinder_exists : Bool
  pub cinder_zones : List String
  pub volume_types : List String
  -- configuration
  pub use_neutron : Bool
  pub use_floating_ips : Bool
  pub node_domain : String

-- `if field: check(field)`
abbrev pub if_set : Option String → (String → Check) → Check
if_set none check = ok tt
if_set (some x) check = if str_eq x "" then ok tt else check x

abbrev pub if_any : {A : Type 0} → List A → Check → Check
if_any [] check = ok tt
if_any (x ∷ xs) check = check

-- A check of every element, in order.
abbrev pub check_each : {A : Type 0} → (A → Check) → List A → Check
check_each check [] = ok tt
check_each check (x ∷ xs) = check x >> check_each check xs

-- `_check_duplicates`
abbrev pub check_duplicates : List String → Check
check_duplicates names = raise_if (not (distinct names)) Error.invalid_data

abbrev pub listed_or : Error → List String → String → Check
listed_or e names x = raise_if (not (mem x names)) e

-- The rounds of `_get_plugin_configs`: the names of the configs by their target.
group_configs : Dict (List String) → List (String × String) → Dict (List String)
group_configs confs [] = confs
group_configs confs ((target, name) ∷ rest) = elim (lookup target confs) [
  | none ↦ group_configs (insert target (name ∷ []) confs) rest
  | some names ↦ group_configs (insert target (names ++ name ∷ []) confs) rest
]

-- The digits of a number; as many rounds as the number are enough.
pub num_digits : ℕ → ℕ → ℕ
num_digits zero n = 1
num_digits (suc fuel) n = let rest = num_digits fuel (n / 10) in if ltb n 10 then 1 else suc rest

-- `len(generate_instance_name(cluster_name, node_group_name, index))`: "%s-%s-%03d". Lower case
-- does not change the length.
pub instance_name_length : String → String → ℕ → ℕ
unfolding num_digits
instance_name_length cluster_name node_group_name index =
    count cluster_name + 1 + count node_group_name + 1 + max 3 (num_digits index index)

abbrev pub max_hostname_length : ℕ
max_hostname_length = 64

module _ (s : Services) where
  abbrev pub the_plugin : String → Result PluginInfo
  the_plugin name = elim (s.get_plugin name) [ none ↦ err Error.attribute_error | some p ↦ ok p ]

  unfoldable pub get_plugin_configs : String → String → Result (Dict (List String))
  unfolding group_configs
  get_plugin_configs name version = do
    plugin ← the_plugin name
    ok (group_configs [] (plugin.all_configs version))

  unfoldable pub check_plugin_name_exists : String → Check
  check_plugin_name_exists name = listed_or Error.invalid_reference s.plugin_names name

  unfoldable pub check_plugin_supports_version : String → String → Check
  check_plugin_supports_version name version = do
    plugin ← the_plugin name
    listed_or Error.invalid_reference plugin.versions version

  unfoldable pub check_image_registered : String → Check
  check_image_registered id = listed_or Error.invalid_reference s.registered_images id

  abbrev check_target : Dict (List String) → String × List String → Check
  check_target confs (target, names) = elim (lookup target confs) [
    | none ↦ err Error.invalid_reference
    | some known ↦ check_each (listed_or Error.invalid_reference known) names
  ]

  -- `plugin_configs or _get_plugin_configs(...)`
  abbrev or_configs : String → String → Option (Dict (List String)) → Result (Dict (List String))
  or_configs name version (some ((target, names) ∷ confs)) = ok ((target, names) ∷ confs)
  or_configs name version _ = get_plugin_configs name version

  unfoldable pub check_node_group_configs :
      String → String → Dict (List String) → Option (Dict (List String)) → Check
  check_node_group_configs name version ng_configs plugin_configs = do
    confs ← or_configs name version plugin_configs
    check_each (check_target confs) ng_configs

  unfoldable pub check_flavor_exists : String → Check
  check_flavor_exists flavor_id = listed_or Error.not_found s.flavors flavor_id

  unfoldable pub check_security_groups_exist : List String → Check
  check_security_groups_exist groups =
      check_each (listed_or Error.not_found (s.security_group_ids ++ s.security_group_names)) groups

  unfoldable pub check_floatingip_pool_exists : String → Check
  check_floatingip_pool_exists pool =
      raise_if (not (if s.use_neutron then s.network_exists pool else mem pool s.floating_ip_pools))
        Error.not_found

  abbrev pub concat : List (List String) → List String
  concat [] = []
  concat (xs ∷ xss) = xs ++ concat xss

  unfoldable pub check_node_processes : String → String → List String → Check
  check_node_processes name version processes = do
    check_duplicates processes
    plugin ← the_plugin name
    raise_if (not (all (λ p. mem p (concat (plugin.node_processes version))) processes))
        Error.invalid_reference

  unfoldable pub check_availability_zone_exist : String → Check
  check_availability_zone_exist az = listed_or Error.not_found s.nova_zones az

  unfoldable pub check_volume_availability_zone_exist : String → Check
  check_volume_availability_zone_exist az = listed_or Error.not_found s.cinder_zones az

  -- How many volume types have the name; exactly one must.
  abbrev pub occurrences : String → List String → ℕ
  occurrences x [] = 0
  occurrences x (y ∷ ys) = if str_eq y x then suc (occurrences x ys) else occurrences x ys

  unfoldable pub check_volume_type_exists : String → Check
  check_volume_type_exists volume_type =
      raise_if (not (occurrences volume_type s.volume_types == 1)) Error.not_found
