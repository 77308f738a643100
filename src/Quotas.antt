-- ===== src/Quotas.antt =====
-- Quota checks before a cluster is created or scaled (sahara/service/quotas.py). What Nova, Neutron
-- and Cinder answer is a parameter. A dict of limits always has the same nine keys: it is a record.
pub mod Checks
pub mod Scaling
mod Tests
use sahara.Base.{
  ℕ, zero, suc, ◌+◌, ◌*◌, Bool, true, false, Option, none, some, String, List, [], ◌∷◌, Result, ok,
  Error, Check, raise_if, ◌>>=◌, ◌>>◌, if◌then◌else◌, length, ltb,
}
use sahara.Base.Int.{ℤ, pos, negsuc, ◌+ℤ◌, ◌-ℤ◌, scale, ltb_ℤ, max_ℤ, sub_ℕ}
use sahara.Base.Dict.{Dict, lookup, update}
use sahara.Objects.{NodeGroup, truthy}

-- The keys of the dicts, in the order of `_get_zero_limits`.
pub record Limits (A : Type 0) : Type 0 where
  pub ram : A
  pub cpu : A
  pub instances : A
  pub floatingips : A
  pub security_groups : A
  pub security_group_rules : A
  pub ports : A
  pub volumes : A
  pub volume_gbs : A

-- A limit that is left, or UNLIMITED.
pub data Avail : Type 0 where
  unlimited : Avail
  left : ℤ → Avail

abbrev is_unlimited : ℤ → Bool
is_unlimited (negsuc zero) = true
is_unlimited _ = false

pub sub_limit : ℤ → ℤ → Avail
sub_limit total used = if is_unlimited total then unlimited else left (total -ℤ used)

abbrev pub zero_limits : {A : Type 0} → A → Limits A
zero_limits z = record {
  ram = z;
  cpu = z;
  instances = z;
  floatingips = z;
  security_groups = z;
  security_group_rules = z;
  ports = z;
  volumes = z;
  volume_gbs = z;
}

pub record Flavor : Type 0 where
  pub ram : ℕ
  pub vcpus : ℕ

-- CONF.use_neutron and CONF.use_floating_ips.
pub record Config : Type 0 where
  pub use_neutron : Bool
  pub use_floating_ips : Bool

abbrev sign : ℤ → ℤ
sign x = if ltb_ℤ x (pos 0) then negsuc 0 else pos 1

-- `limits[key] += count` where the test holds.
abbrev pub add_if : Bool → ℤ → ℤ → ℤ
add_if c x limit = if c then limit +ℤ x else limit

-- The limits with `count` instances of the node group added.
pub bumped : Config → Flavor → Limits ℤ → NodeGroup → ℤ → Limits ℤ
bumped conf flavor limits ng count =
    let rules = length ng.open_ports + 3 in
    record {
      instances = limits.instances +ℤ count;
      ram = limits.ram +ℤ scale flavor.ram count;
      cpu = limits.cpu +ℤ scale flavor.vcpus count;
      floatingips = add_if (truthy ng.floating_ip_pool) count limits.floatingips;
      volumes = add_if (ltb 0 ng.volumes_per_node) (scale ng.volumes_per_node count) limits.volumes;
      volume_gbs =
          add_if (ltb 0 ng.volumes_per_node) (scale (ng.volumes_per_node * ng.volumes_size) count)
            limits.volume_gbs;
      security_groups = add_if ng.auto_security_group (sign count) limits.security_groups;
      security_group_rules =
          if ng.auto_security_group
          then if conf.use_neutron
            then limits.security_group_rules +ℤ scale rules (sign count)
            else max_ℤ limits.security_group_rules (pos rules)
          else limits.security_group_rules;
      ports = add_if conf.use_neutron count limits.ports;
    }

-- `flavors` is Nova's `flavors.get`, with its retries.
unfoldable pub update_limits_for_ng :
    Config → (String → Result Flavor) → Limits ℤ → NodeGroup → ℤ → Result (Limits ℤ)
unfolding bumped
update_limits_for_ng conf flavors limits ng count = do
  flavor ← flavors ng.flavor_id
  ok (bumped conf flavor limits ng count)

module _ (conf : Config) (flavors : String → Result Flavor) where
  -- The loop of `_get_req_cluster_limits`.
  pub req_cluster_from : Limits ℤ → List NodeGroup → Result (Limits ℤ)
  req_cluster_from limits [] = ok limits
  req_cluster_from limits (ng ∷ ngs) = do
    limits' ← update_limits_for_ng conf flavors limits ng (pos ng.count)
    req_cluster_from limits' ngs

  unfoldable pub req_cluster_limits : List NodeGroup → Result (Limits ℤ)
  unfolding req_cluster_from
  req_cluster_limits node_groups = req_cluster_from (zero_limits (pos 0)) node_groups

  -- The new count of a node group if `ng_id_map.get(ng.id)` is there and not zero.
  abbrev pub new_count : Dict ℕ → NodeGroup → Option ℕ
  new_count ng_id_map ng = elim (lookup ng.id ng_id_map) [
    | none ↦ none
    | some zero ↦ none
    | some (suc n) ↦ some (suc n)
  ]

  -- The loop of `_get_req_scaling_limits`.
  pub req_scaling_from : Dict ℕ → Limits ℤ → List NodeGroup → Result (Limits ℤ)
  req_scaling_from ng_id_map limits [] = ok limits
  req_scaling_from ng_id_map limits (ng ∷ ngs) = elim (new_count ng_id_map ng) [
    | none ↦ req_scaling_from ng_id_map limits ngs
    | some n ↦ (do
      limits' ← update_limits_for_ng conf flavors limits ng (sub_ℕ n ng.count)
      req_scaling_from ng_id_map limits' ngs)
  ]

  unfoldable pub req_scaling_limits : List NodeGroup → Dict ℕ → Dict ℕ → Result (Limits ℤ)
  unfolding req_scaling_from
  req_scaling_limits node_groups to_be_enlarged additional =
      req_scaling_from (update to_be_enlarged additional) (zero_limits (pos 0)) node_groups

abbrev covers : Avail → ℤ → Bool
covers unlimited req = true
covers (left avail) req = if ltb_ℤ avail req then false else true

-- One round of the loop of `_check_limits`.
unfoldable pub check_limit : Avail → ℤ → Check
check_limit avail req = raise_if (if covers avail req then false else true) Error.quota_error

unfoldable pub check_limits : Limits Avail → Limits ℤ → Check
check_limits avail req = do
  check_limit avail.ram req.ram
  check_limit avail.cpu req.cpu
  check_limit avail.instances req.instances
  check_limit avail.floatingips req.floatingips
  check_limit avail.security_groups req.security_groups
  check_limit avail.security_group_rules req.security_group_rules
  check_limit avail.ports req.ports
  check_limit avail.volumes req.volumes
  check_limit avail.volume_gbs req.volume_gbs

-- Nova's absolute limits, as far as they are read: what is allowed and what is used.
pub record NovaAbsolute : Type 0 where
  pub max_total_ram_size : ℤ
  pub total_ram_used : ℤ
  pub max_total_cores : ℤ
  pub total_cores_used : ℤ
  pub max_total_instances : ℤ
  pub total_instances_used : ℤ
  pub max_total_floating_ips : ℤ
  pub total_floating_ips_used : ℤ
  pub max_security_groups : ℤ
  pub total_security_groups_used : ℤ
  pub max_security_group_rules : ℤ

-- Neutron's quota of the tenant, and how much of each kind the tenant has.
pub record NeutronQuota : Type 0 where
  pub floatingip : ℤ
  pub floatingips_used : ℕ
  pub security_group : ℤ
  pub security_groups_used : ℕ
  pub security_group_rule : ℤ
  pub security_group_rules_used : ℕ
  pub port : ℤ
  pub ports_used : ℕ

-- Cinder's absolute limits.
pub record CinderAbsolute : Type 0 where
  pub max_total_volumes : ℤ
  pub total_volumes_used : ℤ
  pub max_total_volume_gigabytes : ℤ
  pub total_gigabytes_used : ℤ

-- `limits.update(d)`, for a dict with some of the keys.
abbrev or_old : Option Avail → Avail → Avail
or_old none old = old
or_old (some new) old = new

abbrev overlay : Limits Avail → Limits (Option Avail) → Limits Avail
overlay limits d = record {
  ram = or_old d.ram limits.ram;
  cpu = or_old d.cpu limits.cpu;
  instances = or_old d.instances limits.instances;
  floatingips = or_old d.floatingips limits.floatingips;
  security_groups = or_old d.security_groups limits.security_groups;
  security_group_rules = or_old d.security_group_rules limits.security_group_rules;
  ports = or_old d.ports limits.ports;
  volumes = or_old d.volumes limits.volumes;
  volume_gbs = or_old d.volume_gbs limits.volume_gbs;
}

abbrev no_keys : Limits (Option Avail)
no_keys = zero_limits none

module _ (conf : Config) where
  pub nova_limits : NovaAbsolute → Limits (Option Avail)
  nova_limits lim =
      let limits : Limits (Option Avail) = record no_keys {
        ram = some (sub_limit lim.max_total_ram_size lim.total_ram_used);
        cpu = some (sub_limit lim.max_total_cores lim.total_cores_used);
        instances = some (sub_limit lim.max_total_instances lim.total_instances_used);
      } in
      if conf.use_neutron then limits else record limits {
        floatingips =
            if conf.use_floating_ips
            then some (sub_limit lim.max_total_floating_ips lim.total_floating_ips_used)
            else none;
        security_groups = some (sub_limit lim.max_security_groups lim.total_security_groups_used);
        security_group_rules = some (sub_limit lim.max_security_group_rules (pos 0));
      }

  pub neutron_limits : NeutronQuota → Limits (Option Avail)
  neutron_limits total_lim =
      if conf.use_neutron
      then record no_keys {
        floatingips =
            if conf.use_floating_ips
            then some (sub_limit total_lim.floatingip (pos total_lim.floatingips_used))
            else none;
        security_groups =
            some (sub_limit total_lim.security_group (pos total_lim.security_groups_used));
        security_group_rules =
            some
              (sub_limit total_lim.security_group_rule (pos total_lim.security_group_rules_used));
        ports = some (sub_limit total_lim.port (pos total_lim.ports_used));
      }
      else no_keys

pub cinder_limits : CinderAbsolute → Limits (Option Avail)
cinder_limits lim = record no_keys {
  volumes = some (sub_limit lim.max_total_volumes lim.total_volumes_used);
  volume_gbs = some (sub_limit lim.max_total_volume_gigabytes lim.total_gigabytes_used);
}

-- What the clients answer; each call may raise.
pub record Clients : Type 0 where
  pub flavors : String → Result Flavor
  pub nova : Result NovaAbsolute
  pub neutron : Result NeutronQuota
  pub cinder : Result CinderAbsolute

abbrev neutron_answer : Config → Clients → Result (Limits (Option Avail))
neutron_answer conf clients =
    if conf.use_neutron
    then (do quota ← clients.neutron; ok (neutron_limits conf quota))
    else ok no_keys

unfoldable pub avail_limits : Config → Clients → Result (Limits Avail)
unfolding sub_limit nova_limits neutron_limits cinder_limits
avail_limits conf clients = do
  nova ← clients.nova
  let limits = overlay (zero_limits (left (pos 0))) (nova_limits conf nova)
  neutron ← neutron_answer conf clients
  cinder ← clients.cinder
  ok (overlay (overlay limits neutron) (cinder_limits cinder))

unfoldable pub check_cluster : Config → Clients → List NodeGroup → Check
check_cluster conf clients node_groups = do
  req ← req_cluster_limits conf clients.flavors node_groups
  avail ← avail_limits conf clients
  check_limits avail req

unfoldable pub check_scaling : Config → Clients → List NodeGroup → Dict ℕ → Dict ℕ → Check
check_scaling conf clients node_groups to_be_enlarged additional = do
  req ← req_scaling_limits conf clients.flavors node_groups to_be_enlarged additional
  avail ← avail_limits conf clients
  check_limits avail req
