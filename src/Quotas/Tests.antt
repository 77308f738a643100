-- ===== src/Quotas/Tests.antt =====
-- A small cluster, its quota checks, and the theorems at them.
use sahara.Base.{
  ℕ, ◌≡◌, refl, ◌↔◌, true, false, none, some, String, List, [], ◌∷◌, Result, ok, err, Error, str_eq,
  if◌then◌else◌,
}
use sahara.Base.Int.{ℤ, pos, negsuc, ◌+ℤ◌, ◌-ℤ◌, ◌≤ℤ◌, scale}
use sahara.Base.Dict.{Dict}
use sahara.Objects.{NodeGroup}
use sahara.Quotas.{
  Limits, left, Flavor, Config, NovaAbsolute, Clients, req_cluster_limits, req_scaling_limits,
  check_cluster, check_scaling, check_limit, check_limits, avail_limits, update_limits_for_ng,
  zero_limits,
}
use sahara.Quotas.Checks.{instance_count, check_limits_iff, FitsAll, check_cluster-instances}
use sahara.Quotas.Scaling.{Adds, resize, req_scaling_limits-Adds}

abbrev workers : NodeGroup
workers = record {
  id = "w";
  name = "workers";
  flavor_id = "m1.large";
  node_processes = "datanode" ∷ [];
  volumes_per_node = 2;
  volumes_size = 10;
  floating_ip_pool = some "public";
  auto_security_group = true;
  open_ports = 50010 ∷ 50020 ∷ [];
  is_proxy_gateway = false;
  image_username = none;
  count = 3;
  instances = [];
}

abbrev master : NodeGroup
master = record workers { id = "m"; name = "master"; flavor_id = "m1.small"; count = 1 }

abbrev flavors : String → Result Flavor
flavors f =
    if str_eq f "m1.large"
    then ok (record { ram = 8192; vcpus = 4 })
    else if str_eq f "m1.small"
    then ok (record { ram = 2048; vcpus = 1 })
    else err Error.not_found

abbrev neutron : Config
neutron = record { use_neutron = true; use_floating_ips = true }

abbrev nova_answer : NovaAbsolute
nova_answer = record {
  max_total_ram_size = pos 51200;
  total_ram_used = pos 0;
  max_total_cores = negsuc 0;
  total_cores_used = pos 0;
  max_total_instances = pos 10;
  total_instances_used = pos 5;
  max_total_floating_ips = pos 0;
  total_floating_ips_used = pos 0;
  max_security_groups = pos 0;
  total_security_groups_used = pos 0;
  max_security_group_rules = pos 0;
}

abbrev clients : Clients
clients = record {
  flavors = flavors;
  nova = ok nova_answer;
  neutron = ok (record {
    floatingip = pos 50;
    floatingips_used = 4;
    security_group = pos 10;
    security_groups_used = 1;
    security_group_rule = pos 100;
    security_group_rules_used = 4;
    port = negsuc 0;
    ports_used = 12;
  });
  cinder = ok (record {
    max_total_volumes = pos 20;
    total_volumes_used = pos 0;
    max_total_volume_gigabytes = pos 1000;
    total_gigabytes_used = pos 0;
  });
}

abbrev groups : List NodeGroup
groups = master ∷ workers ∷ []

abbrev grown : Dict ℕ
grown = ("w", 9) ∷ []

cluster_passes : check_cluster neutron clients groups ≡ ok tt
unfolding check_cluster req_cluster_limits avail_limits update_limits_for_ng check_limits
    check_limit ◌+ℤ◌ ◌-ℤ◌ scale
cluster_passes = refl

scaling_fails : check_scaling neutron clients groups grown [] ≡ err Error.quota_error
unfolding check_scaling req_scaling_limits avail_limits update_limits_for_ng check_limits
    check_limit ◌+ℤ◌ ◌-ℤ◌ scale
scaling_fails = refl

check_cluster-instances_example :
    nova_answer.total_instances_used +ℤ pos (instance_count groups)
    ≤ℤ nova_answer.max_total_instances
check_cluster-instances_example =
    check_cluster-instances neutron clients nova_answer groups refl (λ e. cc e) cluster_passes

check_limits_iff_example :
    (check_limits (zero_limits (left (pos 1))) (zero_limits (pos 1)) ≡ ok tt)
    ↔ FitsAll (zero_limits (left (pos 1))) (zero_limits (pos 1))
check_limits_iff_example = check_limits_iff (zero_limits (left (pos 1))) (zero_limits (pos 1))

abbrev now : Limits ℤ
now = record {
  ram = pos 26624;
  cpu = pos 13;
  instances = pos 4;
  floatingips = pos 4;
  security_groups = pos 2;
  security_group_rules = pos 10;
  ports = pos 4;
  volumes = pos 8;
  volume_gbs = pos 80;
}

abbrev change : Limits ℤ
change = record {
  ram = pos 49152;
  cpu = pos 24;
  instances = pos 6;
  floatingips = pos 6;
  security_groups = pos 1;
  security_group_rules = pos 5;
  ports = pos 6;
  volumes = pos 12;
  volume_gbs = pos 120;
}

now_required : req_cluster_limits neutron flavors groups ≡ ok now
unfolding req_cluster_limits update_limits_for_ng ◌+ℤ◌ scale
now_required = refl

change_required : req_scaling_limits neutron flavors groups grown [] ≡ ok change
unfolding req_scaling_limits update_limits_for_ng ◌+ℤ◌ scale
change_required = refl

req_scaling_limits-Adds_example :
    (c : Limits ℤ) × (req_cluster_limits neutron flavors (resize grown groups) ≡ ok c)
    × Adds now change c
req_scaling_limits-Adds_example =
    req_scaling_limits-Adds neutron flavors groups grown [] now_required change_required
