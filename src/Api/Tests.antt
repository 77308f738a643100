-- ===== src/Api/Tests.antt =====
-- A scaling and a termination of the active cluster, and the theorems at them.
use sahara.Base.{ℕ, ◌≡◌, refl, ap, true, false, some, List, [], ◌∷◌, Result, ok, err, Error}
use sahara.Base.Dict.{Dict}
use sahara.Base.Int.{pos, negsuc, ◌+ℤ◌, ◌-ℤ◌, scale}
use sahara.Objects.{ClusterStatus, Cluster, NodeGroup, Instance}
use sahara.Conductor.{
  World, pure, ◌>>=◌, set_row, cluster_update, cluster_provision_progress_update,
}
use sahara.Status.{change_cluster_status, write_status}
use sahara.Status.Laws.{IsFinal}
use sahara.Status.Tests.{world, cluster, workers}
use sahara.Quotas.{
  Clients, check_scaling, req_scaling_limits, update_limits_for_ng, avail_limits, check_limits,
  check_limit,
}
use sahara.Ops.{surplus}
use sahara.Ops.Deletion.{Keeps}
use sahara.Api.Creation.{Spoiled, try_creation-Spoiled}
use sahara.Conductor.{raise}
use sahara.Quotas.{check_cluster, req_cluster_limits}
use sahara.Status.{change_cluster_status_description}
use sahara.Api.{
  try_creation, validate_cluster, ApiEnv, ApiPlugin, Resize, enlarge, plan_scaling,
  construct_ngs_for_scaling, node_group_add, add_ports_for_auto_sg, validate_scaling, complete,
  terminate_cluster,
}
use sahara.Api.Coverage.{plan_scaling-surplus}
use sahara.Api.Termination.{terminate_cluster-IsFinal}

abbrev plugin : ApiPlugin
plugin = record {
  get_open_ports = λ ng. 8020 ∷ [];
  recommend_configs = λ c. pure tt;
  validate_scaling = λ c enlarged additional. pure tt;
  validate = λ c. pure tt;
}

abbrev clients : Clients
clients = record {
  flavors = λ f. ok (record { ram = 2048; vcpus = 1 });
  nova = ok (record {
    max_total_ram_size = negsuc 0;
    total_ram_used = pos 0;
    max_total_cores = negsuc 0;
    total_cores_used = pos 0;
    max_total_instances = negsuc 0;
    total_instances_used = pos 0;
    max_total_floating_ips = negsuc 0;
    total_floating_ips_used = pos 0;
    max_security_groups = negsuc 0;
    total_security_groups_used = pos 0;
    max_security_group_rules = negsuc 0;
  });
  neutron = err Error.external;
  cinder = ok (record {
    max_total_volumes = negsuc 0;
    total_volumes_used = pos 0;
    max_total_volume_gigabytes = negsuc 0;
    total_gigabytes_used = pos 0;
  });
}

abbrev pub env : ApiEnv
env = record {
  disable_event_log = true;
  get_plugin = λ name. some plugin;
  quota_config = record { use_neutron = false; use_floating_ips = true };
  clients = clients;
  new_id = pure "ng3";
  new_cluster = pure cluster;
  provision_cluster = λ id. pure tt;
  provision_scaled_cluster = λ id m. pure tt;
  terminate_cluster = λ id. pure tt;
}

abbrev more : List Resize
more = record { name = "workers"; count = 4 } ∷ []

abbrev spare : NodeGroup
spare = record workers { name = "spare"; count = 2; instances = [] }

abbrev plan : Result (Cluster × Dict ℕ) × World
plan = plan_scaling env (λ e. "error") "c1" more (spare ∷ []) world

enlarged_workers : enlarge cluster.node_groups [] more ≡ ok (("ng1", 4) ∷ [])
unfolding enlarge
enlarged_workers = refl

completed :
    complete (("ng1", 4) ∷ ("ng3", 2) ∷ []) cluster.node_groups
    ≡ ("ng1", 4) ∷ ("ng3", 2) ∷ ("ng2", 0) ∷ []
unfolding complete
completed = refl

terminate_cluster-IsFinal_example : IsFinal ((terminate_cluster env "c1" world).1.rows "c1")
unfolding Keeps
terminate_cluster-IsFinal_example = terminate_cluster-IsFinal env "c1" world (λ w h. h)

abbrev planned_map : Dict ℕ
planned_map = ("ng1", 4) ∷ ("ng3", 2) ∷ ("ng2", 0) ∷ []

abbrev planned_cluster : Cluster
planned_cluster = record cluster {
  status = ClusterStatus.validating;
  node_groups =
      workers
      ∷ record workers { id = "ng2"; count = 0; instances = [] }
      ∷ record spare { id = "ng3"; count = 0 }
      ∷ [];
}

planned : plan.0 ≡ ok (planned_cluster, planned_map)
unfolding plan_scaling enlarge construct_ngs_for_scaling node_group_add add_ports_for_auto_sg
    validate_scaling complete ◌>>=◌ set_row change_cluster_status write_status cluster_update
    cluster_provision_progress_update check_scaling req_scaling_limits update_limits_for_ng ◌+ℤ◌
    ◌-ℤ◌ scale avail_limits check_limits check_limit
planned = refl

plan_scaling-surplus_example :
    (is : List Instance) × (surplus planned_map planned_cluster.node_groups ≡ ok is)
plan_scaling-surplus_example =
    plan_scaling-surplus env (λ e. "error") "c1" more (spare ∷ []) world
      (ap (λ (r : Result (Cluster × Dict ℕ)). (r, plan.1)) planned)

-- A plugin that refuses the cluster.
abbrev strict : ApiPlugin
strict = record plugin { validate = λ c. raise Error.external }

refused : (try_creation env (λ e. "error") (some strict) "c1" cluster world).0 ≡ err Error.external
unfolding try_creation validate_cluster ◌>>=◌ set_row change_cluster_status
    change_cluster_status_description write_status cluster_update cluster_provision_progress_update
    check_cluster req_cluster_limits update_limits_for_ng ◌+ℤ◌ ◌-ℤ◌ scale avail_limits check_limits
    check_limit
refused = refl

try_creation-Spoiled_example :
    Spoiled ((try_creation env (λ e. "error") (some strict) "c1" cluster world).1.rows "c1")
try_creation-Spoiled_example =
    try_creation-Spoiled env (λ e. "error") (some strict) "c1" cluster world
      (ap
        (λ (r : Result Cluster).
          (r, (try_creation env (λ e. "error") (some strict) "c1" cluster world).1))
        refused)
