-- ===== src/Status/Tests.antt =====
-- A world with one cluster that is active and one that is being deleted.
use sahara.Base.{
  ◌≡◌, refl, false, Option, none, some, String, [], ◌∷◌, ok, err, Error, str_eq, if◌then◌else◌,
}
use sahara.Objects.{ClusterStatus, Cluster, NodeGroup, Instance, Step}
use sahara.Conductor.{
  World, ◌>>=◌, set_row, cluster_update, cluster_provision_progress_update, step_update,
}
use sahara.Status.{
  change_cluster_status, change_cluster_status_description, write_status, get_instances,
}
use sahara.Status.Laws.{Effect, change_cluster_status-Effect}

abbrev worker : Instance
worker = record {
  id = "i1";
  instance_id = "nova-1";
  instance_name = "cluster-workers-001";
  internal_ip = "10.0.0.4";
  management_ip = "172.24.4.4";
}

abbrev pub workers : NodeGroup
workers = record {
  id = "ng1";
  name = "workers";
  flavor_id = "2";
  node_processes = "datanode" ∷ [];
  volumes_per_node = 0;
  volumes_size = 0;
  floating_ip_pool = none;
  auto_security_group = false;
  open_ports = [];
  is_proxy_gateway = false;
  image_username = none;
  count = 1;
  instances = worker ∷ [];
}

-- All of its instances have reported.
abbrev booting : Step
booting = record {
  id = 0;
  step_name = "Wait for instances to become accessible";
  step_type = "vanilla";
  total = 0;
  successful = none;
  events = [];
}

abbrev pub cluster : Cluster
cluster = record {
  id = "c1";
  name = "cluster";
  tenant_id = "tenant";
  plugin_name = "vanilla";
  hadoop_version = "2.7.1";
  status = ClusterStatus.active;
  status_description = "";
  is_public = false;
  is_protected = false;
  trust_id = none;
  sahara_info = none;
  verification = none;
  node_groups = workers ∷ record workers { id = "ng2"; count = 0; instances = [] } ∷ [];
  provision_progress = booting ∷ [];
}

abbrev rows : String → Option Cluster
rows id =
    if str_eq id "c1"
    then some cluster
    else if str_eq id "c2"
    then some (record cluster { id = "c2"; status = ClusterStatus.deleting })
    else none

abbrev pub world : World
world = record {
  rows = rows;
  next_step = 1;
  current_step = none;
  notified = [];
  jobs = λ id. none;
  job_ids = [];
  clock = 0;
}

scaling_announced :
    (change_cluster_status false (some "c1") ClusterStatus.scaling (some "more") world).1.notified
    ≡ ("c1", ClusterStatus.scaling) ∷ []
unfolding change_cluster_status change_cluster_status_description write_status ◌>>=◌ cluster_update
    cluster_provision_progress_update step_update set_row
scaling_announced = refl

deleting_stays :
    (change_cluster_status false (some "c2") ClusterStatus.active none world).1.notified ≡ []
unfolding change_cluster_status ◌>>=◌
deleting_stays = refl

found_by_id : get_instances cluster.node_groups (some ("i1" ∷ [])) ≡ ok (worker ∷ [])
unfolding get_instances
found_by_id = refl

missing_id : get_instances cluster.node_groups (some ("i2" ∷ [])) ≡ err Error.key_error
unfolding get_instances
missing_id = refl

change_cluster_status-Effect_example :
    Effect "c1" ClusterStatus.scaling
      (world.rows "c1")
      world
      (change_cluster_status false (some "c1") ClusterStatus.scaling (some "more") world)
change_cluster_status-Effect_example =
    change_cluster_status-Effect false "c1" ClusterStatus.scaling (some "more") world
