-- ===== src/Ops/Tests.antt =====
-- An engine whose instances never come up and that cannot roll back, and the theorems with it.
use sahara.Base.{ℕ, ◌+◌, ◌≡◌, refl, true, false, String, List, [], ◌∷◌, ◌⊎◌, ok, Error, length}
use sahara.Base.Dict.{Dict}
use sahara.Objects.{HealthStatus}
use sahara.Conductor.{pure, raise}
use sahara.Ops.{
  Infra, Plugin, Env, attempted, ops_error_handler, provision_body, provision_cluster,
  provision_scaled_cluster, terminate_cluster, surplus, slice,
}
use mathlib.Core.Path.{subst}
use sahara.Base.{ok-injective}
use sahara.Status.Tests.{world, cluster, workers}
use sahara.Ops.Handler.{Settled, ops_error_handler-Settled}
use sahara.Ops.Deletion.{Keeps}
use sahara.Ops.Final.{deletion_final}
use sahara.Ops.Respect.{RespectsDeletion, PluginKeeps}
use sahara.Ops.Outcomes.{terminate_cluster-Settled}
use sahara.Ops.Surplus.{remaining, total_count, all_beyond, surplus-all_beyond}

abbrev stuck : Infra
stuck = record {
  create_cluster = λ c. raise Error.timeout;
  scale_cluster = λ c m. pure [];
  shutdown_cluster = λ c. pure tt;
  rollback_cluster = λ c e. pure false;
  get_node_group_image_username = λ ng. pure "ubuntu";
  type_and_version = "heat.3.0";
}

abbrev vanilla : Plugin
vanilla = record {
  update_infra = λ c. pure tt;
  configure_cluster = λ c. pure tt;
  start_cluster = λ c. pure tt;
  decommission_nodes = λ c is. pure tt;
  scale_cluster = λ c is. pure tt;
  on_terminate_cluster = λ c. pure tt;
}

abbrev env : Env
env = record {
  infra = stuck;
  get_plugin = λ name. ok vanilla;
  use_identity_api_v3 = true;
  disable_event_log = false;
  verification_enable = true;
  create_trust = pure "trust";
  delete_trust = λ t. pure tt;
  use_admin_token = pure tt;
  mount_shares = λ c. pure tt;
  configure_ntp = λ id. pure tt;
  run_jobs = λ id. pure tt;
  update_job_statuses = λ id. pure tt;
  health_checks = pure (HealthStatus.green ∷ []);
}

abbrev description : List Error → String
description es = "Failed to create cluster"

abbrev respectful : RespectsDeletion env "c1"
unfolding Keeps
respectful = record {
  create_cluster = λ c w h. h;
  scale_cluster = λ c m w h. h;
  shutdown_cluster = λ c w h. h;
  rollback = λ c e w h. h;
  image_username = λ ng w h. h;
  plugins = λ name p e. vanilla_keeps p (ok-injective e);
  create_trust = λ w h. h;
  delete_trust = λ t w h. h;
  use_admin_token = λ w h. h;
  mount_shares = λ c w h. h;
  configure_ntp = λ w h. h;
  run_jobs = λ w h. h;
  update_job_statuses = λ w h. h;
  health_checks = λ w h. h;
}
  where
    vanilla_keeps : (p : Plugin) → vanilla ≡ p → PluginKeeps "c1" p
    vanilla_keeps p e = subst (PluginKeeps "c1") e (record {
      update_infra = λ c w h. h;
      configure_cluster = λ c w h. h;
      start_cluster = λ c w h. h;
      decommission_nodes = λ c is w h. h;
      scale_cluster = λ c is w h. h;
      on_terminate_cluster = λ c w h. h;
    })

deletion_final_example :
    Keeps "c1" (provision_cluster env description "c1")
    × Keeps "c1" (provision_scaled_cluster env description (("ng1", 2) ∷ []) "c1")
    × Keeps "c1" (terminate_cluster env description "c1")
deletion_final_example = deletion_final env "c1" description (("ng1", 2) ∷ []) respectful

ops_error_handler-Settled_example :
    let (r, w') = ops_error_handler env description (provision_body env) "c1" world in
    (r ≡ ok tt)
    × ((attempted (provision_body env) "c1" world ≡ (ok tt, w')) ⊎ Settled (w'.rows "c1"))
ops_error_handler-Settled_example =
    ops_error_handler-Settled env description (provision_body env) "c1" world

terminate_cluster-Settled_example :
    let (r, w') = terminate_cluster env description "c1" world in
    (r ≡ ok tt) × Settled (w'.rows "c1")
terminate_cluster-Settled_example = terminate_cluster-Settled env description "c1" world

abbrev shrunk : Dict ℕ
shrunk = ("ng1", 0) ∷ ("ng2", 4) ∷ []

worker_goes : surplus shrunk cluster.node_groups ≡ ok (workers.instances)
unfolding surplus slice
worker_goes = refl

surplus-all_beyond_example :
    (workers.instances ≡ all_beyond shrunk cluster.node_groups)
    × (length workers.instances + remaining shrunk cluster.node_groups
        ≡ total_count cluster.node_groups)
surplus-all_beyond_example =
    surplus-all_beyond shrunk cluster.node_groups (refl, (refl, tt)) worker_goes
