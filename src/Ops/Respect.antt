-- ===== src/Ops/Respect.antt =====
-- The parts of the operations on a cluster that is being deleted, or gone.
use sahara.Base.{
  ◌≡◌, refl, ap, ◌∙◌, Bool-cases, inl, inr, Bool, Option, none, some, String, List, [], ◌∷◌, Result,
  ok, err, Error, ℕ,
}
use sahara.Base.Dict.{Dict}
use sahara.Objects.{Cluster, NodeGroup, Instance}
use sahara.Conductor.{World, ◌>>◌, lift, expect, each, cluster_get}
use sahara.Conductor.Rows.{bind_inv}
use sahara.Status.Laws.{IsFinal}
use sahara.Health.{
  validate_verification_start, verification_run, handle_verification, clean_verification_data,
  drop_verification, run_for, refresh_handler, refresh_health,
}
use sahara.Ops.Deletion.{
  Keeps, bind-Keeps, bind_result-Keeps, pure-Keeps, raise-Keeps, raise_list-Keeps,
  cluster_get-Keeps, lift-Keeps, expect-Keeps, each-Keeps, cluster_update-Keeps,
  cluster_destroy-Keeps, node_group_update-Keeps, change_cluster_status-Keeps, change_status-Keeps,
  description-Keeps, if-Keeps,
}
use sahara.Ops.{
  Env, Plugin, create_trust_for_cluster, create_trust_if_none, use_os_admin_auth_token,
  use_token_if_trusted, setup_trust_for_cluster, prepare_provisioning, set_username, run_jobs_for,
}

-- What the operations rely on: no call of the engine, a plugin or a service brings a cluster back
-- that is gone or being deleted.
pub record PluginKeeps (id : String) (p : Plugin) : Type 0 where
  pub update_infra : (c : Option Cluster) → Keeps id (p.update_infra c)
  pub configure_cluster : (c : Option Cluster) → Keeps id (p.configure_cluster c)
  pub start_cluster : (c : Option Cluster) → Keeps id (p.start_cluster c)
  pub decommission_nodes :
      (c : Option Cluster) (is : List Instance) → Keeps id (p.decommission_nodes c is)
  pub scale_cluster : (c : Option Cluster) (is : List Instance) → Keeps id (p.scale_cluster c is)
  pub on_terminate_cluster : (c : Option Cluster) → Keeps id (p.on_terminate_cluster c)

pub record RespectsDeletion (env : Env) (id : String) : Type 0 where
  pub create_cluster : (c : Option Cluster) → Keeps id (env.infra.create_cluster c)
  pub scale_cluster : (c : Option Cluster) (m : Dict ℕ) → Keeps id (env.infra.scale_cluster c m)
  pub shutdown_cluster : (c : Option Cluster) → Keeps id (env.infra.shutdown_cluster c)
  pub rollback : (c : Option Cluster) (e : Error) → Keeps id (env.infra.rollback_cluster c e)
  pub image_username : (ng : NodeGroup) → Keeps id (env.infra.get_node_group_image_username ng)
  pub plugins : (name : String) (p : Plugin) → env.get_plugin name ≡ ok p → PluginKeeps id p
  pub create_trust : Keeps id env.create_trust
  pub delete_trust : (t : String) → Keeps id (env.delete_trust t)
  pub use_admin_token : Keeps id env.use_admin_token
  pub mount_shares : (c : Option Cluster) → Keeps id (env.mount_shares c)
  pub configure_ntp : Keeps id (env.configure_ntp id)
  pub run_jobs : Keeps id (env.run_jobs id)
  pub update_job_statuses : Keeps id (env.update_job_statuses id)
  pub health_checks : Keeps id env.health_checks

pub ruleset keeping = (
  bind-Keeps, pure-Keeps, raise-Keeps, raise_list-Keeps, cluster_get-Keeps, lift-Keeps,
  expect-Keeps, cluster_update-Keeps, change_cluster_status-Keeps, change_status-Keeps, if-Keeps,
  refl,
)

module _ (env : Env) (id : String) (respects : RespectsDeletion env id) where
  pub create_trust_if_none-Keeps : (c : Option Cluster) → Keeps id (create_trust_if_none env c id)
  create_trust_if_none-Keeps none = search keeping
  create_trust_if_none-Keeps (some c) = search (keeping, respects.create_trust) depth 8

  pub use_token_if_trusted-Keeps : (c : Option Cluster) → Keeps id (use_token_if_trusted env c)
  use_token_if_trusted-Keeps none = search keeping
  use_token_if_trusted-Keeps (some c) = search (keeping, respects.use_admin_token)

  pub setup_trust-Keeps : Keeps id (setup_trust_for_cluster env id)
  unfolding setup_trust_for_cluster create_trust_for_cluster use_os_admin_auth_token
  setup_trust-Keeps = search (keeping, create_trust_if_none-Keeps, use_token_if_trusted-Keeps)

  pub set_username-Keeps : (ng : NodeGroup) → Keeps id (set_username env id ng)
  set_username-Keeps ng = search (keeping, respects.image_username, node_group_update-Keeps)

  pub prepare-Keeps : Keeps id (prepare_provisioning env id)
  unfolding prepare_provisioning
  prepare-Keeps = search (keeping, each-Keeps, set_username-Keeps, setup_trust-Keeps) depth 12

  -- The plugin is the one that was looked up.
  pub prepare-PluginKeeps :
      (p : Plugin) (w : World) → (prepare_provisioning env id w).0 ≡ ok p → PluginKeeps id p
  unfolding prepare_provisioning
  prepare-PluginKeeps p w h =
      let returned = ap (λ (r : Result Plugin). (r, (prepare_provisioning env id w).1)) h in
      let (cluster, w₁, e₁, r₁) = bind_inv (cluster_get id) _ w returned in
      let (c, w₂, e₂, r₂) = bind_inv (expect cluster Error.attribute_error) _ w₁ r₁ in
      let (plugin, w₃, found, r₃) = bind_inv (lift (env.get_plugin c.plugin_name)) _ w₂ r₂ in
      let (x, w₄, e₄, r₄) = bind_inv (each (set_username env id) c.node_groups) _ w₃ r₃ in
      let (y, w₅, e₅, r₅) = bind_inv (setup_trust_for_cluster env id) _ w₄ r₄ in
      respects.plugins c.plugin_name p
        (ap (λ (q : Result Plugin × World). q.0) found ∙ ap (λ (q : Result Plugin × World). q.0) r₅)

  pub run_jobs_for-Keeps : (c : Option Cluster) → Keeps id (run_jobs_for env id c)
  run_jobs_for-Keeps none = raise-Keeps id Error.attribute_error
  run_jobs_for-Keeps (some c) = respects.run_jobs

  pub validate_verification_start-Keeps :
      (enabled : Bool) → Keeps id (validate_verification_start enabled id)
  unfolding validate_verification_start
  validate_verification_start-Keeps enabled = search keeping

  pub verification_run-Keeps : Keeps id (verification_run env.health_checks id)
  unfolding verification_run
  verification_run-Keeps = search (keeping, respects.health_checks) depth 8

  pub run_for-Keeps : (c : Option Cluster) → Keeps id (run_for env.health_checks id c)
  run_for-Keeps none = raise-Keeps id Error.attribute_error
  run_for-Keeps (some c) = verification_run-Keeps

  pub handle_verification-Keeps : Keeps id (handle_verification env.health_checks id)
  unfolding handle_verification
  handle_verification-Keeps = search (keeping, run_for-Keeps)

  pub drop_verification-Keeps : (c : Option Cluster) → Keeps id (drop_verification c id)
  drop_verification-Keeps none = pure-Keeps id tt
  drop_verification-Keeps (some c) = search keeping

  pub clean-Keeps : Keeps id (clean_verification_data id)
  unfolding clean_verification_data
  clean-Keeps = search (keeping, drop_verification-Keeps)

  pub refresh_handler-Keeps :
      (p : Result (Unit {0}) × World)
      → IsFinal (p.1.rows id)
      → IsFinal ((refresh_handler id p).1.rows id)
  unfolding Keeps
  refresh_handler-Keeps (ok x, w) h = h
  refresh_handler-Keeps (err Error.cannot_verify, w) h = h
  refresh_handler-Keeps (err e, w) h = clean-Keeps w h

  pub start-Keeps : Keeps id (
      validate_verification_start env.verification_enable id
      >> handle_verification env.health_checks id)
  start-Keeps =
      bind-Keeps id _ _ (validate_verification_start-Keeps env.verification_enable)
        (λ _. handle_verification-Keeps)

  pub refresh-Keeps : Keeps id (refresh_health env.verification_enable env.health_checks id)
  unfolding refresh_health Keeps
  refresh-Keeps w h =
      refresh_handler-Keeps
        ((validate_verification_start env.verification_enable id
            >> handle_verification env.health_checks id)
          w)
        (start-Keeps w h)
