-- ===== src/Ops/Final.antt =====
-- The three operations on a cluster that is being deleted, or gone.
use sahara.Base.{
  Bool-cases, inl, inr, Option, none, some, String, List, [], ◌∷◌, Result, ok, err, Error, ℕ,
}
use sahara.Base.Dict.{Dict}
use sahara.Objects.{ClusterStatus, Cluster}
use sahara.Conductor.{World, Op, ◌>>=◌, ◌>>◌, pure, lift, cluster_get, cluster_destroy}
use sahara.Status.Laws.{IsFinal}
use sahara.Health.{refresh_health}
use sahara.Ops.Deletion.{
  Keeps, bind-Keeps, bind_result-Keeps, pure-Keeps, raise_list-Keeps, cluster_get-Keeps, lift-Keeps,
  expect-Keeps, cluster_destroy-Keeps, description-Keeps,
}
use sahara.Ops.{
  Env, Plugin, delete_trust_from_cluster, delete_trust_if_any, drop_trust, rollback_cluster,
  attempted, ops_error_handler, recover, after_rollback, try_rollback, is_gone_or_deleting,
  update_sahara_info, change_status, next_status, run_jobs_for, provision_body, surplus,
  decommission, groups_of, set_up, scale_body, terminate_body, provision_cluster,
  provision_scaled_cluster, terminate_cluster,
}
use sahara.Ops.Respect.{
  PluginKeeps, RespectsDeletion, keeping, setup_trust-Keeps, prepare-Keeps, prepare-PluginKeeps,
  run_jobs_for-Keeps, refresh-Keeps,
}

module _ (env : Env) (id : String) (respects : RespectsDeletion env id) where
  provision_rest-Keeps :
      (p : Plugin)
      → PluginKeeps id p
      → Keeps id (do
        update_sahara_info env id
        updating ← change_status env (some id) ClusterStatus.infra_updating none
        p.update_infra updating
        cluster ← cluster_get id
        env.infra.create_cluster cluster
        configuring ← next_status env id cluster ClusterStatus.configuring
        env.mount_shares configuring
        p.configure_cluster configuring
        env.configure_ntp id
        starting ← next_status env id configuring ClusterStatus.starting
        p.start_cluster starting
        active ← next_status env id starting ClusterStatus.active
        run_jobs_for env id active
        refresh_health env.verification_enable env.health_checks id)
  provision_rest-Keeps p k =
      search
        (
          keeping,
          k.update_infra,
          respects.create_cluster,
          respects.mount_shares,
          k.configure_cluster,
          respects.configure_ntp,
          k.start_cluster,
          (run_jobs_for-Keeps env id respects),
          (refresh-Keeps env id respects),
        )
        depth 40

  provision_body-Keeps : Keeps id (provision_body env id)
  unfolding provision_body
  provision_body-Keeps =
      bind_result-Keeps id _ _ (prepare-Keeps env id respects)
        (λ p w e. provision_rest-Keeps p ((prepare-PluginKeeps env id respects) p w e))

  groups_of-Keeps : (c : Option Cluster) → Keeps id (groups_of env c)
  groups_of-Keeps none = raise_list-Keeps id Error.attribute_error
  groups_of-Keeps (some c) = pure-Keeps id c.node_groups

  set_up-Keeps :
      (p : Plugin)
      → PluginKeeps id p
      → (cluster : Option Cluster) (ids : List String) → Keeps id (set_up env p id cluster ids)
  set_up-Keeps p k cluster [] = pure-Keeps id cluster
  set_up-Keeps p k cluster (i ∷ is) =
      search (keeping, respects.configure_ntp, groups_of-Keeps, k.scale_cluster) depth 16

  scale_rest-Keeps :
      (m : Dict ℕ) (p : Plugin)
      → PluginKeeps id p
      → Keeps id (do
        decommissioning ← change_status env (some id) ClusterStatus.decommissioning none
        node_groups ← groups_of env decommissioning
        instances ← lift (surplus m node_groups)
        decommission env p decommissioning instances
        scaling ← next_status env id decommissioning ClusterStatus.scaling
        instance_ids ← env.infra.scale_cluster scaling m
        last ← set_up env p id scaling instance_ids
        next_status env id last ClusterStatus.active
        refresh_health env.verification_enable env.health_checks id)
  scale_rest-Keeps m p k =
      search
        (
          keeping,
          groups_of-Keeps,
          k.decommission_nodes,
          respects.scale_cluster,
          set_up-Keeps p k,
          (refresh-Keeps env id respects),
        )
        depth 40

  scale_body-Keeps : (m : Dict ℕ) → Keeps id (scale_body env m id)
  unfolding scale_body
  scale_body-Keeps m =
      bind_result-Keeps id _ _ (prepare-Keeps env id respects)
        (λ p w e. scale_rest-Keeps m p ((prepare-PluginKeeps env id respects) p w e))

  drop_trust-Keeps : (t : Option String) → Keeps id (drop_trust env t id)
  drop_trust-Keeps none = pure-Keeps id tt
  drop_trust-Keeps (some t) = search (keeping, respects.delete_trust) depth 8

  delete_trust-Keeps : (c : Option Cluster) → Keeps id (delete_trust_if_any env c id)
  delete_trust-Keeps none = search keeping
  delete_trust-Keeps (some c) = drop_trust-Keeps c.trust_id

  terminate_body-Keeps : Keeps id (terminate_body env id)
  unfolding terminate_body delete_trust_from_cluster
  terminate_body-Keeps = bind-Keeps id _ _ (setup_trust-Keeps env id respects) (λ _.
      bind-Keeps id _ _ respects.update_job_statuses (λ _.
        bind-Keeps id _ _ (cluster_get-Keeps id) (λ cluster.
          bind-Keeps id _ _ (expect-Keeps id cluster Error.attribute_error) (λ c.
            bind_result-Keeps id _ _ (lift-Keeps id (env.get_plugin c.plugin_name))
              (λ p w found. shut_down c p (respects.plugins c.plugin_name p found))))))
    where
      shut_down :
          (c : Cluster) (p : Plugin)
          → PluginKeeps id p
          → Keeps id (do
            p.on_terminate_cluster (some c)
            env.infra.shutdown_cluster (some c)
            delete_trust_from_cluster env id
            cluster_destroy id)
      shut_down c p k =
          search
            (
              keeping, k.on_terminate_cluster, respects.shutdown_cluster, delete_trust-Keeps,
              cluster_destroy-Keeps,
            )
            depth 16

  -- The handler around them.
  try_rollback-Keeps :
      (description : List Error → String) (c : Option Cluster) (ex : Error)
      → Keeps id (try_rollback env description c id ex)
  unfolding try_rollback rollback_cluster
  try_rollback-Keeps description c ex =
      search (keeping, (setup_trust-Keeps env id respects), respects.rollback) depth 12

  attempted-Keeps : (f : String → Op (Unit {0})) → Keeps id (f id) → Keeps id (attempted f id)
  attempted-Keeps f k = bind-Keeps id _ _ (description-Keeps id "") (λ _. k)

  mark_error-Keeps :
      (text : String)
      → Keeps id (change_status env (some id) ClusterStatus.error (some text) >> pure tt)
  mark_error-Keeps text = search keeping

  after_rollback-Keeps :
      (description : List Error → String) (ex : Error) (p : Result (Unit {0}) × World)
      → IsFinal (p.1.rows id)
      → IsFinal ((after_rollback env description id ex p).1.rows id)
  unfolding Keeps
  after_rollback-Keeps description ex (ok x, w) h = h
  after_rollback-Keeps description ex (err rex, w) h =
      elim (Bool-cases (is_gone_or_deleting (w.rows id))) [
        | inl gone ↦ rw gone h
        | inr there ↦ rw there (mark_error-Keeps (description (ex ∷ rex ∷ [])) w h)
      ]

  recover-Keeps :
      (description : List Error → String) (p : Result (Unit {0}) × World)
      → IsFinal (p.1.rows id)
      → IsFinal ((recover env description id p).1.rows id)
  unfolding Keeps
  recover-Keeps description (ok x, w) h = h
  recover-Keeps description (err ex, w) h = elim (Bool-cases (is_gone_or_deleting (w.rows id))) [
    | inl gone ↦ rw gone h
    | inr there ↦ rw there (
        after_rollback-Keeps description ex (try_rollback env description (w.rows id) id ex w)
          (try_rollback-Keeps description (w.rows id) ex w h))
  ]

  handler-Keeps :
      (description : List Error → String) (f : String → Op (Unit {0}))
      → Keeps id (f id)
      → Keeps id (ops_error_handler env description f id)
  unfolding ops_error_handler Keeps
  handler-Keeps description f k w h =
      recover-Keeps description (attempted f id w) (attempted-Keeps f k w h)

-- Deletion is final: where the engine, the plugin and the services respect it, no operation brings
-- a cluster back that is gone or being deleted, whether it succeeds, fails or rolls back.
pub deletion_final :
    (env : Env) (id : String) (description : List Error → String) (m : Dict ℕ)
    → RespectsDeletion env id
    → Keeps id (provision_cluster env description id)
      × Keeps id (provision_scaled_cluster env description m id)
      × Keeps id (terminate_cluster env description id)
unfolding provision_cluster provision_scaled_cluster terminate_cluster
deletion_final env id description m respects = (
  handler-Keeps env id respects description (provision_body env)
      (provision_body-Keeps env id respects),
  handler-Keeps env id respects description (scale_body env m) (scale_body-Keeps env id respects m),
  handler-Keeps env id respects description (terminate_body env)
      (terminate_body-Keeps env id respects),
)
