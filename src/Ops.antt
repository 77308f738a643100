-- ===== src/Ops.antt =====
-- The operations on a whole cluster that run in the background (sahara/service/ops.py), with the
-- trusts they use (sahara/service/trusts.py). The infrastructure engine, the plugin and the services
-- that they call are parameters: any operations on the same world.
pub mod Handler
pub mod Deletion
pub mod Respect
pub mod Final
pub mod Surplus
pub mod Outcomes
mod Tests
use sahara.Base.{
  ℕ, zero, suc, ◌+◌, ◌-◌, Bool, true, false, not, ◌&&◌, Option, none, some, String, List, [], ◌∷◌,
  ◌++◌, Result, ok, err, Error, if◌then◌else◌, ◌==◌, ltb, is_some, is_empty,
}
use sahara.Base.Dict.{Dict, lookup}
use sahara.Objects.{ClusterStatus, HealthStatus, Cluster, NodeGroup, Instance, is_deleting, truthy}
use sahara.Conductor.{
  World, Op, pure, raise, expect, lift, ◌>>=◌, ◌>>◌, each, cluster_get, cluster_update,
  cluster_destroy, node_group_update,
}
use sahara.Status.{change_cluster_status, change_cluster_status_description, get_instances}
use sahara.Health.{refresh_health}

-- `INFRA`: the abstract methods of `Engine` (sahara/service/engine.py). A cluster that is passed on
-- may be None.
pub record Infra : Type 0 where
  pub create_cluster : Option Cluster → Op (Unit {0})
  pub scale_cluster : Option Cluster → Dict ℕ → Op (List String)
  pub shutdown_cluster : Option Cluster → Op (Unit {0})
  pub rollback_cluster : Option Cluster → Error → Op Bool
  pub get_node_group_image_username : NodeGroup → Op String
  pub type_and_version : String

-- The plugin's methods that take part in the operations.
pub record Plugin : Type 0 where
  pub update_infra : Option Cluster → Op (Unit {0})
  pub configure_cluster : Option Cluster → Op (Unit {0})
  pub start_cluster : Option Cluster → Op (Unit {0})
  pub decommission_nodes : Option Cluster → List Instance → Op (Unit {0})
  pub scale_cluster : Option Cluster → List Instance → Op (Unit {0})
  pub on_terminate_cluster : Option Cluster → Op (Unit {0})

pub record Env : Type 0 where
  pub infra : Infra
  pub get_plugin : String → Result Plugin
  -- CONF.use_identity_api_v3, CONF.disable_event_log, CONF.cluster_verifications.verification_enable
  pub use_identity_api_v3 : Bool
  pub disable_event_log : Bool
  pub verification_enable : Bool
  -- keystone
  pub create_trust : Op String
  pub delete_trust : String → Op (Unit {0})
  pub use_admin_token : Op (Unit {0})
  -- shares, NTP, jobs and health checks
  pub mount_shares : Option Cluster → Op (Unit {0})
  pub configure_ntp : String → Op (Unit {0})
  pub run_jobs : String → Op (Unit {0})
  pub update_job_statuses : String → Op (Unit {0})
  pub health_checks : Op (List HealthStatus)

-- The id by which a cluster that may be None is looked up.
abbrev pub handle : String → Option Cluster → Option String
handle id none = none
handle id (some c) = some id

-- `instances[start:stop]`
unfoldable pub slice : List Instance → ℕ → ℕ → List Instance
slice [] start stop = []
slice (i ∷ is) start zero = []
slice (i ∷ is) zero (suc stop) = i ∷ slice is zero stop
slice (i ∷ is) (suc start) (suc stop) = slice is start stop

-- The loop that collects `instances_to_delete`; a node group that the map lacks is a KeyError.
unfoldable pub surplus : Dict ℕ → List NodeGroup → Result (List Instance)
unfolding slice
surplus m [] = ok []
surplus m (ng ∷ ngs) =
    let rest = surplus m ngs in
    elim (lookup ng.id m) [
      | none ↦ err Error.key_error
      | some new_count ↦ elim rest [
        | err e ↦ err e
        | ok is ↦
            ok
              ((if ltb new_count ng.count then slice ng.instances new_count ng.count else []) ++ is)
      ]
    ]

abbrev is_gone_or_deleting : Option Cluster → Bool
is_gone_or_deleting none = true
is_gone_or_deleting (some c) = is_deleting c.status

-- The body of the wrapper's `try`: the description is cleared first.
abbrev pub attempted : (String → Op (Unit {0})) → String → Op (Unit {0})
attempted f id = change_cluster_status_description (some id) "" >> f id

module _ (env : Env) where
  open env use {infra}

  -- `cluster.trust_id`, after a lookup that may find nothing.
  abbrev create_trust_if_none : Option Cluster → String → Op (Unit {0})
  create_trust_if_none none id =
      if env.use_identity_api_v3 then raise Error.attribute_error else pure tt
  create_trust_if_none (some c) id =
      if env.use_identity_api_v3 && not (truthy c.trust_id)
      then (do
        trust_id ← env.create_trust
        cluster_update id (λ c. record c { trust_id = some trust_id })
        pure tt)
      else pure tt

  unfoldable pub create_trust_for_cluster : String → Op (Unit {0})
  create_trust_for_cluster id = do cluster ← cluster_get id; create_trust_if_none cluster id

  abbrev use_token_if_trusted : Option Cluster → Op (Unit {0})
  use_token_if_trusted none =
      if env.use_identity_api_v3 then raise Error.attribute_error else pure tt
  use_token_if_trusted (some c) =
      if env.use_identity_api_v3 && truthy c.trust_id then env.use_admin_token else pure tt

  unfoldable pub use_os_admin_auth_token : String → Op (Unit {0})
  use_os_admin_auth_token id = do cluster ← cluster_get id; use_token_if_trusted cluster

  abbrev drop_trust : Option String → String → Op (Unit {0})
  drop_trust none id = pure tt
  drop_trust (some trust_id) id =
      if env.use_identity_api_v3 && truthy (some trust_id)
      then (do
        env.delete_trust trust_id
        cluster_update id (λ c. record c { trust_id = none })
        pure tt)
      else pure tt

  abbrev delete_trust_if_any : Option Cluster → String → Op (Unit {0})
  delete_trust_if_any none id =
      if env.use_identity_api_v3 then raise Error.attribute_error else pure tt
  delete_trust_if_any (some c) id = drop_trust c.trust_id id

  unfoldable pub delete_trust_from_cluster : String → Op (Unit {0})
  delete_trust_from_cluster id = do cluster ← cluster_get id; delete_trust_if_any cluster id

  unfoldable pub setup_trust_for_cluster : String → Op (Unit {0})
  setup_trust_for_cluster id = do create_trust_for_cluster id; use_os_admin_auth_token id

  unfoldable pub rollback_cluster : Option Cluster → String → Error → Op Bool
  rollback_cluster cluster id reason = do
    setup_trust_for_cluster id
    infra.rollback_cluster cluster reason

  abbrev pub change_status : Option String → ClusterStatus → Option String → Op (Option Cluster)
  change_status = change_cluster_status env.disable_event_log

  -- The inner `try` of `ops_error_handler`: Active after a rollback, and Error without one.
  unfoldable pub try_rollback :
      (List Error → String) → Option Cluster → String → Error → Op (Unit {0})
  try_rollback description cluster id ex = do
    done ← rollback_cluster cluster id ex
    change_status (some id) (if done then ClusterStatus.active else ClusterStatus.error)
        (some (description (ex ∷ [])))
    pure tt

  -- Its `except`: the rollback failed with `rex`.
  abbrev after_rollback :
      (List Error → String) → String → Error → Result (Unit {0}) × World → Result (Unit {0}) × World
  after_rollback description id ex (ok x, w) = (ok tt, w)
  after_rollback description id ex (err rex, w) =
      if is_gone_or_deleting (w.rows id)
      then (ok tt, w)
      else (do
        change_status (some id) ClusterStatus.error (some (description (ex ∷ rex ∷ [])))
        pure tt)
          w

  -- The outer `except` of `ops_error_handler`.
  abbrev recover :
      (List Error → String) → String → Result (Unit {0}) × World → Result (Unit {0}) × World
  recover description id (ok x, w) = (ok tt, w)
  recover description id (err ex, w) =
      if is_gone_or_deleting (w.rows id)
      then (ok tt, w)
      else after_rollback description id ex (try_rollback description (w.rows id) id ex w)

  -- The decorator. `description` is its text, filled in with the exceptions.
  unfoldable pub ops_error_handler :
      (List Error → String) → (String → Op (Unit {0})) → String → Op (Unit {0})
  ops_error_handler description f id w = recover description id (attempted f id w)

  -- The loop of `_prepare_provisioning` over the node groups.
  abbrev set_username : String → NodeGroup → Op (Unit {0})
  set_username id ng = do
    username ← infra.get_node_group_image_username ng
    node_group_update id ng.id (λ g. record g { image_username = some username })

  -- The plugin; the cluster is read again by the caller.
  unfoldable pub prepare_provisioning : String → Op Plugin
  prepare_provisioning id = do
    cluster ← cluster_get id
    c ← expect cluster Error.attribute_error
    plugin ← lift (env.get_plugin c.plugin_name)
    each (set_username id) c.node_groups
    setup_trust_for_cluster id
    pure plugin

  -- `_update_sahara_info`
  abbrev update_sahara_info : String → Op (Unit {0})
  update_sahara_info id =
      cluster_update id (λ c. record c { sahara_info = some (some infra.type_and_version) })
      >> pure tt

  -- `c_u.change_cluster_status(cluster, ...)` of the cluster read last.
  abbrev pub next_status : String → Option Cluster → ClusterStatus → Op (Option Cluster)
  next_status id cluster status = change_status (handle id cluster) status none

  -- `cluster.id` of a cluster that may be None.
  abbrev run_jobs_for : String → Option Cluster → Op (Unit {0})
  run_jobs_for id none = raise Error.attribute_error
  run_jobs_for id (some c) = env.run_jobs id

  -- The body of `_provision_cluster`.
  unfoldable pub provision_body : String → Op (Unit {0})
  provision_body id = do
    plugin ← prepare_provisioning id
    update_sahara_info id
    updating ← change_status (some id) ClusterStatus.infra_updating none
    plugin.update_infra updating
    cluster ← cluster_get id
    infra.create_cluster cluster
    configuring ← next_status id cluster ClusterStatus.configuring
    env.mount_shares configuring
    plugin.configure_cluster configuring
    env.configure_ntp id
    starting ← next_status id configuring ClusterStatus.starting
    plugin.start_cluster starting
    active ← next_status id starting ClusterStatus.active
    run_jobs_for id active
    refresh_health env.verification_enable env.health_checks id

  abbrev decommission : Plugin → Option Cluster → List Instance → Op (Unit {0})
  decommission plugin cluster instances =
      if is_empty instances then pure tt else plugin.decommission_nodes cluster instances

  -- `cluster.node_groups` of a cluster that may be None.
  abbrev groups_of : Option Cluster → Op (List NodeGroup)
  groups_of none = raise Error.attribute_error
  groups_of (some c) = pure c.node_groups

  -- The new nodes are set up; with none the cluster stays as it was read.
  abbrev set_up : Plugin → String → Option Cluster → List String → Op (Option Cluster)
  set_up plugin id cluster [] = pure cluster
  set_up plugin id cluster (i ∷ is) = do
    env.configure_ntp id
    configuring ← next_status id cluster ClusterStatus.configuring
    node_groups ← groups_of configuring
    instances ← lift (get_instances node_groups (some (i ∷ is)))
    plugin.scale_cluster configuring instances
    pure configuring

  -- The body of `_provision_scaled_cluster`.
  unfoldable pub scale_body : Dict ℕ → String → Op (Unit {0})
  scale_body node_group_id_map id = do
    plugin ← prepare_provisioning id
    decommissioning ← change_status (some id) ClusterStatus.decommissioning none
    node_groups ← groups_of decommissioning
    instances ← lift (surplus node_group_id_map node_groups)
    decommission plugin decommissioning instances
    scaling ← next_status id decommissioning ClusterStatus.scaling
    instance_ids ← infra.scale_cluster scaling node_group_id_map
    last ← set_up plugin id scaling instance_ids
    next_status id last ClusterStatus.active
    refresh_health env.verification_enable env.health_checks id

  -- The body of `terminate_cluster`.
  unfoldable pub terminate_body : String → Op (Unit {0})
  terminate_body id = do
    setup_trust_for_cluster id
    env.update_job_statuses id
    cluster ← cluster_get id
    c ← expect cluster Error.attribute_error
    plugin ← lift (env.get_plugin c.plugin_name)
    plugin.on_terminate_cluster (some c)
    infra.shutdown_cluster (some c)
    delete_trust_from_cluster id
    cluster_destroy id

  -- The decorated operations; their descriptions are texts that hold the reasons.
  module _ (description : List Error → String) where
    unfoldable pub provision_cluster : String → Op (Unit {0})
    unfolding ops_error_handler
    provision_cluster = ops_error_handler description provision_body

    unfoldable pub provision_scaled_cluster : Dict ℕ → String → Op (Unit {0})
    unfolding ops_error_handler
    provision_scaled_cluster m = ops_error_handler description (scale_body m)

    unfoldable pub terminate_cluster : String → Op (Unit {0})
    unfolding ops_error_handler
    terminate_cluster = ops_error_handler description terminate_body
