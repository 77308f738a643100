-- ===== src/Api.antt =====
-- The entry points for clusters (sahara/service/api.py), on top of the operations that run in the
-- background. The plugin's recommendations and validations are parameters.
pub mod Coverage
pub mod Termination
pub mod Creation
pub mod Tests
use sahara.Base.{
  ℕ, Bool, true, false, Option, none, some, String, List, [], ◌∷◌, ◌++◌, Result, ok, err, Error,
  if◌then◌else◌, str_eq,
}
use sahara.Base.Dict.{Dict, lookup, insert, update, contains}
use sahara.Objects.{ClusterStatus, Cluster, NodeGroup}
use sahara.Conductor.{
  World, Op, pure, raise, expect, lift, ◌>>=◌, ◌>>◌, each, set_row, cluster_get, node_group_update,
}
use sahara.Status.{change_cluster_status, clean_cluster_from_empty_ng, status_notify}
use sahara.Quotas.{Config, Clients, check_scaling, check_cluster}

pub record ApiPlugin : Type 0 where
  pub get_open_ports : NodeGroup → List ℕ
  pub recommend_configs : Cluster → Op (Unit {0})
  pub validate_scaling : Cluster → Dict ℕ → Dict ℕ → Op (Unit {0})
  pub validate : Cluster → Op (Unit {0})

pub record ApiEnv : Type 0 where
  pub disable_event_log : Bool
  pub get_plugin : String → Option ApiPlugin
  pub quota_config : Config
  pub clients : Clients
  -- the id of a new node group
  pub new_id : Op String
  -- the row of a new cluster, from the request and its templates, with its announcement
  pub new_cluster : Op Cluster
  -- OPS
  pub provision_cluster : String → Op (Unit {0})
  pub provision_scaled_cluster : String → Dict ℕ → Op (Unit {0})
  pub terminate_cluster : String → Op (Unit {0})

-- A new count for a node group, by its name.
pub record Resize : Type 0 where
  pub name : String
  pub count : ℕ

-- `g.find(cluster.node_groups, name=...)`
pub find_by_name : String → List NodeGroup → Option NodeGroup
find_by_name name [] = none
find_by_name name (ng ∷ ngs) = if str_eq ng.name name then some ng else find_by_name name ngs

-- The first loop of `scale_cluster`; a name that is missing is a TypeError.
pub enlarge : List NodeGroup → Dict ℕ → List Resize → Result (Dict ℕ)
unfolding find_by_name
enlarge ngs m [] = ok m
enlarge ngs m (r ∷ rs) = elim (find_by_name r.name ngs) [
  | none ↦ err Error.type_error
  | some ng ↦ enlarge ngs (insert ng.id r.count m) rs
]

-- The last loop of `scale_cluster`: a node group that is not in the map keeps its count.
pub complete : Dict ℕ → List NodeGroup → Dict ℕ
complete m [] = m
complete m (ng ∷ ngs) = complete (if contains ng.id m then m else insert ng.id ng.count m) ngs

abbrev pub add_group : String → NodeGroup → World → Option Cluster → Result (Unit {0}) × World
add_group id ng w none = (err Error.not_found, w)
add_group id ng w (some c) = (
  ok tt,
  record w {
    rows = set_row id (some (record c { node_groups = c.node_groups ++ ng ∷ [] })) w.rows;
  },
)

-- `conductor.node_group_add`
unfoldable pub node_group_add : String → NodeGroup → Op (Unit {0})
node_group_add id ng w = add_group id ng w (w.rows id)

module _ (env : ApiEnv) where
  -- The node groups are added with no instances; their counts are in the map.
  unfoldable pub construct_ngs_for_scaling : String → Dict ℕ → List NodeGroup → Op (Dict ℕ)
  unfolding node_group_add
  construct_ngs_for_scaling id m [] = pure m
  construct_ngs_for_scaling id m (ng ∷ ngs) = do
    ng_id ← env.new_id
    node_group_add id (record ng { id = ng_id; count = 0; instances = [] })
    construct_ngs_for_scaling id (insert ng_id ng.count m) ngs

  abbrev add_ports : Option ApiPlugin → String → NodeGroup → Op (Unit {0})
  add_ports plugin id ng =
      if ng.auto_security_group
      then (do
        p ← expect plugin Error.attribute_error
        node_group_update id ng.id (λ g. record g { open_ports = p.get_open_ports ng }))
      else pure tt

  unfoldable pub add_ports_for_auto_sg : Option ApiPlugin → String → Cluster → Op (Unit {0})
  add_ports_for_auto_sg plugin id c = each (add_ports plugin id) c.node_groups

  -- The `try` of `scale_cluster`, after the change of status.
  unfoldable pub validate_scaling : Option ApiPlugin → Dict ℕ → Dict ℕ → Cluster → Op Cluster
  validate_scaling plugin enlarged additional c = do
    lift (check_scaling env.quota_config env.clients c.node_groups enlarged additional)
    p ← expect plugin Error.attribute_error
    p.recommend_configs c
    p.validate_scaling c enlarged additional
    pure c

  -- Its `except`: the node groups with no instances go, the cluster is Active again, and the
  -- exception is raised on.
  abbrev restore : (Error → String) → String → Cluster → Error → Op Cluster
  restore text id c e = do
    clean_cluster_from_empty_ng id c.node_groups
    change_cluster_status env.disable_event_log (some id) ClusterStatus.active (some (text e))
    raise e

  abbrev or_restore :
      (Error → String) → String → Cluster → Result Cluster × World → Result Cluster × World
  or_restore text id old (ok c, w) = (ok c, w)
  or_restore text id old (err e, w) = restore text id old e w

  -- A cluster that is gone by then is None, and its node groups are an AttributeError, in the `try`
  -- and in the `except`.
  abbrev after_validating :
      (Error → String)
      → Option ApiPlugin
      → String
      → Dict ℕ
      → Dict ℕ
      → Cluster
      → Result (Option Cluster) × World
      → Result Cluster × World
  after_validating text plugin id enlarged additional old (err e, w) = restore text id old e w
  after_validating text plugin id enlarged additional old (ok none, w) =
      (err Error.attribute_error, w)
  after_validating text plugin id enlarged additional old (ok (some c), w) =
      or_restore text id c (validate_scaling plugin enlarged additional c w)

  unfoldable pub try_scaling :
      (Error → String) → Option ApiPlugin → String → Dict ℕ → Dict ℕ → Cluster → Op Cluster
  unfolding validate_scaling
  try_scaling text plugin id enlarged additional c w =
      after_validating text plugin id enlarged additional c
        (change_cluster_status env.disable_event_log (some id) ClusterStatus.validating none w)

  -- `scale_cluster` up to its last loop: the cluster, and what each of its node groups is to count.
  -- `text` is the text of an exception.
  unfoldable pub plan_scaling :
      (Error → String) → String → List Resize → List NodeGroup → Op (Cluster × Dict ℕ)
  unfolding enlarge complete construct_ngs_for_scaling add_ports_for_auto_sg try_scaling
  plan_scaling text id resize_node_groups add_node_groups = do
    found ← cluster_get id
    old ← expect found Error.attribute_error
    enlarged ← lift (enlarge old.node_groups [] resize_node_groups)
    additional ← construct_ngs_for_scaling id [] add_node_groups
    again ← cluster_get id
    c ← expect again Error.attribute_error
    add_ports_for_auto_sg (env.get_plugin old.plugin_name) id c
    cluster ← try_scaling text (env.get_plugin old.plugin_name) id enlarged additional c
    pure (cluster, complete (update enlarged additional) cluster.node_groups)

  abbrev start_scaling : String → Cluster × Dict ℕ → Op Cluster
  start_scaling id (c, m) = env.provision_scaled_cluster id m >> pure c

  unfoldable pub scale_cluster :
      (Error → String) → String → List Resize → List NodeGroup → Op Cluster
  unfolding plan_scaling
  scale_cluster text id resize_node_groups add_node_groups = do
    plan ← plan_scaling text id resize_node_groups add_node_groups
    start_scaling id plan

  -- The `try` of `_cluster_create`.
  unfoldable pub validate_cluster : Option ApiPlugin → String → Cluster → Op Cluster
  validate_cluster plugin id c = do
    p ← expect plugin Error.attribute_error
    p.recommend_configs c
    validating ← change_cluster_status env.disable_event_log (some id) ClusterStatus.validating none
    v ← expect validating Error.attribute_error
    lift (check_cluster env.quota_config env.clients v.node_groups)
    p.validate v
    pure v

  -- Its `except`: the cluster is in Error, and the exception is raised on.
  abbrev pub spoil : (Error → String) → String → Error → Op Cluster
  spoil text id e = do
    change_cluster_status env.disable_event_log (some id) ClusterStatus.error (some (text e))
    raise e

  abbrev pub or_spoil : (Error → String) → String → Result Cluster × World → Result Cluster × World
  or_spoil text id (ok c, w) = (ok c, w)
  or_spoil text id (err e, w) = spoil text id e w

  unfoldable pub try_creation : (Error → String) → Option ApiPlugin → String → Cluster → Op Cluster
  unfolding validate_cluster
  try_creation text plugin id c w = or_spoil text id (validate_cluster plugin id c w)

  -- `create_cluster` with `_cluster_create`.
  unfoldable pub create_cluster : (Error → String) → String → Op Cluster
  unfolding add_ports_for_auto_sg try_creation
  create_cluster text plugin_name = do
    c ← env.new_cluster
    add_ports_for_auto_sg (env.get_plugin plugin_name) c.id c
    cluster ← try_creation text (env.get_plugin plugin_name) c.id c
    env.provision_cluster cluster.id
    pure cluster

  abbrev pub terminate_if : String → Option Cluster → Op (Unit {0})
  terminate_if id none = pure tt
  terminate_if id (some c) = do env.terminate_cluster id; status_notify c.id c.status

  unfoldable pub terminate_cluster : String → Op (Unit {0})
  terminate_cluster id = do
    cluster ← change_cluster_status env.disable_event_log (some id) ClusterStatus.deleting none
    terminate_if id cluster
