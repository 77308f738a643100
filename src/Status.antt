-- ===== src/Status.antt =====
-- The status of a cluster and the helpers around it (sahara/utils/cluster.py). A cluster that is
-- passed on is its id, or none for None.
pub mod Laws
pub mod Tests
use sahara.Base.{
  ℕ, zero, suc, ◌+◌, Bool, true, false, Option, none, some, String, List, [], ◌∷◌, ◌++◌, Result, ok,
  err, Error, if◌then◌else◌, ◌==◌, str_eq, is_some,
}
use sahara.Base.Dict.{Dict, lookup, insert}
use sahara.Objects.{ClusterStatus, Cluster, NodeGroup, Instance, is_deleting}
use sahara.Conductor.{
  World, Op, pure, raise, ◌>>=◌, ◌>>◌, each, set_row, cluster_get, cluster_update,
  cluster_provision_progress_update,
}

-- `except NotFoundException: return None`
abbrev found_or_none : Result Cluster × World → Result (Option Cluster) × World
found_or_none (ok c, w) = (ok (some c), w)
found_or_none (err Error.not_found, w) = (ok none, w)
found_or_none (err e, w) = (err e, w)

abbrev describe : String → Cluster → Cluster
describe description c = record c { status_description = description }

-- An update of a cluster that is None finds no row.
unfoldable pub change_cluster_status_description : Option String → String → Op (Option Cluster)
change_cluster_status_description none description w = (ok none, w)
change_cluster_status_description (some id) description w =
    found_or_none (cluster_update id (describe description) w)

-- `sender.status_notify`
abbrev pub status_notify : String → ClusterStatus → Op (Unit {0})
status_notify id status w = (ok tt, record w { notified = w.notified ++ (id, status) ∷ [] })

-- `conductor.cluster_get(ctx, cluster) if cluster else None`
abbrev get_if : Option String → Op (Option Cluster)
get_if none = pure none
get_if (some id) = cluster_get id

abbrev pub to_status : ClusterStatus → Cluster → Cluster
to_status status c = record c { status = status }

-- The status is written, the progress brought up to date, and the change announced.
unfoldable pub write_status : Bool → String → ClusterStatus → Op (Option Cluster)
write_status disable_event_log id status = do
  c ← cluster_update id (to_status status)
  cluster_provision_progress_update disable_event_log id
  status_notify id c.status
  pure (some c)

abbrev describe_if : Option String → Option Cluster → Option String → Op (Unit {0})
describe_if cluster row none = pure tt
describe_if cluster none (some description) =
    change_cluster_status_description none description >> pure tt
describe_if cluster (some c) (some description) =
    change_cluster_status_description cluster description >> pure tt

abbrev write_unless_final :
    Bool → Option String → Option Cluster → ClusterStatus → Op (Option Cluster)
write_unless_final disable_event_log none row status = pure row
write_unless_final disable_event_log (some id) none status = pure none
write_unless_final disable_event_log (some id) (some c) status =
    if is_deleting c.status then pure (some c) else write_status disable_event_log id status

-- 'Deleting' is final and can't be changed. The last argument is `status_description`.
unfoldable pub change_cluster_status :
    Bool → Option String → ClusterStatus → Option String → Op (Option Cluster)
unfolding change_cluster_status_description write_status
change_cluster_status disable_event_log cluster status description = do
  row ← get_if cluster
  describe_if cluster row description
  write_unless_final disable_event_log cluster row status

unfoldable pub check_cluster_exists : String → Op Bool
check_cluster_exists id = do cluster ← cluster_get id; pure (is_some cluster)

pub count_instances : List NodeGroup → ℕ
count_instances [] = 0
count_instances (ng ∷ ngs) = ng.count + count_instances ngs

-- `inst_map` of `get_instances`: the instances by id.
add_instances : Dict Instance → List Instance → Dict Instance
add_instances m [] = m
add_instances m (i ∷ is) = add_instances (insert i.id i m) is

instance_map : Dict Instance → List NodeGroup → Dict Instance
instance_map m [] = m
instance_map m (ng ∷ ngs) = instance_map (add_instances m ng.instances) ngs

-- `[inst_map[id] for id in instances_ids]`
pick : Dict Instance → List String → Result (List Instance)
pick m [] = ok []
pick m (id ∷ ids) = elim (lookup id m) [
  | none ↦ err Error.key_error
  | some i ↦ elim (pick m ids) [ ok is ↦ ok (i ∷ is) | err e ↦ err e ]
]

abbrev values : Dict Instance → List Instance
values [] = []
values ((k, v) ∷ m) = v ∷ values m

unfoldable pub get_instances : List NodeGroup → Option (List String) → Result (List Instance)
unfolding add_instances instance_map pick
get_instances node_groups none = ok (values (instance_map [] node_groups))
get_instances node_groups (some ids) = pick (instance_map [] node_groups) ids

-- The node groups without the one of this id; none if there is no such one.
pub remove_group : String → List NodeGroup → Option (List NodeGroup)
remove_group ng_id [] = none
remove_group ng_id (ng ∷ ngs) =
    let rest = remove_group ng_id ngs in
    if str_eq ng.id ng_id
    then some ngs
    else elim rest [ none ↦ none | some ngs' ↦ some (ng ∷ ngs') ]

-- `conductor.node_group_remove`, for a node group of this cluster.
unfoldable pub node_group_remove : String → String → Op (Unit {0})
unfolding remove_group
node_group_remove id ng_id w = elim (w.rows id) [
  | none ↦ (err Error.not_found, w)
  | some c ↦ elim (remove_group ng_id c.node_groups) [
    | none ↦ (err Error.not_found, w)
    | some ngs ↦
        (ok tt, record w { rows = set_row id (some (record c { node_groups = ngs })) w.rows })
  ]
]

abbrev remove_if_empty : String → NodeGroup → Op (Unit {0})
remove_if_empty id ng = if ng.count == 0 then node_group_remove id ng.id else pure tt

-- The node groups are those of the cluster as it was read.
unfoldable pub clean_cluster_from_empty_ng : String → List NodeGroup → Op (Unit {0})
unfolding node_group_remove
clean_cluster_from_empty_ng id node_groups = each (remove_if_empty id) node_groups
