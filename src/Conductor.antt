-- ===== src/Conductor.antt =====
-- The database rows of clusters and the conductor's calls on them (sahara/db/sqlalchemy/api.py,
-- through sahara/conductor/api.py), in a monad of state and exceptions: what was written before a
-- raise stays written. A cluster object stands for its id where only that is read.
pub mod Rows
use sahara.Base.{
  ℕ, suc, ◌+◌, Bool, true, false, Option, none, some, String, List, [], ◌∷◌, ◌++◌, map, Result, ok,
  err, Error, if◌then◌else◌, str_eq, ◌==◌, length,
}
use sahara.Objects.{ClusterStatus, Cluster, NodeGroup, Event, Step, JobExecution, is_deleting}

-- The rows by id, the ids given to provisioning steps so far, the step of the current thread's
-- context, the notifications sent, and the job executions.
pub record World : Type 0 where
  pub rows : String → Option Cluster
  pub next_step : ℕ
  pub current_step : Option ℕ
  pub notified : List (String × ClusterStatus)
  -- the job executions by id, the ids in the order of the table, and the time
  pub jobs : String → Option JobExecution
  pub job_ids : List String
  pub clock : ℕ

abbrev pub Op : Type 0 → Type 0
Op A = World → Result A × World

module _ {A : Type 0} where
  abbrev pub pure : A → Op A
  pure a w = (ok a, w)

  abbrev pub raise : Error → Op A
  raise e w = (err e, w)

  -- A value that may be missing, and the exception if it is.
  abbrev pub expect : Option A → Error → Op A
  expect none e = raise e
  expect (some a) e = pure a

  -- A computation with no effect.
  abbrev pub lift : Result A → Op A
  lift r w = (r, w)

-- The rest of a call after its first part: skipped after a raise.
abbrev pub after : {A B : Type 0} → Result A × World → (A → Op B) → Result B × World
after p f = elim p.0 [ ok a ↦ f a p.1 | err e ↦ (err e, p.1) ]

infixl 5 ◌>>=◌ ◌>>◌
unfoldable pub ◌>>=◌ : {A B : Type 0} → Op A → (A → Op B) → Op B
◌>>=◌ m f w = after (m w) f

abbrev pub ◌>>◌ : {A B : Type 0} → Op A → Op B → Op B
m >> k = m >>= λ _. k

-- `for x in xs: body(x)`
abbrev pub each : {A : Type 0} → (A → Op (Unit {0})) → List A → Op (Unit {0})
each body [] = pure tt
each body (x ∷ xs) = body x >> each body xs

-- The rows with one of them written.
unfoldable pub set_row :
    String → Option Cluster → (String → Option Cluster) → String → Option Cluster
set_row id row rows j = if str_eq id j then row else rows j

abbrev pub cluster_get : String → Op (Option Cluster)
cluster_get id w = (ok (w.rows id), w)

unfoldable pub cluster_update : String → (Cluster → Cluster) → Op Cluster
cluster_update id change w = elim (w.rows id) [
  | none ↦ (err Error.not_found, w)
  | some c ↦ (ok (change c), record w { rows = set_row id (some (change c)) w.rows })
]

unfoldable pub cluster_destroy : String → Op (Unit {0})
cluster_destroy id w = elim (w.rows id) [
  | none ↦ (err Error.not_found, w)
  | some c ↦ (ok tt, record w { rows = set_row id none w.rows })
]

-- Writes the node group of this id; NotFoundException without it.
pub change_group : String → (NodeGroup → NodeGroup) → List NodeGroup → Option (List NodeGroup)
change_group ng_id change [] = none
change_group ng_id change (ng ∷ ngs) =
    let rest = change_group ng_id change ngs in
    if str_eq ng.id ng_id
    then some (change ng ∷ ngs)
    else elim rest [ none ↦ none | some ngs' ↦ some (ng ∷ ngs') ]

unfoldable pub node_group_update : String → String → (NodeGroup → NodeGroup) → Op (Unit {0})
unfolding change_group cluster_update
node_group_update id ng_id change w = elim (w.rows id) [
  | none ↦ (err Error.not_found, w)
  | some c ↦ elim (change_group ng_id change c.node_groups) [
    | none ↦ (err Error.not_found, w)
    | some ngs ↦
        (ok tt, record w { rows = set_row id (some (record c { node_groups = ngs })) w.rows })
  ]
]

-- `_cluster_provision_step_update`: a running step with all its events in succeeds.
unfoldable pub step_update : Step → Step
step_update s = elim s.successful [
  | some b ↦ s
  | none ↦
      if length s.events == s.total then record s { events = []; successful = some true } else s
]

unfoldable pub cluster_provision_progress_update : Bool → String → Op (Option Cluster)
unfolding step_update cluster_update
cluster_provision_progress_update disable_event_log id w =
    if disable_event_log then (ok (w.rows id), w) else elim (w.rows id) [
      | none ↦ (err Error.not_found, w)
      | some c ↦
          let c' : Cluster = record c {
            provision_progress = map step_update c.provision_progress;
          } in
          (ok (some c'), record w { rows = set_row id (some c') w.rows })
    ]
