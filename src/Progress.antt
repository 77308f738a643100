-- ===== src/Progress.antt =====
-- The provisioning steps of clusters and their events (sahara/db/sqlalchemy/api.py,
-- sahara/utils/cluster_progress_ops.py).
pub mod History
pub mod Steps
pub mod Table
pub mod Recorded
pub mod Wrapper
mod Tests
use sahara.Base.{
  ℕ, suc, ◌+◌, Bool, true, false, not, ◌&&◌, ◌||◌, Option, none, some, String, List, [], ◌∷◌, ◌++◌,
  Result, ok, err, Error, if◌then◌else◌, str_eq, ◌==◌,
}
use sahara.Objects.{Event, Step}
use sahara.Conductor.{step_update}

-- The clusters that exist, the table of the steps, the next id, and the step and the step type of
-- the current thread's instance info.
pub record Log : Type 0 where
  pub exists : String → Bool
  pub steps : List Step
  pub next : ℕ
  pub current : Option ℕ
  pub step_type : String

-- `_cluster_provision_step_get`
abbrev pub find_step : ℕ → List Step → Option Step
find_step id [] = none
find_step id (s ∷ steps) = if s.id == id then some s else find_step id steps

-- The table with the step of this id changed.
abbrev pub change_step : ℕ → (Step → Step) → List Step → List Step
change_step id change [] = []
change_step id change (s ∷ steps) =
    if s.id == id then change s ∷ steps else s ∷ change_step id change steps

-- A step with an event added, which fails it if the event is a failure.
abbrev pub event_added : Event → Step → Step
event_added e s = record s {
  successful = if e.successful then s.successful else some false;
  events = s.events ++ (e ∷ []);
}

-- A write to the step of an id, and NotFoundException without one.
abbrev pub write_step : ℕ → (Step → Step) → Log → Result (Unit {0}) × Log
write_step id change log = elim (find_step id log.steps) [
  | none ↦ (err Error.not_found, log)
  | some s ↦ (ok tt, record log { steps = change_step id change log.steps })
]

unfoldable pub cluster_provision_step_update : Bool → ℕ → Log → Result (Unit {0}) × Log
cluster_provision_step_update disable_event_log id log =
    if disable_event_log then (ok tt, log) else write_step id step_update log

unfoldable pub cluster_event_add : ℕ → Event → Log → Result (Unit {0}) × Log
cluster_event_add id e log = write_step id (event_added e) log

abbrev pub new_step : String → ℕ → Log → Step
new_step step_name total log = record {
  id = log.next;
  step_name = step_name;
  step_type = log.step_type;
  total = total;
  successful = none;
  events = [];
}

unfoldable pub cluster_provision_step_add : String → String → ℕ → Log → Result ℕ × Log
cluster_provision_step_add cluster_id step_name total log =
    if log.exists cluster_id
    then (
      ok log.next,
      record log { steps = log.steps ++ (new_step step_name total log ∷ []); next = suc log.next },
    )
    else (err Error.not_found, log)

-- The step is the thread's; the cluster only has to exist.
unfoldable pub get_current_provisioning_step : Bool → String → Log → Option ℕ
get_current_provisioning_step disable_event_log cluster_id log =
    if disable_event_log || not (log.exists cluster_id) then none else log.current

-- What goes on after the first part of a call, skipped after a raise.
abbrev pub then_do : {A B : Type 0} → Result A × Log → (A → Log → Result B × Log) → Result B × Log
then_do p f = elim p.0 [ ok a ↦ f a p.1 | err e ↦ (err e, p.1) ]

-- `if step_id: conductor.cluster_event_add(...)`
abbrev pub add_to : Option ℕ → Event → Log → Result (Unit {0}) × Log
add_to none e log = (ok tt, log)
add_to (some id) e log = cluster_event_add id e log

unfoldable pub add_successful_event : Bool → String → Option String → Log → Result (Unit {0}) × Log
unfolding get_current_provisioning_step
add_successful_event disable_event_log cluster_id instance_name log =
    if disable_event_log
    then (ok tt, log)
    else add_to (get_current_provisioning_step disable_event_log cluster_id log)
        (record { successful = true; instance_name = instance_name; event_info = none }) log

unfoldable pub add_fail_event :
    Bool → String → Option String → Error → Log → Result (Unit {0}) × Log
unfolding get_current_provisioning_step
add_fail_event disable_event_log cluster_id instance_name exception log =
    if disable_event_log
    then (ok tt, log)
    else add_to (get_current_provisioning_step disable_event_log cluster_id log)
        (record { successful = false; instance_name = instance_name; event_info = some exception })
        log

-- `if prev_step: conductor.cluster_provision_step_update(...)`
abbrev pub close_step : Bool → Option ℕ → Log → Result (Unit {0}) × Log
close_step disable_event_log none log = (ok tt, log)
close_step disable_event_log (some prev_step) log =
    cluster_provision_step_update disable_event_log prev_step log

unfoldable pub add_provisioning_step : Bool → String → String → ℕ → Log → Result (Option ℕ) × Log
unfolding get_current_provisioning_step
add_provisioning_step disable_event_log cluster_id step_name total log =
    if disable_event_log || not (log.exists cluster_id)
    then (ok none, log)
    else then_do
        (close_step disable_event_log
          (get_current_provisioning_step disable_event_log cluster_id log) log)
        (λ closed log₁.
          then_do (cluster_provision_step_add cluster_id step_name total log₁)
            (λ step_id log₂. (ok (some step_id), record log₂ { current = some step_id })))

-- `if step_name: add_provisioning_step(cluster_id, step_name, 1)`
abbrev pub open_step : Bool → String → Option String → Log → Result (Option ℕ) × Log
open_step disable_event_log cluster_id none log = (ok none, log)
open_step disable_event_log cluster_id (some step_name) log =
    if str_eq step_name ""
    then (ok none, log)
    else add_provisioning_step disable_event_log cluster_id step_name 1 log

-- What the wrapper does with the outcome of the call.
abbrev pub mark :
    {A : Type 0} → Bool → Bool → String → Option String → Result A → Log → Result A × Log
mark disable_event_log mark_successful_on_exit cluster_id instance_name (err e) log =
    then_do (add_fail_event disable_event_log cluster_id instance_name e log)
      (λ marked log₁. (err e, log₁))
mark disable_event_log mark_successful_on_exit cluster_id instance_name (ok value) log =
    if mark_successful_on_exit
    then then_do (add_successful_event disable_event_log cluster_id instance_name log)
        (λ marked log₁. (ok value, log₁))
    else (ok value, log)

-- The handler of `event_wrapper`, for an instance by its cluster and its name.
unfoldable pub event_wrapper :
    {A : Type 0}
    → (disable_event_log mark_successful_on_exit : Bool) (step : Option String)
      (cluster_id : String) (instance_name : Option String)
    → (Log → Result A × Log)
    → Log
    → Result A × Log
event_wrapper disable_event_log mark_successful_on_exit step cluster_id instance_name func log =
    if disable_event_log || not (log.exists cluster_id)
    then func log
    else then_do (open_step disable_event_log cluster_id step log) (λ opened log₁.
      mark disable_event_log mark_successful_on_exit cluster_id instance_name (func log₁).0
        (func log₁).1)
