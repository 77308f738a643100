-- ===== src/Progress/Tests.antt =====
-- A step of two instances, its events, and the theorems with it.
use sahara.Base.{ℕ, ◌≡◌, refl, true, false, none, some, List, [], ◌∷◌, Result, err, Error, str_eq}
use sahara.Objects.{Event, Step}
use sahara.Conductor.{step_update}
use sahara.Progress.{
  Log, find_step, cluster_provision_step_update, cluster_provision_step_add, cluster_event_add,
  get_current_provisioning_step, add_fail_event, add_provisioning_step, event_wrapper,
}
use sahara.Progress.Table.{Act, update, add, event_add, act_all, act_all-outcome, status_of}
use sahara.Progress.Recorded.{Recorded}
use sahara.Progress.Wrapper.{opened, event_wrapper-outcome, event_wrapper-failed}

abbrev starting : Step
starting = record {
  id = 0;
  step_name = "Start processes";
  step_type = "Provision";
  total = 2;
  successful = none;
  events = [];
}

abbrev log : Log
log = record {
  exists = λ id. str_eq id "c1";
  steps = starting ∷ [];
  next = 1;
  current = some 0;
  step_type = "Provision";
}

abbrev up : Event
up = record { successful = true; instance_name = some "worker-1"; event_info = none }

abbrev down : Event
down = record {
  successful = false;
  instance_name = some "worker-2";
  event_info = some Error.timeout;
}

-- The second instance reports, and then the first one fails after all.
abbrev history : List Act
history =
    event_add 0 up
    ∷ add "c1" "Configure" 1
    ∷ event_add 0 up
    ∷ update 0
    ∷ event_add 0 down
    ∷ update 0
    ∷ []

recorded : Recorded "c1" log
recorded there = refl

act_all-outcome_example : status_of (find_step 0 (act_all history log).steps) ≡ some (some false)
act_all-outcome_example = act_all-outcome history 0 log starting refl refl

-- One event more than the step counts on, before anyone looks: it never ends.
too_many :
    status_of (
      find_step 0
        (act_all (event_add 0 up ∷ event_add 0 up ∷ event_add 0 up ∷ update 0 ∷ []) log).steps)
    ≡ some none
too_many =
    act_all-outcome (event_add 0 up ∷ event_add 0 up ∷ event_add 0 up ∷ update 0 ∷ []) 0 log
      starting refl refl

abbrev failing : Log → Result ℕ × Log
failing l = (err Error.timeout, l)

-- The wrapper opens a step of its own, which closes the step before, and fails it.
wrapped : (event_wrapper false true (some "Configure") "c1" none failing log).1.current ≡ some 1
unfolding event_wrapper add_provisioning_step get_current_provisioning_step
    cluster_provision_step_update cluster_provision_step_add add_fail_event cluster_event_add
    step_update
wrapped = refl

event_wrapper-outcome_example :
    ((event_wrapper false true (some "Configure") "c1" none failing log).0 ≡ err Error.timeout)
    × Recorded "c1" (event_wrapper false true (some "Configure") "c1" none failing log).1
event_wrapper-outcome_example =
    event_wrapper-outcome false true (some "Configure") "c1" none failing log (λ l known. known)
      recorded

opens : (failing (opened false "c1" (some "Configure") log)).1.current ≡ some 1
unfolding add_provisioning_step get_current_provisioning_step cluster_provision_step_update
    cluster_provision_step_add
opens = refl

still_there : (failing (opened false "c1" (some "Configure") log)).1.exists "c1" ≡ true
unfolding add_provisioning_step get_current_provisioning_step cluster_provision_step_update
    cluster_provision_step_add
still_there = refl

event_wrapper-failed_example :
    status_of
      (find_step 1 (event_wrapper false true (some "Configure") "c1" none failing log).1.steps)
    ≡ some (some false)
event_wrapper-failed_example =
    event_wrapper-failed true (some "Configure") "c1" none failing log Error.timeout 1
      (λ l known. known) recorded refl refl still_there opens
