-- ===== src/Progress/Recorded.antt =====
-- The step of a thread stays in the table through the calls on the steps, which all return.
use sahara.Base.{
  ℕ, ◌≡◌, refl, ap, ◌∙◌, Bool, true, false, Option, none, some, String, List, [], ◌∷◌, ◌++◌, inl,
  inr, Result, ok, err, arith, Bool-cases, is_some, str_eq,
}
use sahara.Objects.{Event, Step}
use sahara.Conductor.{step_update}
use sahara.Progress.{
  Log, find_step, change_step, event_added, write_step, new_step, cluster_provision_step_update,
  cluster_provision_step_add, cluster_event_add, get_current_provisioning_step, then_do, add_to,
  add_successful_event, add_fail_event, close_step, add_provisioning_step, open_step, mark,
}
use sahara.Progress.Steps.{step_update-id}

-- The step of the thread, if any, is in the table.
abbrev pub is_recorded : Option ℕ → List Step → Bool
is_recorded none steps = true
is_recorded (some id) steps = is_some (find_step id steps)

-- As long as the cluster exists, its step is in the table.
abbrev pub Recorded : String → Log → Type 0
Recorded cluster_id log = log.exists cluster_id ≡ true → is_recorded log.current log.steps ≡ true

-- What a call on the steps promises: it returns, and the thread's step is still in the table.
abbrev pub Fine : {A : Type 0} → String → Result A × Log → Type 0
Fine {A} cluster_id p = (a : A) × (p.0 ≡ ok a) × Recorded cluster_id p.1

find_step-append_last :
    (steps : List Step) (s : Step) → is_some (find_step s.id (steps ++ (s ∷ []))) ≡ true
find_step-append_last [] s = ground arith
find_step-append_last (t ∷ steps) s = ground (arith, find_step-append_last steps s)

change_step-is_some :
    (id j : ℕ) (change : Step → Step) (steps : List Step)
    → ((t : Step) → (change t).id ≡ t.id)
    → is_some (find_step id (change_step j change steps)) ≡ is_some (find_step id steps)
change_step-is_some id j change [] keeps = refl
change_step-is_some id j change (t ∷ steps) keeps =
    ground (arith, keeps t, change_step-is_some id j change steps keeps)

change_step-is_recorded :
    (cur : Option ℕ) (j : ℕ) (change : Step → Step) (steps : List Step)
    → ((t : Step) → (change t).id ≡ t.id)
    → is_recorded cur (change_step j change steps) ≡ is_recorded cur steps
change_step-is_recorded none j change steps keeps = refl
change_step-is_recorded (some id) j change steps keeps = change_step-is_some id j change steps keeps

pub write_step-Fine :
    (cluster_id : String) (id : ℕ) (change : Step → Step) (log : Log)
    → ((t : Step) → (change t).id ≡ t.id)
    → is_some (find_step id log.steps) ≡ true
    → Recorded cluster_id log
    → Fine cluster_id (write_step id change log)
write_step-Fine cluster_id id change log keeps there recorded = go (find_step id log.steps) refl
  where
    go : (o : Option Step) → find_step id log.steps ≡ o → Fine cluster_id (write_step id change log)
    go none e = absurd (cc (e, there))
    go (some s) e =
        rw (e, write_step)
          (
            tt,
            refl,
            λ exists.
                change_step-is_recorded log.current id change log.steps keeps ∙ recorded exists,
          )

pub add_to-Fine :
    (cluster_id : String) (cur : Option ℕ) (e : Event) (log : Log)
    → is_recorded cur log.steps ≡ true
    → Recorded cluster_id log
    → Fine cluster_id (add_to cur e log)
unfolding cluster_event_add
add_to-Fine cluster_id none e log there recorded = (tt, refl, recorded)
add_to-Fine cluster_id (some id) e log there recorded =
    write_step-Fine cluster_id id (event_added e) log (λ t. refl) there recorded

close_step-Fine :
    (cluster_id : String) (cur : Option ℕ) (log : Log)
    → is_recorded cur log.steps ≡ true
    → Recorded cluster_id log
    → Fine cluster_id (close_step false cur log)
unfolding cluster_provision_step_update
close_step-Fine cluster_id none log there recorded = (tt, refl, recorded)
close_step-Fine cluster_id (some id) log there recorded =
    write_step-Fine cluster_id id step_update log step_update-id there recorded

then_do-Fine :
    {A B : Type 0} (cluster_id : String) (p : Result A × Log) (f : A → Log → Result B × Log)
    → Fine cluster_id p
    → ((a : A) → Fine cluster_id (f a p.1))
    → Fine cluster_id (then_do p f)
then_do-Fine cluster_id p f (a, e, recorded) rest = rw e (rest a)

pub step_here :
    (cluster_id : String) (log : Log)
    → Recorded cluster_id log
    → is_recorded (get_current_provisioning_step false cluster_id log) log.steps ≡ true
unfolding get_current_provisioning_step
step_here cluster_id log recorded = elim (Bool-cases (log.exists cluster_id)) [
  | inl there ↦ rw (there, get_current_provisioning_step) (recorded there)
  | inr missing ↦ rw (missing, get_current_provisioning_step) refl
]

write_step-exists :
    (id : ℕ) (change : Step → Step) (log : Log) → (write_step id change log).1.exists ≡ log.exists
write_step-exists id change log = go (find_step id log.steps) refl
  where
    go :
        (o : Option Step)
        → find_step id log.steps ≡ o
        → (write_step id change log).1.exists ≡ log.exists
    go none e = rw (e, write_step) refl
    go (some s) e = rw (e, write_step) refl

close_step-exists : (cur : Option ℕ) (log : Log) → (close_step false cur log).1.exists ≡ log.exists
unfolding cluster_provision_step_update
close_step-exists none log = refl
close_step-exists (some id) log = write_step-exists id step_update log

abbrev opening : String → String → ℕ → Log → Result (Option ℕ) × Log
opening cluster_id step_name total log =
    then_do (cluster_provision_step_add cluster_id step_name total log)
      (λ step_id log₁. (ok (some step_id), record log₁ { current = some step_id }))

opening-Fine :
    (cluster_id step_name : String) (total : ℕ) (log : Log)
    → log.exists cluster_id ≡ true
    → Fine cluster_id (opening cluster_id step_name total log)
unfolding cluster_provision_step_add
opening-Fine cluster_id step_name total log there =
    rw (there, cluster_provision_step_add)
      (
        some log.next,
        refl,
        λ exists. find_step-append_last log.steps (new_step step_name total log),
      )

add_provisioning_step-Fine :
    (cluster_id step_name : String) (total : ℕ) (log : Log)
    → Recorded cluster_id log
    → Fine cluster_id (add_provisioning_step false cluster_id step_name total log)
unfolding add_provisioning_step
add_provisioning_step-Fine cluster_id step_name total log recorded =
    elim (Bool-cases (log.exists cluster_id)) [
      | inl there ↦
          rw (there, add_provisioning_step)
            (then_do-Fine cluster_id (close_step false log.current log)
              (λ closed log₁. opening cluster_id step_name total log₁)
              (close_step-Fine cluster_id log.current log (recorded there) recorded)
              (λ closed.
                opening-Fine cluster_id step_name total (close_step false log.current log).1
                  (ap (λ f. f cluster_id) (close_step-exists log.current log) ∙ there)))
      | inr missing ↦ rw (missing, add_provisioning_step) (none, refl, recorded)
    ]

pub open_step-Fine :
    (cluster_id : String) (step : Option String) (log : Log)
    → Recorded cluster_id log
    → Fine cluster_id (open_step false cluster_id step log)
open_step-Fine cluster_id none log recorded = (none, refl, recorded)
open_step-Fine cluster_id (some step_name) log recorded = elim (Bool-cases (str_eq step_name "")) [
  | inl empty ↦ rw empty (none, refl, recorded)
  | inr name ↦ rw name (add_provisioning_step-Fine cluster_id step_name 1 log recorded)
]

pub then_return :
    {A : Type 0} (cluster_id : String) (r : Result A) (p : Result (Unit {0}) × Log)
    → Fine cluster_id p
    → ((then_do p (λ marked log₁. (r, log₁))).0 ≡ r)
      × Recorded cluster_id (then_do p (λ marked log₁. (r, log₁))).1
then_return cluster_id r p (a, e, recorded) = rw e (refl, recorded)

-- What marking the outcome promises: the outcome, and that the step is in the table.
pub mark-outcome :
    {A : Type 0} (m : Bool) (cluster_id : String) (name : Option String) (r : Result A) (log : Log)
    → Recorded cluster_id log
    → ((mark false m cluster_id name r log).0 ≡ r)
      × Recorded cluster_id (mark false m cluster_id name r log).1
unfolding add_fail_event add_successful_event
mark-outcome m cluster_id name (err e) log recorded =
    then_return cluster_id (err e)
      (add_to (get_current_provisioning_step false cluster_id log)
        (record { successful = false; instance_name = name; event_info = some e }) log)
      (add_to-Fine cluster_id (get_current_provisioning_step false cluster_id log)
        (record { successful = false; instance_name = name; event_info = some e }) log
        (step_here cluster_id log recorded) recorded)
mark-outcome false cluster_id name (ok value) log recorded = (refl, recorded)
mark-outcome true cluster_id name (ok value) log recorded =
    then_return cluster_id (ok value)
      (add_to (get_current_provisioning_step false cluster_id log)
        (record { successful = true; instance_name = name; event_info = none }) log)
      (add_to-Fine cluster_id (get_current_provisioning_step false cluster_id log)
        (record { successful = true; instance_name = name; event_info = none }) log
        (step_here cluster_id log recorded) recorded)
