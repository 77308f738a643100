-- ===== src/Progress/Table.antt =====
-- Each step of the table goes its own way, whatever happens to the table.
use mathlib.Core.Path.{subst}
use native.Mathlib.Decide.{ℕ_discrete}
use sahara.Base.{
  ℕ, suc, ◌≡◌, refl, sym, ap, ◌∙◌, Bool, false, Option, none, some, String, List, [], ◌∷◌, ◌++◌,
  inl, inr, if◌then◌else◌, ◌==◌, length, arith, Result, ok, err, Error, Bool-cases,
}
use sahara.Objects.{Event, Step}
use sahara.Conductor.{step_update}
use sahara.Progress.{
  Log, find_step, change_step, event_added, write_step, new_step, cluster_provision_step_update,
  cluster_provision_step_add, cluster_event_add,
}
use sahara.Progress.History.{Call, event, checked, run, apply, outcome, run-outcome}
use sahara.Progress.Steps.{
  change_step-same, change_step-other, write_step-steps, step_update-id, find_step-append,
}

-- A call of the database on the steps.
pub data Act : Type 0 where
  update : ℕ → Act
  add : String → String → ℕ → Act
  event_add : ℕ → Event → Act

abbrev pub act : Act → Log → Log
act (update id) log = (cluster_provision_step_update false id log).1
act (add cluster_id step_name total) log =
    (cluster_provision_step_add cluster_id step_name total log).1
act (event_add id e) log = (cluster_event_add id e log).1

abbrev pub act_all : List Act → Log → Log
act_all [] log = log
act_all (a ∷ acts) log = act_all acts (act a log)

abbrev pub call_on : ℕ → Act → List Call
call_on id (update j) = if j == id then checked ∷ [] else []
call_on id (add cluster_id step_name total) = []
call_on id (event_add j e) = if j == id then event e ∷ [] else []

-- What the calls have to do with the step of an id.
abbrev pub calls : ℕ → List Act → List Call
calls id [] = []
calls id (a ∷ acts) = call_on id a ++ calls id acts

call_here : (id j : ℕ) (c : Call) → j ≡ id → (if j == id then c ∷ [] else []) ≡ c ∷ []
call_here id j c e = ground arith

call_elsewhere : (id j : ℕ) (c : Call) → (j ≡ id → ⊥) → (if j == id then c ∷ [] else []) ≡ []
call_elsewhere id j c e = ground arith

write_step-call :
    (id j : ℕ) (change : Step → Step) (c : Call) (log : Log) (s : Step)
    → ((t : Step) → (change t).id ≡ t.id)
    → run (c ∷ []) s ≡ change s
    → find_step id log.steps ≡ some s
    → find_step id (write_step j change log).1.steps ≡ some (run (if j == id then c ∷ [] else []) s)
write_step-call id j change c log s keeps does h = elim (ℕ_discrete j id) [
  | yes same ↦
      ap (find_step id) (write_step-steps j change log)
      ∙ subst (λ k. find_step id (change_step k change log.steps) ≡ some (change s)) (sym same)
          (change_step-same id change log.steps s keeps h)
      ∙ ap some (sym does ∙ ap (λ cs. run cs s) (sym (call_here id j c same)))
  | no other ↦
      ap (find_step id) (write_step-steps j change log)
      ∙ change_step-other id j change log.steps keeps other
      ∙ h
      ∙ ap (λ cs. some (run cs s)) (sym (call_elsewhere id j c other))
]

act-call :
    (a : Act) (id : ℕ) (log : Log) (s : Step)
    → find_step id log.steps ≡ some s
    → find_step id (act a log).steps ≡ some (run (call_on id a) s)
unfolding cluster_provision_step_update cluster_event_add cluster_provision_step_add
act-call (update j) id log s h =
    write_step-call id j step_update checked log s step_update-id refl h
act-call (event_add j e) id log s h =
    write_step-call id j (event_added e) (event e) log s (λ t. refl) refl h
act-call (add cluster_id step_name total) id log s h = elim (Bool-cases (log.exists cluster_id)) [
  | inl there ↦
      ap (λ b. find_step id (if b then added else (err Error.not_found, log)).1.steps) there
      ∙ find_step-append id log.steps (new_step step_name total log ∷ []) s h
  | inr missing ↦
      ap (λ b. find_step id (if b then added else (err Error.not_found, log)).1.steps) missing ∙ h
]
  where
    added : Result ℕ × Log
    added = (
      ok log.next,
      record log { steps = log.steps ++ (new_step step_name total log ∷ []); next = suc log.next },
    )

run-append : (cs ds : List Call) (s : Step) → run (cs ++ ds) s ≡ run ds (run cs s)
run-append [] ds s = refl
run-append (c ∷ cs) ds s = run-append cs ds (apply c s)

-- Whatever calls the table meets, a step of it goes through those on itself.
pub act_all-calls :
    (acts : List Act) (id : ℕ) (log : Log) (s : Step)
    → find_step id log.steps ≡ some s
    → find_step id (act_all acts log).steps ≡ some (run (calls id acts) s)
act_all-calls [] id log s h = h
act_all-calls (a ∷ acts) id log s h =
    act_all-calls acts id (act a log) (run (call_on id a) s) (act-call a id log s h)
    ∙ ap some (sym (run-append (call_on id a) (calls id acts) s))

abbrev pub status_of : Option Step → Option (Option Bool)
status_of none = none
status_of (some s) = some s.successful

-- A step that runs ends up, after any calls on the table, failed if an event on it was a failure,
-- else successful if some look at it came when exactly all its events were in, else still running.
pub act_all-outcome :
    (acts : List Act) (id : ℕ) (log : Log) (s : Step)
    → find_step id log.steps ≡ some s
    → s.successful ≡ none
    → status_of (find_step id (act_all acts log).steps)
      ≡ some (outcome s.total (length s.events) (calls id acts))
act_all-outcome acts id log s h running =
    ap status_of (act_all-calls acts id log s h) ∙ ap some (run-outcome (calls id acts) s running)
