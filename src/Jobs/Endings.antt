-- ===== src/Jobs/Endings.antt =====
-- How the operations on job executions end.
use mathlib.Core.Path.{subst}
use sahara.Base.{
  ℕ, zero, suc, ◌≡◌, refl, sym, ap, ◌∙◌, inl, inr, true, Option, none, some, String, List, [], ◌∷◌,
  Result, ok, err, Error, Bool-cases, is_some, keep,
}
use sahara.Objects.{JobExecution, JobStatus, Cluster, is_terminated}
use sahara.Conductor.{World, Op, each, cluster_get}
use sahara.Conductor.Rows.{bind_inv, bind_ok}
use sahara.Jobs.{
  JobEnv, JobEngine, mark_failed, cancel_if_reached, the_job, now, failed_at, job_execution_update,
  update_job_status, update_job_statuses, is_listed, cancel_job, cancel_rounds, cancel_on,
  after_try, go_on, try_cancel, job_execution_get, delete_job_execution, after_cancel,
  write_job_status, set_status,
}
use sahara.Jobs.Records.{job_update_inv, job_destroy_gone}

-- Marked as failed, with an end time.
abbrev pub Failed : Option JobExecution → Type 0
Failed none = ⊥
Failed (some je) = (je.status ≡ JobStatus.failed) × (is_some je.end_time ≡ true)

failed_at-Failed :
    (time : ℕ) (old : JobExecution) {row : Option JobExecution} {je : JobExecution}
    → row ≡ some je
    → je ≡ failed_at time old
    → Failed row
failed_at-Failed time old e e' = subst Failed (sym (e ∙ ap some e')) (refl, refl)

pub mark_failed-Failed :
    (env : JobEnv) (id : String) (w : World) {x : Unit {0}} {w' : World}
    → mark_failed env id w ≡ (ok x, w')
    → Failed (w'.jobs id)
mark_failed-Failed env id w {x} {w'} h =
    let (je, w₁, e₁, h₁) = bind_inv (the_job id) _ w h in
    let (y, w₂, e₂, h₂) = bind_inv (cancel_if_reached env id je) _ w₁ h₁ in
    let (time, w₃, e₃, h₃) = bind_inv now _ w₂ h₂ in
    let (je', w₄, updated, h₄) = bind_inv (job_execution_update id (failed_at time)) _ w₃ h₃ in
    let (old, found, e, written) = job_update_inv id (failed_at time) w₃ updated in
    failed_at-Failed time old
      (sym (ap (λ (p : Result (Unit {0}) × World). p.1.jobs id) h₄) ∙ written) e

update_job_status_returns :
    (env : JobEnv) (id : String) (w : World)
    → update_job_status env id w ≡ (ok tt, (update_job_status env id w).1)
unfolding update_job_status
update_job_status_returns env id w = refl

-- Updating the statuses of the running jobs raises nothing, whatever the engines do.
pub update_job_statuses-ok :
    (env : JobEnv) (cluster_id : Option String) (w : World)
    → (update_job_statuses env cluster_id w).0 ≡ ok tt
unfolding update_job_statuses
update_job_statuses-ok env cluster_id w =
    loop (keep (λ id. is_listed env cluster_id (w.jobs id)) w.job_ids) w
  where
    loop : (ids : List String) (w : World) → (each (update_job_status env) ids w).0 ≡ ok tt
    loop [] w = refl
    loop (id ∷ ids) w =
        rw
          (bind_ok (update_job_status env id) (λ x. each (update_job_status env) ids) w
            (update_job_status_returns env id w))
          (loop ids (update_job_status env id w).1)

-- Every cluster has an engine for the jobs on it.
abbrev pub HasEngines : JobEnv → Type 0
HasEngines env =
    (c : Cluster) (je : JobExecution) (w : World) (found : Option JobEngine) (w' : World)
    → env.get_job_engine c je w ≡ (ok found, w')
    → (engine : JobEngine) × (found ≡ some engine)

module _ (env : JobEnv) (id : String) where
  -- The rest of a round, where the rounds after it have the property.
  go_on-gone :
      (rest : JobExecution → Op (Option JobExecution)) (read : Option JobExecution) (w w₁ : World)
      {w' : World}
      → ((je : JobExecution) → rest je w₁ ≡ (ok none, w') → w'.jobs id ≡ none)
      → job_execution_get id w ≡ (ok read, w₁)
      → go_on env rest read w₁ ≡ (ok none, w')
      → w'.jobs id ≡ none
  go_on-gone rest none w w₁ later e h =
      let same : w.jobs id ≡ none = cc e in
      sym (ap (λ (p : Result (Option JobExecution) × World). p.1.jobs id) (e ∙ h)) ∙ same
  go_on-gone rest (some je) w w₁ later e h = later je h

  after_try-gone :
      (rest : JobExecution → Op (Option JobExecution)) (je : JobExecution) (info : Option JobStatus)
      (w : World) {w' : World}
      → ((je : JobExecution) (w : World) → rest je w ≡ (ok none, w') → w'.jobs id ≡ none)
      → after_try env id rest je info w ≡ (ok none, w')
      → w'.jobs id ≡ none
  after_try-gone rest je none w later h =
      let (x, w₁, e₁, h₁) = bind_inv env.sleep _ w h in
      let (read, w₂, e₂, h₂) = bind_inv (job_execution_get id) _ w₁ h₁ in
      go_on-gone rest read w₁ w₂ (λ j q. later j w₂ q) e₂ h₂
  after_try-gone rest je (some status) w later h =
      let (written, w₁, e₁, h₁) = bind_inv (write_job_status env je status) _ w h in absurd (cc h₁)

  cancel_rounds-gone :
      (rounds : ℕ) (engine : JobEngine) (je : JobExecution) (w : World) {w' : World}
      → cancel_rounds env rounds engine id je w ≡ (ok none, w')
      → w'.jobs id ≡ none
  unfolding cancel_rounds
  cancel_rounds-gone zero engine je w h = absurd (cc h)
  cancel_rounds-gone (suc n) engine je w {w'} h = elim (Bool-cases (is_terminated je.status)) [
    | inl over ↦ absurd (cc (rw over at h))
    | inr alive ↦
        let (info, w₁, e₁, h₁) = bind_inv (try_cancel env engine je) _ w (rw alive at h) in
        after_try-gone (cancel_rounds env n engine id) je info w₁
          (λ j v q. cancel_rounds-gone n engine j v q) h₁
  ]

  cancel_on-gone :
      (je : JobExecution) (cluster : Option Cluster) (w : World) {w' : World}
      → HasEngines env
      → cancel_on env id je cluster w ≡ (ok none, w')
      → w'.jobs id ≡ none
  cancel_on-gone je none w engines h = absurd (cc h)
  cancel_on-gone je (some c) w {w'} engines h =
      let (found, w₁, e₁, h₁) = bind_inv (env.get_job_engine c je) _ w h in
      let (engine, there) = engines c je w found w₁ e₁ in
      let (je', w₂, e₂, h₂) =
        bind_inv (job_execution_update id (set_status JobStatus.tobekilled)) _ w₁
          (rw there at h₁) in
      cancel_rounds-gone env.rounds engine je' w₂ h₂

  -- A cancellation that returns None found the execution deleted.
  cancel_job-gone :
      (w : World) {w' : World}
      → HasEngines env
      → cancel_job env id w ≡ (ok none, w')
      → w'.jobs id ≡ none
  unfolding cancel_job
  cancel_job-gone w {w'} engines h =
      let (je, w₁, e₁, h₁) = bind_inv (the_job id) _ w h in
      elim (Bool-cases (is_terminated je.status)) [
        | inl over ↦ absurd (cc (rw over at h₁))
        | inr alive ↦
            let (cluster, w₂, e₂, h₂) =
              bind_inv (cluster_get je.cluster_id) _ w₁ (rw alive at h₁) in
            cancel_on-gone je cluster w₂ engines h₂
      ]

-- Where every cluster has an engine for its jobs, a deletion that returns leaves no execution: its
-- cancellation ended, came too late or timed out.
pub delete_job_execution-gone :
    (env : JobEnv) (id : String) (w : World) {w' : World}
    → HasEngines env
    → delete_job_execution env id w ≡ (ok tt, w')
    → w'.jobs id ≡ none
unfolding delete_job_execution
delete_job_execution-gone env id w {w'} engines h = go (cancel_job env id w) refl h
  where
    go :
        (p : Result (Option JobExecution) × World)
        → cancel_job env id w ≡ p
        → after_cancel env id p ≡ (ok tt, w')
        → w'.jobs id ≡ none
    go (ok none, w₁) e q =
        sym (ap (λ (p : Result (Unit {0}) × World). p.1.jobs id) q)
        ∙ cancel_job-gone env id w engines e
    go (ok (some je), w₁) e q = job_destroy_gone id w₁ q
    go (err Error.canceling_failed, w₁) e q = job_destroy_gone id w₁ q
    go (err x, w₁) e q = absurd (cc q)
