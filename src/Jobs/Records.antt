-- ===== src/Jobs/Records.antt =====
-- What the writes on the rows of job executions do.
use text.Mathlib.TextPositions.{eq_refl}
use sahara.Base.{
  ℕ, ◌≡◌, refl, sym, ap, ◌∙◌, true, Option, none, some, String, Result, ok, Bool-cases, inl, inr,
  is_some,
}
use sahara.Objects.{JobExecution, JobStatus, JobConfigs, is_terminated}
use sahara.Conductor.{World}
use sahara.Conductor.Rows.{bind_inv}
use sahara.Jobs.{
  JobEnv, set_job, update_row, job_execution_update, destroy_row, job_execution_destroy,
  write_job_status, now, delete_proxy_user_for_job_execution, ended, set_status,
}

set_job_self :
    (id : String) (row : Option JobExecution) (jobs : String → Option JobExecution)
    → set_job id row jobs id ≡ row
unfolding set_job
set_job_self id row jobs = simp eq_refl

-- An update that returns changed the row that was there.
pub job_update_inv :
    (id : String) (change : JobExecution → JobExecution) (w : World) {je : JobExecution}
    {w' : World}
    → job_execution_update id change w ≡ (ok je, w')
    → (old : JobExecution) × (w.jobs id ≡ some old) × (je ≡ change old) × (w'.jobs id ≡ some je)
unfolding job_execution_update
job_update_inv id change w {je} {w'} h = go (w.jobs id) refl h
  where
    go :
        (row : Option JobExecution)
        → w.jobs id ≡ row
        → update_row id change w row ≡ (ok je, w')
        → (old : JobExecution) × (w.jobs id ≡ some old) × (je ≡ change old) × (w'.jobs id ≡ some je)
    go none e q = absurd (cc q)
    go (some old) e q =
        let same : change old ≡ je = cc q in
        (
          old,
          e,
          sym same,
          sym (ap (λ (p : Result JobExecution × World). p.1.jobs id) q)
              ∙ set_job_self id (some (change old)) w.jobs
              ∙ ap some same,
        )

pub job_destroy_gone :
    (id : String) (w : World) {x : Unit {0}} {w' : World}
    → job_execution_destroy id w ≡ (ok x, w')
    → w'.jobs id ≡ none
unfolding job_execution_destroy
job_destroy_gone id w {x} {w'} h = go (w.jobs id) h
  where
    go : (row : Option JobExecution) → destroy_row id w row ≡ (ok x, w') → w'.jobs id ≡ none
    go none q = absurd (cc q)
    go (some old) q =
        sym (ap (λ (p : Result (Unit {0}) × World). p.1.jobs id) q) ∙ set_job_self id none w.jobs

-- A status that an engine reports is written into the row, and where it is one of the terminated
-- ones the row has an end time.
pub write_job_status-ends :
    (env : JobEnv) (je : JobExecution) (status : JobStatus) (w : World) {je' : JobExecution}
    {w' : World}
    → write_job_status env je status w ≡ (ok je', w')
    → (w'.jobs je.id ≡ some je')
      × (je'.status ≡ status)
      × (is_terminated status ≡ true → is_some je'.end_time ≡ true)
unfolding write_job_status
write_job_status-ends env je status w {je'} {w'} h = elim (Bool-cases (is_terminated status)) [
  | inl over ↦
      let (time, w₁, e₁, h₁) = bind_inv now _ w (rw over at h) in
      let (configs, w₂, e₂, h₂) = bind_inv (delete_proxy_user_for_job_execution env je) _ w₁ h₁ in
      let (old, found, e, written) = job_update_inv je.id (ended status time configs) w₂ h₂ in
      (
        written,
        ap (λ (j : JobExecution). j.status) e ∙ status_of time configs old,
        λ t. ap (λ (j : JobExecution). is_some j.end_time) e ∙ end_of time configs old,
      )
  | inr alive ↦
      let (old, found, e, written) = job_update_inv je.id (set_status status) w (rw alive at h) in
      (written, ap (λ (j : JobExecution). j.status) e, λ t. absurd (cc (t, alive)))
]
  where
    status_of :
        (time : ℕ) (configs : Option JobConfigs) (old : JobExecution)
        → (ended status time configs old).status ≡ status
    status_of time none old = refl
    status_of time (some c) old = refl

    end_of :
        (time : ℕ) (configs : Option JobConfigs) (old : JobExecution)
        → is_some (ended status time configs old).end_time ≡ true
    end_of time none old = refl
    end_of time (some c) old = refl
