-- ===== src/Jobs/Runs.antt =====
-- How `run_job` ends: the job is not for this cluster, was started and recorded, or failed.
use mathlib.Core.Path.{subst}
use sahara.Base.{
  ℕ, ◌≡◌, ◌≢◌, refl, sym, ap, ◌∙◌, ◌⊎◌, inl, inr, true, false, Option, none, some, String, Result,
  ok, err, Error, Bool, Bool-cases, arith, if◌then◌else◌,
}
use sahara.Base.Dict.{Dict}
use sahara.Objects.{JobExecution, JobStatus, Cluster, ClusterStatus, is_active}
use sahara.Conductor.{World, cluster_get, expect, pure, ◌>>=◌, ◌>>◌}
use sahara.Conductor.Rows.{bind_inv}
use sahara.Jobs.{
  JobEnv, JobEngine, Started, run_job, run_job_body, run_handler, run_on, run_if_active, run_with,
  start, record_start, the_job, started, job_execution_update, update_job_execution_extra,
}
use sahara.Jobs.Records.{job_update_inv}
use sahara.Jobs.Endings.{Failed, mark_failed-Failed}

-- The row has what the engine answered, and the time as its start.
abbrev pub Recorded : Started → ℕ → Option JobExecution → Type 0
Recorded s time none = ⊥
Recorded s time (some row) =
    (row.engine_job_id ≡ s.job_id)
    × (row.start_time ≡ some time)
    × ((status : JobStatus) → s.status ≡ some status → row.status ≡ status)

-- There is no cluster for the execution, or it is not Active; nothing has changed.
abbrev pub NotRun : JobExecution → World → World → Type 0
NotRun je w w' =
    ((w.rows je.cluster_id ≡ none)
      ⊎ ((c : Cluster) × (w.rows je.cluster_id ≡ some c) × (c.status ≢ ClusterStatus.active)))
    × (w' ≡ w)

-- The engine's method for the job, on the execution with its extra data, returned `s`.
abbrev pub HasStarted : JobEngine → JobExecution → Started → World → World → Type 0
HasStarted engine je s w w' =
    ((je.job_configs.is_scheduled ≡ true) × (engine.run_scheduled_job je w ≡ (ok s, w')))
    ⊎ ((je.job_configs.is_scheduled ≡ false) × (engine.run_job je w ≡ (ok s, w')))

-- The cluster is Active and has an engine for the job, which started it, and the row says so.
abbrev pub WasRun : JobEnv → JobExecution → World → World → Type 0
WasRun env je w w' =
    (c : Cluster) × (engine : JobEngine) × (je' : JobExecution) × (s : Started) × (w₁ : World)
    × (w₂ : World) × (w₃ : World) × (w.rows je.cluster_id ≡ some c)
    × (c.status ≡ ClusterStatus.active)
    × (env.get_job_engine c je w ≡ (ok (some engine), w₁))
    × (update_job_execution_extra env c je w₁ ≡ (ok je', w₂))
    × HasStarted engine je' s w₂ w₃
    × Recorded s w₃.clock (w'.jobs je'.id)

the_job_inv :
    (id : String) (w : World) {je : JobExecution} {w₁ : World}
    → the_job id w ≡ (ok je, w₁)
    → (w.jobs id ≡ some je) × (w₁ ≡ w)
unfolding ◌>>=◌
the_job_inv id w {je} {w₁} h = go (w.jobs id) h
  where
    go :
        (o : Option JobExecution)
        → expect o Error.attribute_error w ≡ (ok je, w₁)
        → (o ≡ some je) × (w₁ ≡ w)
    go none q = absurd (cc q)
    go (some old) q = (cc q, cc q)

started-Recorded :
    (s : Started) (time : ℕ) (extra : Dict String) (old : JobExecution) {row : Option JobExecution}
    → row ≡ some (started s time extra old)
    → Recorded s time row
started-Recorded s time extra old e =
    subst (Recorded s time) (sym e)
      (refl, refl, λ status known. ap (λ o. elim o [ none ↦ old.status | some st ↦ st ]) known)

module _ (env : JobEnv) where
  now_first :
      (je : JobExecution) (s : Started) (w : World) {w' : World}
      → record_start env je s w ≡ (ok tt, w')
      → (job_execution_update je.id (started s w.clock je.extra) >> pure tt) w ≡ (ok tt, w')
  unfolding ◌>>=◌
  now_first je s w q = q

  record_start-Recorded :
      (je : JobExecution) (s : Started) (w : World) {w' : World}
      → record_start env je s w ≡ (ok tt, w')
      → Recorded s w.clock (w'.jobs je.id)
  record_start-Recorded je s w {w'} h =
      let (row, w₁, updated, h₁) =
        bind_inv (job_execution_update je.id (started s w.clock je.extra)) _ w
          (now_first je s w h) in
      let (old, found, e, written) = job_update_inv je.id (started s w.clock je.extra) w updated in
      started-Recorded s w.clock je.extra old
        (sym (ap (λ (p : Result (Unit {0}) × World). p.1.jobs je.id) h₁) ∙ written ∙ ap some e)

  start-HasStarted :
      (engine : JobEngine) (je : JobExecution) (w : World) {s : Started} {w' : World}
      → start env engine je w ≡ (ok s, w')
      → HasStarted engine je s w w'
  start-HasStarted engine je w {s} {w'} h = go je.job_configs.is_scheduled refl h
    where
      go :
          (b : Bool)
          → je.job_configs.is_scheduled ≡ b
          → (if b then engine.run_scheduled_job je else engine.run_job je) w ≡ (ok s, w')
          → HasStarted engine je s w w'
      go true e q = inl (e, q)
      go false e q = inr (e, q)

  module _ (c : Cluster) (je : JobExecution) (w : World) (there : w.rows je.cluster_id ≡ some c)
      (live : c.status ≡ ClusterStatus.active) where
    run_with-WasRun :
        (engine : JobEngine) (w₁ : World) {w' : World}
        → env.get_job_engine c je w ≡ (ok (some engine), w₁)
        → run_with env c je engine w₁ ≡ (ok tt, w')
        → WasRun env je w w'
    run_with-WasRun engine w₁ got h =
        let (je', w₂, extended, h₂) = bind_inv (update_job_execution_extra env c je) _ w₁ h in
        let (s, w₃, answered, h₃) = bind_inv (start env engine je') _ w₂ h₂ in
        (
          c,
          engine,
          je',
          s,
          w₁,
          w₂,
          w₃,
          there,
          live,
          got,
          extended,
          start-HasStarted engine je' w₂ answered,
          record_start-Recorded je' s w₃ h₃,
        )

    found-WasRun :
        (found : Option JobEngine) (w₁ : World) {w' : World}
        → env.get_job_engine c je w ≡ (ok found, w₁)
        → (expect found Error.edp_error >>= λ engine. run_with env c je engine) w₁ ≡ (ok tt, w')
        → WasRun env je w w'
    unfolding ◌>>=◌
    found-WasRun none w₁ got h = absurd (cc h)
    found-WasRun (some engine) w₁ got h = run_with-WasRun engine w₁ got h

    run_on-WasRun : {w' : World} → run_on env c je w ≡ (ok tt, w') → WasRun env je w w'
    run_on-WasRun h =
        let (found, w₁, got, h₁) = bind_inv (env.get_job_engine c je) _ w h in
        found-WasRun found w₁ got h₁

  run_if_active-ends :
      (je : JobExecution) (w : World) (row : Option Cluster) {w' : World}
      → w.rows je.cluster_id ≡ row
      → run_if_active env row je w ≡ (ok tt, w')
      → NotRun je w w' ⊎ WasRun env je w w'
  run_if_active-ends je w none e h = inl (inl e, cc h)
  run_if_active-ends je w (some c) e h = elim (Bool-cases (is_active c.status)) [
    | inl live ↦ inr (run_on-WasRun c je w e (ground (arith, live)) (rw live at h))
    | inr other ↦ inl (inr (c, e, λ live. absurd (cc (live, other))), cc (rw other at h))
  ]

  at_w :
      (je : JobExecution) (w w₁ : World) {w' : World}
      → w₁ ≡ w
      → (cluster_get je.cluster_id >>= λ cluster. run_if_active env cluster je) w₁ ≡ (ok tt, w')
      → run_if_active env (w.rows je.cluster_id) je w ≡ (ok tt, w')
  unfolding ◌>>=◌
  at_w je w w₁ {w'} same h =
      subst (λ (v : World). run_if_active env (v.rows je.cluster_id) je v ≡ (ok tt, w')) same h

  body-ends :
      (id : String) (w : World) {w' : World}
      → run_job_body env id w ≡ (ok tt, w')
      → (je : JobExecution) × (w.jobs id ≡ some je) × (NotRun je w w' ⊎ WasRun env je w w')
  unfolding run_job_body
  body-ends id w {w'} h =
      let (je, w₁, e₁, h₁) = bind_inv (the_job id) _ w h in
      let (read, same) = the_job_inv id w e₁ in
      (je, read, run_if_active-ends je w (w.rows je.cluster_id) refl (at_w je w w₁ same h₁))

  -- A run that returns ended in one of three ways. Nothing has changed, and the cluster of the
  -- execution is not there or not Active. Or the cluster is Active, its engine started the job, as
  -- a scheduled one where it is one, and the row has the engine's id for the job, the time of the
  -- start, and the engine's status if it gave one. Or there was an exception, and the execution is
  -- FAILED with an end time.
  pub run_job-ends :
      (id : String) (w : World) {w' : World}
      → run_job env id w ≡ (ok tt, w')
      → ((je : JobExecution) × (w.jobs id ≡ some je) × (NotRun je w w' ⊎ WasRun env je w w'))
        ⊎ (((e : Error) × ((run_job_body env id w).0 ≡ err e)) × Failed (w'.jobs id))
  unfolding run_job
  run_job-ends id w {w'} h = go (run_job_body env id w) refl h
    where
      go :
          (p : Result (Unit {0}) × World)
          → run_job_body env id w ≡ p
          → run_handler env id p ≡ (ok tt, w')
          → ((je : JobExecution) × (w.jobs id ≡ some je) × (NotRun je w w' ⊎ WasRun env je w w'))
            ⊎ (((e : Error) × ((run_job_body env id w).0 ≡ err e)) × Failed (w'.jobs id))
      go (ok x, w₁) e q = inl (body-ends id w (e ∙ q))
      go (err x, w₁) e q =
          inr ((x, ap (λ (r : Result (Unit {0}) × World). r.0) e), mark_failed-Failed env id w₁ q)
