-- ===== src/Jobs.antt =====
-- The manager of data processing jobs (sahara/service/edp/job_manager.py), with the deletion of a job
-- execution (sahara/service/ops.py). The engines, and what other processes do while a cancellation
-- sleeps, are parameters.
pub mod Records
pub mod Endings
pub mod Runs
mod Tests
use sahara.Base.{
  ℕ, zero, suc, Bool, true, false, not, ◌&&◌, ◌||◌, Option, none, some, String, List, [], ◌∷◌,
  Result, ok, err, Error, if◌then◌else◌, str_eq, is_some, keep,
}
use sahara.Base.Dict.{Dict, insert, update}
use sahara.Objects.{
  Cluster, JobStatus, JobConfigs, JobExecution, is_active, is_terminated, is_suspendible, truthy,
}
use sahara.Conductor.{World, Op, pure, raise, expect, lift, ◌>>=◌, ◌>>◌, each, cluster_get}

-- `extra` and the status that an engine returns may be missing.
pub record Started : Type 0 where
  pub job_id : Option String
  pub status : Option JobStatus
  pub extra : Dict String

-- The methods of an engine (sahara/service/edp/base_engine.py); none for no answer.
pub record JobEngine : Type 0 where
  pub run_job : JobExecution → Op Started
  pub run_scheduled_job : JobExecution → Op Started
  pub get_job_status : JobExecution → Op (Option JobStatus)
  pub cancel_job : JobExecution → Op (Option JobStatus)
  pub suspend_job : JobExecution → Op (Option JobStatus)

pub record JobEnv : Type 0 where
  -- `get_job_engine`
  pub get_job_engine : Cluster → JobExecution → Op (Option JobEngine)
  -- the proxy user of these proxy configs goes, with its trust and its secret
  pub delete_proxy_user : String → Op (Unit {0})
  pub needs_neutron_info : Bool
  pub get_neutron_info : Cluster → Op String
  -- how many rounds of a cancellation fit into CONF.job_canceling_timeout
  pub rounds : ℕ
  -- `context.sleep(3)`
  pub sleep : Op (Unit {0})

unfoldable pub set_job :
    String → Option JobExecution → (String → Option JobExecution) → String → Option JobExecution
set_job id row jobs j = if str_eq id j then row else jobs j

abbrev pub job_execution_get : String → Op (Option JobExecution)
job_execution_get id w = (ok (w.jobs id), w)

abbrev pub update_row :
    String
    → (JobExecution → JobExecution)
    → World
    → Option JobExecution
    → Result JobExecution × World
update_row id change w none = (err Error.not_found, w)
update_row id change w (some je) =
    (ok (change je), record w { jobs = set_job id (some (change je)) w.jobs })

unfoldable pub job_execution_update : String → (JobExecution → JobExecution) → Op JobExecution
job_execution_update id change w = update_row id change w (w.jobs id)

abbrev pub destroy_row : String → World → Option JobExecution → Result (Unit {0}) × World
destroy_row id w none = (err Error.not_found, w)
destroy_row id w (some je) = (ok tt, record w { jobs = set_job id none w.jobs })

unfoldable pub job_execution_destroy : String → Op (Unit {0})
job_execution_destroy id w = destroy_row id w (w.jobs id)

-- An attribute of a job execution that is None is an AttributeError.
abbrev pub the_job : String → Op JobExecution
the_job id = job_execution_get id >>= λ (je : Option JobExecution). expect je Error.attribute_error

-- `datetime.datetime.now()`
abbrev pub now : Op ℕ
now w = (ok w.clock, w)

abbrev pub set_status : JobStatus → JobExecution → JobExecution
set_status status je = record je { status = status }

-- The update of a job that has ended.
abbrev pub ended : JobStatus → ℕ → Option JobConfigs → JobExecution → JobExecution
ended status time none je = record je { status = status; end_time = some time }
ended status time (some configs) je = record je {
  status = status;
  end_time = some time;
  job_configs = configs;
}

abbrev pub failed_at : ℕ → JobExecution → JobExecution
failed_at time je = record je {
  status = JobStatus.failed;
  start_time = some time;
  end_time = some time;
}

-- The update of a job that was started at this time.
abbrev pub started : Started → ℕ → Dict String → JobExecution → JobExecution
started s time extra je = record je {
  engine_job_id = s.job_id;
  start_time = some time;
  status = elim s.status [ none ↦ je.status | some status ↦ status ];
  extra = elim s.extra [ [] ↦ je.extra | e ∷ es ↦ update extra s.extra ];
}

module _ (env : JobEnv) where
  abbrev delete_proxy : JobConfigs → Op (Option JobConfigs)
  delete_proxy configs = elim configs.proxy_configs [
    | none ↦ pure none
    | some p ↦ env.delete_proxy_user p >> pure (some (record configs { proxy_configs = none }))
  ]

  unfoldable pub delete_proxy_user_for_job_execution : JobExecution → Op (Option JobConfigs)
  delete_proxy_user_for_job_execution je = delete_proxy je.job_configs

  -- `_write_job_status`
  unfoldable pub write_job_status : JobExecution → JobStatus → Op JobExecution
  unfolding delete_proxy_user_for_job_execution job_execution_update
  write_job_status je status =
      if is_terminated status
      then (do
        time ← now
        configs ← delete_proxy_user_for_job_execution je
        job_execution_update je.id (ended status time configs))
      else job_execution_update je.id (set_status status)

  abbrev write_if_known : JobExecution → Option JobStatus → Op JobExecution
  write_if_known je none = pure je
  write_if_known je (some status) = write_job_status je status

  unfoldable pub update_job_status_by : JobEngine → JobExecution → Op JobExecution
  unfolding write_job_status
  update_job_status_by engine je = do info ← engine.get_job_status je; write_if_known je info

  unfoldable pub update_job_execution_extra : Cluster → JobExecution → Op JobExecution
  update_job_execution_extra c je =
      if env.needs_neutron_info
      then (do
        info ← env.get_neutron_info c
        job_execution_update je.id (λ j. record j { extra = insert "neutron" info je.extra }))
      else pure je

  abbrev pub record_start : JobExecution → Started → Op (Unit {0})
  record_start je s = do time ← now; job_execution_update je.id (started s time je.extra); pure tt

  abbrev pub start : JobEngine → JobExecution → Op Started
  start engine je =
      if je.job_configs.is_scheduled then engine.run_scheduled_job je else engine.run_job je

  abbrev pub run_with : Cluster → JobExecution → JobEngine → Op (Unit {0})
  run_with c je engine = do
    je' ← update_job_execution_extra c je
    s ← start engine je'
    record_start je' s

  -- A job with its engine, on a cluster that may run it.
  abbrev pub run_on : Cluster → JobExecution → Op (Unit {0})
  run_on c je = do
    found ← env.get_job_engine c je
    engine ← expect found Error.edp_error
    run_with c je engine

  abbrev pub run_if_active : Option Cluster → JobExecution → Op (Unit {0})
  run_if_active none je = pure tt
  run_if_active (some c) je = if is_active c.status then run_on c je else pure tt

  -- `_run_job`
  unfoldable pub run_job_body : String → Op (Unit {0})
  unfolding update_job_execution_extra
  run_job_body id = do
    je ← the_job id
    cluster ← cluster_get je.cluster_id
    run_if_active cluster je

  -- The rounds of the cancellation; each starts from the execution as it was read last.
  abbrev none_on_error : Result (Option JobStatus) × World → Result (Option JobStatus) × World
  none_on_error (ok info, w) = (ok info, w)
  none_on_error (err e, w) = (ok none, w)

  abbrev pub try_cancel : JobEngine → JobExecution → Op (Option JobStatus)
  try_cancel engine je w = none_on_error (engine.cancel_job je w)

  abbrev pub go_on :
      (JobExecution → Op (Option JobExecution)) → Option JobExecution → Op (Option JobExecution)
  go_on rest none = pure none
  go_on rest (some je) = rest je

  abbrev pub after_try :
      String
      → (JobExecution → Op (Option JobExecution))
      → JobExecution
      → Option JobStatus
      → Op (Option JobExecution)
  after_try id rest je none = do env.sleep; read ← job_execution_get id; go_on rest read
  after_try id rest je (some status) = do written ← write_job_status je status; pure (some written)

  pub cancel_rounds : ℕ → JobEngine → String → JobExecution → Op (Option JobExecution)
  cancel_rounds zero engine id je = raise Error.canceling_failed
  cancel_rounds (suc n) engine id je =
      if is_terminated je.status
      then pure (some je)
      else (do info ← try_cancel engine je; after_try id (cancel_rounds n engine id) je info)

  abbrev pub cancel_with : String → JobExecution → Option JobEngine → Op (Option JobExecution)
  cancel_with id je none = pure none
  cancel_with id je (some engine) = do
    je' ← job_execution_update id (set_status JobStatus.tobekilled)
    cancel_rounds env.rounds engine id je'

  abbrev pub cancel_on : String → JobExecution → Option Cluster → Op (Option JobExecution)
  cancel_on id je none = pure (some je)
  cancel_on id je (some c) = do engine ← env.get_job_engine c je; cancel_with id je engine

  abbrev pub cancel_live : String → JobExecution → Op (Option JobExecution)
  cancel_live id je =
      if is_terminated je.status
      then pure (some je)
      else (do cluster ← cluster_get je.cluster_id; cancel_on id je cluster)

  -- None if the execution was deleted meanwhile, or if there is no engine.
  unfoldable pub cancel_job : String → Op (Option JobExecution)
  unfolding cancel_rounds
  cancel_job id = do je ← the_job id; cancel_live id je

  -- The handler of `run_job`: an execution that has reached its engine is cancelled first.
  abbrev pub cancel_if_reached : String → JobExecution → Op (Unit {0})
  cancel_if_reached id je = elim je.engine_job_id [
    | none ↦ pure tt
    | some j ↦ cancel_job id >> pure tt
  ]

  abbrev pub mark_failed : String → Op (Unit {0})
  mark_failed id = do
    je ← the_job id
    cancel_if_reached id je
    time ← now
    job_execution_update id (failed_at time)
    pure tt

  abbrev pub run_handler : String → Result (Unit {0}) × World → Result (Unit {0}) × World
  run_handler id (ok x, w) = (ok tt, w)
  run_handler id (err e, w) = mark_failed id w

  unfoldable pub run_job : String → Op (Unit {0})
  unfolding run_job_body cancel_job
  run_job id w = run_handler id (run_job_body id w)

  abbrev status_from : JobExecution → Option JobEngine → Op JobExecution
  status_from je none = pure je
  status_from je (some engine) = update_job_status_by engine je

  abbrev status_on : JobExecution → Option Cluster → Op JobExecution
  status_on je none = pure je
  status_on je (some c) =
      if is_active c.status
      then (do engine ← env.get_job_engine c je; status_from je engine)
      else pure je

  unfoldable pub get_job_status : String → Op JobExecution
  unfolding update_job_status_by
  get_job_status id = do je ← the_job id; cluster ← cluster_get je.cluster_id; status_on je cluster

  abbrev pub ignore : Result JobExecution × World → Result (Unit {0}) × World
  ignore (r, w) = (ok tt, w)

  -- Any exception is logged only.
  unfoldable pub update_job_status : String → Op (Unit {0})
  unfolding get_job_status
  update_job_status id w = ignore (get_job_status id w)

  abbrev pub is_listed : Option String → Option JobExecution → Bool
  is_listed cluster_id none = false
  is_listed none (some je) = not (is_some je.end_time)
  is_listed (some c) (some je) = not (is_some je.end_time) && str_eq je.cluster_id c

  -- The executions with no end time, of the cluster if one is given.
  unfoldable pub update_job_statuses : Option String → Op (Unit {0})
  unfolding update_job_status
  update_job_statuses cluster_id w =
      each update_job_status (keep (λ id. is_listed cluster_id (w.jobs id)) w.job_ids) w

  -- `raise SuspendingFailed(...).format(...)`: the exception has no `format`.
  abbrev suspending_failed : {A : Type 0} → Op A
  suspending_failed = raise Error.attribute_error

  abbrev mark_unsuspended : String → Op JobExecution
  mark_unsuspended id = do
    job_execution_update id (set_status JobStatus.suspend_failed)
    suspending_failed

  abbrev after_suspend :
      String → JobExecution → Result (Option JobStatus) × World → Result JobExecution × World
  after_suspend id je (err e, w) = mark_unsuspended id w
  after_suspend id je (ok none, w) = mark_unsuspended id w
  after_suspend id je (ok (some status), w) = write_job_status je status w

  abbrev suspend_by : String → Option JobEngine → JobExecution → Op JobExecution
  suspend_by id none je w = mark_unsuspended id w
  suspend_by id (some engine) je w = after_suspend id je (engine.suspend_job je w)

  -- The plugin of a cluster that is None is an AttributeError.
  abbrev suspend_live : String → JobExecution → Op JobExecution
  suspend_live id je = do
    cluster ← cluster_get je.cluster_id
    c ← expect cluster Error.attribute_error
    engine ← env.get_job_engine c je
    je' ← job_execution_update id (set_status JobStatus.tobesuspended)
    suspend_by id engine je'

  unfoldable pub suspend_job : String → Op JobExecution
  suspend_job id = do
    je ← the_job id
    (if is_suspendible je.status then suspend_live id je else suspending_failed)

  abbrev pub destroy_unless_gone : String → Option JobExecution → Op (Unit {0})
  destroy_unless_gone id none = pure tt
  destroy_unless_gone id (some je) = job_execution_destroy id

  -- A cancellation that fails is no obstacle.
  abbrev pub after_cancel :
      String → Result (Option JobExecution) × World → Result (Unit {0}) × World
  after_cancel id (ok je, w) = destroy_unless_gone id je w
  after_cancel id (err Error.canceling_failed, w) = job_execution_destroy id w
  after_cancel id (err e, w) = (err e, w)

  -- `_delete_job_execution`
  unfoldable pub delete_job_execution : String → Op (Unit {0})
  unfolding cancel_job job_execution_destroy
  delete_job_execution id w = after_cancel id (cancel_job id w)
