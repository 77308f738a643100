-- ===== src/Jobs/Tests.antt =====
-- A job on the active cluster and one on a cluster being deleted, with an engine that cannot start
-- a job and ends a cancellation at once, and the theorems with them.
use sahara.Base.{
  ◌≡◌, refl, sym, ◌⊎◌, true, false, Option, none, some, [], ◌∷◌, Result, ok, err, Error, str_eq,
  if◌then◌else◌, is_some,
}
use sahara.Objects.{JobExecution, JobStatus, is_terminated}
use sahara.Conductor.{World, pure, raise, ◌>>=◌}
use sahara.Status.Tests.{world as clusters}
use sahara.Jobs.{
  JobEnv, JobEngine, set_job, job_execution_update, job_execution_destroy, write_job_status,
  delete_proxy_user_for_job_execution, run_job, run_job_body, update_job_execution_extra,
  cancel_rounds, cancel_job, get_job_status, update_job_status, update_job_status_by,
  update_job_statuses, delete_job_execution, suspend_job,
}
use sahara.Jobs.Records.{write_job_status-ends}
use sahara.Jobs.Runs.{NotRun, WasRun, run_job-ends}
use sahara.Jobs.Endings.{Failed, HasEngines, update_job_statuses-ok, delete_job_execution-gone}

abbrev engine : JobEngine
engine = record {
  run_job = λ je. raise Error.external;
  run_scheduled_job = λ je. raise Error.external;
  get_job_status = λ je. pure (some JobStatus.succeeded);
  cancel_job = λ je. pure (some JobStatus.killed);
  suspend_job = λ je. pure none;
}

abbrev env : JobEnv
env = record {
  get_job_engine = λ c je. pure (some engine);
  delete_proxy_user = λ p. pure tt;
  needs_neutron_info = false;
  get_neutron_info = λ c. pure "";
  rounds = 100;
  sleep = pure tt;
}

abbrev job : JobExecution
job = record {
  id = "j1";
  job_id = "pig";
  cluster_id = "c1";
  status = JobStatus.running;
  engine_job_id = none;
  start_time = none;
  end_time = none;
  extra = [];
  job_configs = record { is_scheduled = false; proxy_configs = some "user" };
}

abbrev world : World
world = record clusters {
  jobs = λ id. if str_eq id "j1" then some job else none;
  job_ids = "j1" ∷ [];
  clock = 7;
}

failed_run : (run_job env "j1" world).0 ≡ ok tt
unfolding run_job run_job_body ◌>>=◌ update_job_execution_extra job_execution_update set_job
failed_run = refl

abbrev killed : JobExecution
killed = record job {
  status = JobStatus.killed;
  end_time = some 7;
  job_configs = record { is_scheduled = false; proxy_configs = none };
}

cancelled : (cancel_job env "j1" world).0 ≡ ok (some killed)
unfolding cancel_job ◌>>=◌ job_execution_update set_job cancel_rounds write_job_status
    delete_proxy_user_for_job_execution
cancelled = refl

statuses_updated :
    (update_job_statuses env (some "c1") world).1.jobs "j1"
    ≡ some (record killed { status = JobStatus.succeeded })
unfolding update_job_statuses update_job_status get_job_status update_job_status_by ◌>>=◌
    write_job_status delete_proxy_user_for_job_execution job_execution_update set_job
statuses_updated = refl

unsuspended : (suspend_job env "j1" world).0 ≡ err Error.attribute_error
unfolding suspend_job ◌>>=◌ job_execution_update set_job
unsuspended = refl

-- The engine raises, so that the job is marked.
run_job-ends_example :
    ((je : JobExecution) × (world.jobs "j1" ≡ some je)
      × (NotRun je world (run_job env "j1" world).1
          ⊎ WasRun env je world (run_job env "j1" world).1))
    ⊎ (((e : Error) × ((run_job_body env "j1" world).0 ≡ err e))
        × Failed ((run_job env "j1" world).1.jobs "j1"))
unfolding run_job run_job_body ◌>>=◌ update_job_execution_extra job_execution_update set_job
run_job-ends_example = run_job-ends env "j1" world refl

write_job_status-ends_example :
    ((write_job_status env job JobStatus.killed world).1.jobs "j1" ≡ some killed)
    × (killed.status ≡ JobStatus.killed)
    × (is_terminated JobStatus.killed ≡ true → is_some killed.end_time ≡ true)
unfolding write_job_status ◌>>=◌ delete_proxy_user_for_job_execution job_execution_update set_job
write_job_status-ends_example = write_job_status-ends env job JobStatus.killed world refl

update_job_statuses-ok_example : (update_job_statuses env (some "c1") world).0 ≡ ok tt
update_job_statuses-ok_example = update_job_statuses-ok env (some "c1") world

has_engines : HasEngines env
has_engines c je w found w' e = (engine, sym (some_injective e))
  where
    some_injective :
        ◌≡◌ {A = Result (Option JobEngine) × World} (ok (some engine), w) (ok found, w')
        → some engine ≡ found
    some_injective q = cc q

delete_job_execution-gone_example : (delete_job_execution env "j1" world).1.jobs "j1" ≡ none
unfolding delete_job_execution cancel_job ◌>>=◌ job_execution_update set_job cancel_rounds
    write_job_status delete_proxy_user_for_job_execution job_execution_destroy
delete_job_execution-gone_example = delete_job_execution-gone env "j1" world has_engines refl
