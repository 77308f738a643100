-- ===== src/Health.antt =====
-- The verification of a running cluster (sahara/service/health/verification_base.py). The health
-- checks themselves are a parameter: the statuses that they end in.
pub mod Decision
mod Tests
use sahara.Base.{
  ℕ, zero, suc, ◌+◌, Bool, true, false, not, Option, none, some, String, List, [], ◌∷◌, Result, ok,
  err, Error, raise_if, if◌then◌else◌, ◌==◌, ltb, length, is_some,
}
use sahara.Objects.{HealthStatus, Cluster, is_active}
use sahara.Conductor.{World, Op, pure, raise, lift, ◌>>=◌, ◌>>◌, cluster_get, cluster_update}

-- `cnt[status]`
pub count_green : List HealthStatus → ℕ
count_green [] = 0
count_green (HealthStatus.green ∷ cs) = suc (count_green cs)
count_green (c ∷ cs) = count_green cs

pub count_red : List HealthStatus → ℕ
count_red [] = 0
count_red (HealthStatus.red ∷ cs) = suc (count_red cs)
count_red (c ∷ cs) = count_red cs

-- `_decide_status_for_verification`, from the statuses of the checks.
unfoldable pub decide_status : List HealthStatus → HealthStatus
unfolding count_green count_red
decide_status checks =
    if count_green checks == length checks
    then HealthStatus.green
    else if ltb 0 (count_red checks)
    then HealthStatus.red
    else HealthStatus.yellow

abbrev is_checking : HealthStatus → Bool
is_checking HealthStatus.checking = true
is_checking _ = false

abbrev pub set_verification : Option HealthStatus → Cluster → Cluster
set_verification v c = record c { verification = v }

abbrev pub may_start : Option Cluster → Bool
may_start none = false
may_start (some c) = is_active c.status

abbrev verification_runs : Option Cluster → Bool
verification_runs none = false
verification_runs (some c) = elim c.verification [ none ↦ false | some s ↦ is_checking s ]

unfoldable pub validate_verification_start : Bool → String → Op (Unit {0})
validate_verification_start enabled id = do
  lift (raise_if (not enabled) Error.cannot_verify)
  cluster ← cluster_get id
  lift (raise_if (not (may_start cluster)) Error.cannot_verify)
  lift (raise_if (verification_runs cluster) Error.cannot_verify)

-- `verification_run`: the old verification goes, a new one is CHECKING while the checks run.
unfoldable pub verification_run : Op (List HealthStatus) → String → Op (Unit {0})
verification_run checks id = do
  cluster_update id (set_verification (some HealthStatus.checking))
  statuses ← checks
  cluster_update id (set_verification (some (decide_status statuses)))
  pure tt

-- `cluster.id` of a cluster that is None is an AttributeError.
abbrev pub run_for : Op (List HealthStatus) → String → Option Cluster → Op (Unit {0})
run_for checks id none = raise Error.attribute_error
run_for checks id (some c) = verification_run checks id

-- `handle_verification` with the status START, as `_refresh_health_for_cluster` calls it.
unfoldable pub handle_verification : Op (List HealthStatus) → String → Op (Unit {0})
unfolding verification_run
handle_verification checks id = do cluster ← cluster_get id; run_for checks id cluster

abbrev pub drop_verification : Option Cluster → String → Op (Unit {0})
drop_verification none id = pure tt
drop_verification (some c) id =
    if is_some c.verification then cluster_update id (set_verification none) >> pure tt else pure tt

-- A verification that is gone already is no error.
unfoldable pub clean_verification_data : String → Op (Unit {0})
clean_verification_data id = do cluster ← cluster_get id; drop_verification cluster id

-- The two `except` clauses of `_refresh_health_for_cluster`.
abbrev pub refresh_handler : String → Result (Unit {0}) × World → Result (Unit {0}) × World
refresh_handler id (ok x, w) = (ok tt, w)
refresh_handler id (err Error.cannot_verify, w) = (ok tt, w)
refresh_handler id (err e, w) = clean_verification_data id w

-- `_refresh_health_for_cluster` (sahara/service/ops.py).
unfoldable pub refresh_health : Bool → Op (List HealthStatus) → String → Op (Unit {0})
unfolding validate_verification_start handle_verification clean_verification_data
refresh_health enabled checks id w =
    refresh_handler id ((validate_verification_start enabled id >> handle_verification checks id) w)
