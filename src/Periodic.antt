-- ===== src/Periodic.antt =====
-- The periodic tasks that terminate clusters (sahara/service/periodic.py), on the shares of the hash
-- ring. Ages and the calls of the service API are arguments.
pub mod Due
pub mod Deletes
mod Tests
use sahara.Base.{
  ℕ, ◌*◌, Bool, true, false, not, ◌&&◌, ◌||◌, Option, none, some, String, List, [], ◌∷◌, map,
  Result, ok, err, Error, if◌then◌else◌, str_eq, ltb, ◌==◌, mem, keep,
}
use sahara.Objects.{ClusterStatus, Cluster, truthy, is_deleting, is_active}
use sahara.Conductor.{World, Op, pure, raise, ◌>>=◌, ◌>>◌, each, cluster_update}
use sahara.HashRing.{get_subset}

abbrev pub is_awaiting : ClusterStatus → Bool
is_awaiting ClusterStatus.awaiting_termination = true
is_awaiting _ = false

abbrev pub is_error : ClusterStatus → Bool
is_error ClusterStatus.error = true
is_error _ = false

abbrev pub await_termination : Cluster → Cluster
await_termination c = record c { status = ClusterStatus.awaiting_termination }

-- `try: api.terminate_cluster(cluster.id)`, with any exception logged.
abbrev pub caught : Result (Unit {0}) × World → Result (Unit {0}) × World
caught (r, w) = (ok tt, w)

module _ (use_identity_api_v3 : Bool)
    (use_os_admin_auth_token api_terminate_cluster : String → Op (Unit {0})) where
  -- By what the task has read of the cluster.
  unfoldable pub terminate_cluster : Cluster → Op (Unit {0})
  terminate_cluster cluster w =
      if use_identity_api_v3 && truthy cluster.trust_id
      then (use_os_admin_auth_token cluster.id >> λ w₁.
            caught (api_terminate_cluster cluster.id w₁))
          w
      else if is_awaiting cluster.status
      then (ok tt, w)
      else (cluster_update cluster.id await_termination >> pure tt) w

-- What all processes know: the hash ring's parameters and members.
pub record Ring : Type 0 where
  pub hash : String → ℕ
  pub label : String → ℕ → String
  pub replicas : ℕ
  pub members : List String

-- `self.hr.get_subset(clusters)`, for clusters with different ids.
abbrev pub share : Ring → String → List Cluster → List Cluster
share ring member_id clusters =
    keep
      (λ (c : Cluster). mem c.id (
        get_subset ring.hash ring.label ring.replicas true member_id ring.members
          (map (λ (d : Cluster). d.id) clusters)))
      clusters

abbrev pub is_incomplete : Cluster → Bool
is_incomplete c = not (is_active c.status || is_error c.status || is_deleting c.status)

-- The clusters that a process terminates as incomplete, none where the cleanup is off; `age` is the time since the last update.
unfoldable pub due_incomplete : (Cluster → ℕ) → Ring → ℕ → String → List Cluster → List Cluster
due_incomplete age ring cleanup_time member_id clusters =
    if cleanup_time == 0
    then []
    else keep (λ c. not (ltb (age c) (cleanup_time * 3600)))
        (share ring member_id (keep is_incomplete clusters))

-- The clusters that a process terminates as unneeded, of the active transient ones.
unfoldable pub due_unneeded :
    (Cluster → ℕ) → (Cluster → ℕ) → Ring → ℕ → String → List Cluster → List Cluster
due_unneeded job_execution_count age ring min_active_time member_id clusters =
    keep (λ c. not (ltb 0 (job_execution_count c)) && not (ltb (age c) min_active_time))
      (share ring member_id clusters)

module _ (use_identity_api_v3 : Bool)
    (use_os_admin_auth_token api_terminate_cluster : String → Op (Unit {0})) where
  unfoldable pub terminate_incomplete_clusters :
      (Cluster → ℕ) → Ring → ℕ → String → List Cluster → Op (Unit {0})
  terminate_incomplete_clusters age ring cleanup_time member_id clusters w =
      each (terminate_cluster use_identity_api_v3 use_os_admin_auth_token api_terminate_cluster)
        (due_incomplete age ring cleanup_time member_id clusters) w

  unfoldable pub terminate_unneeded_transient_clusters :
      (Cluster → ℕ) → (Cluster → ℕ) → Ring → ℕ → String → List Cluster → Op (Unit {0})
  terminate_unneeded_transient_clusters job_execution_count age ring min_active_time member_id
        clusters w =
      each (terminate_cluster use_identity_api_v3 use_os_admin_auth_token api_terminate_cluster)
        (due_unneeded job_execution_count age ring min_active_time member_id clusters) w
