-- ===== src/Api/Termination.antt =====
-- A termination from its entry point to its end in the background.
use sahara.Base.{refl, Option, none, some, String, Result, ok, err, inl, inr}
use sahara.Objects.{ClusterStatus, Cluster}
use sahara.Conductor.{World, ◌>>=◌, after}
use sahara.Status.{change_cluster_status, status_notify}
use sahara.Status.Laws.{IsFinal, Changed, change_cluster_status-Effect}
use sahara.Ops.Deletion.{Keeps, bind-Keeps, pure-Keeps}
use sahara.Api.{ApiEnv, terminate_cluster, terminate_if}

-- A cluster whose status was set to Deleting is gone or being deleted.
deleting-IsFinal :
    (before after : Option Cluster) → Changed ClusterStatus.deleting before after → IsFinal after
deleting-IsFinal before none h = tt
deleting-IsFinal none (some c) h = absurd (cc h)
deleting-IsFinal (some b) (some c) (inl (deleting, same)) = rw (same, deleting) refl
deleting-IsFinal (some b) (some c) (inr (live, new)) = rw new refl

status_notify-Keeps : (id j : String) (status : ClusterStatus) → Keeps id (status_notify j status)
unfolding Keeps
status_notify-Keeps id j status w h = h

terminate_if-Keeps :
    (env : ApiEnv) (id : String) (c : Option Cluster)
    → Keeps id (env.terminate_cluster id)
    → Keeps id (terminate_if env id c)
terminate_if-Keeps env id none h = pure-Keeps id tt
terminate_if-Keeps env id (some c) h =
    bind-Keeps id (env.terminate_cluster id) (λ x. status_notify c.id c.status) h
      (λ x. status_notify-Keeps id c.id c.status)

-- Where the operation in the background respects deletion, a request for a termination leaves the
-- cluster gone or being deleted, whatever its status was and whether or not the operation succeeds.
pub terminate_cluster-IsFinal :
    (env : ApiEnv) (id : String) (w : World)
    → Keeps id (env.terminate_cluster id)
    → IsFinal ((terminate_cluster env id w).1.rows id)
unfolding terminate_cluster Keeps ◌>>=◌
terminate_cluster-IsFinal env id w keeps =
    go (change_cluster_status env.disable_event_log (some id) ClusterStatus.deleting none w) (
      deleting-IsFinal _ _
        (change_cluster_status-Effect env.disable_event_log id ClusterStatus.deleting none w).1)
  where
    go :
        (p : Result (Option Cluster) × World)
        → IsFinal (p.1.rows id)
        → IsFinal ((after p (terminate_if env id)).1.rows id)
    go (ok c, w₁) h = terminate_if-Keeps env id c keeps w₁ h
    go (err e, w₁) h = h
