-- ===== src/Periodic/Deletes.antt =====
-- What a periodic termination through the service API comes to.
use sahara.Base.{◌≡◌, refl, true, String, ok}
use sahara.Objects.{Cluster, truthy}
use sahara.Conductor.{World, Op, after, ◌>>=◌}
use sahara.Status.Laws.{IsFinal}
use sahara.Ops.Deletion.{Keeps}
use sahara.Api.{ApiEnv}
use sahara.Api.Termination.{terminate_cluster-IsFinal}
use sahara.Periodic.{caught, terminate_cluster}

through_api :
    (use_os_admin_auth_token api_terminate_cluster : String → Op (Unit {0})) (c : Cluster)
    (w : World)
    → truthy c.trust_id ≡ true
    → (use_os_admin_auth_token c.id w).0 ≡ ok tt
    → terminate_cluster true use_os_admin_auth_token api_terminate_cluster c w
      ≡ caught (api_terminate_cluster c.id (use_os_admin_auth_token c.id w).1)
unfolding terminate_cluster ◌>>=◌
through_api token api c w trusted logged_in =
    rw (trusted, terminate_cluster) (rw (logged_in, after) refl)

-- A cluster with a trust, whose token is obtained, is gone or being deleted after a periodic
-- termination, which raises nothing, where the operation in the background respects deletion.
pub terminate_cluster-deletes :
    (env : ApiEnv) (use_os_admin_auth_token : String → Op (Unit {0})) (c : Cluster) (w : World)
    → truthy c.trust_id ≡ true
    → (use_os_admin_auth_token c.id w).0 ≡ ok tt
    → Keeps c.id (env.terminate_cluster c.id)
    → ((terminate_cluster true use_os_admin_auth_token (sahara.Api.terminate_cluster env) c w).0
        ≡ ok tt)
      × IsFinal (
          (terminate_cluster true use_os_admin_auth_token
              (sahara.Api.terminate_cluster env)
              c
              w).1.rows
            c.id)
terminate_cluster-deletes env token c w trusted logged_in keeps =
    rw (through_api token (sahara.Api.terminate_cluster env) c w trusted logged_in)
      (refl, terminate_cluster-IsFinal env c.id (token c.id w).1 keeps)
