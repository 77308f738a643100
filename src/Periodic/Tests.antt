-- ===== src/Periodic/Tests.antt =====
-- An old cluster that was never finished, and the theorems with it.
use sahara.Base.{ℕ, ◌≡◌, ◌&&◌, refl, true, some, String, [], ◌∷◌, ok, arith, mem, str_eq, ◌==◌, not}
use sahara.Objects.{ClusterStatus, Cluster}
use sahara.Conductor.{pure, ◌>>=◌, cluster_update, set_row}
use sahara.HashRing.{build_ring, check_object, owner, get_subset}
use sahara.HashRing.Tests.{hash, label}
use sahara.Status.Tests.{world, cluster}
use sahara.Status.Laws.{IsFinal}
use sahara.Ops.Deletion.{Keeps}
use sahara.Api.Tests.{env}
use sahara.Periodic.{Ring, terminate_cluster, is_incomplete, due_incomplete}
use sahara.Periodic.Due.{some_with, always, is_old, due_incomplete-one}
use sahara.Periodic.Deletes.{terminate_cluster-deletes}

abbrev spawning : Cluster
spawning = record cluster { id = "a"; status = ClusterStatus.spawning; trust_id = some "trust" }

abbrev age : Cluster → ℕ
age c = 7200

abbrev ring : Ring
ring = record { hash = hash; label = label; replicas = 1; members = "p1" ∷ "p2" ∷ [] }

due_here : due_incomplete age ring 1 "p1" (spawning ∷ cluster ∷ []) ≡ spawning ∷ []
unfolding due_incomplete get_subset build_ring check_object owner
due_here = refl

not_due_there : due_incomplete age ring 1 "p2" (spawning ∷ cluster ∷ []) ≡ []
unfolding due_incomplete get_subset build_ring check_object owner
not_due_there = refl

none_due_when_off : due_incomplete age ring 0 "p1" (spawning ∷ cluster ∷ []) ≡ []
unfolding due_incomplete
none_due_when_off = refl

due_incomplete-one_example :
    (o : String) × (mem o ("p1" ∷ "p2" ∷ []) ≡ true)
    × ((member_id : String)
        → some_with "a" always (due_incomplete age ring 1 member_id (spawning ∷ cluster ∷ [])) ≡ (
            not (1 == 0)
            && (some_with "a" (λ c. is_old age 1 c && is_incomplete c) (spawning ∷ cluster ∷ [])
                && str_eq o member_id)))
due_incomplete-one_example =
    due_incomplete-one age hash label 1 "p1" ("p2" ∷ []) 1 (spawning ∷ cluster ∷ []) "a"
      (omega arith)

-- The cluster c2 is being deleted, but the task has read it before that: its status is overwritten.
overwritten :
    (terminate_cluster true
        (λ id. pure tt)
        (λ id. pure tt)
        (record cluster { id = "c2" })
        world).1.rows
      "c2"
    ≡ some (record cluster { id = "c2"; status = ClusterStatus.awaiting_termination })
unfolding terminate_cluster ◌>>=◌ cluster_update set_row
overwritten = refl

terminate_cluster-deletes_example :
    ((terminate_cluster true
        (λ id. pure tt)
        (sahara.Api.terminate_cluster env)
        (record cluster { trust_id = some "trust" })
        world).0
      ≡ ok tt)
    × IsFinal (
        (terminate_cluster true
            (λ id. pure tt)
            (sahara.Api.terminate_cluster env)
            (record cluster { trust_id = some "trust" })
            world).1.rows
          "c1")
unfolding Keeps
terminate_cluster-deletes_example =
    terminate_cluster-deletes env (λ id. pure tt) (record cluster { trust_id = some "trust" }) world
      refl refl (λ w h. h)
