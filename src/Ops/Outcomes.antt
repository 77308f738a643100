-- ===== src/Ops/Outcomes.antt =====
-- What the operations have reached when they return.
use sahara.Base.{
  ◌≡◌, refl, sym, ap, ◌∙◌, Option, none, some, String, List, Result, ok, Error, inl, inr,
}
use sahara.Objects.{Cluster}
use sahara.Conductor.{World, cluster_get, cluster_destroy, expect, lift}
use sahara.Conductor.Rows.{bind_inv, set_row_self}
use sahara.Status.{change_cluster_status_description}
use sahara.Ops.{
  Env, terminate_body, delete_trust_from_cluster, setup_trust_for_cluster, terminate_cluster,
}
use sahara.Ops.Handler.{Settled, ops_error_handler-Settled}

destroy_gone :
    (id : String) (w : World) {x : Unit {0}} {w' : World}
    → cluster_destroy id w ≡ (ok x, w')
    → w'.rows id ≡ none
unfolding cluster_destroy
destroy_gone id w {x} {w'} h = go (w.rows id) refl
  where
    go : (row : Option Cluster) → w.rows id ≡ row → w'.rows id ≡ none
    go none e = cc (rw (e, cluster_destroy) at h)
    go (some c) e =
        sym (ap (λ (p : Result (Unit {0}) × World). p.1.rows id) (rw (e, cluster_destroy) at h))
        ∙ set_row_self id none w.rows

-- Where a termination returns, the cluster's row is gone.
terminate_body-Gone :
    (env : Env) (id : String) (w : World) {w' : World}
    → terminate_body env id w ≡ (ok tt, w')
    → w'.rows id ≡ none
unfolding terminate_body
terminate_body-Gone env id w h =
    let (x1, w1, e1, h1) = bind_inv (setup_trust_for_cluster env id) _ w h in
    let (x2, w2, e2, h2) = bind_inv (env.update_job_statuses id) _ w1 h1 in
    let (x3, w3, e3, h3) = bind_inv (cluster_get id) _ w2 h2 in
    let (c, w4, e4, h4) = bind_inv (expect x3 Error.attribute_error) _ w3 h3 in
    let (plugin, w5, e5, h5) = bind_inv (lift (env.get_plugin c.plugin_name)) _ w4 h4 in
    let (x6, w6, e6, h6) = bind_inv (plugin.on_terminate_cluster (some c)) _ w5 h5 in
    let (x7, w7, e7, h7) = bind_inv (env.infra.shutdown_cluster (some c)) _ w6 h6 in
    let (x8, w8, e8, h8) = bind_inv (delete_trust_from_cluster env id) _ w7 h7 in
    destroy_gone id w8 h8

-- A termination raises nothing, and afterwards the cluster is gone, being deleted, Active (its
-- engine rolled the failure back) or in Error.
pub terminate_cluster-Settled :
    (env : Env) (description : List Error → String) (id : String) (w : World)
    → let (r, w') = terminate_cluster env description id w in (r ≡ ok tt) × Settled (w'.rows id)
unfolding terminate_cluster
terminate_cluster-Settled env description id w =
    let (returned, outcome) = ops_error_handler-Settled env description (terminate_body env) id w in
    (
      returned,
      elim outcome [
        | inl done ↦
            let (x, w1, e1, h1) =
              bind_inv (change_cluster_status_description (some id) "") _ w done in
            gone-Settled _ (terminate_body-Gone env id w1 h1)
        | inr settled ↦ settled
      ],
    )
  where
    gone-Settled : (row : Option Cluster) → row ≡ none → Settled row
    gone-Settled none e = tt
    gone-Settled (some c) e = absurd (cc e)
