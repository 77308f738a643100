-- ===== src/Ops/Handler.antt =====
-- The error handler around the operations settles the cluster, whatever the operation did.
use mathlib.Core.Path.{subst}
use sahara.Base.{
  ◌≡◌, refl, ap, Bool, true, false, Option, none, some, String, List, Result, ok, err, Error, ◌⊎◌,
  inl, inr, Bool-cases, [], ◌∷◌, if◌then◌else◌,
}
use sahara.Objects.{ClusterStatus, Cluster, is_deleting}
use sahara.Conductor.{World, Op, ◌>>◌, pure}
use sahara.Conductor.Rows.{bind_ok, bind_inv}
use sahara.Status.Laws.{Changed, change_cluster_status-Effect}
use sahara.Ops.{
  Env, ops_error_handler, attempted, try_rollback, rollback_cluster, recover, after_rollback,
  is_gone_or_deleting, change_status,
}

-- Gone, being deleted, Active or in Error.
abbrev pub Settled : Option Cluster → Type 0
Settled none = Unit
Settled (some c) =
    (is_deleting c.status ≡ true)
    ⊎ (c.status ≡ ClusterStatus.active)
    ⊎ (c.status ≡ ClusterStatus.error)

Changed-Settled :
    (status : ClusterStatus) (before after : Option Cluster)
    → (status ≡ ClusterStatus.active) ⊎ (status ≡ ClusterStatus.error)
    → Changed status before after
    → Settled after
Changed-Settled status before none s h = tt
Changed-Settled status none (some c) s h = absurd (none_not_some h)
  where
    none_not_some : some c ≡ none → ⊥
    none_not_some e = cc e
Changed-Settled status (some b) (some c) s (inl (deleting, same)) = inl (rw same deleting)
Changed-Settled status (some b) (some c) (inl a) (inr (live, new)) = inr (inl (rw (new, a)))
Changed-Settled status (some b) (some c) (inr a) (inr (live, new)) = inr (inr (rw (new, a)))

gone-Settled : (row : Option Cluster) → is_gone_or_deleting row ≡ true → Settled row
gone-Settled none h = tt
gone-Settled (some c) h = inl h

module _ (env : Env) (description : List Error → String) (id : String) where
  final_status :
      (done : Bool)
      → ((if done then ClusterStatus.active else ClusterStatus.error) ≡ ClusterStatus.active)
        ⊎ ((if done then ClusterStatus.active else ClusterStatus.error) ≡ ClusterStatus.error)
  final_status true = inl refl
  final_status false = inr refl

  changed-Settled :
      (status : ClusterStatus) (text : Option String) (w : World)
      {p : Result (Option Cluster) × World}
      → (status ≡ ClusterStatus.active) ⊎ (status ≡ ClusterStatus.error)
      → change_status env (some id) status text w ≡ p
      → Settled (p.1.rows id)
  changed-Settled status text w s h =
      subst (λ p. Settled (p.1.rows id)) h
        (Changed-Settled status _ _ s
          (change_cluster_status-Effect env.disable_event_log id status text w).1)

  try_rollback-Settled :
      (cluster : Option Cluster) (ex : Error) (w : World) {x : Unit {0}} {w' : World}
      → try_rollback env description cluster id ex w ≡ (ok x, w')
      → Settled (w'.rows id)
  unfolding try_rollback
  try_rollback-Settled cluster ex w h =
      let (done, w₁, rolled, rest) = bind_inv (rollback_cluster env cluster id ex) _ w h in
      let (row, w₂, changed, last) = bind_inv (change_status env (some id) _ _) _ w₁ rest in
      subst (λ p. Settled (p.1.rows id)) last (changed-Settled _ _ w₁ (final_status done) changed)

  -- The result of a handler: it returns, with the cluster settled.
  abbrev Quiet : Result (Unit {0}) × World → Type 0
  Quiet (r, w') = (r ≡ ok tt) × Settled (w'.rows id)

  mark_error-Quiet :
      (text : String) (w : World)
      → Quiet ((change_status env (some id) ClusterStatus.error (some text) >> pure tt) w)
  mark_error-Quiet text w =
      let e =
        change_cluster_status-Effect env.disable_event_log id ClusterStatus.error (some text) w in
      let (d, returned) = e.0 in
      let both : change_status env (some id) ClusterStatus.error (some text) w
          ≡ (ok d, (change_status env (some id) ClusterStatus.error (some text) w).1) =
        ap
          (λ (r : Result (Option Cluster)).
            (r, (change_status env (some id) ClusterStatus.error (some text) w).1))
          returned in
      rw
        (bind_ok (change_status env (some id) ClusterStatus.error (some text)) (λ _. pure tt) w
          both)
        (refl, Changed-Settled ClusterStatus.error _ _ (inr refl) e.1)

  after_rollback-Quiet :
      (ex : Error) (p : Result (Unit {0}) × World)
      → ((w' : World) → p ≡ (ok tt, w') → Settled (w'.rows id))
      → Quiet (after_rollback env description id ex p)
  after_rollback-Quiet ex (ok x, w) h = (refl, h w refl)
  after_rollback-Quiet ex (err rex, w) h = elim (Bool-cases (is_gone_or_deleting (w.rows id))) [
    | inl gone ↦ rw gone (refl, gone-Settled (w.rows id) gone)
    | inr there ↦ rw there (mark_error-Quiet (description (ex ∷ rex ∷ [])) w)
  ]

  recover-Quiet : (ex : Error) (w : World) → Quiet (recover env description id (err ex, w))
  recover-Quiet ex w = elim (Bool-cases (is_gone_or_deleting (w.rows id))) [
    | inl gone ↦ rw gone (refl, gone-Settled (w.rows id) gone)
    | inr there ↦ rw there (
        after_rollback-Quiet ex (try_rollback env description (w.rows id) id ex w)
          (λ w' e. try_rollback-Settled (w.rows id) ex w e))
  ]

-- A decorated operation raises nothing. Either the operation itself returned, and its result is the
-- result, or the cluster is settled: it is gone, being deleted, Active or in Error. This holds
-- whatever the operation, the engine's rollback and the services do.
pub ops_error_handler-Settled :
    (env : Env) (description : List Error → String) (f : String → Op (Unit {0})) (id : String)
    (w : World)
    → let (r, w') = ops_error_handler env description f id w in
      (r ≡ ok tt) × ((attempted f id w ≡ (ok tt, w')) ⊎ Settled (w'.rows id))
unfolding ops_error_handler
ops_error_handler-Settled env description f id w = go (attempted f id w) refl
  where
    go :
        (p : Result (Unit {0}) × World)
        → attempted f id w ≡ p
        → let (r, w') = recover env description id (attempted f id w) in
          (r ≡ ok tt) × ((attempted f id w ≡ (ok tt, w')) ⊎ Settled (w'.rows id))
    go (ok x, w₁) e = rw e (refl, inl refl)
    go (err ex, w₁) e =
        let (returned, settled) = recover-Quiet env description id ex w₁ in
        rw e (returned, inr settled)
