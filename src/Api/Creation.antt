-- ===== src/Api/Creation.antt =====
-- A creation that does not validate.
use sahara.Base.{◌≡◌, ap, ◌⊎◌, inl, inr, true, Option, none, some, String, Result, ok, err, Error}
use mathlib.Core.Path.{subst}
use sahara.Objects.{ClusterStatus, Cluster, is_deleting}
use sahara.Conductor.{World, Op, raise}
use sahara.Conductor.Rows.{bind_ok}
use sahara.Status.{change_cluster_status}
use sahara.Status.Laws.{Changed, change_cluster_status-Effect}
use sahara.Api.{ApiEnv, ApiPlugin, validate_cluster, spoil, or_spoil, try_creation}

-- Gone, being deleted, or in Error.
abbrev pub Spoiled : Option Cluster → Type 0
Spoiled none = Unit
Spoiled (some c) = (is_deleting c.status ≡ true) ⊎ (c.status ≡ ClusterStatus.error)

Changed-Spoiled :
    (before after : Option Cluster) → Changed ClusterStatus.error before after → Spoiled after
Changed-Spoiled before none h = tt
Changed-Spoiled none (some c) h = absurd (cc h)
Changed-Spoiled (some b) (some c) (inl (deleting, same)) = inl (rw same deleting)
Changed-Spoiled (some b) (some c) (inr (live, new)) = inr new

spoil-Spoiled :
    (env : ApiEnv) (text : Error → String) (id : String) (e : Error) (w : World)
    → Spoiled ((spoil env text id e w).1.rows id)
spoil-Spoiled env text id e w =
    let effect =
      change_cluster_status-Effect env.disable_event_log id ClusterStatus.error (some (text e)) w in
    let (d, returned) = effect.0 in
    let mark : Op (Option Cluster) =
      change_cluster_status env.disable_event_log (some id) ClusterStatus.error (some (text e)) in
    let both : mark w ≡ (ok d, (mark w).1) =
      ap (λ (r : Result (Option Cluster)). (r, (mark w).1)) returned in
    rw (bind_ok mark (λ x. raise {A = Cluster} e) w both) (Changed-Spoiled _ _ effect.1)

-- A creation whose quota checks or whose plugin refuse the cluster leaves it in Error, unless it is
-- gone or being deleted.
pub try_creation-Spoiled :
    (env : ApiEnv) (text : Error → String) (plugin : Option ApiPlugin) (id : String) (c : Cluster)
    (w : World) {e : Error} {w' : World}
    → try_creation env text plugin id c w ≡ (err e, w')
    → Spoiled (w'.rows id)
unfolding try_creation
try_creation-Spoiled env text plugin id c w {e} {w'} h = go (validate_cluster env plugin id c w) h
  where
    go : (p : Result Cluster × World) → or_spoil env text id p ≡ (err e, w') → Spoiled (w'.rows id)
    go (ok v, w₁) q = absurd (cc q)
    go (err x, w₁) q =
        subst (λ (p : Result Cluster × World). Spoiled (p.1.rows id)) q
          (spoil-Spoiled env text id x w₁)
