-- ===== src/Conductor/Rows.antt =====
-- Reading a row after a write.
use text.Mathlib.TextPositions.{eq_refl}
use sahara.Base.{
  ◌≡◌, ap, ◌≢◌, refl, true, false, Option, none, some, String, Result, List, map, ok, err, Error,
  arith, eq_iff,
}
use sahara.Objects.{Cluster, NodeGroup}
use sahara.Conductor.{
  after, World, Op, ◌>>=◌, set_row, change_group, node_group_update, cluster_update, step_update,
  cluster_provision_progress_update,
}

pub set_row_self :
    (id : String) (row : Option Cluster) (rows : String → Option Cluster)
    → set_row id row rows id ≡ row
unfolding set_row
set_row_self id row rows = simp eq_refl

pub set_row_other :
    (id j : String) (row : Option Cluster) (rows : String → Option Cluster)
    → j ≢ id
    → set_row id row rows j ≡ rows j
unfolding set_row
set_row_other id j row rows ne = ground (arith, eq_iff id j)

-- The calls on a row that is there, and on one that is not.
pub cluster_update_found :
    (id : String) (change : Cluster → Cluster) (w : World) {c : Cluster}
    → w.rows id ≡ some c
    → cluster_update id change w
      ≡ (ok (change c), record w { rows = set_row id (some (change c)) w.rows })
unfolding cluster_update
cluster_update_found id change w e = rw (e, cluster_update)

pub cluster_update_missing :
    (id : String) (change : Cluster → Cluster) (w : World)
    → w.rows id ≡ none
    → cluster_update id change w ≡ (err Error.not_found, w)
unfolding cluster_update
cluster_update_missing id change w e = rw (e, cluster_update)

-- The cluster with its steps brought up to date.
abbrev pub progressed : Cluster → Cluster
progressed c = record c { provision_progress = map step_update c.provision_progress }

pub progress_found :
    (id : String) (w : World) {c : Cluster}
    → w.rows id ≡ some c
    → cluster_provision_progress_update false id w
      ≡ (ok (some (progressed c)), record w { rows = set_row id (some (progressed c)) w.rows })
unfolding cluster_provision_progress_update
progress_found id w e = rw (e, cluster_provision_progress_update)

pub progress_disabled :
    (id : String) (w : World) → cluster_provision_progress_update true id w ≡ (ok (w.rows id), w)
unfolding cluster_provision_progress_update
progress_disabled id w = refl

pub node_group_update_found :
    (id ng_id : String) (change : NodeGroup → NodeGroup) (w : World) {c : Cluster}
    {ngs : List NodeGroup}
    → w.rows id ≡ some c
    → change_group ng_id change c.node_groups ≡ some ngs
    → node_group_update id ng_id change w
      ≡ (ok tt, record w { rows = set_row id (some (record c { node_groups = ngs })) w.rows })
unfolding node_group_update
node_group_update_found id ng_id change w e f = rw (e, node_group_update, f)

pub node_group_update_missing :
    (id ng_id : String) (change : NodeGroup → NodeGroup) (w : World) {c : Cluster}
    → w.rows id ≡ some c
    → change_group ng_id change c.node_groups ≡ none
    → node_group_update id ng_id change w ≡ (err Error.not_found, w)
unfolding node_group_update
node_group_update_missing id ng_id change w e f = rw (e, node_group_update, f)

pub node_group_update_gone :
    (id ng_id : String) (change : NodeGroup → NodeGroup) (w : World)
    → w.rows id ≡ none
    → node_group_update id ng_id change w ≡ (err Error.not_found, w)
unfolding node_group_update
node_group_update_gone id ng_id change w e = rw (e, node_group_update)

-- One step of a chain of calls.
pub bind_ok :
    {A B : Type 0} (m : Op A) (f : A → Op B) (w : World) {a : A} {w' : World}
    → m w ≡ (ok a, w')
    → ◌>>=◌ m f w ≡ f a w'
unfolding ◌>>=◌
bind_ok m f w e = ap (λ p. after p f) e

pub bind_err :
    {A B : Type 0} (m : Op A) (f : A → Op B) (w : World) {x : Error} {w' : World}
    → m w ≡ (err x, w')
    → ◌>>=◌ m f w ≡ (err x, w')
unfolding ◌>>=◌
bind_err m f w e = ap (λ p. after p f) e

-- A chain that returns: its first part returned, and so did the rest.
pub bind_inv :
    {A B : Type 0} (m : Op A) (f : A → Op B) (w : World) {b : B} {w' : World}
    → ◌>>=◌ m f w ≡ (ok b, w')
    → (a : A) × (w₁ : World) × (m w ≡ (ok a, w₁)) × (f a w₁ ≡ (ok b, w'))
unfolding ◌>>=◌
bind_inv {A} {B} m f w {b} {w'} h = go (m w) refl
  where
    go :
        (p : Result A × World)
        → m w ≡ p
        → (a : A) × (w₁ : World) × (m w ≡ (ok a, w₁)) × (f a w₁ ≡ (ok b, w'))
    go (ok a, w₁) e = (a, w₁, e, rw e at h)
    go (err x, w₁) e = absurd (err_not_ok (rw e at h))
      where
        err_not_ok : ◌≡◌ {A = Result B × World} (err x, w₁) (ok b, w') → ⊥
        err_not_ok q = cc q
