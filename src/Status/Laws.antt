-- ===== src/Status/Laws.antt =====
-- What a change of status does to the rows, and what it leaves alone.
use mathlib.Core.Path.{subst}
use sahara.Base.{
  ◌≡◌, sym, ◌≢◌, refl, Bool, true, false, Option, none, some, String, List, [], ◌∷◌, ◌++◌, Result,
  ok, ◌⊎◌, ◌∙◌, inl, inr, Bool-cases,
}
use sahara.Objects.{ClusterStatus, Cluster, is_deleting}
use sahara.Conductor.{World, ◌>>=◌, set_row, cluster_update, cluster_provision_progress_update}
use sahara.Conductor.Rows.{
  set_row_self, set_row_other, cluster_update_found, cluster_update_missing, progress_found,
  progress_disabled, progressed, bind_ok,
}
use sahara.Status.{
  describe, change_cluster_status_description, to_status, status_notify, change_cluster_status,
  write_status, write_unless_final,
}

-- The cluster is gone, or marked for deletion.
abbrev pub IsFinal : Option Cluster → Type 0
IsFinal none = Unit
IsFinal (some c) = is_deleting c.status ≡ true

-- The row that a change of status leaves: none stays none, a cluster being deleted keeps its
-- status, and any other has the new one.
abbrev pub Changed : ClusterStatus → Option Cluster → Option Cluster → Type 0
Changed status none after = after ≡ none
Changed status (some c) none = ⊥
Changed status (some c) (some d) =
    ((is_deleting c.status ≡ true) × (d.status ≡ c.status))
    ⊎ ((is_deleting c.status ≡ false) × (d.status ≡ status))

-- One announcement for a written status, and none for a cluster that is gone or being deleted.
abbrev pub Announced :
    String
    → ClusterStatus
    → Option Cluster
    → List (String × ClusterStatus)
    → List (String × ClusterStatus)
    → Type 0
Announced id status none before after = after ≡ before
Announced id status (some c) before after =
    ((is_deleting c.status ≡ true) × (after ≡ before))
    ⊎ ((is_deleting c.status ≡ false) × (after ≡ before ++ (id, status) ∷ []))

-- A written status: the row keeps its node groups, and every other row is as it was.
abbrev pub Written :
    String → ClusterStatus → World → Cluster → Result (Option Cluster) × World → Type 0
Written id status w c (r, w') =
    (r ≡ ok (some (record c { status = status })))
    × ((d : Cluster) × (w'.rows id ≡ some d)
        × (d.status ≡ status)
        × (d.node_groups ≡ c.node_groups))
    × (w'.notified ≡ w.notified ++ (id, status) ∷ [])
    × ((j : String) → j ≢ id → w'.rows j ≡ w.rows j)

module _ (id : String) (status : ClusterStatus) (w : World) {c : Cluster}
    (e : w.rows id ≡ some c) where
  abbrev with_status : Cluster
  with_status = to_status status c

  abbrev stored : World
  stored = record w { rows = set_row id (some with_status) w.rows }

  abbrev announced : List (String × ClusterStatus)
  announced = w.notified ++ (id, status) ∷ []

  write_status_disabled :
      write_status true id status w
      ≡ (ok (some with_status), record stored { notified = announced })
  unfolding write_status
  write_status_disabled =
      bind_ok (cluster_update id (to_status status)) _ w
        (cluster_update_found id (to_status status) w e)
      ∙ bind_ok (cluster_provision_progress_update true id) _ stored (progress_disabled id stored)
      ∙ bind_ok (status_notify id status) _ stored refl

  write_status_enabled : write_status false id status w ≡ (
    ok (some with_status),
    record stored {
      rows = set_row id (some (progressed with_status)) stored.rows;
      notified = announced;
    },
  )
  unfolding write_status
  write_status_enabled =
      bind_ok (cluster_update id (to_status status)) _ w
        (cluster_update_found id (to_status status) w e)
      ∙ bind_ok (cluster_provision_progress_update false id) _ stored
          (progress_found id stored (set_row_self id (some with_status) w.rows))
      ∙ bind_ok (status_notify id status) _
          (record stored { rows = set_row id (some (progressed with_status)) stored.rows }) refl

pub write_status-Written :
    (disable : Bool) (id : String) (status : ClusterStatus) (w : World) (c : Cluster)
    → w.rows id ≡ some c
    → Written id status w c (write_status disable id status w)
write_status-Written true id status w c e =
    rw (write_status_disabled id status w e) (
      refl,
      (_, set_row_self id _ w.rows, refl, refl),
      refl,
      λ j ne. set_row_other id j _ w.rows ne,
    )
write_status-Written false id status w c e = rw (write_status_enabled id status w e) (
  refl,
  (_, set_row_self id _ (stored id status w e).rows, refl, refl),
  refl,
  λ j ne. set_row_other id j _ (stored id status w e).rows ne ∙ set_row_other id j _ w.rows ne,
)

-- What a change of status that began at a row and a world has done.
abbrev pub Effect :
    String → ClusterStatus → Option Cluster → World → Result (Option Cluster) × World → Type 0
Effect id status row w (r, w') =
    ((d : Option Cluster) × (r ≡ ok d))
    × Changed status row (w'.rows id)
    × Announced id status row w.notified w'.notified
    × ((j : String) → j ≢ id → w'.rows j ≡ w.rows j)

module _ (disable : Bool) (id : String) (status : ClusterStatus) (c c' : Cluster) (w : World)
    (e : w.rows id ≡ some c') (same : c'.status ≡ c.status) where
  kept :
      is_deleting c.status ≡ true
      → write_unless_final disable (some id) (some c) status w ≡ (ok (some c), w)
  kept deleting = rw deleting

  written :
      is_deleting c.status ≡ false
      → write_unless_final disable (some id) (some c) status w ≡ write_status disable id status w
  written live = rw live

  -- The write is made on a row with the status that was read.
  write_unless_final-Effect :
      Effect id status (some c) w (write_unless_final disable (some id) (some c) status w)
  write_unless_final-Effect = elim (Bool-cases (is_deleting c.status)) [
    | inl deleting ↦
        subst (Effect id status (some c) w) (sym (kept deleting))
          ((_, refl), rw e (inl (deleting, same)), inl (deleting, refl), λ j ne. refl)
    | inr live ↦
        let (r, (d, row, new, groups), announced, others) =
          write_status-Written disable id status w c' e in
        subst (Effect id status (some c) w) (sym (written live))
          ((_, r), rw row (inr (live, new)), inr (live, announced), others)
  ]

-- A change of status raises nothing. It writes the new status and announces it, unless the cluster
-- is gone or being deleted: then the status stays and nothing is announced. No other cluster's row
-- changes.
pub change_cluster_status-Effect :
    (disable : Bool) (id : String) (status : ClusterStatus) (description : Option String)
    (w : World)
    → Effect id status (w.rows id) w (change_cluster_status disable (some id) status description w)
unfolding change_cluster_status cluster_update ◌>>=◌
change_cluster_status-Effect disable id status description w = go (w.rows id) refl description
  where
    go :
        (row : Option Cluster)
        → w.rows id ≡ row
        → (desc : Option String)
        → Effect id status (w.rows id) w (change_cluster_status disable (some id) status desc w)
    go none e none = simp e ((none, refl), refl, refl, λ j ne. refl)
    go none e (some text) = simp e ((none, refl), refl, refl, λ j ne. refl)
    go (some c) e none = simp e (write_unless_final-Effect disable id status c c w e refl)
    go (some c) e (some text) =
        let c' : Cluster = record c { status_description = text } in
        let w' : World = record w { rows = set_row id (some c') w.rows } in
        let (r, changed, announced, others) =
          write_unless_final-Effect disable id status c c' w' (set_row_self id (some c') w.rows)
            refl in
        simp e (r, changed, announced, λ j ne. others j ne ∙ set_row_other id j (some c') w.rows ne)

-- A cluster that is None is left alone.
pub change_cluster_status-none :
    (disable : Bool) (status : ClusterStatus) (description : Option String) (w : World)
    → change_cluster_status disable none status description w ≡ (ok none, w)
unfolding change_cluster_status ◌>>=◌
change_cluster_status-none disable status none w = refl
change_cluster_status-none disable status (some text) w = refl

pub description_found :
    (id text : String) (w : World) {c : Cluster}
    → w.rows id ≡ some c
    → let c' : Cluster = record c { status_description = text } in
      change_cluster_status_description (some id) text w
      ≡ (ok (some c'), record w { rows = set_row id (some c') w.rows })
unfolding change_cluster_status_description
description_found id text w e = rw (cluster_update_found id (describe text) w e)

pub description_missing :
    (id text : String) (w : World)
    → w.rows id ≡ none
    → change_cluster_status_description (some id) text w ≡ (ok none, w)
unfolding change_cluster_status_description
description_missing id text w e = rw (cluster_update_missing id (describe text) w e)
