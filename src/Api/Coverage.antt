-- ===== src/Api/Coverage.antt =====
-- The map that a scaling is started with covers the cluster.
use sahara.Base.{
  ℕ, ◌≡◌, refl, Bool, true, false, Option, none, some, String, List, [], ◌∷◌, ok, Error, arith,
  if◌then◌else◌, All, ltb, ◌++◌,
}
use mathlib.Core.Path.{subst}
use text.Mathlib.TextPositions.{eq_refl}
use sahara.Base.Dict.{Dict, lookup, insert, update, contains, lookup-insert}
use sahara.Objects.{Cluster, NodeGroup, Instance}
use sahara.Conductor.{World, expect, lift, cluster_get, pure}
use sahara.Conductor.Rows.{bind_inv}
use sahara.Ops.{surplus, slice}
use sahara.Api.{
  ApiEnv, Resize, enlarge, complete, construct_ngs_for_scaling, add_ports_for_auto_sg, try_scaling,
  plan_scaling,
}

abbrev Covers : Dict ℕ → NodeGroup → Type 0
Covers m ng = contains ng.id m ≡ true

insert-contains :
    (k j : String) (v : ℕ) (m : Dict ℕ) → contains j m ≡ true → contains j (insert k v m) ≡ true
insert-contains k j v m h = rw (lookup-insert k j v m) (ground (arith, h))

insert_self : (k : String) (v : ℕ) (m : Dict ℕ) → contains k (insert k v m) ≡ true
insert_self k v m = rw (lookup-insert k k v m, eq_refl k) refl

-- A key that is there stays.
complete-contains :
    (ngs : List NodeGroup) (m : Dict ℕ) (k : String)
    → contains k m ≡ true
    → contains k (complete m ngs) ≡ true
unfolding complete
complete-contains [] m k h = h
complete-contains (ng ∷ ngs) m k h = complete-contains ngs _ k (kept (contains ng.id m))
  where
    kept : (b : Bool) → contains k (if b then m else insert ng.id ng.count m) ≡ true
    kept true = h
    kept false = insert-contains ng.id k ng.count m h

complete-Covers : (ngs : List NodeGroup) (m : Dict ℕ) → All (Covers (complete m ngs)) ngs
unfolding complete
complete-Covers [] m = tt
complete-Covers (ng ∷ ngs) m =
    (complete-contains ngs _ ng.id (there (contains ng.id m) refl), complete-Covers ngs _)
  where
    there :
        (b : Bool)
        → contains ng.id m ≡ b
        → contains ng.id (if b then m else insert ng.id ng.count m) ≡ true
    there true e = e
    there false e = insert_self ng.id ng.count m

-- With every node group in the map the loop that collects the instances returns.
surplus-total :
    (m : Dict ℕ) (ngs : List NodeGroup)
    → All (Covers m) ngs
    → (is : List Instance) × (surplus m ngs ≡ ok is)
unfolding surplus
surplus-total m [] h = ([], refl)
surplus-total m (ng ∷ ngs) (h, hs) = go (lookup ng.id m) refl (surplus-total m ngs hs)
  where
    go :
        (o : Option ℕ)
        → lookup ng.id m ≡ o
        → (is : List Instance) × (surplus m ngs ≡ ok is)
        → (is : List Instance) × (surplus m (ng ∷ ngs) ≡ ok is)
    go none e rest = absurd (cc (rw e at h))
    go (some n) e (is, q) = (
      (if ltb n ng.count then slice ng.instances n ng.count else []) ++ is,
      rw (e, q, surplus) refl,
    )

-- A scaling that is started has a count for every node group of the cluster, those that it adds and
-- those that the request does not name included: the choice of the instances to take away meets no
-- missing key.
pub plan_scaling-surplus :
    (env : ApiEnv) (text : Error → String) (id : String) (resized : List Resize)
    (added : List NodeGroup) (w : World) {c : Cluster} {m : Dict ℕ} {w' : World}
    → plan_scaling env text id resized added w ≡ (ok (c, m), w')
    → (is : List Instance) × (surplus m c.node_groups ≡ ok is)
unfolding plan_scaling
plan_scaling-surplus env text id resized added w {c} {m} {w'} h =
    let (found, w₁, e₁, h₁) = bind_inv (cluster_get id) _ w h in
    let (old, w₂, e₂, h₂) = bind_inv (expect found Error.attribute_error) _ w₁ h₁ in
    let (enlarged, w₃, e₃, h₃) = bind_inv (lift (enlarge old.node_groups [] resized)) _ w₂ h₂ in
    let (additional, w₄, e₄, h₄) = bind_inv (construct_ngs_for_scaling env id [] added) _ w₃ h₃ in
    let (again, w₅, e₅, h₅) = bind_inv (cluster_get id) _ w₄ h₄ in
    let (now, w₆, e₆, h₆) = bind_inv (expect again Error.attribute_error) _ w₅ h₅ in
    let (x, w₇, e₇, h₇) =
      bind_inv (add_ports_for_auto_sg env (env.get_plugin old.plugin_name) id now) _ w₆ h₆ in
    let (cluster, w₈, e₈, h₈) =
      bind_inv (try_scaling env text (env.get_plugin old.plugin_name) id enlarged additional now) _
        w₇ h₇ in
    planned (update enlarged additional) cluster w₈ h₈
  where
    planned :
        (plan : Dict ℕ) (cluster : Cluster) (v : World)
        → pure {A = Cluster × Dict ℕ} (cluster, complete plan cluster.node_groups) v
          ≡ (ok (c, m), w')
        → (is : List Instance) × (surplus m c.node_groups ≡ ok is)
    planned plan cluster v q =
        let both : (cluster, complete plan cluster.node_groups) ≡ (c, m) = cc q in
        subst
          (λ (p : Cluster × Dict ℕ). (is : List Instance) × (surplus p.1 p.0.node_groups ≡ ok is))
          both (surplus-total _ cluster.node_groups (complete-Covers cluster.node_groups plan))
