-- ===== src/Ops/Deletion.antt =====
-- A cluster that is being deleted, or gone, stays so: no operation brings it back.
use sahara.Base.{
  ◌≡◌, refl, Bool, true, false, Option, none, some, String, List, [], ◌∷◌, Result, ok, err, Error,
  inl, inr, if◌then◌else◌,
}
use sahara.Objects.{ClusterStatus, Cluster, NodeGroup, is_deleting}
use sahara.Conductor.{
  World, Op, ◌>>=◌, pure, raise, lift, expect, each, change_group, cluster_get, cluster_update,
  cluster_destroy, node_group_update, after,
}
use sahara.Conductor.Rows.{
  set_row_self, node_group_update_gone, node_group_update_missing, node_group_update_found,
}
use sahara.Status.Laws.{
  IsFinal, Changed, change_cluster_status-Effect, change_cluster_status-none, description_found,
  description_missing,
}
use sahara.Status.{change_cluster_status, change_cluster_status_description}
use sahara.Ops.{handle}

-- The call leaves a final row final, whether it returns or raises.
unfoldable pub Keeps : {A : Type 0} → String → Op A → Type 0
Keeps id m = (w : World) → IsFinal (w.rows id) → IsFinal ((m w).1.rows id)

module _ (id : String) where
  -- The rest of a chain may use that its first part returned the value.
  pub bind_result-Keeps :
      {A B : Type 0} (m : Op A) (f : A → Op B)
      → Keeps id m
      → ((a : A) (w : World) → (m w).0 ≡ ok a → Keeps id (f a))
      → Keeps id (m >>= f)
  unfolding Keeps ◌>>=◌
  bind_result-Keeps {A} {B} m f hm hf w h = go (m w) (hm w h) (λ a e. hf a w e)
    where
      go :
          (p : Result A × World)
          → IsFinal (p.1.rows id)
          → ((a : A) → p.0 ≡ ok a → (w : World) → IsFinal (w.rows id) → IsFinal ((f a w).1.rows id))
          → IsFinal ((after p f).1.rows id)
      go (ok a, w₁) k l = l a refl w₁ k
      go (err x, w₁) k l = k

  pub bind-Keeps :
      {A B : Type 0} (m : Op A) (f : A → Op B)
      → Keeps id m
      → ((a : A) → Keeps id (f a))
      → Keeps id (m >>= f)
  bind-Keeps m f hm hf = bind_result-Keeps m f hm (λ a w e. hf a)

  pub pure-Keeps : {A : Type 0} (a : A) → Keeps id (pure a)
  unfolding Keeps
  pure-Keeps a w h = h

  pub raise-Keeps : (e : Error) → Keeps id (raise {A = Unit {0}} e)
  unfolding Keeps
  raise-Keeps e w h = h

  pub raise_list-Keeps : (e : Error) → Keeps id (raise {A = List NodeGroup} e)
  unfolding Keeps
  raise_list-Keeps e w h = h

  pub cluster_get-Keeps : Keeps id (cluster_get id)
  unfolding Keeps
  cluster_get-Keeps w h = h

  pub lift-Keeps : {A : Type 0} (r : Result A) → Keeps id (lift r)
  unfolding Keeps
  lift-Keeps r w h = h

  pub expect-Keeps : {A : Type 0} (o : Option A) (e : Error) → Keeps id (expect o e)
  unfolding Keeps
  expect-Keeps none e w h = h
  expect-Keeps (some a) e w h = h

  pub each-Keeps :
      {A : Type 0} (body : A → Op (Unit {0})) (xs : List A)
      → ((x : A) → Keeps id (body x))
      → Keeps id (each body xs)
  each-Keeps body [] k = pure-Keeps tt
  each-Keeps body (x ∷ xs) k =
      bind-Keeps (body x) (λ _. each body xs) (k x) (λ _. each-Keeps body xs k)

  -- An update that does not touch the status.
  pub cluster_update-Keeps :
      (change : Cluster → Cluster)
      → ((c : Cluster) → (change c).status ≡ c.status)
      → Keeps id (cluster_update id change)
  unfolding Keeps cluster_update
  cluster_update-Keeps change same w h = go (w.rows id) refl h
    where
      go :
          (row : Option Cluster)
          → w.rows id ≡ row
          → IsFinal row
          → IsFinal ((cluster_update id change w).1.rows id)
      go none e k = rw (e, cluster_update) (rw e k)
      go (some c) e k = rw (e, cluster_update) (rw set_row_self (rw same k))

  pub cluster_destroy-Keeps : Keeps id (cluster_destroy id)
  unfolding Keeps cluster_destroy
  cluster_destroy-Keeps w h = go (w.rows id) refl h
    where
      go :
          (row : Option Cluster)
          → w.rows id ≡ row
          → IsFinal row
          → IsFinal ((cluster_destroy id w).1.rows id)
      go none e k = rw (e, cluster_destroy) (rw e k)
      go (some c) e k = rw (e, cluster_destroy) (rw set_row_self tt)

  pub node_group_update-Keeps :
      (ng_id : String) (change : NodeGroup → NodeGroup)
      → Keeps id (node_group_update id ng_id change)
  unfolding Keeps node_group_update
  node_group_update-Keeps ng_id change w h = go (w.rows id) refl h
    where
      go :
          (row : Option Cluster)
          → w.rows id ≡ row
          → IsFinal row
          → IsFinal ((node_group_update id ng_id change w).1.rows id)
      go none e k = rw (node_group_update_gone id ng_id change w e) (rw e k)
      go (some c) e k = in_group (change_group ng_id change c.node_groups) refl
        where
          in_group :
              (o : Option (List NodeGroup))
              → change_group ng_id change c.node_groups ≡ o
              → IsFinal ((node_group_update id ng_id change w).1.rows id)
          in_group none f = rw (node_group_update_missing id ng_id change w e f) (rw e k)
          in_group (some ngs) f =
              rw (node_group_update_found id ng_id change w e f) (rw set_row_self k)

  Changed-IsFinal :
      (status : ClusterStatus) (before after : Option Cluster)
      → Changed status before after
      → IsFinal before
      → IsFinal after
  Changed-IsFinal status none after h k = rw h tt
  Changed-IsFinal status (some b) none h k = tt
  Changed-IsFinal status (some b) (some c) (inl (deleting, same)) k = rw same k
  Changed-IsFinal status (some b) (some c) (inr (live, new)) k = absurd (true_and_false live k)
    where
      true_and_false : is_deleting b.status ≡ false → is_deleting b.status ≡ true → ⊥
      true_and_false p q = cc (p, q)

  pub change_cluster_status-Keeps :
      (disable : Bool) (cluster : Option Cluster) (status : ClusterStatus) (text : Option String)
      → Keeps id (change_cluster_status disable (handle id cluster) status text)
  unfolding Keeps
  change_cluster_status-Keeps disable none status text w h =
      rw (change_cluster_status-none disable status text w) h
  change_cluster_status-Keeps disable (some c) status text w h =
      Changed-IsFinal status _ _ (change_cluster_status-Effect disable id status text w).1 h

  pub change_status-Keeps :
      (disable : Bool) (status : ClusterStatus) (text : Option String)
      → Keeps id (change_cluster_status disable (some id) status text)
  unfolding Keeps
  change_status-Keeps disable status text w h =
      Changed-IsFinal status _ _ (change_cluster_status-Effect disable id status text w).1 h

  pub description-Keeps :
      (text : String) → Keeps id (change_cluster_status_description (some id) text)
  unfolding Keeps
  description-Keeps text w h = go (w.rows id) refl h
    where
      go :
          (row : Option Cluster)
          → w.rows id ≡ row
          → IsFinal row
          → IsFinal ((change_cluster_status_description (some id) text w).1.rows id)
      go none e k = rw (description_missing id text w e) (rw e tt)
      go (some c) e k = rw (description_found id text w e) (rw set_row_self k)

  pub if-Keeps :
      {A : Type 0} (b : Bool) (m n : Op A) → Keeps id m → Keeps id n → Keeps id (if b then m else n)
  if-Keeps true m n hm hn = hm
  if-Keeps false m n hm hn = hn
