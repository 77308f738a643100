-- ===== src/Periodic/Due.antt =====
-- Which process terminates a cluster that is due.
use sahara.Base.{
  ℕ, ◌*◌, ◌≤◌, ◌≡◌, refl, ap, ◌∙◌, Bool, true, not, ◌&&◌, String, List, [], ◌∷◌, map, str_eq,
  eq_iff, ltb, mem, keep, any, arith, ◌==◌, Bool-cases, inl, inr,
}
use sahara.Objects.{Cluster}
use sahara.HashRing.{get_subset}
use sahara.HashRing.Shares.{get_subset-owner}
use sahara.Periodic.{is_incomplete, due_incomplete}

-- A cluster of this id that passes a test.
abbrev pub some_with : String → (Cluster → Bool) → List Cluster → Bool
some_with id p cs = any (λ (c : Cluster). str_eq c.id id && p c) cs

abbrev pub always : Cluster → Bool
always c = true

some_with-keep :
    (id : String) (p q : Cluster → Bool) (cs : List Cluster)
    → some_with id p (keep q cs) ≡ some_with id (λ c. p c && q c) cs
some_with-keep id p q [] = refl
some_with-keep id p q (c ∷ cs) = ground (arith, some_with-keep id p q cs)

some_with-at :
    (id : String) (p : Cluster → Bool) (f : String → Bool) (cs : List Cluster)
    → some_with id (λ c. p c && f c.id) cs ≡ (some_with id p cs && f id)
some_with-at id p f [] = refl
some_with-at id p f (c ∷ cs) =
    ground (arith, some_with-at id p f cs, eq_iff c.id id, λ (e : c.id ≡ id). ap f e)

some_with-mem :
    (id : String) (p : Cluster → Bool) (cs : List Cluster)
    → some_with id p cs ≡ true
    → mem id (map (λ (d : Cluster). d.id) cs) ≡ true
some_with-mem id p (c ∷ cs) h = ground (arith, some_with-mem id p cs, h)
some_with-mem id p [] h = absurd (cc h)

absorb : (a b x : Bool) → (a ≡ true → b ≡ true) → (a && (b && x)) ≡ (a && x)
absorb a b x h = ground arith

-- Not updated for as long as the tasks wait.
abbrev pub is_old : (Cluster → ℕ) → ℕ → Cluster → Bool
is_old age cleanup_time c = not (ltb (age c) (cleanup_time * 3600))

-- The clusters of a share that are due where the cleanup is on.
module _ (age : Cluster → ℕ) (hash : String → ℕ) (label : String → ℕ → String) (replicas : ℕ)
    (m : String) (members : List String) (cleanup_time : ℕ) (clusters : List Cluster)
    (id : String) where
  abbrev open_ids : List String
  open_ids = map (λ (d : Cluster). d.id) (keep is_incomplete clusters)

  abbrev share_of : String → List String
  share_of member_id = get_subset hash label replicas true member_id (m ∷ members) open_ids

  -- The test of one process, told apart by the owner of the cluster.
  due_owned :
      (o member_id : String)
      → mem id (share_of member_id) ≡ (mem id open_ids && str_eq o member_id)
      → some_with id always (
          keep
            (is_old age cleanup_time)
            (keep (λ (c : Cluster). mem c.id (share_of member_id)) (keep is_incomplete clusters)))
        ≡ (some_with id (λ c. is_old age cleanup_time c && is_incomplete c) clusters
            && str_eq o member_id)
  due_owned o member_id owned =
      let open_ones = keep is_incomplete clusters in
      some_with-keep id always (is_old age cleanup_time)
        (keep (λ (c : Cluster). mem c.id (share_of member_id)) open_ones)
      ∙ some_with-keep id (is_old age cleanup_time) (λ (c : Cluster). mem c.id (share_of member_id))
          open_ones
      ∙ some_with-at id (is_old age cleanup_time) (λ i. mem i (share_of member_id)) open_ones
      ∙ ap (λ b. some_with id (is_old age cleanup_time) open_ones && b) owned
      ∙ absorb (some_with id (is_old age cleanup_time) open_ones) (mem id open_ids)
          (str_eq o member_id) (some_with-mem id (is_old age cleanup_time) open_ones)
      ∙ ap (λ b. b && str_eq o member_id)
          (some_with-keep id (is_old age cleanup_time) is_incomplete clusters)

-- Where there is a replica and a member at least and the cleanup time is not 0, every incomplete
-- cluster that is old enough is due for exactly one member of the ring, and no other cluster for
-- any; where it is 0, no cluster is due for any.
pub due_incomplete-one :
    (age : Cluster → ℕ) (hash : String → ℕ) (label : String → ℕ → String) (replicas : ℕ)
    (m : String) (members : List String) (cleanup_time : ℕ) (clusters : List Cluster) (id : String)
    → 1 ≤ replicas
    → (o : String) × (mem o (m ∷ members) ≡ true)
      × ((member_id : String)
          → some_with id always (
              due_incomplete age
                (record { hash = hash; label = label; replicas = replicas; members = m ∷ members })
                cleanup_time
                member_id
                clusters)
            ≡ (not (cleanup_time == 0)
                && (some_with id (λ c. is_old age cleanup_time c && is_incomplete c) clusters
                    && str_eq o member_id)))
unfolding due_incomplete
due_incomplete-one age hash label replicas m members cleanup_time clusters id h =
    let ids = open_ids age hash label replicas m members cleanup_time clusters id in
    let (o, there, owns) = get_subset-owner hash label replicas m members ids id h in
    (
      o,
      there,
      λ member_id. elim (Bool-cases (cleanup_time == 0)) [
        | inl off ↦ rw off refl
        | inr on ↦ rw on (
            due_owned age hash label replicas m members cleanup_time clusters id o member_id
              (owns member_id))
      ],
    )
