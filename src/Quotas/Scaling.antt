-- ===== src/Quotas/Scaling.antt =====
-- The requirement of a scaling is the change of the cluster's requirement.
use mathlib.Core.Path.{subst}
use sahara.Base.{
  ℕ, ◌*◌, ◌≡◌, refl, ap, sym, ◌∙◌, inl, inr, Bool, true, false, none, some, String, List, [], ◌∷◌,
  Result, ok, Option, zero, suc, ◌⊎◌, >>=-eq-ok, ok-injective, ltb,
}
use sahara.Base.Int.{
  ℤ, pos, ◌+ℤ◌, scale, sub_ℕ, scale-add, add-change, add_regroup, add_last, zero_add,
}
use sahara.Base.Dict.{Dict, lookup, update}
use sahara.Objects.{NodeGroup, truthy}
use sahara.Quotas.{
  Limits, zero_limits, Flavor, Config, add_if, bumped, update_limits_for_ng, req_cluster_from,
  req_cluster_limits, new_count, req_scaling_from, req_scaling_limits,
}
use sahara.Quotas.Checks.{update-eq-ok}

-- `c` holds `a` and `b` together, in all limits but those of security groups.
pub record Adds (a b c : Limits ℤ) : Type 0 where
  pub ram : c.ram ≡ a.ram +ℤ b.ram
  pub cpu : c.cpu ≡ a.cpu +ℤ b.cpu
  pub instances : c.instances ≡ a.instances +ℤ b.instances
  pub floatingips : c.floatingips ≡ a.floatingips +ℤ b.floatingips
  pub ports : c.ports ≡ a.ports +ℤ b.ports
  pub volumes : c.volumes ≡ a.volumes +ℤ b.volumes
  pub volume_gbs : c.volume_gbs ≡ a.volume_gbs +ℤ b.volume_gbs

-- The node group with the count that it is scaled to.
abbrev pub with_count : NodeGroup → Option ℕ → NodeGroup
with_count ng none = ng
with_count ng (some zero) = ng
with_count ng (some (suc n)) = record ng { count = suc n }

abbrev pub resized : Dict ℕ → NodeGroup → NodeGroup
resized m ng = with_count ng (lookup ng.id m)

abbrev pub resize : Dict ℕ → List NodeGroup → List NodeGroup
resize m [] = []
resize m (ng ∷ ngs) = resized m ng ∷ resize m ngs

scaled : (n : ℕ) (x y : ℤ) {z : ℤ} → z ≡ x +ℤ y → scale n z ≡ scale n x +ℤ scale n y
scaled n x y e = ap (scale n) e ∙ scale-add n x y

grow : (a b x y : ℤ) {c z : ℤ} → c ≡ a +ℤ b → z ≡ x +ℤ y → c +ℤ z ≡ a +ℤ x +ℤ (b +ℤ y)
grow a b x y p q = rw (p, q) (add_regroup a b x y)

grow_if :
    (t : Bool) (a b x y : ℤ) {c z : ℤ}
    → c ≡ a +ℤ b
    → z ≡ x +ℤ y
    → add_if t z c ≡ add_if t x a +ℤ add_if t y b
grow_if true a b x y p q = grow a b x y p q
grow_if false a b x y p q = p

grow_left : (a b x : ℤ) {c : ℤ} → c ≡ a +ℤ b → c +ℤ x ≡ a +ℤ x +ℤ b
grow_left a b x p = rw p (add_last a b x)

grow_left_if : (t : Bool) (a b x : ℤ) {c : ℤ} → c ≡ a +ℤ b → add_if t x c ≡ add_if t x a +ℤ b
grow_left_if true a b x p = grow_left a b x p
grow_left_if false a b x p = p

module _ (conf : Config) (flavor : Flavor) (ng : NodeGroup) {a b c : Limits ℤ}
    (h : Adds a b c) where
  -- Old instances on the left, the change on the right, the new count on the whole.
  Adds-changed :
      (x y : ℤ) {z : ℤ}
      → z ≡ x +ℤ y
      → Adds (bumped conf flavor a ng x) (bumped conf flavor b ng y) (bumped conf flavor c ng z)
  unfolding bumped
  Adds-changed x y e = record {
    ram = grow _ _ _ _ h.ram (scaled flavor.ram x y e);
    cpu = grow _ _ _ _ h.cpu (scaled flavor.vcpus x y e);
    instances = grow _ _ _ _ h.instances e;
    floatingips = grow_if (truthy ng.floating_ip_pool) _ _ _ _ h.floatingips e;
    ports = grow_if conf.use_neutron _ _ _ _ h.ports e;
    volumes =
        grow_if (ltb 0 ng.volumes_per_node) _ _ _ _ h.volumes (scaled ng.volumes_per_node x y e);
    volume_gbs =
        grow_if (ltb 0 ng.volumes_per_node) _ _ _ _ h.volume_gbs
          (scaled (ng.volumes_per_node * ng.volumes_size) x y e);
  }

  Adds-same : (x : ℤ) → Adds (bumped conf flavor a ng x) b (bumped conf flavor c ng x)
  unfolding bumped
  Adds-same x = record {
    ram = grow_left _ _ _ h.ram;
    cpu = grow_left _ _ _ h.cpu;
    instances = grow_left _ _ _ h.instances;
    floatingips = grow_left_if (truthy ng.floating_ip_pool) _ _ _ h.floatingips;
    ports = grow_left_if conf.use_neutron _ _ _ h.ports;
    volumes = grow_left_if (ltb 0 ng.volumes_per_node) _ _ _ h.volumes;
    volume_gbs = grow_left_if (ltb 0 ng.volumes_per_node) _ _ _ h.volume_gbs;
  }

module _ (conf : Config) (flavors : String → Result Flavor) (m : Dict ℕ) where
  update_known :
      (l : Limits ℤ) (ng : NodeGroup) (n : ℕ) (x : ℤ) {flavor : Flavor}
      → flavors ng.flavor_id ≡ ok flavor
      → update_limits_for_ng conf flavors l (record ng { count = n }) x
        ≡ ok (bumped conf flavor l ng x)
  unfolding update_limits_for_ng bumped
  update_known l ng n x found = rw found

  -- The first round of each loop, and of the loop over the resized node groups.
  counted_cons :
      (a : Limits ℤ) (ng : NodeGroup) (ngs : List NodeGroup) {a' : Limits ℤ}
      → req_cluster_from conf flavors a (ng ∷ ngs) ≡ ok a'
      → (flavor : Flavor) × (flavors ng.flavor_id ≡ ok flavor)
        × (req_cluster_from conf flavors (bumped conf flavor a ng (pos ng.count)) ngs ≡ ok a')
  unfolding req_cluster_from
  counted_cons a ng ngs {a'} p =
      let (a₁, counted, rest) =
        >>=-eq-ok (update_limits_for_ng conf flavors a ng (pos ng.count)) _ p in
      let (flavor, found, e) = update-eq-ok conf flavors a ng (pos ng.count) counted in
      (flavor, found, subst (λ t. req_cluster_from conf flavors t ngs ≡ ok a') e rest)

  changed_cons :
      (b : Limits ℤ) (ng : NodeGroup) (ngs : List NodeGroup) {flavor : Flavor} {n : ℕ}
      → flavors ng.flavor_id ≡ ok flavor
      → new_count conf flavors m ng ≡ some n
      → req_scaling_from conf flavors m b (ng ∷ ngs)
        ≡ req_scaling_from conf flavors m (bumped conf flavor b ng (sub_ℕ n ng.count)) ngs
  unfolding req_scaling_from
  changed_cons b ng ngs {n} found changed =
      rw (changed, req_scaling_from, update_known b ng ng.count (sub_ℕ n ng.count) found)

  resized_cons :
      (c : Limits ℤ) (ng : NodeGroup) (ngs : List NodeGroup) (n : ℕ) {flavor : Flavor}
      → flavors ng.flavor_id ≡ ok flavor
      → resized m ng ≡ record ng { count = n }
      → req_cluster_from conf flavors c (resize m (ng ∷ ngs))
        ≡ req_cluster_from conf flavors (bumped conf flavor c ng (pos n)) (resize m ngs)
  unfolding req_cluster_from
  resized_cons c ng ngs n found e = rw (e, update_known c ng n (pos n) found)

  -- A count that is missing or zero is left, any other is the one that is required.
  new_count-resized :
      (ng : NodeGroup)
      → ((new_count conf flavors m ng ≡ none) × (resized m ng ≡ ng))
        ⊎ ((n : ℕ) × (new_count conf flavors m ng ≡ some n)
            × (resized m ng ≡ record ng { count = n }))
  new_count-resized ng = go (lookup ng.id m) refl
    where
      go :
          (o : Option ℕ)
          → lookup ng.id m ≡ o
          → ((new_count conf flavors m ng ≡ none) × (resized m ng ≡ ng))
            ⊎ ((n : ℕ) × (new_count conf flavors m ng ≡ some n)
                × (resized m ng ≡ record ng { count = n }))
      go none e = inl (cc e, ap (with_count ng) e)
      go (some zero) e = inl (cc e, ap (with_count ng) e)
      go (some (suc n)) e = inr (suc n, cc e, ap (with_count ng) e)

  abbrev Resized : List NodeGroup → Limits ℤ → Limits ℤ → Limits ℤ → Type 0
  Resized ngs a b c =
      (c' : Limits ℤ) × (req_cluster_from conf flavors c (resize m ngs) ≡ ok c') × Adds a b c'

  Resized-nil :
      (a b c : Limits ℤ) {a' b' : Limits ℤ}
      → Adds a b c
      → req_cluster_from conf flavors a [] ≡ ok a'
      → req_scaling_from conf flavors m b [] ≡ ok b'
      → Resized [] a' b' c
  unfolding req_cluster_from req_scaling_from
  Resized-nil a b c h p q = (c, refl, rw (← ok-injective p, ← ok-injective q) h)

  req_scaling_from-Resized :
      (ngs : List NodeGroup) (a b c : Limits ℤ) {a' b' : Limits ℤ}
      → Adds a b c
      → req_cluster_from conf flavors a ngs ≡ ok a'
      → req_scaling_from conf flavors m b ngs ≡ ok b'
      → Resized ngs a' b' c
  unfolding req_scaling_from
  req_scaling_from-Resized [] a b c h p q = Resized-nil a b c h p q
  req_scaling_from-Resized (ng ∷ ngs) a b c {a'} {b'} h p q =
      let (flavor, found, rest) = counted_cons a ng ngs p in
      elim (new_count-resized ng) [
        | inl (same, kept) ↦
            let (c', e, adds) =
              req_scaling_from-Resized ngs (bumped conf flavor a ng (pos ng.count)) b
                (bumped conf flavor c ng (pos ng.count)) (Adds-same conf flavor ng h (pos ng.count))
                rest (rw (same, req_scaling_from) at q) in
            (c', resized_cons c ng ngs ng.count found kept ∙ e, adds)
        | inr (n, changed, set) ↦
            let (c', e, adds) =
              req_scaling_from-Resized ngs (bumped conf flavor a ng (pos ng.count))
                (bumped conf flavor b ng (sub_ℕ n ng.count)) (bumped conf flavor c ng (pos n))
                (Adds-changed conf flavor ng h (pos ng.count) (sub_ℕ n ng.count)
                  (add-change n ng.count))
                rest (sym (changed_cons b ng ngs found changed) ∙ q) in
            (c', resized_cons c ng ngs n found set ∙ e, adds)
      ]

-- A scaling requires the difference: where the requirements of the cluster as it is and of the
-- scaling are known, so is that of the cluster with the new counts, and it is the sum of the two,
-- for RAM, VCPUs, instances, floating IPs, ports, volumes and their size. A node group whose new
-- count is missing or zero counts as unchanged.
pub req_scaling_limits-Adds :
    (conf : Config) (flavors : String → Result Flavor) (node_groups : List NodeGroup)
    (to_be_enlarged additional : Dict ℕ) {a b : Limits ℤ}
    → req_cluster_limits conf flavors node_groups ≡ ok a
    → req_scaling_limits conf flavors node_groups to_be_enlarged additional ≡ ok b
    → (c : Limits ℤ) × (req_cluster_limits conf flavors
          (resize (update to_be_enlarged additional) node_groups)
        ≡ ok c)
      × Adds a b c
unfolding req_cluster_limits req_scaling_limits
req_scaling_limits-Adds conf flavors node_groups to_be_enlarged additional p q =
    let zeros : Limits ℤ = zero_limits (pos 0) in
    let z : pos 0 ≡ pos 0 +ℤ pos 0 = sym (zero_add 0) in
    req_scaling_from-Resized conf flavors (update to_be_enlarged additional) node_groups zeros zeros
      zeros
      (record {
        ram = z;
        cpu = z;
        instances = z;
        floatingips = z;
        ports = z;
        volumes = z;
        volume_gbs = z;
      })
      p q
