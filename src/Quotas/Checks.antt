-- ===== src/Quotas/Checks.antt =====
-- What passes a quota check.
use sahara.Base.{
  ℕ, ◌+◌, ◌≡◌, refl, ap, ◌∙◌, zero, suc, ◌≢◌, ◌↔◌, String, List, [], ◌∷◌, Result, ok, err, arith,
  ◌>>◌, Check, >>=-eq-ok,
}
use sahara.Base.Int.{ℤ, pos, negsuc, ◌+ℤ◌, ◌≤ℤ◌, zero_add, int_laws}
use sahara.Objects.{NodeGroup}
use sahara.Quotas.{
  zero_limits, Limits, Avail, unlimited, left, Flavor, Config, update_limits_for_ng, bumped,
  req_cluster_from, req_cluster_limits, check_limit, check_limits, sub_limit, Clients, avail_limits,
  check_cluster, nova_limits, neutron_limits, cinder_limits, NovaAbsolute,
}

-- The requirement stays within what is left.
abbrev pub Fits : Avail → ℤ → Type 0
Fits unlimited req = Unit
Fits (left avail) req = req ≤ℤ avail

pub record FitsAll (avail : Limits Avail) (req : Limits ℤ) : Type 0 where
  pub ram : Fits avail.ram req.ram
  pub cpu : Fits avail.cpu req.cpu
  pub instances : Fits avail.instances req.instances
  pub floatingips : Fits avail.floatingips req.floatingips
  pub security_groups : Fits avail.security_groups req.security_groups
  pub security_group_rules : Fits avail.security_group_rules req.security_group_rules
  pub ports : Fits avail.ports req.ports
  pub volumes : Fits avail.volumes req.volumes
  pub volume_gbs : Fits avail.volume_gbs req.volume_gbs

check_limit_sound : (avail : Avail) (req : ℤ) → check_limit avail req ≡ ok tt → Fits avail req
unfolding check_limit
check_limit_sound unlimited req h = tt
check_limit_sound (left avail) req h = ground arith

check_limit_complete : (avail : Avail) (req : ℤ) → Fits avail req → check_limit avail req ≡ ok tt
unfolding check_limit
check_limit_complete unlimited req h = refl
check_limit_complete (left avail) req h = ground arith

-- A passed check, and what comes after it.
>>-eq-ok : (m k : Check) → (m >> k) ≡ ok tt → (m ≡ ok tt) × (k ≡ ok tt)
>>-eq-ok (ok tt) k h = (refl, h)
>>-eq-ok (err e) k h = (cc, cc)

check_limits_sound :
    (avail : Limits Avail) (req : Limits ℤ) → check_limits avail req ≡ ok tt → FitsAll avail req
unfolding check_limits
check_limits_sound avail req h0 =
    let (ram, h1) = >>-eq-ok _ _ h0 in
    let (cpu, h2) = >>-eq-ok _ _ h1 in
    let (instances, h3) = >>-eq-ok _ _ h2 in
    let (floatingips, h4) = >>-eq-ok _ _ h3 in
    let (security_groups, h5) = >>-eq-ok _ _ h4 in
    let (security_group_rules, h6) = >>-eq-ok _ _ h5 in
    let (ports, h7) = >>-eq-ok _ _ h6 in
    let (volumes, volume_gbs) = >>-eq-ok _ _ h7 in
    record {
      ram = check_limit_sound _ _ ram;
      cpu = check_limit_sound _ _ cpu;
      instances = check_limit_sound _ _ instances;
      floatingips = check_limit_sound _ _ floatingips;
      security_groups = check_limit_sound _ _ security_groups;
      security_group_rules = check_limit_sound _ _ security_group_rules;
      ports = check_limit_sound _ _ ports;
      volumes = check_limit_sound _ _ volumes;
      volume_gbs = check_limit_sound _ _ volume_gbs;
    }

check_limits_complete :
    (avail : Limits Avail) (req : Limits ℤ) → FitsAll avail req → check_limits avail req ≡ ok tt
unfolding check_limits
check_limits_complete avail req h =
    rw
      (
        check_limit_complete avail.ram req.ram h.ram,
        check_limit_complete avail.cpu req.cpu h.cpu,
        check_limit_complete avail.instances req.instances h.instances,
        check_limit_complete avail.floatingips req.floatingips h.floatingips,
        check_limit_complete avail.security_groups req.security_groups h.security_groups,
        check_limit_complete avail.security_group_rules req.security_group_rules
            h.security_group_rules,
        check_limit_complete avail.ports req.ports h.ports,
        check_limit_complete avail.volumes req.volumes h.volumes,
      )
      (check_limit_complete _ _ h.volume_gbs)

-- The check of all quotas passes exactly when no limited quota is below its requirement.
pub check_limits_iff :
    (avail : Limits Avail) (req : Limits ℤ) → (check_limits avail req ≡ ok tt) ↔ FitsAll avail req
check_limits_iff avail req = (check_limits_sound avail req, check_limits_complete avail req)

-- The instances of a cluster.
abbrev pub instance_count : List NodeGroup → ℕ
instance_count [] = 0
instance_count (ng ∷ ngs) = ng.count + instance_count ngs

module _ (conf : Config) (flavors : String → Result Flavor) where
  -- A counted node group has a flavor, and is added to the limits.
  pub update-eq-ok :
      (l : Limits ℤ) (ng : NodeGroup) (x : ℤ) {l' : Limits ℤ}
      → update_limits_for_ng conf flavors l ng x ≡ ok l'
      → (flavor : Flavor) × (flavors ng.flavor_id ≡ ok flavor) × (l' ≡ bumped conf flavor l ng x)
  unfolding update_limits_for_ng
  update-eq-ok l ng x h =
      let (flavor, found, e) = >>=-eq-ok (flavors ng.flavor_id) _ h in (flavor, found, cc e)

  update-instances :
      (l : Limits ℤ) (ng : NodeGroup) (x : ℤ) {l' : Limits ℤ}
      → update_limits_for_ng conf flavors l ng x ≡ ok l'
      → l'.instances ≡ l.instances +ℤ x
  unfolding bumped
  update-instances l ng x h =
      let (flavor, found, e) = update-eq-ok l ng x h in ap (λ (m : Limits ℤ). m.instances) e

  req_cluster_from-instances :
      (l : Limits ℤ) (ngs : List NodeGroup) {l' : Limits ℤ}
      → req_cluster_from conf flavors l ngs ≡ ok l'
      → l'.instances ≡ l.instances +ℤ pos (instance_count ngs)
  unfolding req_cluster_from
  req_cluster_from-instances l [] {l'} h = let e : l ≡ l' = cc in rw (← e) (omega int_laws)
  req_cluster_from-instances l (ng ∷ ngs) h =
      let (l', updated, rest) = >>=-eq-ok _ _ h in
      rw (req_cluster_from-instances l' ngs rest, update-instances l ng (pos ng.count) updated)
        (omega int_laws)

avail_limits-instances :
    (conf : Config) (clients : Clients) (nova : NovaAbsolute) {avail : Limits Avail}
    → clients.nova ≡ ok nova
    → avail_limits conf clients ≡ ok avail
    → avail.instances ≡ sub_limit nova.max_total_instances nova.total_instances_used
unfolding avail_limits nova_limits neutron_limits cinder_limits
avail_limits-instances conf clients nova answered h = ground arith

Fits-sub_limit :
    (total used req : ℤ) → total ≢ negsuc 0 → Fits (sub_limit total used) req → used +ℤ req ≤ℤ total
unfolding sub_limit
Fits-sub_limit (pos n) used req limited h = omega int_laws
Fits-sub_limit (negsuc zero) used req limited h = absurd (limited refl)
Fits-sub_limit (negsuc (suc n)) used req limited h = omega int_laws

-- A node group list that passes fits into Nova's instance quota: unless that is unlimited (-1), the
-- instances in use and the instances of the cluster together stay within it.
pub check_cluster-instances :
    (conf : Config) (clients : Clients) (nova : NovaAbsolute) (node_groups : List NodeGroup)
    → clients.nova ≡ ok nova
    → nova.max_total_instances ≢ negsuc 0
    → check_cluster conf clients node_groups ≡ ok tt
    → nova.total_instances_used +ℤ pos (instance_count node_groups) ≤ℤ nova.max_total_instances
unfolding check_cluster avail_limits req_cluster_limits
check_cluster-instances conf clients nova node_groups answered limited h =
    let (req, required, h') = >>=-eq-ok (req_cluster_limits conf clients.flavors node_groups) _ h in
    let (avail, available, passed) = >>=-eq-ok (avail_limits conf clients) _ h' in
    let fits : FitsAll avail req = check_limits_sound avail req passed in
    let count : req.instances ≡ pos (instance_count node_groups) =
      req_cluster_from-instances conf clients.flavors (zero_limits (pos 0)) node_groups required
      ∙ zero_add _ in
    Fits-sub_limit nova.max_total_instances nova.total_instances_used _ limited
      (rw (← count, ← avail_limits-instances conf clients nova answered available) fits.instances)
