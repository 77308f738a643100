-- ===== src/Validation/GroupsValid.antt =====
-- What the checks of the floating IP pools and of the host names establish.
use Prim.Native.String.{count}
use sahara.Base.{
  ℕ, ◌+◌, ◌^◌, ◌≤◌, ◌<◌, ◌≡◌, ◌≢◌, refl, ap, ◌∙◌, max, Bool, true, false, not, ◌&&◌, ◌⊎◌, inl, inr,
  Option, none, some, String, List, [], ◌∷◌, Result, ok, err, Error, raise_if, raise_if-eq-ok,
  >>=-eq-ok, All, arith, if◌then◌else◌, ltb, eq_iff, Bool-cases,
}
use sahara.Objects.{truthy}
use sahara.Validation.{
  Services, Fields, NodeGroupData, num_digits, instance_name_length, max_hostname_length,
}
use sahara.Validation.Nodes.{
  check_pool, check_network_config, check_cluster_hostnames_lengths, check_hostname,
  hostname_length, has_floating_ip_pool, template_has_pool, uses_proxy_gateway,
}
use sahara.Validation.Digits.{num_digits-enough}
use sahara.Validation.Known.{check_each-All, All-map}

-- A text that is given and not empty.
abbrev pub IsGiven : Option String → Type 0
IsGiven field = (x : String) × (field ≡ some x) × (x ≢ "")

truthy-IsGiven : (field : Option String) → truthy field ≡ true → IsGiven field
truthy-IsGiven none h = absurd (cc h)
truthy-IsGiven (some x) h = (x, refl, λ e. absurd (ground (arith, h, (eq_iff x "").1 e)))

All-intro : {A : Type 0} (P : A → Type 0) (xs : List A) → ((x : A) → P x) → All P xs
All-intro P [] f = tt
All-intro P (x ∷ xs) f = (f x, All-intro P xs f)

pub All-zip :
    {A : Type 0} (P Q : A → Type 0) (xs : List A) → All P xs → All Q xs → All (λ x. P x × Q x) xs
All-zip P Q [] h k = tt
All-zip P Q (x ∷ xs) (h, hs) (k, ks) = ((h, k), All-zip P Q xs hs ks)

-- No node group is a proxy gateway.
abbrev pub NoGateway : List NodeGroupData → Type 0
NoGateway ngs = All (λ (ng : NodeGroupData). ng.is_proxy_gateway ≡ false) ngs

pub NoGateway-unused : (ngs : List NodeGroupData) → NoGateway ngs → uses_proxy_gateway ngs ≡ false
NoGateway-unused [] h = refl
NoGateway-unused (ng ∷ ngs) (h, hs) = ground (arith, h, NoGateway-unused ngs hs)

module _ (s : Services) where
  -- A pool of the node group itself, or of its template.
  abbrev pub HasPool : NodeGroupData → Type 0
  HasPool ng =
      IsGiven ng.fields.floating_ip_pool
      ⊎ ((id : String) × (f : Fields) × (ng.node_group_template_id ≡ some id)
          × (s.node_group_template id ≡ some f)
          × IsGiven f.floating_ip_pool)

  -- The pool of the template of this id.
  template_has_pool-IsGiven :
      (t : Option String)
      → template_has_pool s t ≡ ok true
      → (id : String) × (f : Fields) × (t ≡ some id)
        × (s.node_group_template id ≡ some f)
        × IsGiven f.floating_ip_pool
  template_has_pool-IsGiven none h = absurd (cc h)
  template_has_pool-IsGiven (some id) h = elim (Bool-cases (truthy (some id))) [
    | inl given ↦ stored (s.node_group_template id) refl (rw given at h)
    | inr empty ↦ absurd (cc (rw empty at h))
  ]
    where
      stored :
          (o : Option Fields)
          → s.node_group_template id ≡ o
          → ◌≡◌ {A = Result Bool}
              (elim o [
                | none ↦ err Error.attribute_error
                | some f ↦ ok (truthy f.floating_ip_pool)
              ])
              (ok true)
          → (i : String) × (f : Fields) × (◌≡◌ {A = Option String} (some id) (some i))
            × (s.node_group_template i ≡ some f)
            × IsGiven f.floating_ip_pool
      stored none e p = absurd (cc p)
      stored (some f) e p = (id, f, refl, e, truthy-IsGiven f.floating_ip_pool (cc p))

  has_floating_ip_pool-HasPool :
      (ng : NodeGroupData) → has_floating_ip_pool s ng ≡ ok true → HasPool ng
  unfolding has_floating_ip_pool
  has_floating_ip_pool-HasPool ng h = elim (Bool-cases (truthy ng.fields.floating_ip_pool)) [
    | inl own ↦ inl (truthy-IsGiven ng.fields.floating_ip_pool own)
    | inr other ↦ inr (template_has_pool-IsGiven ng.node_group_template_id (rw other at h))
  ]

  -- Where Neutron gives floating IPs, a node group has a pool if no node group is a proxy gateway,
  -- or it is one itself.
  abbrev pub PoolValid : Type 0 → NodeGroupData → Type 0
  PoolValid no_gateway ng =
      s.use_floating_ips ≡ true
      → s.use_neutron ≡ true
      → no_gateway ⊎ (ng.is_proxy_gateway ≡ true)
      → HasPool ng

  both : {a b : Bool} → a ≡ true → b ≡ true → (a && b) ≡ true
  both p q = rw (p, q)

  required :
      (used proxy : Bool) → (used ≡ false) ⊎ (proxy ≡ true) → (if used then proxy else true) ≡ true
  required used proxy h = ground arith

  holds : (b : Bool) → not b ≡ false → b ≡ true
  holds b h = ground arith

  check_pool-HasPool :
      (used : Bool) (ng : NodeGroupData)
      → check_pool s used ng ≡ ok tt
      → (used ≡ false) ⊎ (ng.is_proxy_gateway ≡ true)
      → HasPool ng
  check_pool-HasPool used ng h needs =
      let (has_pool, found, r) =
        >>=-eq-ok (has_floating_ip_pool s ng) (λ b. raise_if (not b) Error.missing_floating_network)
          (rw (required used ng.is_proxy_gateway needs) at h) in
      has_floating_ip_pool-HasPool ng (
        found
        ∙ ap ok (holds has_pool (raise_if-eq-ok (not has_pool) Error.missing_floating_network r)))

  pub check_network_config-PoolValid :
      (ngs : List NodeGroupData) (used : Bool) (no_gateway : Type 0)
      → (no_gateway → used ≡ false)
      → check_network_config s ngs used ≡ ok tt
      → All (PoolValid no_gateway) ngs
  unfolding check_network_config
  check_network_config-PoolValid ngs used no_gateway unused h =
      elim (Bool-cases (s.use_floating_ips && s.use_neutron)) [
        | inl on ↦
            All-map (λ ng. check_pool s used ng ≡ ok tt) (PoolValid no_gateway) ngs
              (λ ng p floating neutron needs.
                check_pool-HasPool used ng p
                  (elim needs [ inl without ↦ inl (unused without) | inr proxy ↦ inr proxy ]))
              (check_each-All (check_pool s used) ngs (rw on at h))
        | inr off ↦
            All-intro (PoolValid no_gateway) ngs
              (λ ng floating neutron needs. absurd (cc (off, both floating neutron)))
      ]

  -- The name of the last instance, "%s-%s-%03d", and the domain take 64 characters at most; `d` is
  -- a number of digits that is enough for the count.
  abbrev pub HostnameFits : String → NodeGroupData → Type 0
  HostnameFits cluster_name ng =
      (d : ℕ) × (ng.count < 10 ^ d)
      × (count cluster_name + 1 + count ng.name + 1 + max 3 d + 1 + count s.node_domain ≤ 64)

  fits :
      (cluster_name : String) (ng : NodeGroupData)
      → check_hostname s cluster_name ng ≡ ok tt
      → HostnameFits cluster_name ng
  unfolding instance_name_length
  fits cluster_name ng p = (
    num_digits ng.count ng.count,
    num_digits-enough ng.count ng.count (omega arith),
    ground (
      arith,
      raise_if-eq-ok (ltb max_hostname_length (hostname_length s cluster_name ng))
          Error.invalid_data p,
    ),
  )

  pub check_hostnames-HostnameFits :
      (cluster_name : String) (ngs : List NodeGroupData)
      → check_cluster_hostnames_lengths s cluster_name ngs ≡ ok tt
      → All (HostnameFits cluster_name) ngs
  unfolding check_cluster_hostnames_lengths
  check_hostnames-HostnameFits cluster_name ngs h =
      All-map (λ ng. check_hostname s cluster_name ng ≡ ok tt) (HostnameFits cluster_name) ngs
        (fits cluster_name) (check_each-All (check_hostname s cluster_name) ngs h)
