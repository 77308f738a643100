-- ===== src/Validation/Scalable.antt =====
-- What a cluster and a request have that pass the check of a scaling.
use text.Mathlib.Text.{starts_with}
use sahara.Base.{
  ◌≡◌, refl, Bool, true, false, not, ◌&&◌, Option, none, some, String, List, [], ◌∷◌, map, ok,
  Error, raise_if, raise_if-eq-ok, >>-eq-ok, >>=-eq-ok, mem, str_eq, eq_iff, arith, distinct, All,
  any,
}
use sahara.Base.Dict.{Dict}
use sahara.Objects.{Cluster, NodeGroup, ClusterStatus, is_active, truthy}
use sahara.Validation.{Services, NodeGroupData, if_any, get_plugin_configs}
use sahara.Validation.Nodes.{check_duplicates_node_groups_names, check_network_config}
use sahara.Validation.Acl.{check_tenant_for_update, check_protected_from_update}
use sahara.Validation.Known.{check_each-All, All-map}
use sahara.Validation.FieldsValid.{AllFieldsValid, check_group-AllFieldsValid}
use sahara.Validation.GroupsValid.{
  All-zip, PoolValid, check_network_config-PoolValid, HostnameFits, check_hostnames-HostnameFits,
}
use sahara.Validation.Scaling.{
  ScalingData, group_names, has_proxy_gateway, is_known, is_new, engine_of, check_resize,
  check_added, check_add_node_groups, is_other, check_engine, supports_scaling, check_added_groups,
  check_cluster_scaling,
}

abbrev names_of : List NodeGroupData → List String
names_of ngs = map (λ (ng : NodeGroupData). ng.name) ngs

of_not : (b : Bool) → not b ≡ false → b ≡ true
of_not b h = ground arith

active : (status : ClusterStatus) → is_active status ≡ true → status ≡ ClusterStatus.active
active status h = ground arith

duplicates-distinct :
    (ngs : List NodeGroupData)
    → check_duplicates_node_groups_names ngs ≡ ok tt
    → distinct (names_of ngs) ≡ true
unfolding check_duplicates_node_groups_names
duplicates-distinct ngs h =
    of_not _ (raise_if-eq-ok (not (distinct (names_of ngs))) Error.invalid_data h)

-- The resized node groups belong to the cluster, each named once.
abbrev pub ResizeValid : Cluster → List NodeGroupData → Type 0
ResizeValid c ngs =
    (distinct (names_of ngs) ≡ true) × All (λ ng. mem ng.name (group_names c) ≡ true) ngs

resize-ResizeValid :
    (c : Cluster) (ngs : List NodeGroupData)
    → if_any ngs (check_resize c ngs) ≡ ok tt
    → ResizeValid c ngs
unfolding check_resize
resize-ResizeValid c [] h = (refl, tt)
resize-ResizeValid c (n ∷ ns) h =
    let (names, known) = >>-eq-ok (check_duplicates_node_groups_names (n ∷ ns)) _ h in
    (
      duplicates-distinct (n ∷ ns) names,
      All-map (λ ng. is_known c ng ≡ ok tt) (λ ng. mem ng.name (group_names c) ≡ true) (n ∷ ns)
          (λ ng p.
            of_not _ (raise_if-eq-ok (not (mem ng.name (group_names c))) Error.invalid_reference p))
          (check_each-All (is_known c) (n ∷ ns) known),
    )

module _ (s : Services) where
  -- No node group of the cluster is a proxy gateway.
  abbrev pub NoGatewayIn : Cluster → Type 0
  NoGatewayIn c = All (λ (ng : NodeGroup). ng.is_proxy_gateway ≡ false) c.node_groups

  NoGatewayIn-without : (c : Cluster) → NoGatewayIn c → has_proxy_gateway c ≡ false
  NoGatewayIn-without c h = none_in c.node_groups h
    where
      none_in :
          (ngs : List NodeGroup)
          → All (λ (ng : NodeGroup). ng.is_proxy_gateway ≡ false) ngs
          → any (λ (ng : NodeGroup). ng.is_proxy_gateway) ngs ≡ false
      none_in [] q = refl
      none_in (ng ∷ ngs) (q, qs) = ground (arith, q, none_in ngs qs)

  -- An added node group is new to the cluster, and its fields, its pool and its host names are in
  -- order.
  abbrev pub NewValid : Cluster → NodeGroupData → Type 0
  NewValid c ng =
      ((mem ng.name (group_names c) ≡ false) × AllFieldsValid s c.plugin_name c.hadoop_version ng)
      × (PoolValid s (NoGatewayIn c) ng × HostnameFits s c.name ng)

  abbrev pub AddedValid : Cluster → List NodeGroupData → Type 0
  AddedValid c ngs = (distinct (names_of ngs) ≡ true) × All (NewValid c) ngs

  added-AddedValid :
      (c : Cluster) (ngs : List NodeGroupData)
      → if_any ngs (check_added_groups s c ngs) ≡ ok tt
      → AddedValid c ngs
  unfolding check_add_node_groups
  added-AddedValid c [] h = (refl, tt)
  added-AddedValid c (n ∷ ns) h =
      let ngs : List NodeGroupData = n ∷ ns in
      let (added, r1) = >>-eq-ok (check_add_node_groups s c ngs) _ h in
      let (pools, hosts) = >>-eq-ok (check_network_config s ngs (has_proxy_gateway c)) _ r1 in
      let (names, r2) = >>-eq-ok (check_duplicates_node_groups_names ngs) _ added in
      let (confs, e, groups) =
        >>=-eq-ok (get_plugin_configs s c.plugin_name c.hadoop_version) _ r2 in
      (
        duplicates-distinct ngs names,
        All-zip
            (λ ng.
              (mem ng.name (group_names c) ≡ false)
              × AllFieldsValid s c.plugin_name c.hadoop_version ng)
            (λ ng. PoolValid s (NoGatewayIn c) ng × HostnameFits s c.name ng) ngs
            (All-map (λ ng. check_added s c (some confs) ng ≡ ok tt)
              (λ ng.
                (mem ng.name (group_names c) ≡ false)
                × AllFieldsValid s c.plugin_name c.hadoop_version ng)
              ngs (new_group c confs) (check_each-All (check_added s c (some confs)) ngs groups))
            (All-zip (PoolValid s (NoGatewayIn c)) (HostnameFits s c.name) ngs
              (check_network_config-PoolValid s ngs (has_proxy_gateway c) (NoGatewayIn c)
                (NoGatewayIn-without c) pools)
              (check_hostnames-HostnameFits s c.name ngs hosts)),
      )
    where
      new_group :
          (c : Cluster) (confs : Dict (List String)) (ng : NodeGroupData)
          → check_added s c (some confs) ng ≡ ok tt
          → (mem ng.name (group_names c) ≡ false)
            × AllFieldsValid s c.plugin_name c.hadoop_version ng
      new_group c confs ng p =
          let (new, valid) = >>-eq-ok (is_new c ng) _ p in
          (
            raise_if-eq-ok (mem ng.name (group_names c)) Error.invalid_reference new,
            check_group-AllFieldsValid s c.plugin_name c.hadoop_version (some confs) ng valid,
          )

  matching :
      (old : Option String) (engine : String) → is_other s old engine ≡ false → old ≡ some engine
  matching none engine h = absurd (cc h)
  matching (some o) engine h = ground (arith, eq_iff o engine)

  -- The engine that runs is the one that made the cluster.
  abbrev pub EngineFits : Cluster → String → Type 0
  EngineFits c engine = (old : Option String) → c.sahara_info ≡ some old → old ≡ some engine

  engine-EngineFits :
      (c : Cluster) (engine : String) → check_engine s c engine ≡ ok tt → EngineFits c engine
  engine-EngineFits c engine h old e =
      let (known, r) =
        >>-eq-ok
          (raise_if (not (truthy (engine_of s c)) && not (starts_with engine "direct"))
            Error.invalid_reference)
          _ h in
      matching old engine
        (raise_if-eq-ok (is_other s old engine) Error.invalid_reference (rw e at r))

  module _ {V : Type 0} (same : V → V → Bool) (holds : V → Bool) where
    abbrev pub ScalingValid : String → String → Cluster → ScalingData V → Type 0
    ScalingValid tenant_id engine c d =
        (c.tenant_id ≡ tenant_id)
        × (c.status ≡ ClusterStatus.active)
        × EngineFits c engine
        × ResizeValid c d.resize_node_groups
        × AddedValid c d.add_node_groups

    -- A request for a scaling that passes is for a cluster of the tenant that is there, Active, and
    -- made by the engine that runs if its maker is known; the node groups to resize are its own,
    -- those to add are new to it, and no name stands twice in either list. Each of those to add has
    -- fields that are in order, its own and its template's: flavor, image, availability zone,
    -- floating IP pool and security groups are known where they are given, its processes differ and
    -- are the plugin's, and if it has volumes then there is Cinder, a size, and a known zone and
    -- exactly one such volume type where these are given. Where Neutron gives floating IPs, it has
    -- a pool, by itself or by its template, if it is a proxy gateway or the cluster has none. The
    -- names of its hosts have 64 characters at most.
    pub check_cluster_scaling-ScalingValid :
        (tenant_id engine : String) (obj : Dict V) (cluster : Option Cluster) (d : ScalingData V)
        → check_cluster_scaling s same holds tenant_id engine obj cluster d ≡ ok tt
        → (c : Cluster) × (cluster ≡ some c) × ScalingValid tenant_id engine c d
    unfolding check_cluster_scaling check_tenant_for_update
    check_cluster_scaling-ScalingValid tenant_id engine obj none d h = absurd (cc h)
    check_cluster_scaling-ScalingValid tenant_id engine obj (some c) d h =
        let (tenant, r1) = >>-eq-ok (check_tenant_for_update tenant_id c.tenant_id) _ h in
        let (h2, r2) =
          >>-eq-ok (check_protected_from_update same holds c.is_protected obj d.request) _ r1 in
        let (fits, r3) = >>-eq-ok (check_engine s c engine) _ r2 in
        let (h4, r4) = >>-eq-ok (supports_scaling s c) _ r3 in
        let (live, r5) =
          >>-eq-ok (raise_if (not (is_active c.status)) Error.invalid_reference) _ r4 in
        let (resize, added) =
          >>-eq-ok (if_any d.resize_node_groups (check_resize c d.resize_node_groups)) _ r5 in
        (
          c,
          refl,
          (
            ground (
              arith,
              eq_iff c.tenant_id tenant_id,
              raise_if-eq-ok (not (str_eq c.tenant_id tenant_id)) Error.update_failed tenant,
            ),
            active c.status
                (of_not _ (raise_if-eq-ok (not (is_active c.status)) Error.invalid_reference live)),
            engine-EngineFits c engine fits,
            resize-ResizeValid c d.resize_node_groups resize,
            added-AddedValid c d.add_node_groups added,
          ),
        )
