-- ===== src/Validation/Valid.antt =====
-- What a cluster that passes the check of its creation has.
use mathlib.Core.Path.{subst}
use sahara.Base.{
  ◌≡◌, refl, sym, true, false, not, none, some, Option, String, List, [], ◌∷◌, map, ok, err, Error,
  Result, raise_if-eq-ok, >>-eq-ok, >>=-eq-ok, ◌>>◌, All, arith, mem, distinct, is_some, is_empty,
  if◌then◌else◌,
}
use sahara.Base.Dict.{Dict}
use sahara.Validation.{
  Services, NodeGroupData, ClusterTemplate, if_set, if_any, check_each, check_plugin_name_exists,
  check_plugin_supports_version, check_node_processes, check_node_group_configs, get_plugin_configs,
}
use sahara.Validation.Nodes.{
  check_group, check_all_configurations, check_network_config, check_cluster_hostnames_lengths,
  uses_proxy_gateway, check_duplicates_node_groups_names,
}
use sahara.Validation.Creation.{
  ClusterData, check_cluster_unique_name, check_cluster_data, check_cluster_create,
  check_keypair_exists, check_template as check_cluster_template, check_cluster_template_exists,
  check_node_groups_in_cluster_templates, the_template, get_cluster_field, check_image,
  check_groups,
}
use sahara.Validation.Known.{check_each-All, All-map, Given, if_set-Given}
use sahara.Validation.FieldsValid.{AllFieldsValid, check_group-AllFieldsValid}
use sahara.Validation.GroupsValid.{
  All-zip, NoGateway, NoGateway-unused, PoolValid, check_network_config-PoolValid, HostnameFits,
  check_hostnames-HostnameFits,
}

module _ (s : Services) where
  -- The node groups of a request that were checked: their names differ, and each has valid fields.
  check_all_configurations-Valid :
      (name version : String) (confs : Dict (List String)) (ngs : List NodeGroupData)
      → check_all_configurations s name version confs ngs ≡ ok tt
      → (distinct (map (λ (ng : NodeGroupData). ng.name) ngs) ≡ true)
        × All (AllFieldsValid s name version) ngs
  unfolding check_all_configurations check_duplicates_node_groups_names
  check_all_configurations-Valid name version confs [] h = (refl, tt)
  check_all_configurations-Valid name version confs (n ∷ ns) h =
      let ngs : List NodeGroupData = n ∷ ns in
      let (pl, known, r1) = >>=-eq-ok (get_plugin_configs s name version) _ h in
      let (h2, r2) =
        >>-eq-ok (if_any confs (check_node_group_configs s name version confs (some pl))) _ r1 in
      let (names, groups) = >>-eq-ok (check_duplicates_node_groups_names ngs) _ r2 in
      (
        ground (
          arith,
          raise_if-eq-ok (not (distinct (map (λ (ng : NodeGroupData). ng.name) ngs)))
              Error.invalid_data names,
        ),
        All-map (λ ng. check_group s name version (some pl) ng ≡ ok tt)
            (AllFieldsValid s name version) ngs
            (check_group-AllFieldsValid s name version (some pl))
            (check_each-All (check_group s name version (some pl)) ngs groups),
      )

  -- The node groups together: a pool where one is needed, and host names that fit.
  abbrev pub GroupsFit : String → List NodeGroupData → Type 0
  GroupsFit cluster_name ngs =
      All (λ ng. PoolValid s (NoGateway ngs) ng × HostnameFits s cluster_name ng) ngs

  fit :
      (name : String) (ngs : List NodeGroupData)
      → check_network_config s ngs (uses_proxy_gateway ngs) ≡ ok tt
      → check_cluster_hostnames_lengths s name ngs ≡ ok tt
      → GroupsFit name ngs
  fit name ngs pools names =
      All-zip (PoolValid s (NoGateway ngs)) (HostnameFits s name) ngs
        (check_network_config-PoolValid s ngs (uses_proxy_gateway ngs) (NoGateway ngs)
          (NoGateway-unused ngs) pools)
        (check_hostnames-HostnameFits s name ngs names)

  groups-GroupsFit :
      (name : String) (ngs : List NodeGroupData)
      → if_any ngs (
          check_network_config s ngs (uses_proxy_gateway ngs)
          >> check_cluster_hostnames_lengths s name ngs)
        ≡ ok tt
      → GroupsFit name ngs
  groups-GroupsFit name [] h = tt
  groups-GroupsFit name (n ∷ ns) h =
      let (pools, names) =
        >>-eq-ok (check_network_config s (n ∷ ns) (uses_proxy_gateway (n ∷ ns))) _ h in
      fit name (n ∷ ns) pools names

  -- The node groups of a stored template, for a cluster of this name.
  abbrev pub TemplateFits : ClusterData → String → Type 0
  TemplateFits d id =
      (t : ClusterTemplate) × (s.cluster_template id ≡ some t)
      × (d.node_groups ≡ []
          → All (AllFieldsValid s d.plugin_name d.hadoop_version) t.node_groups
            × GroupsFit d.name t.node_groups)

  -- The node groups of a template that passed the checks of its fields, pools and host names.
  abbrev GroupsPassed : ClusterData → ClusterTemplate → Type 0
  GroupsPassed d t =
      All (AllFieldsValid s d.plugin_name d.hadoop_version) t.node_groups
      × GroupsFit d.name t.node_groups

  template_groups :
      (d : ClusterData) (t : ClusterTemplate)
      → (check_network_config s t.node_groups (uses_proxy_gateway t.node_groups)
          >> (check_each (check_group s d.plugin_name d.hadoop_version none) t.node_groups
              >> check_cluster_hostnames_lengths s d.name t.node_groups))
        ≡ ok tt
      → GroupsPassed d t
  template_groups d t h =
      let (pools, r1) =
        >>-eq-ok (check_network_config s t.node_groups (uses_proxy_gateway t.node_groups)) _ h in
      let (fields, names) =
        >>-eq-ok (check_each (check_group s d.plugin_name d.hadoop_version none) t.node_groups) _
          r1 in
      (
        All-map (λ ng. check_group s d.plugin_name d.hadoop_version none ng ≡ ok tt)
            (AllFieldsValid s d.plugin_name d.hadoop_version) t.node_groups
            (check_group-AllFieldsValid s d.plugin_name d.hadoop_version none)
            (check_each-All (check_group s d.plugin_name d.hadoop_version none) t.node_groups
              fields),
        fit d.name t.node_groups pools names,
      )

  stored_groups :
      (d : ClusterData) (id : String) (t : ClusterTemplate)
      → s.cluster_template id ≡ some t
      → check_node_groups_in_cluster_templates s d.name d.plugin_name d.hadoop_version id ≡ ok tt
      → GroupsPassed d t
  unfolding check_node_groups_in_cluster_templates
  stored_groups d id t e h =
      let (t', got, rest) = >>=-eq-ok (the_template s id) _ h in
      subst (GroupsPassed d) (sym (same (s.cluster_template id) e got)) (template_groups d t' rest)
    where
      same :
          (o : Option ClusterTemplate) {t' : ClusterTemplate}
          → o ≡ some t
          → ◌≡◌ {A = Result ClusterTemplate}
              (elim o [ none ↦ err Error.attribute_error | some u ↦ ok u ])
              (ok t')
          → t ≡ t'
      same none e got = absurd (cc e)
      same (some u) e got = cc (e, got)

  check_template-TemplateFits :
      (d : ClusterData) (id : String) → check_cluster_template s d id ≡ ok tt → TemplateFits d id
  unfolding check_cluster_template_exists
  check_template-TemplateFits d id h =
      let (there, groups) = >>-eq-ok (check_cluster_template_exists s id) _ h in
      stored (s.cluster_template id) refl
        (raise_if-eq-ok (not (is_some (s.cluster_template id))) Error.not_found there) groups
    where
      stored :
          (o : Option ClusterTemplate)
          → s.cluster_template id ≡ o
          → not (is_some o) ≡ false
          → (if is_empty d.node_groups
              then check_node_groups_in_cluster_templates s d.name d.plugin_name d.hadoop_version id
              else ok tt)
            ≡ ok tt
          → TemplateFits d id
      stored none e p groups = absurd (cc p)
      stored (some t) e p groups = (t, e, λ empty. stored_groups d id t e (rw empty at groups))

  -- A cluster that passes the check of its creation has a new name, a known plugin, and node groups
  -- with names that differ. Each of its node groups has fields that are in order, its own and its
  -- template's: flavor, image, availability zone, floating IP pool and security groups are known
  -- where they are given, its processes differ and are the plugin's, and if it has volumes then
  -- there is Cinder, a size, and a known zone and exactly one such volume type where these are
  -- given. Where Neutron gives floating IPs, each node group has a pool, by itself or by its
  -- template, if it is a proxy gateway or there is no proxy gateway. The names of its hosts have 64
  -- characters at most. Where the request names a cluster template, that is stored; and if the
  -- request has no node groups, the template's have all this except names that differ.
  pub check_cluster_create-Valid :
      (d : ClusterData)
      → check_cluster_create s d ≡ ok tt
      → (mem d.name s.cluster_names ≡ false)
        × (mem d.plugin_name s.plugin_names ≡ true)
        × (distinct (map (λ (ng : NodeGroupData). ng.name) d.node_groups) ≡ true)
        × All (AllFieldsValid s d.plugin_name d.hadoop_version) d.node_groups
        × GroupsFit d.name d.node_groups
        × Given d.cluster_template_id (TemplateFits d)
  unfolding check_cluster_create check_cluster_data check_cluster_unique_name
      check_plugin_name_exists
  check_cluster_create-Valid d h =
      let (unique, r0) = >>-eq-ok (check_cluster_unique_name s d.name) _ h in
      let (plugin, r1) = >>-eq-ok (check_plugin_name_exists s d.plugin_name) _ r0 in
      let (h2, r2) =
        >>-eq-ok (check_plugin_supports_version s d.plugin_name d.hadoop_version) _ r1 in
      let (template, r3) =
        >>-eq-ok (if_set d.cluster_template_id (check_cluster_template s d)) _ r2 in
      let (h4, r4) = >>-eq-ok (if_set d.user_keypair_id (check_keypair_exists s)) _ r3 in
      let (image, e5, r5) =
        >>=-eq-ok (get_cluster_field s d d.default_image_id (λ t. t.default_image_id)) _ r4 in
      let (h6, r6) = >>-eq-ok (check_image s d image) _ r5 in
      let (configs, r7) =
        >>-eq-ok
          (check_all_configurations s d.plugin_name d.hadoop_version d.cluster_configs
            d.node_groups)
          _ r6 in
      let (h8, r8) =
        >>-eq-ok
          (if_any d.anti_affinity
            (check_node_processes s d.plugin_name d.hadoop_version d.anti_affinity))
          _ r7 in
      let (groups, r9) = >>-eq-ok (if_any d.node_groups (check_groups s d)) _ r8 in
      let (names, fields) =
        check_all_configurations-Valid d.plugin_name d.hadoop_version d.cluster_configs
          d.node_groups configs in
      (
        raise_if-eq-ok (mem d.name s.cluster_names) Error.name_already_exists unique,
        ground (
          arith,
          raise_if-eq-ok (not (mem d.plugin_name s.plugin_names)) Error.invalid_reference plugin,
        ),
        names,
        fields,
        groups-GroupsFit d.name d.node_groups groups,
        if_set-Given (TemplateFits d) d.cluster_template_id (check_cluster_template s d)
            (check_template-TemplateFits d) template,
      )
