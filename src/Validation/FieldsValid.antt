-- ===== src/Validation/FieldsValid.antt =====
-- What the checks of the fields of a node group establish.
use sahara.Base.{
  ◌≡◌, refl, true, ◌⊎◌, Option, none, some, String, List, ok, err, Error, >>-eq-ok, All, mem,
  distinct,
}
use sahara.Base.Dict.{Dict}
use sahara.Validation.{
  Services, Fields, NodeGroupData, if_set, if_any, check_flavor_exists, check_node_processes,
  check_node_group_configs, check_image_registered, check_floatingip_pool_exists,
  check_security_groups_exist, check_availability_zone_exist,
}
use sahara.Validation.Nodes.{
  check_fields, check_template, check_volumes, check_node_group_basic_fields, check_group,
}
use sahara.Validation.Known.{
  Given, if_set-Given, PoolKnown, ProcessKnown, VolumesValid, known_flavor, known_image, known_zone,
  known_pool, known_groups, known_processes, check_volumes-VolumesValid,
}

module _ (s : Services) where
  -- The flavor, image, zones, floating IP pool, security groups, volumes and processes are there.
  abbrev pub FieldsValid : String → String → Fields → Type 0
  FieldsValid name version f =
      Given f.flavor_id (λ x. mem x s.flavors ≡ true)
      × Given f.image_id (λ x. mem x s.registered_images ≡ true)
      × Given f.availability_zone (λ x. mem x s.nova_zones ≡ true)
      × Given f.floating_ip_pool (PoolKnown s)
      × All (λ x. (mem x s.security_group_ids ≡ true) ⊎ (mem x s.security_group_names ≡ true))
          f.security_groups
      × VolumesValid s f
      × (distinct f.node_processes ≡ true)
      × All (ProcessKnown s name version) f.node_processes

  check_fields-FieldsValid :
      (name version : String) (f : Fields) (confs : Option (Dict (List String)))
      → check_fields s name version f confs ≡ ok tt
      → FieldsValid name version f
  unfolding check_fields
  check_fields-FieldsValid name version f confs h =
      let (h1, r1) =
        >>-eq-ok
          (if_any f.node_configs (check_node_group_configs s name version f.node_configs confs)) _
          h in
      let (flavor, r2) = >>-eq-ok (if_set f.flavor_id (check_flavor_exists s)) _ r1 in
      let (processes, r3) =
        >>-eq-ok (if_any f.node_processes (check_node_processes s name version f.node_processes)) _
          r2 in
      let (image, r4) = >>-eq-ok (if_set f.image_id (check_image_registered s)) _ r3 in
      let (volumes, r5) = >>-eq-ok (check_volumes s f) _ r4 in
      let (pool, r6) = >>-eq-ok (if_set f.floating_ip_pool (check_floatingip_pool_exists s)) _ r5 in
      let (groups, zone) =
        >>-eq-ok (if_any f.security_groups (check_security_groups_exist s f.security_groups)) _
          r6 in
      let (apart, known) = known_processes s name version f.node_processes processes in
      (
        if_set-Given _ f.flavor_id (check_flavor_exists s) (known_flavor s) flavor,
        if_set-Given _ f.image_id (check_image_registered s) (known_image s) image,
        if_set-Given _ f.availability_zone (check_availability_zone_exist s) (known_zone s) zone,
        if_set-Given _ f.floating_ip_pool (check_floatingip_pool_exists s) (known_pool s) pool,
        known_groups s f.security_groups groups,
        check_volumes-VolumesValid s f volumes,
        apart,
        known,
      )

  -- The fields of the node group and those of its template, if it has one.
  abbrev pub AllFieldsValid : String → String → NodeGroupData → Type 0
  AllFieldsValid name version ng =
      FieldsValid name version ng.fields
      × Given ng.node_group_template_id
          (λ id. (f : Fields) × (s.node_group_template id ≡ some f) × FieldsValid name version f)

  pub check_group-AllFieldsValid :
      (name version : String) (confs : Option (Dict (List String))) (ng : NodeGroupData)
      → check_group s name version confs ng ≡ ok tt
      → AllFieldsValid name version ng
  unfolding check_node_group_basic_fields
  check_group-AllFieldsValid name version confs ng h =
      let (template, own) =
        >>-eq-ok (if_set ng.node_group_template_id (check_template s name version confs)) _ h in
      (
        check_fields-FieldsValid name version ng.fields confs own,
        if_set-Given _ ng.node_group_template_id (check_template s name version confs)
            (λ id p. stored id (s.node_group_template id) refl p) template,
      )
    where
      stored :
          (id : String) (o : Option Fields)
          → s.node_group_template id ≡ o
          → (elim o [ none ↦ err Error.not_found | some f ↦ check_fields s name version f confs ])
            ≡ ok tt
          → (f : Fields) × (s.node_group_template id ≡ some f) × FieldsValid name version f
      stored id none e p = absurd (cc p)
      stored id (some f) e p = (f, e, check_fields-FieldsValid name version f confs p)
