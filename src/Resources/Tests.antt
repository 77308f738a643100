-- ===== src/Resources/Tests.antt =====
-- A cluster row with a key and a node group, and the theorems with it.
use sahara.Base.{◌≡◌, refl, false, none, ok, err, Error}
use sahara.Resources.{
  null, number, text, arr, obj, nil, cons, Fields, end, field, plain, cluster, Entity, resource,
  frozen, nothing, also, done, attr, no_more, num, str, parent, node_group, wrap_entity,
  entity_to_dict, sanitize,
}
use sahara.Resources.RoundTrip.{has_key, wrap_entity-entity_to_dict, entity_to_dict-has_key}

abbrev workers : Fields
workers =
    field "name" (text "workers")
      (field "image_username" (text "ubuntu") (field "count" (number 2) end))

abbrev row : Fields
row = field "name" (text "cluster") (
    field "management_private_key" (text "key") (
      field "cluster_configs" (obj (field "proxy_configs" (text "user") end))
        (field "node_groups" (arr (cons (obj workers) nil)) end)))

abbrev wrapped_row : Entity
wrapped_row = resource cluster (
    attr "name" (str "cluster") (
      attr "management_private_key" (str "key") (
        attr "cluster_configs" (resource plain (attr "proxy_configs" (str "user") no_more)) (
          attr "node_groups"
            (frozen (
              also
                (resource node_group (
                  attr "name" (str "workers") (
                    attr "image_username" (str "ubuntu")
                      (attr "count" (num 2) (attr "cluster" parent no_more)))))
                done))
            no_more))))

abbrev shown_row : Fields
shown_row = field "name" (text "cluster") (
    field "cluster_configs" (obj end) (
      field "node_groups"
        (arr (cons (obj (field "name" (text "workers") (field "count" (number 2) end))) nil)) end))

row_wraps : wrap_entity (cluster, none) (obj row) ≡ ok wrapped_row
unfolding wrap_entity
row_wraps = refl

row_shown : entity_to_dict none wrapped_row ≡ ok (obj shown_row)
unfolding entity_to_dict sanitize
row_shown = refl

-- A cluster without cluster_configs cannot be shown.
no_configs :
    entity_to_dict none (resource cluster (attr "cluster_configs" nothing no_more))
    ≡ err Error.type_error
unfolding entity_to_dict sanitize
no_configs = refl

plain_wraps :
    wrap_entity
      (plain, none)
      (obj (field "first" (number 1) (field "second" (arr (cons null nil)) end)))
    ≡ ok
        (resource plain (attr "first" (num 1) (attr "second" (frozen (also nothing done)) no_more)))
unfolding wrap_entity
plain_wraps = refl

wrap_entity-entity_to_dict_example :
    entity_to_dict none
      (resource plain (attr "first" (num 1) (attr "second" (frozen (also nothing done)) no_more)))
    ≡ ok (obj (field "first" (number 1) (field "second" (arr (cons null nil)) end)))
wrap_entity-entity_to_dict_example =
    wrap_entity-entity_to_dict
      (obj (field "first" (number 1) (field "second" (arr (cons null nil)) end))) plain_wraps

entity_to_dict-has_key_example : has_key "management_private_key" shown_row ≡ false
entity_to_dict-has_key_example =
    entity_to_dict-has_key cluster none "management_private_key" row shown_row row_wraps row_shown
      refl
