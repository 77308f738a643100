-- ===== src/Resources/Exposed.antt =====
-- What the REST API gets of a row, without the detour through resources.
use sahara.Base.{
  ◌≡◌, refl, sym, ap, ◌∙◌, inl, inr, ◌||◌, Option, none, some, String, Result, ok, err, Error,
  ◌>>=◌, >>=-eq-ok, ok-injective, if◌then◌else◌, eq_iff, mem, Bool-cases, arith,
}
use sahara.Resources.{
  Value, null, number, text, unsupported, arr, obj, Items, nil, cons, Fields, end, field, Class,
  Entity, Entities, Attrs, child, filter_fields, is_backref, back, wrap_entity, is_hidden,
  add_field, add_item, entity_to_dict, to_dict, list_to_dict, wrap_list, wrap_fields,
}

-- The row without the hidden fields, at every level, and with the others sanitized.
unfoldable mutual
  pub exposed : Class × Option String → Value → Result Value
  exposed child null = ok null
  exposed child (number n) = ok (number n)
  exposed child (text t) = ok (text t)
  exposed child unsupported = err Error.type_error
  exposed child (arr items) = exposed_items child items >>= λ es. ok (arr es)
  exposed (c, backref) (obj fs) = exposed_fields c backref fs >>= λ gs. ok (obj gs)

  pub exposed_items : Class × Option String → Items → Result Items
  exposed_items child nil = ok nil
  exposed_items child (cons v items) = add_item (exposed child v) (exposed_items child items)

  pub exposed_fields : Class → Option String → Fields → Result Fields
  exposed_fields c backref end = ok end
  exposed_fields c backref (field refname v fs) =
      let w = exposed (child c refname) v in
      let rest = exposed_fields c backref fs in
      if is_hidden c backref refname then rest else add_field c refname w rest

back_hidden : (c : Class) (backref : Option String) → to_dict c backref (back backref) ≡ ok end
unfolding entity_to_dict
back_hidden c none = refl
back_hidden c (some b) = ground (arith, eq_iff b b)

mutual
  unfolding wrap_entity exposed entity_to_dict

  entity_lem :
      (d : Class × Option String) (v : Value) (e : Entity)
      → wrap_entity d v ≡ ok e
      → entity_to_dict d.1 e ≡ exposed d v
  entity_lem d null e h = ap (entity_to_dict d.1) (sym (ok-injective h))
  entity_lem d (number n) e h = ap (entity_to_dict d.1) (sym (ok-injective h))
  entity_lem d (text t) e h = ap (entity_to_dict d.1) (sym (ok-injective h))
  entity_lem d unsupported e h = absurd (cc h)
  entity_lem d (arr items) e h =
      let (es, wrapped, e_is) = >>=-eq-ok (wrap_list d items) _ h in
      ap (entity_to_dict d.1) (sym (ok-injective e_is))
      ∙ ap (λ r. r >>= (λ shown. ok (arr shown))) (items_lem d items es wrapped)
  entity_lem (c, b) (obj fs) e h =
      let (attrs, wrapped, e_is) = >>=-eq-ok (wrap_fields c b fs) _ h in
      ap (entity_to_dict b) (sym (ok-injective e_is))
      ∙ ap (λ r. r >>= (λ shown. ok (obj shown))) (fields_lem c b fs attrs wrapped)

  items_lem :
      (d : Class × Option String) (items : Items) (es : Entities)
      → wrap_list d items ≡ ok es
      → list_to_dict d.1 es ≡ exposed_items d items
  items_lem d nil es h = ap (list_to_dict d.1) (sym (ok-injective h))
  items_lem d (cons v items) es h =
      let (e, wrapped, h₁) = >>=-eq-ok (wrap_entity d v) _ h in
      let (rest, wrapped_rest, es_is) = >>=-eq-ok (wrap_list d items) _ h₁ in
      ap (list_to_dict d.1) (sym (ok-injective es_is))
      ∙ ap (λ w. add_item w (list_to_dict d.1 rest)) (entity_lem d v e wrapped)
      ∙ ap (λ r. add_item (exposed d v) r) (items_lem d items rest wrapped_rest)

  fields_lem :
      (c : Class) (b : Option String) (fs : Fields) (attrs : Attrs)
      → wrap_fields c b fs ≡ ok attrs
      → to_dict c b attrs ≡ exposed_fields c b fs
  fields_lem c b end attrs h = ap (to_dict c b) (sym (ok-injective h)) ∙ back_hidden c b
  fields_lem c b (field k v fs) attrs h = elim (Bool-cases (is_backref b k)) [
    | inl mine ↦
        fields_lem c b fs attrs (rw mine at h)
        ∙ ap
            (λ t.
              if t || mem k (filter_fields c)
              then exposed_fields c b fs
              else add_field c k (exposed (child c k) v) (exposed_fields c b fs))
            (sym mine)
    | inr other ↦
        let (e, wrapped, h₁) = >>=-eq-ok (wrap_entity (child c k) v) _ (rw other at h) in
        let (rest, wrapped_rest, attrs_is) = >>=-eq-ok (wrap_fields c b fs) _ h₁ in
        ap (to_dict c b) (sym (ok-injective attrs_is))
        ∙ ap (λ w. if is_hidden c b k then to_dict c b rest else add_field c k w (to_dict c b rest))
            (entity_lem (child c k) v e wrapped)
        ∙ ap (λ r. if is_hidden c b k then r else add_field c k (exposed (child c k) v) r)
            (fields_lem c b fs rest wrapped_rest)
  ]

pub wrap_entity-exposed :
    (c : Class) (backref : Option String) (v : Value) {e : Entity}
    → wrap_entity (c, backref) v ≡ ok e
    → entity_to_dict backref e ≡ exposed (c, backref) v
wrap_entity-exposed c backref v {e} h = entity_lem (c, backref) v e h
