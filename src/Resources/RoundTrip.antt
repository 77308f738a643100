-- ===== src/Resources/RoundTrip.antt =====
-- A plain resource gives back the dict that it was made of, and a class shows none of its hidden
-- fields.
use mathlib.Core.Path.{subst}
use sahara.Base.{
  ◌≡◌, refl, sym, ap, ◌∙◌, inl, inr, Bool, true, false, ◌||◌, Option, none, String, ok, ◌>>=◌,
  >>=-eq-ok, ok-injective, str_eq, eq_iff, Bool-cases, arith,
}
use sahara.Resources.{
  Value, null, number, text, unsupported, arr, obj, Items, nil, cons, Fields, end, field, Class,
  plain, Entity, Entities, Attrs, child, wrap_entity, wrap_list, wrap_fields, sanitize, is_hidden,
  add_field, add_item, entity_to_dict,
}
use sahara.Resources.Exposed.{exposed, exposed_items, exposed_fields, wrap_entity-exposed}

mutual
  unfolding wrap_entity exposed sanitize

  value_shown :
      (v : Value) (e : Entity) → wrap_entity (plain, none) v ≡ ok e → exposed (plain, none) v ≡ ok v
  value_shown null e h = refl
  value_shown (number n) e h = refl
  value_shown (text t) e h = refl
  value_shown unsupported e h = absurd (cc h)
  value_shown (arr items) e h =
      let (es, wrapped, e_is) = >>=-eq-ok (wrap_list (plain, none) items) _ h in
      ap (λ r. r >>= (λ shown. ok (arr shown))) (items_shown items es wrapped)
  value_shown (obj fs) e h =
      let (attrs, wrapped, e_is) = >>=-eq-ok (wrap_fields plain none fs) _ h in
      ap (λ r. r >>= (λ shown. ok (obj shown))) (fields_shown fs attrs wrapped)

  items_shown :
      (items : Items) (es : Entities)
      → wrap_list (plain, none) items ≡ ok es
      → exposed_items (plain, none) items ≡ ok items
  items_shown nil es h = refl
  items_shown (cons v items) es h =
      let (e, wrapped, h₁) = >>=-eq-ok (wrap_entity (plain, none) v) _ h in
      let (rest, wrapped_rest, es_is) = >>=-eq-ok (wrap_list (plain, none) items) _ h₁ in
      ap (λ w. add_item w (exposed_items (plain, none) items)) (value_shown v e wrapped)
      ∙ ap (λ r. add_item (ok v) r) (items_shown items rest wrapped_rest)

  fields_shown :
      (fs : Fields) (attrs : Attrs)
      → wrap_fields plain none fs ≡ ok attrs
      → exposed_fields plain none fs ≡ ok fs
  fields_shown end attrs h = refl
  fields_shown (field k v fs) attrs h =
      let (e, wrapped, h₁) = >>=-eq-ok (wrap_entity (plain, none) v) _ h in
      let (rest, wrapped_rest, attrs_is) = >>=-eq-ok (wrap_fields plain none fs) _ h₁ in
      ap (λ w. add_field plain k w (exposed_fields plain none fs)) (value_shown v e wrapped)
      ∙ ap (λ r. add_field plain k (ok v) r) (fields_shown fs rest wrapped_rest)

-- A value that wraps as a plain resource comes back unchanged.
pub wrap_entity-entity_to_dict :
    (v : Value) {e : Entity} → wrap_entity (plain, none) v ≡ ok e → entity_to_dict none e ≡ ok v
wrap_entity-entity_to_dict v {e} h = wrap_entity-exposed plain none v h ∙ value_shown v e h

abbrev pub has_key : String → Fields → Bool
has_key key end = false
has_key key (field k v fs) = str_eq k key || has_key key fs

differ :
    (c : Class) (backref : Option String) (k key : String)
    → is_hidden c backref k ≡ false
    → is_hidden c backref key ≡ true
    → str_eq k key ≡ false
differ c b k key shown hidden = elim (Bool-cases (str_eq k key)) [
  | inl same ↦
      absurd (cc (subst (λ i. is_hidden c b i ≡ false) ((eq_iff k key).0 same) shown, hidden))
  | inr other ↦ other
]

exposed_fields-has_key :
    (c : Class) (backref : Option String) (key : String) (fs gs : Fields)
    → is_hidden c backref key ≡ true
    → exposed_fields c backref fs ≡ ok gs
    → has_key key gs ≡ false
unfolding exposed
exposed_fields-has_key c b key end gs hidden h = ap (has_key key) (sym (ok-injective h))
exposed_fields-has_key c b key (field k v fs) gs hidden h = elim (Bool-cases (is_hidden c b k)) [
  | inl skipped ↦ exposed_fields-has_key c b key fs gs hidden (rw skipped at h)
  | inr shown ↦
      let (w, _, h₁) = >>=-eq-ok (exposed (child c k) v) _ (rw shown at h) in
      let (w', _, h₂) = >>=-eq-ok (sanitize c k w) _ h₁ in
      let (rest, e_rest, gs_is) = >>=-eq-ok (exposed_fields c b fs) _ h₂ in
      ap (has_key key) (sym (ok-injective gs_is))
      ∙ both (str_eq k key) (differ c b k key shown hidden)
          (exposed_fields-has_key c b key fs rest hidden e_rest)
]
  where
    both : (x : Bool) {y : Bool} → x ≡ false → y ≡ false → (x || y) ≡ false
    both x {y} e f = ground (arith, e, f)

-- The dict that a row comes to for the REST API has none of the hidden fields of its class.
pub entity_to_dict-has_key :
    (c : Class) (backref : Option String) (key : String) (fs gs : Fields) {e : Entity}
    → wrap_entity (c, backref) (obj fs) ≡ ok e
    → entity_to_dict backref e ≡ ok (obj gs)
    → is_hidden c backref key ≡ true
    → has_key key gs ≡ false
unfolding exposed
entity_to_dict-has_key c b key fs gs {e} wrapped shown hidden =
    let (hs, e_hs, gs_is) =
      >>=-eq-ok (exposed_fields c b fs) _
        (sym (wrap_entity-exposed c b (obj fs) wrapped) ∙ shown) in
    exposed_fields-has_key c b key fs gs hidden
      (e_hs ∙ ap ok (the_fields hs gs (ok-injective gs_is)))
  where
    the_fields : (hs gs : Fields) → obj hs ≡ obj gs → hs ≡ gs
    the_fields hs gs h = cc h
