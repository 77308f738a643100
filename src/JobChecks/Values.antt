-- ===== src/JobChecks/Values.antt =====
-- The argument that a name stands for, and the values of its type.
use sahara.Base.{
  ◌≡◌, refl, sym, ap, ◌∙◌, ◌⊎◌, inl, inr, Bool-cases, str_eq, eq_iff, ◌++◌, if◌then◌else◌, err,
  true, false, not, Option, none, some, String, List, [], ◌∷◌, ok, Error, raise_if, raise_if-eq-ok,
  arith, any,
}
use sahara.Base.Dict.{Dict, lookup}
use sahara.JobChecks.{Argument, Texts, validate_value, find_argument}

-- The last argument of this name.
abbrev pub IsLast : String → List Argument → Argument → Type 0
IsLast name interface arg =
    (before : List Argument) × (after : List Argument) × (interface ≡ before ++ (arg ∷ after))
    × (arg.name ≡ name)
    × (any (λ (a : Argument). str_eq a.name name) after ≡ false)

-- A value of a type: any text, a numeric one, or the id of a data source that exists or a URL.
abbrev pub IsOf : Texts → String → String → Type 0
IsOf t type value =
    (type ≡ "string")
    ⊎ ((type ≡ "number") × (t.isnumeric value ≡ true))
    ⊎ ((type ≡ "data_source")
        × (t.is_uuid_like value ≡ true)
        × (t.data_source_exists value ≡ ok tt))
    ⊎ ((type ≡ "data_source") × (t.is_uuid_like value ≡ false) × (t.has_scheme value ≡ true))

-- A type that is missing counts as a string.
abbrev pub IsOfType : Texts → Option String → String → Type 0
IsOfType t none value = Unit
IsOfType t (some type) value = IsOf t type value

-- What the configs have at this place, if they have something, is this value.
abbrev pub Agrees : Dict (Dict String) → Argument → String → Type 0
Agrees job_configs arg value =
    (typed_configs : Dict String) (config_value : String)
    → lookup arg.mapping_type job_configs ≡ some typed_configs
    → lookup arg.location typed_configs ≡ some config_value
    → config_value ≡ value

module _ (t : Texts) where
  pub validate_value-IsOf :
      (type value : String) → validate_value t type value ≡ ok tt → IsOf t type value
  unfolding validate_value
  validate_value-IsOf type value h = elim (Bool-cases (str_eq type "string")) [
    | inl e ↦ inl ((eq_iff type "string").0 e)
    | inr e ↦ inr (number (rw e at h))
  ]
    where
      source :
          (if t.is_uuid_like value
              then t.data_source_exists value
              else raise_if (not (t.has_scheme value)) Error.invalid_data)
            ≡ ok tt
          → type ≡ "data_source"
          → ((type ≡ "data_source")
              × (t.is_uuid_like value ≡ true)
              × (t.data_source_exists value ≡ ok tt))
            ⊎ ((type ≡ "data_source")
                × (t.is_uuid_like value ≡ false)
                × (t.has_scheme value ≡ true))
      source h e = elim (Bool-cases (t.is_uuid_like value)) [
        | inl uuid ↦ inl (e, uuid, rw uuid at h)
        | inr url ↦ inr (
          e,
          url,
          ground
              (arith, raise_if-eq-ok (not (t.has_scheme value)) Error.invalid_data (rw url at h)),
        )
      ]

      number :
          (if str_eq type "number"
              then raise_if (not (t.isnumeric value)) Error.invalid_data
              else if str_eq type "data_source"
              then (if t.is_uuid_like value
                  then t.data_source_exists value
                  else raise_if (not (t.has_scheme value)) Error.invalid_data)
              else err Error.key_error)
            ≡ ok tt
          → ((type ≡ "number") × (t.isnumeric value ≡ true))
            ⊎ ((type ≡ "data_source")
                × (t.is_uuid_like value ≡ true)
                × (t.data_source_exists value ≡ ok tt))
            ⊎ ((type ≡ "data_source")
                × (t.is_uuid_like value ≡ false)
                × (t.has_scheme value ≡ true))
      number h = elim (Bool-cases (str_eq type "number")) [
        | inl e ↦ inl (
          (eq_iff type "number").0 e,
          ground (arith, raise_if-eq-ok (not (t.isnumeric value)) Error.invalid_data (rw e at h)),
        )
        | inr e ↦ inr (elim (Bool-cases (str_eq type "data_source")) [
          | inl d ↦ source (rw (e, d) at h) ((eq_iff type "data_source").0 d)
          | inr d ↦ absurd (cc (rw (e, d) at h))
        ])
      ]

  find_argument-none :
      (name : String) (args : List Argument)
      → find_argument t name args ≡ none
      → any (λ (a : Argument). str_eq a.name name) args ≡ false
  find_argument-none name [] h = refl
  find_argument-none name (a ∷ args) h =
      go (find_argument t name args) (λ e. find_argument-none name args e) refl h
    where
      go :
          (o : Option Argument)
          → (find_argument t name args ≡ none
              → any (λ (a : Argument). str_eq a.name name) args ≡ false)
          → find_argument t name args ≡ o
          → (elim o [
            | none ↦ if str_eq a.name name then some a else none
            | some later ↦ some later
          ])
            ≡ none
          → any (λ (a : Argument). str_eq a.name name) (a ∷ args) ≡ false
      go none ih e h = ground (arith, h, ih e)
      go (some later) ih e h = absurd (cc h)

  pub find_argument-IsLast :
      (name : String) (args : List Argument) {arg : Argument}
      → find_argument t name args ≡ some arg
      → IsLast name args arg
  find_argument-IsLast name [] h = absurd (cc h)
  find_argument-IsLast name (a ∷ args) {arg} h =
      go (find_argument t name args) (λ e. find_argument-IsLast name args e) refl h
    where
      go :
          (o : Option Argument)
          → (find_argument t name args ≡ some arg → IsLast name args arg)
          → find_argument t name args ≡ o
          → (elim o [
            | none ↦ if str_eq a.name name then some a else none
            | some later ↦ some later
          ])
            ≡ some arg
          → IsLast name (a ∷ args) arg
      go none ih e h = elim (Bool-cases (str_eq a.name name)) [
        | inl same ↦
            let this : a ≡ arg = cc (rw same at h) in
            (
              [],
              args,
              ap (λ x. x ∷ args) this,
              sym (ap (λ (x : Argument). x.name) this) ∙ (eq_iff a.name name).0 same,
              find_argument-none name args e,
            )
        | inr other ↦ absurd (cc (rw other at h))
      ]
      go (some later) ih e h =
          let (before, after, split, named, last) = ih (e ∙ h) in
          (a ∷ before, after, ap (λ l. a ∷ l) split, named, last)
