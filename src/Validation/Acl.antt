-- ===== src/Validation/Acl.antt =====
-- Tenants and protected objects (sahara/service/validations/acl.py).
use sahara.Base.{
  ◌≡◌, refl, ap, ◌∙◌, ◌↔◌, ◌⊎◌, inl, inr, Bool, true, false, not, ◌&&◌, ◌||◌, none, some, String,
  [], ◌∷◌, ok, err, Error, Check, raise_if, if◌then◌else◌, str_eq, all, arith, All, Option,
  Bool-cases, eq_iff,
}
use sahara.Base.Dict.{Dict, lookup, contains}

-- The four tests of an update: the protection, its lifting, and the two conditions on the fields.
abbrev gate : Bool → Bool → Bool → Bool → Check
gate b stays named same =
    if b && stays then if named && same then ok tt else err Error.update_failed else ok tt

passes_iff :
    (b stays named same : Bool)
    → (gate b stays named same ≡ ok tt)
      ↔ ((b ≡ false) ⊎ (stays ≡ false) ⊎ ((named ≡ true) × (same ≡ true)))
passes_iff false stays named same = (λ h. inl refl, λ h. refl)
passes_iff true false named same = (λ h. inr (inl refl), λ h. refl)
passes_iff true true true true = (λ h. inr (inr (refl, refl)), λ h. refl)
passes_iff true true true false = (λ h. absurd (cc h), λ h. ground arith)
passes_iff true true false same = (λ h. absurd (cc h), λ h. ground arith)

-- The values of a request: `same` is Python's `==` on them, `holds` their truth value.
module _ {V : Type 0} (same : V → V → Bool) (holds : V → Bool) where
  -- `data.get('is_protected', True)`
  abbrev pub stays_protected : Dict V → Bool
  stays_protected request = elim (lookup "is_protected" request) [ none ↦ true | some v ↦ holds v ]

  abbrev pub unchanged : Dict V → String × V → Bool
  unchanged obj (k, v) =
      str_eq k "is_public" || elim (lookup k obj) [ none ↦ false | some old ↦ same old v ]

  -- `obj` is the object's dict.
  unfoldable pub check_protected_from_update : Bool → Dict V → Dict V → Check
  check_protected_from_update is_protected obj request =
      if is_protected && stays_protected request
      then if contains "is_public" request && all (unchanged obj) request
        then ok tt
        else err Error.update_failed
      else ok tt

  -- The request has a value of is_protected that is not true.
  abbrev pub Lifts : Dict V → Type 0
  Lifts request = (v : V) × (lookup "is_protected" request ≡ some v) × (holds v ≡ false)

  -- A field of the request that is is_public, or one of the object with the same value.
  abbrev pub Stays : Dict V → String × V → Type 0
  Stays obj (k, v) =
      (k ≡ "is_public") ⊎ ((old : V) × (lookup k obj ≡ some old) × (same old v ≡ true))

  stays_protected-Lifts : (request : Dict V) → (stays_protected request ≡ false) ↔ Lifts request
  stays_protected-Lifts request =
      (λ h. forth (lookup "is_protected" request) refl h, λ (v, e, f). ap protects e ∙ f)
    where
      protects : Option V → Bool
      protects o = elim o [ none ↦ true | some v ↦ holds v ]

      forth :
          (o : Option V)
          → lookup "is_protected" request ≡ o
          → (elim o [ none ↦ true | some v ↦ holds v ]) ≡ false
          → Lifts request
      forth none e h = absurd (cc h)
      forth (some v) e h = (v, e, h)

  unchanged-Stays :
      (obj : Dict V) (k : String) (v : V) → unchanged obj (k, v) ≡ true → Stays obj (k, v)
  unchanged-Stays obj k v h = elim (Bool-cases (str_eq k "is_public")) [
    | inl e ↦ inl ((eq_iff k "is_public").0 e)
    | inr e ↦ inr (found (lookup k obj) refl (rw e at h))
  ]
    where
      found :
          (o : Option V)
          → lookup k obj ≡ o
          → (elim o [ none ↦ false | some old ↦ same old v ]) ≡ true
          → (old : V) × (lookup k obj ≡ some old) × (same old v ≡ true)
      found none e h = absurd (cc h)
      found (some old) e h = (old, e, h)

  Stays-unchanged :
      (obj : Dict V) (k : String) (v : V) → Stays obj (k, v) → unchanged obj (k, v) ≡ true
  Stays-unchanged obj k v (inl e) = rw ((eq_iff k "is_public").1 e) refl
  Stays-unchanged obj k v (inr (old, e, h)) = elim (Bool-cases (str_eq k "is_public")) [
    | inl public ↦ rw public refl
    | inr other ↦ rw (other, e) h
  ]

  all-Stays : (obj request : Dict V) → all (unchanged obj) request ≡ true → All (Stays obj) request
  all-Stays obj [] h = tt
  all-Stays obj ((k, v) ∷ ps) h =
      (unchanged-Stays obj k v (ground (arith, h)), all-Stays obj ps (ground (arith, h)))

  Stays-all : (obj request : Dict V) → All (Stays obj) request → all (unchanged obj) request ≡ true
  Stays-all obj [] h = refl
  Stays-all obj ((k, v) ∷ ps) (h, hs) = rw (Stays-unchanged obj k v h, Stays-all obj ps hs)

  -- An object is updated exactly if it is not protected, or the request lifts the protection by a
  -- value of is_protected that is not true, or the request names is_public and every other field
  -- of it is one of the object that keeps its value.
  pub check_protected_from_update_iff :
      (is_protected : Bool) (obj request : Dict V)
      → (check_protected_from_update is_protected obj request ≡ ok tt) ↔ (
          (is_protected ≡ false)
          ⊎ Lifts request
          ⊎ ((contains "is_public" request ≡ true) × All (Stays obj) request))
  unfolding check_protected_from_update
  check_protected_from_update_iff is_protected obj request =
      let (forth, back) =
        passes_iff is_protected (stays_protected request) (contains "is_public" request)
          (all (unchanged obj) request) in
      (λ h. widen (forth h), λ h. back (narrow h))
    where
      widen :
          (is_protected ≡ false)
            ⊎ (stays_protected request ≡ false)
            ⊎ ((contains "is_public" request ≡ true) × (all (unchanged obj) request ≡ true))
          → (is_protected ≡ false)
            ⊎ Lifts request
            ⊎ ((contains "is_public" request ≡ true) × All (Stays obj) request)
      widen (inl e) = inl e
      widen (inr (inl e)) = inr (inl ((stays_protected-Lifts request).0 e))
      widen (inr (inr (named, h))) = inr (inr (named, all-Stays obj request h))

      narrow :
          (is_protected ≡ false)
            ⊎ Lifts request
            ⊎ ((contains "is_public" request ≡ true) × All (Stays obj) request)
          → (is_protected ≡ false)
            ⊎ (stays_protected request ≡ false)
            ⊎ ((contains "is_public" request ≡ true) × (all (unchanged obj) request ≡ true))
      narrow (inl e) = inl e
      narrow (inr (inl e)) = inr (inl ((stays_protected-Lifts request).1 e))
      narrow (inr (inr (named, h))) = inr (inr (named, Stays-all obj request h))

unfoldable pub check_tenant_for_delete : String → String → Check
check_tenant_for_delete tenant_id object_tenant =
    raise_if (not (str_eq object_tenant tenant_id)) Error.deletion_failed

unfoldable pub check_tenant_for_update : String → String → Check
check_tenant_for_update tenant_id object_tenant =
    raise_if (not (str_eq object_tenant tenant_id)) Error.update_failed

unfoldable pub check_protected_from_delete : Bool → Check
check_protected_from_delete is_protected = raise_if is_protected Error.deletion_failed
