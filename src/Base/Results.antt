-- ===== src/Base/Results.antt =====
-- The exceptions of sahara/exceptions.py that the model raises, with those of Python itself, and
-- results of calls that raise. An exception is its class; the message text is left out.
use mathlib.Core.Path.{◌≡◌, refl}
use mathlib.Core.Logic.{◌⊎◌, inl, inr}
use mathlib.Core.Bool.{Bool, true, false}

pub data Error : Type 0 where
  not_found name_already_exists invalid_credentials invalid_reference invalid_data : Error
  canceling_failed suspending_failed invalid_job_status deletion_failed : Error
  missing_floating_network edp_error timeout quota_error update_failed max_retries_exceeded : Error
  invalid_job_execution_info cannot_verify : Error
  -- sahara/plugins/exceptions.py
  invalid_component_count required_service_missing : Error
  node_group_cannot_be_scaled cluster_cannot_be_scaled : Error
  attribute_error key_error type_error index_error value_error runtime_error : Error
  -- any exception of code outside the model
  external : Error

-- What a call comes to: its value, or the exception that left it.
pub data Result {ℓ} (V : Type ℓ) : Type ℓ where
  ok : V → Result V
  err : Error → Result V

-- A check: it raises or it passes.
abbrev pub Check : Type 0
Check = Result (Unit {0})

module _ {ℓ κ} {V : Type ℓ} {W : Type κ} where
  -- The rest of a call is skipped after a raise.
  infixl 5 ◌>>=◌
  abbrev pub ◌>>=◌ : Result V → (V → Result W) → Result W
  err e >>= rest = err e
  ok v >>= rest = rest v

module _ {κ} {W : Type κ} where
  infixl 5 ◌>>◌
  abbrev pub ◌>>◌ : Check → Result W → Result W
  check >> rest = check >>= λ (passed : Unit {0}). rest

-- `if c: raise e`
abbrev pub raise_if : Bool → Error → Check
raise_if true e = err e
raise_if false e = ok tt

pub Result-cases {ℓ} :
    {A : Type ℓ} (r : Result A) → ((a : A) × (r ≡ ok a)) ⊎ ((e : Error) × (r ≡ err e))
Result-cases (ok a) = inl (a, refl)
Result-cases (err e) = inr (e, refl)

module _ {ℓ κ} {V : Type ℓ} {W : Type κ} where
  -- Where both parts together return, the first part returned a value and the rest returned on it.
  pub >>=-eq-ok :
      (first : Result V) (rest : V → Result W) {w : W}
      → (first >>= rest) ≡ ok w
      → (v : V) × (first ≡ ok v) × (rest v ≡ ok w)
  >>=-eq-ok (err e) rest returned = cc
  >>=-eq-ok (ok v) rest returned = (v, refl, returned)

-- The check passes exactly when its test is false.
pub raise_if-eq-ok : (c : Bool) (e : Error) → raise_if c e ≡ ok tt → c ≡ false
raise_if-eq-ok true e h = cc
raise_if-eq-ok false e h = refl

pub ok-injective {ℓ} : {A : Type ℓ} {a b : A} → ok a ≡ ok b → a ≡ b
ok-injective e = cc

-- Two checks in a row pass exactly when both do.
pub >>-eq-ok : (check rest : Check) → (check >> rest) ≡ ok tt → (check ≡ ok tt) × (rest ≡ ok tt)
>>-eq-ok (err e) rest h = absurd (cc h)
>>-eq-ok (ok tt) rest h = (refl, h)

pub >>-ok : {check rest : Check} → check ≡ ok tt → rest ≡ ok tt → (check >> rest) ≡ ok tt
>>-ok {check} {rest} h k = rw (h, k)

pub raise_if-ok : (c : Bool) (e : Error) → c ≡ false → raise_if c e ≡ ok tt
raise_if-ok c e h = rw h
