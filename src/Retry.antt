-- ===== src/Retry.antt =====
-- Calls that are repeated: `execute_with_retries` (sahara/utils/openstack/base.py) and `poll`
-- (sahara/utils/poll_utils.py). What the called function does on its n-th call is a parameter.
pub mod Bounds
mod Tests
use sahara.Base.{
  ℕ, zero, suc, ◌+◌, Bool, true, false, ◌||◌, Option, none, some, Result, ok, err, Error, ltb, ◌==◌,
  if◌then◌else◌, List, [], ◌∷◌,
}

-- What one call of the method does. The code is that of the exception's attribute `http_status`,
-- `status_code` or `code`, the first that is there and not falsy.
pub data Outcome (A : Type 0) : Type 0 where
  returned : A → Outcome A
  raised : Option ℕ → Error → Outcome A

abbrev errors_to_retry : List ℕ
errors_to_retry = 408 ∷ 413 ∷ 429 ∷ 500 ∷ 502 ∷ 503 ∷ 504 ∷ []

abbrev listed : ℕ → List ℕ → Bool
listed c [] = false
listed c (x ∷ xs) = c == x || listed c xs

pub is_retryable : Option ℕ → Bool
is_retryable none = false
is_retryable (some c) = listed c errors_to_retry

module _ {A : Type 0} (method : ℕ → Outcome A) where
  -- The `while attempts > 0` loop; `calls` counts the calls made so far.
  pub attempt_from : ℕ → ℕ → Result A × ℕ
  attempt_from zero calls = (err Error.max_retries_exceeded, calls)
  attempt_from (suc attempts) calls = elim (method calls) [
    | returned a ↦ (ok a, suc calls)
    | raised code e ↦
        let again = attempt_from attempts (suc calls) in
        if is_retryable code then again else (err e, suc calls)
  ]

  -- The result, and the number of calls made.
  pub execute_with_retries : ℕ → Result A × ℕ
  unfolding attempt_from
  execute_with_retries retries_number = attempt_from (retries_number + 1) 0

-- What `get_status` does in one round.
pub data Status : Type 0 where
  answers : Bool → Status
  raises : Error → Status

pub data Strategy : Type 0 where
  raise mark_as_true mark_as_false : Strategy

-- The `try` of a round.
pub checked : Strategy → Status → Result Bool
checked s (answers b) = ok b
checked raise (raises e) = err e
checked mark_as_true (raises e) = ok true
checked mark_as_false (raises e) = ok false

-- `consumed n` is the number of seconds gone at the loop's test after n rounds. `none` means that
-- the fuel ran out.
module _ (strategy : Strategy) (get_status : ℕ → Status) (consumed : ℕ → ℕ) (limit : ℕ) where
  pub poll_from : ℕ → ℕ → Option (Result (Unit {0}))
  poll_from zero n = none
  poll_from (suc fuel) n = elim (checked strategy (get_status n)) [
    | err e ↦ some (err e)
    | ok true ↦ some (ok tt)
    | ok false ↦
        let rest = poll_from fuel (suc n) in
        if ltb (consumed (suc n)) limit then rest else some (err Error.timeout)
  ]

  -- The first round is made whatever the time. The fuel allows one round a second.
  pub poll : Option (Result (Unit {0}))
  unfolding poll_from checked
  poll = poll_from (suc limit) 0
