-- ===== src/Validation/Digits.antt =====
-- The number of digits that a count adds to a host name.
use sahara.Base.{ℕ, zero, suc, ◌/◌, ◌^◌, ◌≤◌, ◌<◌, inl, inr, Bool-cases, arith, ltb}
use native.Mathlib.Omega.{pow_step}
use sahara.Validation.{num_digits}

step : (n d : ℕ) → 10 ≤ n → n / 10 < 10 ^ d → n < 10 ^ suc d
step n d h below = rw (pow_step 10 d) (omega arith)

-- With as many rounds as the number, the number has no more digits than are counted.
pub num_digits-enough : (fuel n : ℕ) → n ≤ fuel → n < 10 ^ num_digits fuel n
unfolding num_digits
num_digits-enough zero n h = omega arith
num_digits-enough (suc fuel) n h = elim (Bool-cases (ltb n 10)) [
  | inl small ↦ rw small (ground arith)
  | inr large ↦ rw large (
      step n (num_digits fuel (n / 10)) (ground arith)
        (num_digits-enough fuel (n / 10) (ground arith)))
]
