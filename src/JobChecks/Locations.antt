-- ===== src/JobChecks/Locations.antt =====
-- Positional arguments of a job that passes the checks take up an unbroken sequence of locations.
use mathlib.Core.Path.{subst}
use sahara.Base.{
  ltb, ℕ, zero, suc, ◌≤◌, ◌<◌, ◌≡◌, refl, sym, ap, ◌∙◌, inl, inr, true, not, List, [], ◌∷◌, map, ok,
  Error, raise_if, raise_if-eq-ok, >>=-eq-ok, if◌then◌else◌, ◌==◌, length, has, arith, Bool-cases,
  mem, any, all, distinct,
}
use sahara.JobChecks.{
  JobType, acceptable_types, Argument, Texts, set, all_below, positional_args, locations_of,
  check_locations, check_arguments,
}

abbrev remove : ℕ → List ℕ → List ℕ
remove j [] = []
remove j (x ∷ xs) = if x == j then xs else x ∷ remove j xs

length-remove : (j : ℕ) (xs : List ℕ) → has j xs ≡ true → suc (length (remove j xs)) ≡ length xs
length-remove j [] h = absurd (cc h)
length-remove j (x ∷ xs) h = ground (arith, length-remove j xs)

has-remove : (i j : ℕ) (xs : List ℕ) → (i ≡ j → ⊥) → has i (remove j xs) ≡ has i xs
has-remove i j [] other = refl
has-remove i j (x ∷ xs) other = ground (arith, has-remove i j xs other)

-- A list with all numbers below n has n elements at least.
below_length : (n : ℕ) (xs : List ℕ) → ((i : ℕ) → i < n → has i xs ≡ true) → n ≤ length xs
below_length zero xs h = omega arith
below_length (suc n) xs h = omega (
  arith,
  length-remove n xs (h n (omega arith)),
  below_length n (remove n xs)
      (λ i below. has-remove i n xs (λ e. omega (arith, below, e)) ∙ h i (omega (arith, below))),
)

-- With n elements it has no others.
nothing_above :
    (n j : ℕ) (xs : List ℕ)
    → ((i : ℕ) → i < n → has i xs ≡ true)
    → length xs ≡ n
    → has j xs ≡ true
    → j < n
nothing_above n j xs h size there = elim (Bool-cases (ltb j n)) [
  | inl below ↦ ground (arith, below)
  | inr above ↦ absurd (
      omega (
        arith,
        size,
        length-remove j xs there,
        below_length n (remove j xs)
            (λ i below. has-remove i j xs (λ e. ground (arith, above, below, e)) ∙ h i below),
      ))
]

has-set : (j : ℕ) (xs : List ℕ) → has j (set xs) ≡ has j xs
has-set j [] = refl
has-set j (x ∷ xs) = ground (arith, has-set j xs, λ (e : x ≡ j). ap (λ k. has k xs) e)

equal : (n i : ℕ) → (i == n) ≡ true → n ≡ i
equal n i e = ground (arith, e)

all_below_lem : (n : ℕ) (xs : List ℕ) → all_below n xs ≡ true → (i : ℕ) → i < n → has i xs ≡ true
all_below_lem zero xs h i below = absurd (omega (arith, below))
all_below_lem (suc n) xs h i below = elim (Bool-cases (i == n)) [
  | inl last ↦ subst (λ k. has k xs ≡ true) (equal n i last) (ground (arith, h))
  | inr before ↦ all_below_lem n xs (ground (arith, h)) i (ground (arith, before, below))
]

-- Where a job's interface passes, its positional arguments have numbers as locations, and for some
-- n those are exactly the numbers below n.
pub check_arguments-locations :
    (t : Texts) (job_type : JobType) (interface : List Argument) {checked : List Argument}
    → check_arguments t job_type interface ≡ ok checked
    → (locations : List ℕ) × (locations_of t (positional_args interface) ≡ ok locations)
      × ((n : ℕ) × ((i : ℕ) → (has i locations ≡ true → i < n) × (i < n → has i locations ≡ true)))
unfolding check_arguments
check_arguments-locations t job_type interface h =
    let (_, _, r1) =
      >>=-eq-ok
        (raise_if (not (distinct (map (λ (arg : Argument). arg.name) interface)))
          Error.invalid_data)
        _ h in
    let (_, _, r2) =
      >>=-eq-ok
        (raise_if (any (λ arg. not (mem arg.mapping_type (acceptable_types job_type))) interface)
          Error.invalid_data)
        _ r1 in
    let (_, _, r3) =
      >>=-eq-ok
        (raise_if (not (all (λ arg. t.isnumeric arg.location) (positional_args interface)))
          Error.invalid_data)
        _ r2 in
    let (locations, e, r4) = >>=-eq-ok (locations_of t (positional_args interface)) _ r3 in
    let (_, passed, r5) = >>=-eq-ok (check_locations t locations) _ r4 in
    (locations, e, (length (set locations), unbroken locations passed))
  where
    unbroken :
        (locations : List ℕ)
        → raise_if (not (all_below (length (set locations)) (set locations))) Error.invalid_data
          ≡ ok tt
        → (i : ℕ)
        → (has i locations ≡ true → i < length (set locations))
          × (i < length (set locations) → has i locations ≡ true)
    unbroken locations passed i =
        let every = all_below_lem (length (set locations)) (set locations) (
          ground (
            arith,
            raise_if-eq-ok (not (all_below (length (set locations)) (set locations)))
                Error.invalid_data passed,
          )) in
        (
          (λ there.
              nothing_above (length (set locations)) i (set locations) every refl
                (has-set i locations ∙ there)),
          λ below. sym (has-set i locations) ∙ every i below,
        )
