-- ===== src/Retry/Bounds.antt =====
-- How often a call is repeated, and what its last call decides.
use sahara.Base.{
  ℕ, zero, suc, ◌+◌, ◌≤◌, ◌<◌, ◌≡◌, refl, ◌⊎◌, inl, inr, Bool, true, false, Option, some, Result,
  ok, err, Error, arith, Bool-cases, ltb,
}
use sahara.Retry.{
  Outcome, returned, raised, is_retryable, attempt_from, execute_with_retries, Status, Strategy,
  checked, poll_from, poll,
}

-- The call failed with a code that is tried again.
abbrev pub Retries : {A : Type 0} → Outcome A → Type 0
Retries (returned a) = ⊥
Retries (raised code e) = is_retryable code ≡ true

-- The last call's outcome is handed over: its value, or its permanent error.
abbrev pub Decides : {A : Type 0} → Outcome A → Result A → Type 0
Decides (returned a) r = r ≡ ok a
Decides (raised code e) r = (is_retryable code ≡ false) × (r ≡ err e)

module _ {A : Type 0} (method : ℕ → Outcome A) where
  -- The calls numbered from `start` up to `stop` all fail and are tried again.
  abbrev pub AllRetry : ℕ → ℕ → Type 0
  AllRetry start stop = (i : ℕ) → start ≤ i → i < stop → Retries (method i)

  -- Every attempt was used up, or the last of `stop` calls decided.
  abbrev pub Ends : ℕ → ℕ → Result A × ℕ → Type 0
  Ends start attempts (r, stop) =
      ((stop ≡ start + attempts) × (r ≡ err Error.max_retries_exceeded) × AllRetry start stop)
      ⊎ ((last : ℕ) × (stop ≡ suc last)
          × (start ≤ last)
          × (last < start + attempts)
          × AllRetry start last
          × Decides (method last) r)

  AllRetry-nil : (start : ℕ) → AllRetry start start
  AllRetry-nil start i low high = absurd (omega arith)

  AllRetry-cons :
      (start stop : ℕ) → Retries (method start) → AllRetry (suc start) stop → AllRetry start stop
  AllRetry-cons start stop h rest i low high = elim (Bool-cases (ltb start i)) [
    | inl above ↦ rest i (ground arith) high
    | inr not_above ↦ let e : i ≡ start = ground arith in rw e h
  ]

  Ends-step :
      (start attempts : ℕ) (r : Result A) (stop : ℕ)
      → Retries (method start)
      → Ends (suc start) attempts (r, stop)
      → Ends start (suc attempts) (r, stop)
  Ends-step start attempts r stop h (inl (e, used, rest)) =
      inl (omega arith, used, AllRetry-cons start stop h rest)
  Ends-step start attempts r stop h (inr (last, e, low, high, rest, d)) =
      inr (last, e, omega arith, omega arith, AllRetry-cons start last h rest, d)

  attempt_from-Ends :
      (attempts start : ℕ) → Ends start attempts (attempt_from method attempts start)
  unfolding attempt_from
  attempt_from-Ends zero start = inl (omega arith, refl, λ i low high. absurd (omega arith))
  attempt_from-Ends (suc attempts) start =
      go (method start) refl (attempt_from-Ends attempts (suc start))
    where
      go :
          (o : Outcome A)
          → method start ≡ o
          → Ends (suc start) attempts (attempt_from method attempts (suc start))
          → Ends start (suc attempts) (attempt_from method (suc attempts) start)
      go (returned a) e rest =
          rw (e, attempt_from)
            (inr (start, refl, omega arith, omega arith, AllRetry-nil start, rw e refl))
      go (raised code er) e rest = elim (Bool-cases (is_retryable code)) [
        | inl again ↦ rw (e, attempt_from, again) (Ends-step start attempts _ _ (rw e again) rest)
        | inr permanent ↦
            rw (e, attempt_from, permanent)
              (inr
                (start, refl, omega arith, omega arith, AllRetry-nil start, rw e (permanent, refl)))
      ]

-- At most `retries_number + 1` calls are made. Either each of them failed with a code that is tried
-- again, and MaxRetriesExceeded is raised, or all calls but the last did so and the last one's
-- value or permanent error is the result.
pub execute_with_retries-Ends :
    {A : Type 0} (method : ℕ → Outcome A) (retries_number : ℕ)
    → Ends method 0 (retries_number + 1) (execute_with_retries method retries_number)
unfolding execute_with_retries
execute_with_retries-Ends method retries_number = attempt_from-Ends method (retries_number + 1) 0

module _ (strategy : Strategy) (get_status : ℕ → Status) (consumed : ℕ → ℕ) (limit : ℕ) where
  -- The round says no, and time is left for another.
  abbrev pub GoesOn : ℕ → Type 0
  GoesOn i = (checked strategy (get_status i) ≡ ok false) × (consumed (suc i) < limit)

  -- What the last round decides.
  abbrev pub Stops : ℕ → Result (Unit {0}) → Type 0
  Stops last r =
      ((checked strategy (get_status last) ≡ ok true) × (r ≡ ok tt))
      ⊎ ((e : Error) × (checked strategy (get_status last) ≡ err e) × (r ≡ err e))
      ⊎ ((checked strategy (get_status last) ≡ ok false)
          × (limit ≤ consumed (suc last))
          × (r ≡ err Error.timeout))

  abbrev pub PollEnds : ℕ → Option (Result (Unit {0})) → Type 0
  PollEnds start p =
      (r : Result (Unit {0})) × (last : ℕ) × (p ≡ some r)
      × (start ≤ last)
      × ((i : ℕ) → start ≤ i → i < last → GoesOn i)
      × Stops last r

  GoesOn-cons :
      (start last : ℕ)
      → GoesOn start
      → ((i : ℕ) → suc start ≤ i → i < last → GoesOn i)
      → (i : ℕ) → start ≤ i
      → i < last
      → GoesOn i
  GoesOn-cons start last h rest i low high = elim (Bool-cases (ltb start i)) [
    | inl above ↦ rest i (ground arith) high
    | inr not_above ↦ let e : i ≡ start = ground arith in rw e h
  ]

  poll_from-PollEnds :
      ((n : ℕ) → n ≤ consumed n)
      → (fuel start : ℕ) → 0 < fuel
      → limit < start + fuel
      → PollEnds start (poll_from strategy get_status consumed limit fuel start)
  unfolding poll_from
  poll_from-PollEnds runs zero start p h = elim p [ ]
  poll_from-PollEnds runs (suc fuel) start p h =
      go (checked strategy (get_status start)) refl (poll_from-PollEnds runs fuel (suc start))
    where
      none_before : (i : ℕ) → start ≤ i → i < start → GoesOn i
      none_before i low high = absurd (omega arith)

      go :
          (c : Result Bool)
          → checked strategy (get_status start) ≡ c
          → (0 < fuel
              → limit < suc start + fuel
              → PollEnds
                  (suc start)
                  (poll_from strategy get_status consumed limit fuel (suc start)))
          → PollEnds start (poll_from strategy get_status consumed limit (suc fuel) start)
      go (err e) q later =
          rw (q, poll_from) (err e, start, refl, omega arith, none_before, inr (inl (e, q, refl)))
      go (ok true) q later =
          rw (q, poll_from) (ok tt, start, refl, omega arith, none_before, inl (q, refl))
      go (ok false) q later = elim (Bool-cases (ltb (consumed (suc start)) limit)) [
        | inl time_left ↦
            rw (q, poll_from, time_left)
              (let (r, last, e, low, before, d) =
                  later (ground (arith, runs (suc start))) (omega arith) in
                (r, last, e, omega arith, GoesOn-cons start last (q, ground arith) before, d))
        | inr late ↦
            rw (q, poll_from, late)
              (
                err Error.timeout,
                start,
                refl,
                omega arith,
                none_before,
                inr (inr (q, ground arith, refl)),
              )
      ]

-- Where every round takes a second or more, the polling ends: in a round that says yes or raises,
-- or, with a timeout, in the first round that says no after which the time is up. Every earlier
-- round said no with time left. At least one round is made.
pub poll-PollEnds :
    (strategy : Strategy) (get_status : ℕ → Status) (consumed : ℕ → ℕ) (limit : ℕ)
    → ((n : ℕ) → n ≤ consumed n)
    → PollEnds strategy get_status consumed limit 0 (poll strategy get_status consumed limit)
unfolding poll
poll-PollEnds strategy get_status consumed limit runs =
    poll_from-PollEnds strategy get_status consumed limit runs (suc limit) 0 (omega arith)
      (omega arith)
