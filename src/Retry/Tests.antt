-- ===== src/Retry/Tests.antt =====
-- Concrete calls and polls, and the theorems at them.
use sahara.Base.{ℕ, zero, suc, ◌+◌, ◌≡◌, refl, some, ok, err, Error, arith, ltb}
use sahara.Retry.{
  Outcome, returned, raised, is_retryable, execute_with_retries, Status, answers, Strategy, poll,
}
use sahara.Retry.Bounds.{Ends, execute_with_retries-Ends, PollEnds, poll-PollEnds}

-- Two gateway errors, then an answer.
abbrev flaky : ℕ → Outcome ℕ
flaky zero = raised (some 502) Error.external
flaky (suc zero) = raised (some 503) Error.external
flaky (suc (suc n)) = returned n

abbrev broken : ℕ → Outcome ℕ
broken n = raised (some 404) Error.not_found

flaky_answers : execute_with_retries flaky 5 ≡ (ok 0, 3)
unfolding execute_with_retries is_retryable
flaky_answers = refl

flaky_gives_up : execute_with_retries flaky 1 ≡ (err Error.max_retries_exceeded, 2)
unfolding execute_with_retries is_retryable
flaky_gives_up = refl

broken_raises : execute_with_retries broken 5 ≡ (err Error.not_found, 1)
unfolding execute_with_retries is_retryable
broken_raises = refl

execute_with_retries-Ends_example : Ends flaky 0 6 (execute_with_retries flaky 5)
execute_with_retries-Ends_example = execute_with_retries-Ends flaky 5

-- Ready in the round after the fourth.
abbrev ready : ℕ → Status
ready n = answers (ltb 3 n)

abbrev two_seconds_each : ℕ → ℕ
two_seconds_each n = n + n

poll_in_time : poll Strategy.raise ready two_seconds_each 10 ≡ some (ok tt)
unfolding poll
poll_in_time = refl

poll_too_late : poll Strategy.raise ready two_seconds_each 7 ≡ some (err Error.timeout)
unfolding poll
poll_too_late = refl

poll-PollEnds_example :
    PollEnds Strategy.raise ready two_seconds_each 10 0
      (poll Strategy.raise ready two_seconds_each 10)
poll-PollEnds_example = poll-PollEnds Strategy.raise ready two_seconds_each 10 (λ n. omega arith)
