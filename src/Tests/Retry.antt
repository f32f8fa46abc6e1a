-- ===== src/Tests/Retry.antt =====
-- Runs of src/reliability/retry.ts and src/reliability/timeout.ts.
use mcp_conductor.Base.{
  ℕ, ◌+◌, ◌≤◌, ◌<◌, ◌≡◌, refl, true, false, some, [], ◌∷◌, Text, codes, arith, length, get_elem?,
  ◌==◌, if◌then◌else◌, any, includes, starts_with, lower, none,
}
use mcp_conductor.Reliability.Errors.{
  Outcome, returned, threw, timeout_error, error, is_retryable, is_timeout, retry_exhausted_error,
}
use mcp_conductor.Reliability.Timeout.{
  Timed, TimeoutOptions, settles, timer_delay, with_timeout_simple, hangs, Behavior,
}
use mcp_conductor.Reliability.Timeout.Deadline.{with_timeout_early, with_timeout_late}
use mcp_conductor.Reliability.Retry.{RetryOptions, exhausted, with_retry}
use mcp_conductor.Reliability.Retry.Attempts.{
  MayRetry, Ends, with_retry-Ends, with_retry-MayRetry, with_retry-not-timeout,
}
use mcp_conductor.Reliability.Retry.Backoff.{backoff, with_retry-attempts, with_retry-backoff}

abbrev server : Text
server = codes "db"

abbrev tool : Text
tool = codes "query"

abbrev options : RetryOptions
options = record {
  retries = 2;
  retry_delay_ms = 100;
  retry_max_delay_ms = 150;
  server = server;
  tool = tool;
}

-- Two timeouts, and then a connection that is reset.
abbrev attempt : ℕ → Timed ℕ
attempt k =
    if k == 3
    then record {
      outcome = threw (error (codes "read ECONNRESET") none);
      elapsed = 5;
      aborted = true;
    }
    else record { outcome = threw (timeout_error server tool 200 k); elapsed = 200; aborted = true }

reset_is_retryable : is_retryable (error (codes "read ECONNRESET") none) ≡ true
unfolding is_retryable any includes starts_with lower
reset_is_retryable = refl

run_sleeps : (with_retry attempt options).sleeps ≡ 100 ∷ 150 ∷ []
unfolding with_retry is_retryable any includes starts_with lower
run_sleeps = refl

run_elapsed : (with_retry attempt options).elapsed ≡ 655
unfolding with_retry is_retryable any includes starts_with lower timer_delay
run_elapsed = refl

run_outcome :
    (with_retry attempt options).outcome
    ≡ threw (retry_exhausted_error server tool 3 (error (codes "read ECONNRESET") none))
unfolding exhausted with_retry is_retryable any includes starts_with lower
run_outcome = refl

run_attempts : (with_retry attempt options).attempts ≡ 3
unfolding with_retry is_retryable any includes starts_with lower
run_attempts = refl

with_retry-Ends_example :
    let r = with_retry attempt options in
    Ends options r.attempts (attempt r.attempts).outcome r.outcome
with_retry-Ends_example = with_retry-Ends attempt options

with_retry-MayRetry_example : MayRetry (attempt 2).outcome
with_retry-MayRetry_example =
    with_retry-MayRetry attempt options 2 (omega arith) (omega (arith, run_attempts))

with_retry-not-timeout_example :
    is_timeout (retry_exhausted_error server tool 3 (error (codes "read ECONNRESET") none)) ≡ false
with_retry-not-timeout_example = with_retry-not-timeout attempt options run_outcome

two_sleeps : length (with_retry attempt options).sleeps ≡ 2
two_sleeps = rw run_sleeps

with_retry-backoff_example :
    get_elem? (with_retry attempt options).sleeps 1 ≡ some (backoff options 1)
with_retry-backoff_example = with_retry-backoff attempt options 1 (omega (arith, two_sleeps))

with_retry-attempts_example :
    ((with_retry attempt options).attempts ≡ length (with_retry attempt options).sleeps + 1)
    × ((with_retry attempt options).attempts ≤ 2 + 1)
with_retry-attempts_example = with_retry-attempts attempt options

abbrev sample_answer : Outcome ℕ
sample_answer = returned 7

-- The first sleep is above the cap where the initial delay is.
uncapped : (with_retry attempt (record options { retry_delay_ms = 900 })).sleeps ≡ 900 ∷ 150 ∷ []
unfolding with_retry is_retryable any includes starts_with lower
uncapped = refl

abbrev deadline : TimeoutOptions
deadline = record { timeout_ms = 200; server = server; tool = tool; attempt = 1 }

within : 30 < timer_delay 200
unfolding timer_delay
within = omega arith

with_timeout_early_example :
    with_timeout_simple (settles 30 sample_answer) deadline
    ≡ record { outcome = sample_answer; elapsed = 30; aborted = true }
with_timeout_early_example = with_timeout_early 30 sample_answer deadline within

abbrev silent : Behavior ℕ
silent = hangs

with_timeout_late_example : with_timeout_simple silent deadline ≡ record {
  outcome = threw (timeout_error server tool 200 1);
  elapsed = timer_delay 200;
  aborted = true;
}
with_timeout_late_example = with_timeout_late silent deadline tt
