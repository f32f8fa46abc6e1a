-- ===== src/Reliability/Timeout/Deadline.antt =====
-- The deadline of src/reliability/timeout.ts.
use mcp_conductor.Base.{ℕ, ◌≤◌, ◌<◌, ◌≡◌, true, arith}
use mcp_conductor.Reliability.Errors.{Outcome, threw, timeout_error}
use mcp_conductor.Reliability.Timeout.{
  Behavior, settles, hangs, TimeoutOptions, timer_delay, with_timeout_simple,
}

-- A function has not settled before the deadline.
abbrev pub IsLate {ℓ} : {A : Type ℓ} → Behavior A → ℕ → Type 0
IsLate (settles d r) deadline = deadline ≤ d
IsLate hangs deadline = Unit {0}

-- The promise settles within the deadline, whatever the function does, also if it hangs.
pub elapsed-le {ℓ} :
    {A : Type ℓ} (b : Behavior A) (o : TimeoutOptions)
    → (with_timeout_simple b o).elapsed ≤ timer_delay o.timeout_ms
unfolding with_timeout_simple
elapsed-le (settles d r) o = ground arith
elapsed-le hangs o = ground arith

-- A function that settles before the deadline has its outcome passed on, at the time it settles.
pub with_timeout_early {ℓ} :
    {A : Type ℓ} (d : ℕ) (r : Outcome A) (o : TimeoutOptions)
    → d < timer_delay o.timeout_ms
    → with_timeout_simple (settles d r) o ≡ record { outcome = r; elapsed = d; aborted = true }
unfolding with_timeout_simple
with_timeout_early d r o h = ground arith

-- A function that does not settle before its deadline is cut off there with a `TimeoutError` that
-- names the call, and its signal is aborted.
pub with_timeout_late {ℓ} :
    {A : Type ℓ} (b : Behavior A) (o : TimeoutOptions)
    → IsLate b (timer_delay o.timeout_ms)
    → with_timeout_simple b o ≡ record {
      outcome = threw (timeout_error o.server o.tool o.timeout_ms o.attempt);
      elapsed = timer_delay o.timeout_ms;
      aborted = true;
    }
unfolding with_timeout_simple
with_timeout_late (settles d r) o h = ground arith
with_timeout_late hangs o h = ground arith
