-- ===== src/Reliability/Timeout.antt =====
-- src/reliability/timeout.ts. An asynchronous function is given by what it does once called: it
-- settles after some milliseconds, or never. Time is counted from the call.
pub mod Deadline
use mcp_conductor.Base.{ℕ, ◌&&◌, Bool, true, Text, ltb, leb, if◌then◌else◌}
use mcp_conductor.Reliability.Errors.{Outcome, returned, threw, timeout_error}

pub data Behavior {ℓ} (A : Type ℓ) : Type ℓ where
  settles : ℕ → Outcome A → Behavior A
  hangs : Behavior A

pub record TimeoutOptions : Type 0 where
  pub timeout_ms : ℕ
  pub server : Text
  pub tool : Text
  pub attempt : ℕ

-- How the promise ended, when, and whether the signal is aborted once it has.
pub record Timed {ℓ} (A : Type ℓ) : Type ℓ where
  pub outcome : Outcome A
  pub elapsed : ℕ
  pub aborted : Bool

-- The delay that Node's `setTimeout` keeps: one that is below 1 or does not fit in 31 bits counts
-- as 1.
unfoldable pub timer_delay : ℕ → ℕ
timer_delay ms = if leb 1 ms && leb ms 2147483647 then ms else 1

-- `Promise.race`: the timer is set before the function runs, so it wins a tie. Either way the
-- signal ends aborted, by the timer or by the `finally` block.
unfoldable pub with_timeout {ℓ} : {A : Type ℓ} → Behavior A → TimeoutOptions → Timed A
unfolding timer_delay
with_timeout (settles d r) o =
    if ltb d (timer_delay o.timeout_ms)
    then record { outcome = r; elapsed = d; aborted = true }
    else record {
      outcome = threw (timeout_error o.server o.tool o.timeout_ms o.attempt);
      elapsed = timer_delay o.timeout_ms;
      aborted = true;
    }
with_timeout hangs o = record {
  outcome = threw (timeout_error o.server o.tool o.timeout_ms o.attempt);
  elapsed = timer_delay o.timeout_ms;
  aborted = true;
}

-- The overload without a signal calls the other.
unfoldable pub with_timeout_simple {ℓ} : {A : Type ℓ} → Behavior A → TimeoutOptions → Timed A
unfolding with_timeout
with_timeout_simple b o = with_timeout b o
