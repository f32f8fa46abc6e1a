-- ===== src/WorkerPool/Recycle.antt =====
-- src/runtime/pool/recycle.ts. A clock that went back gives an age of 0; the source's negative age
-- is below every limit that is above 0.
pub mod Policy
use mcp_conductor.Base.{
  ℕ, ◌+◌, ◌-◌, Bool, true, false, not, Option, none, some, Text, leb, or_default, if◌then◌else◌,
}

pub data WorkerState : Type 0 where
  starting idle busy recycling dead : WorkerState

-- `RecycleCandidate`
pub record RecycleCandidate : Type 0 where
  pub id : Text
  pub state : WorkerState
  pub created_at : ℕ
  pub jobs_run : ℕ

-- The two options of the pool that are read here.
pub record RecycleOptions : Type 0 where
  pub max_jobs_per_worker : Option ℕ
  pub max_age_ms : Option ℕ

pub data Reason : Type 0 where
  error age job_count : Reason

-- `RecycleDecision`: with a reason exactly where the worker should be recycled.
abbrev pub RecycleDecision : Type 0
RecycleDecision = Option Reason

-- `evaluateRecycle` past the test of the state.
unfoldable pub evaluate_limits : (now created_at jobs_run max_age max_jobs : ℕ) → RecycleDecision
evaluate_limits now created_at jobs_run max_age max_jobs =
    if leb max_age (now - created_at)
    then some age
    else if leb max_jobs jobs_run
    then some job_count
    else none

-- `evaluateRecycle` by the state.
unfoldable pub evaluate_as : WorkerState → RecycleDecision → RecycleDecision
evaluate_as dead limits = some error
evaluate_as recycling limits = some error
evaluate_as _ limits = limits

-- `evaluateRecycle`
unfoldable pub evaluate_recycle : RecycleCandidate → RecycleOptions → (now : ℕ) → RecycleDecision
unfolding evaluate_as evaluate_limits
evaluate_recycle c o now = evaluate_as c.state (
    evaluate_limits now c.created_at c.jobs_run (or_default o.max_age_ms 600_000)
      (or_default o.max_jobs_per_worker 100))

-- `state === 'idle'`
abbrev pub is_idle : WorkerState → Bool
is_idle idle = true
is_idle _ = false

-- `!shouldRecycle`
abbrev pub stays : RecycleDecision → Bool
stays none = true
stays (some reason) = false

-- `isEligible`
unfoldable pub is_eligible : RecycleCandidate → RecycleOptions → (now : ℕ) → Bool
unfolding evaluate_recycle
is_eligible c o now = if is_idle c.state then stays (evaluate_recycle c o now) else false
