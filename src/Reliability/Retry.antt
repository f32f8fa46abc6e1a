-- ===== src/Reliability/Retry.antt =====
-- src/reliability/retry.ts. The function is given by the timed outcome of each of its calls, which
-- are numbered from 1; a run records the attempts made, the sleeps between them and the time taken.
pub mod Backoff
pub mod Attempts
use mcp_conductor.Base.{ℕ, zero, suc, ◌+◌, ◌*◌, min, true, false, List, [], ◌∷◌, Text}
use mcp_conductor.Reliability.Errors.{
  Thrown, Outcome, returned, threw, retry_exhausted_error, is_retryable,
}
use mcp_conductor.Reliability.Timeout.{Timed, timer_delay}

pub record RetryOptions : Type 0 where
  pub retries : ℕ
  pub retry_delay_ms : ℕ
  pub retry_max_delay_ms : ℕ
  pub server : Text
  pub tool : Text

pub record Retried {ℓ} (A : Type ℓ) : Type ℓ where
  pub outcome : Outcome A
  pub attempts : ℕ
  pub sleeps : List ℕ
  pub elapsed : ℕ

-- The run that ends with an attempt.
unfoldable pub stop {ℓ} : {A : Type ℓ} → Outcome A → (attempt elapsed : ℕ) → Retried A
stop r attempt elapsed = record { outcome = r; attempts = attempt; sleeps = []; elapsed = elapsed }

-- The run that sleeps and goes on.
unfoldable pub sleep_then {ℓ} : {A : Type ℓ} → (delay elapsed : ℕ) → Retried A → Retried A
sleep_then delay elapsed rest = record rest {
  sleeps = delay ∷ rest.sleeps;
  elapsed = elapsed + timer_delay delay + rest.elapsed;
}

-- The error after the loop.
unfoldable pub exhausted : RetryOptions → Thrown → Thrown
exhausted o err = retry_exhausted_error o.server o.tool (o.retries + 1) err

-- The `for` loop from an attempt on: `left` is `maxAttempts - attempt`.
unfoldable pub retry_loop {ℓ} :
    {A : Type ℓ} → (ℕ → Timed A) → RetryOptions → (left attempt delay : ℕ) → Retried A
unfolding stop sleep_then
retry_loop fn o zero attempt delay = elim (fn attempt).outcome [
  | returned a ↦ stop (returned a) attempt (fn attempt).elapsed
  | threw err ↦ elim (is_retryable err) [
    | false ↦ stop (threw err) attempt (fn attempt).elapsed
    | true ↦ stop (threw (exhausted o err)) attempt (fn attempt).elapsed
  ]
]
retry_loop fn o (suc left) attempt delay = elim (fn attempt).outcome [
  | returned a ↦ stop (returned a) attempt (fn attempt).elapsed
  | threw err ↦ elim (is_retryable err) [
    | false ↦ stop (threw err) attempt (fn attempt).elapsed
    | true ↦
        sleep_then delay (fn attempt).elapsed
          (retry_loop fn o left (suc attempt) (min (delay * 2) o.retry_max_delay_ms))
  ]
]

unfoldable pub with_retry {ℓ} : {A : Type ℓ} → (ℕ → Timed A) → RetryOptions → Retried A
unfolding retry_loop
with_retry fn o = retry_loop fn o o.retries 1 o.retry_delay_ms
