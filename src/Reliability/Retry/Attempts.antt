-- ===== src/Reliability/Retry/Attempts.antt =====
-- Which attempt ends a run of src/reliability/retry.ts, and how.
use mcp_conductor.Base.{
  ℕ, zero, suc, ◌+◌, ◌*◌, ◌≤◌, ◌<◌, ◌≡◌, refl, ◌⊎◌, inl, inr, min, true, false, arith, dec_lt,
}
use mcp_conductor.Reliability.Errors.{
  Thrown, Outcome, returned, threw, timeout_error, is_retryable, is_timeout,
}
use mcp_conductor.Reliability.Timeout.{Timed}
use mcp_conductor.Reliability.Retry.{RetryOptions, exhausted, retry_loop, with_retry}

-- An attempt failed with an error that may be retried.
abbrev pub MayRetry {ℓ} : {A : Type ℓ} → Outcome A → Type 0
MayRetry (returned a) = ⊥
MayRetry (threw err) = is_retryable err ≡ true

-- How the outcome of the last attempt, numbered `n`, becomes that of the run.
abbrev pub Ends {ℓ} : {A : Type ℓ} → RetryOptions → ℕ → Outcome A → Outcome A → Type ℓ
Ends o n (returned a) final = final ≡ returned a
Ends o n (threw err) final =
    ((is_retryable err ≡ false) × (final ≡ threw err))
    ⊎ ((is_retryable err ≡ true) × (n ≡ o.retries + 1) × (final ≡ threw (exhausted o err)))

module _ {ℓ} {A : Type ℓ} (fn : ℕ → Timed A) (o : RetryOptions) where
  loop-Ends :
      (left attempt delay : ℕ)
      → attempt + left ≡ o.retries + 1
      → let r = retry_loop fn o left attempt delay in
        Ends o r.attempts (fn r.attempts).outcome r.outcome
  unfolding retry_loop
  loop-Ends zero attempt delay h = ground arith
  loop-Ends (suc left) attempt delay h =
      ground (arith, loop-Ends left (suc attempt) (min (delay * 2) o.retry_max_delay_ms))

  loop-MayRetry :
      (left attempt delay k : ℕ)
      → attempt ≤ k
      → k < (retry_loop fn o left attempt delay).attempts
      → MayRetry (fn k).outcome
  unfolding retry_loop
  loop-MayRetry zero attempt delay k h l = ground arith
  loop-MayRetry (suc left) attempt delay k h l = elim (dec_lt attempt k) [
    | yes later ↦
        ground (arith, loop-MayRetry left (suc attempt) (min (delay * 2) o.retry_max_delay_ms) k)
    | no now ↦ let e : attempt ≡ k = omega arith in ground arith
  ]

-- Every attempt of a run but the last failed with a retryable error.
pub with_retry-MayRetry {ℓ} :
    {A : Type ℓ} (fn : ℕ → Timed A) (o : RetryOptions) (k : ℕ)
    → 1 ≤ k
    → k < (with_retry fn o).attempts
    → MayRetry (fn k).outcome
unfolding with_retry
with_retry-MayRetry fn o = loop-MayRetry fn o o.retries 1 o.retry_delay_ms

-- A run returns what its last attempt returned, and throws the error of that attempt if it is not
-- retryable. If it is, all the attempts that `retries` allows were made, and the run throws a
-- `RetryExhaustedError` that carries it.
pub with_retry-Ends {ℓ} :
    {A : Type ℓ} (fn : ℕ → Timed A) (o : RetryOptions)
    → let r = with_retry fn o in Ends o r.attempts (fn r.attempts).outcome r.outcome
unfolding with_retry
with_retry-Ends fn o = loop-Ends fn o o.retries 1 o.retry_delay_ms (omega arith)

timeout-is_retryable : (err : Thrown) → is_retryable err ≡ false → is_timeout err ≡ false
unfolding is_retryable is_timeout
timeout-is_retryable (timeout_error server tool timeout_ms attempts) h = ground arith
timeout-is_retryable _ h = refl

Ends-not-timeout {ℓ} :
    {A : Type ℓ} (o : RetryOptions) (n : ℕ) (out : Outcome A) {final : Outcome A} {err : Thrown}
    → Ends o n out final
    → final ≡ threw err
    → is_timeout err ≡ false
unfolding is_timeout exhausted
Ends-not-timeout o n (returned a) h e = ground arith
Ends-not-timeout o n (threw cause) (inl h) e = ground (arith, timeout-is_retryable cause)
Ends-not-timeout o n (threw cause) (inr h) e = ground arith

-- A run never throws a `TimeoutError` itself: that of its last attempt comes wrapped.
pub with_retry-not-timeout {ℓ} :
    {A : Type ℓ} (fn : ℕ → Timed A) (o : RetryOptions) {err : Thrown}
    → (with_retry fn o).outcome ≡ threw err
    → is_timeout err ≡ false
with_retry-not-timeout fn o h =
    let r = with_retry fn o in
    Ends-not-timeout o r.attempts (fn r.attempts).outcome (with_retry-Ends fn o) h
