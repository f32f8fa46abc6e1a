-- ===== src/Reliability/Gateway/Outcomes.antt =====
-- What a call of src/reliability/gateway.ts throws when the circuit is open or the backend hangs.
use mcp_conductor.Base.{
  ℕ, ◌+◌, ◌<◌, ◌≡◌, refl, subst, some, Text, lookup, lt→ltb, arith, if◌then◌else◌, ◌==◌,
}
use mcp_conductor.Reliability.Errors.{
  Thrown, Outcome, returned, threw, circuit_open_error, timeout_error, retry_exhausted_error,
  is_retryable,
}
use mcp_conductor.Reliability.Profile.{Profile, opened}
use mcp_conductor.Reliability.Timeout.{Behavior, hangs, TimeoutOptions, with_timeout_simple}
use mcp_conductor.Reliability.Retry.{RetryOptions, Retried, exhausted}
use mcp_conductor.Reliability.Retry.Attempts.{Ends, with_retry-Ends}
use mcp_conductor.Reliability.Breaker.{CircuitBreaker, allow_call}
use mcp_conductor.Reliability.Breaker.Transitions.{opened-allow_call}
use mcp_conductor.Reliability.Gateway.Stores.{lookup-set_breaker}
use mcp_conductor.Reliability.Gateway.{
  ReliabilityGateway, breaker_of, start_call, count_call, run_call, end_call, surfaced, attempts_of,
  call, resolve_call_profile,
}

start_call-rejected :
    (g : ReliabilityGateway) (now : ℕ) (s tool : Text) {b : CircuitBreaker} {err : Thrown}
    → allow_call (breaker_of g s (resolve_call_profile g.options s tool)) now tool ≡ (b, threw err)
    → ((start_call g now s tool).1 ≡ threw err)
      × (lookup s (start_call g now s tool).0.breakers ≡ some b)
unfolding start_call
start_call-rejected g now s tool e =
    (rw (e, start_call), rw (e, start_call) (lookup-set_breaker (count_call g s) s _))

breaker_of-found :
    (g : ReliabilityGateway) (s : Text) (p : Profile) {b : CircuitBreaker}
    → lookup s g.breakers ≡ some b
    → breaker_of g s p ≡ b
unfolding breaker_of
breaker_of-found g s p e = rw e

run_call-rejected {ℓ} :
    {A : Type ℓ} (g : ReliabilityGateway) (now : ℕ) (s tool : Text) (fn : ℕ → Behavior A)
    (started : Outcome Profile) {err : Thrown}
    → started ≡ threw err
    → run_call g now s tool fn started ≡ (g, threw err)
unfolding run_call
run_call-rejected g now s tool fn started e = rw e

-- While the circuit of a server is open and its probe not yet due, a call throws a
-- `CircuitOpenError`, whatever the backend would do, and the circuit stays as it is.
pub call-opened {ℓ} :
    {A : Type ℓ} (g : ReliabilityGateway) (now trip : ℕ) (s tool : Text) (fn : ℕ → Behavior A)
    (b : CircuitBreaker)
    → lookup s g.breakers ≡ some b
    → b.state ≡ opened
    → b.last_trip ≡ some trip
    → now < trip + b.half_open_interval_ms
    → ((call g now s tool fn).1 ≡ threw (circuit_open_error b.server tool 0))
      × (lookup s (call g now s tool fn).0.breakers ≡ some b)
unfolding call
call-opened g now trip s tool fn b found o t early =
    let rejected : allow_call (breaker_of g s (resolve_call_profile g.options s tool)) now tool
        ≡ (b, threw (circuit_open_error b.server tool 0)) =
      rw (breaker_of-found g s _ found, opened-allow_call b trip now tool o t, lt→ltb _ _ early) in
    let (threw', kept) = start_call-rejected g now s tool rejected in
    rw (run_call-rejected (start_call g now s tool).0 now s tool fn _ threw') (refl, kept)

-- The error of a run whose every attempt times out.
hangs-Ends {ℓ} :
    {A : Type ℓ} (p : Profile) (s tool : Text) (fn : ℕ → Behavior A)
    → ((k : ℕ) → fn k ≡ hangs)
    → (attempts_of p s tool fn).outcome
      ≡ threw (
          retry_exhausted_error s tool
            (p.retries + 1)
            (timeout_error s tool p.timeout_ms (p.retries + 1)))
unfolding attempts_of is_retryable exhausted with_timeout_simple
hangs-Ends {A} p s tool fn h = decide (
    subst
      (λ (b : Behavior A).
        Ends o r.attempts (with_timeout_simple b (at r.attempts)).outcome r.outcome)
      (h r.attempts) (with_retry-Ends (λ k. with_timeout_simple (fn k) (at k)) o))
  where
    o : RetryOptions
    o = record {
      retries = p.retries;
      retry_delay_ms = p.retry_delay_ms;
      retry_max_delay_ms = p.retry_max_delay_ms;
      server = s;
      tool = tool;
    }

    at : ℕ → TimeoutOptions
    at k = record { timeout_ms = p.timeout_ms; server = s; tool = tool; attempt = k }

    r : Retried A
    r = attempts_of p s tool fn

    decide :
        Ends o r.attempts (threw (timeout_error s tool p.timeout_ms r.attempts)) r.outcome
        → r.outcome
          ≡ threw (
              retry_exhausted_error s tool
                (p.retries + 1)
                (timeout_error s tool p.timeout_ms (p.retries + 1)))
    decide e = ground arith

-- A backend that hangs at every attempt of an admitted call makes the call throw: a `TimeoutError`
-- if no retry is allowed, and otherwise a `RetryExhaustedError` that carries the `TimeoutError` of
-- the last of the `retries + 1` attempts.
pub call-hangs {ℓ} :
    {A : Type ℓ} (g : ReliabilityGateway) (now : ℕ) (s tool : Text) (fn : ℕ → Behavior A)
    (p : Profile)
    → ((k : ℕ) → fn k ≡ hangs)
    → (start_call g now s tool).1 ≡ returned p
    → (call g now s tool fn).1
      ≡ threw (
          if p.retries == 0
          then timeout_error s tool p.timeout_ms 1
          else retry_exhausted_error s tool
              (p.retries + 1)
              (timeout_error s tool p.timeout_ms (p.retries + 1)))
unfolding call run_call end_call surfaced
call-hangs g now s tool fn p h e =
    rw (e, run_call, hangs-Ends p s tool fn h, end_call) (ground arith)
