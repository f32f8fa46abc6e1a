-- ===== src/Reliability/Gateway/Accounting.antt =====
-- The counters and circuits of src/reliability/gateway.ts over one whole call.
use mcp_conductor.Base.{
  ℕ, zero, suc, ◌+◌, ◌-◌, ◌≤◌, ◌≡◌, Text, arith, ap, sym, refl, ◌∙◌, lt→ltb, Bool, true, false,
  if◌then◌else◌,
}
use mcp_conductor.Reliability.Errors.{
  Thrown, Outcome, returned, threw, mcp_tool_error, timeout_error, retry_exhausted_error,
  circuit_open_error, error, object, primitive, is_timeout,
}
use mcp_conductor.Reliability.Profile.{Profile}
use mcp_conductor.Reliability.Timeout.{Behavior}
use mcp_conductor.Reliability.Retry.{Retried}
use mcp_conductor.Reliability.Gateway.Resolution.{attempts-pos}
use mcp_conductor.Reliability.Gateway.Stores.{accumulator-set_stats, accumulator-set_breaker}
use mcp_conductor.Reliability.Gateway.{
  ReliabilityGateway, MutableStats, accumulator, count_call, start_call, count_attempt,
  count_attempts, end_call, count_failure, counts_as_timeout, attempts_of, run_call, call,
}

-- What the start of a call counts.
pub start_call-accumulator :
    (g : ReliabilityGateway) (now : ℕ) (s tool : Text)
    → accumulator (start_call g now s tool).0 s
      ≡ record (accumulator g s) { total_calls = (accumulator g s).total_calls + 1 }
unfolding start_call count_call
start_call-accumulator g now s tool =
    accumulator-set_breaker (count_call g s) s s _ ∙ accumulator-set_stats g s _

pub count_attempt-accumulator :
    (g : ReliabilityGateway) (s : Text) (attempt : ℕ)
    → 1 ≤ attempt
    → accumulator (count_attempt g s (suc attempt)) s
      ≡ record (accumulator g s) { retries = (accumulator g s).retries + 1 }
unfolding count_attempt
count_attempt-accumulator g s attempt h =
    rw (lt→ltb 1 (suc attempt) (omega arith)) (accumulator-set_stats g s _)

retries_add :
    (a b : MutableStats) (n : ℕ)
    → b ≡ record a { retries = a.retries + 1 }
    → record b { retries = b.retries + n } ≡ record a { retries = a.retries + suc n }
retries_add a b n e = ground arith

count_attempts-accumulator :
    (g : ReliabilityGateway) (s : Text) (n attempt : ℕ)
    → 1 ≤ attempt
    → accumulator (count_attempts g s n (suc attempt)) s
      ≡ record (accumulator g s) { retries = (accumulator g s).retries + n }
unfolding count_attempts
count_attempts-accumulator g s zero attempt h = ground arith
count_attempts-accumulator g s (suc n) attempt h =
    count_attempts-accumulator (count_attempt g s (suc attempt)) s n (suc attempt) (omega arith)
    ∙ retries_add _ _ n (count_attempt-accumulator g s attempt h)

-- The first of the attempts is no retry.
attempts-accumulator :
    (g : ReliabilityGateway) (s : Text) (n : ℕ)
    → 1 ≤ n
    → accumulator (count_attempts g s n 1) s
      ≡ record (accumulator g s) { retries = (accumulator g s).retries + (n - 1) }
unfolding count_attempts count_attempt
attempts-accumulator g s zero h = absurd (omega arith)
attempts-accumulator g s (suc n) h =
    let e : suc n - 1 ≡ n = omega arith in rw e (count_attempts-accumulator g s n 1 (omega arith))

-- The counters at the end of a call.
abbrev pub counted_end {ℓ} : {A : Type ℓ} → MutableStats → Outcome A → MutableStats
counted_end acc (returned a) = record acc { successes = acc.successes + 1 }
counted_end acc (threw err) = count_failure acc err

pub end_call-accumulator {ℓ} :
    {A : Type ℓ} (g : ReliabilityGateway) (now : ℕ) (s : Text) (p : Profile) (out : Outcome A)
    → accumulator (end_call g now s p out).0 s ≡ counted_end (accumulator g s) out
unfolding end_call
end_call-accumulator g now s p (returned x) = accumulator-set_stats _ s _
end_call-accumulator g now s p (threw err) = accumulator-set_stats _ s _

-- A run that threw this error ended in a timeout: of its only attempt that is not tried again, or of
-- the last one that `retries` allows.
abbrev pub ends_in_timeout : Thrown → Bool
ends_in_timeout (timeout_error server tool timeout_ms attempts) = true
ends_in_timeout (retry_exhausted_error server tool n (timeout_error s t timeout_ms attempts)) = true
ends_in_timeout _ = false

-- The counters after an admitted call, by how its run of attempts ended.
abbrev pub counts_of {ℓ} : {A : Type ℓ} → MutableStats → (attempts : ℕ) → Outcome A → MutableStats
counts_of a attempts (returned x) = record {
  total_calls = a.total_calls + 1;
  successes = a.successes + 1;
  failures = a.failures;
  timeouts = a.timeouts;
  retries = a.retries + (attempts - 1);
}
counts_of a attempts (threw err) = record {
  total_calls = a.total_calls + 1;
  successes = a.successes;
  failures = a.failures + 1;
  timeouts = a.timeouts + (if ends_in_timeout err then 1 else 0);
  retries = a.retries + (attempts - 1);
}

-- What a call that was admitted, or rejected, has counted: `a` before it and `a'` after it.
pub Counts {ℓ} :
    {A : Type ℓ} → (a a' : MutableStats) → Outcome Profile → (Profile → Retried A) → Type 0
Counts a a' (threw err) attempts = a' ≡ record a { total_calls = a.total_calls + 1 }
Counts a a' (returned p) attempts = a' ≡ counts_of a (attempts p).attempts (attempts p).outcome

is_timeout-ends_in_timeout :
    (server tool : Text) (n : ℕ) (err : Thrown)
    → ends_in_timeout (retry_exhausted_error server tool n err) ≡ is_timeout err
unfolding is_timeout
is_timeout-ends_in_timeout server tool n (mcp_tool_error code s t err) = refl
is_timeout-ends_in_timeout server tool n (timeout_error s t ms k) = refl
is_timeout-ends_in_timeout server tool n (retry_exhausted_error s t k err) = refl
is_timeout-ends_in_timeout server tool n (circuit_open_error s t k) = refl
is_timeout-ends_in_timeout server tool n (error m code) = refl
is_timeout-ends_in_timeout server tool n (object m code) = refl
is_timeout-ends_in_timeout server tool n (primitive m) = refl

counts_as_timeout-ends_in_timeout : (err : Thrown) → counts_as_timeout err ≡ ends_in_timeout err
unfolding counts_as_timeout is_timeout
counts_as_timeout-ends_in_timeout (mcp_tool_error code s t err) = refl
counts_as_timeout-ends_in_timeout (timeout_error s t ms k) = refl
counts_as_timeout-ends_in_timeout (retry_exhausted_error s t k err) =
    sym (is_timeout-ends_in_timeout s t k err)
counts_as_timeout-ends_in_timeout (circuit_open_error s t k) = refl
counts_as_timeout-ends_in_timeout (error m code) = refl
counts_as_timeout-ends_in_timeout (object m code) = refl
counts_as_timeout-ends_in_timeout (primitive m) = refl

counted_end-counts_of {ℓ} :
    {A : Type ℓ} (a a1 : MutableStats) (n : ℕ) (out : Outcome A)
    → a1 ≡ record a { total_calls = a.total_calls + 1; retries = a.retries + (n - 1) }
    → counted_end a1 out ≡ counts_of a n out
unfolding count_failure
counted_end-counts_of a a1 n (returned x) e = ground arith
counted_end-counts_of a a1 n (threw err) e =
    rw (counts_as_timeout-ends_in_timeout err) (ground arith)

run_call-Counts {ℓ} :
    {A : Type ℓ} (a : MutableStats) (g : ReliabilityGateway) (now : ℕ) (s tool : Text)
    (fn : ℕ → Behavior A) (started : Outcome Profile)
    → accumulator g s ≡ record a { total_calls = a.total_calls + 1 }
    → Counts a
        (accumulator (run_call g now s tool fn started).0 s)
        started
        (λ p. attempts_of p s tool fn)
unfolding run_call Counts
run_call-Counts a g now s tool fn (threw err) e = e
run_call-Counts a g now s tool fn (returned p) e =
    let r = attempts_of p s tool fn in
    let pos = attempts-pos p s tool fn in
    rw (end_call-accumulator (count_attempts g s r.attempts 1) (now + r.elapsed) s p r.outcome) (
      counted_end-counts_of a _ r.attempts r.outcome (
        attempts-accumulator g s r.attempts pos
        ∙ ap (λ (b : MutableStats). record b { retries = b.retries + (r.attempts - 1) }) e))

-- A call adds one to the calls of its server, and nothing else if the circuit rejects it. Of an
-- admitted call each attempt after the first is a retry. It is counted as a success, and no more, if
-- its run of attempts returned, and as a failure, and no success, if the run threw; it is counted as
-- a timeout as well exactly when what the run threw is a `TimeoutError`, or a `RetryExhaustedError`
-- whose last error is one.
pub call-Counts {ℓ} :
    {A : Type ℓ} (g : ReliabilityGateway) (now : ℕ) (s tool : Text) (fn : ℕ → Behavior A)
    → Counts
        (accumulator g s)
        (accumulator (call g now s tool fn).0 s)
        (start_call g now s tool).1
        (λ p. attempts_of p s tool fn)
unfolding call
call-Counts g now s tool fn =
    run_call-Counts (accumulator g s) (start_call g now s tool).0 now s tool fn
      (start_call g now s tool).1 (start_call-accumulator g now s tool)
