-- ===== src/Tests/Gateway.antt =====
-- Runs of src/reliability/gateway.ts.
use mcp_conductor.Base.{
  ℕ, ◌+◌, ◌*◌, ◌≤◌, ◌≡◌, ◌≢◌, refl, true, false, none, some, [], ◌∷◌, Text, codes, arith, text_eq,
  text_eq_iff, lookup, insert, if◌then◌else◌, ◌==◌, not, ◌&&◌, sum, map,
}
use mcp_conductor.Reliability.Profile.{
  ReliabilityProfile, opened, default_profile, resolve_profile, is_mutation, apply_mutation_default,
  as_partial,
}
use mcp_conductor.Reliability.Errors.{
  returned, threw, timeout_error, retry_exhausted_error, circuit_open_error, is_retryable,
}
use mcp_conductor.Reliability.Timeout.{Behavior, hangs, timer_delay, settles, with_timeout_simple}
use mcp_conductor.Reliability.Retry.{with_retry}
use mcp_conductor.Reliability.Breaker.{CircuitBreaker, new_breaker, allow_call}
use mcp_conductor.Reliability.Gateway.{
  GatewayOptions, ReliabilityGateway, accumulator, start_call, attempts_of, call,
  resolve_call_profile, breaker_of, count_call, set_breaker, end_call, count_attempts,
}
use mcp_conductor.Reliability.Gateway.Resolution
use mcp_conductor.Reliability.Gateway.Resolution.{layered, asks_for_retries}
use mcp_conductor.Reliability.Gateway.Accounting.{Counts, call-Counts}
use mcp_conductor.Reliability.Gateway.Frame.{Agree, call-Agree}
use mcp_conductor.Reliability.Gateway.Outcomes.{call-opened, call-hangs}
use mcp_conductor.Reliability.Gateway.Interleaving.{
  World, start_world, after_start, Reach, here, next, starts, calls_balance,
}

abbrev github : Text
github = codes "github"

abbrev get_issue : Text
get_issue = codes "get_issue"

abbrev issue_create : Text
issue_create = codes "issue_create"

abbrev blank : ReliabilityProfile
blank = record {
  timeout_ms = none;
  retries = none;
  retry_delay_ms = none;
  retry_max_delay_ms = none;
  circuit_breaker_threshold = none;
  circuit_breaker_window_ms = none;
  circuit_breaker_min_calls = none;
  half_open_probe_interval_ms = none;
}

abbrev options : GatewayOptions
options = record {
  tool_lookup = none;
  default_profile_option = blank;
  server_profiles = (github, record blank { timeout_ms = some 200 }) ∷ [];
  tool_profiles = [];
}

abbrev empty_gateway : ReliabilityGateway
empty_gateway = record { breakers = []; stats = []; options = options }

-- A backend that never answers.
abbrev silent : ℕ → Behavior ℕ
silent k = hangs

-- A backend that answers at its second attempt.
abbrev flaky : ℕ → Behavior ℕ
flaky k = if k == 1 then hangs else settles 30 (returned 7)

-- The definitions that a run of a call goes through.
program : Unit {0}
unfolding start_call resolve_call_profile resolve_profile apply_mutation_default is_mutation
    breaker_of count_call accumulator set_breaker allow_call new_breaker lookup insert text_eq
    as_partial call attempts_of with_retry with_timeout_simple is_retryable end_call count_attempts
program = tt

flaky_returns : (call empty_gateway 0 github get_issue flaky).1 ≡ returned 7
unfolding program
flaky_returns = refl

flaky_counted :
    accumulator (call empty_gateway 0 github get_issue flaky).0 github
    ≡ record { total_calls = 1; successes = 1; failures = 0; timeouts = 0; retries = 1 }
unfolding program
flaky_counted = refl

admitted :
    (start_call empty_gateway 0 github get_issue).1
    ≡ returned (record default_profile { timeout_ms = 200 })
unfolding program
admitted = refl

call-hangs_example :
    (call empty_gateway 0 github get_issue silent).1
    ≡ threw (retry_exhausted_error github get_issue 3 (timeout_error github get_issue 200 3))
call-hangs_example =
    call-hangs empty_gateway 0 github get_issue silent (record default_profile { timeout_ms = 200 })
      (λ k. refl) admitted

call-Counts_example :
    Counts
      (accumulator empty_gateway github)
      (accumulator (call empty_gateway 0 github get_issue flaky).0 github)
      (start_call empty_gateway 0 github get_issue).1
      (λ p. attempts_of p github get_issue flaky)
call-Counts_example = call-Counts empty_gateway 0 github get_issue flaky

abbrev slack : Text
slack = codes "slack"

slack_not_github : github ≢ slack
slack_not_github e = ground (arith, text_eq_iff github slack)

call-Agree_example : Agree slack empty_gateway (call empty_gateway 0 github get_issue flaky).0
call-Agree_example = call-Agree empty_gateway 0 github get_issue flaky slack slack_not_github

-- A circuit that tripped at 1000.
abbrev tripped : CircuitBreaker
tripped = record {
  state = opened;
  window = [];
  last_trip = some 1000;
  probe_in_flight = false;
  threshold = record { num = 1; den = 2 };
  window_ms = 60_000;
  min_calls = 10;
  half_open_interval_ms = 30_000;
  server = github;
}

abbrev failing : ReliabilityGateway
failing = record empty_gateway { breakers = (github, tripped) ∷ [] }

found : lookup github failing.breakers ≡ some tripped
unfolding lookup text_eq
found = refl

call-opened_example :
    ((call failing 1500 github get_issue flaky).1 ≡ threw (circuit_open_error github get_issue 0))
    × (lookup github (call failing 1500 github get_issue flaky).0.breakers ≡ some tripped)
call-opened_example =
    call-opened failing 1500 1000 github get_issue flaky tripped found refl refl (omega arith)

resolve-layered_example :
    let p = resolve_call_profile options github get_issue in
    let d = default_profile in
    (p.timeout_ms ≡ layered (λ q. q.timeout_ms) options github get_issue d.timeout_ms)
    × (p.retry_delay_ms ≡ layered (λ q. q.retry_delay_ms) options github get_issue d.retry_delay_ms)
    × (p.retry_max_delay_ms
        ≡ layered (λ q. q.retry_max_delay_ms) options github get_issue d.retry_max_delay_ms)
    × (p.circuit_breaker_threshold
        ≡ layered
            (λ q. q.circuit_breaker_threshold)
            options
            github
            get_issue
            d.circuit_breaker_threshold)
    × (p.circuit_breaker_window_ms
        ≡ layered
            (λ q. q.circuit_breaker_window_ms)
            options
            github
            get_issue
            d.circuit_breaker_window_ms)
    × (p.circuit_breaker_min_calls
        ≡ layered
            (λ q. q.circuit_breaker_min_calls)
            options
            github
            get_issue
            d.circuit_breaker_min_calls)
    × (p.half_open_probe_interval_ms
        ≡ layered
            (λ q. q.half_open_probe_interval_ms)
            options
            github
            get_issue
            d.half_open_probe_interval_ms)
    × (p.retries ≡ (
        if is_mutation get_issue && not (asks_for_retries options github get_issue)
        then 0
        else layered (λ q. q.retries) options github get_issue d.retries))
resolve-layered_example = Resolution.resolve-layered options github get_issue

create_mutates : is_mutation issue_create ≡ true
unfolding is_mutation
create_mutates = refl

no_retries_asked : asks_for_retries options github issue_create ≡ false
unfolding program
no_retries_asked = refl

mutation_runs_once_example :
    (attempts_of
      (resolve_call_profile options github issue_create)
      github
      issue_create
      silent).attempts
    ≡ 1
mutation_runs_once_example =
    Resolution.mutation_runs_once options github issue_create silent create_mutates no_retries_asked

attempts-elapsed-le_example :
    let r = attempts_of default_profile github get_issue silent in
    (r.attempts ≤ 2 + 1)
    × (r.elapsed ≤ r.attempts * timer_delay 10_000 + sum (map timer_delay r.sleeps))
attempts-elapsed-le_example = Resolution.attempts-elapsed-le default_profile github get_issue silent

-- One call under way.
abbrev one_started : World
one_started =
    after_start (start_world options) (start_call empty_gateway 5 github get_issue).0 github
      (start_call empty_gateway 5 github get_issue).1

one_step : Reach ℕ (start_world options) one_started
one_step = next here (starts 5 github get_issue)

calls_balance_example :
    let a = accumulator one_started.gateway github in
    a.total_calls
    ≡ a.successes + a.failures + one_started.waiting github + one_started.rejected github
calls_balance_example = calls_balance options github one_step
