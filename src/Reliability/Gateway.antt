-- ===== src/Reliability/Gateway.antt =====
-- src/reliability/gateway.ts. The two maps are keyed by server; the counters and the circuit
-- breaker of a call are the map's entries, which no method takes out again, so the objects that a
-- call holds on to while it waits are written as updates at its server. A call is three steps: its
-- start, the retries that it counts while it runs, and its end; other calls may come in between.
pub mod Resolution
pub mod Stores
pub mod Accounting
pub mod Frame
pub mod Outcomes
pub mod Interleaving
use mcp_conductor.Base.{
  ℕ, zero, suc, ◌+◌, Bool, true, false, ◌||◌, Option, none, some, List, [], ◌∷◌, ◌++◌, map, Text,
  codes, ◌==◌, ltb, Dict, lookup, insert, or_default, is_some, if◌then◌else◌,
}
use mcp_conductor.Reliability.Profile.{
  ReliabilityProfile, Profile, CircuitState, closed, default_profile, resolve_profile, as_partial,
  apply_mutation_default,
}
use mcp_conductor.Reliability.Errors.{
  Thrown, Outcome, returned, threw, mcp_tool_error, timeout_error, retry_exhausted_error,
  circuit_open_error, error, object, primitive, is_timeout, is_error,
}
use mcp_conductor.Reliability.Breaker.{
  CircuitBreaker, BreakerStats, new_breaker, get_state, allow_call, record_success, record_failure,
  reset, get_stats,
}
use mcp_conductor.Reliability.Retry.{RetryOptions, Retried, with_retry}
use mcp_conductor.Reliability.Timeout.{Behavior, TimeoutOptions, Timed, with_timeout_simple}

-- `GatewayOptions`, with the constructor's defaults filled in but for the lookup.
pub record GatewayOptions : Type 0 where
  pub tool_lookup : Option (Text → Text → Option ReliabilityProfile)
  pub default_profile_option : ReliabilityProfile
  pub server_profiles : Dict ReliabilityProfile
  pub tool_profiles : Dict ReliabilityProfile

pub record MutableStats : Type 0 where
  pub total_calls : ℕ
  pub successes : ℕ
  pub failures : ℕ
  pub timeouts : ℕ
  pub retries : ℕ

abbrev pub empty_mutable_stats : MutableStats
empty_mutable_stats = record {
  total_calls = 0;
  successes = 0;
  failures = 0;
  timeouts = 0;
  retries = 0;
}

pub record ReliabilityGateway : Type 0 where
  pub breakers : Dict CircuitBreaker
  pub stats : Dict MutableStats
  pub options : GatewayOptions

-- The constructor, over options in which each part may be missing.
unfoldable pub new_gateway :
    Option (Text → Text → Option ReliabilityProfile)
    → Option ReliabilityProfile
    → Option (Dict ReliabilityProfile)
    → Option (Dict ReliabilityProfile)
    → ReliabilityGateway
new_gateway tool_lookup profile server_profiles tool_profiles = record {
  breakers = [];
  stats = [];
  options = record {
    tool_lookup = tool_lookup;
    default_profile_option = or_default profile (as_partial default_profile);
    server_profiles = or_default server_profiles [];
    tool_profiles = or_default tool_profiles [];
  };
}

-- `this.options.toolLookup?.getToolReliability(server, tool)`
unfoldable pub registry_override : GatewayOptions → Text → Text → Option ReliabilityProfile
registry_override o server tool = elim o.tool_lookup [
  | none ↦ none
  | some get_tool_reliability ↦ get_tool_reliability server tool
]

-- `${server}.${tool}`
unfoldable pub tool_key : Text → Text → Text
tool_key server tool = server ++ (codes "." ++ tool)

-- `override?.retries !== undefined`
abbrev pub sets_retries : Option ReliabilityProfile → Bool
sets_retries none = false
sets_retries (some p) = is_some p.retries

-- `_resolveProfile`
unfoldable pub resolve_call_profile : GatewayOptions → Text → Text → Profile
unfolding registry_override tool_key
resolve_call_profile o server tool =
    let server_override = lookup server o.server_profiles in
    let tool_override = lookup (tool_key server tool) o.tool_profiles in
    let global_base = resolve_profile (some o.default_profile_option) default_profile in
    let after_server = resolve_profile server_override global_base in
    let after_registry = resolve_profile (registry_override o server tool) after_server in
    let explicit = resolve_profile tool_override after_registry in
    apply_mutation_default tool explicit (
      sets_retries tool_override
      || sets_retries (registry_override o server tool)
      || sets_retries server_override)

-- `_breaker`: the circuit of the server, made at its first call.
unfoldable pub breaker_of : ReliabilityGateway → Text → Profile → CircuitBreaker
breaker_of g server profile =
    or_default (lookup server g.breakers) (new_breaker server (as_partial profile))

-- `_accumulator`: the counters of the server, made at its first call.
unfoldable pub accumulator : ReliabilityGateway → Text → MutableStats
accumulator g server = or_default (lookup server g.stats) empty_mutable_stats

unfoldable pub set_breaker : ReliabilityGateway → Text → CircuitBreaker → ReliabilityGateway
set_breaker g server b = record g { breakers = insert server b g.breakers }

unfoldable pub set_stats : ReliabilityGateway → Text → MutableStats → ReliabilityGateway
set_stats g server acc = record g { stats = insert server acc g.stats }

-- `acc.totalCalls++`
unfoldable pub count_call : ReliabilityGateway → (server : Text) → ReliabilityGateway
unfolding set_stats
count_call g server =
    let acc = accumulator g server in
    set_stats g server (record acc { total_calls = acc.total_calls + 1 })

-- `call` up to the attempts: the call is counted, and the circuit may reject it.
unfoldable pub start_call :
    ReliabilityGateway → (now : ℕ) (server tool : Text) → ReliabilityGateway × Outcome Profile
unfolding set_breaker count_call
start_call g now server tool =
    let profile = resolve_call_profile g.options server tool in
    let (b, allowed) = allow_call (breaker_of g server profile) now tool in
    let g' = set_breaker (count_call g server) server b in
    (g', elim allowed [ returned _ ↦ returned profile | threw err ↦ threw err ])

-- `if (attempt > 1) acc.retries++`
unfoldable pub count_attempt : ReliabilityGateway → (server : Text) → ℕ → ReliabilityGateway
unfolding set_stats
count_attempt g server attempt =
    let acc = accumulator g server in
    if ltb 1 attempt then set_stats g server (record acc { retries = acc.retries + 1 }) else g

-- `err instanceof RetryExhaustedError && err.lastError instanceof TimeoutError`, or a `TimeoutError`.
unfoldable pub counts_as_timeout : Thrown → Bool
unfolding is_timeout
counts_as_timeout (retry_exhausted_error server tool attempts last_error) = is_timeout last_error
counts_as_timeout err = is_timeout err

-- The error that the `catch` block throws: that of the only attempt comes unwrapped.
unfoldable pub surfaced : Thrown → Thrown
unfolding is_error
surfaced (retry_exhausted_error server tool attempts last_error) =
    if attempts == 1
    then if is_error last_error
      then last_error
      else retry_exhausted_error server tool attempts last_error
    else retry_exhausted_error server tool attempts last_error
surfaced err = err

-- The `catch` block's counters.
unfoldable pub count_failure : MutableStats → Thrown → MutableStats
unfolding counts_as_timeout
count_failure acc err = record acc {
  failures = acc.failures + 1;
  timeouts = if counts_as_timeout err then acc.timeouts + 1 else acc.timeouts;
}

-- `call` from the end of the attempts on.
unfoldable pub end_call {ℓ} :
    {A : Type ℓ}
    → ReliabilityGateway
    → (now : ℕ) (server : Text) → Profile
    → Outcome A
    → ReliabilityGateway × Outcome A
unfolding set_breaker set_stats count_failure surfaced
end_call g now server profile (returned a) =
    let b = record_success (breaker_of g server profile) now in
    let acc = accumulator g server in
    (
      set_stats (set_breaker g server b) server (record acc { successes = acc.successes + 1 }),
      returned a,
    )
end_call g now server profile (threw err) =
    let b = record_failure (breaker_of g server profile) now in
    (
      set_stats (set_breaker g server b) server (count_failure (accumulator g server) err),
      threw (surfaced err),
    )

-- The attempts of a call: `fn` is what the backend does at each of them.
unfoldable pub attempts_of {ℓ} :
    {A : Type ℓ} → Profile → (server tool : Text) → (ℕ → Behavior A) → Retried A
attempts_of profile server tool fn =
    with_retry
      (λ attempt. with_timeout_simple (fn attempt) (record {
        timeout_ms = profile.timeout_ms;
        server = server;
        tool = tool;
        attempt = attempt;
      }))
      (record {
        retries = profile.retries;
        retry_delay_ms = profile.retry_delay_ms;
        retry_max_delay_ms = profile.retry_max_delay_ms;
        server = server;
        tool = tool;
      })

-- The counting of `n` attempts from `attempt` on.
unfoldable pub count_attempts :
    ReliabilityGateway → (server : Text) → (n attempt : ℕ) → ReliabilityGateway
unfolding count_attempt
count_attempts g server zero attempt = g
count_attempts g server (suc n) attempt =
    count_attempts (count_attempt g server attempt) server n (suc attempt)

-- `call` from the admission on, which a rejected call does not pass.
unfoldable pub run_call {ℓ} :
    {A : Type ℓ}
    → ReliabilityGateway
    → (now : ℕ) (server tool : Text) → (ℕ → Behavior A)
    → Outcome Profile
    → ReliabilityGateway × Outcome A
run_call g now server tool fn (threw err) = (g, threw err)
run_call g now server tool fn (returned profile) =
    let r = attempts_of profile server tool fn in
    end_call (count_attempts g server r.attempts 1) (now + r.elapsed) server profile r.outcome

-- A whole call while no other runs, from the time `now` on.
unfoldable pub call {ℓ} :
    {A : Type ℓ}
    → ReliabilityGateway
    → (now : ℕ) (server tool : Text) → (ℕ → Behavior A)
    → ReliabilityGateway × Outcome A
unfolding run_call
call g now server tool fn =
    let (g', started) = start_call g now server tool in run_call g' now server tool fn started

-- `getCircuitState`
unfoldable pub get_circuit_state :
    ReliabilityGateway → (now : ℕ) (server : Text) → ReliabilityGateway × CircuitState
unfolding set_breaker
get_circuit_state g now server = elim (lookup server g.breakers) [
  | none ↦ (g, closed)
  | some b ↦ let (b', state) = get_state b now in (set_breaker g server b', state)
]

pub record ServerStats : Type 0 where
  pub counters : MutableStats
  pub circuit_state : CircuitState
  pub last_trip : Option ℕ

-- One pass of the loop of `getStats`.
unfoldable pub server_stats :
    ReliabilityGateway → (now : ℕ) (server : Text) → MutableStats → ReliabilityGateway × ServerStats
unfolding set_breaker
server_stats g now server acc = elim (lookup server g.breakers) [
  | none ↦ (g, record { counters = acc; circuit_state = closed; last_trip = none })
  | some b ↦
      let (b', s) = get_stats b now in
      (
        set_breaker g server b',
        record { counters = acc; circuit_state = s.state; last_trip = s.last_trip },
      )
]

get_stats_from : ReliabilityGateway → ℕ → Dict MutableStats → ReliabilityGateway × Dict ServerStats
get_stats_from g now [] = (g, [])
get_stats_from g now ((server, acc) ∷ rest) =
    let (g', s) = server_stats g now server acc in
    let (g'', more) = get_stats_from g' now rest in (g'', (server, s) ∷ more)

-- `getStats`
unfoldable pub get_gateway_stats : ReliabilityGateway → ℕ → ReliabilityGateway × Dict ServerStats
unfolding get_stats_from server_stats
get_gateway_stats g now = get_stats_from g now g.stats

-- `resetCircuit`
unfoldable pub reset_circuit : ReliabilityGateway → Text → ReliabilityGateway
unfolding set_breaker
reset_circuit g server = elim (lookup server g.breakers) [
  | none ↦ g
  | some b ↦ set_breaker g server (reset b)
]
