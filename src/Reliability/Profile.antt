-- ===== src/Reliability/Profile.antt =====
-- src/reliability/profile.ts. Counts and times are natural numbers of milliseconds; the threshold,
-- a fraction of 1 in the source, is a quotient of naturals, which every finite float is.
use mcp_conductor.Base.{
  ℕ, Bool, not, ◌&&◌, Option, none, some, List, [], ◌∷◌, Text, codes, ends_with, any, or_default,
  if◌then◌else◌,
}

pub record Ratio : Type 0 where
  pub num : ℕ
  pub den : ℕ

-- `ReliabilityProfile`, whose fields may each be missing.
pub record ReliabilityProfile : Type 0 where
  pub timeout_ms : Option ℕ
  pub retries : Option ℕ
  pub retry_delay_ms : Option ℕ
  pub retry_max_delay_ms : Option ℕ
  pub circuit_breaker_threshold : Option Ratio
  pub circuit_breaker_window_ms : Option ℕ
  pub circuit_breaker_min_calls : Option ℕ
  pub half_open_probe_interval_ms : Option ℕ

-- `Required<ReliabilityProfile>`
pub record Profile : Type 0 where
  pub timeout_ms : ℕ
  pub retries : ℕ
  pub retry_delay_ms : ℕ
  pub retry_max_delay_ms : ℕ
  pub circuit_breaker_threshold : Ratio
  pub circuit_breaker_window_ms : ℕ
  pub circuit_breaker_min_calls : ℕ
  pub half_open_probe_interval_ms : ℕ

pub data CircuitState : Type 0 where
  closed opened half_open : CircuitState

abbrev pub default_profile : Profile
default_profile = record {
  timeout_ms = 10_000;
  retries = 2;
  retry_delay_ms = 100;
  retry_max_delay_ms = 5_000;
  circuit_breaker_threshold = record { num = 1; den = 2 };
  circuit_breaker_window_ms = 60_000;
  circuit_breaker_min_calls = 10;
  half_open_probe_interval_ms = 30_000;
}

-- The second half of `resolveProfile`: each field of the override, or else of the base.
unfoldable pub merge : ReliabilityProfile → Profile → Profile
merge override base = record {
  timeout_ms = or_default override.timeout_ms base.timeout_ms;
  retries = or_default override.retries base.retries;
  retry_delay_ms = or_default override.retry_delay_ms base.retry_delay_ms;
  retry_max_delay_ms = or_default override.retry_max_delay_ms base.retry_max_delay_ms;
  circuit_breaker_threshold =
      or_default override.circuit_breaker_threshold base.circuit_breaker_threshold;
  circuit_breaker_window_ms =
      or_default override.circuit_breaker_window_ms base.circuit_breaker_window_ms;
  circuit_breaker_min_calls =
      or_default override.circuit_breaker_min_calls base.circuit_breaker_min_calls;
  half_open_probe_interval_ms =
      or_default override.half_open_probe_interval_ms base.half_open_probe_interval_ms;
}

unfoldable pub resolve_profile : Option ReliabilityProfile → Profile → Profile
unfolding merge
resolve_profile none base = base
resolve_profile (some override) base = merge override base

-- A resolved profile where a partial one is expected.
unfoldable pub as_partial : Profile → ReliabilityProfile
as_partial p = record {
  timeout_ms = some p.timeout_ms;
  retries = some p.retries;
  retry_delay_ms = some p.retry_delay_ms;
  retry_max_delay_ms = some p.retry_max_delay_ms;
  circuit_breaker_threshold = some p.circuit_breaker_threshold;
  circuit_breaker_window_ms = some p.circuit_breaker_window_ms;
  circuit_breaker_min_calls = some p.circuit_breaker_min_calls;
  half_open_probe_interval_ms = some p.half_open_probe_interval_ms;
}

abbrev pub mutation_patterns : List Text
mutation_patterns =
    codes "_create" ∷ codes "_update" ∷ codes "_delete" ∷ codes "_remove" ∷ codes "_write" ∷ []

unfoldable pub is_mutation : Text → Bool
unfolding any ends_with
is_mutation tool_name = any (ends_with tool_name) mutation_patterns

unfoldable pub apply_mutation_default : Text → Profile → Bool → Profile
unfolding is_mutation
apply_mutation_default tool_name profile explicit_retries =
    if is_mutation tool_name && not explicit_retries
    then record profile { retries = 0 }
    else profile
