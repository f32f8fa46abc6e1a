-- ===== src/Reliability/Breaker.antt =====
-- src/reliability/breaker.ts. Every method takes the time that `Date.now()` gives while it runs.
-- `ts >= now - windowMs` and the like are written with the subtraction on the other side, where the
-- source's numbers may be negative and these are not. The state 'open' is `opened`.
pub mod Transitions
pub mod Window
use mcp_conductor.Base.{
  ℕ, ◌+◌, ◌*◌, Bool, true, false, not, ◌&&◌, Option, none, some, List, [], ◌∷◌, ◌++◌, Text, length,
  keep, ltb, leb, or_default, if◌then◌else◌,
}
use mcp_conductor.Reliability.Profile.{
  Ratio, ReliabilityProfile, CircuitState, closed, opened, half_open, default_profile,
}
use mcp_conductor.Reliability.Errors.{Outcome, returned, threw, circuit_open_error}

pub record CallRecord : Type 0 where
  pub ts : ℕ
  pub success : Bool

pub record BreakerStats : Type 0 where
  pub state : CircuitState
  pub total_calls : ℕ
  pub successes : ℕ
  pub failures : ℕ
  pub last_trip : Option ℕ

pub record CircuitBreaker : Type 0 where
  pub state : CircuitState
  pub window : List CallRecord
  pub last_trip : Option ℕ
  pub probe_in_flight : Bool
  pub threshold : Ratio
  pub window_ms : ℕ
  pub min_calls : ℕ
  pub half_open_interval_ms : ℕ
  pub server : Text

-- The constructor.
unfoldable pub new_breaker : Text → ReliabilityProfile → CircuitBreaker
new_breaker server profile = record {
  state = closed;
  window = [];
  last_trip = none;
  probe_in_flight = false;
  threshold =
      or_default profile.circuit_breaker_threshold default_profile.circuit_breaker_threshold;
  window_ms =
      or_default profile.circuit_breaker_window_ms default_profile.circuit_breaker_window_ms;
  min_calls =
      or_default profile.circuit_breaker_min_calls default_profile.circuit_breaker_min_calls;
  half_open_interval_ms =
      or_default profile.half_open_probe_interval_ms default_profile.half_open_probe_interval_ms;
  server = server;
}

-- `ts >= now - windowMs`
unfoldable pub is_recent : (window_ms now : ℕ) → CallRecord → Bool
is_recent window_ms now r = leb now (r.ts + window_ms)

-- `_pruneWindow`
unfoldable pub prune_window : CircuitBreaker → ℕ → CircuitBreaker
unfolding is_recent keep
prune_window b now = record b { window = keep (is_recent b.window_ms now) b.window }

abbrev pub failures_of : List CallRecord → ℕ
failures_of w = length (keep (λ r. not r.success) w)

abbrev pub successes_of : List CallRecord → ℕ
successes_of w = length (keep (λ r. r.success) w)

-- `failures / length > threshold`, multiplied out; a window of no calls gives NaN, and false.
unfoldable pub exceeds : Ratio → (failures total : ℕ) → Bool
exceeds t failures total = ltb (t.num * total) (failures * t.den)

-- `_maybeTrip`
unfoldable pub maybe_trip : CircuitBreaker → ℕ → CircuitBreaker
unfolding exceeds
maybe_trip b now =
    if ltb (length b.window) b.min_calls
    then b
    else if exceeds b.threshold (failures_of b.window) (length b.window)
    then record b { state = opened; last_trip = some now }
    else b

-- The two tests of `_maybeTransitionToHalfOpen`.
unfoldable pub is_probe_due : CircuitState → Option ℕ → ℕ → ℕ → Bool
is_probe_due opened (some trip) interval now = leb (trip + interval) now
is_probe_due _ _ interval now = false

-- `_maybeTransitionToHalfOpen`
unfoldable pub maybe_transition_to_half_open : CircuitBreaker → ℕ → CircuitBreaker
unfolding is_probe_due
maybe_transition_to_half_open b now =
    if is_probe_due b.state b.last_trip b.half_open_interval_ms now
    then record b { state = half_open; probe_in_flight = false }
    else b

unfoldable pub get_state : CircuitBreaker → ℕ → CircuitBreaker × CircuitState
unfolding maybe_transition_to_half_open
get_state b now = let b' = maybe_transition_to_half_open b now in (b', b'.state)

-- `allowCall` after the transition.
unfoldable pub admit : CircuitState → CircuitBreaker → Text → CircuitBreaker × Outcome (Unit {0})
admit closed b tool = (b, returned tt)
admit opened b tool = (b, threw (circuit_open_error b.server tool 0))
admit half_open b tool =
    if b.probe_in_flight
    then (b, threw (circuit_open_error b.server tool 0))
    else (record b { probe_in_flight = true }, returned tt)

unfoldable pub allow_call : CircuitBreaker → ℕ → Text → CircuitBreaker × Outcome (Unit {0})
unfolding maybe_transition_to_half_open admit
allow_call b now tool = let b' = maybe_transition_to_half_open b now in admit b'.state b' tool

-- `this.window.push(...)` on the pruned window.
unfoldable pub push_record : CircuitBreaker → ℕ → Bool → CircuitBreaker
unfolding prune_window
push_record b now success = record b {
  window = (prune_window b now).window ++ record { ts = now; success = success } ∷ [];
}

-- The end of `recordSuccess`.
unfoldable pub close_on_success : CircuitState → CircuitBreaker → CircuitBreaker
close_on_success half_open b = record b { probe_in_flight = false; state = closed; window = [] }
close_on_success _ b = b

unfoldable pub record_success : CircuitBreaker → ℕ → CircuitBreaker
unfolding push_record close_on_success
record_success b now = close_on_success b.state (push_record b now true)

-- The end of `recordFailure`.
unfoldable pub reopen_or_trip : CircuitState → CircuitBreaker → ℕ → CircuitBreaker
unfolding maybe_trip
reopen_or_trip half_open b now = record b {
  probe_in_flight = false;
  state = opened;
  last_trip = some now;
}
reopen_or_trip closed b now = maybe_trip b now
reopen_or_trip opened b now = b

unfoldable pub record_failure : CircuitBreaker → ℕ → CircuitBreaker
unfolding push_record reopen_or_trip
record_failure b now = reopen_or_trip b.state (push_record b now false) now

unfoldable pub reset : CircuitBreaker → CircuitBreaker
reset b = record b { state = closed; window = []; last_trip = none; probe_in_flight = false }

-- `getStats`: the counts come from the pruned window, the state from `getState`.
unfoldable pub get_stats : CircuitBreaker → ℕ → CircuitBreaker × BreakerStats
unfolding prune_window get_state
get_stats b now =
    let b' = prune_window b now in
    let (b'', state) = get_state b' now in
    (
      b'',
      record {
        state = state;
        total_calls = length b''.window;
        successes = successes_of b'.window;
        failures = failures_of b'.window;
        last_trip = b''.last_trip;
      },
    )
