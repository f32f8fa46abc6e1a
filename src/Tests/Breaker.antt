-- ===== src/Tests/Breaker.antt =====
-- Runs of src/reliability/breaker.ts.
use mcp_conductor.Base.{
  ◌+◌, ◌*◌, ◌≤◌, ◌<◌, ◌≡◌, refl, ◌↔◌, true, false, none, some, List, [], ◌∷◌, ◌++◌, Text, codes,
  arith, length, keep, ltb, if◌then◌else◌,
}
use mcp_conductor.Reliability.Profile.{ReliabilityProfile, closed, opened, half_open}
use mcp_conductor.Reliability.Errors.{returned, threw, circuit_open_error}
use mcp_conductor.Reliability.Breaker.{
  CallRecord, CircuitBreaker, new_breaker, allow_call, record_success, record_failure, get_stats,
  is_recent, failures_of,
}
use mcp_conductor.Reliability.Breaker.Transitions.{
  IsValid, allows, succeeds, fails, reads_state, step, run, run-IsValid, opened-allow_call,
  one_probe, probe_decides, run-closed,
}
use mcp_conductor.Reliability.Breaker.Window.{
  Tracks, feed, feed_one, Rises, feed-Tracks, trip_by_history, get_stats-sum,
}

abbrev server : Text
server = codes "db"

abbrev tool : Text
tool = codes "query"

-- Two calls are enough to trip.
abbrev profile : ReliabilityProfile
profile = record {
  timeout_ms = none;
  retries = none;
  retry_delay_ms = none;
  retry_max_delay_ms = none;
  circuit_breaker_threshold = some (record { num = 1; den = 2 });
  circuit_breaker_window_ms = some 100;
  circuit_breaker_min_calls = some 2;
  half_open_probe_interval_ms = some 50;
}

abbrev quiet : CircuitBreaker
quiet = record {
  state = closed;
  window = [];
  last_trip = none;
  probe_in_flight = false;
  threshold = record { num = 1; den = 2 };
  window_ms = 100;
  min_calls = 2;
  half_open_interval_ms = 50;
  server = server;
}

quiet_new : new_breaker server profile ≡ quiet
unfolding new_breaker
quiet_new = refl

abbrev tripped : CircuitBreaker
tripped = record quiet { state = opened; last_trip = some 20 }

abbrev probing : CircuitBreaker
probing = record tripped { state = half_open; probe_in_flight = true }

-- A failure at 10 and one at 20 trip the circuit; at 70 a probe is let through.
tripping : (run quiet (fails 10 ∷ fails 20 ∷ [])).state ≡ opened
unfolding run step record_failure
tripping = refl

run-IsValid_example :
    IsValid (run (new_breaker server profile) (fails 10 ∷ fails 20 ∷ allows 70 tool ∷ []))
run-IsValid_example = run-IsValid server profile (fails 10 ∷ fails 20 ∷ allows 70 tool ∷ [])

opened-allow_call_example : allow_call tripped 70 tool ≡ (
    if ltb 70 (20 + 50)
    then (tripped, threw (circuit_open_error server tool 0))
    else (record tripped { state = half_open; probe_in_flight = true }, returned tt))
opened-allow_call_example = opened-allow_call tripped 20 70 tool refl refl

tripped_not_closed : ¬ (tripped.state ≡ closed)
tripped_not_closed e = ground arith

tripped_admits : (allow_call tripped 70 tool).1 ≡ returned tt
unfolding allow_call
tripped_admits = refl

one_probe_example :
    let b' = run (allow_call tripped 70 tool).0 (allows 71 tool ∷ reads_state 72 ∷ []) in
    (allow_call b' 500 tool).1 ≡ threw (circuit_open_error b'.server tool 0)
one_probe_example =
    one_probe tripped 70 tool (allows 71 tool ∷ reads_state 72 ∷ []) 500 tool tripped_not_closed
      tripped_admits (tt, (tt, tt))

probe_decides_example :
    ((record_success probing 80).state ≡ closed)
    × ((record_success probing 80).window ≡ [])
    × ((allow_call (record_success probing 80) 90 tool).1 ≡ returned tt)
    × ((record_failure probing 80).state ≡ opened)
    × ((allow_call (record_failure probing 80) 90 tool).1 ≡ returned tt ↔ 80 + 50 ≤ 90)
probe_decides_example = probe_decides probing 80 90 tool (refl, refl)

run-closed_example : (run quiet (succeeds 1 ∷ allows 2 tool ∷ [])).state ≡ closed
run-closed_example = run-closed quiet (succeeds 1 ∷ allows 2 tool ∷ []) refl (tt, (tt, tt))

-- The first of these calls is out of the window at 120.
abbrev history : List CallRecord
history = record { ts = 10; success = false } ∷ record { ts = 60; success = true } ∷ []

history-Rises : Rises 0 history 60
unfolding Rises
history-Rises = omega arith

history_closed : (feed (new_breaker server profile) history).state ≡ closed
unfolding feed feed_one record_success record_failure new_breaker
history_closed = refl

trip_by_history_example :
    let b = feed (new_breaker server profile) history in
    let w =
      keep (is_recent b.window_ms 120) (history ++ record { ts = 120; success = false } ∷ []) in
    ((record_failure b 120).state ≡ opened)
    ↔ ((b.min_calls ≤ length w) × (b.threshold.num * length w < failures_of w * b.threshold.den))
trip_by_history_example =
    trip_by_history server profile history 60 120 history-Rises (omega arith) history_closed

quiet_not_half_open : ¬ (quiet.state ≡ half_open)
quiet_not_half_open e = ground arith

quiet-Tracks : Tracks quiet [] 0
unfolding Tracks keep
quiet-Tracks = refl

feed-Tracks_example : Tracks (feed quiet history) history 60
feed-Tracks_example =
    feed-Tracks quiet [] history 0 60 quiet_not_half_open quiet-Tracks history-Rises

get_stats-sum_example :
    let s = (get_stats tripped 130).1 in
    (s.successes + s.failures ≡ s.total_calls)
    × (s.total_calls ≡ length (keep (is_recent 100 130) tripped.window))
get_stats-sum_example = get_stats-sum tripped 130
