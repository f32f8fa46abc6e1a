-- ===== src/Reliability/Breaker/Transitions.antt =====
-- The state machine of src/reliability/breaker.ts.
use mcp_conductor.Base.{
  ℕ, ◌+◌, ◌≤◌, ◌≡◌, refl, true, some, List, [], ◌∷◌, Text, arith, is_some, ltb, if◌then◌else◌, All,
  ◌↔◌,
}
use mcp_conductor.Reliability.Profile.{ReliabilityProfile, closed, opened, half_open}
use mcp_conductor.Reliability.Errors.{returned, threw, circuit_open_error}
use mcp_conductor.Reliability.Breaker.{
  CircuitBreaker, new_breaker, maybe_transition_to_half_open, get_state, allow_call, record_success,
  record_failure, reset, get_stats,
}

-- An open circuit knows when it tripped, and a probe is in flight in the half-open state only.
pub record IsValid (b : CircuitBreaker) : Type 0 where
  pub tripped : b.state ≡ opened → is_some b.last_trip ≡ true
  pub probing : b.probe_in_flight ≡ true → b.state ≡ half_open

-- One call of a method.
pub data Event : Type 0 where
  reads_state : ℕ → Event
  allows : ℕ → Text → Event
  succeeds fails : ℕ → Event
  resets : Event
  reads_stats : ℕ → Event

unfoldable pub step : CircuitBreaker → Event → CircuitBreaker
step b (reads_state now) = (get_state b now).0
step b (allows now tool) = (allow_call b now tool).0
step b (succeeds now) = record_success b now
step b (fails now) = record_failure b now
step b resets = reset b
step b (reads_stats now) = (get_stats b now).0

unfoldable pub run : CircuitBreaker → List Event → CircuitBreaker
run b [] = b
run b (e ∷ es) = run (step b e) es

transition-IsValid :
    (b : CircuitBreaker) (now : ℕ) → IsValid b → IsValid (maybe_transition_to_half_open b now)
unfolding maybe_transition_to_half_open
transition-IsValid b now v = ground arith

step-IsValid : (b : CircuitBreaker) (e : Event) → IsValid b → IsValid (step b e)
unfolding step get_state allow_call record_success record_failure reset get_stats
step-IsValid b (reads_state now) v = ground arith
step-IsValid b (allows now tool) v = ground arith
step-IsValid b (succeeds now) v = ground arith
step-IsValid b (fails now) v = ground arith
step-IsValid b resets v = ground arith
step-IsValid b (reads_stats now) v = ground arith

new_breaker-IsValid : (server : Text) (p : ReliabilityProfile) → IsValid (new_breaker server p)
unfolding new_breaker
new_breaker-IsValid server p = ground arith

run_keeps : (b : CircuitBreaker) (es : List Event) → IsValid b → IsValid (run b es)
unfolding run
run_keeps b [] v = v
run_keeps b (e ∷ es) v = run_keeps (step b e) es (step-IsValid b e v)

-- After any calls of its methods, an open circuit has a time at which it tripped, and a probe is
-- in flight only if the circuit is half-open.
pub run-IsValid :
    (server : Text) (p : ReliabilityProfile) (es : List Event)
    → IsValid (run (new_breaker server p) es)
run-IsValid server p es = run_keeps _ es (new_breaker-IsValid server p)

-- A circuit that tripped at `trip` rejects every call, unchanged, until the probe interval is
-- over, and from then on lets a call through as its probe.
pub opened-allow_call :
    (b : CircuitBreaker) (trip now : ℕ) (tool : Text)
    → b.state ≡ opened
    → b.last_trip ≡ some trip
    → allow_call b now tool ≡ (
        if ltb now (trip + b.half_open_interval_ms)
        then (b, threw (circuit_open_error b.server tool 0))
        else (record b { state = half_open; probe_in_flight = true }, returned tt))
unfolding allow_call
opened-allow_call b trip now tool s t = ground arith

-- The events that record no outcome of a call and do not reset the circuit.
abbrev pub IsPassive : Event → Type 0
IsPassive (succeeds now) = ⊥
IsPassive (fails now) = ⊥
IsPassive resets = ⊥
IsPassive _ = Unit {0}

abbrev pub Probing : CircuitBreaker → Type 0
Probing b = (b.state ≡ half_open) × (b.probe_in_flight ≡ true)

step-Probing : (b : CircuitBreaker) (e : Event) → IsPassive e → Probing b → Probing (step b e)
unfolding step get_state allow_call get_stats
step-Probing b (reads_state now) q p = ground arith
step-Probing b (allows now tool) q p = ground arith
step-Probing b (succeeds now) q p = absurd q
step-Probing b (fails now) q p = absurd q
step-Probing b resets q p = absurd q
step-Probing b (reads_stats now) q p = ground arith

run-Probing :
    (b : CircuitBreaker) (es : List Event) → All IsPassive es → Probing b → Probing (run b es)
unfolding run
run-Probing b [] q p = p
run-Probing b (e ∷ es) q p = run-Probing (step b e) es q.1 (step-Probing b e q.0 p)

admitted-Probing :
    (b : CircuitBreaker) (start : ℕ) (first : Text)
    → ¬ (b.state ≡ closed)
    → (allow_call b start first).1 ≡ returned tt
    → Probing (allow_call b start first).0
unfolding allow_call
admitted-Probing b start first s a = ground (arith, s)

-- When a circuit that is not closed lets a call through, it rejects every other call, however many
-- there are and whenever they come, until an outcome is recorded or the circuit is reset.
pub one_probe :
    (b : CircuitBreaker) (start : ℕ) (first : Text) (es : List Event) (now : ℕ) (tool : Text)
    → ¬ (b.state ≡ closed)
    → (allow_call b start first).1 ≡ returned tt
    → All IsPassive es
    → let b' = run (allow_call b start first).0 es in
      (allow_call b' now tool).1 ≡ threw (circuit_open_error b'.server tool 0)
unfolding allow_call
one_probe b start first es now tool s a q =
    let p = run-Probing (allow_call b start first).0 es q (admitted-Probing b start first s a) in
    ground arith

-- The probe decides: if it succeeds the circuit is closed with an empty window; if it fails the
-- circuit is open again, and rejects calls until the interval from then on is over.
pub probe_decides :
    (b : CircuitBreaker) (now later : ℕ) (tool : Text)
    → Probing b
    → ((record_success b now).state ≡ closed)
      × ((record_success b now).window ≡ [])
      × ((allow_call (record_success b now) later tool).1 ≡ returned tt)
      × ((record_failure b now).state ≡ opened)
      × ((allow_call (record_failure b now) later tool).1 ≡ returned tt
          ↔ now + b.half_open_interval_ms ≤ later)
unfolding record_success record_failure allow_call
probe_decides b now later tool p =
    (ground arith, ground arith, ground arith, ground arith, (λ h. ground arith, λ h. ground arith))

-- The events other than a recorded failure.
abbrev pub IsGood : Event → Type 0
IsGood (fails now) = ⊥
IsGood _ = Unit {0}

step-closed :
    (b : CircuitBreaker) (e : Event) → IsGood e → b.state ≡ closed → (step b e).state ≡ closed
unfolding step get_state allow_call record_success reset get_stats
step-closed b (reads_state now) q p = ground arith
step-closed b (allows now tool) q p = ground arith
step-closed b (succeeds now) q p = ground arith
step-closed b (fails now) q p = absurd q
step-closed b resets q p = refl
step-closed b (reads_stats now) q p = ground arith

-- A closed circuit stays closed as long as no failure is recorded.
pub run-closed :
    (b : CircuitBreaker) (es : List Event)
    → b.state ≡ closed
    → All IsGood es
    → (run b es).state ≡ closed
unfolding run
run-closed b [] p q = p
run-closed b (e ∷ es) p q = run-closed (step b e) es (step-closed b e q.0 p) q.1
