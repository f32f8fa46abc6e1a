-- ===== src/Reliability/Gateway/Frame.antt =====
-- The counters and circuits of src/reliability/gateway.ts at the servers that a call is not for.
use mcp_conductor.Base.{ℕ, zero, suc, ◌≡◌, refl, ◌≢◌, inl, inr, Text, lookup, Bool-cases, ◌∙◌, ltb}
use mcp_conductor.Reliability.Errors.{Outcome, returned, threw}
use mcp_conductor.Reliability.Profile.{Profile}
use mcp_conductor.Reliability.Timeout.{Behavior}
use mcp_conductor.Reliability.Breaker.{CircuitBreaker}
use mcp_conductor.Reliability.Gateway.Stores.{
  accumulator-set_breaker, accumulator-set_stats_ne, lookup-set_stats, lookup-set_breaker_ne,
}
use mcp_conductor.Reliability.Gateway.{
  ReliabilityGateway, MutableStats, accumulator, set_breaker, set_stats, count_call, start_call,
  count_attempt, count_attempts, end_call, run_call, call,
}

-- Two gateways agree on the counters and the circuit of a server.
abbrev pub Agree : Text → ReliabilityGateway → ReliabilityGateway → Type 0
Agree t g g' = (accumulator g' t ≡ accumulator g t) × (lookup t g'.breakers ≡ lookup t g.breakers)

Agree-trans : (t : Text) (a b c : ReliabilityGateway) → Agree t a b → Agree t b c → Agree t a c
Agree-trans t a b c p q = (q.0 ∙ p.0, q.1 ∙ p.1)

module _ (s t : Text) (n : s ≢ t) where
  set_stats-Agree : (g : ReliabilityGateway) (acc : MutableStats) → Agree t g (set_stats g s acc)
  set_stats-Agree g acc = (accumulator-set_stats_ne g s t acc n, lookup-set_stats g s t acc)

  set_breaker-Agree : (g : ReliabilityGateway) (b : CircuitBreaker) → Agree t g (set_breaker g s b)
  set_breaker-Agree g b = (accumulator-set_breaker g s t b, lookup-set_breaker_ne g s t b n)

  pub start_call-Agree :
      (g : ReliabilityGateway) (now : ℕ) (tool : Text) → Agree t g (start_call g now s tool).0
  unfolding start_call count_call
  start_call-Agree g now tool =
      Agree-trans t _ _ _ (set_stats-Agree g _) (set_breaker-Agree (count_call g s) _)

  pub count_attempt-Agree :
      (g : ReliabilityGateway) (attempt : ℕ) → Agree t g (count_attempt g s attempt)
  unfolding count_attempt
  count_attempt-Agree g attempt = elim (Bool-cases (ltb 1 attempt)) [
    | inl e ↦ rw e (set_stats-Agree g _)
    | inr e ↦ rw e (refl, refl)
  ]

  count_attempts-Agree :
      (g : ReliabilityGateway) (n attempt : ℕ) → Agree t g (count_attempts g s n attempt)
  unfolding count_attempts
  count_attempts-Agree g zero attempt = (refl, refl)
  count_attempts-Agree g (suc n) attempt =
      Agree-trans t _ _ _ (count_attempt-Agree g attempt)
        (count_attempts-Agree (count_attempt g s attempt) n (suc attempt))

  pub end_call-Agree {ℓ} :
      {A : Type ℓ} (g : ReliabilityGateway) (now : ℕ) (p : Profile) (out : Outcome A)
      → Agree t g (end_call g now s p out).0
  unfolding end_call
  end_call-Agree g now p (returned a) =
      Agree-trans t _ _ _ (set_breaker-Agree g _) (set_stats-Agree _ _)
  end_call-Agree g now p (threw err) =
      Agree-trans t _ _ _ (set_breaker-Agree g _) (set_stats-Agree _ _)

  run_call-Agree {ℓ} :
      {A : Type ℓ} (g : ReliabilityGateway) (now : ℕ) (tool : Text) (fn : ℕ → Behavior A)
      (started : Outcome Profile)
      → Agree t g (run_call g now s tool fn started).0
  unfolding run_call
  run_call-Agree g now tool fn (threw err) = (refl, refl)
  run_call-Agree g now tool fn (returned p) =
      Agree-trans t _ _ _ (count_attempts-Agree g _ _) (end_call-Agree _ _ _ _)

-- A call leaves the counters and the circuit of every other server as they were.
pub call-Agree {ℓ} :
    {A : Type ℓ} (g : ReliabilityGateway) (now : ℕ) (s tool : Text) (fn : ℕ → Behavior A) (t : Text)
    → s ≢ t
    → Agree t g (call g now s tool fn).0
unfolding call
call-Agree g now s tool fn t n =
    Agree-trans t _ _ _ (start_call-Agree s t n g now tool)
      (run_call-Agree s t n (start_call g now s tool).0 now tool fn (start_call g now s tool).1)
