-- ===== src/Reliability/Gateway/Interleaving.antt =====
-- Calls of src/reliability/gateway.ts that overlap: any order of starts, retries, ends, queries and
-- resets at any servers. A world adds to the gateway, for each server, the calls that are under way
-- and those that the circuit rejected.
use mcp_conductor.Base.{
  ℕ, suc, ◌+◌, ◌-◌, ◌≤◌, ◌<◌, ◌≡◌, refl, ◌≢◌, inl, inr, Text, text_eq, text_eq_refl, text_eq-ne,
  Text-cases, lookup, arith, if◌then◌else◌, subst, sym, ◌∙◌, Dict, [], ◌∷◌,
}
use mcp_conductor.Reliability.Errors.{Outcome, returned, threw}
use mcp_conductor.Reliability.Profile.{Profile}
use mcp_conductor.Reliability.Gateway.{
  ReliabilityGateway, MutableStats, accumulator, start_call, count_attempt, end_call,
  get_circuit_state, reset_circuit, count_failure, server_stats, get_stats_from, get_gateway_stats,
  GatewayOptions,
}
use mcp_conductor.Reliability.Gateway.Accounting.{
  start_call-accumulator, count_attempt-accumulator, counted_end, end_call-accumulator,
}
use mcp_conductor.Reliability.Gateway.Frame.{start_call-Agree, count_attempt-Agree, end_call-Agree}

pub record World : Type 0 where
  pub gateway : ReliabilityGateway
  pub waiting : Text → ℕ
  pub rejected : Text → ℕ

abbrev pub bump : (Text → ℕ) → Text → Text → ℕ
bump f s t = if text_eq s t then f t + 1 else f t

abbrev pub drop_one : (Text → ℕ) → Text → Text → ℕ
drop_one f s t = if text_eq s t then f t - 1 else f t

-- The world after the start of a call that was admitted or rejected.
abbrev pub after_start : World → ReliabilityGateway → Text → Outcome Profile → World
after_start w g s (returned p) = record w { gateway = g; waiting = bump w.waiting s }
after_start w g s (threw err) = record w { gateway = g; rejected = bump w.rejected s }

pub data Step {ℓ} (A : Type ℓ) (w : World) : World → Type ℓ where
  starts :
      (now : ℕ) (s tool : Text)
      → Step A w
          (after_start w (start_call w.gateway now s tool).0 s (start_call w.gateway now s tool).1)
  retries :
      (s : Text) (attempt : ℕ)
      → 1 ≤ attempt
      → Step A w (record w { gateway = count_attempt w.gateway s (suc attempt) })
  ends :
      (now : ℕ) (s : Text) (p : Profile) (out : Outcome A)
      → 0 < w.waiting s
      → Step A w (record w {
        gateway = (end_call w.gateway now s p out).0;
        waiting = drop_one w.waiting s;
      })
  queries :
      (now : ℕ) (s : Text) → Step A w (record w { gateway = (get_circuit_state w.gateway now s).0 })
  resets : (s : Text) → Step A w (record w { gateway = reset_circuit w.gateway s })
  snapshots : (now : ℕ) → Step A w (record w { gateway = (get_gateway_stats w.gateway now).0 })

pub data Reach {ℓ} (A : Type ℓ) (w : World) : World → Type ℓ where
  here : Reach A w w
  next : {v u : World} → Reach A w v → Step A v u → Reach A w u

-- Each call of the server is a success, a failure, under way or rejected.
abbrev pub IsBalanced : World → Text → Type 0
IsBalanced w t =
    let a = accumulator w.gateway t in
    a.total_calls ≡ a.successes + a.failures + w.waiting t + w.rejected t

starts_self :
    (w : World) (g : ReliabilityGateway) (s : Text) (out : Outcome Profile)
    → accumulator g s
      ≡ record (accumulator w.gateway s) { total_calls = (accumulator w.gateway s).total_calls + 1 }
    → IsBalanced w s
    → IsBalanced (after_start w g s out) s
starts_self w g s (returned p) e h = ground (arith, text_eq_refl s)
starts_self w g s (threw err) e h = ground (arith, text_eq_refl s)

starts_other :
    (w : World) (g : ReliabilityGateway) (s t : Text) (out : Outcome Profile)
    → s ≢ t
    → accumulator g t ≡ accumulator w.gateway t
    → IsBalanced w t
    → IsBalanced (after_start w g s out) t
starts_other w g s t (returned p) n e h = ground (arith, text_eq-ne s t)
starts_other w g s t (threw err) n e h = ground (arith, text_eq-ne s t)

ends_self {ℓ} :
    {A : Type ℓ} (w : World) (g : ReliabilityGateway) (s : Text) (out : Outcome A)
    → 0 < w.waiting s
    → accumulator g s ≡ counted_end (accumulator w.gateway s) out
    → IsBalanced w s
    → IsBalanced (record w { gateway = g; waiting = drop_one w.waiting s }) s
unfolding count_failure
ends_self w g s (returned a) p e h = ground (arith, text_eq_refl s)
ends_self w g s (threw err) p e h = ground (arith, text_eq_refl s)

ends_other :
    (w : World) (g : ReliabilityGateway) (s t : Text)
    → s ≢ t
    → accumulator g t ≡ accumulator w.gateway t
    → IsBalanced w t
    → IsBalanced (record w { gateway = g; waiting = drop_one w.waiting s }) t
ends_other w g s t n e h = ground (arith, text_eq-ne s t)

-- The circuits are asked or reset without a write to the counters.
accumulator-cong :
    (g g' : ReliabilityGateway) (t : Text) → g'.stats ≡ g.stats → accumulator g' t ≡ accumulator g t
unfolding accumulator
accumulator-cong g g' t e = rw e

queries-stats :
    (g : ReliabilityGateway) (now : ℕ) (s : Text) → (get_circuit_state g now s).0.stats ≡ g.stats
unfolding get_circuit_state
queries-stats g now s = ground arith

resets-stats : (g : ReliabilityGateway) (s : Text) → (reset_circuit g s).stats ≡ g.stats
unfolding reset_circuit
resets-stats g s = ground arith

server-stats :
    (g : ReliabilityGateway) (now : ℕ) (s : Text) (acc : MutableStats)
    → (server_stats g now s acc).0.stats ≡ g.stats
unfolding server_stats
server-stats g now s acc = ground arith

snapshot-stats :
    (g : ReliabilityGateway) (now : ℕ) (l : Dict MutableStats)
    → (get_stats_from g now l).0.stats ≡ g.stats
unfolding get_stats_from
snapshot-stats g now [] = refl
snapshot-stats g now ((s, acc) ∷ l) =
    snapshot-stats (server_stats g now s acc).0 now l ∙ server-stats g now s acc

unchanged :
    (w : World) (g : ReliabilityGateway) (t : Text)
    → accumulator g t ≡ accumulator w.gateway t
    → IsBalanced w t
    → IsBalanced (record w { gateway = g }) t
unchanged w g t e h = ground arith

retries-IsBalanced :
    (w : World) (s t : Text) (attempt : ℕ)
    → 1 ≤ attempt
    → IsBalanced w t
    → IsBalanced (record w { gateway = count_attempt w.gateway s (suc attempt) }) t
retries-IsBalanced w s t attempt k h = elim (Text-cases s t) [
  | inl e ↦
      let at_s : IsBalanced w s = subst (IsBalanced w) (sym e) h in
      subst (IsBalanced (record w { gateway = count_attempt w.gateway s (suc attempt) })) e
        (ground (arith, count_attempt-accumulator w.gateway s attempt k))
  | inr n ↦ unchanged w _ t (count_attempt-Agree s t n w.gateway (suc attempt)).0 h
]

Step-IsBalanced {ℓ} :
    {A : Type ℓ} (w : World) {u : World} (t : Text) → Step A w u → IsBalanced w t → IsBalanced u t
unfolding get_gateway_stats
Step-IsBalanced w t (starts now s tool) h = elim (Text-cases s t) [
  | inl e ↦ subst (IsBalanced (after_start w (start_call w.gateway now s tool).0 s _)) e (
      starts_self w _ s (start_call w.gateway now s tool).1
        (start_call-accumulator w.gateway now s tool) (subst (IsBalanced w) (sym e) h))
  | inr n ↦
      starts_other w _ s t (start_call w.gateway now s tool).1 n
        (start_call-Agree s t n w.gateway now tool).0 h
]
Step-IsBalanced w t (retries s attempt k) h = retries-IsBalanced w s t attempt k h
Step-IsBalanced w t (ends now s p out k) h = elim (Text-cases s t) [
  | inl e ↦
      subst
        (IsBalanced (record w {
          gateway = (end_call w.gateway now s p out).0;
          waiting = drop_one w.waiting s;
        }))
        e
        (ends_self w _ s out k (end_call-accumulator w.gateway now s p out)
          (subst (IsBalanced w) (sym e) h))
  | inr n ↦ ends_other w _ s t n (end_call-Agree s t n w.gateway now p out).0 h
]
Step-IsBalanced w t (queries now s) h =
    unchanged w _ t (accumulator-cong _ _ t (queries-stats w.gateway now s)) h
Step-IsBalanced w t (resets s) h =
    unchanged w _ t (accumulator-cong _ _ t (resets-stats w.gateway s)) h
Step-IsBalanced w t (snapshots now) h =
    unchanged w _ t (accumulator-cong _ _ t (snapshot-stats w.gateway now w.gateway.stats)) h

Reach-IsBalanced {ℓ} :
    {A : Type ℓ} (w : World) {u : World} (t : Text) → Reach A w u → IsBalanced w t → IsBalanced u t
Reach-IsBalanced w t here h = h
Reach-IsBalanced w t (next {v = v} r st) h = Step-IsBalanced v t st (Reach-IsBalanced w t r h)

-- A new gateway, with no call under way or rejected.
abbrev pub start_world : GatewayOptions → World
start_world o = record {
  gateway = record { breakers = []; stats = []; options = o };
  waiting = λ t. 0;
  rejected = λ t. 0;
}

start-IsBalanced : (o : GatewayOptions) (t : Text) → IsBalanced (start_world o) t
unfolding accumulator lookup
start-IsBalanced o t = refl

-- However calls overlap, and whatever circuits are asked or reset in between, the calls counted for
-- a server are its successes, its failures, those under way and those that the circuit rejected.
pub calls_balance {ℓ} :
    {A : Type ℓ} (o : GatewayOptions) {w : World} (t : Text)
    → Reach A (start_world o) w
    → let a = accumulator w.gateway t in
      a.total_calls ≡ a.successes + a.failures + w.waiting t + w.rejected t
calls_balance o t r = Reach-IsBalanced (start_world o) t r (start-IsBalanced o t)
