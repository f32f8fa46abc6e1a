-- ===== src/Reliability/Gateway/Stores.antt =====
-- Reads after writes of the two maps of src/reliability/gateway.ts.
use mcp_conductor.Base.{
  ◌≡◌, refl, ◌≢◌, some, Text, text_eq_iff, text_eq_refl, lookup, lookup-insert, arith,
}
use mcp_conductor.Reliability.Breaker.{CircuitBreaker}
use mcp_conductor.Reliability.Gateway.{
  ReliabilityGateway, MutableStats, accumulator, set_breaker, set_stats,
}

module _ (g : ReliabilityGateway) (s : Text) where
  pub accumulator-set_stats : (acc : MutableStats) → accumulator (set_stats g s acc) s ≡ acc
  unfolding accumulator set_stats
  accumulator-set_stats acc = rw (lookup-insert s s acc g.stats, text_eq_refl s)

  pub accumulator-set_breaker :
      (t : Text) (b : CircuitBreaker) → accumulator (set_breaker g s b) t ≡ accumulator g t
  unfolding accumulator set_breaker
  accumulator-set_breaker t b = refl

  pub accumulator-set_stats_ne :
      (t : Text) (acc : MutableStats) → s ≢ t → accumulator (set_stats g s acc) t ≡ accumulator g t
  unfolding accumulator set_stats
  accumulator-set_stats_ne t acc n =
      rw (lookup-insert s t acc g.stats) (ground (arith, text_eq_iff s t))

  pub lookup-set_stats :
      (t : Text) (acc : MutableStats) → lookup t (set_stats g s acc).breakers ≡ lookup t g.breakers
  unfolding set_stats
  lookup-set_stats t acc = refl

  pub lookup-set_breaker_ne :
      (t : Text) (b : CircuitBreaker)
      → s ≢ t
      → lookup t (set_breaker g s b).breakers ≡ lookup t g.breakers
  unfolding set_breaker
  lookup-set_breaker_ne t b n =
      rw (lookup-insert s t b g.breakers) (ground (arith, text_eq_iff s t))

  pub lookup-set_breaker : (b : CircuitBreaker) → lookup s (set_breaker g s b).breakers ≡ some b
  unfolding set_breaker
  lookup-set_breaker b = rw (lookup-insert s s b g.breakers, text_eq_refl s)

pub ruleset stores =
    (accumulator-set_stats, accumulator-set_breaker, lookup-set_stats, lookup-set_breaker)
