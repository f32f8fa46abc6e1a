-- ===== src/RateLimiter/Rate.antt =====
-- The rate that src/utils/rate-limiter.ts lets through.
use mcp_conductor.Base.{ℕ, ◌+◌, ◌-◌, ◌*◌, ◌≤◌, ◌≡◌, ap, arith, Text, or_default}
use mcp_conductor.RateLimiter.{
  RateLimiter, RateLimitConfig, new_limiter, release, destroy, queue_timeout, refill_tokens,
  acquire, process_queue,
}
use mcp_conductor.RateLimiter.Steps.{
  World, after_acquire, Step, acquires, ticks, releases, expires, destroys, Reach, here, next,
  start_world,
}
use mcp_conductor.RateLimiter.Queue.{drain-tokens, refill_keeps}

-- The bucket between two reads of the clock: nothing but the passing of time fills it.
mul_split : (rate t now : ℕ) → t ≤ now → rate * t + (now - t) * rate ≡ rate * now
mul_split rate t now h =
    let d = now - t in
    let e : now ≡ t + d = omega arith in omega (arith, ap (λ (x : ℕ). rate * x) e)

module _ (whole_tokens : ℕ → ℕ → ℕ)
    (at_most : (elapsed rate : ℕ) → whole_tokens elapsed rate * 1000 ≤ elapsed * rate) where
  refill_bound :
      (r : RateLimiter) (now : ℕ)
      → r.last_refill ≤ now
      → let r' = refill_tokens whole_tokens r now in
        (r'.tokens * 1000 + r.requests_per_second * r.last_refill
          ≤ r.tokens * 1000 + r.requests_per_second * r'.last_refill)
        × (r'.last_refill ≤ now)
  unfolding refill_tokens
  refill_bound r now h = ground (
    arith,
    at_most (now - r.last_refill) r.requests_per_second,
    mul_split r.requests_per_second r.last_refill now h,
  )

-- What a limiter made at `start` with a bucket of `cap` tokens and this rate has granted so far.
record IsWithin (cap rate start : ℕ) (w : World) : Type 0 where
  same_cap : w.limiter.max_tokens ≡ cap
  same_rate : w.limiter.requests_per_second ≡ rate
  refilled : w.limiter.last_refill ≤ w.clock
  begun : start ≤ w.clock
  within :
      (w.immediate + w.limiter.total_waited + w.limiter.tokens) * 1000 + rate * start
      ≤ (cap + w.returned) * 1000 + rate * w.limiter.last_refill

module _ (whole_tokens : ℕ → ℕ → ℕ)
    (at_most : (elapsed rate : ℕ) → whole_tokens elapsed rate * 1000 ≤ elapsed * rate)
    (cap rate start : ℕ) where
  acquires-IsWithin :
      (w : World) (now id : ℕ)
      → w.clock ≤ now
      → IsWithin cap rate start w
      → IsWithin cap rate start (
          after_acquire w now
            (acquire whole_tokens w.limiter now id).0
            (acquire whole_tokens w.limiter now id).1)
  unfolding acquire
  acquires-IsWithin w now id le v =
      let r = record (w.limiter) { total_requests = w.limiter.total_requests + 1 } in
      ground (
        arith,
        refill_keeps whole_tokens r now,
        refill_bound whole_tokens at_most r now,
        v.same_rate,
      )

  Step-IsWithin :
      (w : World) {u : World}
      → Step whole_tokens w u
      → IsWithin cap rate start w
      → IsWithin cap rate start u
  unfolding release destroy queue_timeout process_queue
  Step-IsWithin w (acquires now id le) v = acquires-IsWithin w now id le v
  Step-IsWithin w (ticks now le) v =
      let full = refill_tokens whole_tokens w.limiter now in
      ground (
        arith,
        refill_keeps whole_tokens w.limiter now,
        refill_bound whole_tokens at_most w.limiter now,
        drain-tokens full.waiting full.tokens,
      )
  Step-IsWithin w releases v = ground arith
  Step-IsWithin w (expires id h) v = ground arith
  Step-IsWithin w destroys v = ground arith

  Reach-IsWithin :
      (w : World) {u : World}
      → Reach whole_tokens w u
      → IsWithin cap rate start w
      → IsWithin cap rate start u
  Reach-IsWithin w here v = v
  Reach-IsWithin w (next {v = x} r s) v = Step-IsWithin x s (Reach-IsWithin w r v)

start-IsWithin :
    (config : RateLimitConfig) (server : Text) (now : ℕ)
    → IsWithin
        (or_default config.burst_size config.requests_per_second)
        config.requests_per_second
        now
        (start_world config server now)
unfolding new_limiter
start-IsWithin config server now = ground arith

mul_mono : (rate a b : ℕ) → a ≤ b → rate * a ≤ rate * b
mul_mono rate a b h = grind arith

-- A limiter never grants more requests, at once or after a wait, than its burst, the tokens given
-- back to it, and the time since it was made multiplied by its rate; provided that the whole part
-- of the product of floats is at most the exact quotient.
pub rate_bound :
    (whole_tokens : ℕ → ℕ → ℕ)
    → ((elapsed rate : ℕ) → whole_tokens elapsed rate * 1000 ≤ elapsed * rate)
    → (config : RateLimitConfig) (server : Text) (start : ℕ) {w : World}
    → Reach whole_tokens (start_world config server start) w
    → (w.immediate + w.limiter.total_waited) * 1000
      ≤ (or_default config.burst_size config.requests_per_second + w.returned) * 1000
        + (w.clock - start) * config.requests_per_second
rate_bound whole_tokens at_most config server start {w} r =
    let rate = config.requests_per_second in
    let v =
      Reach-IsWithin whole_tokens at_most _ rate start (start_world config server start) r
        (start-IsWithin config server start) in
    omega (
      arith,
      v.within,
      mul_mono rate w.limiter.last_refill w.clock v.refilled,
      mul_split rate start w.clock v.begun,
    )
