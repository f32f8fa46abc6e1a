-- ===== src/Tests/RateLimiter.antt =====
-- Runs of src/utils/rate-limiter.ts, with the exact quotient for the product of floats.
use mcp_conductor.Base.{
  ℕ, ◌+◌, ◌-◌, ◌*◌, ◌/◌, ◌≤◌, ◌≡◌, refl, ◌⊎◌, none, some, [], ◌++◌, Text, codes, arith, length,
}
use mcp_conductor.RateLimiter.{
  RateLimitConfig, new_limiter, acquire, process_queue, refill_tokens, granted, waits,
}
use mcp_conductor.RateLimiter.Queue.{process_queue_fifo}
use mcp_conductor.RateLimiter.Steps.{World, after_acquire, acquires, Reach, here, next, start_world}
use mcp_conductor.RateLimiter.Accounts.{Inv, limiter-Inv}
use mcp_conductor.RateLimiter.Rate.{rate_bound}

abbrev exact : ℕ → ℕ → ℕ
exact elapsed rate = elapsed * rate / 1000

exact_at_most : (elapsed rate : ℕ) → exact elapsed rate * 1000 ≤ elapsed * rate
exact_at_most elapsed rate = omega arith

abbrev config : RateLimitConfig
config = record {
  requests_per_second = 10;
  burst_size = some 1;
  on_limit_exceeded = none;
  max_queue_time_ms = none;
}

abbrev server : Text
server = codes "api"

abbrev start : World
start = start_world config server 1000

abbrev first : World
first =
    after_acquire start 1000 (acquire exact start.limiter 1000 1).0
      (acquire exact start.limiter 1000 1).1

abbrev second : World
second =
    after_acquire first 1010 (acquire exact first.limiter 1010 2).0
      (acquire exact first.limiter 1010 2).1

two_requests : Reach exact start second
unfolding new_limiter acquire refill_tokens
two_requests = next (next here (acquires 1000 1 (omega arith))) (acquires 1010 2 (omega arith))

-- The first request takes the only token, and the second waits.
first_granted : (acquire exact start.limiter 1000 1).1 ≡ granted
unfolding acquire new_limiter refill_tokens
first_granted = refl

second_waits : (acquire exact first.limiter 1010 2).1 ≡ waits
unfolding acquire new_limiter refill_tokens
second_waits = refl

limiter-Inv_example : Inv second
limiter-Inv_example = limiter-Inv exact config server 1000 two_requests

rate_bound_example :
    (second.immediate + second.limiter.total_waited) * 1000
    ≤ (1 + second.returned) * 1000 + (second.clock - 1000) * 10
rate_bound_example = rate_bound exact exact_at_most config server 1000 two_requests

process_queue_fifo_example :
    let (r', served) = process_queue exact second.limiter 1100 in
    let full = refill_tokens exact second.limiter 1100 in
    (served ++ r'.waiting ≡ second.limiter.waiting)
    × (length served + r'.tokens ≡ full.tokens)
    × (r'.total_waited ≡ second.limiter.total_waited + length served)
    × ((r'.waiting ≡ []) ⊎ (r'.tokens ≡ 0))
process_queue_fifo_example = process_queue_fifo exact second.limiter 1100
