-- ===== src/RateLimiter/Accounts.antt =====
-- What src/utils/rate-limiter.ts counts, and the bounds of its bucket and its queue.
use mcp_conductor.Base.{
  ℕ, ◌+◌, ◌≤◌, ◌≡◌, true, List, [], ◌∷◌, length, length-append, any, ◌==◌, arith, Text,
}
use mcp_conductor.RateLimiter.{
  RateLimiter, QueuedRequest, RateLimitConfig, new_limiter, release, destroy, queue_timeout,
  splice_out, refill_tokens, acquire, process_queue, max_queue_length,
}
use mcp_conductor.RateLimiter.Queue.{drain-tokens, drain-length, refill_keeps}
use mcp_conductor.RateLimiter.Steps.{
  World, after_acquire, Step, acquires, ticks, releases, expires, destroys, Reach, here, next,
  start_world,
}

pub record Inv (w : World) : Type 0 where
  pub filled : w.limiter.tokens ≤ w.limiter.max_tokens
  pub bounded : length w.limiter.waiting ≤ max_queue_length
  pub counted :
      w.limiter.total_requests
      ≡ w.immediate
        + w.limiter.total_waited
        + w.limiter.total_rejected
        + w.dropped
        + length w.limiter.waiting

splice_out-length :
    (id : ℕ) (qs : List QueuedRequest)
    → any (λ q. q.id == id) qs ≡ true
    → length (splice_out id qs) + 1 ≡ length qs
unfolding splice_out any
splice_out-length id [] h = ground arith
splice_out-length id (q ∷ qs) h = ground (arith, splice_out-length id qs)

module _ (whole_tokens : ℕ → ℕ → ℕ) where
  refill_filled :
      (r : RateLimiter) (now : ℕ)
      → r.tokens ≤ r.max_tokens
      → (refill_tokens whole_tokens r now).tokens ≤ r.max_tokens
  unfolding refill_tokens
  refill_filled r now h = ground arith

  acquires-Inv :
      (w : World) (now id : ℕ)
      → Inv w
      → Inv (
          after_acquire w now
            (acquire whole_tokens w.limiter now id).0
            (acquire whole_tokens w.limiter now id).1)
  unfolding acquire
  acquires-Inv w now id v =
      let r = record (w.limiter) { total_requests = w.limiter.total_requests + 1 } in
      ground (
        arith,
        refill_keeps whole_tokens r now,
        refill_filled r now,
        length-append (refill_tokens whole_tokens r now).waiting
            (record { id = id; enqueued_at = now } ∷ []),
      )

  Step-Inv : (w : World) {u : World} → Step whole_tokens w u → Inv w → Inv u
  unfolding release destroy queue_timeout process_queue
  Step-Inv w (acquires now id le) v = acquires-Inv w now id v
  Step-Inv w (ticks now le) v =
      let full = refill_tokens whole_tokens w.limiter now in
      ground (
        arith,
        refill_keeps whole_tokens w.limiter now,
        refill_filled w.limiter now,
        drain-tokens full.waiting full.tokens,
        drain-length full.waiting full.tokens,
      )
  Step-Inv w releases v = ground arith
  Step-Inv w (expires id h) v = ground (arith, splice_out-length id w.limiter.waiting)
  Step-Inv w destroys v = ground arith

  Reach-Inv : (w : World) {u : World} → Reach whole_tokens w u → Inv w → Inv u
  Reach-Inv w here v = v
  Reach-Inv w (next {v = x} r s) v = Step-Inv x s (Reach-Inv w r v)

start-Inv :
    (config : RateLimitConfig) (server : Text) (now : ℕ) → Inv (start_world config server now)
unfolding new_limiter
start-Inv config server now = ground arith

-- Whatever happens to a limiter, its bucket holds at most `maxTokens` tokens and its queue at most
-- 100 requests, and each request that came is counted once: as granted at once, as granted after a
-- wait, as rejected, as dropped by `destroy`, or as still in the queue.
pub limiter-Inv :
    (whole_tokens : ℕ → ℕ → ℕ) (config : RateLimitConfig) (server : Text) (now : ℕ) {w : World}
    → Reach whole_tokens (start_world config server now) w
    → Inv w
limiter-Inv whole_tokens config server now r =
    Reach-Inv whole_tokens (start_world config server now) r (start-Inv config server now)
