-- ===== src/RateLimiter/Queue.antt =====
-- The order in which src/utils/rate-limiter.ts serves its queue.
use mcp_conductor.Base.{
  ℕ, zero, suc, ◌+◌, ◌≡◌, refl, ap, ◌∙◌, ◌⊎◌, inl, inr, List, [], ◌∷◌, ◌++◌, length, arith,
}
use mcp_conductor.RateLimiter.{RateLimiter, QueuedRequest, drain, refill_tokens, process_queue}

pub drain-split :
    (qs : List QueuedRequest) (tokens : ℕ) → (drain qs tokens).served ++ (drain qs tokens).left ≡ qs
unfolding drain
drain-split [] tokens = refl
drain-split (q ∷ qs) zero = refl
drain-split (q ∷ qs) (suc tokens) = ap (◌∷◌ q) (drain-split qs tokens)

pub drain-tokens :
    (qs : List QueuedRequest) (tokens : ℕ)
    → length (drain qs tokens).served + (drain qs tokens).spare ≡ tokens
unfolding drain
drain-tokens [] tokens = omega arith
drain-tokens (q ∷ qs) zero = refl
drain-tokens (q ∷ qs) (suc tokens) = omega (arith, drain-tokens qs tokens)

pub drain-length :
    (qs : List QueuedRequest) (tokens : ℕ)
    → length (drain qs tokens).served + length (drain qs tokens).left ≡ length qs
unfolding drain
drain-length [] tokens = refl
drain-length (q ∷ qs) zero = omega arith
drain-length (q ∷ qs) (suc tokens) = omega (arith, drain-length qs tokens)

drain_idle :
    (qs : List QueuedRequest) (tokens : ℕ)
    → ((drain qs tokens).left ≡ []) ⊎ ((drain qs tokens).spare ≡ 0)
unfolding drain
drain_idle [] tokens = inl refl
drain_idle (q ∷ qs) zero = inr refl
drain_idle (q ∷ qs) (suc tokens) = drain_idle qs tokens

pub refill_keeps :
    (whole_tokens : ℕ → ℕ → ℕ) (r : RateLimiter) (now : ℕ)
    → let r' = refill_tokens whole_tokens r now in
      (r'.waiting ≡ r.waiting)
      × (r'.total_requests ≡ r.total_requests)
      × (r'.total_waited ≡ r.total_waited)
      × (r'.total_rejected ≡ r.total_rejected)
      × (r'.max_tokens ≡ r.max_tokens)
      × (r'.requests_per_second ≡ r.requests_per_second)
      × (r'.mode ≡ r.mode)
unfolding refill_tokens
refill_keeps whole_tokens r now = ground arith

-- A round of the timer resolves the requests at the front of the queue, oldest first, one for each
-- token, and leaves the others in their order; afterwards the queue or the bucket is empty.
pub process_queue_fifo :
    (whole_tokens : ℕ → ℕ → ℕ) (r : RateLimiter) (now : ℕ)
    → let (r', served) = process_queue whole_tokens r now in
      let full = refill_tokens whole_tokens r now in
      (served ++ r'.waiting ≡ r.waiting)
      × (length served + r'.tokens ≡ full.tokens)
      × (r'.total_waited ≡ r.total_waited + length served)
      × ((r'.waiting ≡ []) ⊎ (r'.tokens ≡ 0))
unfolding process_queue
process_queue_fifo whole_tokens r now =
    let full = refill_tokens whole_tokens r now in
    let kept = refill_keeps whole_tokens r now in
    (
      drain-split full.waiting full.tokens ∙ kept.0,
      drain-tokens full.waiting full.tokens,
      ap (λ (n : ℕ). n + length (drain full.waiting full.tokens).served) kept.2,
      drain_idle full.waiting full.tokens,
    )
