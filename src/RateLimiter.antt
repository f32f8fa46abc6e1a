-- ===== src/RateLimiter.antt =====
-- src/utils/rate-limiter.ts. A request in the queue is known by the number of its promise. The
-- product `(elapsed / 1000) * requestsPerSecond` is one of floats: its whole part is the parameter
-- `whole_tokens`, of which the theorems on rates assume that it does not exceed the exact quotient.
-- A clock that went back gives an elapsed time of 0, as the source's negative one adds no token.
pub mod Queue
pub mod Steps
pub mod Rate
pub mod Accounts
use mcp_conductor.Base.{
  ℕ, zero, suc, ◌+◌, ◌-◌, ◌*◌, min, Bool, true, false, Option, none, some, List, [], ◌∷◌, ◌++◌, map,
  Text, length, ltb, leb, ◌==◌, or_default, if◌then◌else◌,
}

pub data LimitMode : Type 0 where
  queue reject : LimitMode

-- `RateLimitConfig`
pub record RateLimitConfig : Type 0 where
  pub requests_per_second : ℕ
  pub burst_size : Option ℕ
  pub on_limit_exceeded : Option LimitMode
  pub max_queue_time_ms : Option ℕ

pub record QueuedRequest : Type 0 where
  pub id : ℕ
  pub enqueued_at : ℕ

pub record RateLimiter : Type 0 where
  pub server_name : Text
  pub requests_per_second : ℕ
  pub max_tokens : ℕ
  pub mode : LimitMode
  pub max_queue_time_ms : ℕ
  pub tokens : ℕ
  pub last_refill : ℕ
  pub waiting : List QueuedRequest
  pub is_running : Bool
  pub total_requests : ℕ
  pub total_waited : ℕ
  pub total_rejected : ℕ

-- The constructor; `is_running` stands for the refill timer.
unfoldable pub new_limiter : RateLimitConfig → Text → (now : ℕ) → RateLimiter
new_limiter config server_name now = record {
  server_name = server_name;
  requests_per_second = config.requests_per_second;
  max_tokens = or_default config.burst_size config.requests_per_second;
  mode = or_default config.on_limit_exceeded queue;
  max_queue_time_ms = or_default config.max_queue_time_ms 30_000;
  tokens = or_default config.burst_size config.requests_per_second;
  last_refill = now;
  waiting = [];
  is_running = true;
  total_requests = 0;
  total_waited = 0;
  total_rejected = 0;
}

-- What becomes of a promise of `acquire` at once.
pub data Answer : Type 0 where
  granted waits rejected : Answer

-- The length of the queue at which further requests are rejected.
abbrev pub max_queue_length : ℕ
max_queue_length = 100

-- `release`
unfoldable pub release : RateLimiter → RateLimiter
release r = record r { tokens = min (r.tokens + 1) r.max_tokens }

-- `destroy`: the limiter, and the promises that are rejected.
unfoldable pub destroy : RateLimiter → RateLimiter × List ℕ
destroy r = (record r { waiting = []; is_running = false }, map (λ q. q.id) r.waiting)

-- `enqueue`
unfoldable pub enqueue : RateLimiter → (now id : ℕ) → RateLimiter × Answer
enqueue r now id =
    if leb max_queue_length (length r.waiting)
    then (record r { total_rejected = r.total_rejected + 1 }, rejected)
    else (record r { waiting = r.waiting ++ record { id = id; enqueued_at = now } ∷ [] }, waits)

-- The end of `acquire` when no token is left.
unfoldable pub queue_or_reject : LimitMode → RateLimiter → (now id : ℕ) → RateLimiter × Answer
unfolding enqueue
queue_or_reject reject r now id = (record r { total_rejected = r.total_rejected + 1 }, rejected)
queue_or_reject queue r now id = enqueue r now id

-- `this.queue.splice(index, 1)` at the index that `findIndex` gives, if any.
unfoldable pub splice_out : ℕ → List QueuedRequest → List QueuedRequest
splice_out id [] = []
splice_out id (q ∷ qs) = if q.id == id then qs else q ∷ splice_out id qs

-- The callback of a request's timer.
unfoldable pub queue_timeout : RateLimiter → (id : ℕ) → RateLimiter
unfolding splice_out
queue_timeout r id = record r {
  waiting = splice_out id r.waiting;
  total_rejected = r.total_rejected + 1;
}

pub record Drained : Type 0 where
  pub served : List QueuedRequest
  pub left : List QueuedRequest
  pub spare : ℕ

-- The loop of `processQueue` over the queue and the tokens.
unfoldable pub drain : List QueuedRequest → ℕ → Drained
drain [] tokens = record { served = []; left = []; spare = tokens }
drain (q ∷ qs) zero = record { served = []; left = q ∷ qs; spare = 0 }
drain (q ∷ qs) (suc tokens) = let rest = drain qs tokens in record rest { served = q ∷ rest.served }

module _ (whole_tokens : ℕ → ℕ → ℕ) where
  -- `refillTokens`
  unfoldable pub refill_tokens : RateLimiter → (now : ℕ) → RateLimiter
  refill_tokens r now =
      let added = whole_tokens (now - r.last_refill) r.requests_per_second in
      if leb 1 added
      then record r { tokens = min (r.tokens + added) r.max_tokens; last_refill = now }
      else r

  -- `tryAcquire`
  unfoldable pub try_acquire : RateLimiter → (now : ℕ) → RateLimiter × Bool
  try_acquire r now =
      let r' = refill_tokens r now in
      if leb 1 r'.tokens then (record r' { tokens = r'.tokens - 1 }, true) else (r', false)

  -- `acquire`
  unfoldable pub acquire : RateLimiter → (now id : ℕ) → RateLimiter × Answer
  unfolding try_acquire queue_or_reject
  acquire r now id =
      let (r', acquired) = try_acquire (record r { total_requests = r.total_requests + 1 }) now in
      if acquired then (r', granted) else queue_or_reject r'.mode r' now id

  -- `processQueue`: the limiter, and the promises that are resolved, oldest first.
  unfoldable pub process_queue : RateLimiter → (now : ℕ) → RateLimiter × List QueuedRequest
  process_queue r now =
      let r' = refill_tokens r now in
      let d = drain r'.waiting r'.tokens in
      (
        record r' {
          waiting = d.left;
          tokens = d.spare;
          total_waited = r'.total_waited + length d.served;
        },
        d.served,
      )

pub record RateLimiterStats : Type 0 where
  pub server_name : Text
  pub available_tokens : ℕ
  pub max_tokens : ℕ
  pub requests_per_second : ℕ
  pub queue_length : ℕ
  pub total_requests : ℕ
  pub total_waited : ℕ
  pub total_rejected : ℕ

-- `getStats`
unfoldable pub get_stats : RateLimiter → RateLimiterStats
get_stats r = record {
  server_name = r.server_name;
  available_tokens = r.tokens;
  max_tokens = r.max_tokens;
  requests_per_second = r.requests_per_second;
  queue_length = length r.waiting;
  total_requests = r.total_requests;
  total_waited = r.total_waited;
  total_rejected = r.total_rejected;
}
