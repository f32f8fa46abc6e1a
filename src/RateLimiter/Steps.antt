-- ===== src/RateLimiter/Steps.antt =====
-- The events that src/utils/rate-limiter.ts answers, in any order and at times that do not fall:
-- requests, rounds of the refill timer, tokens given back, timers of queued requests, and its end.
-- A world adds to the limiter the time of the last event, the requests granted at once, the tokens
-- given back and the requests that `destroy` rejected.
use mcp_conductor.Base.{ℕ, ◌+◌, ◌≤◌, ◌≡◌, true, length, any, ◌==◌}
use mcp_conductor.RateLimiter.{
  RateLimiter, RateLimitConfig, Answer, granted, waits, rejected, new_limiter, release, destroy,
  queue_timeout, acquire, process_queue,
}
use mcp_conductor.Base.{Text}

pub record World : Type 0 where
  pub limiter : RateLimiter
  pub clock : ℕ
  pub immediate : ℕ
  pub returned : ℕ
  pub dropped : ℕ

abbrev pub count_granted : Answer → ℕ → ℕ
count_granted granted n = n + 1
count_granted waits n = n
count_granted rejected n = n

abbrev pub after_acquire : World → ℕ → RateLimiter → Answer → World
after_acquire w now r a = record w {
  limiter = r;
  clock = now;
  immediate = count_granted a w.immediate;
}

pub data Step (whole_tokens : ℕ → ℕ → ℕ) (w : World) : World → Type 0 where
  acquires :
      (now id : ℕ)
      → w.clock ≤ now
      → Step whole_tokens w (
          after_acquire w now
            (acquire whole_tokens w.limiter now id).0
            (acquire whole_tokens w.limiter now id).1)
  ticks :
      (now : ℕ)
      → w.clock ≤ now
      → Step whole_tokens w
          (record w { limiter = (process_queue whole_tokens w.limiter now).0; clock = now })
  releases :
      Step whole_tokens w (record w { limiter = release w.limiter; returned = w.returned + 1 })
  expires :
      (id : ℕ)
      → any (λ q. q.id == id) w.limiter.waiting ≡ true
      → Step whole_tokens w (record w { limiter = queue_timeout w.limiter id })
  destroys :
      Step whole_tokens w (record w {
        limiter = (destroy w.limiter).0;
        dropped = w.dropped + length w.limiter.waiting;
      })

pub data Reach (whole_tokens : ℕ → ℕ → ℕ) (w : World) : World → Type 0 where
  here : Reach whole_tokens w w
  next : {v u : World} → Reach whole_tokens w v → Step whole_tokens v u → Reach whole_tokens w u

abbrev pub start_world : RateLimitConfig → Text → ℕ → World
start_world config server now = record {
  limiter = new_limiter config server now;
  clock = now;
  immediate = 0;
  returned = 0;
  dropped = 0;
}
