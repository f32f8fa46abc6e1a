-- ===== src/Reliability/Breaker/Window.antt =====
-- The rolling window of src/reliability/breaker.ts against the whole history of recorded calls.
use mcp_conductor.Base.{
  ℕ, ◌+◌, ◌*◌, ◌≤◌, ◌<◌, ◌≡◌, refl, subst, ◌↔◌, Bool, false, List, [], ◌∷◌, ◌++◌, arith, Text,
  length, keep, length-keep_split, keep-append, if◌then◌else◌, ◌≢◌,
}
use mathlib.Core.List.{append_assoc, append-nil}
use mcp_conductor.Reliability.Profile.{ReliabilityProfile, closed, opened, half_open}
use mcp_conductor.Reliability.Breaker.{
  CallRecord, CircuitBreaker, new_breaker, is_recent, prune_window, failures_of, push_record,
  record_success, record_failure, get_stats,
}

-- Pruning at a time and again later is pruning once.
keep_recent_twice :
    (w t now : ℕ) (h : List CallRecord)
    → t ≤ now
    → keep (is_recent w now) (keep (is_recent w t) h) ≡ keep (is_recent w now) h
unfolding keep is_recent
keep_recent_twice w t now [] le = refl
keep_recent_twice w t now (r ∷ h) le = ground (arith, keep_recent_twice w t now h)

-- The window holds the calls of the history `h` that were recent at the time `t`.
unfoldable pub Tracks : CircuitBreaker → List CallRecord → ℕ → Type 0
Tracks b h t = b.window ≡ keep (is_recent b.window_ms t) h

push-Tracks :
    (b : CircuitBreaker) (h : List CallRecord) (t now : ℕ) (s : Bool)
    → t ≤ now
    → Tracks b h t
    → (push_record b now s).window
      ≡ keep (is_recent b.window_ms now) (h ++ record { ts = now; success = s } ∷ [])
unfolding push_record Tracks is_recent keep
push-Tracks b h t now s le e =
    rw (keep-append (is_recent b.window_ms now) h, e, keep_recent_twice b.window_ms t now h le)
      (ground arith)

-- The outcome of one call, recorded by the method that the gateway calls.
unfoldable pub feed_one : CircuitBreaker → CallRecord → CircuitBreaker
feed_one b r = if r.success then record_success b r.ts else record_failure b r.ts

unfoldable pub feed : CircuitBreaker → List CallRecord → CircuitBreaker
feed b [] = b
feed b (r ∷ rs) = feed (feed_one b r) rs

-- The times of the calls rise from `t` on, and the last of them is `end`.
unfoldable pub Rises : ℕ → List CallRecord → ℕ → Type 0
Rises t [] end = t ≡ end
Rises t (r ∷ rs) end = (t ≤ r.ts) × Rises r.ts rs end

-- The settings of the circuit.
pub record SameConfig (b c : CircuitBreaker) : Type 0 where
  pub same_window_ms : b.window_ms ≡ c.window_ms
  pub same_min_calls : b.min_calls ≡ c.min_calls
  pub same_num : b.threshold.num ≡ c.threshold.num
  pub same_den : b.threshold.den ≡ c.threshold.den

feed_one-window :
    (b : CircuitBreaker) (r : CallRecord)
    → b.state ≢ half_open
    → ((feed_one b r).window ≡ (push_record b r.ts r.success).window)
      × ((feed_one b r).state ≢ half_open)
      × SameConfig (feed_one b r) b
unfolding feed_one record_success record_failure push_record
feed_one-window b r n = ground arith

feed_one-Tracks :
    (b : CircuitBreaker) (h : List CallRecord) (t : ℕ) (r : CallRecord)
    → b.state ≢ half_open
    → t ≤ r.ts
    → Tracks b h t
    → Tracks (feed_one b r) (h ++ r ∷ []) r.ts
unfolding Tracks
feed_one-Tracks b h t r n le e =
    let (w, _, same) = feed_one-window b r n in
    rw (w, same.same_window_ms, push-Tracks b h t r.ts r.success le e)

-- Whatever calls are recorded, in the order of their times and from a circuit that is not
-- half-open, the window is the part of the whole history that is recent at the last of them.
pub feed-Tracks :
    (b : CircuitBreaker) (h rs : List CallRecord) (t end : ℕ)
    → b.state ≢ half_open
    → Tracks b h t
    → Rises t rs end
    → Tracks (feed b rs) (h ++ rs) end
unfolding feed Rises
feed-Tracks b h [] t end n k e = rw append-nil (subst (Tracks b h) e k)
feed-Tracks b h (r ∷ rs) t end n k e = rw (← append_assoc h (r ∷ []) rs) (
    feed-Tracks (feed_one b r) (h ++ r ∷ []) rs r.ts end (feed_one-window b r n).1
      (feed_one-Tracks b h t r n e.0 k) e.1)

-- A failure recorded by a closed circuit opens it exactly when the calls of the whole history that
-- are recent reach the minimum and the share of failures among them is above the threshold.
trips_iff :
    (b : CircuitBreaker) (h : List CallRecord) (t now : ℕ)
    → b.state ≡ closed
    → t ≤ now
    → Tracks b h t
    → let w = keep (is_recent b.window_ms now) (h ++ record { ts = now; success = false } ∷ []) in
      ((record_failure b now).state ≡ opened)
      ↔ ((b.min_calls ≤ length w) × (b.threshold.num * length w < failures_of w * b.threshold.den))
unfolding record_failure
trips_iff b h t now c le k =
    let e = push-Tracks b h t now false le k in rw (← e) ((λ o. ground arith), (λ o. ground arith))

new_breaker-Tracks : (server : Text) (p : ReliabilityProfile) → Tracks (new_breaker server p) [] 0
unfolding new_breaker Tracks keep
new_breaker-Tracks server p = refl

new_breaker-not-half_open :
    (server : Text) (p : ReliabilityProfile) → (new_breaker server p).state ≢ half_open
unfolding new_breaker
new_breaker-not-half_open server p e = ground arith

-- A new circuit is fed the outcomes `rs` in the order of their times and is still closed. Then a
-- failure opens it exactly when the calls among `rs` and that failure which lie within the window
-- reach the minimum, and the share of failures among those is above the threshold.
pub trip_by_history :
    (server : Text) (p : ReliabilityProfile) (rs : List CallRecord) (end now : ℕ)
    → Rises 0 rs end
    → end ≤ now
    → (feed (new_breaker server p) rs).state ≡ closed
    → let b = feed (new_breaker server p) rs in
      let w = keep (is_recent b.window_ms now) (rs ++ record { ts = now; success = false } ∷ []) in
      ((record_failure b now).state ≡ opened)
      ↔ ((b.min_calls ≤ length w) × (b.threshold.num * length w < failures_of w * b.threshold.den))
trip_by_history server p rs end now rises le c =
    trips_iff (feed (new_breaker server p) rs) rs end now c le (
      feed-Tracks (new_breaker server p) [] rs 0 end (new_breaker-not-half_open server p)
        (new_breaker-Tracks server p) rises)

-- The statistics count each call of the pruned window once, as a success or as a failure.
pub get_stats-sum :
    (b : CircuitBreaker) (now : ℕ)
    → let s = (get_stats b now).1 in
      (s.successes + s.failures ≡ s.total_calls)
      × (s.total_calls ≡ length (keep (is_recent b.window_ms now) b.window))
unfolding get_stats
get_stats-sum b now =
    ground (arith, length-keep_split (λ (r : CallRecord). r.success) (prune_window b now).window)
