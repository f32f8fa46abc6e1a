-- ===== src/Reliability/Retry/Backoff.antt =====
-- The delays of src/reliability/retry.ts, against the sequence that its comment describes.
use Prim.Native.Nat.{◌^◌}
use native.Mathlib.Nat.{pow-suc}
use mcp_conductor.Base.{
  ℕ, zero, suc, ◌+◌, ◌*◌, ◌≤◌, ◌<◌, ◌≡◌, refl, min, List, [], ◌∷◌, length, get_elem?, sum, map,
  arith, some, dec_lt, ap, ◌∙◌,
}
use mcp_conductor.Reliability.Timeout.{Timed, timer_delay}
use mcp_conductor.Reliability.Retry.{RetryOptions, retry_loop, with_retry}

-- The first `n` delays from `delay` on, by the source's own step.
unfoldable pub schedule : (n delay cap : ℕ) → List ℕ
schedule zero delay cap = []
schedule (suc n) delay cap = delay ∷ schedule n (min (delay * 2) cap) cap

-- The number of sleeps of a run.
module _ {ℓ} {A : Type ℓ} (fn : ℕ → Timed A) (o : RetryOptions) where
  loop-attempts :
      (left attempt delay : ℕ)
      → (retry_loop fn o left attempt delay).attempts
        ≡ attempt + length (retry_loop fn o left attempt delay).sleeps
  unfolding retry_loop
  loop-attempts zero attempt delay = ground arith
  loop-attempts (suc left) attempt delay =
      ground (arith, loop-attempts left (suc attempt) (min (delay * 2) o.retry_max_delay_ms))

  loop-length : (left attempt delay : ℕ) → length (retry_loop fn o left attempt delay).sleeps ≤ left
  unfolding retry_loop
  loop-length zero attempt delay = ground arith
  loop-length (suc left) attempt delay =
      ground (arith, loop-length left (suc attempt) (min (delay * 2) o.retry_max_delay_ms))

  loop-schedule :
      (left attempt delay : ℕ)
      → (retry_loop fn o left attempt delay).sleeps
        ≡ schedule (length (retry_loop fn o left attempt delay).sleeps) delay o.retry_max_delay_ms
  unfolding retry_loop schedule
  loop-schedule zero attempt delay = ground arith
  loop-schedule (suc left) attempt delay =
      ground (arith, loop-schedule left (suc attempt) (min (delay * 2) o.retry_max_delay_ms))

  loop-elapsed-le :
      (limit : ℕ)
      → ((k : ℕ) → (fn k).elapsed ≤ limit)
      → (left attempt delay : ℕ)
      → let r = retry_loop fn o left attempt delay in
        r.elapsed ≤ suc (length r.sleeps) * limit + sum (map timer_delay r.sleeps)
  unfolding retry_loop
  loop-elapsed-le limit h zero attempt delay = ground (arith, h attempt)
  loop-elapsed-le limit h (suc left) attempt delay = ground (
    arith,
    h attempt,
    loop-elapsed-le limit h left (suc attempt) (min (delay * 2) o.retry_max_delay_ms),
  )

-- The delay before the retry `i`, counted from 0, in closed form.
abbrev pub backoff : RetryOptions → ℕ → ℕ
backoff o zero = o.retry_delay_ms
backoff o (suc i) = min (o.retry_delay_ms * 2 ^ suc i) o.retry_max_delay_ms

min-scale : (x cap p : ℕ) → 1 ≤ p → min (min x cap * p) cap ≡ min (x * p) cap
min-scale x cap p h = elim (dec_lt cap x) [
  | yes more ↦
      let big : cap ≤ cap * p = grind arith in
      let bigger : cap * p ≤ x * p = grind arith in
      let e : min x cap ≡ cap = omega arith in rw e (omega arith)
  | no less ↦ let e : min x cap ≡ x = omega arith in rw e
]

pow_pos : (i : ℕ) → 1 ≤ 2 ^ i
pow_pos zero = omega arith
pow_pos (suc i) = omega (arith, pow-suc 2 i, pow_pos i)

schedule-get_suc :
    (i n delay cap : ℕ)
    → suc i < n
    → get_elem? (schedule n delay cap) (suc i) ≡ some (min (delay * 2 ^ suc i) cap)
unfolding schedule
schedule-get_suc i zero delay cap h = absurd (omega arith)
schedule-get_suc i (suc zero) delay cap h = absurd (omega arith)
schedule-get_suc zero (suc (suc n)) delay cap h = refl
schedule-get_suc (suc i) (suc (suc n)) delay cap h =
    schedule-get_suc i (suc n) (min (delay * 2) cap) cap (omega arith)
    ∙ ap some (min-scale (delay * 2) cap (2 ^ suc i) (pow_pos (suc i)) ∙ regroup)
  where
    regroup : min (delay * 2 * 2 ^ suc i) cap ≡ min (delay * 2 ^ suc (suc i)) cap
    regroup = omega (arith, ap (λ (t : ℕ). delay * t) (pow-suc 2 (suc i)))

schedule-get :
    (i n : ℕ) (o : RetryOptions)
    → i < n
    → get_elem? (schedule n o.retry_delay_ms o.retry_max_delay_ms) i ≡ some (backoff o i)
unfolding schedule
schedule-get i zero o h = absurd (omega arith)
schedule-get zero (suc n) o h = refl
schedule-get (suc i) (suc n) o h =
    schedule-get_suc i (suc n) o.retry_delay_ms o.retry_max_delay_ms h

-- A run makes one attempt more than it sleeps, and at most `retries + 1`.
pub with_retry-attempts {ℓ} :
    {A : Type ℓ} (fn : ℕ → Timed A) (o : RetryOptions)
    → let r = with_retry fn o in (r.attempts ≡ length r.sleeps + 1) × (r.attempts ≤ o.retries + 1)
unfolding with_retry
with_retry-attempts fn o = (
  omega (arith, loop-attempts fn o o.retries 1 o.retry_delay_ms),
  omega (
    arith,
    loop-attempts fn o o.retries 1 o.retry_delay_ms,
    loop-length fn o o.retries 1 o.retry_delay_ms,
  ),
)

-- The sleeps of a run double from `retryDelayMs` on, each but the first capped at
-- `retryMaxDelayMs`; the first is `retryDelayMs` itself, also where that is above the cap.
pub with_retry-backoff {ℓ} :
    {A : Type ℓ} (fn : ℕ → Timed A) (o : RetryOptions) (i : ℕ)
    → i < length (with_retry fn o).sleeps
    → get_elem? (with_retry fn o).sleeps i ≡ some (backoff o i)
unfolding with_retry
with_retry-backoff fn o i h =
    rw (loop-schedule fn o o.retries 1 o.retry_delay_ms) (schedule-get i _ o h)

pub with_retry-attempts-pos {ℓ} :
    {A : Type ℓ} (fn : ℕ → Timed A) (o : RetryOptions) → 1 ≤ (with_retry fn o).attempts
with_retry-attempts-pos fn o = omega (arith, (with_retry-attempts fn o).0)

-- If no attempt takes longer than `limit`, the run takes at most `limit` for each attempt and the
-- timers of its sleeps.
pub with_retry-elapsed-le {ℓ} :
    {A : Type ℓ} (fn : ℕ → Timed A) (o : RetryOptions) (limit : ℕ)
    → ((k : ℕ) → (fn k).elapsed ≤ limit)
    → let r = with_retry fn o in r.elapsed ≤ r.attempts * limit + sum (map timer_delay r.sleeps)
unfolding with_retry
with_retry-elapsed-le fn o limit h = omega (
  arith,
  loop-elapsed-le fn o limit h o.retries 1 o.retry_delay_ms,
  ap (λ (t : ℕ). t * limit) (loop-attempts fn o o.retries 1 o.retry_delay_ms),
)
