-- ===== src/Reliability/Gateway/Resolution.antt =====
-- The effective profile of a call in src/reliability/gateway.ts.
use mcp_conductor.Base.{
  ℕ, ◌+◌, ◌*◌, ◌≤◌, ◌≡◌, refl, Bool, true, false, not, ◌&&◌, ◌||◌, Option, none, some, Text, lookup,
  or_default, arith, Bool-cases, inl, inr, ap, ◌∙◌, if◌then◌else◌, sum, map,
}
use mcp_conductor.Reliability.Profile.{
  ReliabilityProfile, Profile, default_profile, merge, resolve_profile, is_mutation,
  apply_mutation_default,
}
use mcp_conductor.Reliability.Timeout.{Behavior, timer_delay}
use mcp_conductor.Reliability.Timeout.Deadline.{elapsed-le}
use mcp_conductor.Reliability.Retry.Backoff.{
  with_retry-attempts, with_retry-attempts-pos, with_retry-elapsed-le,
}
use mcp_conductor.Reliability.Gateway.{
  GatewayOptions, registry_override, tool_key, sets_retries, resolve_call_profile, attempts_of,
}

-- What an override that may be missing says of a field that it may not set.
abbrev pub setting {ℓ} :
    {A : Type ℓ} → (ReliabilityProfile → Option A) → Option ReliabilityProfile → Option A
setting f none = none
setting f (some p) = f p

-- The first layer that sets a field gives its value.
abbrev pub layered :
    {A : Type 0} → (ReliabilityProfile → Option A) → GatewayOptions → (server tool : Text) → A → A
layered f o server tool fallback =
    or_default (setting f (lookup (tool_key server tool) o.tool_profiles)) (
      or_default (setting f (registry_override o server tool)) (
        or_default (setting f (lookup server o.server_profiles))
          (or_default (f o.default_profile_option) fallback)))

-- Only the tool, the registry and the server count as having asked for retries.
abbrev pub asks_for_retries : GatewayOptions → (server tool : Text) → Bool
asks_for_retries o server tool =
    sets_retries (lookup (tool_key server tool) o.tool_profiles)
    || sets_retries (registry_override o server tool)
    || sets_retries (lookup server o.server_profiles)

-- A field of the two kinds of profile, which a merge treats like any other.
record Field (A : Type 0) : Type 0 where
  of : ReliabilityProfile → Option A
  at : Profile → A
  at-merge : (q : ReliabilityProfile) (p : Profile) → at (merge q p) ≡ or_default (of q) (at p)

module _ {A : Type 0} (f : Field A) where
  at-resolve :
      (q : Option ReliabilityProfile) (p : Profile)
      → f.at (resolve_profile q p) ≡ or_default (setting f.of q) (f.at p)
  unfolding resolve_profile
  at-resolve none p = refl
  at-resolve (some q) p = f.at-merge q p

  -- The profile that `_resolveProfile` hands to `applyMutationDefault`.
  at-explicit :
      (q1 q2 q3 q4 : Option ReliabilityProfile) (p : Profile)
      → f.at (resolve_profile q1 (resolve_profile q2 (resolve_profile q3 (resolve_profile q4 p))))
        ≡ or_default (setting f.of q1) (
            or_default
              (setting f.of q2)
              (or_default (setting f.of q3) (or_default (setting f.of q4) (f.at p))))
  at-explicit q1 q2 q3 q4 p = rw (at-resolve q1, at-resolve q2, at-resolve q3, at-resolve q4)

  at-apply :
      (tool : Text) (p : Profile) (explicit : Bool)
      → ((q : Profile) → f.at (record q { retries = 0 }) ≡ f.at q)
      → f.at (apply_mutation_default tool p explicit) ≡ f.at p
  unfolding apply_mutation_default
  at-apply tool p explicit kept = elim (Bool-cases (is_mutation tool && not explicit)) [
    | inl e ↦ rw e (kept p)
    | inr e ↦ rw e
  ]

  at-call :
      (o : GatewayOptions) (server tool : Text)
      → ((p : Profile) → f.at (record p { retries = 0 }) ≡ f.at p)
      → f.at (resolve_call_profile o server tool)
        ≡ layered f.of o server tool (f.at default_profile)
  unfolding resolve_call_profile
  at-call o server tool kept =
      at-apply tool _ _ kept
      ∙ at-explicit (lookup (tool_key server tool) o.tool_profiles)
          (registry_override o server tool) (lookup server o.server_profiles)
          (some o.default_profile_option) default_profile

retries-apply :
    (tool : Text) (p : Profile) (explicit : Bool)
    → (apply_mutation_default tool p explicit).retries
      ≡ (if is_mutation tool && not explicit then 0 else p.retries)
unfolding apply_mutation_default
retries-apply tool p explicit = elim (Bool-cases (is_mutation tool && not explicit)) [
  | inl e ↦ rw e
  | inr e ↦ rw e
]

retries-call :
    (o : GatewayOptions) (server tool : Text)
    → (resolve_call_profile o server tool).retries ≡ (
        if is_mutation tool && not (asks_for_retries o server tool)
        then 0
        else layered (λ q. q.retries) o server tool default_profile.retries)
unfolding resolve_call_profile merge
retries-call o server tool =
    retries-apply tool _ (asks_for_retries o server tool)
    ∙ ap (λ (n : ℕ). if is_mutation tool && not (asks_for_retries o server tool) then 0 else n)
        (at-explicit (record { of = λ q. q.retries; at = λ p. p.retries; at-merge = λ q p. refl })
          (lookup (tool_key server tool) o.tool_profiles) (registry_override o server tool)
          (lookup server o.server_profiles) (some o.default_profile_option) default_profile)

-- Each field of the effective profile is that of the first of these layers that sets it: the tool's
-- own profile, the registry's, the server's, the global one, the built-in default. Only the retries
-- of a tool that is named like a mutation are 0, unless one of the first three layers sets them.
pub resolve-layered :
    (o : GatewayOptions) (server tool : Text)
    → let p = resolve_call_profile o server tool in
      let d = default_profile in
      (p.timeout_ms ≡ layered (λ q. q.timeout_ms) o server tool d.timeout_ms)
      × (p.retry_delay_ms ≡ layered (λ q. q.retry_delay_ms) o server tool d.retry_delay_ms)
      × (p.retry_max_delay_ms
          ≡ layered (λ q. q.retry_max_delay_ms) o server tool d.retry_max_delay_ms)
      × (p.circuit_breaker_threshold
          ≡ layered (λ q. q.circuit_breaker_threshold) o server tool d.circuit_breaker_threshold)
      × (p.circuit_breaker_window_ms
          ≡ layered (λ q. q.circuit_breaker_window_ms) o server tool d.circuit_breaker_window_ms)
      × (p.circuit_breaker_min_calls
          ≡ layered (λ q. q.circuit_breaker_min_calls) o server tool d.circuit_breaker_min_calls)
      × (p.half_open_probe_interval_ms
          ≡ layered
              (λ q. q.half_open_probe_interval_ms)
              o
              server
              tool
              d.half_open_probe_interval_ms)
      × (p.retries ≡ (
          if is_mutation tool && not (asks_for_retries o server tool)
          then 0
          else layered (λ q. q.retries) o server tool d.retries))
unfolding merge
resolve-layered o server tool = (
  at-call (record { of = λ q. q.timeout_ms; at = λ p. p.timeout_ms; at-merge = λ q p. refl }) o
      server tool (λ p. refl),
  at-call
      (record { of = λ q. q.retry_delay_ms; at = λ p. p.retry_delay_ms; at-merge = λ q p. refl }) o
      server tool (λ p. refl),
  at-call
      (record {
        of = λ q. q.retry_max_delay_ms;
        at = λ p. p.retry_max_delay_ms;
        at-merge = λ q p. refl;
      })
      o server tool (λ p. refl),
  at-call
      (record {
        of = λ q. q.circuit_breaker_threshold;
        at = λ p. p.circuit_breaker_threshold;
        at-merge = λ q p. refl;
      })
      o server tool (λ p. refl),
  at-call
      (record {
        of = λ q. q.circuit_breaker_window_ms;
        at = λ p. p.circuit_breaker_window_ms;
        at-merge = λ q p. refl;
      })
      o server tool (λ p. refl),
  at-call
      (record {
        of = λ q. q.circuit_breaker_min_calls;
        at = λ p. p.circuit_breaker_min_calls;
        at-merge = λ q p. refl;
      })
      o server tool (λ p. refl),
  at-call
      (record {
        of = λ q. q.half_open_probe_interval_ms;
        at = λ p. p.half_open_probe_interval_ms;
        at-merge = λ q p. refl;
      })
      o server tool (λ p. refl),
  retries-call o server tool,
)

-- The attempts of a call end, also if the backend hangs at each of them: they take at most the
-- deadline for each of the `retries + 1` attempts, and the timers of the sleeps.
pub attempts-elapsed-le {ℓ} :
    {A : Type ℓ} (p : Profile) (server tool : Text) (fn : ℕ → Behavior A)
    → let r = attempts_of p server tool fn in
      (r.attempts ≤ p.retries + 1)
      × (r.elapsed ≤ r.attempts * timer_delay p.timeout_ms + sum (map timer_delay r.sleeps))
unfolding attempts_of
attempts-elapsed-le p server tool fn = (
  (with_retry-attempts _ _).1,
  with_retry-elapsed-le _ _ (timer_delay p.timeout_ms) (λ k. elapsed-le (fn k) _),
)

pub attempts-pos {ℓ} :
    {A : Type ℓ} (p : Profile) (server tool : Text) (fn : ℕ → Behavior A)
    → 1 ≤ (attempts_of p server tool fn).attempts
unfolding attempts_of
attempts-pos p server tool fn = with_retry-attempts-pos _ _

-- A tool that is named like a mutation runs once in a call, whatever the backend does at it and
-- however often it fails, unless the tool, the registry or the server asks for retries.
pub mutation_runs_once {ℓ} :
    {A : Type ℓ} (o : GatewayOptions) (server tool : Text) (fn : ℕ → Behavior A)
    → is_mutation tool ≡ true
    → asks_for_retries o server tool ≡ false
    → (attempts_of (resolve_call_profile o server tool) server tool fn).attempts ≡ 1
mutation_runs_once o server tool fn m a =
    let p = resolve_call_profile o server tool in
    let none_left : p.retries ≡ 0 = rw (retries-call o server tool, m, a) refl in
    omega
      (arith, none_left, attempts-pos p server tool fn, (attempts-elapsed-le p server tool fn).0)
