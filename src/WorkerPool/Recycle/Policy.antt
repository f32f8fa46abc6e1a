-- ===== src/WorkerPool/Recycle/Policy.antt =====
-- Which workers get jobs by src/runtime/pool/recycle.ts.
use mcp_conductor.Base.{ℕ, ◌-◌, ◌<◌, ◌≡◌, ◌↔◌, true, false, or_default, if◌then◌else◌, arith}
use mcp_conductor.WorkerPool.Recycle.{
  WorkerState, starting, idle, busy, recycling, dead, RecycleCandidate, RecycleOptions,
  evaluate_recycle, evaluate_as, evaluate_limits, is_eligible, is_idle, stays,
}

eligible_as :
    (s : WorkerState) (now created jobs max_age max_jobs : ℕ)
    → ((if is_idle s
          then stays (evaluate_as s (evaluate_limits now created jobs max_age max_jobs))
          else false)
        ≡ true)
      ↔ (s ≡ idle) × (now - created < max_age) × (jobs < max_jobs)
unfolding evaluate_as evaluate_limits
eligible_as starting now created jobs max_age max_jobs =
    (λ h. ground arith, λ h. ground (arith, h.0))
eligible_as idle now created jobs max_age max_jobs =
    (λ h. ground arith, λ h. ground (arith, h.1, h.2))
eligible_as busy now created jobs max_age max_jobs = (λ h. ground arith, λ h. ground (arith, h.0))
eligible_as recycling now created jobs max_age max_jobs =
    (λ h. ground arith, λ h. ground (arith, h.0))
eligible_as dead now created jobs max_age max_jobs = (λ h. ground arith, λ h. ground (arith, h.0))

-- A worker gets jobs exactly while it is idle, younger than the age limit, which is 10 minutes by
-- default, and has run fewer jobs than the limit on them, which is 100 by default.
pub is_eligible-limits :
    (c : RecycleCandidate) (o : RecycleOptions) (now : ℕ)
    → (is_eligible c o now ≡ true)
      ↔ (c.state ≡ idle)
        × (now - c.created_at < or_default o.max_age_ms 600_000)
        × (c.jobs_run < or_default o.max_jobs_per_worker 100)
unfolding is_eligible evaluate_recycle
is_eligible-limits c o now =
    eligible_as c.state now c.created_at c.jobs_run (or_default o.max_age_ms 600_000)
      (or_default o.max_jobs_per_worker 100)
