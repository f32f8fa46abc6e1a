-- ===== src/Tests/WorkerPool.antt =====
-- Runs of src/runtime/pool.
use mcp_conductor.Base.{◌≡◌, ◌↔◌, ◌-◌, ◌<◌, refl, true, none, some, codes, or_default}
use mcp_conductor.WorkerPool.Recycle.{
  RecycleCandidate, RecycleOptions, idle, job_count, evaluate_recycle, is_eligible,
}
use mcp_conductor.WorkerPool.Recycle.Policy.{is_eligible-limits}

abbrev worker : RecycleCandidate
worker = record { id = codes "w1"; state = idle; created_at = 1_000; jobs_run = 100 }

abbrev options : RecycleOptions
options = record { max_jobs_per_worker = none; max_age_ms = some 5_000 }

worn_out : evaluate_recycle worker options 2_000 ≡ some job_count
unfolding evaluate_recycle
worn_out = refl

is_eligible-limits_example :
    (is_eligible worker options 2_000 ≡ true)
    ↔ (worker.state ≡ idle)
      × (2_000 - worker.created_at < or_default options.max_age_ms 600_000)
      × (worker.jobs_run < or_default options.max_jobs_per_worker 100)
is_eligible-limits_example = is_eligible-limits worker options 2_000
