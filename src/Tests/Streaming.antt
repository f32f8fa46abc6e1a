-- ===== src/Tests/Streaming.antt =====
-- Runs of src/streaming/execution-stream.ts.
use mcp_conductor.Base.{
  ℕ, ◌≡◌, ◌↔◌, refl, true, none, some, List, [], ◌∷◌, map, codes, text_eq, Dict, lookup, remove,
  Distinct,
}
use mcp_conductor.Streaming.{
  log, progress, complete, info, ExecutionStream, done, new_stream, event_at, add_connection,
  max_buffer_size, last_items,
}
use mcp_conductor.Streaming.Replay.{Op, reports, connects, run, events, run-add_connection}
use mcp_conductor.Streaming.Cleanup.{cleanup_stale_streams, Spared, cleanup_stale_streams-lookup}

abbrev ops : List (Op ℕ)
ops =
    reports 5 (log (codes "a") info)
    ∷ connects 1 6
    ∷ reports 7 (progress 120 none)
    ∷ reports 9 (complete (record { success = true; payload = 3 }))
    ∷ []

run-add_connection_example :
    let s = run (λ conn. true) (new_stream (codes "run") 0) ops in
    (add_connection (λ conn. true) s 2 10).1
    ≡ map
        (λ event. (2, event))
        (event_at s 10 (log (codes "Connected to execution stream") info)
          ∷ last_items max_buffer_size (events (codes "run") ops))
run-add_connection_example = run-add_connection (λ conn. true) (codes "run") 0 2 10 ops refl

-- A stream at which nothing happened since the start, and one that is over since then.
abbrev quiet : ExecutionStream ℕ
quiet = new_stream (codes "a") 0

abbrev over : ExecutionStream ℕ
over = record quiet { state = record quiet.state { status = done } }

abbrev streams : Dict (ExecutionStream ℕ)
streams = (codes "a", quiet) ∷ (codes "b", over) ∷ []

streams-Distinct : Distinct streams
unfolding Distinct lookup text_eq
streams-Distinct = (refl, (refl, tt))

-- After six minutes the one that is over goes.
six_minutes : cleanup_stale_streams 360_000 streams ≡ (codes "a", quiet) ∷ []
unfolding cleanup_stale_streams new_stream remove text_eq
six_minutes = refl

cleanup_stale_streams-lookup_example :
    lookup (codes "b") (cleanup_stale_streams 360_000 streams) ≡ some over
    ↔ ((lookup (codes "b") streams ≡ some over) × Spared 360_000 over done)
cleanup_stale_streams-lookup_example =
    cleanup_stale_streams-lookup 360_000 streams (codes "b") over streams-Distinct
