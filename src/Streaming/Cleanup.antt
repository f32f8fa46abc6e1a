-- ===== src/Streaming/Cleanup.antt =====
-- `StreamManager` of src/streaming/execution-stream.ts: its map of streams and the cleanup.
use mcp_conductor.Base.{
  ℕ, ◌-◌, ◌*◌, ◌≤◌, ◌≡◌, ◌↔◌, refl, sym, ap, ◌∙◌, Bool, true, false, not, ◌&&◌, Option, none, some,
  List, [], ◌∷◌, Text, text_eq, text_eq_iff, text_eq-ne, Text-cases, Bool-cases, Dict, lookup,
  insert, remove, lookup-remove, passing, Distinct, any, ltb, arith, if◌then◌else◌, inl, inr,
}
use mcp_conductor.Streaming.{
  ExecutionStream, ExecutionStatus, running, done, broken, timed_out, new_stream,
}

-- `LIFECYCLE_TIMEOUTS.STREAM_STALE_TTL_MS`
abbrev pub stream_stale_ttl_ms : ℕ
stream_stale_ttl_ms = 5 * 60000

-- `LIFECYCLE_TIMEOUTS.STREAM_COMPLETED_TTL_MS`
abbrev pub stream_completed_ttl_ms : ℕ
stream_completed_ttl_ms = 10 * 60000

-- `LIFECYCLE_TIMEOUTS.STREAM_STUCK_TTL_MS`
abbrev pub stream_stuck_ttl_ms : ℕ
stream_stuck_ttl_ms = 15 * 60000

-- Whether a state is that of an execution that is over.
abbrev pub is_over : ExecutionStatus → Bool
is_over running = false
is_over done = true
is_over broken = true
is_over timed_out = false

abbrev pub is_running : ExecutionStatus → Bool
is_running running = true
is_running done = false
is_running broken = false
is_running timed_out = false

same_test :
    {A : Type 0} (among p q : Bool) (o : Option A)
    → p ≡ q
    → (if among then none else if p then none else o)
      ≡ (if if q then true else among then none else o)
same_test true p q o e = ground arith
same_test false p q o e = ground arith

text_eq-swap : (a b : Text) → text_eq a b ≡ text_eq b a
text_eq-swap a b = ground (arith, text_eq_iff a b, text_eq_iff b a)

module _ {R : Type 0} where
  -- `createStream`: a stream that is there loses its connections and its place in the map.
  unfoldable pub create_stream :
      Dict (ExecutionStream R)
      → (execution_id : Text) (now : ℕ) → Dict (ExecutionStream R) × ExecutionStream R
  unfolding new_stream insert
  create_stream streams execution_id now =
      let stream = new_stream execution_id now in (insert execution_id stream streams, stream)

  -- `removeStream`
  unfoldable pub remove_stream :
      Dict (ExecutionStream R) → (execution_id : Text) → Dict (ExecutionStream R)
  unfolding remove
  remove_stream streams execution_id = remove execution_id streams

  abbrev pub has_connections : ExecutionStream R → Bool
  has_connections s = elim s.connections [ [] ↦ false | c ∷ cs ↦ true ]

  -- The tests of the cleanup's loop.
  unfoldable pub is_stale : (now : ℕ) → ExecutionStream R → Bool
  is_stale now s =
      let age = now - s.state.last_update in
      if is_over s.state.status && not (has_connections s) && ltb stream_stale_ttl_ms age
      then true
      else if is_over s.state.status && ltb stream_completed_ttl_ms age
      then true
      else is_running s.state.status && ltb stream_stuck_ttl_ms age

  -- `toRemove`
  unfoldable pub to_remove : (now : ℕ) → Dict (ExecutionStream R) → List Text
  unfolding is_stale
  to_remove now [] = []
  to_remove now ((id, s) ∷ streams) =
      let ids = to_remove now streams in if is_stale now s then id ∷ ids else ids

  -- The loop that removes.
  unfoldable pub remove_all : List Text → Dict (ExecutionStream R) → Dict (ExecutionStream R)
  unfolding remove_stream
  remove_all [] streams = streams
  remove_all (id ∷ ids) streams = remove_all ids (remove_stream streams id)

  -- `cleanupStaleStreams`
  unfoldable pub cleanup_stale_streams :
      (now : ℕ) → Dict (ExecutionStream R) → Dict (ExecutionStream R)
  unfolding to_remove remove_all
  cleanup_stale_streams now streams = remove_all (to_remove now streams) streams

  remove_all-lookup :
      (ids : List Text) (streams : Dict (ExecutionStream R)) (j : Text)
      → lookup j (remove_all ids streams) ≡ (if any (text_eq j) ids then none else lookup j streams)
  unfolding remove_all remove_stream any
  remove_all-lookup [] streams j = refl
  remove_all-lookup (id ∷ ids) streams j =
      remove_all-lookup ids (remove id streams) j
      ∙ ap (λ o. if any (text_eq j) ids then none else o) (lookup-remove id j streams)
      ∙ same_test (any (text_eq j) ids) (text_eq id j) (text_eq j id) (lookup j streams)
          (text_eq-swap id j)

  to_remove-absent :
      (now : ℕ) (streams : Dict (ExecutionStream R)) (j : Text)
      → lookup j streams ≡ none
      → any (text_eq j) (to_remove now streams) ≡ false
  unfolding to_remove any lookup
  to_remove-absent now [] j h = refl
  to_remove-absent now ((id, s) ∷ streams) j h =
      ground (arith, to_remove-absent now streams j, text_eq_iff id j, text_eq_iff j id)

  -- The test of the cleanup at what the map holds.
  abbrev stale_at : (now : ℕ) → Option (ExecutionStream R) → Bool
  stale_at now none = false
  stale_at now (some s) = is_stale now s

  to_remove-lookup :
      (now : ℕ) (streams : Dict (ExecutionStream R)) (j : Text)
      → Distinct streams
      → any (text_eq j) (to_remove now streams) ≡ stale_at now (lookup j streams)
  unfolding to_remove any lookup Distinct
  to_remove-lookup now [] j d = refl
  to_remove-lookup now ((id, s) ∷ streams) j d = elim (Text-cases id j) [
    | inl e ↦
        let gone = to_remove-absent now streams j (ap (λ t. lookup t streams) (sym e) ∙ d.0) in
        ground (arith, (text_eq_iff id j).1 e, (text_eq_iff j id).1 (sym e), gone)
    | inr n ↦ ground (
      arith,
      text_eq-ne id j n,
      text_eq-ne j id (λ p. n (sym p)),
      to_remove-lookup now streams j d.1,
    )
  ]

  kept_at :
      (now : ℕ) (o : Option (ExecutionStream R)) (id : Text)
      → (if stale_at now o then none else o) ≡ passing (λ id s. not (is_stale now s)) id o
  kept_at now none id = refl
  kept_at now (some s) id = ground arith

  -- When the cleanup spares a stream that is over, and one in this state.
  abbrev pub SparedOver : (now : ℕ) → ExecutionStream R → Type 0
  SparedOver now s =
      (s.connections ≡ [] → now - s.state.last_update ≤ 300_000)
      × (now - s.state.last_update ≤ 600_000)

  abbrev pub Spared : (now : ℕ) → ExecutionStream R → ExecutionStatus → Type 0
  Spared now s running = now - s.state.last_update ≤ 900_000
  Spared now s done = SparedOver now s
  Spared now s broken = SparedOver now s
  Spared now s timed_out = Unit

  over-Spared :
      (now : ℕ) (s : ExecutionStream R) (cs : List ℕ)
      → s.connections ≡ cs
      → is_over s.state.status ≡ true
      → is_running s.state.status ≡ false
      → is_stale now s ≡ false ↔ SparedOver now s
  unfolding is_stale
  over-Spared now s [] e o r =
      (λ h. (λ p. ground arith, ground arith), λ h. ground (arith, h.0 e, h.1))
  over-Spared now s (c ∷ cs) e o r =
      (λ h. (λ p. absurd (ground arith), ground arith), λ h. ground (arith, h.1))

  is_stale-Spared :
      (now : ℕ) (s : ExecutionStream R) (status : ExecutionStatus)
      → s.state.status ≡ status
      → is_stale now s ≡ false ↔ Spared now s status
  unfolding is_stale
  is_stale-Spared now s running e = (λ h. ground arith, λ h. ground arith)
  is_stale-Spared now s done e = over-Spared now s s.connections refl (rw e refl) (rw e refl)
  is_stale-Spared now s broken e = over-Spared now s s.connections refl (rw e refl) (rw e refl)
  is_stale-Spared now s timed_out e = (λ h. tt, λ h. ground arith)

  cleanup_stale_streams-passing :
      (now : ℕ) (streams : Dict (ExecutionStream R)) (id : Text)
      → Distinct streams
      → lookup id (cleanup_stale_streams now streams)
        ≡ passing (λ id s. not (is_stale now s)) id (lookup id streams)
  unfolding cleanup_stale_streams
  cleanup_stale_streams-passing now streams id d =
      remove_all-lookup (to_remove now streams) streams id
      ∙ ap (λ b. if b then none else lookup id streams) (to_remove-lookup now streams id d)
      ∙ kept_at now (lookup id streams) id

  passing-some :
      (now : ℕ) (id : Text) (o : Option (ExecutionStream R)) (s : ExecutionStream R)
      → passing (λ id s. not (is_stale now s)) id o ≡ some s
        ↔ ((o ≡ some s) × (is_stale now s ≡ false))
  passing-some now id none s = (λ h. absurd (ground arith), λ h. absurd (ground (arith, h.0)))
  passing-some now id (some x) s = elim (Bool-cases (is_stale now x)) [
    | inl e ↦ rw e (λ h. absurd (ground arith), λ h. absurd (ground (arith, e, h.0, h.1)))
    | inr e ↦ rw e (λ h. (h, ground (arith, e, h)), λ h. h.0)
  ]

  -- In a map that holds no id twice, the cleanup keeps a stream, as it is, exactly when it is one of
  -- these: a running one that was touched at most fifteen minutes ago; a completed or failed one that
  -- was touched at most ten minutes ago, and at most five if it has no connections; any stream in the
  -- state `timeout`. It adds no stream.
  pub cleanup_stale_streams-lookup :
      (now : ℕ) (streams : Dict (ExecutionStream R)) (id : Text) (s : ExecutionStream R)
      → Distinct streams
      → lookup id (cleanup_stale_streams now streams) ≡ some s
        ↔ ((lookup id streams ≡ some s) × Spared now s s.state.status)
  cleanup_stale_streams-lookup now streams id s d =
      let kept = passing-some now id (lookup id streams) s in
      let spared = is_stale-Spared now s s.state.status refl in
      rw (cleanup_stale_streams-passing now streams id d)
        (λ h. let r = kept.0 h in (r.0, spared.0 r.1), λ h. kept.1 (h.0, spared.1 h.1))
