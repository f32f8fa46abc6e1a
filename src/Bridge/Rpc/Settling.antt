-- ===== src/Bridge/Rpc/Settling.antt =====
-- Which calls of a connection in src/bridge/pool.ts are settled, over all that can happen to it.
use mcp_conductor.Base.{
  ℕ, ◌+◌, ◌≤◌, ◌≡◌, refl, sym, ◌∙◌, Bool, true, false, ◌&&◌, List, [], ◌∷◌, ◌++◌, Text, map, leb,
  ltb, if◌then◌else◌, arith, Bool-cases, inl, inr,
}
use mathlib.Core.List.{append-nil}
use mcp_conductor.Bridge.Rpc.{
  Connection, Parsed, Reply, write_failed, connection_closed, new_connection, rpc_call, close,
  handle_line,
}
use mcp_conductor.Bridge.Rpc.Moves.{
  times, requests, Moves, Single, times-append, times-without, requests-append, handle_line-Moves,
}

-- What happens on a connection: a call whose line is written or not, output of the backend, the
-- end of the connection.
pub data Event : Type 0 where
  called : (writes : Bool) → Event
  output : (raw : Text) → Event
  ended : Event

module _ {V : Type 0} where
  module _ (parse : Text → Parsed V) where
    unfoldable pub after_event : Connection → Event → Connection × List (ℕ × Reply V)
    unfolding rpc_call handle_line close
    after_event c (called writes) = rpc_call c writes
    after_event c (output raw) = handle_line parse c raw
    after_event c ended = close c

    -- The events one after the other, with the calls settled so far.
    unfoldable pub run :
        Connection → List (ℕ × Reply V) → List Event → Connection × List (ℕ × Reply V)
    unfolding after_event
    run c log [] = (c, log)
    run c log (e ∷ events) = let (c', settled) = after_event c e in run c' (log ++ settled) events

requests-closed :
    (V : Type 0) (k : ℕ) (is : List ℕ)
    → times k (requests {V = V} (map (λ id. (id, Reply.connection_closed)) is)) ≡ times k is
unfolding requests times
requests-closed V k [] = refl
requests-closed V k (i ∷ is) = ground (arith, requests-closed V k is)

-- Each request of a connection is pending or settled, once, and a closed connection has none pending.
unfoldable pub Accounted : {V : Type 0} → Connection → List (ℕ × Reply V) → Type 0
Accounted c log =
    ((k : ℕ)
      → times k c.pending + times k (requests log)
        ≡ (if leb 1 k && ltb k c.next_request_id then 1 else 0))
    × (1 ≤ c.next_request_id)
    × (c.closed ≡ true → (k : ℕ) → times k c.pending ≡ 0)

module _ {V : Type 0} where
  Accounted-Single : (c : Connection) (log : List (ℕ × Reply V)) → Accounted c log → Single c
  unfolding Accounted
  Accounted-Single c log a k = ground (arith, a.0 k)

  Moves-Accounted :
      (c : Connection) (log : List (ℕ × Reply V)) (r : Connection × List (ℕ × Reply V))
      → Moves c r
      → Accounted c log
      → Accounted r.0 (log ++ r.1)
  unfolding Moves Accounted
  Moves-Accounted c log (c', settled) m a = (
    λ k. rw (m.1, requests-append k log settled) (omega (arith, m.0 k) ∙ a.0 k),
    omega (arith, m.1, a.1),
    λ e k. omega (arith, m.0 k, a.2 (sym m.2 ∙ e) k),
  )

  rpc_call-Accounted :
      (c : Connection) (writes : Bool) (log : List (ℕ × Reply V))
      → Accounted c log
      → Accounted (rpc_call {V = V} c writes).0 (log ++ (rpc_call {V = V} c writes).1)
  unfolding rpc_call Accounted requests times
  rpc_call-Accounted c true log a = elim (Bool-cases c.closed) [
    | inl e ↦ rw (e, append-nil log) (a.0, a.1, λ p k. a.2 e k)
    | inr e ↦
        rw (e, append-nil log)
          (
            λ k. ground (arith, a.0 k, a.1, times-append k c.pending (c.next_request_id ∷ [])),
            omega (arith, a.1),
            λ p. absurd (ground arith),
          )
  ]
  rpc_call-Accounted c false log a = elim (Bool-cases c.closed) [
    | inl e ↦ rw (e, append-nil log) (a.0, a.1, λ p k. a.2 e k)
    | inr e ↦ rw e (
      λ k. ground (
        arith,
        a.0 k,
        a.1,
        times-append k c.pending (c.next_request_id ∷ []),
        times-without k c.next_request_id (c.pending ++ c.next_request_id ∷ []),
        requests-append k log ((c.next_request_id, write_failed) ∷ []),
      ),
      omega (arith, a.1),
      λ p. absurd (ground arith),
    )
  ]

  close-Accounted :
      (c : Connection) (log : List (ℕ × Reply V))
      → Accounted c log
      → Accounted (close {V = V} c).0 (log ++ (close {V = V} c).1)
  unfolding close Accounted requests times
  close-Accounted c log a =
      let lost : List (ℕ × Reply V) = map (λ id. (id, connection_closed)) c.pending in
      elim (Bool-cases c.closed) [
        | inl e ↦ rw (e, append-nil log) (a.0, a.1, λ p k. a.2 e k)
        | inr e ↦ rw e (
          λ k. omega (arith, a.0 k, requests-append k log lost, requests-closed V k c.pending),
          a.1,
          λ p k. refl,
        )
      ]

module _ {V : Type 0} (parse : Text → Parsed V) where
  run-Accounted :
      (events : List Event) (c : Connection) (log : List (ℕ × Reply V))
      → Accounted c log
      → Accounted (run parse c log events).0 (run parse c log events).1
  unfolding run after_event
  run-Accounted [] c log a = a
  run-Accounted (called writes ∷ events) c log a =
      run-Accounted events _ _ (rpc_call-Accounted c writes log a)
  run-Accounted (output raw ∷ events) c log a = run-Accounted events _ _ (
      Moves-Accounted c log (handle_line parse c raw)
        (handle_line-Moves parse c raw (Accounted-Single c log a)) a)
  run-Accounted (ended ∷ events) c log a = run-Accounted events _ _ (close-Accounted c log a)

  new_connection-Accounted : Accounted {V = V} new_connection []
  unfolding Accounted times requests
  new_connection-Accounted = (λ k. ground arith, omega arith, λ e. absurd (ground arith))

  -- Whatever happens on a new connection: each request that was made is, once, either pending or in the
  -- log of the settled ones, no other number is in either, and a closed connection has none pending.
  pub run-new_connection :
      (events : List Event)
      → Accounted (run parse new_connection [] events).0 (run parse new_connection [] events).1
  run-new_connection events = run-Accounted events new_connection [] new_connection-Accounted
