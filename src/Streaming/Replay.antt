-- ===== src/Streaming/Replay.antt =====
-- What a client of src/streaming/execution-stream.ts is sent that connects late.
use mcp_conductor.Base.{
  ℕ, zero, suc, ◌-◌, ◌≤◌, ◌≡◌, refl, sym, ap, ◌∙◌, Bool, true, false, List, [], ◌∷◌, ◌++◌, map,
  Text, codes, length, length-append, ltb, arith, Bool-cases, inl, inr,
}
use mathlib.Core.List.{append_assoc, append-nil}
use mcp_conductor.Streaming.{
  info, EventData, log, StreamEvent, ExecutionStream, drop_items, last_items, max_buffer_size,
  push_shift, new_stream, broadcast, event_at, add_connection, disconnect, clamped, report,
  progress, tool_call, error, complete, started, completed, failed, ExecutionState, updated,
}

drop_items-append {ℓ} :
    {A : Type ℓ} (k : ℕ) (xs ys : List A)
    → k ≤ length xs
    → drop_items k (xs ++ ys) ≡ drop_items k xs ++ ys
unfolding drop_items
drop_items-append zero xs ys h = refl
drop_items-append (suc k) [] ys h = absurd (omega arith)
drop_items-append (suc k) (x ∷ xs) ys h = drop_items-append k xs ys (omega arith)

drop_items-drop_items {ℓ} :
    {A : Type ℓ} (k : ℕ) (xs : List A) → drop_items 1 (drop_items k xs) ≡ drop_items (suc k) xs
unfolding drop_items
drop_items-drop_items zero [] = refl
drop_items-drop_items zero (x ∷ xs) = refl
drop_items-drop_items (suc k) [] = refl
drop_items-drop_items (suc k) (x ∷ xs) = drop_items-drop_items k xs

length-drop_items {ℓ} :
    {A : Type ℓ} (k : ℕ) (xs : List A) → length (drop_items k xs) ≡ length xs - k
unfolding drop_items
length-drop_items zero xs = omega arith
length-drop_items (suc k) [] = omega arith
length-drop_items (suc k) (x ∷ xs) = omega (arith, length-drop_items k xs)

-- A buffer that holds the last items still does after one more is pushed.
push_shift-last_items {ℓ} :
    {A : Type ℓ} (n : ℕ) (xs : List A) (x : A)
    → push_shift n (last_items n xs) x ≡ last_items n (xs ++ x ∷ [])
unfolding push_shift last_items
push_shift-last_items n xs x =
    let k = length xs - n in
    elim (Bool-cases (ltb (length xs) n)) [
      | inl e ↦
          let whole : length xs - n ≡ 0 = ground arith in
          let whole' : length (xs ++ x ∷ []) - n ≡ 0 = ground (arith, length-append xs (x ∷ [])) in
          let fits : ltb n (length (xs ++ x ∷ [])) ≡ false =
            ground (arith, length-append xs (x ∷ [])) in
          rw (whole, whole', fits) refl
      | inr e ↦
          let full : ltb n (length (drop_items k xs ++ x ∷ [])) ≡ true =
            ground (arith, length-append (drop_items k xs) (x ∷ []), length-drop_items k xs) in
          let next : length (xs ++ x ∷ []) - n ≡ suc k =
            ground (arith, length-append xs (x ∷ [])) in
          rw (full, next, sym (drop_items-append k xs (x ∷ []) (omega arith)))
            (drop_items-drop_items k (xs ++ x ∷ []))
    ]

-- What happens to a stream.
pub data Op (R : Type 0) : Type 0 where
  reports : (now : ℕ) → EventData R → Op R
  connects : (conn now : ℕ) → Op R
  disconnects : (conn : ℕ) → Op R

-- All events of a history, in their order.
unfoldable pub events : {R : Type 0} (execution_id : Text) → List (Op R) → List (StreamEvent R)
unfolding clamped
events execution_id [] = []
events execution_id (reports now content ∷ ops) =
    (record { timestamp = now; execution_id = execution_id; content = clamped content })
    ∷ events execution_id ops
events execution_id (connects conn now ∷ ops) = events execution_id ops
events execution_id (disconnects conn ∷ ops) = events execution_id ops

module _ {R : Type 0} (writes : ℕ → Bool) where
  unfoldable pub after : ExecutionStream R → Op R → ExecutionStream R
  unfolding report add_connection disconnect
  after s (reports now content) = (report writes s now content).0
  after s (connects conn now) = (add_connection writes s conn now).0
  after s (disconnects conn) = disconnect s conn

  unfoldable pub run : ExecutionStream R → List (Op R) → ExecutionStream R
  unfolding after
  run s [] = s
  run s (op ∷ ops) = run (after s op) ops

  updated-id :
      (state : ExecutionState) (now : ℕ) (content : EventData R)
      → (updated state now content).id ≡ state.id
  unfolding updated
  updated-id state now (log message level) = refl
  updated-id state now (progress percent message) = refl
  updated-id state now (tool_call server tool started d m) = refl
  updated-id state now (tool_call server tool completed d m) = refl
  updated-id state now (tool_call server tool failed d m) = refl
  updated-id state now (error type message) = refl
  updated-id state now (complete result) = refl

  run-event_buffer :
      (ops : List (Op R)) (s : ExecutionStream R) (history : List (StreamEvent R))
      → s.event_buffer ≡ last_items max_buffer_size history
      → ((run s ops).event_buffer ≡ last_items max_buffer_size (history ++ events s.state.id ops))
        × ((run s ops).state.id ≡ s.state.id)
  unfolding run after events report broadcast add_connection disconnect
  run-event_buffer [] s history h =
      (h ∙ ap (last_items max_buffer_size) (sym (append-nil history)), refl)
  run-event_buffer (connects conn now ∷ ops) s history h =
      run-event_buffer ops (after s (connects conn now)) history h
  run-event_buffer (disconnects conn ∷ ops) s history h =
      run-event_buffer ops (after s (disconnects conn)) history h
  run-event_buffer (reports now content ∷ ops) s history h =
      let event = event_at s now (clamped content) in
      let same = updated-id s.state now (clamped content) in
      let pushed =
        ap (λ b. push_shift max_buffer_size b event) h
        ∙ push_shift-last_items max_buffer_size history event in
      let (rest, id) =
        run-event_buffer ops (after s (reports now content)) (history ++ event ∷ []) pushed in
      (
        rest
            ∙ ap (λ i. last_items max_buffer_size ((history ++ event ∷ []) ++ events i ops)) same
            ∙ ap (last_items max_buffer_size)
                (append_assoc history (event ∷ []) (events s.state.id ops)),
        id ∙ same,
      )

  -- A client that connects, at any time of a stream, and can be written is sent the greeting and then
  -- the last 100 events of the whole history, in their order.
  pub run-add_connection :
      (execution_id : Text) (created conn now : ℕ) (ops : List (Op R))
      → writes conn ≡ true
      → let s = run (new_stream execution_id created) ops in
        (add_connection writes s conn now).1
        ≡ map
            (λ event. (conn, event))
            (event_at s now (log (codes "Connected to execution stream") info)
              ∷ last_items max_buffer_size (events execution_id ops))
  unfolding add_connection new_stream
  run-add_connection execution_id created conn now ops w =
      let s = run (new_stream execution_id created) ops in
      let (buffer, id) =
        run-event_buffer ops (new_stream execution_id created) []
          (unfold last_items in unfold drop_items in refl) in
      rw w (
        ap
          (λ b.
            map (λ event. (conn, event))
              (event_at s now (log (codes "Connected to execution stream") info) ∷ b))
          buffer)
