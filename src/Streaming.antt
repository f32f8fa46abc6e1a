-- ===== src/Streaming.antt =====
-- src/streaming/execution-stream.ts. A response of the HTTP server goes by a number, and whether it can
-- still be written is a parameter; times are in milliseconds. A negative percentage counts as 0, as
-- `Math.max` makes of it. Each function also gives what is written, in its order.
pub mod Replay
pub mod Cleanup
use mcp_conductor.Base.{
  ℕ, zero, suc, ◌+◌, ◌-◌, ◌*◌, min, Bool, true, false, not, ◌&&◌, ◌||◌, Option, none, some, List,
  [], ◌∷◌, ◌++◌, map, Text, codes, Dict, lookup, insert, remove, keep, any, length, ltb, ◌==◌,
  if◌then◌else◌,
}

pub data LogLevel : Type 0 where
  info warn err debug : LogLevel

pub data ToolStatus : Type 0 where
  started completed failed : ToolStatus

pub data ExecutionStatus : Type 0 where
  running done broken timed_out : ExecutionStatus

-- `CompleteEvent`, with its result, error and metrics as one value.
pub record CompleteEvent (R : Type 0) : Type 0 where
  pub success : Bool
  pub payload : R

pub data EventData (R : Type 0) : Type 0 where
  log : (message : Text) → LogLevel → EventData R
  progress : (percent : ℕ) → Option Text → EventData R
  tool_call :
      (server tool : Text)
      → ToolStatus
      → (duration_ms : Option ℕ) (message : Option Text) → EventData R
  error : (type message : Text) → EventData R
  complete : CompleteEvent R → EventData R

pub record StreamEvent (R : Type 0) : Type 0 where
  pub timestamp : ℕ
  pub execution_id : Text
  pub content : EventData R

pub record ExecutionState : Type 0 where
  pub id : Text
  pub started_at : ℕ
  pub status : ExecutionStatus
  pub progress_percent : ℕ
  pub logs : List Text
  pub tool_calls : ℕ
  pub last_update : ℕ

pub record ExecutionStream (R : Type 0) : Type 0 where
  pub connections : List ℕ
  pub state : ExecutionState
  pub event_buffer : List (StreamEvent R)

unfoldable pub drop_items {ℓ} : {A : Type ℓ} → ℕ → List A → List A
drop_items zero xs = xs
drop_items (suc n) [] = []
drop_items (suc n) (x ∷ xs) = drop_items n xs

-- `xs.slice(-n)` for a positive `n`
unfoldable pub last_items {ℓ} : {A : Type ℓ} → ℕ → List A → List A
unfolding drop_items
last_items n xs = drop_items (length xs - n) xs

-- `maxBufferSize`
abbrev pub max_buffer_size : ℕ
max_buffer_size = 100

-- The cap on the logs.
abbrev pub max_logs : ℕ
max_logs = 500

-- `push`, and `shift` above the limit.
unfoldable pub push_shift {ℓ} : {A : Type ℓ} → ℕ → List A → A → List A
unfolding drop_items
push_shift n xs x = let ys = xs ++ x ∷ [] in if ltb n (length ys) then drop_items 1 ys else ys

-- `push`, and `slice(-n)` above the limit.
unfoldable pub push_slice {ℓ} : {A : Type ℓ} → ℕ → List A → A → List A
unfolding last_items
push_slice n xs x = let ys = xs ++ x ∷ [] in if ltb n (length ys) then last_items n ys else ys

module _ {R : Type 0} where
  -- The constructor.
  unfoldable pub new_stream : (execution_id : Text) (now : ℕ) → ExecutionStream R
  new_stream execution_id now = record {
    connections = [];
    state = record {
      id = execution_id;
      started_at = now;
      status = running;
      progress_percent = 0;
      logs = [];
      tool_calls = 0;
      last_update = now;
    };
    event_buffer = [];
  }

  -- The handler of a response's `close`.
  unfoldable pub disconnect : ExecutionStream R → (conn : ℕ) → ExecutionStream R
  unfolding keep
  disconnect s conn = record s { connections = keep (λ c. not (c == conn)) s.connections }

  -- What the methods do to the state, by the data of their event.
  unfoldable pub updated : ExecutionState → (now : ℕ) → EventData R → ExecutionState
  unfolding push_slice
  updated state now (log message level) = record state {
    logs = push_slice max_logs state.logs message;
    last_update = now;
  }
  updated state now (progress percent message) = record state {
    progress_percent = percent;
    last_update = now;
  }
  updated state now (tool_call server tool started duration_ms e) = record state {
    last_update = now;
  }
  updated state now (tool_call server tool completed duration_ms e) = record state {
    tool_calls = state.tool_calls + 1;
    last_update = now;
  }
  updated state now (tool_call server tool failed duration_ms e) = record state {
    tool_calls = state.tool_calls + 1;
    last_update = now;
  }
  updated state now (error type message) = record state { status = broken; last_update = now }
  updated state now (complete result) = record state {
    status = if result.success then done else broken;
    progress_percent = 100;
    last_update = now;
    logs = [];
  }

  -- The data of the event: `progress` keeps the percentage below 100.
  unfoldable pub clamped : EventData R → EventData R
  clamped (progress percent message) = progress (min 100 percent) message
  clamped (log message level) = log message level
  clamped (tool_call server tool status duration_ms e) = tool_call server tool status duration_ms e
  clamped (error type message) = error type message
  clamped (complete result) = complete result

  abbrev pub event_at : ExecutionStream R → (now : ℕ) → EventData R → StreamEvent R
  event_at s now content = record { timestamp = now; execution_id = s.state.id; content = content }

  module _ (writes : ℕ → Bool) where
    -- `sendEvent` to one connection of the set: it leaves the set if it cannot be written.
    unfoldable pub send_all : List ℕ → StreamEvent R → List ℕ × List (ℕ × StreamEvent R)
    send_all [] event = ([], [])
    send_all (conn ∷ conns) event =
        let (left, sent) = send_all conns event in
        if writes conn then (conn ∷ left, (conn, event) ∷ sent) else (left, sent)

    -- `broadcast`
    unfoldable pub broadcast :
        ExecutionStream R → StreamEvent R → ExecutionStream R × List (ℕ × StreamEvent R)
    unfolding push_shift send_all
    broadcast s event =
        let (left, sent) = send_all s.connections event in
        (
          record s {
            event_buffer = push_shift max_buffer_size s.event_buffer event;
            connections = left;
          },
          sent,
        )

    -- `addConnection`
    unfoldable pub add_connection :
        ExecutionStream R → (conn now : ℕ) → ExecutionStream R × List (ℕ × StreamEvent R)
    unfolding any
    add_connection s conn now = (
      record s {
        connections =
            if any (λ c. c == conn) s.connections
            then s.connections
            else s.connections ++ conn ∷ [];
      },
      if writes conn
          then map (λ event. (conn, event))
              (event_at s now (log (codes "Connected to execution stream") info) ∷ s.event_buffer)
          else [],
    )

    -- `log`, `progress`, `toolCall`, `error` and `complete`
    unfoldable pub report :
        ExecutionStream R → (now : ℕ) → EventData R → ExecutionStream R × List (ℕ × StreamEvent R)
    unfolding updated clamped broadcast
    report s now content =
        broadcast (record s { state = updated s.state now (clamped content) })
          (event_at s now (clamped content))

  -- `closeAllConnections`
  unfoldable pub close_all_connections : ExecutionStream R → ExecutionStream R
  close_all_connections s = record s { connections = [] }
