-- ===== src/Bridge/Rpc.antt =====
-- The calls on one connection of src/bridge/pool.ts: `_rpcCall`, `_handleLine`, and what
-- `_handleClose` and `_closeInternal` do to the calls. A pending call is known by the number of its
-- request. `JSON.parse` on a line is a parameter; an id that is no number fits no call and counts as
-- none, as does a value with no field `id`. On the value `null` the access to `msg.id` throws, and the
-- exception leaves `_handleLine`: the loop ends there, with the buffer as it is at that point. What a
-- transport does with the exception is not modelled. Each function also gives the calls that it
-- settles, in their order.
pub mod Lines
pub mod Framing
pub mod Moves
pub mod Settling
use mcp_conductor.Base.{
  index_of, take, drop, ℕ, zero, suc, ◌+◌, Bool, true, false, not, ◌||◌, Option, none, some, List,
  [], ◌∷◌, ◌++◌, map, Text, length, any, keep, ◌==◌, if◌then◌else◌,
}
use mathlib.Core.List.{reverse}

-- What becomes of a call's promise.
pub data Reply (V : Type 0) : Type 0 where
  resolved : V → Reply V
  rejected : Text → Reply V
  write_failed : Reply V
  connection_closed : Reply V

pub record Message (V : Type 0) : Type 0 where
  pub id : Option ℕ
  pub result : V
  pub error : Option Text

-- What `JSON.parse` makes of a line.
pub data Parsed (V : Type 0) : Type 0 where
  unparseable null_value : Parsed V
  parsed : Message V → Parsed V

-- The fields of `InternalConnection` that calls use; `closed` also stands for `writeLine === null`.
pub record Connection : Type 0 where
  pub pending : List ℕ
  pub next_request_id : ℕ
  pub line_buffer : Text
  pub closed : Bool

abbrev pub new_connection : Connection
new_connection = record { pending = []; next_request_id = 1; line_buffer = []; closed = false }

-- The code of `\n`.
abbrev pub newline : ℕ
newline = 10

-- The white space and line ends that `trim` takes off.
abbrev pub is_space : ℕ → Bool
is_space c =
    any (λ d. c == d)
      (9 ∷ 10 ∷ 11 ∷ 12 ∷ 13 ∷ 32 ∷ 160 ∷ 5760 ∷ 8192 ∷ 8193 ∷ 8194 ∷ 8195 ∷ 8196 ∷ 8197 ∷ 8198
        ∷ 8199 ∷ 8200 ∷ 8201 ∷ 8202 ∷ 8232 ∷ 8233 ∷ 8239 ∷ 8287 ∷ 12288 ∷ 65279 ∷ [])

unfoldable pub trim_start : Text → Text
unfolding any
trim_start [] = []
trim_start (c ∷ s) = if is_space c then trim_start s else c ∷ s

unfoldable pub trim : Text → Text
unfolding trim_start
trim s = reverse (trim_start (reverse (trim_start s)))

-- `conn.pending.delete(id)`
abbrev pub without : ℕ → List ℕ → List ℕ
without id ids = keep (λ j. not (id == j)) ids

module _ {V : Type 0} where
  -- `_rpcCall`, by whether the line is written.
  unfoldable pub rpc_call : Connection → (writes : Bool) → Connection × List (ℕ × Reply V)
  rpc_call c writes =
      if c.closed
      then (c, [])
      else if writes
      then (
        record c {
          pending = c.pending ++ c.next_request_id ∷ [];
          next_request_id = suc c.next_request_id;
        },
        [],
      )
      else (
        record c {
          pending = without c.next_request_id (c.pending ++ c.next_request_id ∷ []);
          next_request_id = suc c.next_request_id;
        },
        (c.next_request_id, write_failed) ∷ [],
      )

  -- How a message settles its call.
  abbrev pub reply_of : V → Option Text → Reply V
  reply_of result none = resolved result
  reply_of result (some message) = rejected message

  -- The loop's body on a message with an id.
  unfoldable pub answer : Connection → ℕ → Reply V → Connection × List (ℕ × Reply V)
  answer c id reply =
      if any (λ j. id == j) c.pending
      then (record c { pending = without id c.pending }, (id, reply) ∷ [])
      else (c, [])

  -- The loop's body on what the line parses to.
  unfoldable pub on_message : Connection → Parsed V → Connection × List (ℕ × Reply V)
  unfolding answer
  on_message c unparseable = (c, [])
  on_message c null_value = (c, [])
  on_message c (parsed m) = elim m.id [
    | none ↦ (c, [])
    | some id ↦ answer c id (reply_of m.result m.error)
  ]

  -- `msg.id` throws.
  abbrev pub access_throws : Parsed V → Bool
  access_throws unparseable = false
  access_throws null_value = true
  access_throws (parsed m) = false

  -- `_handleClose` and `_closeInternal`, for the calls.
  unfoldable pub close : Connection → Connection × List (ℕ × Reply V)
  close c =
      if c.closed
      then (c, [])
      else (record c { pending = []; closed = true }, map (λ id. (id, connection_closed)) c.pending)

  module _ (parse : Text → Parsed V) where
    -- The loop's body on a trimmed line.
    unfoldable pub on_line : Connection → Text → Connection × List (ℕ × Reply V)
    unfolding on_message
    on_line c [] = (c, [])
    on_line c (x ∷ line) = on_message c (parse (x ∷ line))

    -- Whether the loop's body throws on a trimmed line.
    unfoldable pub line_throws : Text → Bool
    line_throws [] = false
    line_throws (x ∷ line) = access_throws (parse (x ∷ line))

    -- The `while` loop, up to the line that throws. Each round takes a line end off the buffer, so the
    -- buffer's length is fuel enough.
    unfoldable pub process_lines : (fuel : ℕ) → Connection → Connection × List (ℕ × Reply V)
    unfolding on_line line_throws index_of take drop trim
    process_lines zero c = (c, [])
    process_lines (suc fuel) c = elim (index_of newline c.line_buffer) [
      | none ↦ (c, [])
      | some nl ↦
          let line = trim (take nl c.line_buffer) in
          let (c', settled) =
            on_line (record c { line_buffer = drop (suc nl) c.line_buffer }) line in
          let (c'', more) = process_lines fuel c' in
          if line_throws line then (c', settled) else (c'', settled ++ more)
    ]

    -- `_handleLine`
    unfoldable pub handle_line : Connection → (raw : Text) → Connection × List (ℕ × Reply V)
    unfolding process_lines
    handle_line c raw =
        let buffer = c.line_buffer ++ raw in
        process_lines (length buffer) (record c { line_buffer = buffer })
