-- ===== src/Tests/Bridge.antt =====
-- Runs of the connections of src/bridge/pool.ts, with a parser of lines that are a digit, the request's
-- number, and a text, the result, or the text `null`.
use mcp_conductor.Base.{
  ◌-◌, ◌≡◌, refl, true, false, none, some, List, [], ◌∷◌, ◌++◌, Text, codes, text_eq, keep,
  if◌then◌else◌,
}
use mcp_conductor.Bridge.Rpc.{
  Connection, Parsed, unparseable, null_value, parsed, resolved, write_failed, connection_closed,
  new_connection, newline, handle_line,
}
use mcp_conductor.Bridge.Rpc.Lines.{cut_lines, join_lines}
use mcp_conductor.Bridge.Rpc.Framing.{
  on_lines, read_lines, unread_lines, NoneThrows, handle_line-cut, handle_line-chunks,
}
use mcp_conductor.Bridge.Rpc.Settling.{
  Event, called, output, ended, run, Accounted, run-new_connection,
}

abbrev null_text : Text
null_text = codes "null"

abbrev digit_and_text : Text → Parsed Text
digit_and_text [] = unparseable
digit_and_text (d ∷ s) =
    if text_eq (d ∷ s) null_text
    then null_value
    else parsed (record { id = some (d - 48); result = s; error = none })

-- The backend's two answers, in the other order, cut inside the first.
abbrev first_chunk : Text
first_chunk = codes "2b"

abbrev second_chunk : Text
second_chunk = codes "ee" ++ newline ∷ codes "1ant" ++ newline ∷ codes "3"

abbrev two_calls : Connection
two_calls = record new_connection { pending = 1 ∷ 2 ∷ []; next_request_id = 3 }

two_answers :
    (handle_line digit_and_text two_calls (first_chunk ++ second_chunk)).1
    ≡ (2, resolved (codes "bee")) ∷ (1, resolved (codes "ant")) ∷ []
unfolding handle_line text_eq keep
two_answers = refl

-- A line `null` between the two answers leaves the second one in the buffer.
abbrev broken_chunk : Text
broken_chunk =
    codes "2bee" ++ newline ∷ (codes "null" ++ newline ∷ (codes "1ant" ++ newline ∷ codes "3"))

one_answer : handle_line digit_and_text two_calls broken_chunk ≡ (
  record two_calls { pending = 1 ∷ []; line_buffer = codes "1ant" ++ newline ∷ codes "3" },
  (2, resolved (codes "bee")) ∷ [],
)
unfolding handle_line text_eq keep
one_answer = refl

first_chunk-NoneThrows :
    NoneThrows digit_and_text (cut_lines (two_calls.line_buffer ++ first_chunk)).lines
unfolding NoneThrows cut_lines
first_chunk-NoneThrows = tt

handle_line-cut_example :
    let cut = cut_lines broken_chunk in
    let read = read_lines digit_and_text cut.lines in
    ((handle_line digit_and_text two_calls broken_chunk).0
      ≡ record (on_lines digit_and_text two_calls read).0 {
        line_buffer = join_lines (unread_lines digit_and_text cut.lines) ++ cut.rest;
      })
    × ((handle_line digit_and_text two_calls broken_chunk).1
        ≡ (on_lines digit_and_text two_calls read).1)
handle_line-cut_example = handle_line-cut digit_and_text two_calls broken_chunk

handle_line-chunks_example :
    ((handle_line digit_and_text
        (handle_line digit_and_text two_calls first_chunk).0
        second_chunk).0
      ≡ (handle_line digit_and_text two_calls (first_chunk ++ second_chunk)).0)
    × ((handle_line digit_and_text two_calls first_chunk).1
          ++ (handle_line digit_and_text
              (handle_line digit_and_text two_calls first_chunk).0
              second_chunk).1
        ≡ (handle_line digit_and_text two_calls (first_chunk ++ second_chunk)).1)
handle_line-chunks_example =
    handle_line-chunks digit_and_text two_calls first_chunk second_chunk first_chunk-NoneThrows

abbrev events : List Event
events = called true ∷ called false ∷ called true ∷ output (codes "3x" ++ newline ∷ []) ∷ ended ∷ []

a_run :
    (run digit_and_text new_connection [] events).1
    ≡ (2, write_failed) ∷ (3, resolved (codes "x")) ∷ (1, connection_closed) ∷ []
unfolding run text_eq keep
a_run = refl

run-new_connection_example :
    Accounted
      (run digit_and_text new_connection [] events).0
      (run digit_and_text new_connection [] events).1
run-new_connection_example = run-new_connection digit_and_text events
