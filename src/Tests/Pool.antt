-- ===== src/Tests/Pool.antt =====
-- Runs of the pool of src/bridge/pool.ts.
use mcp_conductor.Base.{
  ◌+◌, ◌≤◌, ◌≡◌, refl, true, false, none, some, List, [], ◌∷◌, Text, codes, text_eq, lookup, insert,
  remove, Distinct, length, arith,
}
use mcp_conductor.Bridge.Pool.{
  PoolConnection, ServerEntry, handed, spawned, new_pool_connection, find_idle, register_server,
  acquire, handle_close, idle_timeout,
}
use mcp_conductor.Bridge.Pool.Limits.{
  Step, acquires, closes, respawns, run, respawned, run-register_server,
}
use mcp_conductor.Bridge.Pool.Handing.{
  IsIdle, acquire-handed, acquire-acquire, handle_close-overtaken,
}
use mcp_conductor.Bridge.Pool.Idle.{idle_timeout-spares}

abbrev a : Text
a = codes "a"

abbrev b : Text
b = codes "b"

abbrev c : Text
c = codes "c"

abbrev in_use : PoolConnection
in_use = record { busy = true; idle_timer = false; closed = false }

-- Two connections in use, one call that waits.
abbrev busy_entry : ServerEntry
busy_entry = record {
  min_connections = 1;
  max_connections = 2;
  connections = (a, in_use) ∷ (b, in_use) ∷ [];
  waiting = 7 ∷ [];
  respawns = 0;
  is_shutting_down = false;
}

-- One connection in use, and room for another.
abbrev roomy_entry : ServerEntry
roomy_entry = record busy_entry { connections = (a, in_use) ∷ []; waiting = [] }

abbrev idle_entry : ServerEntry
idle_entry = record busy_entry {
  connections = (a, in_use) ∷ (b, new_pool_connection) ∷ [];
  waiting = [];
}

-- A crash and a call before the respawn: two connections, though the maximum is one.
abbrev crash : List Step
crash = acquires b 1 ∷ closes a ∷ acquires b 2 ∷ respawns c ∷ []

too_many : length (run (register_server 1 1 (a ∷ [])) crash).connections ≡ 2
unfolding run register_server insert remove lookup text_eq find_idle
too_many = refl

run-register_server_example :
    length (run (register_server 1 1 (a ∷ [])) crash).connections ≤ 1 + respawned crash
run-register_server_example = run-register_server 1 1 (a ∷ []) crash (omega arith)

idle_entry-Distinct : Distinct idle_entry.connections
unfolding Distinct lookup text_eq
idle_entry-Distinct = (refl, (refl, tt))

b_handed : (acquire idle_entry c 3).1 ≡ handed b
unfolding acquire
b_handed = refl

acquire-handed_example :
    IsIdle (lookup b idle_entry.connections)
    × ((d : PoolConnection) × (lookup b (acquire idle_entry c 3).0.connections ≡ some d)
        × (d.busy ≡ true))
acquire-handed_example = acquire-handed idle_entry c b 3 idle_entry-Distinct b_handed

a_busy : find_idle roomy_entry.connections ≡ none
unfolding find_idle
a_busy = refl

c_new : lookup c roomy_entry.connections ≡ none
unfolding lookup text_eq
c_new = refl

acquire-acquire_example :
    ((acquire roomy_entry c 3).1 ≡ spawned c)
    × ((acquire (acquire roomy_entry c 3).0 b 4).1 ≡ handed c)
acquire-acquire_example = acquire-acquire roomy_entry c b 3 4 refl a_busy (omega arith) c_new

all_busy : find_idle busy_entry.connections ≡ none
unfolding find_idle
all_busy = refl

a_open : lookup a busy_entry.connections ≡ some in_use
unfolding lookup text_eq
a_open = refl

one_left : busy_entry.min_connections ≤ length (remove a busy_entry.connections)
unfolding remove text_eq
one_left = omega arith

handle_close-overtaken_example :
    let e' = handle_close busy_entry a in
    (e'.respawns ≡ 0) × ((acquire e' c 8).1 ≡ spawned c) × ((acquire e' c 8).0.waiting ≡ 7 ∷ [])
handle_close-overtaken_example =
    handle_close-overtaken busy_entry a c in_use 8 refl a_open refl all_busy (omega arith) one_left

idle_timeout-spares_example :
    (idle_entry.min_connections ≤ length (idle_timeout idle_entry a).connections)
    × ((d : PoolConnection)
        → lookup a idle_entry.connections ≡ some d
        → d.busy ≡ true
        → lookup a (idle_timeout idle_entry a).connections ≡ some (record d { idle_timer = false }))
idle_timeout-spares_example = idle_timeout-spares idle_entry a idle_entry-Distinct (omega arith)
