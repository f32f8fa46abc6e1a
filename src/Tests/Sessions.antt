-- ===== src/Tests/Sessions.antt =====
-- Runs of src/bridge/session-registry.ts.
use mcp_conductor.Base.{
  ℕ, ◌≤◌, ◌-◌, ◌≡◌, refl, true, none, some, List, [], ◌∷◌, Text, codes, text_eq, lookup, insert,
  remove, Distinct, length, ltb, arith, if◌then◌else◌,
}
use mcp_conductor.Bridge.Sessions.{
  SessionRecord, SessionRegistry, new_sessions, evict_if_full, touch, sweep,
}
use mcp_conductor.Bridge.Sessions.Bound.{
  Proper, Event, created, touched, run, evict_if_full-oldest, run-new_sessions,
}
use mcp_conductor.Bridge.Sessions.Expiry.{touch-sweep, touch-touch}

abbrev session : Text → (seen : ℕ) → SessionRecord
session id seen = record { id = id; created_at = 0; last_seen_at = seen }

abbrev ann : Text
ann = codes "ann"

abbrev bob : Text
bob = codes "bob"

abbrev cid : Text
cid = codes "cid"

-- Two sessions, and room for no more.
abbrev two_sessions : SessionRegistry
two_sessions = record {
  sessions = (ann, session ann 50) ∷ (bob, session bob 20) ∷ [];
  cleanup_timer = true;
  ttl_ms = 100;
  cleanup_interval_ms = 10;
  max_sessions = 2;
}

two_sessions-Proper : Proper two_sessions.sessions
unfolding Distinct lookup text_eq
two_sessions-Proper = ((refl, (refl, tt)), refl)

-- Three sessions in a registry for two: the one seen longest ago goes.
abbrev events : List Event
events = created 97 [] 10 ∷ created 98 [] 20 ∷ touched (codes "a") 30 ∷ created 99 [] 40 ∷ []

kept :
    (run (new_sessions none none (some 2)) events).sessions
    ≡ (codes "a", record { id = codes "a"; created_at = 10; last_seen_at = 30 })
      ∷ (codes "c", record { id = codes "c"; created_at = 40; last_seen_at = 40 })
      ∷ []
unfolding run insert lookup new_sessions text_eq remove
kept = refl

run-new_sessions_example :
    let r = run (new_sessions none none (some 2)) events in
    (length r.sessions ≤ 2) × Distinct r.sessions
run-new_sessions_example = run-new_sessions none none 1 events

evict_if_full-oldest_example :
    (id : Text) × (s : SessionRecord) × (lookup id two_sessions.sessions ≡ some s)
    × ((j : Text) (t : SessionRecord)
        → lookup j two_sessions.sessions ≡ some t
        → s.last_seen_at ≤ t.last_seen_at)
    × (evict_if_full two_sessions
        ≡ record two_sessions { sessions = remove id two_sessions.sessions })
evict_if_full-oldest_example =
    evict_if_full-oldest two_sessions two_sessions-Proper (omega arith) (omega arith)

touch-sweep_example : (touch (sweep two_sessions 130).0 ann 140).1 ≡ (touch two_sessions ann 140).1
touch-sweep_example = touch-sweep two_sessions 130 140 ann two_sessions-Proper.0 (omega arith)

found : (touch two_sessions ann 60).1 ≡ some (session ann 60)
unfolding touch lookup text_eq
found = refl

touch-touch_example :
    (touch (touch two_sessions ann 60).0 ann 200).1
    ≡ (if ltb 100 (200 - 60) then none else some (session ann 200))
touch-touch_example = touch-touch two_sessions ann 60 200 (session ann 60) found
