-- ===== src/Bridge/Sessions/Expiry.antt =====
-- When the sessions of src/bridge/session-registry.ts end.
use mcp_conductor.Base.{
  ℕ, ◌-◌, ◌≤◌, ◌≡◌, refl, sym, ap, ◌∙◌, true, false, not, Option, none, some, Text, text_eq_refl,
  lookup, insert, remove, Distinct, lookup-insert, lookup-keep_entries, passing, ltb, arith,
  if◌then◌else◌, Bool-cases, inl, inr,
}
use mathlib.Core.Option.{some-injective}
use mcp_conductor.Bridge.Sessions.{
  SessionRecord, SessionRegistry, is_expired, touch, touch_record, sweep,
}

-- The sessions that a client can still use: what the registry promises.
unfoldable pub live_session : SessionRegistry → (now : ℕ) → Text → Option SessionRecord
live_session r now id = passing (λ id s. not (is_expired r.ttl_ms now s)) id (lookup id r.sessions)

seen_at : (now : ℕ) → Option SessionRecord → Option SessionRecord
seen_at now none = none
seen_at now (some s) = some (record s { last_seen_at = now })

touch_record-result :
    (r : SessionRegistry) (id : Text) (now : ℕ) (o : Option SessionRecord)
    → (touch_record r id now o).1
      ≡ seen_at now (passing (λ id s. not (is_expired r.ttl_ms now s)) id o)
unfolding touch_record seen_at
touch_record-result r id now none = refl
touch_record-result r id now (some s) = ground arith

touch-result :
    (r : SessionRegistry) (id : Text) (now : ℕ)
    → (touch r id now).1 ≡ seen_at now (live_session r now id)
unfolding touch live_session
touch-result r id now = touch_record-result r id now (lookup id r.sessions)

passing-later :
    (ttl now later : ℕ) (id : Text) (o : Option SessionRecord)
    → now ≤ later
    → passing
        (λ id s. not (is_expired ttl later s))
        id
        (passing (λ id s. not (is_expired ttl now s)) id o)
      ≡ passing (λ id s. not (is_expired ttl later s)) id o
passing-later ttl now later id none h = refl
passing-later ttl now later id (some s) h = ground arith

sweep-live_session :
    (r : SessionRegistry) (now later : ℕ) (id : Text)
    → Distinct r.sessions
    → now ≤ later
    → live_session (sweep r now).0 later id ≡ live_session r later id
unfolding sweep live_session
sweep-live_session r now later id d h =
    ap (passing (λ id s. not (is_expired r.ttl_ms later s)) id)
      (lookup-keep_entries (λ id s. not (is_expired r.ttl_ms now s)) id r.sessions d)
    ∙ passing-later r.ttl_ms now later id (lookup id r.sessions) h

-- No client can tell whether a sweep has run: with and without it, each later `touch` gives the same.
pub touch-sweep :
    (r : SessionRegistry) (now later : ℕ) (id : Text)
    → Distinct r.sessions
    → now ≤ later
    → (touch (sweep r now).0 id later).1 ≡ (touch r id later).1
touch-sweep r now later id d h =
    touch-result (sweep r now).0 id later
    ∙ ap (seen_at later) (sweep-live_session r now later id d h)
    ∙ sym (touch-result r id later)

touch_record-expired :
    (r : SessionRegistry) (id : Text) (now : ℕ) (t : SessionRecord)
    → is_expired r.ttl_ms now t ≡ true
    → touch_record r id now (some t) ≡ (record r { sessions = remove id r.sessions }, none)
unfolding touch_record
touch_record-expired r id now t e = rw e refl

touch_record-kept :
    (r : SessionRegistry) (id : Text) (now : ℕ) (t : SessionRecord)
    → is_expired r.ttl_ms now t ≡ false
    → let s = record t { last_seen_at = now } in
      touch_record r id now (some t) ≡ (record r { sessions = insert id s r.sessions }, some s)
unfolding touch_record
touch_record-kept r id now t e = rw e refl

found_record :
    (r : SessionRegistry) (id : Text) (now : ℕ) (s : SessionRecord) (o : Option SessionRecord)
    → lookup id r.sessions ≡ o
    → (touch_record r id now o).1 ≡ some s
    → (lookup id (touch_record r id now o).0.sessions ≡ some s)
      × ((touch_record r id now o).0.ttl_ms ≡ r.ttl_ms)
      × (s.last_seen_at ≡ now)
found_record r id now s none e h = absurd (unfold touch_record in ground arith)
found_record r id now s (some t) e h = elim (Bool-cases (is_expired r.ttl_ms now t)) [
  | inl p ↦ absurd (ground (arith, sym (ap (λ x. x.1) (touch_record-expired r id now t p)) ∙ h))
  | inr p ↦
      let kept = touch_record-kept r id now t p in
      let q = sym (ap (λ x. x.1) kept) ∙ h in
      rw kept (
        rw (lookup-insert id id (record t { last_seen_at = now }) r.sessions, text_eq_refl id) q,
        refl,
        sym (ap (λ x. x.last_seen_at) (some-injective _ s q)),
      )
]

-- A session that was found lives on from that time: the next `touch` finds it exactly if no more than
-- the time to live has passed since.
pub touch-touch :
    (r : SessionRegistry) (id : Text) (now later : ℕ) (s : SessionRecord)
    → (touch r id now).1 ≡ some s
    → (touch (touch r id now).0 id later).1
      ≡ (if ltb r.ttl_ms (later - now) then none else some (record s { last_seen_at = later }))
unfolding touch touch_record
touch-touch r id now later s h =
    let (found, same, seen) = found_record r id now s (lookup id r.sessions) refl h in
    rw (found, same, seen) (ground arith)
