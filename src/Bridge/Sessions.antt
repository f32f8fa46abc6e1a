-- ===== src/Bridge/Sessions.antt =====
-- src/bridge/session-registry.ts. The id that `randomUUID` gives and the time are arguments, and so
-- is the cleanup timer's firing, which is a call of `sweep`.
pub mod Bound
pub mod Expiry
use mcp_conductor.Base.{
  ℕ, ◌+◌, ◌-◌, ◌*◌, Bool, true, false, not, Option, none, some, List, [], ◌∷◌, Text, Dict, lookup,
  insert, remove, keep_entries, length, ltb, is_some, or_default, if◌then◌else◌,
}

pub record SessionRecord : Type 0 where
  pub id : Text
  pub created_at : ℕ
  pub last_seen_at : ℕ

pub record SessionRegistry : Type 0 where
  pub sessions : Dict SessionRecord
  pub cleanup_timer : Bool
  pub ttl_ms : ℕ
  pub cleanup_interval_ms : ℕ
  pub max_sessions : ℕ

-- `LIFECYCLE_TIMEOUTS.BRIDGE_SESSION_TTL_MS`
abbrev pub bridge_session_ttl_ms : ℕ
bridge_session_ttl_ms = 30 * 60000

-- `LIFECYCLE_TIMEOUTS.BRIDGE_SESSION_CLEANUP_INTERVAL_MS`
abbrev pub bridge_session_cleanup_interval_ms : ℕ
bridge_session_cleanup_interval_ms = 5 * 60000

-- `MAX_BRIDGE_SESSIONS`
abbrev pub max_bridge_sessions : ℕ
max_bridge_sessions = 1000

-- The constructor.
unfoldable pub new_sessions : (ttl_ms cleanup_interval_ms max_sessions : Option ℕ) → SessionRegistry
new_sessions ttl_ms cleanup_interval_ms max_sessions = record {
  sessions = [];
  cleanup_timer = false;
  ttl_ms = or_default ttl_ms bridge_session_ttl_ms;
  cleanup_interval_ms = or_default cleanup_interval_ms bridge_session_cleanup_interval_ms;
  max_sessions = or_default max_sessions max_bridge_sessions;
}

-- `start`
unfoldable pub start : SessionRegistry → SessionRegistry
start r = if r.cleanup_timer then r else record r { cleanup_timer = true }

-- `stop`
unfoldable pub stop : SessionRegistry → SessionRegistry
stop r = record r { cleanup_timer = false; sessions = [] }

-- The session that was seen longest ago, the first one of several.
abbrev pub earlier : Option (Text × ℕ) → Text → ℕ → Option (Text × ℕ)
earlier none id seen = some (id, seen)
earlier (some (oldest, oldest_seen)) id seen =
    if ltb seen oldest_seen then some (id, seen) else some (oldest, oldest_seen)

-- The loop of `evictIfFull`.
unfoldable pub oldest_from : Option (Text × ℕ) → Dict SessionRecord → Option (Text × ℕ)
oldest_from best [] = best
oldest_from best ((id, s) ∷ sessions) = oldest_from (earlier best id s.last_seen_at) sessions

-- `if (oldestId)`: an empty id counts as none.
abbrev pub delete_oldest : SessionRegistry → Option (Text × ℕ) → SessionRegistry
delete_oldest r none = r
delete_oldest r (some ([], seen)) = r
delete_oldest r (some (c ∷ id, seen)) = record r { sessions = remove (c ∷ id) r.sessions }

-- `evictIfFull`
unfoldable pub evict_if_full : SessionRegistry → SessionRegistry
unfolding oldest_from
evict_if_full r =
    if ltb (length r.sessions) r.max_sessions
    then r
    else delete_oldest r (oldest_from none r.sessions)

-- `create`
unfoldable pub create : SessionRegistry → (uuid : Text) (now : ℕ) → SessionRegistry × Text
unfolding evict_if_full
create r uuid now =
    let r' = evict_if_full r in
    (
      record r' {
        sessions =
            insert uuid (record { id = uuid; created_at = now; last_seen_at = now }) r'.sessions;
      },
      uuid,
    )

-- `now - record.lastSeenAt > this.ttlMs`
abbrev pub is_expired : (ttl now : ℕ) → SessionRecord → Bool
is_expired ttl now s = ltb ttl (now - s.last_seen_at)

-- `touch` on what the map holds.
unfoldable pub touch_record :
    SessionRegistry
    → Text
    → (now : ℕ) → Option SessionRecord
    → SessionRegistry × Option SessionRecord
touch_record r id now none = (r, none)
touch_record r id now (some s) =
    if is_expired r.ttl_ms now s
    then (record r { sessions = remove id r.sessions }, none)
    else let s' = record s { last_seen_at = now } in
      (record r { sessions = insert id s' r.sessions }, some s')

-- `touch`
unfoldable pub touch : SessionRegistry → Text → (now : ℕ) → SessionRegistry × Option SessionRecord
unfolding touch_record
touch r id now = touch_record r id now (lookup id r.sessions)

-- `terminate`
unfoldable pub terminate : SessionRegistry → Text → SessionRegistry × Bool
terminate r id = (record r { sessions = remove id r.sessions }, is_some (lookup id r.sessions))

-- `sweep`
unfoldable pub sweep : SessionRegistry → (now : ℕ) → SessionRegistry × ℕ
sweep r now =
    let left = keep_entries (λ id s. not (is_expired r.ttl_ms now s)) r.sessions in
    (record r { sessions = left }, length r.sessions - length left)
