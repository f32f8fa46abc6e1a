-- ===== src/Bridge/Pool.antt =====
-- The pool of src/bridge/pool.ts for one server: which connection a caller gets, who waits, and what
-- closing does. Connections go by their id, waiting calls by a number. The factory opens a channel at
-- once and reports nothing before it returns, so that `spawning` is 0 between steps and is left out.
-- A caller that gets a new connection goes on with it in a step of its own, as `acquire` waits for a
-- promise there; the timers and the delayed respawn are steps too.
pub mod Limits
pub mod Handing
pub mod Idle
use mcp_conductor.Base.{
  ℕ, zero, suc, ◌+◌, ◌-◌, Bool, true, false, not, ◌&&◌, ◌||◌, Option, none, some, List, [], ◌∷◌,
  ◌++◌, Text, text_eq, Dict, lookup, insert, remove, keep, length, any, ltb, ◌==◌, if◌then◌else◌,
}

-- `InternalConnection`, as far as the pool uses it: `idle_timer` says whether the timer runs.
pub record PoolConnection : Type 0 where
  pub busy : Bool
  pub idle_timer : Bool
  pub closed : Bool

-- The options and the `ServerEntry` of one server. `waiting` is the queue of calls, `respawns` counts
-- the respawns that are scheduled.
pub record ServerEntry : Type 0 where
  pub min_connections : ℕ
  pub max_connections : ℕ
  pub connections : Dict PoolConnection
  pub waiting : List ℕ
  pub respawns : ℕ
  pub is_shutting_down : Bool

-- What `acquire` answers: a connection, a new connection to go on with, a place in the queue.
pub data Acquired : Type 0 where
  handed : (id : Text) → Acquired
  spawned : (id : Text) → Acquired
  waits : Acquired
  shutting_down : Acquired

abbrev pub new_pool_connection : PoolConnection
new_pool_connection = record { busy = false; idle_timer = false; closed = false }

-- `_findIdle`
unfoldable pub find_idle : Dict PoolConnection → Option Text
find_idle [] = none
find_idle ((id, c) ∷ connections) =
    if not c.busy && not c.closed then some id else find_idle connections

-- A change of a connection that is in the map.
abbrev pub change_connection :
    (PoolConnection → PoolConnection)
    → Text
    → Dict PoolConnection
    → Option PoolConnection
    → Dict PoolConnection
change_connection f id connections none = connections
change_connection f id connections (some c) = insert id (f c) connections

-- `_markBusy`
unfoldable pub mark_busy : ServerEntry → Text → ServerEntry
unfolding insert lookup
mark_busy e id = record e {
  connections =
      change_connection (λ c. record c { busy = true; idle_timer = false }) id e.connections
        (lookup id e.connections);
}

-- `_spawnConnection`, with the new connection's id.
unfoldable pub spawn_connection : ServerEntry → Text → ServerEntry
unfolding insert
spawn_connection e id = record e { connections = insert id new_pool_connection e.connections }

-- `registerServer`, with the ids of the connections that it opens in advance.
unfoldable pub register_server : (min_connections max_connections : ℕ) → List Text → ServerEntry
unfolding spawn_connection
register_server min_connections max_connections [] = record {
  min_connections = min_connections;
  max_connections = max_connections;
  connections = [];
  waiting = [];
  respawns = 0;
  is_shutting_down = false;
}
register_server min_connections max_connections (id ∷ ids) =
    spawn_connection (register_server min_connections max_connections ids) id

-- `acquire` from the answer of `_findIdle` on, with the id that a new connection would get and the
-- number of the call.
unfoldable pub acquire_from :
    ServerEntry → (new_id : Text) (call : ℕ) (idle : Option Text) → ServerEntry × Acquired
unfolding mark_busy spawn_connection
acquire_from e new_id call (some id) = (mark_busy e id, handed id)
acquire_from e new_id call none =
    if ltb (length e.connections) e.max_connections
    then (spawn_connection e new_id, spawned new_id)
    else (record e { waiting = e.waiting ++ call ∷ [] }, waits)

-- `acquire`
unfoldable pub acquire : ServerEntry → (new_id : Text) (call : ℕ) → ServerEntry × Acquired
unfolding find_idle acquire_from
acquire e new_id call =
    if e.is_shutting_down
    then (e, shutting_down)
    else acquire_from e new_id call (find_idle e.connections)

-- The timer of a waiting call.
unfoldable pub acquire_timeout : ServerEntry → (call : ℕ) → ServerEntry
unfolding keep
acquire_timeout e call = record e { waiting = keep (λ w. not (w == call)) e.waiting }

-- `release` on the queue: the caller that gets the connection, if any.
unfoldable pub hand_over : ServerEntry → Text → PoolConnection → List ℕ → ServerEntry × Option ℕ
unfolding insert
hand_over e id c [] = (
  record e { connections = insert id (record c { busy = false; idle_timer = true }) e.connections },
  none,
)
hand_over e id c (w ∷ waiting) = (
  record e { connections = insert id (record c { busy = true }) e.connections; waiting = waiting },
  some w,
)

-- `release` on what the map holds.
unfoldable pub release_connection :
    ServerEntry → Text → Option PoolConnection → ServerEntry × Option ℕ
unfolding hand_over
release_connection e id none = (e, none)
release_connection e id (some c) = if c.closed then (e, none) else hand_over e id c e.waiting

-- `release`
unfoldable pub release : ServerEntry → Text → ServerEntry × Option ℕ
unfolding release_connection lookup
release e id = release_connection e id (lookup id e.connections)

-- `_handleClose`, for the pool, on what the map holds.
unfoldable pub close_connection : ServerEntry → Text → Option PoolConnection → ServerEntry
unfolding remove
close_connection e id none = e
close_connection e id (some c) =
    if c.closed
    then e
    else let connections = remove id e.connections in
      record e {
        connections = connections;
        respawns =
            if not e.is_shutting_down && ltb (length connections) e.min_connections
            then suc e.respawns
            else e.respawns;
      }

-- `_handleClose`
unfoldable pub handle_close : ServerEntry → Text → ServerEntry
unfolding close_connection lookup
handle_close e id = close_connection e id (lookup id e.connections)

-- `_drainWaiters`: a round takes a caller off the queue. Gives who got which connection.
unfoldable pub drain_waiters :
    (waiting : List ℕ) → Dict PoolConnection → Dict PoolConnection × List ℕ × List (ℕ × Text)
unfolding find_idle insert lookup
drain_waiters [] connections = (connections, [], [])
drain_waiters (w ∷ waiting) connections = elim (find_idle connections) [
  | none ↦ (connections, w ∷ waiting, [])
  | some id ↦
      let (connections', left, got) = drain_waiters waiting (
        change_connection (λ c. record c { busy = true }) id connections (lookup id connections)) in
      (connections', left, (w, id) ∷ got)
]

-- The scheduled respawn and what follows it.
unfoldable pub respawn : ServerEntry → (new_id : Text) → ServerEntry × List (ℕ × Text)
unfolding spawn_connection drain_waiters
respawn e new_id =
    if e.is_shutting_down
    then (record e { respawns = e.respawns - 1 }, [])
    else let e' = spawn_connection e new_id in
      let (connections, waiting, got) = drain_waiters e'.waiting e'.connections in
      (record e' { connections = connections; waiting = waiting; respawns = e.respawns - 1 }, got)

-- The idle timer, on what the map holds.
unfoldable pub expire_idle : ServerEntry → Text → Option PoolConnection → ServerEntry
unfolding remove
expire_idle e id none = e
expire_idle e id (some c) =
    if not c.busy && ltb e.min_connections (length e.connections)
    then record e { connections = remove id e.connections }
    else record e { connections = insert id (record c { idle_timer = false }) e.connections }

-- The callback of `_startIdleTimer`
unfoldable pub idle_timeout : ServerEntry → Text → ServerEntry
unfolding expire_idle lookup
idle_timeout e id = expire_idle e id (lookup id e.connections)

-- `shutdown`, for one server: the calls that are rejected.
unfoldable pub shutdown : ServerEntry → ServerEntry × List ℕ
shutdown e = (record e { is_shutting_down = true; connections = []; waiting = [] }, e.waiting)
