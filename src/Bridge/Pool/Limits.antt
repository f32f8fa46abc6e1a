-- ===== src/Bridge/Pool/Limits.antt =====
-- How many connections the pool of src/bridge/pool.ts holds for a server.
use mcp_conductor.Base.{
  ℕ, suc, ◌+◌, ◌≤◌, ◌≡◌, refl, ◌∙◌, Bool, true, false, not, ◌&&◌, Option, none, some, List, [], ◌∷◌,
  Text, Dict, lookup, insert, length, length-insert, length-insert-some, length-remove, ltb, arith,
  if◌then◌else◌, Bool-cases, Option-cases, inl, inr,
}
use mcp_conductor.Bridge.Pool.{
  PoolConnection, ServerEntry, new_pool_connection, find_idle, change_connection, mark_busy,
  spawn_connection, register_server, acquire_from, acquire, acquire_timeout, hand_over,
  release_connection, release, close_connection, handle_close, drain_waiters, respawn, expire_idle,
  idle_timeout, shutdown,
}

-- What happens to the connections of a server.
pub data Step : Type 0 where
  acquires : (new_id : Text) (call : ℕ) → Step
  resumes : (id : Text) → Step
  times_out : (call : ℕ) → Step
  releases : (id : Text) → Step
  closes : (id : Text) → Step
  respawns : (new_id : Text) → Step
  idles : (id : Text) → Step
  shuts_down : Step

unfoldable pub step : ServerEntry → Step → ServerEntry
unfolding acquire mark_busy acquire_timeout release handle_close respawn idle_timeout shutdown
step e (acquires new_id call) = (acquire e new_id call).0
step e (resumes id) = mark_busy e id
step e (times_out call) = acquire_timeout e call
step e (releases id) = (release e id).0
step e (closes id) = handle_close e id
step e (respawns new_id) = (respawn e new_id).0
step e (idles id) = idle_timeout e id
step e shuts_down = (shutdown e).0

unfoldable pub run : ServerEntry → List Step → ServerEntry
unfolding step
run e [] = e
run e (s ∷ steps) = run (step e s) steps

-- How many of the steps are respawns.
unfoldable pub respawned : List Step → ℕ
respawned [] = 0
respawned (respawns id ∷ steps) = suc (respawned steps)
respawned (_ ∷ steps) = respawned steps

length-change_connection :
    (f : PoolConnection → PoolConnection) (id : Text) (m : Dict PoolConnection)
    → length (change_connection f id m (lookup id m)) ≡ length m
length-change_connection f id m = elim (Option-cases (lookup id m)) [
  | inl e ↦ rw e refl
  | inr (c, e) ↦ rw e (length-insert-some id (f c) c m e)
]

-- The number of connections, with the options, that the steps keep below a bound.
abbrev Within : ℕ → ServerEntry → Type 0
Within bound e = (length e.connections ≤ bound) × (e.max_connections ≤ bound)

mark_busy-Within :
    (bound : ℕ) (e : ServerEntry) (id : Text) → Within bound e → Within bound (mark_busy e id)
unfolding mark_busy
mark_busy-Within bound e id w = (
  omega (
    arith,
    length-change_connection (λ c. record c { busy = true; idle_timer = false }) id e.connections,
    w.0,
  ),
  w.1,
)

acquire_from-Within :
    (bound : ℕ) (e : ServerEntry) (new_id : Text) (call : ℕ) (idle : Option Text)
    → Within bound e
    → Within bound (acquire_from e new_id call idle).0
unfolding acquire_from spawn_connection
acquire_from-Within bound e new_id call (some id) w = mark_busy-Within bound e id w
acquire_from-Within bound e new_id call none w =
    elim (Bool-cases (ltb (length e.connections) e.max_connections)) [
      | inl r ↦
          rw r
            (ground (arith, length-insert new_id new_pool_connection e.connections, w.0, w.1), w.1)
      | inr r ↦ rw r w
    ]

acquire-Within :
    (bound : ℕ) (e : ServerEntry) (new_id : Text) (call : ℕ)
    → Within bound e
    → Within bound (acquire e new_id call).0
unfolding acquire
acquire-Within bound e new_id call w = elim (Bool-cases e.is_shutting_down) [
  | inl p ↦ rw p w
  | inr p ↦ simp p (acquire_from-Within bound e new_id call (find_idle e.connections) w)
]

hand_over-Within :
    (bound : ℕ) (e : ServerEntry) (id : Text) (c : PoolConnection) (waiting : List ℕ)
    → lookup id e.connections ≡ some c
    → Within bound e
    → Within bound (hand_over e id c waiting).0
unfolding hand_over
hand_over-Within bound e id c [] f w = (
  omega (
    arith,
    length-insert-some id (record c { busy = false; idle_timer = true }) c e.connections f,
    w.0,
  ),
  w.1,
)
hand_over-Within bound e id c (x ∷ waiting) f w =
    (omega (arith, length-insert-some id (record c { busy = true }) c e.connections f, w.0), w.1)

if-Within :
    (bound : ℕ) (b : Bool) (x y : ServerEntry × Option ℕ)
    → Within bound x.0
    → Within bound y.0
    → Within bound (if b then x else y).0
if-Within bound true x y v w = v
if-Within bound false x y v w = w

release_connection-Within :
    (bound : ℕ) (e : ServerEntry) (id : Text) (o : Option PoolConnection)
    → lookup id e.connections ≡ o
    → Within bound e
    → Within bound (release_connection e id o).0
unfolding release_connection
release_connection-Within bound e id none f w = w
release_connection-Within bound e id (some c) f w =
    if-Within bound c.closed (e, none) (hand_over e id c e.waiting) w
      (hand_over-Within bound e id c e.waiting f w)

close_connection-Within :
    (bound : ℕ) (e : ServerEntry) (id : Text) (o : Option PoolConnection)
    → Within bound e
    → Within bound (close_connection e id o)
unfolding close_connection
close_connection-Within bound e id none w = w
close_connection-Within bound e id (some c) w = elim (Bool-cases c.closed) [
  | inl p ↦ rw p w
  | inr p ↦ rw p (omega (arith, length-remove id e.connections, w.0), w.1)
]

length-drain_waiters :
    (waiting : List ℕ) (m : Dict PoolConnection) → length (drain_waiters waiting m).0 ≡ length m
unfolding drain_waiters
length-drain_waiters [] m = refl
length-drain_waiters (w ∷ waiting) m = elim (Option-cases (find_idle m)) [
  | inl e ↦ rw (drain_waiters, e) refl
  | inr (id, e) ↦
      rw (drain_waiters, e)
        (length-drain_waiters waiting _
          ∙ length-change_connection (λ c. record c { busy = true }) id m)
]

respawn-Within :
    (bound : ℕ) (e : ServerEntry) (new_id : Text)
    → Within bound e
    → Within (suc bound) (respawn e new_id).0
unfolding respawn spawn_connection
respawn-Within bound e new_id w = elim (Bool-cases e.is_shutting_down) [
  | inl p ↦ rw p (omega (arith, w.0), omega (arith, w.1))
  | inr p ↦
      let opened = insert new_id new_pool_connection e.connections in
      rw p (
        omega (
          arith,
          length-drain_waiters e.waiting opened,
          length-insert new_id new_pool_connection e.connections,
          w.0,
        ),
        omega (arith, w.1),
      )
]

expire_idle-Within :
    (bound : ℕ) (e : ServerEntry) (id : Text) (o : Option PoolConnection)
    → lookup id e.connections ≡ o
    → Within bound e
    → Within bound (expire_idle e id o)
unfolding expire_idle
expire_idle-Within bound e id none f w = w
expire_idle-Within bound e id (some c) f w =
    elim (Bool-cases (not c.busy && ltb e.min_connections (length e.connections))) [
      | inl p ↦ rw p (omega (arith, length-remove id e.connections, w.0), w.1)
      | inr p ↦ rw p (
        omega
            (arith, length-insert-some id (record c { idle_timer = false }) c e.connections f, w.0),
        w.1,
      )
    ]

-- The bound after a step.
unfoldable pub next_bound : ℕ → Step → ℕ
next_bound bound (respawns new_id) = suc bound
next_bound bound _ = bound

step-Within :
    (bound : ℕ) (e : ServerEntry) (s : Step)
    → Within bound e
    → Within (next_bound bound s) (step e s)
unfolding step next_bound release handle_close idle_timeout acquire_timeout shutdown
step-Within bound e (acquires new_id call) w = acquire-Within bound e new_id call w
step-Within bound e (resumes id) w = mark_busy-Within bound e id w
step-Within bound e (times_out call) w = w
step-Within bound e (releases id) w =
    release_connection-Within bound e id (lookup id e.connections) refl w
step-Within bound e (closes id) w = close_connection-Within bound e id (lookup id e.connections) w
step-Within bound e (respawns new_id) w = respawn-Within bound e new_id w
step-Within bound e (idles id) w = expire_idle-Within bound e id (lookup id e.connections) refl w
step-Within bound e shuts_down w = (omega arith, w.1)

next_bound-respawned :
    (bound : ℕ) (s : Step) (steps : List Step)
    → next_bound bound s + respawned steps ≡ bound + respawned (s ∷ steps)
unfolding next_bound respawned
next_bound-respawned bound (respawns new_id) steps = omega arith
next_bound-respawned bound (acquires new_id call) steps = refl
next_bound-respawned bound (resumes id) steps = refl
next_bound-respawned bound (times_out call) steps = refl
next_bound-respawned bound (releases id) steps = refl
next_bound-respawned bound (closes id) steps = refl
next_bound-respawned bound (idles id) steps = refl
next_bound-respawned bound shuts_down steps = refl

run-Within :
    (steps : List Step) (bound : ℕ) (e : ServerEntry)
    → Within bound e
    → length (run e steps).connections ≤ bound + respawned steps
unfolding run respawned
run-Within [] bound e w = omega (arith, w.0)
run-Within (s ∷ steps) bound e w = omega (
  arith,
  next_bound-respawned bound s steps,
  run-Within steps (next_bound bound s) (step e s) (step-Within bound e s w),
)

register_server-Within :
    (low high : ℕ) (ids : List Text)
    → (length (register_server low high ids).connections ≤ length ids)
      × ((register_server low high ids).max_connections ≡ high)
unfolding register_server spawn_connection
register_server-Within low high [] = (omega arith, refl)
register_server-Within low high (id ∷ ids) =
    let (few, same) = register_server-Within low high ids in
    (
      omega (
        arith,
        few,
        length-insert id new_pool_connection (register_server low high ids).connections,
      ),
      same,
    )

-- A server that opens no more connections in advance than its maximum holds, after any steps, at most
-- the maximum and as many connections beyond it as there were respawns: nothing but a respawn after a
-- crash exceeds the maximum.
pub run-register_server :
    (low high : ℕ) (ids : List Text) (steps : List Step)
    → length ids ≤ high
    → length (run (register_server low high ids) steps).connections ≤ high + respawned steps
run-register_server low high ids steps h =
    let (few, same) = register_server-Within low high ids in
    run-Within steps high (register_server low high ids)
      (omega (arith, few, h), omega (arith, same))
