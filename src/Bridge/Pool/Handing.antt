-- ===== src/Bridge/Pool/Handing.antt =====
-- Who gets which connection from the pool of src/bridge/pool.ts.
use mcp_conductor.Base.{
  ℕ, ◌≤◌, ◌<◌, ◌≡◌, ◌⊎◌, refl, sym, ap, subst, ◌∙◌, Bool, true, false, not, ◌&&◌, Option, none,
  some, [], ◌∷◌, ◌++◌, Text, text_eq, text_eq_refl, text_eq_iff, Dict, lookup, insert, remove,
  Distinct, lookup-insert, length, length-remove-some, lt→ltb, arith, if◌then◌else◌, Bool-cases,
  Option-cases, inl, inr,
}
use mathlib.Core.Option.{some-injective}
use mcp_conductor.Bridge.Pool.{
  PoolConnection, ServerEntry, handed, spawned, waits, new_pool_connection, find_idle, mark_busy,
  spawn_connection, acquire_from, acquire, shutting_down, close_connection, handle_close,
}

-- A connection that is open and that nobody has.
unfoldable pub IsIdle : Option PoolConnection → Type 0
IsIdle none = ⊥
IsIdle (some c) = (c.busy ≡ false) × (c.closed ≡ false)

open-IsIdle : (c : PoolConnection) → (not c.busy && not c.closed) ≡ true → IsIdle (some c)
unfolding IsIdle
open-IsIdle c h = (ground arith, ground arith)

found_idle :
    (p : Bool) (j id : Text) (o : Option Text)
    → (if p then some j else o) ≡ some id
    → ((p ≡ true) × (j ≡ id)) ⊎ (o ≡ some id)
found_idle true j id o h = inl (refl, some-injective j id h)
found_idle false j id o h = inr h

find_idle-IsIdle :
    (m : Dict PoolConnection) (id : Text)
    → Distinct m
    → find_idle m ≡ some id
    → IsIdle (lookup id m)
unfolding find_idle IsIdle lookup Distinct
find_idle-IsIdle [] id d h = absurd (ground arith)
find_idle-IsIdle ((j, c) ∷ m) id d h =
    elim (found_idle (not c.busy && not c.closed) j id (find_idle m) h) [
      | inl (p, e) ↦ rw ((text_eq_iff j id).1 e) (open-IsIdle c p)
      | inr later ↦ elim (Bool-cases (text_eq j id)) [
        | inl p ↦ absurd (
            subst IsIdle (ap (λ k. lookup k m) (sym ((text_eq_iff j id).0 p)) ∙ d.0)
              (find_idle-IsIdle m id d.1 later))
        | inr p ↦ rw p (find_idle-IsIdle m id d.1 later)
      ]
    ]

find_idle-insert :
    (m : Dict PoolConnection) (id : Text)
    → find_idle m ≡ none
    → lookup id m ≡ none
    → find_idle (insert id new_pool_connection m) ≡ some id
unfolding find_idle insert lookup
find_idle-insert [] id h f = refl
find_idle-insert ((j, c) ∷ m) id h f = ground (arith, find_idle-insert m id)

find_idle-remove :
    (m : Dict PoolConnection) (id : Text) → find_idle m ≡ none → find_idle (remove id m) ≡ none
unfolding find_idle remove
find_idle-remove [] id h = refl
find_idle-remove ((j, c) ∷ m) id h = ground (arith, find_idle-remove m id)

acquire-open :
    (e : ServerEntry) (new_id : Text) (call : ℕ)
    → e.is_shutting_down ≡ false
    → acquire e new_id call ≡ acquire_from e new_id call (find_idle e.connections)
unfolding acquire
acquire-open e new_id call s =
    ap (λ b. if b then (e, shutting_down) else acquire_from e new_id call (find_idle e.connections))
      s

acquire-shut :
    (e : ServerEntry) (new_id : Text) (call : ℕ)
    → e.is_shutting_down ≡ true
    → (acquire e new_id call).1 ≡ shutting_down
unfolding acquire
acquire-shut e new_id call s =
    ap
      (λ b.
        (if b then (e, shutting_down) else acquire_from e new_id call (find_idle e.connections)).1)
      s

acquire-spawned :
    (e : ServerEntry) (new_id : Text) (call : ℕ)
    → e.is_shutting_down ≡ false
    → find_idle e.connections ≡ none
    → length e.connections < e.max_connections
    → acquire e new_id call ≡ (spawn_connection e new_id, spawned new_id)
unfolding acquire_from
acquire-spawned e new_id call s i r =
    acquire-open e new_id call s
    ∙ ap (acquire_from e new_id call) i
    ∙ ap
        (λ b.
          if b
          then (spawn_connection e new_id, spawned new_id)
          else (record e { waiting = e.waiting ++ call ∷ [] }, waits))
        (lt→ltb (length e.connections) e.max_connections r)

-- A new connection is idle until its caller goes on, so the next call gets it too: after two calls of
-- `acquire` that find no idle connection and room for one, both callers have the same connection.
pub acquire-acquire :
    (e : ServerEntry) (new_id other_id : Text) (call later : ℕ)
    → e.is_shutting_down ≡ false
    → find_idle e.connections ≡ none
    → length e.connections < e.max_connections
    → lookup new_id e.connections ≡ none
    → ((acquire e new_id call).1 ≡ spawned new_id)
      × ((acquire (acquire e new_id call).0 other_id later).1 ≡ handed new_id)
unfolding spawn_connection acquire_from
acquire-acquire e new_id other_id call later s i r f =
    let first = acquire-spawned e new_id call s i r in
    (
      ap (λ x. x.1) first,
      ap (λ x. (acquire x.0 other_id later).1) first
          ∙ ap (λ x. x.1) (acquire-open (spawn_connection e new_id) other_id later s)
          ∙ ap (λ o. (acquire_from (spawn_connection e new_id) other_id later o).1)
              (find_idle-insert e.connections new_id i f),
    )

closed_entry : ServerEntry → Text → ServerEntry
closed_entry e id =
    (close_connection e id (some (record { busy = false; idle_timer = false; closed = false })))

handle_close-closed :
    (e : ServerEntry) (id : Text) (c : PoolConnection)
    → lookup id e.connections ≡ some c
    → c.closed ≡ false
    → handle_close e id ≡ closed_entry e id
unfolding handle_close closed_entry close_connection
handle_close-closed e id c f o = ap (close_connection e id) f ∙ simp o refl

unscheduled :
    (e : ServerEntry) (id : Text)
    → e.is_shutting_down ≡ false
    → e.min_connections ≤ length (remove id e.connections)
    → (closed_entry e id).respawns ≡ e.respawns
unfolding closed_entry close_connection
unscheduled e id s enough = ground arith

-- A call that waits is not served when a connection closes and enough are left for the minimum: no
-- respawn is scheduled, and the next call opens a new connection for itself and overtakes it.
pub handle_close-overtaken :
    (e : ServerEntry) (id new_id : Text) (c : PoolConnection) (call : ℕ)
    → e.is_shutting_down ≡ false
    → lookup id e.connections ≡ some c
    → c.closed ≡ false
    → find_idle e.connections ≡ none
    → length e.connections ≤ e.max_connections
    → e.min_connections ≤ length (remove id e.connections)
    → let e' = handle_close e id in
      (e'.respawns ≡ e.respawns)
      × ((acquire e' new_id call).1 ≡ spawned new_id)
      × ((acquire e' new_id call).0.waiting ≡ e.waiting)
unfolding closed_entry close_connection spawn_connection
handle_close-overtaken e id new_id c call s f o i m enough =
    let closed : handle_close e id ≡ closed_entry e id = handle_close-closed e id c f o in
    let spawn =
      acquire-spawned (closed_entry e id) new_id call s (find_idle-remove e.connections id i)
        (omega (arith, length-remove-some id c e.connections f, m)) in
    rw closed (unscheduled e id s enough, ap (λ x. x.1) spawn, ap (λ x. x.0.waiting) spawn)

mark_busy-lookup :
    (e : ServerEntry) (id : Text)
    → IsIdle (lookup id e.connections)
    → (c : PoolConnection) × (lookup id (mark_busy e id).connections ≡ some c) × (c.busy ≡ true)
unfolding IsIdle
mark_busy-lookup e id h = elim (Option-cases (lookup id e.connections)) [
  | inl p ↦ absurd (subst IsIdle p h)
  | inr (c, p) ↦
      let c' = record c { busy = true; idle_timer = false } in
      (
        c',
        unfold mark_busy in rw p (rw (lookup-insert id id c' e.connections, text_eq_refl id) refl),
        refl,
      )
]

handed-same : (a b : Text) → handed a ≡ handed b → a ≡ b
handed-same a b p =
    ap (λ x. elim x [ handed t ↦ t | spawned t ↦ t | waits ↦ a | shutting_down ↦ a ]) p

acquire_from-handed :
    (e : ServerEntry) (new_id id : Text) (call : ℕ) (idle : Option Text)
    → (acquire_from e new_id call idle).1 ≡ handed id
    → (idle ≡ some id) × ((acquire_from e new_id call idle).0 ≡ mark_busy e id)
unfolding acquire_from
acquire_from-handed e new_id id call (some j) h =
    (ap some (handed-same j id h), ap (mark_busy e) (handed-same j id h))
acquire_from-handed e new_id id call none h = absurd (ground arith)

-- An existing connection that `acquire` hands out was in the server's map, not closed and not marked
-- busy, and is marked busy from then on.
pub acquire-handed :
    (e : ServerEntry) (new_id id : Text) (call : ℕ)
    → Distinct e.connections
    → (acquire e new_id call).1 ≡ handed id
    → IsIdle (lookup id e.connections)
      × ((c : PoolConnection) × (lookup id (acquire e new_id call).0.connections ≡ some c)
          × (c.busy ≡ true))
acquire-handed e new_id id call d h = elim (Bool-cases e.is_shutting_down) [
  | inl s ↦ absurd (ground (arith, sym (acquire-shut e new_id call s) ∙ h))
  | inr s ↦
      let open_ = acquire-open e new_id call s in
      let (found, marked) =
        acquire_from-handed e new_id id call (find_idle e.connections)
          (sym (ap (λ x. x.1) open_) ∙ h) in
      let idle = find_idle-IsIdle e.connections id d found in
      (idle, rw (open_, marked) (mark_busy-lookup e id idle))
]
