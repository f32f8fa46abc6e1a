-- ===== src/Bridge/Pool/Idle.antt =====
-- Which connections the idle timer of src/bridge/pool.ts closes.
use mcp_conductor.Base.{
  suc, ◌≤◌, ◌≡◌, refl, sym, ap, ◌∙◌, true, false, not, ◌&&◌, Option, none, some, [], ◌∷◌, Text,
  text_eq, text_eq_refl, text_eq_iff, Dict, lookup, insert, remove, Distinct, lookup-insert, length,
  length-insert-some, ltb, arith, if◌then◌else◌, Bool-cases, inl, inr,
}
use mcp_conductor.Bridge.Pool.{PoolConnection, ServerEntry, expire_idle, idle_timeout}

length-remove-none {ℓ} :
    {V : Type ℓ} (k : Text) (m : Dict V) → lookup k m ≡ none → length (remove k m) ≡ length m
unfolding remove lookup
length-remove-none k [] h = refl
length-remove-none k ((j, v) ∷ m) h = ground (arith, length-remove-none k m)

length-remove-Distinct {ℓ} :
    {V : Type ℓ} (k : Text) (m : Dict V) → Distinct m → length m ≤ suc (length (remove k m))
unfolding remove Distinct
length-remove-Distinct k [] d = omega arith
length-remove-Distinct k ((j, v) ∷ m) d = elim (Bool-cases (text_eq j k)) [
  | inl e ↦ rw e (
      omega
        (arith, length-remove-none k m (ap (λ t. lookup t m) (sym ((text_eq_iff j k).0 e)) ∙ d.0)))
  | inr e ↦ rw e (omega (arith, length-remove-Distinct k m d.1))
]

expire_idle-floor :
    (e : ServerEntry) (id : Text) (o : Option PoolConnection)
    → Distinct e.connections
    → lookup id e.connections ≡ o
    → e.min_connections ≤ length e.connections
    → e.min_connections ≤ length (expire_idle e id o).connections
unfolding expire_idle
expire_idle-floor e id none d f h = h
expire_idle-floor e id (some c) d f h =
    elim (Bool-cases (not c.busy && ltb e.min_connections (length e.connections))) [
      | inl p ↦ rw p (ground (arith, length-remove-Distinct id e.connections d))
      | inr p ↦ rw p (
          omega
            (arith, length-insert-some id (record c { idle_timer = false }) c e.connections f, h))
    ]

expire_idle-busy :
    (e : ServerEntry) (id : Text) (c : PoolConnection)
    → c.busy ≡ true
    → lookup id (expire_idle e id (some c)).connections ≡ some (record c { idle_timer = false })
unfolding expire_idle
expire_idle-busy e id c b =
    let c' = record c { idle_timer = false } in
    ap
      (λ t.
        lookup id
          (if not t && ltb e.min_connections (length e.connections)
            then record e { connections = remove id e.connections }
            else record e { connections = insert id c' e.connections }).connections)
      b
    ∙ lookup-insert id id c' e.connections
    ∙ ap (λ t. if t then some c' else lookup id e.connections) (text_eq_refl id)

-- The idle timer takes no connection that is in use, and never leaves fewer connections than the
-- minimum if there were as many before.
pub idle_timeout-spares :
    (e : ServerEntry) (id : Text)
    → Distinct e.connections
    → e.min_connections ≤ length e.connections
    → (e.min_connections ≤ length (idle_timeout e id).connections)
      × ((c : PoolConnection)
          → lookup id e.connections ≡ some c
          → c.busy ≡ true
          → lookup id (idle_timeout e id).connections ≡ some (record c { idle_timer = false }))
unfolding idle_timeout
idle_timeout-spares e id d h = (
  expire_idle-floor e id (lookup id e.connections) d refl h,
  λ c f b. ap (λ o. lookup id (expire_idle e id o).connections) f ∙ expire_idle-busy e id c b,
)
