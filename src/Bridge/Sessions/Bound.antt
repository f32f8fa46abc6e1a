-- ===== src/Bridge/Sessions/Bound.antt =====
-- How many sessions src/bridge/session-registry.ts keeps, and which one it drops.
use mcp_conductor.Base.{
  ℕ, suc, ◌≤◌, ◌<◌, ◌≡◌, ◌≢◌, ◌⊎◌, ap, ◌∙◌, refl, sym, Bool, false, not, Option, none, some, List,
  [], ◌∷◌, Text, text_eq_iff, Dict, lookup, insert, remove, keep_entries, Distinct, insert-Distinct,
  remove-Distinct, keep_entries-Distinct, length, length-insert, length-insert-some, length-remove,
  length-remove-some, length-keep_entries, lookup-insert, lookup-remove, lookup-keep_entries, ltb,
  arith, Bool-cases, inl, inr,
}
use mathlib.Core.Option.{some-injective}
use mcp_conductor.Bridge.Sessions.{
  SessionRecord, SessionRegistry, earlier, oldest_from, delete_oldest, evict_if_full, create, start,
  stop, is_expired, new_sessions, touch, touch_record, terminate, sweep,
}

earlier-some :
    (best : Option (Text × ℕ)) (id : Text) (seen : ℕ)
    → (b : Text × ℕ) × (earlier best id seen ≡ some b)
      × (b.1 ≤ seen)
      × ((o : Text × ℕ) → best ≡ some o → b.1 ≤ o.1)
      × ((b ≡ (id, seen)) ⊎ (best ≡ some b))
earlier-some none id seen = ((id, seen), refl, omega arith, λ o e. absurd (ground arith), inl refl)
earlier-some (some (oldest, oldest_seen)) id seen = elim (Bool-cases (ltb seen oldest_seen)) [
  | inl e ↦ ((id, seen), rw e refl, omega arith, λ o p. ground arith, inl refl)
  | inr e ↦ ((oldest, oldest_seen), rw e refl, ground arith, λ o p. ground arith, inr refl)
]

-- What the loop of `evictIfFull` finds: a session of the map, or the best one so far, that was seen
-- no later than any other.
abbrev Least : Option (Text × ℕ) → Dict SessionRecord → Text × ℕ → Type 0
Least best m b =
    ((j : Text) (s : SessionRecord) → lookup j m ≡ some s → b.1 ≤ s.last_seen_at)
    × ((o : Text × ℕ) → best ≡ some o → b.1 ≤ o.1)
    × ((best ≡ some b) ⊎ ((s : SessionRecord) × (lookup b.0 m ≡ some s) × (s.last_seen_at ≡ b.1)))

Least-∷ :
    (best : Option (Text × ℕ)) (id : Text) (s : SessionRecord) (m : Dict SessionRecord)
    (b : Text × ℕ)
    → lookup id m ≡ none
    → Least (earlier best id s.last_seen_at) m b
    → Least best ((id, s) ∷ m) b
unfolding lookup
Least-∷ best id s m b fresh l =
    let (b', e, seen, before, which) = earlier-some best id s.last_seen_at in
    let same : (o : Text × ℕ) → earlier best id s.last_seen_at ≡ some o → b' ≡ o =
      λ o p. some-injective b' o (sym e ∙ p) in
    (
      λ j t h. ground (arith, h, l.0 j t, l.1 b' e, seen),
      λ o p. omega (arith, l.1 b' e, before o p),
      elim l.2 [
        | inl p ↦ elim which [
          | inl w ↦ inr (
            s,
            rw ((text_eq_iff id b.0).1 (ap (λ x. x.0) (sym w ∙ same b p))) refl,
            ap (λ x. x.1) (sym w ∙ same b p),
          )
          | inr w ↦ inl (w ∙ ap some (same b p))
        ]
        | inr (t, p, q) ↦ inr (t, ground (arith, text_eq_iff id b.0, fresh, p), q)
      ],
    )

oldest_from-Least :
    (best : Option (Text × ℕ)) (id : Text) (s : SessionRecord) (m : Dict SessionRecord)
    → Distinct ((id, s) ∷ m)
    → (b : Text × ℕ) × (oldest_from best ((id, s) ∷ m) ≡ some b) × Least best ((id, s) ∷ m) b
unfolding oldest_from Distinct
oldest_from-Least best id s [] d =
    let (b, e, seen, before, which) = earlier-some best id s.last_seen_at in
    (
      b,
      e,
      Least-∷ best id s [] b (unfold lookup in refl) (
        λ j t h. absurd (unfold lookup in ground arith),
        λ o p. omega (arith, ap (λ x. x.1) (some-injective b o (sym e ∙ p))),
        inl e,
      ),
    )
oldest_from-Least best id s ((j, t) ∷ m) d =
    let (b, e, l) = oldest_from-Least (earlier best id s.last_seen_at) j t m d.1 in
    (b, e, Least-∷ best id s ((j, t) ∷ m) b d.0 l)

oldest_from-some :
    (m : Dict SessionRecord)
    → Distinct m
    → 1 ≤ length m
    → (b : Text × ℕ) × (oldest_from none m ≡ some b) × Least none m b
oldest_from-some [] d h = absurd (omega arith)
oldest_from-some ((id, s) ∷ m) d h = oldest_from-Least none id s m d

delete_oldest-some :
    (r : SessionRegistry) (id : Text) (seen : ℕ)
    → id ≢ []
    → delete_oldest r (some (id, seen)) ≡ record r { sessions = remove id r.sessions }
delete_oldest-some r [] seen n = absurd (n refl)
delete_oldest-some r (c ∷ id) seen n = refl

-- What `evictIfFull` needs of the map: its keys are distinct and not empty.
abbrev pub Proper : Dict SessionRecord → Type 0
Proper m = Distinct m × (lookup [] m ≡ none)

-- A full map loses the session that was seen longest ago.
pub evict_if_full-oldest :
    (r : SessionRegistry)
    → Proper r.sessions
    → 1 ≤ r.max_sessions
    → r.max_sessions ≤ length r.sessions
    → (id : Text) × (s : SessionRecord) × (lookup id r.sessions ≡ some s)
      × ((j : Text) (t : SessionRecord)
          → lookup j r.sessions ≡ some t
          → s.last_seen_at ≤ t.last_seen_at)
      × (evict_if_full r ≡ record r { sessions = remove id r.sessions })
unfolding evict_if_full
evict_if_full-oldest r proper positive full =
    let (b, e, l) = oldest_from-some r.sessions proper.0 (omega arith) in
    let below : ltb (length r.sessions) r.max_sessions ≡ false = ground arith in
    elim l.2 [
      | inl p ↦ absurd (ground arith)
      | inr (s, p, q) ↦ (
        b.0,
        s,
        p,
        λ j t h. omega (arith, q, l.0 j t h),
        rw (below, e)
            (delete_oldest-some r b.0 b.1
              (λ i. ground (arith, sym p ∙ ap (λ k. lookup k r.sessions) i ∙ proper.1))),
      )
    ]

unfoldable pub IsBounded : SessionRegistry → Type 0
IsBounded r = Proper r.sessions × (1 ≤ r.max_sessions) × (length r.sessions ≤ r.max_sessions)

lookup-keep_entries-none :
    (p : Text → SessionRecord → Bool) (m : Dict SessionRecord)
    → Proper m
    → lookup [] (keep_entries p m) ≡ none
lookup-keep_entries-none p m d = rw (lookup-keep_entries p [] m d.0, d.1) refl

remove-Proper : (k : Text) (m : Dict SessionRecord) → Proper m → Proper (remove k m)
remove-Proper k m d = (remove-Distinct k m d.0, ground (arith, lookup-remove k [] m, d.1))

insert-Proper :
    (k : Text) (s : SessionRecord) (m : Dict SessionRecord)
    → k ≢ []
    → Proper m
    → Proper (insert k s m)
insert-Proper k s m n d =
    (insert-Distinct k s m d.0, ground (arith, lookup-insert k [] s m, text_eq_iff k [], d.1))

evict_if_full-room :
    (r : SessionRegistry)
    → IsBounded r
    → Proper (evict_if_full r).sessions
      × (length (evict_if_full r).sessions < r.max_sessions)
      × ((evict_if_full r).max_sessions ≡ r.max_sessions)
unfolding IsBounded evict_if_full Distinct lookup
evict_if_full-room r i = elim (Bool-cases (ltb (length r.sessions) r.max_sessions)) [
  | inl e ↦ rw e (i.0, ground arith, refl)
  | inr e ↦
      let (id, s, found, oldest, evicted) = evict_if_full-oldest r i.0 i.1 (ground arith) in
      rw evicted (
        remove-Proper id r.sessions i.0,
        omega (arith, length-remove-some id s r.sessions found, i.2),
        refl,
      )
]

create-IsBounded :
    (r : SessionRegistry) (uuid : Text) (now : ℕ)
    → uuid ≢ []
    → IsBounded r
    → IsBounded (create r uuid now).0
unfolding create IsBounded
create-IsBounded r uuid now n i =
    let (proper, room, same) = evict_if_full-room r i in
    (
      insert-Proper uuid _ (evict_if_full r).sessions n proper,
      omega (arith, i.1, same),
      omega (
        arith,
        room,
        same,
        length-insert uuid (record { id = uuid; created_at = now; last_seen_at = now })
            (evict_if_full r).sessions,
      ),
    )

found-nonempty :
    (m : Dict SessionRecord) (id : Text) (s : SessionRecord)
    → Proper m
    → lookup id m ≡ some s
    → id ≢ []
found-nonempty m id s d e p = ground (arith, sym e ∙ ap (λ k. lookup k m) p ∙ d.1)

touch_record-IsBounded :
    (r : SessionRegistry) (id : Text) (now : ℕ) (o : Option SessionRecord)
    → lookup id r.sessions ≡ o
    → IsBounded r
    → IsBounded (touch_record r id now o).0
unfolding touch_record IsBounded
touch_record-IsBounded r id now none e i = i
touch_record-IsBounded r id now (some s) e i = elim (Bool-cases (is_expired r.ttl_ms now s)) [
  | inl p ↦
      rw p (remove-Proper id r.sessions i.0, i.1, omega (arith, length-remove id r.sessions, i.2))
  | inr p ↦ rw p (
    insert-Proper id _ r.sessions (found-nonempty r.sessions id s i.0 e) i.0,
    i.1,
    omega (arith, length-insert-some id (record s { last_seen_at = now }) s r.sessions e, i.2),
  )
]

sweep-IsBounded : (r : SessionRegistry) (now : ℕ) → IsBounded r → IsBounded (sweep r now).0
unfolding sweep IsBounded
sweep-IsBounded r now i =
    let live : Text → SessionRecord → Bool = λ id s. not (is_expired r.ttl_ms now s) in
    (
      (keep_entries-Distinct live r.sessions i.0.0, lookup-keep_entries-none live r.sessions i.0),
      i.1,
      omega (arith, length-keep_entries live r.sessions, i.2),
    )

-- The calls of a registry's methods; an id that is issued is not empty.
pub data Event : Type 0 where
  started stopped : Event
  created : (c : ℕ) (uuid : Text) (now : ℕ) → Event
  touched : (id : Text) (now : ℕ) → Event
  terminated : (id : Text) → Event
  swept : (now : ℕ) → Event

unfoldable pub step : SessionRegistry → Event → SessionRegistry
unfolding start stop create touch terminate sweep
step r started = start r
step r stopped = stop r
step r (created c uuid now) = (create r (c ∷ uuid) now).0
step r (touched id now) = (touch r id now).0
step r (terminated id) = (terminate r id).0
step r (swept now) = (sweep r now).0

unfoldable pub run : SessionRegistry → List Event → SessionRegistry
unfolding step
run r [] = r
run r (e ∷ es) = run (step r e) es

step-IsBounded : (r : SessionRegistry) (e : Event) → IsBounded r → IsBounded (step r e)
unfolding step IsBounded start stop terminate touch Distinct lookup
step-IsBounded r started i = ground (arith, i.0, i.1, i.2)
step-IsBounded r stopped i = ((tt, refl), i.1, omega arith)
step-IsBounded r (created c uuid now) i =
    create-IsBounded r (c ∷ uuid) now (λ p. absurd (ground arith)) i
step-IsBounded r (touched id now) i = touch_record-IsBounded r id now (lookup id r.sessions) refl i
step-IsBounded r (terminated id) i =
    (remove-Proper id r.sessions i.0, i.1, omega (arith, length-remove id r.sessions, i.2))
step-IsBounded r (swept now) i = sweep-IsBounded r now i

touch_record-max_sessions :
    (r : SessionRegistry) (id : Text) (now : ℕ) (o : Option SessionRecord)
    → (touch_record r id now o).0.max_sessions ≡ r.max_sessions
unfolding touch_record
touch_record-max_sessions r id now none = refl
touch_record-max_sessions r id now (some s) = ground arith

step-max_sessions :
    (r : SessionRegistry) (e : Event) → IsBounded r → (step r e).max_sessions ≡ r.max_sessions
unfolding step start stop terminate touch create sweep
step-max_sessions r started i = ground arith
step-max_sessions r stopped i = refl
step-max_sessions r (created c uuid now) i = (evict_if_full-room r i).2
step-max_sessions r (touched id now) i = touch_record-max_sessions r id now (lookup id r.sessions)
step-max_sessions r (terminated id) i = refl
step-max_sessions r (swept now) i = refl

run-IsBounded :
    (es : List Event) (r : SessionRegistry)
    → IsBounded r
    → IsBounded (run r es) × ((run r es).max_sessions ≡ r.max_sessions)
unfolding run
run-IsBounded [] r i = (i, refl)
run-IsBounded (e ∷ es) r i =
    let (bounded, same) = run-IsBounded es (step r e) (step-IsBounded r e i) in
    (bounded, same ∙ step-max_sessions r e i)

-- A new registry with room for at least one session never holds more sessions than that, and none
-- twice, whatever methods are called in whatever order.
pub run-new_sessions :
    (ttl_ms interval : Option ℕ) (n : ℕ) (es : List Event)
    → let r = run (new_sessions ttl_ms interval (some (suc n))) es in
      (length r.sessions ≤ suc n) × Distinct r.sessions
unfolding IsBounded new_sessions Distinct lookup
run-new_sessions ttl_ms interval n es =
    let (i, same) =
      run-IsBounded es (new_sessions ttl_ms interval (some (suc n)))
        ((tt, refl), omega arith, omega arith) in
    (omega (arith, i.2, same), i.0.0)
