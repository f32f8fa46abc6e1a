-- ===== src/Daemon/SharedKv/View.antt =====
-- What a reader of src/daemon/shared-kv.ts sees: for each key the value that has not expired.
use mcp_conductor.Base.{
  ℕ, ◌+◌, ◌==◌, ◌||◌, leb, ◌≤◌, ◌≡◌, refl, ◌∙◌, Bool, true, false, not, Option, none, some, List,
  [], ◌∷◌, Text, text_eq, text_eq_iff, Dict, lookup, Distinct, passing, lookup-insert,
  lookup-remove, lookup-keep_entries, starts_with, arith, any, if◌then◌else◌, Bool-cases, inl, inr,
}
use mcp_conductor.Daemon.SharedKv.{
  KvEntry, SharedKv, has_expired, expiry, get, get_entry, set, delete_key, clear, evict_expired,
  is_live, live_keys, list_keys, matches, sort, insert_sorted,
}

-- Whether a value that was set with this ttl at `t` is still there: with no ttl, or with 0, it is there
-- for good, and otherwise until `ttl` milliseconds have passed, the last one included.
abbrev pub in_force : Option ℕ → (t now : ℕ) → Bool
in_force none t now = true
in_force (some ttl) t now = ttl == 0 || leb now (t + ttl)

in_force-has_expired :
    (ttl : Option ℕ) (t now : ℕ) → not (has_expired (expiry ttl t) now) ≡ in_force ttl t now
unfolding has_expired expiry
in_force-has_expired none t now = refl
in_force-has_expired (some ttl) t now = ground arith

any-insert_sorted :
    (p : Text → Bool) (k : Text) (js : List Text)
    → any p (insert_sorted k js) ≡ (if p k then true else any p js)
unfolding insert_sorted any
any-insert_sorted p k [] = refl
any-insert_sorted p k (j ∷ js) = ground (arith, any-insert_sorted p k js)

any-sort : (p : Text → Bool) (ks : List Text) → any p (sort ks) ≡ any p ks
unfolding sort any
any-sort p [] = refl
any-sort p (k ∷ ks) = ground (arith, any-insert_sorted p k (sort ks), any-sort p ks)

module _ {ℓ} {V : Type ℓ} where
  abbrev pub live_value : Option (KvEntry V) → ℕ → Option V
  live_value none now = none
  live_value (some e) now = if has_expired e.expires_at now then none else some e.value

  -- The abstract store.
  abbrev pub view : SharedKv V → ℕ → Text → Option V
  view kv now k = live_value (lookup k kv.store) now

  pub live_value-passing :
      (k : Text) (o : Option (KvEntry V)) (t now : ℕ)
      → t ≤ now
      → live_value (passing (is_live t) k o) now ≡ live_value o now
  unfolding has_expired
  live_value-passing k none t now h = refl
  live_value-passing k (some e) t now h = ground arith

  live_value-cleared :
      (k prefix : Text) (o : Option (KvEntry V)) (now : ℕ)
      → live_value (passing (λ j e. not (starts_with j prefix)) k o) now
        ≡ (if starts_with k prefix then none else live_value o now)
  live_value-cleared k prefix none now = ground arith
  live_value-cleared k prefix (some e) now = ground arith

  get_entry-view :
      (kv : SharedKv V) (key k : Text) (t now : ℕ) (o : Option (KvEntry V))
      → lookup key kv.store ≡ o
      → t ≤ now
      → ((get_entry kv key t o).1 ≡ live_value o t)
        × (view (get_entry kv key t o).0 now k ≡ view kv now k)
  unfolding get_entry has_expired
  get_entry-view kv key k t now none e h = (refl, refl)
  get_entry-view kv key k t now (some v) e h =
      ground (arith, lookup-remove key k kv.store, text_eq_iff key k)

  -- `get` gives the value of its key that has not expired, if there is one, and no later read of any
  -- key sees that it was called.
  pub get-view :
      (kv : SharedKv V) (key k : Text) (t now : ℕ)
      → t ≤ now
      → ((get kv key t).1 ≡ view kv t key) × (view (get kv key t).0 now k ≡ view kv now k)
  unfolding get
  get-view kv key k t now h = get_entry-view kv key k t now (lookup key kv.store) refl h

  set-view :
      (kv : SharedKv V) (key k : Text) (v : V) (ttl : Option ℕ) (t now : ℕ)
      → view (set kv key v ttl t) now k
        ≡ (if text_eq key k then (if in_force ttl t now then some v else none) else view kv now k)
  unfolding set
  set-view kv key k v ttl t now = ground (
    arith,
    lookup-insert key k (record { value = v; expires_at = expiry ttl t }) kv.store,
    in_force-has_expired ttl t now,
  )

  delete_key-view :
      (kv : SharedKv V) (key k : Text) (now : ℕ)
      → view (delete_key kv key) now k ≡ (if text_eq key k then none else view kv now k)
  unfolding delete_key
  delete_key-view kv key k now = ground (arith, lookup-remove key k kv.store)

  -- What `get` gives of a store.
  abbrev pub got : SharedKv V → (key : Text) (now : ℕ) → Option V
  got kv key now = (get kv key now).1

  got-view : (kv : SharedKv V) (key : Text) (now : ℕ) → got kv key now ≡ view kv now key
  got-view kv key now = (get-view kv key key now now (omega arith)).0

  -- After a `set` at `t`, `get` gives the value of that key, at any time if the ttl is left out or 0,
  -- and up to `t + ttl`, and no later, if it is positive. After a `delete` it gives nothing for that
  -- key. For the other keys it gives what it would have given without the `set` or the `delete`.
  pub set_delete-view :
      (kv : SharedKv V) (key k : Text) (v : V) (ttl : Option ℕ) (t now : ℕ)
      → (got (set kv key v ttl t) k now
          ≡ (if text_eq key k then (if in_force ttl t now then some v else none) else got kv k now))
        × (got (delete_key kv key) k now ≡ (if text_eq key k then none else got kv k now))
  set_delete-view kv key k v ttl t now = rw (got-view kv k now) (
    got-view (set kv key v ttl t) k now ∙ set-view kv key k v ttl t now,
    got-view (delete_key kv key) k now ∙ delete_key-view kv key k now,
  )

  -- In a store that holds no key twice, the removal of expired entries at a time shows in no later
  -- read, and `clear` takes away the keys with the prefix, or all of them.
  pub evict_clear-view :
      (kv : SharedKv V) (k prefix : Text) (t now : ℕ)
      → Distinct kv.store
      → t ≤ now
      → (view (evict_expired kv t) now k ≡ view kv now k)
        × (view (clear kv (some prefix)) now k
            ≡ (if starts_with k prefix then none else view kv now k))
        × (view (clear kv none) now k ≡ none)
  unfolding evict_expired clear lookup
  evict_clear-view kv k prefix t now d h = (
    rw (lookup-keep_entries (is_live t) k kv.store d)
        (live_value-passing k (lookup k kv.store) t now h),
    rw (lookup-keep_entries (λ j e. not (starts_with j prefix)) k kv.store d)
        (live_value-cleared k prefix (lookup k kv.store) now),
    refl,
  )

  live_keys-fresh :
      (k : Text) (m : Dict (KvEntry V)) (prefix : Option Text) (now : ℕ)
      → lookup k m ≡ none
      → any (text_eq k) (live_keys m prefix now) ≡ false
  unfolding lookup live_keys any
  live_keys-fresh k [] prefix now h = refl
  live_keys-fresh k ((j, e) ∷ m) prefix now h =
      ground (arith, text_eq_iff j k, text_eq_iff k j, live_keys-fresh k m prefix now)

  -- A key passes the test of `list` and has a value.
  abbrev pub is_listed : Text → Option Text → Option V → Bool
  is_listed k prefix none = false
  is_listed k prefix (some v) = matches prefix k

  live_keys-is_listed :
      (k : Text) (m : Dict (KvEntry V)) (prefix : Option Text) (now : ℕ)
      → Distinct m
      → any (text_eq k) (live_keys m prefix now) ≡ is_listed k prefix (live_value (lookup k m) now)
  unfolding lookup live_keys any Distinct
  live_keys-is_listed k [] prefix now d = refl
  live_keys-is_listed k ((j, e) ∷ m) prefix now d = elim (Bool-cases (text_eq j k)) [
    | inl here ↦
        let same : j ≡ k = (text_eq_iff j k).0 here in
        ground (
          arith,
          text_eq_iff j k,
          text_eq_iff k j,
          live_keys-fresh j m prefix now d.0,
          live_keys-fresh k m prefix now,
        )
    | inr other ↦
        ground (arith, text_eq_iff j k, text_eq_iff k j, live_keys-is_listed k m prefix now d.1)
  ]

  -- For a store that holds no key twice, `list` holds a key exactly when the key passes the prefix
  -- and the store has a value for it.
  pub list_keys-is_listed :
      (kv : SharedKv V) (prefix : Option Text) (now : ℕ) (k : Text)
      → Distinct kv.store
      → any (text_eq k) (list_keys kv prefix now) ≡ is_listed k prefix (view kv now k)
  unfolding list_keys
  list_keys-is_listed kv prefix now k d =
      any-sort (text_eq k) (live_keys kv.store prefix now)
      ∙ live_keys-is_listed k kv.store prefix now d
