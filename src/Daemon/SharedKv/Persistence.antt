-- ===== src/Daemon/SharedKv/Persistence.antt =====
-- The store of src/daemon/shared-kv.ts across a restart, and its keys.
use mcp_conductor.Base.{
  ℕ, ◌≤◌, ◌≡◌, ◌∙◌, true, false, Option, none, some, List, [], ◌∷◌, Text, Dict, lookup,
  keep_entries, Distinct, passing, insert-Distinct, remove-Distinct, keep_entries-Distinct,
  lookup-keep_entries, arith,
}
use mcp_conductor.Daemon.SharedKv.{
  KvEntry, KvSnapshot, SharedKv, get, get_entry, set, delete_key, clear, evict_expired, is_live,
  flush_to_disk, shutdown, load_from_disk, load_snapshot, new_kv,
}
use mcp_conductor.Daemon.SharedKv.View.{view, live_value, live_value-passing}

pub data Event {ℓ} (V : Type ℓ) : Type ℓ where
  gets : (key : Text) (now : ℕ) → Event V
  sets : (key : Text) → V → (ttl : Option ℕ) (now : ℕ) → Event V
  deletes : Text → Event V
  clears : Option Text → Event V
  evicts : ℕ → Event V

module _ {ℓ} {V : Type ℓ} where
  unfoldable pub step : SharedKv V → Event V → SharedKv V
  step kv (gets key now) = (get kv key now).0
  step kv (sets key v ttl now) = set kv key v ttl now
  step kv (deletes key) = delete_key kv key
  step kv (clears prefix) = clear kv prefix
  step kv (evicts now) = evict_expired kv now

  unfoldable pub run : SharedKv V → List (Event V) → SharedKv V
  run kv [] = kv
  run kv (e ∷ es) = run (step kv e) es

  get_entry-Distinct :
      (kv : SharedKv V) (key : Text) (now : ℕ) (o : Option (KvEntry V))
      → Distinct kv.store
      → Distinct (get_entry kv key now o).0.store
  unfolding get_entry
  get_entry-Distinct kv key now none d = d
  get_entry-Distinct kv key now (some e) d = ground (arith, remove-Distinct key kv.store d)

  clear-Distinct :
      (kv : SharedKv V) (prefix : Option Text)
      → Distinct kv.store
      → Distinct (clear kv prefix).store
  unfolding clear Distinct
  clear-Distinct kv none d = tt
  clear-Distinct kv (some prefix) d = keep_entries-Distinct _ kv.store d

  step-Distinct : (kv : SharedKv V) (e : Event V) → Distinct kv.store → Distinct (step kv e).store
  unfolding step get set delete_key evict_expired
  step-Distinct kv (gets key now) d = get_entry-Distinct kv key now (lookup key kv.store) d
  step-Distinct kv (sets key v ttl now) d = insert-Distinct key _ kv.store d
  step-Distinct kv (deletes key) d = remove-Distinct key kv.store d
  step-Distinct kv (clears prefix) d = clear-Distinct kv prefix d
  step-Distinct kv (evicts now) d = keep_entries-Distinct (is_live now) kv.store d

  -- No operation makes a store hold a key twice.
  pub run-Distinct :
      (kv : SharedKv V) (es : List (Event V)) → Distinct kv.store → Distinct (run kv es).store
  unfolding run
  run-Distinct kv [] d = d
  run-Distinct kv (e ∷ es) d = run-Distinct (step kv e) es (step-Distinct kv e d)

  -- What the round trip through JSON keeps of a snapshot: the version and the entry of each key, but
  -- not the order of the entries.
  pub record SameSnapshot (a b : KvSnapshot V) : Type ℓ where
    pub same_version : a.version ≡ b.version
    pub once : Distinct a.entries
    pub same_entries : (k : Text) → lookup k a.entries ≡ lookup k b.entries

  module _ {Raw : Type ℓ} (stringify : KvSnapshot V → Raw)
      (parse : Raw → Option (KvSnapshot V)) where
    -- `JSON.parse` reads back what `JSON.stringify` wrote.
    pub record JsonLaw : Type ℓ where
      pub read_back :
          (s : KvSnapshot V)
          → Distinct s.entries
          → (t : KvSnapshot V) × (parse (stringify s) ≡ some t) × SameSnapshot t s

    load_snapshot-live_value :
        (entries : Dict (KvEntry V)) (s : KvSnapshot V) (u now : ℕ) (k : Text)
        → SameSnapshot s (record { version = 1; entries = entries })
        → u ≤ now
        → live_value (lookup k (load_snapshot parse (some s) u)) now
          ≡ live_value (lookup k entries) now
    unfolding load_snapshot
    load_snapshot-live_value entries s u now k same h = ground (
      arith,
      same.same_version,
      same.same_entries k,
      lookup-keep_entries (is_live u) k s.entries same.once,
      live_value-passing k (lookup k s.entries) u now h,
    )

    evicted_twice-live_value :
        (m : Dict (KvEntry V)) (t now : ℕ) (k : Text)
        → Distinct m
        → t ≤ now
        → live_value (lookup k (keep_entries (is_live t) (keep_entries (is_live t) m))) now
          ≡ live_value (lookup k m) now
    evicted_twice-live_value m t now k d h =
        let once = keep_entries (is_live t) m in
        rw
          (
            lookup-keep_entries (is_live t) k once (keep_entries-Distinct (is_live t) m d),
            lookup-keep_entries (is_live t) k m d,
          )
          (live_value-passing k (passing (is_live t) k (lookup k m)) t now h
            ∙ live_value-passing k (lookup k m) t now h)

    -- A store that held no key twice is shut down at `t`, and its snapshot is written and can be read
    -- back. Then a store made from the file at `u` shows at every time from then on the values that
    -- the old one would have shown.
    pub restart-view :
        JsonLaw
        → (kv : SharedKv V) (file : Option Raw) (t u now : ℕ) (k : Text) → Distinct kv.store
        → t ≤ u
        → u ≤ now
        → view (new_kv parse (shutdown stringify kv t file true).1 u false) now k ≡ view kv now k
    unfolding new_kv shutdown flush_to_disk load_from_disk evict_expired
    restart-view law kv file t u now k d tu un =
        let saved = keep_entries (is_live t) (keep_entries (is_live t) kv.store) in
        let distinct =
          keep_entries-Distinct (is_live t) _ (keep_entries-Distinct (is_live t) kv.store d) in
        let (s, parsed, same) = law.read_back (record { version = 1; entries = saved }) distinct in
        rw parsed (
          load_snapshot-live_value saved s u now k same un
          ∙ evicted_twice-live_value kv.store t now k d (omega arith))
