-- ===== src/Cache/Lru.antt =====
-- src/cache/lru.ts. The package `lru-cache` is a parameter: a type of stores with the methods that
-- are called, and what its documentation says of each, by `peek`. A store may drop entries when it
-- is written to, and calls `dispose` for each entry that it drops, overwrites or deletes.
pub mod View
use mcp_conductor.Base.{
  ℕ, ◌+◌, ◌-◌, max, Bool, true, false, ◌&&◌, Option, none, some, List, [], ◌∷◌, Text, text_eq, any,
  ltb, is_some, ◌≡◌, ◌⊎◌, if◌then◌else◌, starts_with,
}

pub record LruCache (E : Type 0) : Type 1 where
  pub Store : Type 0
  pub created : (max_size : ℕ) → Store
  pub peek : Text → Store → Option E
  pub get : Text → Store → Store × Option E
  pub set : Text → E → (size : ℕ) → Store → Store × ℕ
  pub delete : Text → Store → Store × Bool
  pub clear : Store → Store × ℕ
  pub keys : Store → List Text
  pub size : Store → ℕ
  pub calculated_size : Store → ℕ
  pub created-peek : (max_size : ℕ) (k : Text) → peek k (created max_size) ≡ none
  pub get-result : (k : Text) (s : Store) → (get k s).1 ≡ peek k s
  pub get-peek : (k j : Text) (s : Store) → peek j (get k s).0 ≡ peek j s
  pub set-peek :
      (k j : Text) (e : E) (n : ℕ) (s : Store)
      → (peek j (set k e n s).0 ≡ none)
        ⊎ (peek j (set k e n s).0 ≡ (if text_eq k j then some e else peek j s))
  pub delete-result : (k : Text) (s : Store) → (delete k s).1 ≡ is_some (peek k s)
  pub delete-peek :
      (k j : Text) (s : Store) → peek j (delete k s).0 ≡ (if text_eq k j then none else peek j s)
  pub clear-peek : (k : Text) (s : Store) → peek k (clear s).0 ≡ none
  pub keys-peek : (k : Text) (s : Store) → any (text_eq k) (keys s) ≡ is_some (peek k s)

pub record LruEntry (V : Type 0) : Type 0 where
  pub value : V
  pub stored_at : ℕ
  pub ttl_ms : ℕ

pub data Source : Type 0 where
  memory disk : Source

-- `CacheHit`
pub record CacheHit (V : Type 0) : Type 0 where
  pub value : V
  pub stored_at : ℕ
  pub source : Source
  pub staleness : ℕ

-- `entry.ttlMs > 0 && now - entry.storedAt > entry.ttlMs`
unfoldable pub is_past : (stored_at ttl now : ℕ) → Bool
is_past stored_at ttl now = ltb 0 ttl && ltb ttl (now - stored_at)

module _ {V : Type 0} (lib : LruCache (LruEntry V)) where
  pub record MemoryLru : Type 0 where
    pub cache : lib.Store
    pub evictions : ℕ
    pub hits : ℕ
    pub misses : ℕ

  -- The constructor; 100 MB by default.
  unfoldable pub new_lru : Option ℕ → MemoryLru
  new_lru max_memory_bytes = record {
    cache = lib.created (elim max_memory_bytes [ none ↦ 104857600 | some n ↦ n ]);
    evictions = 0;
    hits = 0;
    misses = 0;
  }

  abbrev pub as_number : Bool → ℕ
  as_number true = 1
  as_number false = 0

  -- `delete`
  unfoldable pub lru_delete : MemoryLru → Text → MemoryLru × Bool
  lru_delete m key =
      let (cache, existed) = lib.delete key m.cache in
      (record m { cache = cache; evictions = m.evictions + as_number existed }, existed)

  -- `get` on what the package's `get` gives.
  unfoldable pub hit_or_miss :
      MemoryLru → Text → (now : ℕ) → Option (LruEntry V) → MemoryLru × Option (CacheHit V)
  unfolding lru_delete is_past
  hit_or_miss m key now none = (record m { misses = m.misses + 1 }, none)
  hit_or_miss m key now (some entry) =
      if is_past entry.stored_at entry.ttl_ms now
      then (record (lru_delete m key).0 { misses = m.misses + 1 }, none)
      else (
        record m { hits = m.hits + 1 },
        some (record {
          value = entry.value;
          stored_at = entry.stored_at;
          source = memory;
          staleness = now - entry.stored_at;
        }),
      )

  -- `get`
  unfoldable pub lru_get : MemoryLru → Text → (now : ℕ) → MemoryLru × Option (CacheHit V)
  unfolding hit_or_miss
  lru_get m key now =
      let (cache, entry) = lib.get key m.cache in
      hit_or_miss (record m { cache = cache }) key now entry

  module _ (estimate_bytes : V → ℕ) where
    -- `set`, with the size that `sizeCalculation` gives.
    unfoldable pub lru_set : MemoryLru → Text → V → (ttl now : ℕ) → MemoryLru
    lru_set m key value ttl now =
        let (cache, disposed) =
          lib.set key (record { value = value; stored_at = now; ttl_ms = ttl })
            (max 1 (estimate_bytes value)) m.cache in
        record m { cache = cache; evictions = m.evictions + disposed }

  -- The loop of `invalidateByPrefix` over the keys, with the count.
  unfoldable pub delete_matching : MemoryLru → (prefix : Text) → List Text → ℕ → MemoryLru × ℕ
  unfolding lru_delete
  delete_matching m prefix [] count = (m, count)
  delete_matching m prefix (k ∷ ks) count = elim (starts_with k prefix) [
    | true ↦ delete_matching (lru_delete m k).0 prefix ks (count + 1)
    | false ↦ delete_matching m prefix ks count
  ]

  -- `invalidateByPrefix`
  unfoldable pub lru_invalidate : MemoryLru → (prefix : Text) → MemoryLru × ℕ
  unfolding delete_matching
  lru_invalidate m prefix = delete_matching m prefix (lib.keys m.cache) 0

  -- `clear`
  unfoldable pub lru_clear : MemoryLru → MemoryLru
  lru_clear m =
      let (cache, disposed) = lib.clear m.cache in
      record m { cache = cache; evictions = m.evictions + disposed }

  -- `resetCounters`
  unfoldable pub reset_counters : MemoryLru → MemoryLru
  reset_counters m = record m { hits = 0; misses = 0; evictions = 0 }
