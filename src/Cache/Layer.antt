-- ===== src/Cache/Layer.antt =====
-- src/cache/cache.ts. The registry's `getTool`, the hash of the arguments and the sizes of values are
-- parameters. A call of `get`, `set`, `invalidate` or `clear` is one step; the refresh in the
-- background is two, its start and its end, as other calls may come in between. So is the invalidation
-- at an event of the registry: the memory's is done at once, that of the disk is started, not awaited,
-- and ends later, with a failure at most logged.
pub mod Hits
pub mod Stale
pub mod Invalidation
pub mod Updates
pub mod Revival
pub mod Kept
pub mod Others
pub mod Served
use mcp_conductor.Base.{
  ℕ, ◌+◌, ◌-◌, max, Bool, true, false, not, ◌&&◌, ◌||◌, Option, none, some, List, [], ◌∷◌, ◌++◌,
  Text, codes, text_eq, Dict, lookup, insert, any, keep, starts_with, ltb, ◌==◌, or_default,
  if◌then◌else◌,
}
use mcp_conductor.Cache.Key.{CacheKey, build_cache_key, cache_key_to_string}
use mcp_conductor.Cache.Policy.{ToolDefinition, ServerPolicies, resolve_ttl, is_cacheable}
use mcp_conductor.Cache.Lru.{
  LruCache, LruEntry, CacheHit, Source, memory, disk, is_past, MemoryLru, new_lru, lru_get, lru_set,
  lru_delete, lru_invalidate, lru_clear, reset_counters,
}
use mcp_conductor.Cache.Disk.{
  DiskCache, DiskEntry, DiskCacheHit, disk_get, disk_set, disk_delete, disk_invalidate, disk_clear,
  delete_all_matching, normalized_prefix, entry_key,
}

pub record ExtendedCacheHit (V : Type 0) : Type 0 where
  pub hit : CacheHit V
  pub needs_revalidation : Option Bool

pub record CacheStats : Type 0 where
  pub memory_hits : ℕ
  pub disk_hits : ℕ
  pub misses : ℕ
  pub evictions : ℕ
  pub bytes_in_memory : ℕ
  pub bytes_on_disk : ℕ

-- What the cache calls and does not implement.
pub record Backing (V Args : Type 0) : Type 0 where
  pub get_tool : Text → Text → Option ToolDefinition
  pub hash_args : Args → Text
  pub estimate_bytes : V → ℕ
  pub encoded_size : DiskEntry V → ℕ
  pub malformed_size : ℕ

module _ {V : Type 0} (lib : LruCache (LruEntry V)) where
  pub record CacheLayer : Type 0 where
    pub lru : MemoryLru lib
    pub disk : DiskCache V
    pub stale_while_revalidate : Bool
    pub policies : ServerPolicies
    pub disk_misses : ℕ
    pub ttl_map : Dict ℕ
    pub revalidating : List Text

module _ {V Args : Type 0} (lib : LruCache (LruEntry V)) (b : Backing V Args) where
  -- The key string of a call.
  abbrev pub key_of : (server tool : Text) → Args → Text
  key_of server tool args = cache_key_to_string (build_cache_key b.hash_args server tool args)

  abbrev pub fresh : CacheHit V → ExtendedCacheHit V
  fresh hit = record { hit = hit; needs_revalidation = none }

  -- The hit of a stale entry; a refresh that runs already takes the flag off.
  abbrev pub stale : CacheLayer lib → Text → CacheHit V → ExtendedCacheHit V
  stale l key hit = record {
    hit = hit;
    needs_revalidation = some (not (any (text_eq key) l.revalidating));
  }

  -- `this.lru.set(keyStr, diskHit.value, remaining)` and the entry of `ttlMap`.
  unfoldable pub promote : CacheLayer lib → Text → V → (remaining ttl now : ℕ) → CacheLayer lib
  unfolding lru_set
  promote l key value remaining ttl now = record l {
    lru = lru_set lib b.estimate_bytes l.lru key value remaining now;
    ttl_map = insert key ttl l.ttl_map;
  }

  -- The time to live of a hit on the disk.
  abbrev pub entry_ttl : CacheLayer lib → Text → DiskCacheHit V → ℕ
  entry_ttl l key h = if ltb 0 h.ttl_ms then h.ttl_ms else or_default (lookup key l.ttl_map) 0

  abbrev pub as_hit : DiskCacheHit V → CacheHit V
  as_hit h = record {
    value = h.value;
    stored_at = h.stored_at;
    source = h.source;
    staleness = h.staleness;
  }

  unfoldable pub miss : CacheLayer lib → CacheLayer lib × Option (ExtendedCacheHit V)
  miss l = (record l { disk_misses = l.disk_misses + 1 }, none)

  -- `get` from the answer of the disk on.
  unfoldable pub after_disk :
      CacheLayer lib
      → (key args_hash : Text) (now : ℕ) → Option (DiskCacheHit V)
      → CacheLayer lib × Option (ExtendedCacheHit V)
  unfolding promote miss is_past disk_delete
  after_disk l key args_hash now none = miss l
  after_disk l key args_hash now (some h) =
      let ttl = entry_ttl l key h in
      if not (is_past h.stored_at ttl now)
      then (
        promote l key h.value (if ltb 0 ttl then max 1 (ttl - (now - h.stored_at)) else 0) ttl now,
        some (fresh (as_hit h)),
      )
      else if l.stale_while_revalidate
      then (promote l key h.value (max 1 ttl) ttl now, some (stale l key (as_hit h)))
      else miss
          (record l { disk = (disk_delete b.encoded_size b.malformed_size l.disk args_hash).0 })

  -- `get` from the second tier on.
  unfoldable pub from_disk :
      CacheLayer lib
      → (key args_hash : Text) (now : ℕ) → CacheLayer lib × Option (ExtendedCacheHit V)
  unfolding after_disk disk_get
  from_disk l key args_hash now =
      let (d, h) = disk_get l.disk args_hash now in
      after_disk (record l { disk = d }) key args_hash now h

  -- `get` from the answer of the memory on.
  unfoldable pub after_memory :
      CacheLayer lib
      → (key args_hash : Text) (now : ℕ) → Option (CacheHit V)
      → CacheLayer lib × Option (ExtendedCacheHit V)
  unfolding from_disk is_past lru_delete
  after_memory l key args_hash now none = from_disk l key args_hash now
  after_memory l key args_hash now (some h) =
      if not (is_past h.stored_at (or_default (lookup key l.ttl_map) 0) now)
      then (l, some (fresh (record h { staleness = now - h.stored_at })))
      else if l.stale_while_revalidate
      then (l, some (stale l key (record h { staleness = now - h.stored_at })))
      else from_disk (record l { lru = (lru_delete lib l.lru key).0 }) key args_hash now

  -- `get`
  unfoldable pub layer_get :
      CacheLayer lib
      → (server tool : Text) → Args
      → (now : ℕ) → CacheLayer lib × Option (ExtendedCacheHit V)
  unfolding after_memory lru_get
  layer_get l server tool args now =
      let key = key_of server tool args in
      let (lru, h) = lru_get lib l.lru key now in
      after_memory (record l { lru = lru }) key (b.hash_args args) now h

  -- `set` with a time to live that is not 0, and whether the disk starts a rotation.
  unfoldable pub store :
      CacheLayer lib → (server tool : Text) → Args → V → (ttl now : ℕ) → CacheLayer lib × Bool
  unfolding promote disk_set
  store l server tool args result ttl now =
      let l' = promote l (key_of server tool args) result ttl ttl now in
      let (d, rotates) =
        disk_set b.encoded_size l.disk (b.hash_args args) (record {
          value = result;
          stored_at = now;
          ttl_ms = ttl;
          server = server;
          tool = tool;
        }) in
      (record l' { disk = d }, rotates)

  -- `options?.ttl ?? resolveTtl(toolDef, this.options.policies)`
  unfoldable pub ttl_for : CacheLayer lib → (server tool : Text) → Option ℕ → ℕ
  unfolding resolve_ttl
  ttl_for l server tool ttl =
      or_default ttl (resolve_ttl (b.get_tool server tool) (some l.policies))

  -- `set`
  unfoldable pub layer_set :
      CacheLayer lib
      → (server tool : Text) → Args
      → V
      → (ttl : Option ℕ) (now : ℕ) → CacheLayer lib × Bool
  unfolding ttl_for store
  layer_set l server tool args result ttl now =
      if ttl_for l server tool ttl == 0
      then (l, false)
      else store l server tool args result (ttl_for l server tool ttl) now

  -- Both tiers by a prefix.
  unfoldable pub invalidate_prefix : CacheLayer lib → (prefix : Text) → CacheLayer lib × ℕ
  unfolding lru_invalidate disk_invalidate
  invalidate_prefix l prefix =
      let (lru, n) = lru_invalidate lib l.lru prefix in
      let (d, m) = disk_invalidate b.encoded_size l.disk prefix in
      (record l { lru = lru; disk = d }, n + m)

  -- `invalidate`; an empty pattern counts as none.
  unfoldable pub invalidate : CacheLayer lib → (server : Text) → Option Text → CacheLayer lib × ℕ
  unfolding invalidate_prefix
  invalidate l server pattern = invalidate_prefix l (server ++ codes ":" ++ or_default pattern [])

  -- The prefix of the keys of a tool.
  abbrev pub tool_prefix : (server tool : Text) → Text
  tool_prefix server tool = server ++ codes ":" ++ tool ++ codes ":"

  -- The subscription to the registry, at `tool-updated`: the memory is invalidated, and the result also
  -- has the prefix of the disk's invalidation, which is only started.
  unfoldable pub on_tool_updated : CacheLayer lib → (server tool : Text) → CacheLayer lib × Text
  unfolding lru_invalidate
  on_tool_updated l server tool =
      let prefix = tool_prefix server tool in
      (record l { lru = (lru_invalidate lib l.lru prefix).0 }, prefix)

  -- The end of a disk invalidation that was started. `removes` says of an entry whether its file could
  -- be read and removed; an invalidation that is rejected as a whole removes none.
  unfoldable pub end_invalidation :
      CacheLayer lib → (prefix : Text) → (removes : DiskEntry V → Bool) → CacheLayer lib
  unfolding delete_all_matching normalized_prefix starts_with
  end_invalidation l prefix removes = record l {
    disk =
        (delete_all_matching b.encoded_size l.disk
          (λ e. starts_with (entry_key e.server e.tool) (normalized_prefix prefix) && removes e)).0;
  }

  -- Several of them, in the order in which they end.
  unfoldable pub end_invalidations :
      CacheLayer lib → List Text → (removes : DiskEntry V → Bool) → CacheLayer lib
  unfolding end_invalidation
  end_invalidations l [] removes = l
  end_invalidations l (prefix ∷ prefixes) removes =
      end_invalidations (end_invalidation l prefix removes) prefixes removes

  -- `stats`
  unfoldable pub stats : CacheLayer lib → CacheStats
  stats l = record {
    memory_hits = l.lru.hits;
    disk_hits = l.disk.hits;
    misses = l.disk_misses;
    evictions = l.lru.evictions;
    bytes_in_memory = lib.calculated_size l.lru.cache;
    bytes_on_disk = l.disk.bytes_on_disk;
  }

  -- `clear`
  unfoldable pub clear : CacheLayer lib → CacheLayer lib
  unfolding lru_clear reset_counters disk_clear
  clear l = record l {
    lru = reset_counters lib (lru_clear lib l.lru);
    ttl_map = [];
    disk_misses = 0;
    disk = disk_clear b.encoded_size l.disk;
  }

  -- `wouldCache`
  unfoldable pub would_cache : CacheLayer lib → (server tool : Text) → Bool
  unfolding is_cacheable
  would_cache l server tool = is_cacheable (b.get_tool server tool) (some l.policies)

  -- `refreshInBackground` up to the fetch: the layer, and whether it fetches.
  unfoldable pub start_refresh :
      CacheLayer lib → (server tool : Text) → Args → CacheLayer lib × Bool
  start_refresh l server tool args =
      let key = key_of server tool args in
      if any (text_eq key) l.revalidating
      then (l, false)
      else (record l { revalidating = key ∷ l.revalidating }, true)

  abbrev pub without : Text → List Text → List Text
  without key keys = keep (λ k. not (text_eq key k)) keys

  -- The `set` of what was fetched; nothing is stored if the fetch fails.
  unfoldable pub store_fetched :
      CacheLayer lib → (server tool : Text) → Args → Option V → (now : ℕ) → CacheLayer lib
  unfolding layer_set
  store_fetched l server tool args none now = l
  store_fetched l server tool args (some v) now = (layer_set l server tool args v none now).0

  -- `refreshInBackground` from the fetch on.
  unfoldable pub end_refresh :
      CacheLayer lib → (server tool : Text) → Args → Option V → (now : ℕ) → CacheLayer lib
  unfolding store_fetched
  end_refresh l server tool args result now =
      let l' = store_fetched l server tool args result now in
      record l' { revalidating = without (key_of server tool args) l'.revalidating }
