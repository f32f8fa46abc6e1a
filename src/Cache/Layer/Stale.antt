-- ===== src/Cache/Layer/Stale.antt =====
-- What src/cache/cache.ts does with an entry of the disk whose time to live is over, when it may
-- serve stale entries.
use mcp_conductor.Base.{ℕ, ◌-◌, ◌≤◌, ◌<◌, ◌≡◌, inl, inr, true, none, some, Text, lookup, arith}
use mcp_conductor.Cache.Lru.{LruCache, LruEntry, memory, is_past, lru_get}
use mcp_conductor.Cache.Disk.{DiskEntry, valid, disk_get, read_file}
use mcp_conductor.Cache.Layer.{
  CacheLayer, Backing, key_of, fresh, stale, promote, from_disk, layer_get,
}
use mcp_conductor.Cache.Layer.Hits.{
  disk_hit, memory_hit, from_disk-stale, layer_get-from_disk, layer_get-from_memory, promoted_ttl,
  promoted_entry, unpast,
}

module _ {V Args : Type 0} (lib : LruCache (LruEntry V)) (b : Backing V Args) where
  from_disk-promotes :
      (l : CacheLayer lib) (key hash : Text) (now : ℕ) (e : DiskEntry V)
      → lookup hash l.disk.files ≡ some (valid e)
      → 0 < e.ttl_ms
      → e.ttl_ms < now - e.stored_at
      → l.stale_while_revalidate ≡ true
      → (from_disk lib b l key hash now).0
        ≡ promote lib b
            (record l { disk = (disk_get l.disk hash now).0 })
            key
            e.value
            e.ttl_ms
            e.ttl_ms
            now
  unfolding from_disk is_past read_file disk_get
  from_disk-promotes l key hash now e f p h s = rw f (ground arith)

  promoted-serves :
      (l : CacheLayer lib) (server tool : Text) (args : Args) (v : V) (ttl now later : ℕ)
      → let l' = promote lib b l (key_of lib b server tool args) v ttl ttl now in
        ¬ (lib.peek (key_of lib b server tool args) l'.lru.cache ≡ none)
        → later - now ≤ ttl
        → (layer_get lib b l' server tool args later).1
          ≡ some (
              fresh lib b
                (memory_hit lib b (record { value = v; stored_at = now; ttl_ms = ttl }) later))
  promoted-serves l server tool args v ttl now later kept h =
      let key = key_of lib b server tool args in
      let p : LruEntry V = record { value = v; stored_at = now; ttl_ms = ttl } in
      elim (promoted_entry lib b l key v ttl ttl now) [
        | inl gone ↦ absurd (kept gone)
        | inr here ↦
            layer_get-from_memory lib b (promote lib b l key v ttl ttl now) server tool args later
              ttl p here (promoted_ttl lib b l key v ttl ttl now) (unpast lib b now ttl later h) h
      ]

  -- A stale entry of the disk is served with a flag that asks for a refresh, unless one is running.
  -- If the memory keeps its copy, every later call gets the same stale value as a fresh one, without
  -- the flag and with an age that counts from the first call, for a whole time to live more.
  pub stale-becomes-fresh :
      (l : CacheLayer lib) (server tool : Text) (args : Args) (now later : ℕ) (e : DiskEntry V)
      → lib.peek (key_of lib b server tool args) l.lru.cache ≡ none
      → lookup (b.hash_args args) l.disk.files ≡ some (valid e)
      → 0 < e.ttl_ms
      → e.ttl_ms < now - e.stored_at
      → l.stale_while_revalidate ≡ true
      → let first = layer_get lib b l server tool args now in
        ¬ (lib.peek (key_of lib b server tool args) first.0.lru.cache ≡ none)
        → later - now ≤ e.ttl_ms
        → (first.1 ≡ some (stale lib b l (key_of lib b server tool args) (disk_hit lib b e now)))
          × ((layer_get lib b first.0 server tool args later).1
              ≡ some (
                  fresh lib b (record {
                    value = e.value;
                    stored_at = now;
                    source = memory;
                    staleness = later - now;
                  })))
  stale-becomes-fresh l server tool args now later e absent f p old s =
      let key = key_of lib b server tool args in
      let hash = b.hash_args args in
      let l0 = record l { lru = (lru_get lib l.lru key now).0 } in
      let here = layer_get-from_disk lib b l server tool args now absent in
      let promoted = from_disk-promotes l0 key hash now e f p old s in
      rw (here, promoted)
        (λ kept h. (
          from_disk-stale lib b l0 key hash now e f p old s,
          promoted-serves (record l0 { disk = (disk_get l0.disk hash now).0 }) server tool args
              e.value e.ttl_ms now later kept h,
        ))
