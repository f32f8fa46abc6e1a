-- ===== src/Cache/Layer/Others.antt =====
-- What calls of `get` and `set` of src/cache/cache.ts leave of a result that was stored.
use mcp_conductor.Base.{
  ℕ, ◌-◌, ◌≤◌, ◌<◌, ◌==◌, ◌≡◌, ◌∙◌, ◌⊎◌, inl, inr, false, Option, none, some, Text, lookup,
  lookup-insert, if◌then◌else◌, Text-cases, text_eq-ne, or_default, not,
}
use mcp_conductor.Cache.Lru.{LruCache, LruEntry, CacheHit, is_past, lru_get, lru_delete}
use mcp_conductor.Cache.Disk.{DiskEntry, valid, disk_get, disk_set}
use mcp_conductor.Cache.Layer.{
  CacheLayer, Backing, key_of, fresh, stale, promote, from_disk, after_memory, layer_get, layer_set,
  store, ttl_for,
}
use mcp_conductor.Cache.Layer.Revival.{from_disk-copies}
use mcp_conductor.Cache.Layer.Kept.{
  lru_delete-Less, lru_get-Less, IsHeld, Less-IsHeld, either-IsHeld, promote-IsHeld,
  promote-own-IsHeld, after_disk-IsHeld, disk_get-IsHeld,
}

module _ {V Args : Type 0} (lib : LruCache (LruEntry V)) (b : Backing V Args) where
  module _ (key hash : Text) (e : DiskEntry V) where
    module _ (lasts : 0 < e.ttl_ms) where
      from_disk-IsHeld :
          (l : CacheLayer lib) (j h : Text) (now : ℕ)
          → ¬ (j ≡ key)
          → now - e.stored_at ≤ e.ttl_ms
          → IsHeld lib b key hash e l
          → IsHeld lib b key hash e (from_disk lib b l j h now).0
      from_disk-IsHeld l j h now n young held = elim (Text-cases h hash) [
        | inl same ↦
            let copies = from_disk-copies lib b l j h now e (rw same held.file) lasts young in
            rw copies (
              promote-IsHeld lib b key hash e _ j e.value _ e.ttl_ms now n
                (disk_get-IsHeld lib b key hash e l h now held))
        | inr other ↦
            unfold from_disk in
            after_disk-IsHeld lib b key hash e _ j h now (disk_get l.disk h now).1 n other
              (disk_get-IsHeld lib b key hash e l h now held)
      ]

      from_disk-own-IsHeld :
          (l : CacheLayer lib) (now : ℕ)
          → e.stored_at ≤ now
          → now - e.stored_at ≤ e.ttl_ms
          → IsHeld lib b key hash e l
          → IsHeld lib b key hash e (from_disk lib b l key hash now).0
      from_disk-own-IsHeld l now after young held =
          rw (from_disk-copies lib b l key hash now e held.file lasts young) (
            promote-own-IsHeld lib b key hash e _ now after
              (disk_get-IsHeld lib b key hash e l hash now held))

      -- A call of `get` for this key and file, or for another key.
      abbrev pub Apart : (j h : Text) → Type 0
      Apart j h = ((j ≡ key) × (h ≡ hash)) ⊎ ¬ (j ≡ key)

      from_disk-any-IsHeld :
          (l : CacheLayer lib) (j h : Text) (now : ℕ)
          → Apart j h
          → e.stored_at ≤ now
          → now - e.stored_at ≤ e.ttl_ms
          → IsHeld lib b key hash e l
          → IsHeld lib b key hash e (from_disk lib b l j h now).0
      from_disk-any-IsHeld l j h now (inl (p, q)) after young held =
          rw (p, q) (from_disk-own-IsHeld l now after young held)
      from_disk-any-IsHeld l j h now (inr n) after young held =
          from_disk-IsHeld l j h now n young held

      after_memory-IsHeld :
          (l : CacheLayer lib) (j h : Text) (now : ℕ) (o : Option (CacheHit V))
          → Apart j h
          → e.stored_at ≤ now
          → now - e.stored_at ≤ e.ttl_ms
          → IsHeld lib b key hash e l
          → IsHeld lib b key hash e (after_memory lib b l j h now o).0
      unfolding after_memory
      after_memory-IsHeld l j h now none a after young held =
          from_disk-any-IsHeld l j h now a after young held
      after_memory-IsHeld l j h now (some c) a after young held =
          let aged = record c { staleness = now - c.stored_at } in
          let deleted = record l { lru = (lru_delete lib l.lru j).0 } in
          let read = from_disk lib b deleted j h now in
          either-IsHeld lib b key hash e
            (not (is_past c.stored_at (or_default (lookup j l.ttl_map) 0) now))
            (l, some (fresh lib b aged))
            (if l.stale_while_revalidate then (l, some (stale lib b l j aged)) else read) held
            (either-IsHeld lib b key hash e l.stale_while_revalidate
              (l, some (stale lib b l j aged)) read held
              (from_disk-any-IsHeld deleted j h now a after young (
                Less-IsHeld lib b key hash e l (lru_delete lib l.lru j).0
                  (lru_delete-Less lib b l.lru j key) held)))

      -- `get` for this key and file, or for another key.
      pub layer_get-IsHeld :
          (l : CacheLayer lib) (server tool : Text) (args : Args) (now : ℕ)
          → Apart (key_of lib b server tool args) (b.hash_args args)
          → e.stored_at ≤ now
          → now - e.stored_at ≤ e.ttl_ms
          → IsHeld lib b key hash e l
          → IsHeld lib b key hash e (layer_get lib b l server tool args now).0
      unfolding layer_get
      layer_get-IsHeld l server tool args now a after young held =
          let j = key_of lib b server tool args in
          let r = lru_get lib l.lru j now in
          after_memory-IsHeld (record l { lru = r.0 }) j (b.hash_args args) now r.1 a after young
            (Less-IsHeld lib b key hash e l r.0 (lru_get-Less lib b l.lru j key now) held)

    -- `set` for another key and another file.
    store-IsHeld :
        (l : CacheLayer lib) (server tool : Text) (args : Args) (v : V) (ttl now : ℕ)
        → ¬ (key_of lib b server tool args ≡ key)
        → ¬ (b.hash_args args ≡ hash)
        → IsHeld lib b key hash e l
        → IsHeld lib b key hash e (store lib b l server tool args v ttl now).0
    unfolding store disk_set
    store-IsHeld l server tool args v ttl now n m held =
        let j = key_of lib b server tool args in
        let promoted = promote-IsHeld lib b key hash e l j v ttl ttl now n held in
        record {
          file =
              lookup-insert (b.hash_args args) hash
                (valid (record {
                  value = v;
                  stored_at = now;
                  ttl_ms = ttl;
                  server = server;
                  tool = tool;
                }))
                (promote lib b l j v ttl ttl now).disk.files
              ∙ rw (text_eq-ne (b.hash_args args) hash m) promoted.file;
          noted = promoted.noted;
          copy = promoted.copy;
        }

    pub layer_set-IsHeld :
        (l : CacheLayer lib) (server tool : Text) (args : Args) (v : V) (ttl : Option ℕ) (now : ℕ)
        → ¬ (key_of lib b server tool args ≡ key)
        → ¬ (b.hash_args args ≡ hash)
        → IsHeld lib b key hash e l
        → IsHeld lib b key hash e (layer_set lib b l server tool args v ttl now).0
    unfolding layer_set
    layer_set-IsHeld l server tool args v ttl now n m held =
        either-IsHeld lib b key hash e (ttl_for lib b l server tool ttl == 0) (l, false)
          (store lib b l server tool args v (ttl_for lib b l server tool ttl) now) held
          (store-IsHeld l server tool args v (ttl_for lib b l server tool ttl) now n m held)
