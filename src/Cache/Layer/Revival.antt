-- ===== src/Cache/Layer/Revival.antt =====
-- A call of `get` in src/cache/cache.ts between an event of the registry and the end of the disk
-- invalidation that it starts.
use mcp_conductor.Base.{
  ℕ, ◌-◌, ◌≤◌, ◌<◌, ◌≡◌, refl, ◌∙◌, max, inl, inr, some, none, Bool, Text, lookup, arith,
}
use mcp_conductor.Cache.Lru.{LruCache, LruEntry, memory, is_past, lru_get}
use mcp_conductor.Cache.Disk.{DiskEntry, valid, disk_get, read_file}
use mcp_conductor.Cache.Layer.{
  CacheLayer, Backing, key_of, fresh, promote, from_disk, layer_get, on_tool_updated,
  end_invalidation,
}
use mcp_conductor.Cache.Layer.Hits.{
  disk_hit, memory_hit, from_disk-hit, layer_get-from_disk, layer_get-from_memory, promoted_ttl,
  promoted_entry, unpast,
}
use mcp_conductor.Cache.Layer.Invalidation.{on_tool_updated-peek, key_starts}

-- What is left of a time to live at a time, at least one millisecond.
abbrev pub remaining_ttl : (stored_at ttl now : ℕ) → ℕ
remaining_ttl stored_at ttl now = max 1 (ttl - (now - stored_at))

remaining_ttl-le :
    (stored_at ttl now d : ℕ) → 0 < ttl → d ≤ remaining_ttl stored_at ttl now → d ≤ ttl
remaining_ttl-le stored_at ttl now d p h = ground arith

module _ {V Args : Type 0} (lib : LruCache (LruEntry V)) (b : Backing V Args) where
  pub from_disk-copies :
      (l : CacheLayer lib) (key hash : Text) (now : ℕ) (e : DiskEntry V)
      → lookup hash l.disk.files ≡ some (valid e)
      → 0 < e.ttl_ms
      → now - e.stored_at ≤ e.ttl_ms
      → (from_disk lib b l key hash now).0
        ≡ promote lib b
            (record l { disk = (disk_get l.disk hash now).0 })
            key
            e.value
            (remaining_ttl e.stored_at e.ttl_ms now)
            e.ttl_ms
            now
  unfolding from_disk is_past read_file disk_get
  from_disk-copies l key hash now e f p h = rw f (ground arith)

  -- A copy in the memory is served whatever a disk invalidation does.
  copy-serves :
      (l : CacheLayer lib) (server tool : Text) (args : Args) (e : DiskEntry V) (now later : ℕ)
      (prefix : Text) (removes : DiskEntry V → Bool)
      → 0 < e.ttl_ms
      → later - now ≤ remaining_ttl e.stored_at e.ttl_ms now
      → let l' =
          promote lib b l
            (key_of lib b server tool args)
            e.value
            (remaining_ttl e.stored_at e.ttl_ms now)
            e.ttl_ms
            now in
        ¬ (lib.peek (key_of lib b server tool args) l'.lru.cache ≡ none)
        → (layer_get lib b (end_invalidation lib b l' prefix removes) server tool args later).1
          ≡ some (
              fresh lib b (
                memory_hit lib b
                  (record {
                    value = e.value;
                    stored_at = now;
                    ttl_ms = remaining_ttl e.stored_at e.ttl_ms now;
                  })
                  later))
  unfolding end_invalidation
  copy-serves l server tool args e now later prefix removes p h kept =
      let key = key_of lib b server tool args in
      let left = remaining_ttl e.stored_at e.ttl_ms now in
      let l' = promote lib b l key e.value left e.ttl_ms now in
      elim (promoted_entry lib b l key e.value left e.ttl_ms now) [
        | inl gone ↦ absurd (kept gone)
        | inr here ↦
            layer_get-from_memory lib b (end_invalidation lib b l' prefix removes) server tool args
              later e.ttl_ms _ here (promoted_ttl lib b l key e.value left e.ttl_ms now)
              (unpast lib b now left later h)
              (remaining_ttl-le e.stored_at e.ttl_ms now (later - now) p h)
      ]

  -- A call between the event `tool-updated` and the end of the disk invalidation that it started still
  -- finds the result in the file with the hash of its arguments, if the time to live is not over, and
  -- gets it as a fresh one. If the memory keeps its copy, the later calls get it as a fresh one too,
  -- also after the invalidation has ended and whichever files it removed, until what was left of the
  -- time to live is over.
  pub on_tool_updated-revived :
      (l : CacheLayer lib) (server tool : Text) (args : Args) (e : DiskEntry V) (now later : ℕ)
      (removes : DiskEntry V → Bool)
      → lookup (b.hash_args args) l.disk.files ≡ some (valid e)
      → 0 < e.ttl_ms
      → now - e.stored_at ≤ e.ttl_ms
      → later - now ≤ remaining_ttl e.stored_at e.ttl_ms now
      → let (updated, prefix) = on_tool_updated lib b l server tool in
        let (read, first) = layer_get lib b updated server tool args now in
        ¬ (lib.peek (key_of lib b server tool args) read.lru.cache ≡ none)
        → (first ≡ some (fresh lib b (disk_hit lib b e now)))
          × ((layer_get lib b (end_invalidation lib b read prefix removes) server tool args later).1
              ≡ some (
                  fresh lib b (record {
                    value = e.value;
                    stored_at = now;
                    source = memory;
                    staleness = later - now;
                  })))
  on_tool_updated-revived l server tool args e now later removes f p young h =
      let key = key_of lib b server tool args in
      let hash = b.hash_args args in
      let updated = (on_tool_updated lib b l server tool).0 in
      let prefix = (on_tool_updated lib b l server tool).1 in
      let file : lookup hash updated.disk.files ≡ some (valid e) = unfold on_tool_updated in f in
      let absent : lib.peek key updated.lru.cache ≡ none =
        on_tool_updated-peek lib b l server tool key
        ∙ rw (key_starts lib b server tool args) refl in
      let u = record updated { lru = (lru_get lib updated.lru key now).0 } in
      let here = layer_get-from_disk lib b updated server tool args now absent in
      let copied = from_disk-copies u key hash now e file p young in
      rw (here, copied)
        (λ kept. (
          from_disk-hit lib b u key hash now e file p young,
          copy-serves (record u { disk = (disk_get u.disk hash now).0 }) server tool args e now
              later prefix removes p h kept,
        ))
