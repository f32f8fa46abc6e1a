-- ===== src/Cache/Layer/Hits.antt =====
-- What a `get` of src/cache/cache.ts finds in the memory and on the disk.
use mcp_conductor.Base.{
  ℕ, ◌==◌, ◌-◌, ◌≤◌, ◌<◌, ◌≡◌, refl, ◌∙◌, ◌⊎◌, inl, inr, true, false, Option, none, some, Text,
  text_eq_refl, lookup, lookup-insert, arith,
}
use mcp_conductor.Cache.Lru.{LruCache, LruEntry, CacheHit, memory, disk, is_past, lru_get}
use mcp_conductor.Cache.Lru.View.{lru_get-hit, lru_set-peek}
use mcp_conductor.Cache.Disk.{DiskEntry, valid, disk_get, read_file, disk_set}
use mcp_conductor.Cache.Layer.{
  CacheLayer, Backing, key_of, fresh, stale, promote, from_disk, after_memory, layer_get, store,
}

module _ {V Args : Type 0} (lib : LruCache (LruEntry V)) (b : Backing V Args) where
  -- The hit of a disk entry at a time.
  abbrev pub disk_hit : DiskEntry V → ℕ → CacheHit V
  disk_hit e now = record {
    value = e.value;
    stored_at = e.stored_at;
    source = disk;
    staleness = now - e.stored_at;
  }

  pub from_disk-hit :
      (l : CacheLayer lib) (key hash : Text) (now : ℕ) (e : DiskEntry V)
      → lookup hash l.disk.files ≡ some (valid e)
      → 0 < e.ttl_ms
      → now - e.stored_at ≤ e.ttl_ms
      → (from_disk lib b l key hash now).1 ≡ some (fresh lib b (disk_hit e now))
  unfolding from_disk is_past read_file disk_get
  from_disk-hit l key hash now e f p h = rw f (ground arith)

  pub from_disk-stale :
      (l : CacheLayer lib) (key hash : Text) (now : ℕ) (e : DiskEntry V)
      → lookup hash l.disk.files ≡ some (valid e)
      → 0 < e.ttl_ms
      → e.ttl_ms < now - e.stored_at
      → l.stale_while_revalidate ≡ true
      → (from_disk lib b l key hash now).1 ≡ some (stale lib b l key (disk_hit e now))
  unfolding from_disk is_past read_file disk_get
  from_disk-stale l key hash now e f p h s = rw f (ground arith)

  after_memory-none :
      (l : CacheLayer lib) (key hash : Text) (now : ℕ) (o : Option (CacheHit V))
      → o ≡ none
      → after_memory lib b l key hash now o ≡ from_disk lib b l key hash now
  unfolding after_memory
  after_memory-none l key hash now o e = rw e refl

  pub layer_get-from_disk :
      (l : CacheLayer lib) (server tool : Text) (args : Args) (now : ℕ)
      → lib.peek (key_of lib b server tool args) l.lru.cache ≡ none
      → layer_get lib b l server tool args now
        ≡ from_disk lib b
            (record l { lru = (lru_get lib l.lru (key_of lib b server tool args) now).0 })
            (key_of lib b server tool args)
            (b.hash_args args)
            now
  unfolding layer_get
  layer_get-from_disk l server tool args now e =
      after_memory-none _ _ _ now (lru_get lib l.lru (key_of lib b server tool args) now).1
        (lru_get-hit lib l.lru (key_of lib b server tool args) now ∙ rw e refl)

  pub store-file :
      (l : CacheLayer lib) (server tool : Text) (args : Args) (v : V) (ttl now : ℕ)
      → lookup (b.hash_args args) (store lib b l server tool args v ttl now).0.disk.files
        ≡ some (
            valid
              (record { value = v; stored_at = now; ttl_ms = ttl; server = server; tool = tool }))
  unfolding store disk_set
  store-file l server tool args v ttl now = ground (
    arith,
    lookup-insert (b.hash_args args) (b.hash_args args)
        (valid (record { value = v; stored_at = now; ttl_ms = ttl; server = server; tool = tool }))
        l.disk.files,
    text_eq_refl (b.hash_args args),
  )

  -- The file of a result that was stored is found by the hash of the arguments alone: a call of
  -- whatever tool of whatever server that has the same hash, and no entry in the memory, gets the
  -- result as its own, until its time to live is over.
  pub store-collides :
      (l : CacheLayer lib) (server tool : Text) (args : Args) (v : V) (ttl now : ℕ)
      → 0 < ttl
      → (server' tool' : Text) (args' : Args) (later : ℕ) → b.hash_args args' ≡ b.hash_args args
      → let l' = (store lib b l server tool args v ttl now).0 in
        lib.peek (key_of lib b server' tool' args') l'.lru.cache ≡ none
        → later - now ≤ ttl
        → (layer_get lib b l' server' tool' args' later).1
          ≡ some (
              fresh lib b
                (record { value = v; stored_at = now; source = disk; staleness = later - now }))
  store-collides l server tool args v ttl now p server' tool' args' later same absent h =
      let l' = (store lib b l server tool args v ttl now).0 in
      let e : DiskEntry V = record {
        value = v;
        stored_at = now;
        ttl_ms = ttl;
        server = server;
        tool = tool;
      } in
      let found : lookup (b.hash_args args') l'.disk.files ≡ some (valid e) =
        rw same (store-file l server tool args v ttl now) in
      rw (layer_get-from_disk l' server' tool' args' later absent)
        (from_disk-hit _ (key_of lib b server' tool' args') (b.hash_args args') later e found p h)

  after_memory-young :
      (l : CacheLayer lib) (key hash : Text) (now ttl : ℕ) (h : CacheHit V)
      → lookup key l.ttl_map ≡ some ttl
      → now - h.stored_at ≤ ttl
      → (after_memory lib b l key hash now (some h)).1
        ≡ some (fresh lib b (record h { staleness = now - h.stored_at }))
  unfolding after_memory is_past
  after_memory-young l key hash now ttl h e le = rw e (ground arith)

  abbrev pub memory_hit : LruEntry V → ℕ → CacheHit V
  memory_hit p now = record {
    value = p.value;
    stored_at = p.stored_at;
    source = memory;
    staleness = now - p.stored_at;
  }

  pub layer_get-from_memory :
      (l : CacheLayer lib) (server tool : Text) (args : Args) (now ttl : ℕ) (p : LruEntry V)
      → lib.peek (key_of lib b server tool args) l.lru.cache ≡ some p
      → lookup (key_of lib b server tool args) l.ttl_map ≡ some ttl
      → is_past p.stored_at p.ttl_ms now ≡ false
      → now - p.stored_at ≤ ttl
      → (layer_get lib b l server tool args now).1 ≡ some (fresh lib b (memory_hit p now))
  unfolding layer_get
  layer_get-from_memory l server tool args now ttl p e t past le =
      let key = key_of lib b server tool args in
      let got : (lru_get lib l.lru key now).1 ≡ some (memory_hit p now) =
        lru_get-hit lib l.lru key now ∙ rw (e, past) refl in
      rw got (after_memory-young _ key (b.hash_args args) now ttl (memory_hit p now) t le)

  pub promoted_ttl :
      (l : CacheLayer lib) (key : Text) (v : V) (remaining ttl now : ℕ)
      → lookup key (promote lib b l key v remaining ttl now).ttl_map ≡ some ttl
  unfolding promote
  promoted_ttl l key v remaining ttl now =
      ground (arith, lookup-insert key key ttl l.ttl_map, text_eq_refl key)

  -- The entry of a promoted value, if the memory kept it.
  pub promoted_entry :
      (l : CacheLayer lib) (key : Text) (v : V) (remaining ttl now : ℕ)
      → let cache = (promote lib b l key v remaining ttl now).lru.cache in
        (lib.peek key cache ≡ none)
        ⊎ (lib.peek key cache ≡ some (record { value = v; stored_at = now; ttl_ms = remaining }))
  unfolding promote
  promoted_entry l key v remaining ttl now =
      elim (lru_set-peek lib b.estimate_bytes l.lru key key v remaining now) [
        | inl gone ↦ inl gone
        | inr kept ↦ inr (kept ∙ rw (text_eq_refl key) refl)
      ]

  pub store-ttl :
      (l : CacheLayer lib) (server tool : Text) (args : Args) (v : V) (ttl now : ℕ)
      → lookup (key_of lib b server tool args) (store lib b l server tool args v ttl now).0.ttl_map
        ≡ some ttl
  unfolding store
  store-ttl l server tool args v ttl now =
      promoted_ttl l (key_of lib b server tool args) v ttl ttl now

  pub store-entry :
      (l : CacheLayer lib) (server tool : Text) (args : Args) (v : V) (ttl now : ℕ)
      → let cache = (store lib b l server tool args v ttl now).0.lru.cache in
        (lib.peek (key_of lib b server tool args) cache ≡ none)
        ⊎ (lib.peek (key_of lib b server tool args) cache
            ≡ some (record { value = v; stored_at = now; ttl_ms = ttl }))
  unfolding store
  store-entry l server tool args v ttl now =
      promoted_entry l (key_of lib b server tool args) v ttl ttl now

  pub unpast : (stored_at ttl now : ℕ) → now - stored_at ≤ ttl → is_past stored_at ttl now ≡ false
  unfolding is_past
  unpast stored_at ttl now h = ground arith

  pub nonzero : (n : ℕ) → 0 < n → (n == 0) ≡ false
  nonzero n p = ground arith
