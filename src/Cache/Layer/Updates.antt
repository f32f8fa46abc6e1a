-- ===== src/Cache/Layer/Updates.antt =====
-- The cache of src/cache/cache.ts behind the registry of src/registry/registry.ts, whose events it
-- gets by `watch`.
use mcp_conductor.Base.{
  ℕ, ◌≡◌, ◌⊎◌, inl, inr, refl, ◌∙◌, Bool, true, false, Option, none, some, List, [], ◌∷◌, ◌++◌,
  Text, lookup, Dict, Distinct, starts_with, if◌then◌else◌, Bool-cases, subst,
}
use mathlib.Core.List.{Memᴰ}
use mcp_conductor.Registry.{
  ToolDefinition, RawTool, RegistryEvent, tool_added, tool_removed, tool_updated, server_connected,
  server_disconnected, get_tool, definition_of, differs, refresh_server,
}
use mcp_conductor.Registry.Loops.{last_named}
use mcp_conductor.Registry.Events.{refresh_server-updated}
use mcp_conductor.Cache.Lru.{LruCache, LruEntry}
use mcp_conductor.Cache.Disk.{DiskEntry, valid, entry_key, normalized_prefix}
use mcp_conductor.Cache.Layer.{
  CacheLayer, Backing, key_of, layer_get, tool_prefix, on_tool_updated, end_invalidation,
  end_invalidations,
}
use mcp_conductor.Cache.Layer.Hits.{layer_get-from_disk}
use mcp_conductor.Cache.Layer.Invalidation.{
  on_tool_updated-peek, end_invalidation-Distinct, end_invalidation-lookup, own_matches, key_starts,
  after_disk-none,
}

if_left : {A : Type 0} (c : Bool) (o : Option A) → o ≡ none → (if c then none else o) ≡ none
if_left true o e = refl
if_left false o e = e

Memᴰ-later : (p : Text) (ps qs : List Text) → Memᴰ p qs → Memᴰ p (ps ++ qs)
Memᴰ-later p [] qs m = m
Memᴰ-later p (x ∷ ps) qs m = Memᴰ.tail (Memᴰ-later p ps qs m)

module _ {V Args J : Type 0} (lib : LruCache (LruEntry V)) (b : Backing V Args) where
  -- The subscription, at any event, with the prefixes of the disk invalidations that it starts.
  unfoldable pub on_event : CacheLayer lib → RegistryEvent J → CacheLayer lib × List Text
  unfolding on_tool_updated
  on_event l (tool_updated server tool before after) =
      let (l', prefix) = on_tool_updated lib b l server tool in (l', prefix ∷ [])
  on_event l (tool_added server tool after) = (l, [])
  on_event l (tool_removed server tool before) = (l, [])
  on_event l (server_connected server) = (l, [])
  on_event l (server_disconnected server) = (l, [])

  unfoldable pub on_events : CacheLayer lib → List (RegistryEvent J) → CacheLayer lib × List Text
  unfolding on_event
  on_events l [] = (l, [])
  on_events l (e ∷ es) =
      let (l', started) = on_event l e in
      let (l'', more) = on_events l' es in (l'', started ++ more)

  on_event-disk : (l : CacheLayer lib) (e : RegistryEvent J) → (on_event l e).0.disk ≡ l.disk
  unfolding on_event on_tool_updated
  on_event-disk l (tool_updated s t before after) = refl
  on_event-disk l (tool_added s t after) = refl
  on_event-disk l (tool_removed s t before) = refl
  on_event-disk l (server_connected s) = refl
  on_event-disk l (server_disconnected s) = refl

  on_events-disk :
      (es : List (RegistryEvent J)) (l : CacheLayer lib) → (on_events l es).0.disk ≡ l.disk
  unfolding on_events
  on_events-disk [] l = refl
  on_events-disk (e ∷ es) l = on_events-disk es (on_event l e).0 ∙ on_event-disk l e

  on_event-peek :
      (l : CacheLayer lib) (e : RegistryEvent J) (k : Text)
      → lib.peek k l.lru.cache ≡ none
      → lib.peek k (on_event l e).0.lru.cache ≡ none
  unfolding on_event
  on_event-peek l (tool_updated s t before after) k h =
      on_tool_updated-peek lib b l s t k ∙ if_left _ _ h
  on_event-peek l (tool_added s t after) k h = h
  on_event-peek l (tool_removed s t before) k h = h
  on_event-peek l (server_connected s) k h = h
  on_event-peek l (server_disconnected s) k h = h

  on_events-peek :
      (es : List (RegistryEvent J)) (l : CacheLayer lib) (k : Text)
      → lib.peek k l.lru.cache ≡ none
      → lib.peek k (on_events l es).0.lru.cache ≡ none
  unfolding on_events
  on_events-peek [] l k h = h
  on_events-peek (e ∷ es) l k h = on_events-peek es (on_event l e).0 k (on_event-peek l e k h)

  on_events-updated :
      (es : List (RegistryEvent J)) (l : CacheLayer lib) (server tool : Text) (args : Args)
      (before after : ToolDefinition J)
      → Memᴰ (tool_updated server tool before after) es
      → (lib.peek (key_of lib b server tool args) (on_events l es).0.lru.cache ≡ none)
        × Memᴰ (tool_prefix lib b server tool) (on_events l es).1
  unfolding on_events on_event
  on_events-updated [] l server tool args before after m = elim m [ ]
  on_events-updated (e ∷ es) l server tool args before after (Memᴰ.head p) =
      subst
        (λ x.
          (lib.peek (key_of lib b server tool args) (on_events l (x ∷ es)).0.lru.cache ≡ none)
          × Memᴰ (tool_prefix lib b server tool) (on_events l (x ∷ es)).1)
        p
        (
          on_events-peek es (on_tool_updated lib b l server tool).0 (key_of lib b server tool args)
              (on_tool_updated-peek lib b l server tool (key_of lib b server tool args)
                ∙ rw (key_starts lib b server tool args) refl),
          unfold on_tool_updated in Memᴰ.head refl,
        )
  on_events-updated (e ∷ es) l server tool args before after (Memᴰ.tail m) =
      let later = on_events-updated es (on_event l e).0 server tool args before after m in
      (later.0, Memᴰ-later _ (on_event l e).1 (on_events (on_event l e).0 es).1 later.1)

module _ {V Args : Type 0} (lib : LruCache (LruEntry V)) (b : Backing V Args) (server tool : Text)
    (args : Args) (removes : DiskEntry V → Bool) where
  -- No file stands twice, and the one with the hash of the arguments, if any, is the tool's own and
  -- can be removed.
  unfoldable pub Owned : CacheLayer lib → Type 0
  Owned l =
      Distinct l.disk.files
      × ((lookup (b.hash_args args) l.disk.files ≡ none)
          ⊎ ((e : DiskEntry V) × (lookup (b.hash_args args) l.disk.files ≡ some (valid e))
              × (e.server ≡ server)
              × (e.tool ≡ tool)
              × (removes e ≡ true)))

  end_invalidation-Owned :
      (l : CacheLayer lib) (prefix : Text)
      → Owned l
      → Owned (end_invalidation lib b l prefix removes)
  unfolding Owned
  end_invalidation-Owned l prefix (d, o) =
      let seen = end_invalidation-lookup lib b l prefix (b.hash_args args) removes d in
      (
        end_invalidation-Distinct lib b l prefix removes d,
        elim o [
          | inl e ↦ inl (seen ∙ rw e refl)
          | inr (e, f, s, t, r) ↦
              elim (Bool-cases
                (starts_with (entry_key e.server e.tool) (normalized_prefix prefix))) [
                  | inl p ↦ inl (seen ∙ rw (f, p, r) refl)
                  | inr p ↦ inr (e, seen ∙ rw (f, p) refl, s, t, r)
                ]
        ],
      )

  end_invalidation-gone :
      (l : CacheLayer lib)
      → Owned l
      → lookup
          (b.hash_args args)
          (end_invalidation lib b l (tool_prefix lib b server tool) removes).disk.files
        ≡ none
  unfolding Owned
  end_invalidation-gone l (d, o) =
      let seen =
        end_invalidation-lookup lib b l (tool_prefix lib b server tool) (b.hash_args args) removes
          d in
      elim o [
        | inl e ↦ seen ∙ rw e refl
        | inr (e, f, s, t, r) ↦ seen ∙ rw (f, own_matches lib b server tool e s t, r) refl
      ]

  end_invalidations-absent :
      (prefixes : List Text) (l : CacheLayer lib)
      → Distinct l.disk.files
      → lookup (b.hash_args args) l.disk.files ≡ none
      → lookup (b.hash_args args) (end_invalidations lib b l prefixes removes).disk.files ≡ none
  unfolding end_invalidations
  end_invalidations-absent [] l d e = e
  end_invalidations-absent (p ∷ prefixes) l d e =
      end_invalidations-absent prefixes (end_invalidation lib b l p removes)
        (end_invalidation-Distinct lib b l p removes d)
        (end_invalidation-lookup lib b l p (b.hash_args args) removes d ∙ rw e refl)

  end_invalidations-gone :
      (prefixes : List Text) (l : CacheLayer lib)
      → Memᴰ (tool_prefix lib b server tool) prefixes
      → Owned l
      → lookup (b.hash_args args) (end_invalidations lib b l prefixes removes).disk.files ≡ none
  unfolding end_invalidations Owned
  end_invalidations-gone [] l m o = elim m [ ]
  end_invalidations-gone (p ∷ prefixes) l (Memᴰ.head e) o =
      end_invalidations-absent prefixes (end_invalidation lib b l p removes)
        (end_invalidation-Distinct lib b l p removes o.0)
        (subst
          (λ x. lookup (b.hash_args args) (end_invalidation lib b l x removes).disk.files ≡ none) e
          (end_invalidation-gone l o))
  end_invalidations-gone (p ∷ prefixes) l (Memᴰ.tail m) o =
      end_invalidations-gone prefixes (end_invalidation lib b l p removes) m
        (end_invalidation-Owned l p o)

  end_invalidations-lru :
      (prefixes : List Text) (l : CacheLayer lib)
      → (end_invalidations lib b l prefixes removes).lru ≡ l.lru
  unfolding end_invalidations end_invalidation
  end_invalidations-lru [] l = refl
  end_invalidations-lru (p ∷ prefixes) l =
      end_invalidations-lru prefixes (end_invalidation lib b l p removes)

module _ {V Args J : Type 0} (lib : LruCache (LruEntry V)) (b : Backing V Args) where
  -- When a refresh changes the description or the schema of a tool, the cache that watches the
  -- registry starts a disk invalidation for the tool. Once it has ended, alone or with others in
  -- whatever order, and if no other call of the cache came in between, the cache serves no result for
  -- a call of the tool, in either tier, provided that the file with the hash of the arguments, if
  -- there is one, was written for that tool and could be removed.
  pub refresh_server-layer_get :
      (schema_text : J → Text) (empty_schema : J) (catalog : Dict (ToolDefinition J))
      (server : Text) (raws : List (RawTool J)) (raw : RawTool J) (t : ToolDefinition J)
      (l : CacheLayer lib) (args : Args) (now : ℕ) (ended : List Text)
      (removes : DiskEntry V → Bool)
      → get_tool catalog server raw.name ≡ some t
      → last_named raw.name raws ≡ some raw
      → differs schema_text t (definition_of empty_schema catalog server raw) ≡ true
      → Owned lib b server raw.name args removes l
      → Memᴰ (tool_prefix lib b server raw.name) ended
      → let events = (refresh_server schema_text empty_schema catalog server (some raws)).1 in
        let (l', started) = on_events lib b l events in
        Memᴰ (tool_prefix lib b server raw.name) started
        × ((layer_get lib b (end_invalidations lib b l' ended removes) server raw.name args now).1
            ≡ none)
  unfolding Owned
  refresh_server-layer_get schema_text empty_schema catalog server raws raw t l args now ended
        removes found last h o m =
      let events = (refresh_server schema_text empty_schema catalog server (some raws)).1 in
      let l' = (on_events lib b l events).0 in
      let seen =
        on_events-updated lib b events l server raw.name args t _ (
          refresh_server-updated schema_text empty_schema catalog server raws raw t found last h) in
      let owned : Owned lib b server raw.name args removes l' =
        rw (on_events-disk lib b events l) o in
      let done = end_invalidations lib b l' ended removes in
      let absent : lib.peek (key_of lib b server raw.name args) done.lru.cache ≡ none =
        rw (end_invalidations-lru lib b server raw.name args removes ended l') seen.0 in
      (
        seen.1,
        rw (layer_get-from_disk lib b done server raw.name args now absent) (
            after_disk-none lib b _ (key_of lib b server raw.name args) (b.hash_args args) now
              (end_invalidations-gone lib b server raw.name args removes ended l' m owned)),
      )
