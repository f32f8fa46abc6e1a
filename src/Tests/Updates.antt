-- ===== src/Tests/Updates.antt =====
-- A refresh of the registry, and the cache that watches it.
use mcp_conductor.Base.{
  ℕ, ◌≡◌, inr, refl, true, none, some, [], ◌∷◌, Text, codes, text_eq, lookup, insert, Distinct,
}
use mathlib.Core.List.{Memᴰ}
use mcp_conductor.Registry.{get_tool, definition_of, differs, refresh_server}
use mcp_conductor.Cache.Disk.{DiskEntry}
use mcp_conductor.Cache.Layer.{CacheLayer, layer_get, store, tool_prefix, end_invalidations}
use mcp_conductor.Cache.Layer.Updates.{on_events, Owned, refresh_server-layer_get}
use mcp_conductor.Tests.CacheLayer.{plain, backing, empty_layer}
use mcp_conductor.Tests.Registry.{schema_text, raw, tool, a, x, catalog, raws, last_x}

abbrev args : Text
args = codes "h"

-- A result of the tool `x` of the server `a`.
abbrev stored : CacheLayer plain
stored = (store plain backing empty_layer a x args 7 500 1_000).0

abbrev entry : DiskEntry ℕ
entry = record { value = 7; stored_at = 1_000; ttl_ms = 500; server = a; tool = x }

stored-Owned : Owned plain backing a x args (λ e. true) stored
unfolding Owned store Distinct lookup insert text_eq
stored-Owned = ((refl, tt), inr (entry, refl, refl, refl, refl))

x_found : get_tool catalog a x ≡ some (tool a x 1)
unfolding get_tool text_eq
x_found = refl

x_is_changed : differs schema_text (tool a x 1) (definition_of 0 catalog a (raw x 2)) ≡ true
unfolding differs definition_of
x_is_changed = refl

refresh_server-layer_get_example :
    let events = (refresh_server schema_text 0 catalog a (some raws)).1 in
    let (l', started) = on_events plain backing stored events in
    Memᴰ (tool_prefix plain backing a x) started
    × ((layer_get plain backing
          (end_invalidations plain backing l'
            (codes "b:" ∷ tool_prefix plain backing a x ∷ [])
            (λ e. true))
          a
          x
          args
          1_100).1
        ≡ none)
refresh_server-layer_get_example =
    refresh_server-layer_get plain backing schema_text 0 catalog a raws (raw x 2) (tool a x 1)
      stored args 1_100 (codes "b:" ∷ tool_prefix plain backing a x ∷ []) (λ e. true) x_found last_x
      x_is_changed stored-Owned (Memᴰ.tail (Memᴰ.head refl))
