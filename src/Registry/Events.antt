-- ===== src/Registry/Events.antt =====
-- The events of a refresh in src/registry/registry.ts.
use mcp_conductor.Base.{
  ◌≡◌, refl, ap, ◌∙◌, true, Option, some, List, [], ◌∷◌, Text, text_eq, text_eq_iff, Dict, lookup,
  insert, lookup-insert, arith, Bool-cases, inl, inr,
}
use mathlib.Core.Option.{some-injective}
use mathlib.Core.List.{Memᴰ}
use mathlib.Core.List.Memᴰ
use mcp_conductor.Registry.{
  ToolDefinition, RawTool, tool_updated, server_connected, key, get_tool, definition_of,
  incoming_from, current_keys, remove_missing, differs, event_of, put_incoming, refresh_server,
}
use mcp_conductor.Registry.Keyed.{head_found, tail_found}
use mcp_conductor.Registry.Loops.{last_named, remove_missing-lookup, incoming_from-lookup}

module _ {J : Type 0} (schema_text : J → Text) where
  event_of-updated :
      (server : Text) (o : Option (ToolDefinition J)) (t def : ToolDefinition J)
      → o ≡ some t
      → differs schema_text t def ≡ true
      → event_of schema_text server o def ≡ tool_updated server def.name t def ∷ []
  unfolding event_of
  event_of-updated server o t def e h = rw (e, h) refl

  put_incoming-updated :
      (server k : Text) (t def : ToolDefinition J) (incoming catalog : Dict (ToolDefinition J))
      → lookup k incoming ≡ some def
      → lookup k catalog ≡ some t
      → differs schema_text t def ≡ true
      → Memᴰ
          (tool_updated server def.name t def)
          (put_incoming schema_text server incoming catalog).1
  unfolding lookup put_incoming
  put_incoming-updated server k t def [] catalog i c h = absurd (ground arith)
  put_incoming-updated server k t def ((j, d) ∷ incoming) catalog i c h =
      elim (Bool-cases (text_eq j k)) [
        | inl p ↦
            let same : d ≡ def = some-injective d def (head_found k j d def incoming p i) in
            let found : lookup j catalog ≡ some t =
              ap (λ x. lookup x catalog) ((text_eq_iff j k).0 p) ∙ c in
            let single =
              ap (event_of schema_text server (lookup j catalog)) same
              ∙ event_of-updated server (lookup j catalog) t def found h in
            Memᴰ.append_left {s = event_of schema_text server (lookup j catalog) d} _
              (rw single (Memᴰ.head refl))
        | inr p ↦ Memᴰ.append_right (event_of schema_text server (lookup j catalog) d) (
            put_incoming-updated server k t def incoming (insert j d catalog)
              (tail_found k j d def incoming p i) (lookup-insert j k d catalog ∙ rw p c) h)
      ]

  -- If a refresh changes the description or the schema of a tool, as text, it emits an event that the
  -- tool was updated.
  pub refresh_server-updated :
      (empty_schema : J) (catalog : Dict (ToolDefinition J)) (server : Text)
      (raws : List (RawTool J)) (raw : RawTool J) (t : ToolDefinition J)
      → get_tool catalog server raw.name ≡ some t
      → last_named raw.name raws ≡ some raw
      → let def = definition_of empty_schema catalog server raw in
        differs schema_text t def ≡ true
        → Memᴰ
            (tool_updated server raw.name t def)
            (refresh_server schema_text empty_schema catalog server (some raws)).1
  unfolding refresh_server get_tool definition_of
  refresh_server-updated empty_schema catalog server raws raw t found last h =
      let incoming = incoming_from empty_schema catalog server [] raws in
      let k = key server raw.name in
      let reported : lookup k incoming ≡ some (definition_of empty_schema catalog server raw) =
        incoming_from-lookup empty_schema catalog server raw.name raws [] ∙ rw last refl in
      let kept : lookup k (remove_missing incoming server (current_keys catalog server) catalog).0
          ≡ some t =
        remove_missing-lookup incoming server (current_keys catalog server) catalog k
        ∙ rw (reported, found) (ground arith) in
      Memᴰ.append_left (server_connected server ∷ []) (
        Memᴰ.append_right (remove_missing incoming server (current_keys catalog server) catalog).1
          (put_incoming-updated server k t _ incoming _ reported kept h))
