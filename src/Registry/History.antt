-- ===== src/Registry/History.antt =====
-- The catalog of src/registry/registry.ts after any changes.
use mcp_conductor.Base.{
  ◌≡◌, refl, Option, none, some, List, [], ◌∷◌, Text, Dict, lookup, is_some, Option-cases,
  Bool-cases, inl, inr,
}
use mcp_conductor.Registry.{ToolDefinition, RawTool, key, get_tool, refresh_server}
use mcp_conductor.Registry.Keyed.{IsKeyed, found-key, insert-IsKeyed, refresh_server-IsKeyed}
use mcp_conductor.Registry.Metadata.{Metadata, annotate, annotate_tool}
use mcp_conductor.Registry.Snapshot.{load_tools, load_catalog}

-- What changes a catalog: a refresh of a server, an annotation, a snapshot.
pub data Change (J : Type 0) : Type 0 where
  refreshed : (server : Text) → Option (List (RawTool J)) → Change J
  annotated_tool : (server name : Text) → Metadata J → Change J
  loaded : Option (List (ToolDefinition J)) → Change J

module _ {J : Type 0} (schema_text : J → Text) (empty_schema : J) where
  unfoldable pub change : Dict (ToolDefinition J) → Change J → Dict (ToolDefinition J)
  unfolding refresh_server annotate load_catalog
  change catalog (refreshed server raws) =
      (refresh_server schema_text empty_schema catalog server raws).0
  change catalog (annotated_tool server name metadata) = annotate catalog server name metadata
  change catalog (loaded defs) = load_catalog defs catalog

  unfoldable pub changes : Dict (ToolDefinition J) → List (Change J) → Dict (ToolDefinition J)
  unfolding change
  changes catalog [] = catalog
  changes catalog (c ∷ cs) = changes (change catalog c) cs

  annotate-IsKeyed :
      (catalog : Dict (ToolDefinition J)) (server name : Text) (metadata : Metadata J)
      → IsKeyed catalog
      → IsKeyed (annotate catalog server name metadata)
  unfolding annotate annotate_tool
  annotate-IsKeyed catalog server name metadata h =
      elim (Option-cases (lookup (key server name) catalog)) [
        | inl e ↦ rw e h
        | inr (t, e) ↦ rw e (
            insert-IsKeyed (key server name) _ catalog (found-key catalog (key server name) t h e)
              h)
      ]

  load_tools-IsKeyed :
      (defs : List (ToolDefinition J)) (catalog : Dict (ToolDefinition J))
      → IsKeyed catalog
      → IsKeyed (load_tools defs catalog)
  unfolding load_tools
  load_tools-IsKeyed [] catalog h = h
  load_tools-IsKeyed (def ∷ defs) catalog h =
      elim (Bool-cases (is_some (lookup (key def.server def.name) catalog))) [
        | inl e ↦ rw (load_tools, e) (load_tools-IsKeyed defs catalog h)
        | inr e ↦
            rw (load_tools, e) (load_tools-IsKeyed defs _ (insert-IsKeyed _ def catalog refl h))
      ]

  change-IsKeyed :
      (catalog : Dict (ToolDefinition J)) (c : Change J)
      → IsKeyed catalog
      → IsKeyed (change catalog c)
  unfolding change load_catalog
  change-IsKeyed catalog (refreshed server raws) h =
      refresh_server-IsKeyed schema_text empty_schema catalog server raws h
  change-IsKeyed catalog (annotated_tool server name metadata) h =
      annotate-IsKeyed catalog server name metadata h
  change-IsKeyed catalog (loaded none) h = h
  change-IsKeyed catalog (loaded (some defs)) h = load_tools-IsKeyed defs catalog h

  changes-IsKeyed :
      (cs : List (Change J)) (catalog : Dict (ToolDefinition J))
      → IsKeyed catalog
      → IsKeyed (changes catalog cs)
  unfolding changes
  changes-IsKeyed [] catalog h = h
  changes-IsKeyed (c ∷ cs) catalog h =
      changes-IsKeyed cs (change catalog c) (change-IsKeyed catalog c h)

  -- Whatever was refreshed, annotated and loaded, in whatever order, starting from nothing: a tool that
  -- `getTool` finds carries a server and a name of the same key as those asked for.
  pub changes-get_tool :
      (cs : List (Change J)) (server name : Text) (t : ToolDefinition J)
      → get_tool (changes [] cs) server name ≡ some t
      → key server name ≡ key t.server t.name
  unfolding get_tool
  changes-get_tool cs server name t e =
      found-key (changes [] cs) (key server name) t (changes-IsKeyed cs [] (unfold IsKeyed in tt)) e
