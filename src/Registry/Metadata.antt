-- ===== src/Registry/Metadata.antt =====
-- `annotate` of src/registry/registry.ts. A field that is present in the metadata may be undefined.
use mcp_conductor.Base.{
  ◌≡◌, refl, ap, ◌∙◌, Option, none, some, List, Text, text_eq_refl, Dict, lookup, insert,
  lookup-insert, or_default, Option-cases, inl, inr,
}
use mcp_conductor.Registry.{
  ToolDefinition, RawTool, Extension, no_extension, extension_of, key, get_tool, definition_of,
  refresh_server,
}
use mcp_conductor.Registry.Loops.{last_named, defined}
use mcp_conductor.Registry.Refresh.{refresh_server-get_tool}

pub record Metadata (J : Type 0) : Type 0 where
  pub cost : Option (Option J)
  pub cacheable : Option (Option J)
  pub cache_ttl : Option (Option J)
  pub reliability : Option (Option J)
  pub routing : Option (Option J)
  pub redact : Option (Option J)
  pub examples : Option (Option J)

module _ {J : Type 0} where
  -- The loop over the allowed fields.
  abbrev pub assign : Metadata J → Extension J → Extension J
  assign metadata x = record {
    cost = or_default metadata.cost x.cost;
    cacheable = or_default metadata.cacheable x.cacheable;
    cache_ttl = or_default metadata.cache_ttl x.cache_ttl;
    reliability = or_default metadata.reliability x.reliability;
    routing = or_default metadata.routing x.routing;
    redact = or_default metadata.redact x.redact;
    examples = or_default metadata.examples x.examples;
  }

  -- `annotate` on what the catalog holds.
  unfoldable pub annotate_tool :
      Dict (ToolDefinition J)
      → (k : Text) → Metadata J
      → Option (ToolDefinition J)
      → Dict (ToolDefinition J)
  unfolding insert
  annotate_tool catalog k metadata none = catalog
  annotate_tool catalog k metadata (some existing) =
      insert k (record existing { extension = assign metadata existing.extension }) catalog

  -- `annotate`
  unfoldable pub annotate :
      Dict (ToolDefinition J) → (server name : Text) → Metadata J → Dict (ToolDefinition J)
  unfolding annotate_tool lookup
  annotate catalog server name metadata =
      annotate_tool catalog (key server name) metadata (lookup (key server name) catalog)

  -- The extension of an annotated tool; one that is not in the catalog has none.
  abbrev pub annotated : Metadata J → Option (ToolDefinition J) → Extension J
  annotated metadata none = no_extension
  annotated metadata (some existing) = assign metadata existing.extension

  annotate-extension_of :
      (catalog : Dict (ToolDefinition J)) (server name : Text) (metadata : Metadata J)
      → extension_of (lookup (key server name) (annotate catalog server name metadata))
        ≡ annotated metadata (get_tool catalog server name)
  unfolding annotate get_tool
  annotate-extension_of catalog server name metadata =
      elim (Option-cases (lookup (key server name) catalog)) [
        | inl e ↦ rw (e, e) refl
        | inr (t, e) ↦
            let u = record t { extension = assign metadata t.extension } in
            rw
              (
                e,
                lookup-insert (key server name) (key server name) u catalog,
                text_eq_refl (key server name),
              )
              refl
      ]

  -- What a refresh that still reports a tool makes of its annotation: the new definition has the
  -- assigned fields if the tool was in the catalog when it was annotated, and none at all otherwise.
  pub annotate-refresh_server :
      (schema_text : J → Text) (empty_schema : J) (catalog : Dict (ToolDefinition J))
      (server : Text) (raw : RawTool J) (metadata : Metadata J) (raws : List (RawTool J))
      → last_named raw.name raws ≡ some raw
      → get_tool
          (refresh_server schema_text empty_schema
            (annotate catalog server raw.name metadata)
            server
            (some raws)).0
          server
          raw.name
        ≡ some (record (definition_of empty_schema catalog server raw) {
          extension = annotated metadata (get_tool catalog server raw.name);
        })
  unfolding definition_of
  annotate-refresh_server schema_text empty_schema catalog server raw metadata raws h =
      let after = annotate catalog server raw.name metadata in
      refresh_server-get_tool empty_schema schema_text after server raw.name raws
      ∙ ap (defined empty_schema after server) h
      ∙ ap (λ x. some (record (definition_of empty_schema catalog server raw) { extension = x }))
          (annotate-extension_of catalog server raw.name metadata)
