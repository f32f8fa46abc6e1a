-- ===== src/Registry.antt =====
-- src/registry/registry.ts, snapshot.ts and validator.ts: the catalog of tools. JSON values and their
-- text, the backends' answers, the check of a schema by the package `ajv` and the file of a snapshot
-- are parameters. A refresh of a server does not wait inside, so it is one step; each operation also
-- gives the events that it emits.
pub mod Loops
pub mod Refresh
pub mod Keyed
pub mod Events
pub mod History
pub mod Metadata
pub mod Snapshot
use mcp_conductor.Base.{
  ℕ, Bool, true, false, not, ◌&&◌, Option, none, some, List, [], ◌∷◌, ◌++◌, map, Text, codes,
  text_eq, starts_with, Dict, lookup, insert, remove, keep, is_some, or_default, if◌then◌else◌,
}

-- The fields of a tool that the conductor adds.
pub record Extension (J : Type 0) : Type 0 where
  pub cost : Option J
  pub cacheable : Option J
  pub cache_ttl : Option J
  pub reliability : Option J
  pub routing : Option J
  pub redact : Option J
  pub examples : Option J

pub record ToolDefinition (J : Type 0) : Type 0 where
  pub server : Text
  pub name : Text
  pub description : Text
  pub input_schema : J
  pub output_schema : Option J
  pub extension : Extension J

-- A tool as `getServerTools` gives it.
pub record RawTool (J : Type 0) : Type 0 where
  pub name : Text
  pub description : Option Text
  pub input_schema : Option J
  pub output_schema : Option J

pub data RegistryEvent (J : Type 0) : Type 0 where
  tool_added : (server tool : Text) (after : ToolDefinition J) → RegistryEvent J
  tool_removed : (server tool : Text) (before : ToolDefinition J) → RegistryEvent J
  tool_updated : (server tool : Text) (before after : ToolDefinition J) → RegistryEvent J
  server_connected : (server : Text) → RegistryEvent J
  server_disconnected : (server : Text) → RegistryEvent J

-- `ToolRegistry.key`
abbrev pub key : (server name : Text) → Text
key server name = server ++ codes "/" ++ name

module _ {J : Type 0} where
  abbrev pub no_extension : Extension J
  no_extension = record {
    cost = none;
    cacheable = none;
    cache_ttl = none;
    reliability = none;
    routing = none;
    redact = none;
    examples = none;
  }

  -- `getTool`
  unfoldable pub get_tool :
      Dict (ToolDefinition J) → (server name : Text) → Option (ToolDefinition J)
  unfolding lookup
  get_tool catalog server name = lookup (key server name) catalog

  -- `getAllTools`
  abbrev pub get_all_tools : Dict (ToolDefinition J) → List (ToolDefinition J)
  get_all_tools catalog = map (λ p. p.1) catalog

  -- `getServerTools`
  unfoldable pub get_server_tools :
      Dict (ToolDefinition J) → (server : Text) → List (ToolDefinition J)
  unfolding keep text_eq
  get_server_tools catalog server = keep (λ t. text_eq t.server server) (get_all_tools catalog)

  -- The extension of the tool that is there already.
  abbrev pub extension_of : Option (ToolDefinition J) → Extension J
  extension_of none = no_extension
  extension_of (some existing) = existing.extension

  module _ (empty_schema : J) where
    -- The definition of a tool that a server reports.
    unfoldable pub definition_of :
        Dict (ToolDefinition J) → (server : Text) → RawTool J → ToolDefinition J
    unfolding lookup
    definition_of catalog server raw = record {
      server = server;
      name = raw.name;
      description = or_default raw.description [];
      input_schema = or_default raw.input_schema empty_schema;
      output_schema = raw.output_schema;
      extension = extension_of (lookup (key server raw.name) catalog);
    }

    -- The loop that fills `incoming`.
    unfoldable pub incoming_from :
        Dict (ToolDefinition J)
        → (server : Text) → Dict (ToolDefinition J)
        → List (RawTool J)
        → Dict (ToolDefinition J)
    unfolding definition_of insert
    incoming_from catalog server incoming [] = incoming
    incoming_from catalog server incoming (raw ∷ raws) =
        incoming_from catalog server
          (insert (key server raw.name) (definition_of catalog server raw) incoming) raws

  -- `currentKeys`
  unfoldable pub current_keys : Dict (ToolDefinition J) → (server : Text) → List Text
  unfolding keep starts_with
  current_keys catalog server =
      keep (λ k. starts_with k (server ++ codes "/")) (map (λ p. p.0) catalog)

  -- The removal of one tool.
  unfoldable pub remove_tool :
      Dict (ToolDefinition J)
      → (server k : Text) → Option (ToolDefinition J)
      → Dict (ToolDefinition J) × List (RegistryEvent J)
  unfolding remove
  remove_tool catalog server k none = (catalog, [])
  remove_tool catalog server k (some before) =
      (remove k catalog, tool_removed server before.name before ∷ [])

  -- The loop that removes tools.
  unfoldable pub remove_missing :
      (incoming : Dict (ToolDefinition J)) (server : Text)
      → List Text
      → Dict (ToolDefinition J)
      → Dict (ToolDefinition J) × List (RegistryEvent J)
  unfolding remove_tool lookup
  remove_missing incoming server [] catalog = (catalog, [])
  remove_missing incoming server (k ∷ ks) catalog = elim (is_some (lookup k incoming)) [
    | true ↦ remove_missing incoming server ks catalog
    | false ↦
        let (catalog', now) = remove_tool catalog server k (lookup k catalog) in
        let (catalog'', later) = remove_missing incoming server ks catalog' in
        (catalog'', now ++ later)
  ]

  module _ (schema_text : J → Text) where
    -- Whether a definition counts as updated.
    unfoldable pub differs : (existing def : ToolDefinition J) → Bool
    unfolding text_eq
    differs existing def = not (
        text_eq existing.description def.description
        && text_eq (schema_text existing.input_schema) (schema_text def.input_schema))

    -- The event of a tool that a server reports.
    unfoldable pub event_of :
        (server : Text) → Option (ToolDefinition J) → ToolDefinition J → List (RegistryEvent J)
    unfolding differs
    event_of server none def = tool_added server def.name def ∷ []
    event_of server (some existing) def =
        if differs existing def then tool_updated server def.name existing def ∷ [] else []

    -- The loop that adds and updates tools.
    unfoldable pub put_incoming :
        (server : Text)
        → Dict (ToolDefinition J)
        → Dict (ToolDefinition J)
        → Dict (ToolDefinition J) × List (RegistryEvent J)
    unfolding event_of lookup insert
    put_incoming server [] catalog = (catalog, [])
    put_incoming server ((k, def) ∷ incoming) catalog =
        let now = event_of server (lookup k catalog) def in
        let (catalog', later) = put_incoming server incoming (insert k def catalog) in
        (catalog', now ++ later)

    -- `refreshServer` on the tools that the backend gives; none if that throws.
    unfoldable pub refresh_server :
        (empty_schema : J)
        → Dict (ToolDefinition J)
        → (server : Text) → Option (List (RawTool J))
        → Dict (ToolDefinition J) × List (RegistryEvent J)
    unfolding incoming_from current_keys remove_missing put_incoming
    refresh_server empty_schema catalog server none = (catalog, [])
    refresh_server empty_schema catalog server (some raws) =
        let incoming = incoming_from empty_schema catalog server [] raws in
        let (catalog', removals) =
          remove_missing incoming server (current_keys catalog server) catalog in
        let (catalog'', puts) = put_incoming server incoming catalog' in
        (catalog'', removals ++ puts ++ server_connected server ∷ [])

    -- `refresh` over the connected servers, one after the other.
    unfoldable pub refresh :
        (empty_schema : J) (tools_of : Text → Option (List (RawTool J)))
        → (connected : List Text) → Dict (ToolDefinition J)
        → Dict (ToolDefinition J) × List (RegistryEvent J)
    unfolding refresh_server
    refresh empty_schema tools_of [] catalog = (catalog, [])
    refresh empty_schema tools_of (server ∷ servers) catalog =
        let (catalog', now) = refresh_server empty_schema catalog server (tools_of server) in
        let (catalog'', later) = refresh empty_schema tools_of servers catalog' in
        (catalog'', now ++ later)
