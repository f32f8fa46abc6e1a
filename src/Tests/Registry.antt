-- ===== src/Tests/Registry.antt =====
-- Runs of src/registry/registry.ts, with numbers for JSON values.
use mcp_conductor.Base.{
  ℕ, ◌≡◌, refl, Option, none, some, List, [], ◌∷◌, Text, codes, text_eq, starts_with, Dict, arith,
  any,
}
use mcp_conductor.Registry.{
  ToolDefinition, RawTool, no_extension, key, get_tool, definition_of, refresh_server,
}
use mcp_conductor.Registry.Loops.{or_else, last_named, defined}
use mcp_conductor.Registry.Refresh.{
  IsPlain, refresh_server-get_tool, refresh_server-others, refresh_server-overreaches,
}
use mcp_conductor.Registry.Metadata.{Metadata, annotated, annotate, annotate-refresh_server}
use mcp_conductor.Registry.Keyed.{IsKeyed}
use mcp_conductor.Registry.Snapshot.{
  SnapshotFile, target, save_snapshot, load_snapshot_at, snapshot_of, JsonLaw,
  save_snapshot-load_snapshot_at,
}
use mcp_conductor.Registry.History.{Change, refreshed, annotated_tool, changes, changes-get_tool}

abbrev pub schema_text : ℕ → Text
schema_text n = n ∷ []

abbrev pub raw : (name : Text) (schema : ℕ) → RawTool ℕ
raw name schema = record {
  name = name;
  description = some (codes "a tool");
  input_schema = some schema;
  output_schema = none;
}

abbrev pub tool : (server name : Text) (schema : ℕ) → ToolDefinition ℕ
tool server name schema = record {
  server = server;
  name = name;
  description = codes "a tool";
  input_schema = schema;
  output_schema = none;
  extension = no_extension;
}

abbrev pub a : Text
a = codes "a"

abbrev b : Text
b = codes "b"

abbrev pub x : Text
x = codes "x"

-- One tool each of the servers `a`, `b` and `a/b`.
abbrev pub catalog : Dict (ToolDefinition ℕ)
catalog =
    (codes "a/x", tool a x 1)
    ∷ (codes "b/x", tool b x 1)
    ∷ (codes "a/b/x", tool (codes "a/b") x 1)
    ∷ []

abbrev pub raws : List (RawTool ℕ)
raws = raw (codes "y") 1 ∷ raw x 2 ∷ []

refresh_server-get_tool_example :
    get_tool (refresh_server schema_text 0 catalog a (some raws)).0 a x
    ≡ defined 0 catalog a (last_named x raws)
refresh_server-get_tool_example = refresh_server-get_tool 0 schema_text catalog a x raws

a-IsPlain : IsPlain a
unfolding any
a-IsPlain = refl

b-IsPlain : IsPlain b
unfolding any
b-IsPlain = refl

refresh_server-others_example :
    get_tool (refresh_server schema_text 0 catalog a (some raws)).0 b x ≡ get_tool catalog b x
refresh_server-others_example =
    refresh_server-others 0 schema_text catalog a b x raws a-IsPlain b-IsPlain
      (λ p. absurd (ground arith))

refresh_server-overreaches_example :
    get_tool (refresh_server schema_text 0 catalog a (some raws)).0 (key a b) x
    ≡ defined 0 catalog a (last_named (key b x) raws)
refresh_server-overreaches_example = refresh_server-overreaches 0 schema_text catalog a b x raws

-- Nobody but `a` was refreshed, and the tool of `a/b` is gone.
tool_lost : get_tool (refresh_server schema_text 0 catalog a (some raws)).0 (codes "a/b") x ≡ none
unfolding last_named text_eq
tool_lost = refresh_server-overreaches_example

abbrev hidden : Metadata ℕ
hidden = record {
  cost = none;
  cacheable = some (some 0);
  cache_ttl = none;
  reliability = none;
  routing = some none;
  redact = none;
  examples = none;
}

pub last_x : last_named x raws ≡ some (raw x 2)
unfolding last_named text_eq
last_x = refl

annotate-refresh_server_example :
    get_tool (refresh_server schema_text 0 (annotate catalog a x hidden) a (some raws)).0 a x
    ≡ some (record (definition_of 0 catalog a (raw x 2)) {
      extension = annotated hidden (get_tool catalog a x);
    })
annotate-refresh_server_example =
    annotate-refresh_server schema_text 0 catalog a (raw x 2) hidden raws last_x

catalog-IsKeyed : IsKeyed catalog
unfolding IsKeyed
catalog-IsKeyed = (refl, (refl, (refl, tt)))

-- Text that JSON would give is the value itself.
abbrev read : Text → Option (SnapshotFile ℕ)
read path = some (snapshot_of 5 catalog)

same-JsonLaw : JsonLaw {J = ℕ} (λ s. s) some
unfolding JsonLaw
same-JsonLaw s = refl

saved :
    save_snapshot (λ s. s) some none (codes "snap") 5 catalog
    ≡ some (codes "snap", snapshot_of 5 catalog)
unfolding save_snapshot
saved = refl

save_snapshot-load_snapshot_at_example :
    get_tool (load_snapshot_at (λ s. s) some read (target none (codes "snap")) []) a x
    ≡ or_else (get_tool [] a x) (get_tool catalog a x)
save_snapshot-load_snapshot_at_example =
    save_snapshot-load_snapshot_at (λ s. s) some none (codes "snap") 5 catalog [] (codes "snap")
      (snapshot_of 5 catalog) read a x same-JsonLaw catalog-IsKeyed saved refl

abbrev history : List (Change ℕ)
history = refreshed a (some raws) ∷ annotated_tool a x hidden ∷ refreshed b (some raws) ∷ []

abbrev changed : ToolDefinition ℕ
changed = record (tool a x 2) { extension = record no_extension { cacheable = some 0 } }

changed_found : get_tool (changes schema_text 0 [] history) a x ≡ some changed
unfolding changes get_tool text_eq starts_with
changed_found = refl

changes-get_tool_example : key a x ≡ key changed.server changed.name
changes-get_tool_example = changes-get_tool schema_text 0 history a x changed changed_found
