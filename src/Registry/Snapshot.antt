-- ===== src/Registry/Snapshot.antt =====
-- The snapshot of a catalog: src/registry/snapshot.ts, `saveSnapshot` and `loadSnapshot` of
-- src/registry/registry.ts. The text that JSON gives and what it parses to are parameters; a file that
-- cannot be read, or does not hold an object with a version and an array, parses to nothing.
use mcp_conductor.Base.{
  ℕ, ◌≡◌, refl, sym, ap, ◌∙◌, Bool, true, false, Option, none, some, List, [], ◌∷◌, Text, codes,
  text_eq, text_eq_iff, Dict, lookup, insert, lookup-insert, or_default, is_some, arith,
  if◌then◌else◌, Option-cases, inl, inr,
}
use mathlib.Core.Option.{some-injective}
use mcp_conductor.Registry.{ToolDefinition, key, get_tool, get_all_tools}
use mcp_conductor.Registry.Keyed.{IsKeyed}
use mcp_conductor.Registry.Loops.{or_else, or_else-none}

-- `SNAPSHOT_VERSION`
abbrev pub snapshot_version : Text
snapshot_version = codes "1"

pub record SnapshotFile (J : Type 0) : Type 0 where
  pub version : Text
  pub saved_at : ℕ
  pub catalog : List (ToolDefinition J)

-- The path that is used; the empty one counts as none.
unfoldable pub target : (path : Option Text) (snapshot_path : Text) → Option Text
target path snapshot_path = elim (or_default path snapshot_path) [
  | [] ↦ none
  | c ∷ s ↦ some (c ∷ s)
]

module _ {J : Type 0} where
  abbrev pub snapshot_of : (now : ℕ) → Dict (ToolDefinition J) → SnapshotFile J
  snapshot_of now catalog = record {
    version = snapshot_version;
    saved_at = now;
    catalog = get_all_tools catalog;
  }

  taken :
      (same : Bool) (d : ToolDefinition J) (c r : Option (ToolDefinition J))
      → (same ≡ true → c ≡ none)
      → or_else (if same then some d else c) r ≡ or_else c (if same then some d else r)
  taken true d none r h = refl
  taken true d (some t) r h = absurd (ground (arith, h refl))
  taken false d c r h = refl

  passed_over :
      (same : Bool) (d : ToolDefinition J) (c r : Option (ToolDefinition J))
      → (same ≡ true → is_some c ≡ true)
      → or_else c r ≡ or_else c (if same then some d else r)
  passed_over true d none r h = absurd (ground (arith, h refl))
  passed_over same d (some t) r h = refl
  passed_over false d none r h = refl

  -- `loadSnapshot` of snapshot.ts on what the file parses to.
  unfoldable pub accept : Option (SnapshotFile J) → Option (List (ToolDefinition J))
  unfolding text_eq
  accept none = none
  accept (some s) = if text_eq s.version snapshot_version then some s.catalog else none

  -- The loop of `loadSnapshot`.
  unfoldable pub load_tools :
      List (ToolDefinition J) → Dict (ToolDefinition J) → Dict (ToolDefinition J)
  unfolding lookup insert
  load_tools [] catalog = catalog
  load_tools (def ∷ defs) catalog =
      let k = key def.server def.name in
      load_tools defs (if is_some (lookup k catalog) then catalog else insert k def catalog)

  -- `loadSnapshot` on what was restored.
  unfoldable pub load_catalog :
      Option (List (ToolDefinition J)) → Dict (ToolDefinition J) → Dict (ToolDefinition J)
  unfolding load_tools
  load_catalog none catalog = catalog
  load_catalog (some defs) catalog = load_tools defs catalog

  put_absent-lookup :
      (k j : Text) (def : ToolDefinition J) (catalog rest : Dict (ToolDefinition J))
      → or_else
          (lookup j (if is_some (lookup k catalog) then catalog else insert k def catalog))
          (lookup j rest)
        ≡ or_else (lookup j catalog) (lookup j ((k, def) ∷ rest))
  unfolding lookup
  put_absent-lookup k j def catalog rest = elim (Option-cases (lookup k catalog)) [
    | inl e ↦
        rw (e, lookup-insert k j def catalog)
          (taken (text_eq k j) def (lookup j catalog) (lookup j rest)
            (λ p. ap (λ t. lookup t catalog) (sym ((text_eq_iff k j).0 p)) ∙ e))
    | inr (t, e) ↦ rw e (
        passed_over (text_eq k j) def (lookup j catalog) (lookup j rest)
          (λ p. ap is_some (ap (λ t. lookup t catalog) (sym ((text_eq_iff k j).0 p)) ∙ e)))
  ]

  load_tools-lookup :
      (saved catalog : Dict (ToolDefinition J)) (j : Text)
      → IsKeyed saved
      → lookup j (load_tools (get_all_tools saved) catalog)
        ≡ or_else (lookup j catalog) (lookup j saved)
  unfolding load_tools lookup IsKeyed
  load_tools-lookup [] catalog j h = sym (or_else-none (lookup j catalog))
  load_tools-lookup ((k, t) ∷ saved) catalog j h =
      ap
        (λ i. lookup j (
          load_tools (get_all_tools saved)
            (if is_some (lookup i catalog) then catalog else insert i t catalog)))
        (sym h.0)
      ∙ load_tools-lookup saved _ j h.1
      ∙ put_absent-lookup k j t catalog saved

module _ {J Raw : Type 0} (stringify : SnapshotFile J → Raw)
    (parse : Raw → Option (SnapshotFile J)) where
  -- What `saveSnapshot` of snapshot.ts writes to a path.
  unfoldable pub written_to :
      (now : ℕ) → Dict (ToolDefinition J) → (target : Option Text) → Option (Text × Raw)
  written_to now catalog none = none
  written_to now catalog (some t) = some (t, stringify (snapshot_of now catalog))

  -- `saveSnapshot`: the path and the contents of the file that is written; none stands for the error.
  unfoldable pub save_snapshot :
      (path : Option Text) (snapshot_path : Text) (now : ℕ)
      → Dict (ToolDefinition J)
      → Option (Text × Raw)
  unfolding target written_to
  save_snapshot path snapshot_path now catalog = written_to now catalog (target path snapshot_path)

  -- `loadSnapshot` of snapshot.ts on the contents of the file; none if it cannot be read.
  unfoldable pub restore : Option Raw → Option (List (ToolDefinition J))
  unfolding accept
  restore none = none
  restore (some raw) = accept (parse raw)

  -- `loadSnapshot`, with `read` for the file at a path.
  unfoldable pub load_snapshot_at :
      (read : Text → Option Raw) (target : Option Text)
      → Dict (ToolDefinition J)
      → Dict (ToolDefinition J)
  unfolding load_catalog restore
  load_snapshot_at read none catalog = catalog
  load_snapshot_at read (some t) catalog = load_catalog (restore (read t)) catalog

  -- `JSON.parse` reads back what `JSON.stringify` wrote.
  unfoldable pub JsonLaw : Type 0
  JsonLaw = (s : SnapshotFile J) → parse (stringify s) ≡ some s

  -- A snapshot that was saved and is loaded adds to the catalog each saved tool that is not there yet,
  -- and changes no other; into an empty catalog it brings back all that was saved.
  pub save_snapshot-load_snapshot_at :
      (path : Option Text) (snapshot_path : Text) (now : ℕ)
      (saved catalog : Dict (ToolDefinition J)) (t : Text) (raw : Raw) (read : Text → Option Raw)
      (server name : Text)
      → JsonLaw
      → IsKeyed saved
      → save_snapshot path snapshot_path now saved ≡ some (t, raw)
      → read t ≡ some raw
      → get_tool (load_snapshot_at read (target path snapshot_path) catalog) server name
        ≡ or_else (get_tool catalog server name) (get_tool saved server name)
  unfolding save_snapshot load_snapshot_at get_tool text_eq JsonLaw
  save_snapshot-load_snapshot_at path snapshot_path now saved catalog t raw read server name law
        keyed written stored =
      elim (Option-cases (target path snapshot_path)) [
        | inl e ↦ absurd (ground (arith, sym (ap (written_to now saved) e) ∙ written))
        | inr (u, e) ↦
            let file = snapshot_of now saved in
            let pair : (u, stringify file) ≡ (t, raw) =
              some-injective _ _ (sym (ap (written_to now saved) e) ∙ written) in
            let loaded : restore (read u) ≡ some (get_all_tools saved) =
              ap (λ x. restore (read x)) (ap (λ x. x.0) pair)
              ∙ ap restore stored
              ∙ ap (λ x. restore (some x)) (sym (ap (λ x. x.1) pair))
              ∙ ap accept (law file) in
            rw e (
              ap (λ o. lookup (key server name) (load_catalog o catalog)) loaded
              ∙ load_tools-lookup saved catalog (key server name) keyed)
      ]
