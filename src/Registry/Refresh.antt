-- ===== src/Registry/Refresh.antt =====
-- What a refresh of a server does to the catalog of src/registry/registry.ts.
use mcp_conductor.Base.{
  ◌≡◌, ◌≢◌, ◌==◌, ==_iff, refl, ap, ◌∙◌, false, not, ◌&&◌, none, some, List, [], ◌∷◌, ◌++◌, map,
  Text, codes, starts_with, Dict, lookup, Distinct, keys-lookup, any-keep, any, is_some, arith,
  if◌then◌else◌, Bool-cases, inl, inr,
}
use mathlib.Core.List.{append_assoc}
use mcp_conductor.Registry.{
  ToolDefinition, RawTool, key, get_tool, incoming_from, current_keys, refresh_server,
}
use mcp_conductor.Registry.Loops.{
  or_else, last_named, defined, starts_with-key, swept, or_else-none, remove_missing-lookup,
  put_incoming-lookup, incoming_from-lookup, incoming_from-foreign, incoming_from-Distinct,
}

-- A name without a slash.
abbrev pub IsPlain : Text → Type 0
IsPlain s = any (λ c. c == 47) s ≡ false

plain-apart :
    (s t name : Text)
    → IsPlain s
    → IsPlain t
    → s ≢ t
    → starts_with (key t name) (s ++ codes "/") ≡ false
unfolding any starts_with
plain-apart [] [] name p q n = absurd (n refl)
plain-apart [] (c ∷ t) name p q n = ground arith
plain-apart (d ∷ s) [] name p q n = ground arith
plain-apart (d ∷ s) (c ∷ t) name p q n = elim (Bool-cases (c == d)) [
  | inl e ↦
      rw e (
        plain-apart s t name (ground arith) (ground arith) (λ r. n (rw ((==_iff c d).0 e, r) refl)))
  | inr e ↦ rw e refl
]

module _ {J : Type 0} (empty_schema : J) (schema_text : J → Text) where
  refresh_server-lookup :
      (catalog : Dict (ToolDefinition J)) (server k : Text) (raws : List (RawTool J))
      → let incoming = incoming_from empty_schema catalog server [] raws in
        lookup k (refresh_server schema_text empty_schema catalog server (some raws)).0
        ≡ or_else
            (lookup k incoming)
            (if starts_with k (server ++ codes "/") then none else lookup k catalog)
  unfolding refresh_server current_keys
  refresh_server-lookup catalog server k raws =
      let incoming = incoming_from empty_schema catalog server [] raws in
      let ks = current_keys catalog server in
      put_incoming-lookup schema_text server incoming _ k
        (incoming_from-Distinct empty_schema catalog server raws [] (unfold Distinct in tt))
      ∙ ap (or_else (lookup k incoming)) (remove_missing-lookup incoming server ks catalog k)
      ∙ ap
          (λ b.
            or_else (lookup k incoming)
              (if b && not (is_some (lookup k incoming)) then none else lookup k catalog))
          (any-keep (λ k. starts_with k (server ++ codes "/")) k (map (λ p. p.0) catalog)
            ∙ ap (λ b. starts_with k (server ++ codes "/") && b) (keys-lookup k catalog))
      ∙ swept (lookup k incoming) (lookup k catalog) (starts_with k (server ++ codes "/"))

  -- After a refresh the catalog holds for the server exactly the tools that its backend reported,
  -- the last one of each name, with the extension fields that a tool of that name had before.
  pub refresh_server-get_tool :
      (catalog : Dict (ToolDefinition J)) (server name : Text) (raws : List (RawTool J))
      → get_tool (refresh_server schema_text empty_schema catalog server (some raws)).0 server name
        ≡ defined empty_schema catalog server (last_named name raws)
  unfolding get_tool
  refresh_server-get_tool catalog server name raws =
      refresh_server-lookup catalog server (key server name) raws
      ∙ ap
          (λ b.
            or_else (lookup (key server name) (incoming_from empty_schema catalog server [] raws))
              (if b then none else lookup (key server name) catalog))
          (starts_with-key server name)
      ∙ or_else-none _
      ∙ incoming_from-lookup empty_schema catalog server name raws []
      ∙ or_else-none _

  -- A refresh leaves every tool whose key does not begin with the server's name and a slash.
  pub refresh_server-elsewhere :
      (catalog : Dict (ToolDefinition J)) (server k : Text) (raws : List (RawTool J))
      → starts_with k (server ++ codes "/") ≡ false
      → lookup k (refresh_server schema_text empty_schema catalog server (some raws)).0
        ≡ lookup k catalog
  unfolding lookup
  refresh_server-elsewhere catalog server k raws h =
      refresh_server-lookup catalog server k raws
      ∙ rw (incoming_from-foreign empty_schema catalog server k raws [] h, h) refl

  -- A refresh of one server leaves the tools of every other, where the names have no slash.
  pub refresh_server-others :
      (catalog : Dict (ToolDefinition J)) (server other name : Text) (raws : List (RawTool J))
      → IsPlain server
      → IsPlain other
      → server ≢ other
      → get_tool (refresh_server schema_text empty_schema catalog server (some raws)).0 other name
        ≡ get_tool catalog other name
  unfolding get_tool
  refresh_server-others catalog server other name raws p q n =
      refresh_server-elsewhere catalog server (key other name) raws
        (plain-apart server other name p q n)

  -- A server whose name is that of the refreshed one, a slash and more: its tools are replaced by those
  -- that the refreshed server reports under names with a slash, so mostly removed.
  pub refresh_server-overreaches :
      (catalog : Dict (ToolDefinition J)) (server rest name : Text) (raws : List (RawTool J))
      → get_tool
          (refresh_server schema_text empty_schema catalog server (some raws)).0
          (key server rest)
          name
        ≡ defined empty_schema catalog server (last_named (key rest name) raws)
  unfolding get_tool
  refresh_server-overreaches catalog server rest name raws =
      ap (λ k. lookup k (refresh_server schema_text empty_schema catalog server (some raws)).0)
        (ap (λ t. t ++ name) (append_assoc (server ++ codes "/") rest (codes "/"))
          ∙ append_assoc (server ++ codes "/") (rest ++ codes "/") name)
      ∙ refresh_server-get_tool catalog server (key rest name) raws
