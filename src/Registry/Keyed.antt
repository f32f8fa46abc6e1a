-- ===== src/Registry/Keyed.antt =====
-- The keys of the catalog of src/registry/registry.ts.
use mcp_conductor.Base.{
  ◌≡◌, refl, sym, ap, ◌∙◌, true, false, Option, none, some, List, [], ◌∷◌, Text, text_eq,
  text_eq_iff, Dict, lookup, insert, remove, is_some, arith, Bool-cases, inl, inr,
}
use mathlib.Core.Option.{some-injective}
use mcp_conductor.Registry.{
  ToolDefinition, RawTool, key, definition_of, incoming_from, remove_tool, remove_missing,
  put_incoming, current_keys, refresh_server,
}

-- Each tool stands at its own key.
unfoldable pub IsKeyed : {J : Type 0} → Dict (ToolDefinition J) → Type 0
IsKeyed [] = Unit
IsKeyed ((k, t) ∷ catalog) = (k ≡ key t.server t.name) × IsKeyed catalog

module _ {J : Type 0} where
  pub head_found :
      (k j : Text) (u t : ToolDefinition J) (m : Dict (ToolDefinition J))
      → text_eq j k ≡ true
      → lookup k ((j, u) ∷ m) ≡ some t
      → some u ≡ some t
  unfolding lookup
  head_found k j u t m p e = ground arith

  pub tail_found :
      (k j : Text) (u t : ToolDefinition J) (m : Dict (ToolDefinition J))
      → text_eq j k ≡ false
      → lookup k ((j, u) ∷ m) ≡ some t
      → lookup k m ≡ some t
  unfolding lookup
  tail_found k j u t m p e = ground arith

  pub insert-IsKeyed :
      (k : Text) (t : ToolDefinition J) (m : Dict (ToolDefinition J))
      → k ≡ key t.server t.name
      → IsKeyed m
      → IsKeyed (insert k t m)
  unfolding insert IsKeyed
  insert-IsKeyed k t [] e h = (e, tt)
  insert-IsKeyed k t ((j, u) ∷ m) e h = elim (Bool-cases (text_eq j k)) [
    | inl p ↦ rw p ((text_eq_iff j k).0 p ∙ e, h.1)
    | inr p ↦ rw p (h.0, insert-IsKeyed k t m e h.1)
  ]

  pub found-key :
      (m : Dict (ToolDefinition J)) (k : Text) (t : ToolDefinition J)
      → IsKeyed m
      → lookup k m ≡ some t
      → k ≡ key t.server t.name
  unfolding lookup IsKeyed
  found-key [] k t h e = absurd (ground arith)
  found-key ((j, u) ∷ m) k t h e = elim (Bool-cases (text_eq j k)) [
    | inl p ↦
        sym ((text_eq_iff j k).0 p)
        ∙ h.0
        ∙ ap (λ x. key x.server x.name) (some-injective u t (head_found k j u t m p e))
    | inr p ↦ found-key m k t h.1 (tail_found k j u t m p e)
  ]

  remove-IsKeyed : (k : Text) (m : Dict (ToolDefinition J)) → IsKeyed m → IsKeyed (remove k m)
  unfolding remove IsKeyed
  remove-IsKeyed k [] h = tt
  remove-IsKeyed k ((j, u) ∷ m) h = elim (Bool-cases (text_eq j k)) [
    | inl p ↦ rw p (remove-IsKeyed k m h.1)
    | inr p ↦ rw p (h.0, remove-IsKeyed k m h.1)
  ]

  remove_tool-IsKeyed :
      (catalog : Dict (ToolDefinition J)) (server k : Text) (o : Option (ToolDefinition J))
      → IsKeyed catalog
      → IsKeyed (remove_tool catalog server k o).0
  unfolding remove_tool
  remove_tool-IsKeyed catalog server k none h = h
  remove_tool-IsKeyed catalog server k (some t) h = remove-IsKeyed k catalog h

  remove_missing-IsKeyed :
      (incoming : Dict (ToolDefinition J)) (server : Text) (ks : List Text)
      (catalog : Dict (ToolDefinition J))
      → IsKeyed catalog
      → IsKeyed (remove_missing incoming server ks catalog).0
  unfolding remove_missing
  remove_missing-IsKeyed incoming server [] catalog h = h
  remove_missing-IsKeyed incoming server (k ∷ ks) catalog h =
      elim (Bool-cases (is_some (lookup k incoming))) [
        | inl e ↦ rw (remove_missing, e) (remove_missing-IsKeyed incoming server ks catalog h)
        | inr e ↦
            rw (remove_missing, e)
              (remove_missing-IsKeyed incoming server ks _
                (remove_tool-IsKeyed catalog server k (lookup k catalog) h))
      ]

  incoming_from-IsKeyed :
      (empty_schema : J) (catalog : Dict (ToolDefinition J)) (server : Text)
      (raws : List (RawTool J)) (incoming : Dict (ToolDefinition J))
      → IsKeyed incoming
      → IsKeyed (incoming_from empty_schema catalog server incoming raws)
  unfolding incoming_from definition_of
  incoming_from-IsKeyed empty_schema catalog server [] incoming h = h
  incoming_from-IsKeyed empty_schema catalog server (raw ∷ raws) incoming h =
      incoming_from-IsKeyed empty_schema catalog server raws _ (insert-IsKeyed _ _ incoming refl h)

  put_incoming-IsKeyed :
      (schema_text : J → Text) (server : Text) (incoming catalog : Dict (ToolDefinition J))
      → IsKeyed incoming
      → IsKeyed catalog
      → IsKeyed (put_incoming schema_text server incoming catalog).0
  unfolding put_incoming IsKeyed
  put_incoming-IsKeyed schema_text server [] catalog i h = h
  put_incoming-IsKeyed schema_text server ((k, t) ∷ incoming) catalog i h =
      put_incoming-IsKeyed schema_text server incoming (insert k t catalog) i.1
        (insert-IsKeyed k t catalog i.0 h)

  pub refresh_server-IsKeyed :
      (schema_text : J → Text) (empty_schema : J) (catalog : Dict (ToolDefinition J))
      (server : Text) (raws : Option (List (RawTool J)))
      → IsKeyed catalog
      → IsKeyed (refresh_server schema_text empty_schema catalog server raws).0
  unfolding refresh_server
  refresh_server-IsKeyed schema_text empty_schema catalog server none h = h
  refresh_server-IsKeyed schema_text empty_schema catalog server (some raws) h =
      put_incoming-IsKeyed schema_text server (incoming_from empty_schema catalog server [] raws) _
        (incoming_from-IsKeyed empty_schema catalog server raws [] (unfold IsKeyed in tt))
        (remove_missing-IsKeyed (incoming_from empty_schema catalog server [] raws) server
          (current_keys catalog server) catalog h)
