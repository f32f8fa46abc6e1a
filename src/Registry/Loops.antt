-- ===== src/Registry/Loops.antt =====
-- The loops of a refresh in src/registry/registry.ts, by the keys that they leave.
use mcp_conductor.Base.{
  ◌≡◌, refl, sym, ap, ◌∙◌, Bool, true, false, not, ◌&&◌, Option, none, some, List, [], ◌∷◌, ◌++◌,
  Text, codes, text_eq, text_eq_iff, text_eq-ne, Text-cases, starts_with, Dict, lookup, insert,
  Distinct, lookup-insert, lookup-remove, insert-Distinct, any, is_some, arith, if◌then◌else◌,
  Bool-cases, Option-cases, inl, inr, starts_with-append,
}
use mcp_conductor.Registry.{
  ToolDefinition, RawTool, key, definition_of, incoming_from, remove_tool, remove_missing,
  put_incoming,
}

-- The first of two that is there.
abbrev pub or_else {ℓ} : {A : Type ℓ} → Option A → Option A → Option A
or_else none o = o
or_else (some a) o = some a

absent {ℓ} :
    {V : Type ℓ} (k j : Text) (m : Dict V)
    → lookup k m ≡ none
    → lookup j m ≡ (if text_eq k j then none else lookup j m)
absent k j m e = elim (Text-cases k j) [
  | inl p ↦ rw ((text_eq_iff k j).1 p) (ap (λ t. lookup t m) (sym p) ∙ e)
  | inr n ↦ rw (text_eq-ne k j n) refl
]

text_eq-append : (s a b : Text) → text_eq (s ++ a) (s ++ b) ≡ text_eq a b
unfolding text_eq
text_eq-append [] a b = refl
text_eq-append (c ∷ s) a b = ground (arith, text_eq-append s a b)

text_eq-key : (server a b : Text) → text_eq (key server a) (key server b) ≡ text_eq a b
text_eq-key server a b = text_eq-append (server ++ codes "/") a b

pub starts_with-key :
    (server name : Text) → starts_with (key server name) (server ++ codes "/") ≡ true
starts_with-key server name = starts_with-append (server ++ codes "/") name

module _ {J : Type 0} where
  kept_member :
      (o : Option (ToolDefinition J)) (same among reported : Bool)
      → (same ≡ true → reported ≡ true)
      → (if among && not reported then none else o)
        ≡ (if (if same then true else among) && not reported then none else o)
  kept_member o same among reported h = ground arith

  removed_member :
      (o : Option (ToolDefinition J)) (same same' among reported : Bool)
      → same ≡ same'
      → (same ≡ true → reported ≡ false)
      → (if among && not reported then none else if same' then none else o)
        ≡ (if (if same then true else among) && not reported then none else o)
  removed_member o same same' among reported e h = ground arith

  remove_tool-lookup :
      (catalog : Dict (ToolDefinition J)) (server k j : Text)
      → lookup j (remove_tool catalog server k (lookup k catalog)).0
        ≡ (if text_eq k j then none else lookup j catalog)
  unfolding remove_tool
  remove_tool-lookup catalog server k j = elim (Option-cases (lookup k catalog)) [
    | inl e ↦ rw e (absent k j catalog e)
    | inr (t, e) ↦ rw e (lookup-remove k j catalog)
  ]

  pub swept :
      (o c : Option (ToolDefinition J)) (own : Bool)
      → or_else o (if (own && is_some c) && not (is_some o) then none else c)
        ≡ or_else o (if own then none else c)
  swept none none own = ground arith
  swept none (some t) own = ground arith
  swept (some t) c own = refl

  pub or_else-none : (o : Option (ToolDefinition J)) → or_else o none ≡ o
  or_else-none none = refl
  or_else-none (some t) = refl

  pub remove_missing-lookup :
      (incoming : Dict (ToolDefinition J)) (server : Text) (ks : List Text)
      (catalog : Dict (ToolDefinition J)) (j : Text)
      → lookup j (remove_missing incoming server ks catalog).0 ≡ (
          if any (text_eq j) ks && not (is_some (lookup j incoming))
          then none
          else lookup j catalog)
  unfolding any remove_missing
  remove_missing-lookup incoming server [] catalog j = unfold remove_missing in refl
  remove_missing-lookup incoming server (k ∷ ks) catalog j =
      elim (Bool-cases (is_some (lookup k incoming))) [
        | inl e ↦
            rw (remove_missing, e)
              (remove_missing-lookup incoming server ks catalog j
                ∙ kept_member _ (text_eq j k) (any (text_eq j) ks) (is_some (lookup j incoming))
                    (λ p. ap (λ t. is_some (lookup t incoming)) ((text_eq_iff j k).0 p) ∙ e))
        | inr e ↦
            let rest = (remove_tool catalog server k (lookup k catalog)).0 in
            rw (remove_missing, e)
              (remove_missing-lookup incoming server ks rest j
                ∙ ap
                    (λ o.
                      if any (text_eq j) ks && not (is_some (lookup j incoming)) then none else o)
                    (remove_tool-lookup catalog server k j)
                ∙ removed_member _ (text_eq j k) (text_eq k j) (any (text_eq j) ks)
                    (is_some (lookup j incoming)) (ground (arith, text_eq_iff j k, text_eq_iff k j))
                    (λ p. ap (λ t. is_some (lookup t incoming)) ((text_eq_iff j k).0 p) ∙ e))
      ]

  module _ (schema_text : J → Text) where
    pub put_incoming-lookup :
        (server : Text) (incoming catalog : Dict (ToolDefinition J)) (j : Text)
        → Distinct incoming
        → lookup j (put_incoming schema_text server incoming catalog).0
          ≡ or_else (lookup j incoming) (lookup j catalog)
    unfolding put_incoming lookup Distinct
    put_incoming-lookup server [] catalog j d = refl
    put_incoming-lookup server ((k, def) ∷ incoming) catalog j d =
        put_incoming-lookup server incoming (insert k def catalog) j d.1 ∙ elim (Text-cases k j) [
          | inl e ↦
              rw
                (
                  lookup-insert k j def catalog,
                  (text_eq_iff k j).1 e,
                  ap (λ t. lookup t incoming) (sym e) ∙ d.0,
                )
                refl
          | inr n ↦ rw (lookup-insert k j def catalog, text_eq-ne k j n) refl
        ]

  -- The last tool of a name that a backend reports.
  unfoldable pub last_named : (name : Text) → List (RawTool J) → Option (RawTool J)
  last_named name [] = none
  last_named name (raw ∷ raws) =
      or_else (last_named name raws) (if text_eq raw.name name then some raw else none)

  module _ (empty_schema : J) where
    -- The definition that a reported tool gets.
    abbrev pub defined :
        Dict (ToolDefinition J) → (server : Text) → Option (RawTool J) → Option (ToolDefinition J)
    defined catalog server none = none
    defined catalog server (some raw) = some (definition_of empty_schema catalog server raw)

    defined-step :
        (catalog : Dict (ToolDefinition J)) (server : Text) (raw : RawTool J) (same : Bool)
        (last : Option (RawTool J)) (o : Option (ToolDefinition J))
        → or_else
            (defined catalog server last)
            (if same then some (definition_of empty_schema catalog server raw) else o)
          ≡ or_else (defined catalog server (or_else last (if same then some raw else none))) o
    defined-step catalog server raw true none o = refl
    defined-step catalog server raw false none o = refl
    defined-step catalog server raw same (some r) o = refl

    pub incoming_from-lookup :
        (catalog : Dict (ToolDefinition J)) (server name : Text) (raws : List (RawTool J))
        (incoming : Dict (ToolDefinition J))
        → lookup (key server name) (incoming_from empty_schema catalog server incoming raws)
          ≡ or_else
              (defined catalog server (last_named name raws))
              (lookup (key server name) incoming)
    unfolding incoming_from last_named
    incoming_from-lookup catalog server name [] incoming = refl
    incoming_from-lookup catalog server name (raw ∷ raws) incoming =
        incoming_from-lookup catalog server name raws _
        ∙ ap (or_else (defined catalog server (last_named name raws))) (
            lookup-insert (key server raw.name) (key server name)
              (definition_of empty_schema catalog server raw) incoming
            ∙ ap
                (λ same.
                  if same
                  then some (definition_of empty_schema catalog server raw)
                  else lookup (key server name) incoming)
                (text_eq-key server raw.name name))
        ∙ defined-step catalog server raw (text_eq raw.name name) (last_named name raws)
            (lookup (key server name) incoming)

    pub incoming_from-foreign :
        (catalog : Dict (ToolDefinition J)) (server k : Text) (raws : List (RawTool J))
        (incoming : Dict (ToolDefinition J))
        → starts_with k (server ++ codes "/") ≡ false
        → lookup k (incoming_from empty_schema catalog server incoming raws) ≡ lookup k incoming
    unfolding incoming_from
    incoming_from-foreign catalog server k [] incoming h = refl
    incoming_from-foreign catalog server k (raw ∷ raws) incoming h =
        incoming_from-foreign catalog server k raws _ h
        ∙ lookup-insert (key server raw.name) k _ incoming
        ∙ ap
            (λ same.
              if same
              then some (definition_of empty_schema catalog server raw)
              else lookup k incoming)
            (text_eq-ne (key server raw.name) k (λ p. ground (
              arith,
              starts_with-key server raw.name,
              ap (λ t. starts_with t (server ++ codes "/")) p,
              h,
            )))

    pub incoming_from-Distinct :
        (catalog : Dict (ToolDefinition J)) (server : Text) (raws : List (RawTool J))
        (incoming : Dict (ToolDefinition J))
        → Distinct incoming
        → Distinct (incoming_from empty_schema catalog server incoming raws)
    unfolding incoming_from
    incoming_from-Distinct catalog server [] incoming d = d
    incoming_from-Distinct catalog server (raw ∷ raws) incoming d =
        incoming_from-Distinct catalog server raws _ (insert-Distinct _ _ incoming d)
