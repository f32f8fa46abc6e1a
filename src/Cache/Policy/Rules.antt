-- ===== src/Cache/Policy/Rules.antt =====
-- What src/cache/policy.ts decides.
use mcp_conductor.Base.{
  ℕ, All, ◌⊎◌, inl, inr, text_eq, text_eq-ne, Text-cases, Bool-cases, ◌≤◌, ◌<◌, ◌≡◌, refl, sym, ◌↔◌,
  Bool, true, false, Option, none, some, List, [], ◌∷◌, ◌++◌, Text, length, lower, starts_with,
  get_elem?, arith, any, ltb, or_default,
}
use mcp_conductor.Cache.Policy.{
  ToolDefinition, ServerPolicies, mutation_substrings, underscore, index_of_text, is_underscore_at,
  starts_word, ends_word, has_word, has_any_word, prefix_ttl, prefix_ttl_table,
  default_ttl_for_name, server_override, resolve_allowed, resolve_ttl, is_cacheable,
}

starts_self : (w rest : Text) → starts_with (w ++ rest) w ≡ true
unfolding starts_with
starts_self [] rest = ground arith
starts_self (c ∷ w) rest = ground (arith, starts_self w rest)

after_word : (w rest : Text) → get_elem? (w ++ underscore ∷ rest) (length w) ≡ some underscore
after_word [] rest = refl
after_word (c ∷ w) rest = after_word w rest

leading_word : (c : ℕ) (w rest : Text) → has_word ((c ∷ w) ++ underscore ∷ rest) (c ∷ w) ≡ true
unfolding has_word index_of_text starts_word ends_word is_underscore_at
leading_word c w rest = ground (arith, starts_self w (underscore ∷ rest), after_word w rest)

has_any_word-leading :
    (c : ℕ) (w rest : Text) (subs : List Text)
    → any (text_eq (c ∷ w)) subs ≡ true
    → has_any_word ((c ∷ w) ++ underscore ∷ rest) subs ≡ true
unfolding has_any_word any
has_any_word-leading c w rest [] h = ground arith
has_any_word-leading c w rest (sub ∷ subs) h = elim (Text-cases (c ∷ w) sub) [
  | inl e ↦ rw (sym e, leading_word c w rest) refl
  | inr n ↦ ground (arith, text_eq-ne (c ∷ w) sub n, has_any_word-leading c w rest subs)
]

-- The result of a tool without annotations or policies whose name, in lower case, is a word of the
-- table of mutations followed by an underscore is not cached.
pub mutation-not-cached :
    (server name : Text) (c : ℕ) (w rest : Text)
    → any (text_eq (c ∷ w)) mutation_substrings ≡ true
    → lower name ≡ (c ∷ w) ++ underscore ∷ rest
    → is_cacheable
        (some (record { name = name; server = server; cacheable = none; cache_ttl = none }))
        none
      ≡ false
unfolding is_cacheable resolve_ttl resolve_allowed server_override default_ttl_for_name
mutation-not-cached server name c w rest m e =
    rw (e, has_any_word-leading c w rest mutation_substrings m) refl

prefix_ttl-bounds :
    (s : Text) (table : List (Text × ℕ))
    → All (λ row. (30_000 ≤ row.1) × (row.1 ≤ 300_000)) table
    → (30_000 ≤ prefix_ttl s table) × (prefix_ttl s table ≤ 300_000)
unfolding prefix_ttl
prefix_ttl-bounds s [] h = (omega arith, omega arith)
prefix_ttl-bounds s (row ∷ table) h = ground (arith, prefix_ttl-bounds s table h.1)

table_bounds : All (λ row. (30_000 ≤ row.1) × (row.1 ≤ 300_000)) prefix_ttl_table
table_bounds = omega arith

-- By default a result is kept for between 30 seconds and 5 minutes, or not at all; the latter for
-- the names with a word of the table of mutations.
pub default_ttl_for_name-bounds :
    (name : Text)
    → ((default_ttl_for_name name ≡ 0) × (has_any_word (lower name) mutation_substrings ≡ true))
      ⊎ ((30_000 ≤ default_ttl_for_name name)
          × (default_ttl_for_name name ≤ 300_000)
          × (has_any_word (lower name) mutation_substrings ≡ false))
unfolding default_ttl_for_name
default_ttl_for_name-bounds name =
    elim (Bool-cases (has_any_word (lower name) mutation_substrings)) [
      | inl h ↦ inl (rw h refl, h)
      | inr h ↦
          let b = prefix_ttl-bounds (lower name) prefix_ttl_table table_bounds in
          inr (rw h b.0, rw h b.1, h)
    ]

first_set-layered :
    (ttl policy : Option ℕ) (fallback : ℕ)
    → elim ttl as (λ o. ℕ) [
      | some n ↦ n
      | none ↦ elim policy as (λ o. ℕ) [ some n ↦ n | none ↦ fallback ]
    ]
      ≡ or_default ttl (or_default policy fallback)
first_set-layered (some n) policy fallback = refl
first_set-layered none (some n) fallback = refl
first_set-layered none none fallback = refl

unless_forbidden :
    (cacheable : Option Bool) (ttl : ℕ)
    → (ltb 0 (elim cacheable as (λ o. ℕ) [
      | some b ↦ elim b as (λ o. ℕ) [ false ↦ 0 | true ↦ ttl ]
      | none ↦ ttl
    ])
        ≡ true)
      ↔ (¬ (cacheable ≡ some false)) × (0 < ttl)
unless_forbidden (some false) ttl = (λ h. ground arith, λ h. absurd (h.0 refl))
unless_forbidden (some true) ttl =
    (λ h. (λ e. ground arith, ground arith), λ h. ground (arith, h.1))
unless_forbidden none ttl = (λ h. (λ e. ground arith, ground arith), λ h. ground (arith, h.1))

-- A tool is cached exactly when it does not forbid that and the first of these that there is says
-- more than 0: its own time to live, that of the server's policy for it, and that of its name.
pub is_cacheable-layered :
    (tool : ToolDefinition) (policies : Option ServerPolicies)
    → (is_cacheable (some tool) policies ≡ true)
      ↔ (¬ (tool.cacheable ≡ some false))
        × (0
            < or_default tool.cache_ttl
                (or_default (server_override tool policies) (default_ttl_for_name tool.name)))
unfolding is_cacheable resolve_ttl resolve_allowed
is_cacheable-layered tool policies =
    let override = server_override tool policies in
    let fallback = default_ttl_for_name tool.name in
    rw (sym (first_set-layered tool.cache_ttl override fallback))
      (unless_forbidden tool.cacheable (resolve_allowed tool policies))
