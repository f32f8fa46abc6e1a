-- ===== src/Cache/Policy.antt =====
-- src/cache/policy.ts. Times to live are natural numbers of milliseconds, where 0 is not to cache.
pub mod Rules
use mcp_conductor.Base.{
  ℕ, zero, suc, ◌+◌, Bool, true, false, Option, none, some, List, [], ◌∷◌, map, Text, codes, length,
  lower, starts_with, text_eq, get_elem?, lookup, Dict, ltb, leb, ◌==◌, or_default, if◌then◌else◌,
  ◌&&◌, ◌||◌,
}

-- The fields of `ToolDefinition` that are read here.
pub record ToolDefinition : Type 0 where
  pub name : Text
  pub server : Text
  pub cacheable : Option Bool
  pub cache_ttl : Option ℕ

-- `ServerPolicies`
abbrev pub ServerPolicies : Type 0
ServerPolicies = Dict (Dict ℕ)

-- `MUTATION_SUBSTRINGS`
abbrev pub mutation_substrings : List Text
mutation_substrings =
    codes "create"
    ∷ codes "update"
    ∷ codes "delete"
    ∷ codes "remove"
    ∷ codes "add_"
    ∷ codes "_add"
    ∷ codes "write"
    ∷ codes "push"
    ∷ codes "insert"
    ∷ codes "patch"
    ∷ codes "put"
    ∷ codes "post"
    ∷ codes "set_"
    ∷ codes "reset"
    ∷ codes "clear"
    ∷ codes "archive"
    ∷ codes "restore"
    ∷ codes "move"
    ∷ []

-- `PREFIX_TTL_TABLE`
abbrev pub prefix_ttl_table : List (Text × ℕ)
prefix_ttl_table =
    (codes "list_", 300_000)
    ∷ (codes "search_", 300_000)
    ∷ (codes "get_", 60_000)
    ∷ (codes "read_", 60_000)
    ∷ (codes "query_", 30_000)
    ∷ (codes "fetch_", 30_000)
    ∷ []

-- `DEFAULT_TTL_MS`
abbrev pub default_ttl_ms : ℕ
default_ttl_ms = 30_000

-- The code of `_`.
abbrev pub underscore : ℕ
underscore = 95

-- `s.indexOf(sub)`, for a `sub` that is not empty.
unfoldable pub index_of_text : Text → Text → Option ℕ
unfolding starts_with
index_of_text sub [] = none
index_of_text sub (c ∷ s) =
    let later = index_of_text sub s in
    if starts_with (c ∷ s) sub then some 0 else elim later [ none ↦ none | some i ↦ some (suc i) ]

-- Whether the character at an index, which must be in the text, is an underscore.
unfoldable pub is_underscore_at : Text → ℕ → Bool
is_underscore_at s i = elim (get_elem? s i) [ none ↦ false | some c ↦ c == underscore ]

-- The word boundary before index `idx`.
unfoldable pub starts_word : Text → ℕ → Bool
unfolding is_underscore_at
starts_word s zero = true
starts_word s (suc i) = is_underscore_at s i

-- The word boundary at the index `end`, just after a word.
unfoldable pub ends_word : Text → (end : ℕ) → Bool
unfolding is_underscore_at
ends_word s end = if leb (length s) end then true else is_underscore_at s end

-- The body of the loop over `MUTATION_SUBSTRINGS`.
unfoldable pub has_word : Text → (sub : Text) → Bool
unfolding index_of_text starts_word ends_word
has_word s sub = elim (index_of_text sub s) [
  | none ↦ false
  | some idx ↦ starts_word s idx && ends_word s (idx + length sub)
]

-- The loop over `MUTATION_SUBSTRINGS`.
unfoldable pub has_any_word : Text → List Text → Bool
unfolding has_word
has_any_word s [] = false
has_any_word s (sub ∷ subs) = if has_word s sub then true else has_any_word s subs

-- The loop over `PREFIX_TTL_TABLE`.
unfoldable pub prefix_ttl : Text → List (Text × ℕ) → ℕ
unfolding starts_with
prefix_ttl s [] = default_ttl_ms
prefix_ttl s ((prefix, ttl) ∷ table) = if starts_with s prefix then ttl else prefix_ttl s table

-- `defaultTtlForName`
unfoldable pub default_ttl_for_name : Text → ℕ
unfolding has_any_word prefix_ttl lower
default_ttl_for_name tool_name =
    if has_any_word (lower tool_name) mutation_substrings
    then 0
    else prefix_ttl (lower tool_name) prefix_ttl_table

-- `serverPolicies[tool.server]?.[toolName]`
unfoldable pub server_override : ToolDefinition → Option ServerPolicies → Option ℕ
unfolding lookup
server_override tool none = none
server_override tool (some policies) = elim (lookup tool.server policies) [
  | none ↦ none
  | some overrides ↦ lookup tool.name overrides
]

-- `resolveTtl` past the test of `cacheable`.
unfoldable pub resolve_allowed : ToolDefinition → Option ServerPolicies → ℕ
unfolding server_override default_ttl_for_name
resolve_allowed tool policies = elim tool.cache_ttl [
  | some ttl ↦ ttl
  | none ↦ elim (server_override tool policies) [
    | some ttl ↦ ttl
    | none ↦ default_ttl_for_name tool.name
  ]
]

-- `resolveTtl`
unfoldable pub resolve_ttl : Option ToolDefinition → Option ServerPolicies → ℕ
unfolding resolve_allowed default_ttl_for_name
resolve_ttl none policies = default_ttl_for_name []
resolve_ttl (some tool) policies = elim tool.cacheable [
  | some false ↦ 0
  | some true ↦ resolve_allowed tool policies
  | none ↦ resolve_allowed tool policies
]

-- `isCacheable`
unfoldable pub is_cacheable : Option ToolDefinition → Option ServerPolicies → Bool
unfolding resolve_ttl
is_cacheable tool policies = ltb 0 (resolve_ttl tool policies)
