-- ===== src/Tests/Cache.antt =====
-- Runs of src/cache.
use mcp_conductor.Base.{
  index_of, ℕ, List, ◌≤◌, ◌<◌, ◌≡◌, ◌↔◌, ◌++◌, refl, ◌⊎◌, true, false, none, some, [], ◌∷◌, Text,
  codes, any, text_eq, lower, length, or_default,
}
use mcp_conductor.Cache.Delta.{DeltaResult, has_item, added_and_removed, array_delta}
use mcp_conductor.Cache.Delta.Reconstruct.{reads_item, array_delta-reads_item}
use mcp_conductor.Cache.Key.{CacheKey, colon, is_empty, cache_key_to_string, parse_cache_key}
use mcp_conductor.Cache.Key.RoundTrip.{parse_cache_key-cache_key_to_string, parse_cache_key-text}
use mcp_conductor.Cache.Policy.{
  ToolDefinition, ServerPolicies, mutation_substrings, underscore, has_any_word,
  default_ttl_for_name, is_cacheable, server_override,
}
use mcp_conductor.Cache.Policy.Rules.{
  mutation-not-cached, default_ttl_for_name-bounds, is_cacheable-layered,
}

abbrev digest : Text
digest = codes "0123456789abcdef0123456789abcdef0123456789abcdef0123456789abcdef"

-- The tool has a colon in its name.
abbrev some_key : CacheKey
some_key = record { server = codes "git"; tool = codes "repo:list"; args_hash = digest }

server_no_colon : index_of colon some_key.server ≡ none
unfolding index_of
server_no_colon = refl

digest_no_colon : index_of colon some_key.args_hash ≡ none
unfolding index_of
digest_no_colon = refl

parse_cache_key-cache_key_to_string_example :
    parse_cache_key (cache_key_to_string some_key) ≡ some some_key
parse_cache_key-cache_key_to_string_example =
    parse_cache_key-cache_key_to_string some_key refl refl refl server_no_colon digest_no_colon

parsed : parse_cache_key (cache_key_to_string some_key) ≡ some some_key
unfolding parse_cache_key cache_key_to_string
parsed = refl

parse_cache_key-text_example :
    (cache_key_to_string some_key ≡ cache_key_to_string some_key)
    × (is_empty some_key.server ≡ false)
    × (is_empty some_key.tool ≡ false)
    × (length some_key.args_hash ≡ 64)
parse_cache_key-text_example = parse_cache_key-text (cache_key_to_string some_key) some_key parsed

abbrev server : Text
server = codes "github"

create_is_listed : any (text_eq (codes "create")) mutation_substrings ≡ true
unfolding any text_eq
create_is_listed = refl

name_in_lower_case : lower (codes "Create_Issue") ≡ codes "create" ++ underscore ∷ codes "issue"
unfolding lower
name_in_lower_case = refl

mutation-not-cached_example :
    is_cacheable
      (some (record {
        name = codes "Create_Issue";
        server = server;
        cacheable = none;
        cache_ttl = none;
      }))
      none
    ≡ false
mutation-not-cached_example =
    mutation-not-cached server (codes "Create_Issue") 99 (codes "reate") (codes "issue")
      create_is_listed name_in_lower_case

-- `add_` is in the table, but a name that goes on after it is not taken for a mutation.
add_comment : default_ttl_for_name (codes "add_comment") ≡ 30_000
unfolding default_ttl_for_name
add_comment = refl

-- Only the first place of a word counts.
input_put : default_ttl_for_name (codes "input_put") ≡ 30_000
unfolding default_ttl_for_name
input_put = refl

default_ttl_for_name-bounds_example :
    ((default_ttl_for_name (codes "list_issues") ≡ 0)
      × (has_any_word (lower (codes "list_issues")) mutation_substrings ≡ true))
    ⊎ ((30_000 ≤ default_ttl_for_name (codes "list_issues"))
        × (default_ttl_for_name (codes "list_issues") ≤ 300_000)
        × (has_any_word (lower (codes "list_issues")) mutation_substrings ≡ false))
default_ttl_for_name-bounds_example = default_ttl_for_name-bounds (codes "list_issues")

abbrev list_issues : ToolDefinition
list_issues = record {
  name = codes "list_issues";
  server = server;
  cacheable = some true;
  cache_ttl = none;
}

abbrev policies : ServerPolicies
policies = (server, (codes "list_issues", 1_000) ∷ []) ∷ []

is_cacheable-layered_example :
    (is_cacheable (some list_issues) (some policies) ≡ true)
    ↔ (¬ (list_issues.cacheable ≡ some false))
      × (0
          < or_default list_issues.cache_ttl (
              or_default
                (server_override list_issues (some policies))
                (default_ttl_for_name list_issues.name)))
is_cacheable-layered_example = is_cacheable-layered list_issues (some policies)

abbrev as_is : Text → Text
as_is t = t

abbrev before : List Text
before = codes "a" ∷ codes "b" ∷ []

abbrev after : List Text
after = codes "b" ∷ codes "c" ∷ []

abbrev delta_size : DeltaResult Text → ℕ
delta_size delta = 5

delta_of_arrays :
    array_delta as_is delta_size length before after
    ≡ record { unchanged = false; added = none; removed = none; full = some after }
unfolding array_delta
delta_of_arrays = refl

array_delta-reads_item_example :
    reads_item as_is (array_delta as_is delta_size length before after) before (codes "c")
    ≡ has_item as_is after (codes "c")
array_delta-reads_item_example =
    array_delta-reads_item as_is delta_size length before after (codes "c")

-- An item that comes twice and then once is neither added nor removed.
lost_copy :
    added_and_removed as_is (codes "a" ∷ codes "a" ∷ []) (codes "a" ∷ [])
    ≡ record { unchanged = false; added = none; removed = none; full = none }
unfolding added_and_removed
lost_copy = refl
