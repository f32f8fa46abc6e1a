-- ===== src/Cache/Key.antt =====
-- src/cache/key.ts. The hash of the arguments, which takes `JSON.stringify` and SHA-256, is a
-- parameter; what is modelled is the key around it and its text.
pub mod Slices
pub mod RoundTrip
use mcp_conductor.Base.{
  index_of, last_index_of, take, drop, ℕ, zero, suc, ◌+◌, ◌-◌, Bool, true, false, Option, none,
  some, List, [], ◌∷◌, ◌++◌, Text, codes, length, leb, ◌==◌, not, ◌||◌, if◌then◌else◌,
}

-- `CacheKey`
pub record CacheKey : Type 0 where
  pub server : Text
  pub tool : Text
  pub args_hash : Text

-- The code of `:`.
abbrev pub colon : ℕ
colon = 58

-- `buildCacheKey`
unfoldable pub build_cache_key {ℓ} :
    {Args : Type ℓ} → (Args → Text) → (server tool : Text) → Args → CacheKey
build_cache_key hash_args server tool args = record {
  server = server;
  tool = tool;
  args_hash = hash_args args;
}

-- `cacheKeyToString`
unfoldable pub cache_key_to_string : CacheKey → Text
cache_key_to_string key = key.server ++ colon ∷ (key.tool ++ colon ∷ key.args_hash)

-- `s.substring(i, j)` for `i` up to `j`.
abbrev pub substring : Text → (i j : ℕ) → Text
substring s i j = take (j - i) (drop i s)

abbrev pub is_empty : Text → Bool
is_empty [] = true
is_empty (x ∷ s) = false

-- The end of `parseCacheKey`.
unfoldable pub checked_key : (server tool args_hash : Text) → Option CacheKey
checked_key server tool args_hash =
    if is_empty server || is_empty tool || not (length args_hash == 64)
    then none
    else some (record { server = server; tool = tool; args_hash = args_hash })

-- `parseCacheKey` once both colons are looked up.
unfoldable pub parse_at : Text → Option ℕ → Option ℕ → Option CacheKey
unfolding checked_key take drop
parse_at s (some first_colon) (some hash_start) =
    if leb hash_start first_colon
    then none
    else checked_key (substring s 0 first_colon) (substring s (suc first_colon) hash_start)
        (substring s (suc hash_start) (length s))
parse_at s _ _ = none

-- `parseCacheKey`
unfoldable pub parse_cache_key : Text → Option CacheKey
unfolding parse_at index_of last_index_of
parse_cache_key s = parse_at s (index_of colon s) (last_index_of colon s)
