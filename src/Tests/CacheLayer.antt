-- ===== src/Tests/CacheLayer.antt =====
-- Runs of src/cache/cache.ts over a memory tier that drops nothing.
use mcp_conductor.Base.{
  keys-lookup, ℕ, ◌+◌, ◌-◌, ◌≤◌, ◌<◌, ◌≡◌, ◌≢◌, refl, inl, inr, true, none, some, List, [], ◌∷◌,
  map, Text, codes, text_eq, text_eq_iff, is_some, Dict, lookup, insert, remove, lookup-insert,
  lookup-remove, Distinct, length, arith,
}
use mcp_conductor.Cache.Key.{cache_key_to_string, build_cache_key}
use mcp_conductor.Cache.Lru.{LruCache, LruEntry, memory, disk}
use mcp_conductor.Cache.Disk.{
  DiskCache, DiskEntry, File, valid, malformed, collect, rotate, rotation_target,
}
use mcp_conductor.Cache.Disk.Rotation.{total_size, rotate-bytes}
use mcp_conductor.Cache.Layer.{
  CacheLayer, Backing, key_of, fresh, stale, ttl_for, store, layer_get, layer_set, on_tool_updated,
  end_invalidation, invalidate,
}
use mcp_conductor.Cache.Layer.Hits.{disk_hit, store-collides}
use mcp_conductor.Cache.Layer.Served.{
  CacheCall, gets, sets, after_calls, Admits, AdmitsAll, IsFresh, layer_set-after_calls,
}
use mcp_conductor.Cache.Layer.Stale.{stale-becomes-fresh}
use mcp_conductor.Cache.Layer.Invalidation.{invalidate-overreaches}
use mcp_conductor.Cache.Layer.Revival.{on_tool_updated-revived}

pub plain_empty : (k : Text) → lookup {V = LruEntry ℕ} k [] ≡ none
unfolding lookup
plain_empty k = refl

abbrev pub plain : LruCache (LruEntry ℕ)
plain = record {
  Store = Dict (LruEntry ℕ);
  created = λ n. [];
  peek = lookup;
  get = λ k s. (s, lookup k s);
  set = λ k e n s. (insert k e s, 0);
  delete = λ k s. (remove k s, is_some (lookup k s));
  clear = λ s. ([], length s);
  keys = map (λ p. p.0);
  size = length;
  calculated_size = length;
  created-peek = λ n k. plain_empty k;
  get-result = λ k s. refl;
  get-peek = λ k j s. refl;
  set-peek = λ k j e n s. inr (lookup-insert k j e s);
  delete-result = λ k s. refl;
  delete-peek = lookup-remove;
  clear-peek = λ k s. plain_empty k;
  keys-peek = keys-lookup;
}

-- The arguments are a text that is its own hash.
abbrev pub backing : Backing ℕ Text
backing = record {
  get_tool = λ server tool.
      some (record { name = tool; server = server; cacheable = none; cache_ttl = none });
  hash_args = λ args. args;
  estimate_bytes = λ v. v;
  encoded_size = λ e. 10;
  malformed_size = 1;
}

abbrev git : Text
git = codes "git"

abbrev github : Text
github = codes "github"

abbrev list_tool : Text
list_tool = codes "list_repos"

abbrev other_tool : Text
other_tool = codes "get_me"

abbrev args : Text
args = codes "h"

abbrev pub empty_layer : CacheLayer plain
empty_layer = record {
  lru = record { cache = []; evictions = 0; hits = 0; misses = 0 };
  disk = record { files = []; max_disk_bytes = 100; hits = 0; misses = 0; bytes_on_disk = 0 };
  stale_while_revalidate = true;
  policies = [];
  disk_misses = 0;
  ttl_map = [];
  revalidating = [];
}

abbrev filled : CacheLayer plain
filled = (store plain backing empty_layer github list_tool args 7 500 1_000).0

other_absent : lookup (key_of plain backing git other_tool args) filled.lru.cache ≡ none
unfolding store lookup insert text_eq cache_key_to_string build_cache_key
other_absent = refl

-- `get_me` of another server gets the list of `list_repos`.
store-collides_example :
    (layer_get plain backing filled git other_tool args 1_200).1
    ≡ some (
        fresh plain backing
          (record { value = 7; stored_at = 1_000; source = disk; staleness = 1_200 - 1_000 }))
store-collides_example =
    store-collides plain backing empty_layer github list_tool args 7 500 1_000 (omega arith) git
      other_tool args 1_200 refl other_absent (omega arith)

some_ttl : 0 < ttl_for plain backing empty_layer github list_tool (some 500)
unfolding ttl_for
some_ttl = omega arith

in_time : 1_400 - 1_000 ≤ ttl_for plain backing empty_layer github list_tool (some 500)
unfolding ttl_for
in_time = omega arith

-- The same call, and one of another tool with other arguments.
abbrev calls : List (CacheCall ℕ Text)
calls =
    gets github list_tool args 1_200
    ∷ sets git other_tool (codes "i") 8 (some 100) 1_300
    ∷ gets git other_tool args 1_350
    ∷ []

other_key :
    (hash : Text)
    → key_of plain backing git other_tool hash ≢ key_of plain backing github list_tool args
unfolding cache_key_to_string build_cache_key text_eq
other_key hash e = ground (
  arith,
  text_eq_iff (key_of plain backing git other_tool hash)
      (key_of plain backing github list_tool args),
)

other_hash : codes "i" ≢ args
other_hash e = ground (arith, text_eq_iff (codes "i") args)

calls-AdmitsAll :
    AdmitsAll plain backing (key_of plain backing github list_tool args) args 1_000 500 calls
unfolding AdmitsAll Admits
calls-AdmitsAll = (
  (inl (refl, refl), omega arith, omega arith),
  ((other_key (codes "i"), other_hash), ((inr (other_key args), omega arith, omega arith), tt)),
)

layer_set-after_calls_example :
    IsFresh plain backing
      (layer_get plain backing
        (after_calls plain backing
          (layer_set plain backing empty_layer github list_tool args 7 (some 500) 1_000).0
          calls)
        github
        list_tool
        args
        1_400).1
      7
unfolding ttl_for
layer_set-after_calls_example =
    layer_set-after_calls plain backing empty_layer github list_tool args 7 (some 500) 1_000 1_400
      calls some_ttl calls-AdmitsAll in_time

abbrev old_entry : DiskEntry ℕ
old_entry = record { value = 7; stored_at = 0; ttl_ms = 500; server = github; tool = list_tool }

abbrev old_layer : CacheLayer plain
old_layer = record empty_layer {
  disk = record empty_layer.disk { files = (args, valid old_entry) ∷ [] };
}

old_file : lookup args old_layer.disk.files ≡ some (valid old_entry)
unfolding lookup text_eq
old_file = refl

old_absent : lookup (key_of plain backing github list_tool args) old_layer.lru.cache ≡ none
unfolding lookup
old_absent = refl

old_kept : ¬ (
    lookup
      (key_of plain backing github list_tool args)
      (layer_get plain backing old_layer github list_tool args 900).0.lru.cache
    ≡ none)
unfolding layer_get lookup insert text_eq cache_key_to_string build_cache_key
old_kept e = ground arith

stale-becomes-fresh_example :
    ((layer_get plain backing old_layer github list_tool args 900).1
      ≡ some (
          stale plain backing old_layer
            (key_of plain backing github list_tool args)
            (disk_hit plain backing old_entry 900)))
    × ((layer_get plain backing
          (layer_get plain backing old_layer github list_tool args 900).0
          github
          list_tool
          args
          1_300).1
        ≡ some (
            fresh plain backing
              (record { value = 7; stored_at = 900; source = memory; staleness = 1_300 - 900 })))
stale-becomes-fresh_example =
    stale-becomes-fresh plain backing old_layer github list_tool args 900 1_300 old_entry old_absent
      old_file (omega arith) (omega arith) refl old_kept (omega arith)

one_file : Distinct old_layer.disk.files
unfolding Distinct lookup
one_file = (refl, tt)

-- A call after the event and before the disk's invalidation has ended.
abbrev read_late : CacheLayer plain
read_late =
    (layer_get plain backing (on_tool_updated plain backing old_layer github list_tool).0 github
      list_tool args 100).0

late_kept : ¬ (lookup (key_of plain backing github list_tool args) read_late.lru.cache ≡ none)
unfolding layer_get on_tool_updated lookup insert text_eq cache_key_to_string build_cache_key
late_kept e = ground arith

on_tool_updated-revived_example :
    ((layer_get plain backing
        (on_tool_updated plain backing old_layer github list_tool).0
        github
        list_tool
        args
        100).1
      ≡ some (fresh plain backing (disk_hit plain backing old_entry 100)))
    × ((layer_get plain backing
          (end_invalidation plain backing read_late
            (on_tool_updated plain backing old_layer github list_tool).1
            (λ e. true))
          github
          list_tool
          args
          300).1
        ≡ some (
            fresh plain backing
              (record { value = 7; stored_at = 100; source = memory; staleness = 300 - 100 })))
on_tool_updated-revived_example =
    on_tool_updated-revived plain backing old_layer github list_tool args old_entry 100 300
      (λ e. true) old_file (omega arith) (omega arith) (omega arith) late_kept

-- To invalidate `git` takes away the disk entry of `github`.
invalidate-overreaches_example :
    lookup args (invalidate plain backing old_layer git none).0.disk.files ≡ none
invalidate-overreaches_example =
    invalidate-overreaches plain backing old_layer git (codes "hub") args old_entry one_file
      old_file refl

abbrev entry_at : ℕ → File ℕ
entry_at stored_at =
    valid (record { value = 0; stored_at = stored_at; ttl_ms = 0; server = git; tool = [] })

-- Three entries of ten bytes on a disk for twenty.
abbrev full_disk : DiskCache ℕ
full_disk = record {
  files =
      (codes "b", entry_at 2)
      ∷ (codes "x", malformed)
      ∷ (codes "c", entry_at 3)
      ∷ (codes "a", entry_at 1)
      ∷ [];
  max_disk_bytes = 20;
  hits = 0;
  misses = 0;
  bytes_on_disk = 30;
}

rotate_oldest :
    (rotate (λ e. 10) full_disk).files ≡ (codes "x", malformed) ∷ (codes "c", entry_at 3) ∷ []
unfolding rotate remove text_eq
rotate_oldest = refl

full_disk-fits :
    full_disk.bytes_on_disk
    ≤ rotation_target full_disk + total_size (collect (λ e. 10) full_disk.files)
unfolding collect
full_disk-fits = omega arith

rotate-bytes_example : (rotate (λ e. 10) full_disk).bytes_on_disk ≤ rotation_target full_disk
rotate-bytes_example = rotate-bytes (λ e. 10) full_disk full_disk-fits
