-- ===== src/Cache/Layer/Invalidation.antt =====
-- What src/cache/cache.ts and src/cache/disk.ts take away when a tool or a server is invalidated.
use mcp_conductor.Base.{
  ℕ, ◌≡◌, refl, sym, ap, ◌∙◌, Bool, true, Option, none, some, [], ◌∷◌, ◌++◌, Text, codes, ◌&&◌,
  text_eq_iff, lookup, Dict, Distinct, starts_with, starts_with-append, ends_with, arith,
  if◌then◌else◌,
}
use mathlib.Core.List.{append_assoc, append-nil, reverse-append}
use mcp_conductor.Cache.Key.{cache_key_to_string, build_cache_key, colon}
use mcp_conductor.Cache.Lru.{LruCache, LruEntry}
use mcp_conductor.Cache.Lru.View.{lru_invalidate-peek}
use mcp_conductor.Cache.Disk.{
  DiskEntry, File, valid, malformed, scan_and_delete, delete_all_matching, disk_invalidate,
  disk_get, read_file, entry_key, normalized_prefix, without_last,
}
use mcp_conductor.Cache.Layer.{
  CacheLayer, Backing, key_of, from_disk, after_disk, miss, invalidate_prefix, on_tool_updated,
  end_invalidation, tool_prefix, invalidate,
}

module _ {V : Type 0} (encoded_size : DiskEntry V → ℕ) where
  -- A scan's view of one file.
  abbrev pub unless_matching : (DiskEntry V → Bool) → Option (File V) → Option (File V)
  unless_matching matches none = none
  unless_matching matches (some malformed) = some malformed
  unless_matching matches (some (valid e)) = if matches e then none else some (valid e)

  scan_and_delete-none :
      (matches : DiskEntry V → Bool) (h : Text) (files : Dict (File V))
      → lookup h files ≡ none
      → lookup h (scan_and_delete encoded_size matches files).left ≡ none
  unfolding scan_and_delete lookup
  scan_and_delete-none matches h [] e = refl
  scan_and_delete-none matches h ((j, malformed) ∷ files) e =
      ground (arith, scan_and_delete-none matches h files)
  scan_and_delete-none matches h ((j, valid x) ∷ files) e =
      ground (arith, scan_and_delete-none matches h files)

  pub scan_and_delete-Distinct :
      (matches : DiskEntry V → Bool) (files : Dict (File V))
      → Distinct files
      → Distinct (scan_and_delete encoded_size matches files).left
  unfolding scan_and_delete Distinct
  scan_and_delete-Distinct matches [] d = d
  scan_and_delete-Distinct matches ((j, malformed) ∷ files) d =
      (scan_and_delete-none matches j files d.0, scan_and_delete-Distinct matches files d.1)
  scan_and_delete-Distinct matches ((j, valid x) ∷ files) d =
      ground (
        arith,
        scan_and_delete-none matches j files d.0,
        scan_and_delete-Distinct matches files d.1,
      )

  pub scan_and_delete-lookup :
      (matches : DiskEntry V → Bool) (h : Text) (files : Dict (File V))
      → Distinct files
      → lookup h (scan_and_delete encoded_size matches files).left
        ≡ unless_matching matches (lookup h files)
  unfolding scan_and_delete lookup Distinct
  scan_and_delete-lookup matches h [] d = refl
  scan_and_delete-lookup matches h ((j, malformed) ∷ files) d =
      ground (arith, scan_and_delete-lookup matches h files d.1)
  scan_and_delete-lookup matches h ((j, valid x) ∷ files) d = ground (
    arith,
    scan_and_delete-lookup matches h files d.1,
    scan_and_delete-none matches j files d.0,
    text_eq_iff j h,
  )

-- A text that ends with a colon loses it.
without_last-append : (s : Text) (c : ℕ) → without_last (s ++ c ∷ []) ≡ s
unfolding without_last
without_last-append [] c = refl
without_last-append (x ∷ []) c = refl
without_last-append (x ∷ y ∷ s) c = ap (◌∷◌ x) (without_last-append (y ∷ s) c)

pub normalized_prefix-append : (s : Text) → normalized_prefix (s ++ codes ":") ≡ s
unfolding normalized_prefix ends_with starts_with
normalized_prefix-append s = rw (reverse-append s (codes ":")) (without_last-append s colon)

pub starts_refl : (s : Text) → starts_with s s ≡ true
unfolding starts_with
starts_refl [] = refl
starts_refl (c ∷ s) = ground (arith, starts_refl s)

begins : (s rest tool : Text) → starts_with (entry_key (s ++ rest) tool) s ≡ true
begins s rest tool =
    let regroup : entry_key (s ++ rest) tool ≡ s ++ (rest ++ (codes ":" ++ tool)) =
      simp append_assoc in
    rw regroup (starts_with-append s _)

module _ {V Args : Type 0} (lib : LruCache (LruEntry V)) (b : Backing V Args) where
  pub after_disk-none :
      (l : CacheLayer lib) (key hash : Text) (now : ℕ)
      → lookup hash l.disk.files ≡ none
      → (from_disk lib b l key hash now).1 ≡ none
  unfolding from_disk disk_get read_file after_disk miss
  after_disk-none l key hash now e = rw e refl

  key_prefix :
      (server tool : Text) (args : Args)
      → (server ++ codes ":" ++ tool ++ codes ":") ++ b.hash_args args
        ≡ key_of lib b server tool args
  unfolding cache_key_to_string build_cache_key
  key_prefix server tool args = simp append_assoc

  pub key_starts :
      (server tool : Text) (args : Args)
      → starts_with (key_of lib b server tool args) (server ++ codes ":" ++ tool ++ codes ":")
        ≡ true
  key_starts server tool args =
      rw (sym (key_prefix server tool args)) (starts_with-append _ (b.hash_args args))

  -- What is left of the disk after a prefix was invalidated.
  pub invalidate_prefix-lookup :
      (l : CacheLayer lib) (prefix hash : Text)
      → Distinct l.disk.files
      → lookup hash (invalidate_prefix lib b l prefix).0.disk.files
        ≡ unless_matching b.encoded_size
            (λ e. starts_with (entry_key e.server e.tool) (normalized_prefix prefix))
            (lookup hash l.disk.files)
  unfolding invalidate_prefix disk_invalidate delete_all_matching
  invalidate_prefix-lookup l prefix hash d =
      scan_and_delete-lookup b.encoded_size _ hash l.disk.files d

  -- What an event leaves of the memory, and what the end of a disk invalidation leaves of the disk.
  pub on_tool_updated-peek :
      (l : CacheLayer lib) (server tool k : Text)
      → lib.peek k (on_tool_updated lib b l server tool).0.lru.cache
        ≡ (if starts_with k (tool_prefix lib b server tool) then none else lib.peek k l.lru.cache)
  unfolding on_tool_updated
  on_tool_updated-peek l server tool k =
      lru_invalidate-peek lib l.lru (tool_prefix lib b server tool) k

  pub end_invalidation-Distinct :
      (l : CacheLayer lib) (prefix : Text) (removes : DiskEntry V → Bool)
      → Distinct l.disk.files
      → Distinct (end_invalidation lib b l prefix removes).disk.files
  unfolding end_invalidation delete_all_matching
  end_invalidation-Distinct l prefix removes d =
      scan_and_delete-Distinct b.encoded_size _ l.disk.files d

  pub end_invalidation-lookup :
      (l : CacheLayer lib) (prefix hash : Text) (removes : DiskEntry V → Bool)
      → Distinct l.disk.files
      → lookup hash (end_invalidation lib b l prefix removes).disk.files
        ≡ unless_matching b.encoded_size
            (λ e. starts_with (entry_key e.server e.tool) (normalized_prefix prefix) && removes e)
            (lookup hash l.disk.files)
  unfolding end_invalidation delete_all_matching
  end_invalidation-lookup l prefix hash removes d =
      scan_and_delete-lookup b.encoded_size _ hash l.disk.files d

  -- The files of a tool match the prefix of its keys.
  pub own_matches :
      (server tool : Text) (e : DiskEntry V)
      → e.server ≡ server
      → e.tool ≡ tool
      → starts_with (entry_key e.server e.tool) (normalized_prefix (tool_prefix lib b server tool))
        ≡ true
  own_matches server tool e s t =
      rw (s, t, normalized_prefix-append (server ++ codes ":" ++ tool))
        (starts_refl (server ++ codes ":" ++ tool))

  -- The disk entries of a server go with every server whose name is a beginning of its name: to
  -- invalidate `server` takes away those of `server ++ rest`, whatever the rest.
  pub invalidate-overreaches :
      (l : CacheLayer lib) (server rest hash : Text) (e : DiskEntry V)
      → Distinct l.disk.files
      → lookup hash l.disk.files ≡ some (valid e)
      → e.server ≡ server ++ rest
      → lookup hash (invalidate lib b l server none).0.disk.files ≡ none
  unfolding invalidate
  invalidate-overreaches l server rest hash e d f s =
      let plain : server ++ codes ":" ++ [] ≡ server ++ codes ":" =
        append-nil (server ++ codes ":") in
      let hit : starts_with (entry_key e.server e.tool)
            (normalized_prefix (server ++ codes ":" ++ []))
          ≡ true =
        rw (s, plain, normalized_prefix-append server) (begins server rest e.tool) in
      invalidate_prefix-lookup l (server ++ codes ":" ++ []) hash d ∙ rw (f, hit) refl
