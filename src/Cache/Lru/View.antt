-- ===== src/Cache/Lru/View.antt =====
-- What src/cache/lru.ts keeps of what was stored.
use mcp_conductor.Base.{
  ℕ, ◌+◌, ◌-◌, ◌≡◌, refl, ◌∙◌, ◌⊎◌, false, ◌&&◌, Option, none, some, List, [], ◌∷◌, Text, text_eq,
  text_eq_iff, any, is_some, starts_with, arith, if◌then◌else◌,
}
use mcp_conductor.Cache.Lru.{
  LruCache, LruEntry, CacheHit, memory, is_past, MemoryLru, lru_get, lru_set, lru_delete,
  hit_or_miss, delete_matching, lru_invalidate,
}

module _ {V : Type 0} (lib : LruCache (LruEntry V)) where
  -- The hit that an entry gives at a time, unless it is past.
  abbrev pub hit_of : Option (LruEntry V) → ℕ → Option (CacheHit V)
  hit_of none now = none
  hit_of (some e) now =
      if is_past e.stored_at e.ttl_ms now
      then none
      else some (record {
        value = e.value;
        stored_at = e.stored_at;
        source = memory;
        staleness = now - e.stored_at;
      })

  hit_or_miss-hit :
      (m : MemoryLru lib) (key : Text) (now : ℕ) (o : Option (LruEntry V))
      → (hit_or_miss lib m key now o).1 ≡ hit_of o now
  unfolding hit_or_miss
  hit_or_miss-hit m key now none = refl
  hit_or_miss-hit m key now (some e) = ground arith

  -- `get` gives the hit of the entry that the store holds.
  pub lru_get-hit :
      (m : MemoryLru lib) (key : Text) (now : ℕ)
      → (lru_get lib m key now).1 ≡ hit_of (lib.peek key m.cache) now
  unfolding lru_get
  lru_get-hit m key now =
      hit_or_miss-hit (record m { cache = (lib.get key m.cache).0 }) key now (lib.get key m.cache).1
      ∙ rw (lib.get-result key m.cache) refl

  delete-peek :
      (m : MemoryLru lib) (j k : Text)
      → lib.peek k (lru_delete lib m j).0.cache ≡ (if text_eq j k then none else lib.peek k m.cache)
  unfolding lru_delete
  delete-peek m j k = lib.delete-peek j k m.cache

  is_some-none : {A : Type 0} (o : Option A) → is_some o ≡ false → o ≡ none
  is_some-none none h = refl
  is_some-none (some a) h = ground arith

  delete_matching-peek :
      (m : MemoryLru lib) (prefix : Text) (ks : List Text) (n : ℕ) (k : Text)
      → lib.peek k (delete_matching lib m prefix ks n).0.cache
        ≡ (if any (text_eq k) ks && starts_with k prefix then none else lib.peek k m.cache)
  unfolding delete_matching any
  delete_matching-peek m prefix [] n k = refl
  delete_matching-peek m prefix (j ∷ ks) n k = ground (
    arith,
    delete_matching-peek (lru_delete lib m j).0 prefix ks (n + 1) k,
    delete_matching-peek m prefix ks n k,
    delete-peek m j k,
    text_eq_iff j k,
    text_eq_iff k j,
  )

  -- No key with the prefix is left, and the others keep their entries.
  pub lru_invalidate-peek :
      (m : MemoryLru lib) (prefix k : Text)
      → lib.peek k (lru_invalidate lib m prefix).0.cache
        ≡ (if starts_with k prefix then none else lib.peek k m.cache)
  unfolding lru_invalidate
  lru_invalidate-peek m prefix k = ground (
    arith,
    delete_matching-peek m prefix (lib.keys m.cache) 0 k,
    lib.keys-peek k m.cache,
    is_some-none (lib.peek k m.cache),
  )

  -- What the store holds for a key after a `set`: the new entry at its key and what it held at any
  -- other, where the package did not drop it.
  pub lru_set-peek :
      (estimate_bytes : V → ℕ) (m : MemoryLru lib) (key k : Text) (v : V) (ttl now : ℕ)
      → (lib.peek k (lru_set lib estimate_bytes m key v ttl now).cache ≡ none)
        ⊎ (lib.peek k (lru_set lib estimate_bytes m key v ttl now).cache ≡ (
            if text_eq key k
            then some (record { value = v; stored_at = now; ttl_ms = ttl })
            else lib.peek k m.cache))
  unfolding lru_set
  lru_set-peek estimate_bytes m key k v ttl now = lib.set-peek key k _ _ m.cache
