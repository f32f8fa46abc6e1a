-- ===== src/Cache/Layer/Served.antt =====
-- A result in src/cache/cache.ts from its `set` on, while other calls of the cache come in between.
use mcp_conductor.Base.{
  ℕ, ◌-◌, ◌≤◌, ◌<◌, ◌≡◌, refl, ◌⊎◌, inl, inr, Option, none, some, List, [], ◌∷◌, Text, Option-cases,
  subst, arith,
}
use mcp_conductor.Cache.Lru.{LruCache, LruEntry}
use mcp_conductor.Cache.Disk.{DiskEntry}
use mcp_conductor.Cache.Layer.{
  CacheLayer, Backing, ExtendedCacheHit, key_of, fresh, layer_get, layer_set, store, ttl_for,
}
use mcp_conductor.Cache.Layer.Hits.{
  disk_hit, memory_hit, from_disk-hit, layer_get-from_disk, layer_get-from_memory, store-file,
  store-ttl, store-entry, unpast, nonzero,
}
use mcp_conductor.Cache.Layer.Kept.{IsHeld, IsCopy}
use mcp_conductor.Cache.Layer.Others.{layer_get-IsHeld, layer_set-IsHeld}

-- A call of the cache, with its time.
pub data CacheCall (V Args : Type 0) : Type 0 where
  gets : (server tool : Text) → Args → (now : ℕ) → CacheCall V Args
  sets : (server tool : Text) → Args → V → (ttl : Option ℕ) (now : ℕ) → CacheCall V Args

module _ {V Args : Type 0} (lib : LruCache (LruEntry V)) (b : Backing V Args) where
  unfoldable pub after_call : CacheLayer lib → CacheCall V Args → CacheLayer lib
  unfolding layer_get layer_set
  after_call l (gets server tool args now) = (layer_get lib b l server tool args now).0
  after_call l (sets server tool args v ttl now) = (layer_set lib b l server tool args v ttl now).0

  unfoldable pub after_calls : CacheLayer lib → List (CacheCall V Args) → CacheLayer lib
  unfolding after_call
  after_calls l [] = l
  after_calls l (c ∷ cs) = after_calls (after_call l c) cs

  -- The calls that may come in between: a `get` of this call or of one with another key, in the time
  -- to live; a `set` of a call with another key and another hash of its arguments.
  unfoldable pub Admits : (key hash : Text) (since ttl : ℕ) → CacheCall V Args → Type 0
  Admits key hash since ttl (gets server tool args now) =
      (((key_of lib b server tool args ≡ key) × (b.hash_args args ≡ hash))
        ⊎ ¬ (key_of lib b server tool args ≡ key))
      × (since ≤ now)
      × (now - since ≤ ttl)
  Admits key hash since ttl (sets server tool args v ttl' now) =
      ¬ (key_of lib b server tool args ≡ key) × ¬ (b.hash_args args ≡ hash)

  unfoldable pub AdmitsAll : (key hash : Text) (since ttl : ℕ) → List (CacheCall V Args) → Type 0
  unfolding Admits
  AdmitsAll key hash since ttl [] = Unit
  AdmitsAll key hash since ttl (c ∷ cs) =
      Admits key hash since ttl c × AdmitsAll key hash since ttl cs

  -- A hit with this value and without a flag.
  pub record IsFresh (r : Option (ExtendedCacheHit V)) (v : V) : Type 0 where
    pub found : ExtendedCacheHit V
    pub is_result : r ≡ some found
    pub same_value : found.hit.value ≡ v
    pub no_flag : found.needs_revalidation ≡ none

  calls-IsHeld :
      (key hash : Text) (e : DiskEntry V)
      → 0 < e.ttl_ms
      → (cs : List (CacheCall V Args)) (l : CacheLayer lib)
      → AdmitsAll key hash e.stored_at e.ttl_ms cs
      → IsHeld lib b key hash e l
      → IsHeld lib b key hash e (after_calls l cs)
  unfolding after_calls after_call AdmitsAll Admits
  calls-IsHeld key hash e p [] l a held = held
  calls-IsHeld key hash e p (gets server tool args now ∷ cs) l ((a, after, young), later) held =
      calls-IsHeld key hash e p cs _ later
        (layer_get-IsHeld lib b key hash e p l server tool args now a after young held)
  calls-IsHeld key hash e p (sets server tool args v ttl now ∷ cs) l ((n, m), later) held =
      calls-IsHeld key hash e p cs _ later
        (layer_set-IsHeld lib b key hash e l server tool args v ttl now n m held)

  IsHeld-IsFresh :
      (l : CacheLayer lib) (server tool : Text) (args : Args) (e : DiskEntry V) (later : ℕ)
      → 0 < e.ttl_ms
      → later - e.stored_at ≤ e.ttl_ms
      → IsHeld lib b (key_of lib b server tool args) (b.hash_args args) e l
      → IsFresh (layer_get lib b l server tool args later).1 e.value
  IsHeld-IsFresh l server tool args e later p young held =
      let key = key_of lib b server tool args in
      elim (Option-cases (lib.peek key l.lru.cache)) [
        | inl gone ↦ record {
          found = fresh lib b (disk_hit lib b e later);
          is_result =
              rw (layer_get-from_disk lib b l server tool args later gone)
                (from_disk-hit lib b _ key (b.hash_args args) later e held.file p young);
          same_value = refl;
          no_flag = refl;
        }
        | inr (c, here) ↦
            let copy : IsCopy lib b key (b.hash_args args) e (some c) =
              subst (IsCopy lib b key (b.hash_args args) e) here held.copy in
            record {
              found = fresh lib b (memory_hit lib b c later);
              is_result =
                  layer_get-from_memory lib b l server tool args later e.ttl_ms c here held.noted
                    (unpast lib b c.stored_at c.ttl_ms later (omega (arith, copy.1, copy.2, young)))
                    (omega (arith, copy.1, young));
              same_value = copy.0;
              no_flag = refl;
            }
      ]

  store-IsHeld-new :
      (l : CacheLayer lib) (server tool : Text) (args : Args) (v : V) (ttl now : ℕ)
      → IsHeld lib b
          (key_of lib b server tool args)
          (b.hash_args args)
          (record { value = v; stored_at = now; ttl_ms = ttl; server = server; tool = tool })
          (store lib b l server tool args v ttl now).0
  store-IsHeld-new l server tool args v ttl now = record {
    file = store-file lib b l server tool args v ttl now;
    noted = store-ttl lib b l server tool args v ttl now;
    copy = elim (store-entry lib b l server tool args v ttl now) [
      | inl gone ↦ rw gone tt
      | inr kept ↦ rw kept (refl, omega arith, omega arith)
    ];
  }

  -- A result that may be cached is served as a fresh one, with its value, from its `set` and until
  -- its time to live is over, whether or not the memory keeps it, also when other calls of the cache
  -- come in between: any number of `get`, each in that time, of this call or of calls with another
  -- key, and of `set` of calls with another key and another hash of the arguments. No rotation of the
  -- disk and no invalidation runs meanwhile.
  pub layer_set-after_calls :
      (l : CacheLayer lib) (server tool : Text) (args : Args) (v : V) (ttl : Option ℕ)
      (now later : ℕ) (calls : List (CacheCall V Args))
      → 0 < ttl_for lib b l server tool ttl
      → AdmitsAll
          (key_of lib b server tool args)
          (b.hash_args args)
          now
          (ttl_for lib b l server tool ttl)
          calls
      → later - now ≤ ttl_for lib b l server tool ttl
      → let l' = after_calls (layer_set lib b l server tool args v ttl now).0 calls in
        IsFresh (layer_get lib b l' server tool args later).1 v
  unfolding layer_set
  layer_set-after_calls l server tool args v ttl now later calls p a young =
      let n = ttl_for lib b l server tool ttl in
      let e : DiskEntry V = record {
        value = v;
        stored_at = now;
        ttl_ms = n;
        server = server;
        tool = tool;
      } in
      rw (nonzero lib b n p) (
        IsHeld-IsFresh _ server tool args e later p young (
          calls-IsHeld (key_of lib b server tool args) (b.hash_args args) e p calls
            (store lib b l server tool args v n now).0 a
            (store-IsHeld-new l server tool args v n now)))
