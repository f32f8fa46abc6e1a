-- ===== src/Daemon/SharedKv.antt =====
-- src/daemon/shared-kv.ts. The values are of any type. `JSON.stringify` and `JSON.parse` on
-- snapshots, the type of the texts they write and read, and whether the file system takes a write
-- are parameters; the file is its text, if there is one. The sweep of the timer is one step at a given time.
pub mod View
pub mod Persistence
use mcp_conductor.Base.{
  ℕ, zero, suc, ◌+◌, Bool, true, false, not, ◌&&◌, ◌||◌, Option, none, some, List, [], ◌∷◌, ◌++◌,
  Text, text_eq, starts_with, length, Dict, lookup, insert, remove, keep_entries, ltb, leb, ◌==◌,
  is_some, if◌then◌else◌,
}

-- `entry.expiresAt !== undefined && now > entry.expiresAt`
unfoldable pub has_expired : Option ℕ → (now : ℕ) → Bool
has_expired none now = false
has_expired (some t) now = ltb t now

-- `Date.now() + options.ttl` for a ttl that is given and positive.
unfoldable pub expiry : Option ℕ → (now : ℕ) → Option ℕ
expiry none now = none
expiry (some ttl) now = if ltb 0 ttl then some (now + ttl) else none

-- `prefix === undefined || k.startsWith(prefix)`
unfoldable pub matches : Option Text → Text → Bool
matches none k = true
matches (some prefix) k = starts_with k prefix

module _ {ℓ} where
  pub record KvEntry (V : Type ℓ) : Type ℓ where
    pub value : V
    pub expires_at : Option ℕ

  pub record KvSnapshot (V : Type ℓ) : Type ℓ where
    pub version : ℕ
    pub entries : Dict (KvEntry V)

  pub record SharedKv (V : Type ℓ) : Type ℓ where
    pub store : Dict (KvEntry V)
    pub dirty : Bool

module _ {ℓ} {V : Type ℓ} where
  -- The rest of `get` on the entry that was found.
  unfoldable pub get_entry :
      SharedKv V → (key : Text) (now : ℕ) → Option (KvEntry V) → SharedKv V × Option V
  get_entry kv key now none = (kv, none)
  get_entry kv key now (some entry) =
      if has_expired entry.expires_at now
      then (record kv { store = remove key kv.store; dirty = true }, none)
      else (kv, some entry.value)

  unfoldable pub get : SharedKv V → (key : Text) (now : ℕ) → SharedKv V × Option V
  unfolding get_entry
  get kv key now = get_entry kv key now (lookup key kv.store)

  unfoldable pub set : SharedKv V → (key : Text) → V → (ttl : Option ℕ) (now : ℕ) → SharedKv V
  unfolding expiry
  set kv key value ttl now = record {
    store = insert key (record { value = value; expires_at = expiry ttl now }) kv.store;
    dirty = true;
  }

  -- `delete`
  unfoldable pub delete_key : SharedKv V → (key : Text) → SharedKv V
  delete_key kv key = record {
    store = remove key kv.store;
    dirty = if is_some (lookup key kv.store) then true else kv.dirty;
  }

  -- The loop of `list`.
  unfoldable pub live_keys : Dict (KvEntry V) → (prefix : Option Text) (now : ℕ) → List Text
  unfolding matches
  live_keys [] prefix now = []
  live_keys ((k, entry) ∷ rest) prefix now =
      let keys = live_keys rest prefix now in
      if has_expired entry.expires_at now then keys else if matches prefix k then k ∷ keys else keys

  -- `clear`
  unfoldable pub clear : SharedKv V → Option Text → SharedKv V
  clear kv none = record { store = []; dirty = true }
  clear kv (some prefix) = record {
    store = keep_entries (λ k e. not (starts_with k prefix)) kv.store;
    dirty = true;
  }

  -- `entry.expiresAt === undefined || now <= entry.expiresAt`
  abbrev pub is_live : ℕ → Text → KvEntry V → Bool
  is_live now k entry = not (has_expired entry.expires_at now)

  -- `evictExpired`
  unfoldable pub evict_expired : SharedKv V → (now : ℕ) → SharedKv V
  evict_expired kv now = record {
    store = keep_entries (is_live now) kv.store;
    dirty =
        if length (keep_entries (is_live now) kv.store) == length kv.store then kv.dirty else true;
  }

-- The order of `sort` on strings.
unfoldable pub text_le : Text → Text → Bool
text_le [] b = true
text_le (x ∷ a) [] = false
text_le (x ∷ a) (y ∷ b) = if x == y then text_le a b else ltb x y

unfoldable pub insert_sorted : Text → List Text → List Text
unfolding text_le
insert_sorted k [] = k ∷ []
insert_sorted k (j ∷ js) = if text_le k j then k ∷ j ∷ js else j ∷ insert_sorted k js

unfoldable pub sort : List Text → List Text
unfolding insert_sorted
sort [] = []
sort (k ∷ ks) = insert_sorted k (sort ks)

module _ {ℓ} {V : Type ℓ} where
  unfoldable pub list_keys : SharedKv V → (prefix : Option Text) (now : ℕ) → List Text
  unfolding sort live_keys
  list_keys kv prefix now = sort (live_keys kv.store prefix now)

  module _ {Raw : Type ℓ} (stringify : KvSnapshot V → Raw) where
    -- `flushToDisk`: the store and the file, which a failed write leaves as it was.
    unfoldable pub flush_to_disk :
        SharedKv V → (now : ℕ) (file : Option Raw) (succeeds : Bool) → SharedKv V × Option Raw
    flush_to_disk kv now file false = (kv, file)
    flush_to_disk kv now file true = (
      record kv { dirty = false },
      some (stringify (record { version = 1; entries = keep_entries (is_live now) kv.store })),
    )

    -- A round of the sweep timer.
    unfoldable pub sweep :
        SharedKv V → (now : ℕ) (file : Option Raw) (succeeds : Bool) → SharedKv V × Option Raw
    unfolding evict_expired flush_to_disk
    sweep kv now file succeeds =
        let kv' = evict_expired kv now in
        if kv'.dirty then flush_to_disk kv' now file succeeds else (kv', file)

    -- `shutdown`
    unfoldable pub shutdown :
        SharedKv V → (now : ℕ) (file : Option Raw) (succeeds : Bool) → SharedKv V × Option Raw
    shutdown kv now file succeeds = flush_to_disk (evict_expired kv now) now file succeeds

  module _ {Raw : Type ℓ} (parse : Raw → Option (KvSnapshot V)) where
    -- `loadFromDisk` once the text is parsed.
    unfoldable pub load_snapshot : Option (KvSnapshot V) → (now : ℕ) → Dict (KvEntry V)
    load_snapshot none now = []
    load_snapshot (some snapshot) now =
        if snapshot.version == 1 then keep_entries (is_live now) snapshot.entries else []

    -- `loadFromDisk`: the entries of a new store. A text that is no snapshot gives none.
    unfoldable pub load_from_disk : Option Raw → (now : ℕ) → Dict (KvEntry V)
    unfolding load_snapshot
    load_from_disk none now = []
    load_from_disk (some raw) now = load_snapshot (parse raw) now

    -- The constructor.
    unfoldable pub new_kv : (file : Option Raw) (now : ℕ) (skip_load : Bool) → SharedKv V
    unfolding load_from_disk
    new_kv file now skip_load = record {
      store = if skip_load then [] else load_from_disk file now;
      dirty = false;
    }
