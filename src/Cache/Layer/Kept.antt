-- ===== src/Cache/Layer/Kept.antt =====
-- How long src/cache/cache.ts serves a result that was stored, while other calls of the cache come in
-- between.
use mcp_conductor.Base.{
  ℕ, ◌+◌, ◌-◌, ◌≤◌, ◌≡◌, refl, ◌∙◌, ◌⊎◌, inl, inr, max, Bool, true, false, Option, none, some, Text,
  text_eq, text_eq_iff, text_eq_refl, lookup, lookup-insert, lookup-remove, arith, if◌then◌else◌,
  Option-cases, Bool-cases, text_eq-ne, ltb, not,
}
use mcp_conductor.Cache.Lru.{
  LruCache, LruEntry, is_past, lru_get, lru_delete, hit_or_miss, MemoryLru,
}
use mcp_conductor.Cache.Lru.View.{lru_set-peek}
use mcp_conductor.Cache.Disk.{
  DiskCache, File, malformed, DiskEntry, DiskCacheHit, valid, disk_get, disk_delete, read_file,
}
use mcp_conductor.Cache.Layer.{
  CacheLayer, Backing, ExtendedCacheHit, fresh, stale, as_hit, promote, entry_ttl, miss, after_disk,
}
use mcp_conductor.Cache.Layer.Revival.{remaining_ttl}

module _ {V Args : Type 0} (lib : LruCache (LruEntry V)) (b : Backing V Args) where
  -- A memory operation that takes entries away at most.
  abbrev pub Less : MemoryLru lib → MemoryLru lib → Text → Type 0
  Less m m' k = (lib.peek k m'.cache ≡ none) ⊎ (lib.peek k m'.cache ≡ lib.peek k m.cache)

  pub lru_delete-Less : (m : MemoryLru lib) (j k : Text) → Less m (lru_delete lib m j).0 k
  unfolding lru_delete
  lru_delete-Less m j k = elim (Bool-cases (text_eq j k)) [
    | inl e ↦ inl (lib.delete-peek j k m.cache ∙ rw e refl)
    | inr e ↦ inr (lib.delete-peek j k m.cache ∙ rw e refl)
  ]

  hit_or_miss-Less :
      (m : MemoryLru lib) (j k : Text) (now : ℕ) (o : Option (LruEntry V))
      → Less m (hit_or_miss lib m j now o).0 k
  unfolding hit_or_miss
  hit_or_miss-Less m j k now none = inr refl
  hit_or_miss-Less m j k now (some p) = elim (Bool-cases (is_past p.stored_at p.ttl_ms now)) [
    | inl e ↦ rw e (lru_delete-Less m j k)
    | inr e ↦ rw e (inr refl)
  ]

  pub lru_get-Less : (m : MemoryLru lib) (j k : Text) (now : ℕ) → Less m (lru_get lib m j now).0 k
  unfolding lru_get
  lru_get-Less m j k now =
      elim (hit_or_miss-Less (record m { cache = (lib.get j m.cache).0 }) j k now
        (lib.get j m.cache).1) [
          | inl gone ↦ inl gone
          | inr same ↦ inr (same ∙ lib.get-peek j k m.cache)
        ]

  read_file-files :
      (d : DiskCache V) (now : ℕ) (o : Option (File V)) → (read_file d now o).0.files ≡ d.files
  unfolding read_file
  read_file-files d now none = refl
  read_file-files d now (some malformed) = refl
  read_file-files d now (some (valid x)) = refl

  disk_get-files : (d : DiskCache V) (h : Text) (now : ℕ) → (disk_get d h now).0.files ≡ d.files
  unfolding disk_get
  disk_get-files d h now = read_file-files d now (lookup h d.files)

  module _ (key hash : Text) (e : DiskEntry V) where
    -- A copy in the memory that is not past before the file is.
    abbrev pub IsCopy : Option (LruEntry V) → Type 0
    IsCopy none = Unit
    IsCopy (some p) =
        (p.value ≡ e.value)
        × (e.stored_at ≤ p.stored_at)
        × (e.stored_at + e.ttl_ms ≤ p.stored_at + p.ttl_ms)

    -- The result is in its file, and what the memory has of it is a copy.
    pub record IsHeld (l : CacheLayer lib) : Type 0 where
      pub file : lookup hash l.disk.files ≡ some (valid e)
      pub noted : lookup key l.ttl_map ≡ some e.ttl_ms
      pub copy : IsCopy (lib.peek key l.lru.cache)

    Less-IsCopy :
        (m m' : MemoryLru lib)
        → Less m m' key
        → IsCopy (lib.peek key m.cache)
        → IsCopy (lib.peek key m'.cache)
    Less-IsCopy m m' (inl gone) c = rw gone tt
    Less-IsCopy m m' (inr same) c = rw same c

    pub Less-IsHeld :
        (l : CacheLayer lib) (m : MemoryLru lib)
        → Less l.lru m key
        → IsHeld l
        → IsHeld (record l { lru = m })
    Less-IsHeld l m le h = record {
      file = h.file;
      noted = h.noted;
      copy = Less-IsCopy l.lru m le h.copy;
    }

    pub either-IsHeld :
        {R : Type 0} (test : Bool) (r s : CacheLayer lib × R)
        → IsHeld r.0
        → IsHeld s.0
        → IsHeld (if test then r else s).0
    either-IsHeld true r s h k = h
    either-IsHeld false r s h k = k

    -- A promotion to another key.
    pub promote-IsHeld :
        (l : CacheLayer lib) (j : Text) (v : V) (remaining ttl now : ℕ)
        → ¬ (j ≡ key)
        → IsHeld l
        → IsHeld (promote lib b l j v remaining ttl now)
    unfolding promote
    promote-IsHeld l j v remaining ttl now n h = record {
      file = h.file;
      noted = ground (arith, lookup-insert j key ttl l.ttl_map, text_eq_iff j key, h.noted);
      copy = elim (lru_set-peek lib b.estimate_bytes l.lru j key v remaining now) [
        | inl gone ↦ rw gone tt
        | inr same ↦ rw (same, text_eq-ne j key n) h.copy
      ];
    }

    -- A promotion of the file itself.
    pub promote-own-IsHeld :
        (l : CacheLayer lib) (now : ℕ)
        → e.stored_at ≤ now
        → IsHeld l
        → IsHeld (promote lib b l key e.value (remaining_ttl e.stored_at e.ttl_ms now) e.ttl_ms now)
    unfolding promote
    promote-own-IsHeld l now after h = record {
      file = h.file;
      noted = ground (arith, lookup-insert key key e.ttl_ms l.ttl_map, text_eq_refl key);
      copy =
          elim (lru_set-peek lib b.estimate_bytes l.lru key key e.value
            (remaining_ttl e.stored_at e.ttl_ms now) now) [
              | inl gone ↦ rw gone tt
              | inr same ↦ rw (same, text_eq_refl key) (refl, after, omega arith)
            ];
    }

    delete-file :
        (d : DiskCache V) (h : Text)
        → ¬ (h ≡ hash)
        → lookup hash d.files ≡ some (valid e)
        → lookup hash (disk_delete b.encoded_size b.malformed_size d h).0.files ≡ some (valid e)
    unfolding disk_delete
    delete-file d h n f = elim (Option-cases (lookup h d.files)) [
      | inl gone ↦ rw (gone, disk_delete) f
      | inr (x, there) ↦
          rw (there, disk_delete) (lookup-remove h hash d.files ∙ rw (text_eq-ne h hash n) f)
    ]

    delete-IsHeld :
        (l : CacheLayer lib) (h : Text)
        → ¬ (h ≡ hash)
        → IsHeld l
        → IsHeld (record l { disk = (disk_delete b.encoded_size b.malformed_size l.disk h).0 })
    delete-IsHeld l h n held = record {
      file = delete-file l.disk h n held.file;
      noted = held.noted;
      copy = held.copy;
    }

    miss-IsHeld : (l : CacheLayer lib) → IsHeld l → IsHeld (miss lib b l).0
    unfolding miss
    miss-IsHeld l held = record { file = held.file; noted = held.noted; copy = held.copy }

    -- `get` for another key and another file, from the answer of the disk on.
    pub after_disk-IsHeld :
        (l : CacheLayer lib) (j h : Text) (now : ℕ) (o : Option (DiskCacheHit V))
        → ¬ (j ≡ key)
        → ¬ (h ≡ hash)
        → IsHeld l
        → IsHeld (after_disk lib b l j h now o).0
    unfolding after_disk
    after_disk-IsHeld l j h now none n m held = miss-IsHeld l held
    after_disk-IsHeld l j h now (some d) n m held =
        let ttl = entry_ttl lib b l j d in
        let left = if ltb 0 ttl then max 1 (ttl - (now - d.stored_at)) else 0 in
        let deleted = record l {
          disk = (disk_delete b.encoded_size b.malformed_size l.disk h).0;
        } in
        let renewed : CacheLayer lib × Option (ExtendedCacheHit V) = (
          promote lib b l j d.value (max 1 ttl) ttl now,
          some (stale lib b l j (as_hit lib b d)),
        ) in
        either-IsHeld (not (is_past d.stored_at ttl now))
          (promote lib b l j d.value left ttl now, some (fresh lib b (as_hit lib b d)))
          (if l.stale_while_revalidate then renewed else miss lib b deleted)
          (promote-IsHeld l j d.value left ttl now n held)
          (either-IsHeld l.stale_while_revalidate renewed (miss lib b deleted)
            (promote-IsHeld l j d.value (max 1 ttl) ttl now n held)
            (miss-IsHeld deleted (delete-IsHeld l h m held)))

    pub disk_get-IsHeld :
        (l : CacheLayer lib) (h : Text) (now : ℕ)
        → IsHeld l
        → IsHeld (record l { disk = (disk_get l.disk h now).0 })
    disk_get-IsHeld l h now held = record {
      file = rw (disk_get-files l.disk h now) held.file;
      noted = held.noted;
      copy = held.copy;
    }
