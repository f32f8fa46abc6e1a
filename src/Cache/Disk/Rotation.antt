-- ===== src/Cache/Disk/Rotation.antt =====
-- What the rotation of src/cache/disk.ts leaves on the disk.
use mcp_conductor.Base.{
  ℕ, ◌+◌, ◌-◌, ◌≤◌, ◌≡◌, refl, List, [], ◌∷◌, sum, map, leb, arith, Bool-cases, inl, inr,
}
use mcp_conductor.Cache.Disk.{
  DiskEntry, DiskCache, RotationEntry, insert_entry, sort_entries, collect, free_entries,
  rotation_target, rotate,
}

abbrev pub total_size : List RotationEntry → ℕ
total_size es = sum (map (λ e. e.size) es)

total_size-insert_entry :
    (e : RotationEntry) (es : List RotationEntry)
    → total_size (insert_entry e es) ≡ e.size + total_size es
total_size-insert_entry e [] = refl
total_size-insert_entry e (x ∷ xs) = ground (arith, total_size-insert_entry e xs)

total_size-sort_entries : (es : List RotationEntry) → total_size (sort_entries es) ≡ total_size es
unfolding sort_entries
total_size-sort_entries [] = refl
total_size-sort_entries (e ∷ es) =
    omega (arith, total_size-sort_entries es, total_size-insert_entry e (sort_entries es))

-- Each entry was stored no later than those after it.
unfoldable pub IsSorted : List RotationEntry → Type 0
IsSorted [] = Unit
IsSorted (e ∷ []) = Unit
IsSorted (e ∷ x ∷ xs) = (e.stored_at ≤ x.stored_at) × IsSorted (x ∷ xs)

insert_entry-IsSorted :
    (e : RotationEntry) (es : List RotationEntry) → IsSorted es → IsSorted (insert_entry e es)
unfolding IsSorted
insert_entry-IsSorted e [] s = tt
insert_entry-IsSorted e (x ∷ []) s = ground arith
insert_entry-IsSorted e (x ∷ y ∷ xs) s = ground (arith, insert_entry-IsSorted e (y ∷ xs) s.1)

-- The rotation goes from the entry stored first to the one stored last.
pub sort_entries-IsSorted : (es : List RotationEntry) → IsSorted (sort_entries es)
unfolding sort_entries IsSorted
sort_entries-IsSorted [] = tt
sort_entries-IsSorted (e ∷ es) =
    insert_entry-IsSorted e (sort_entries es) (sort_entries-IsSorted es)

module _ {V : Type 0} where
  free_entries-bytes :
      (to_free freed target : ℕ) (d : DiskCache V) (es : List RotationEntry)
      → d.bytes_on_disk ≤ target + (to_free - freed)
      → to_free ≤ freed + total_size es
      → (free_entries to_free freed d es).bytes_on_disk ≤ target
  unfolding free_entries
  free_entries-bytes to_free freed target d [] h n = omega arith
  free_entries-bytes to_free freed target d (e ∷ es) h n = elim (Bool-cases (leb to_free freed)) [
    | inl p ↦ rw (free_entries, p) (ground arith)
    | inr p ↦
        rw (free_entries, p)
          (free_entries-bytes to_free (freed + e.size) target
            (record d { files = _; bytes_on_disk = d.bytes_on_disk - e.size }) es (ground arith)
            (omega arith))
  ]

  -- A rotation takes the count of bytes down to four fifths of the limit, if the valid entries on the
  -- disk are together at least as large as the excess.
  pub rotate-bytes :
      (encoded_size : DiskEntry V → ℕ) (d : DiskCache V)
      → d.bytes_on_disk ≤ rotation_target d + total_size (collect encoded_size d.files)
      → (rotate encoded_size d).bytes_on_disk ≤ rotation_target d
  unfolding rotate
  rotate-bytes encoded_size d h = elim (Bool-cases (leb d.bytes_on_disk (rotation_target d))) [
    | inl p ↦ rw p (ground arith)
    | inr p ↦ rw p (
        free_entries-bytes (d.bytes_on_disk - rotation_target d) 0 (rotation_target d) d
          (sort_entries (collect encoded_size d.files)) (omega arith)
          (omega (arith, h, total_size-sort_entries (collect encoded_size d.files))))
  ]
