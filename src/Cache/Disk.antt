-- ===== src/Cache/Disk.antt =====
-- src/cache/disk.ts. The directory is a map from the hash in a file's name to its contents, which
-- are an entry or do not decode to one; the size of an encoded entry is a parameter. Reads and
-- writes that fail for other reasons than a missing file are left out, but for the removals of an
-- invalidation that is not waited for (Cache.Layer). `rotate`, which `set` starts
-- and does not wait for, is a step of its own, on a directory that nothing else writes meanwhile; it
-- reads the files in the map's order.
pub mod Rotation
use mcp_conductor.Base.{
  ℕ, ◌+◌, ◌-◌, ◌*◌, ◌/◌, Bool, true, false, not, ◌&&◌, Option, none, some, List, [], ◌∷◌, ◌++◌,
  Text, codes, text_eq, starts_with, ends_with, Dict, lookup, insert, remove, length, ltb, leb,
  if◌then◌else◌,
}
use mcp_conductor.Cache.Lru.{Source, disk}

pub record DiskEntry (V : Type 0) : Type 0 where
  pub value : V
  pub stored_at : ℕ
  pub ttl_ms : ℕ
  pub server : Text
  pub tool : Text

-- What a file decodes to, by `isValidDiskEntry`.
pub data File (V : Type 0) : Type 0 where
  valid : DiskEntry V → File V
  malformed : File V

pub record DiskCacheHit (V : Type 0) : Type 0 where
  pub value : V
  pub stored_at : ℕ
  pub source : Source
  pub staleness : ℕ
  pub ttl_ms : ℕ

pub record DiskCache (V : Type 0) : Type 0 where
  pub files : Dict (File V)
  pub max_disk_bytes : ℕ
  pub hits : ℕ
  pub misses : ℕ
  pub bytes_on_disk : ℕ

-- What a scan removes: the files left, the number and the bytes of those removed.
pub record Scan (V : Type 0) : Type 0 where
  pub left : Dict (File V)
  pub count : ℕ
  pub bytes : ℕ

pub record RotationEntry : Type 0 where
  pub file : Text
  pub stored_at : ℕ
  pub size : ℕ

abbrev pub insert_entry : RotationEntry → List RotationEntry → List RotationEntry
insert_entry e [] = e ∷ []
insert_entry e (x ∷ xs) = if leb e.stored_at x.stored_at then e ∷ x ∷ xs else x ∷ insert_entry e xs

-- `entries.sort((a, b) => a.storedAt - b.storedAt)`, which keeps the order of equal times.
unfoldable pub sort_entries : List RotationEntry → List RotationEntry
sort_entries [] = []
sort_entries (e ∷ es) = insert_entry e (sort_entries es)

-- The key that `invalidateByPrefix` compares.
abbrev pub entry_key : (server tool : Text) → Text
entry_key server tool = server ++ codes ":" ++ tool

-- `s.slice(0, -1)`
unfoldable pub without_last : Text → Text
without_last [] = []
without_last (c ∷ []) = []
without_last (c ∷ d ∷ s) = c ∷ without_last (d ∷ s)

unfoldable pub normalized_prefix : Text → Text
unfolding ends_with without_last
normalized_prefix prefix = if ends_with prefix (codes ":") then without_last prefix else prefix

module _ {V : Type 0} where
  -- `get` on what is in the file.
  unfoldable pub read_file :
      DiskCache V → (now : ℕ) → Option (File V) → DiskCache V × Option (DiskCacheHit V)
  read_file d now (some (valid e)) = (
    record d { hits = d.hits + 1 },
    some (record {
      value = e.value;
      stored_at = e.stored_at;
      source = disk;
      staleness = now - e.stored_at;
      ttl_ms = e.ttl_ms;
    }),
  )
  read_file d now _ = (record d { misses = d.misses + 1 }, none)

  -- `get`
  unfoldable pub disk_get :
      DiskCache V → (args_hash : Text) (now : ℕ) → DiskCache V × Option (DiskCacheHit V)
  unfolding read_file
  disk_get d args_hash now = read_file d now (lookup args_hash d.files)

  module _ (encoded_size : DiskEntry V → ℕ) where
    -- `set`, and whether it starts a rotation.
    unfoldable pub disk_set : DiskCache V → (args_hash : Text) → DiskEntry V → DiskCache V × Bool
    disk_set d args_hash entry =
        let bytes = d.bytes_on_disk + encoded_size entry in
        (
          record d { files = insert args_hash (valid entry) d.files; bytes_on_disk = bytes },
          ltb d.max_disk_bytes bytes,
        )

    -- The size of a file; that of one which does not decode is not known here.
    abbrev pub size_of : (malformed_size : ℕ) → File V → ℕ
    size_of n (valid e) = encoded_size e
    size_of n malformed = n

    -- `delete`
    unfoldable pub disk_delete :
        (malformed_size : ℕ) → DiskCache V → (args_hash : Text) → DiskCache V × Bool
    disk_delete n d args_hash = elim (lookup args_hash d.files) [
      | none ↦ (d, false)
      | some file ↦ (
        record d {
          files = remove args_hash d.files;
          bytes_on_disk = d.bytes_on_disk - size_of n file;
        },
        true,
      )
    ]

    -- `scanAndDelete`: files that do not decode are skipped.
    unfoldable pub scan_and_delete : (DiskEntry V → Bool) → Dict (File V) → Scan V
    scan_and_delete matches [] = record { left = []; count = 0; bytes = 0 }
    scan_and_delete matches ((h, malformed) ∷ files) =
        let rest = scan_and_delete matches files in
        record rest { left = (h, malformed) ∷ rest.left }
    scan_and_delete matches ((h, valid e) ∷ files) =
        let rest = scan_and_delete matches files in
        if matches e
        then record rest { count = rest.count + 1; bytes = rest.bytes + encoded_size e }
        else record rest { left = (h, valid e) ∷ rest.left }

    unfoldable pub delete_all_matching : DiskCache V → (DiskEntry V → Bool) → DiskCache V × ℕ
    unfolding scan_and_delete
    delete_all_matching d matches =
        let scan = scan_and_delete matches d.files in
        (record d { files = scan.left; bytes_on_disk = d.bytes_on_disk - scan.bytes }, scan.count)

    -- `invalidateByPrefix`
    unfoldable pub disk_invalidate : DiskCache V → (prefix : Text) → DiskCache V × ℕ
    unfolding delete_all_matching normalized_prefix starts_with
    disk_invalidate d prefix =
        delete_all_matching d
          (λ e. starts_with (entry_key e.server e.tool) (normalized_prefix prefix))

    -- `invalidateServer`
    unfoldable pub invalidate_server : DiskCache V → (server : Text) → DiskCache V × ℕ
    unfolding delete_all_matching text_eq
    invalidate_server d server = delete_all_matching d (λ e. text_eq e.server server)

    -- `clear`
    unfoldable pub disk_clear : DiskCache V → DiskCache V
    unfolding scan_and_delete
    disk_clear d = record d {
      files = (scan_and_delete (λ e. true) d.files).left;
      bytes_on_disk = 0;
    }

    -- The entries that `rotate` collects: a file's name, when it was stored, its size.
    unfoldable pub collect : Dict (File V) → List RotationEntry
    collect [] = []
    collect ((h, malformed) ∷ files) = collect files
    collect ((h, valid e) ∷ files) =
        (record { file = h; stored_at = e.stored_at; size = encoded_size e }) ∷ collect files

  -- The loop of `rotate` that removes files.
  unfoldable pub free_entries : (to_free freed : ℕ) → DiskCache V → List RotationEntry → DiskCache V
  free_entries to_free freed d [] = d
  free_entries to_free freed d (e ∷ es) = elim (leb to_free freed) [
    | true ↦ d
    | false ↦
        free_entries to_free (freed + e.size)
          (record d { files = remove e.file d.files; bytes_on_disk = d.bytes_on_disk - e.size }) es
  ]

  -- `Math.floor(this.maxDiskBytes * ROTATION_TARGET_RATIO)`
  abbrev pub rotation_target : DiskCache V → ℕ
  rotation_target d = d.max_disk_bytes * 4 / 5

  -- `rotate`
  unfoldable pub rotate : (encoded_size : DiskEntry V → ℕ) → DiskCache V → DiskCache V
  unfolding collect sort_entries free_entries
  rotate encoded_size d =
      let target = rotation_target d in
      if leb d.bytes_on_disk target
      then d
      else free_entries (d.bytes_on_disk - target) 0 d (sort_entries (collect encoded_size d.files))
