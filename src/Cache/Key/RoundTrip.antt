-- ===== src/Cache/Key/RoundTrip.antt =====
-- Keys of src/cache/key.ts to text and back.
use mcp_conductor.Base.{
  index_of, last_index_of, take, drop, ℕ, suc, ◌-◌, ◌<◌, ◌≡◌, refl, sym, ap, ◌∙◌, false, Option,
  none, some, ◌∷◌, ◌++◌, Text, length, length-append, arith,
}
use mathlib.Core.List.{append_assoc}
use mcp_conductor.Cache.Key.{
  CacheKey, colon, cache_key_to_string, substring, is_empty, checked_key, parse_at, parse_cache_key,
}
use mcp_conductor.Cache.Key.Slices.{
  index_of-append, last_index_of-append, take-append, take_all, drop_past, index_of-drop,
  last_index_of-drop, take-drop, drop-drop, take_enough, length-drop,
}

module _ (a t h : Text) (c : ℕ) where
  whole_split : a ++ c ∷ (t ++ c ∷ h) ≡ (a ++ c ∷ t) ++ c ∷ h
  whole_split = sym (append_assoc a (c ∷ t) (c ∷ h))

  first_part : substring (a ++ c ∷ (t ++ c ∷ h)) 0 (length a) ≡ a
  unfolding drop
  first_part =
      let n : length a - 0 ≡ length a = omega arith in rw n (take-append a (c ∷ (t ++ c ∷ h)))

  second_part : substring (a ++ c ∷ (t ++ c ∷ h)) (suc (length a)) (length (a ++ c ∷ t)) ≡ t
  second_part =
      let n : length (a ++ c ∷ t) - suc (length a) ≡ length t =
        omega (arith, length-append a (c ∷ t)) in
      rw (drop_past a (t ++ c ∷ h) c, n) (take-append t (c ∷ h))

  third_part :
      let whole = a ++ c ∷ (t ++ c ∷ h) in
      substring whole (suc (length (a ++ c ∷ t))) (length whole) ≡ h
  third_part =
      let n : length ((a ++ c ∷ t) ++ c ∷ h) - suc (length (a ++ c ∷ t)) ≡ length h =
        omega (arith, length-append (a ++ c ∷ t) (c ∷ h)) in
      rw (whole_split, drop_past (a ++ c ∷ t) h c, n) (take_all h)

parse_at-parts :
    (a t h : Text)
    → is_empty a ≡ false
    → is_empty t ≡ false
    → length h ≡ 64
    → parse_at (a ++ colon ∷ (t ++ colon ∷ h)) (some (length a)) (some (length (a ++ colon ∷ t)))
      ≡ some (record { server = a; tool = t; args_hash = h })
unfolding parse_at checked_key
parse_at-parts a t h ea et eh =
    rw (first_part a t h colon, second_part a t h colon, third_part a t h colon)
      (ground (arith, length-append a (colon ∷ t)))

-- A key whose server is not empty and has no colon, whose tool is not empty, and whose hash is of 64
-- characters and has no colon, is read back from its text; the tool may have colons.
pub parse_cache_key-cache_key_to_string :
    (key : CacheKey)
    → is_empty key.server ≡ false
    → is_empty key.tool ≡ false
    → length key.args_hash ≡ 64
    → index_of colon key.server ≡ none
    → index_of colon key.args_hash ≡ none
    → parse_cache_key (cache_key_to_string key) ≡ some key
unfolding parse_cache_key cache_key_to_string
parse_cache_key-cache_key_to_string key es et eh cs ch =
    let a = key.server in
    let t = key.tool in
    let h = key.args_hash in
    let first = index_of-append colon a (t ++ colon ∷ h) cs in
    let last : last_index_of colon (a ++ colon ∷ (t ++ colon ∷ h))
        ≡ some (length (a ++ colon ∷ t)) =
      rw (whole_split a t h colon) (last_index_of-append colon (a ++ colon ∷ t) h ch) in
    rw (first, last) (parse_at-parts a t h es et eh)

-- The text between two colons and around them.
around_colons :
    (c i j : ℕ) (s : Text)
    → i < j
    → drop i s ≡ c ∷ drop (suc i) s
    → drop j s ≡ c ∷ drop (suc j) s
    → substring s 0 i ++ c ∷ (substring s (suc i) j ++ c ∷ substring s (suc j) (length s)) ≡ s
unfolding drop
around_colons c i j s lt first last =
    let n : i - 0 ≡ i = omega arith in
    let rest = drop (suc i) s in
    let end : substring s (suc j) (length s) ≡ drop (suc j) s =
      take_enough (length s - suc j) (drop (suc j) s) (length-drop (suc j) s) in
    let tail : drop (j - suc i) rest ≡ c ∷ drop (suc j) s =
      drop-drop (suc i) (j - suc i) j s (omega arith) ∙ last in
    let middle : take (j - suc i) rest ++ c ∷ drop (suc j) s ≡ rest =
      ap (λ u. take (j - suc i) rest ++ u) (sym tail) ∙ take-drop (j - suc i) rest in
    rw (n, end, middle, sym first) (take-drop i s)

checked_key-parts :
    (server tool args_hash : Text) (key : CacheKey)
    → checked_key server tool args_hash ≡ some key
    → (key.server ≡ server)
      × (key.tool ≡ tool)
      × (key.args_hash ≡ args_hash)
      × (is_empty server ≡ false)
      × (is_empty tool ≡ false)
      × (length args_hash ≡ 64)
unfolding checked_key
checked_key-parts server tool args_hash key h = ground arith

parse_at-guard :
    (s : Text) (i j : ℕ) (key : CacheKey)
    → parse_at s (some i) (some j) ≡ some key
    → (i < j)
      × (checked_key (substring s 0 i) (substring s (suc i) j) (substring s (suc j) (length s))
          ≡ some key)
unfolding parse_at
parse_at-guard s i j key h = ground arith

parse_at-text :
    (s : Text) (o p : Option ℕ) (key : CacheKey)
    → index_of colon s ≡ o
    → last_index_of colon s ≡ p
    → parse_at s o p ≡ some key
    → (cache_key_to_string key ≡ s)
      × (is_empty key.server ≡ false)
      × (is_empty key.tool ≡ false)
      × (length key.args_hash ≡ 64)
unfolding parse_at cache_key_to_string
parse_at-text s none p key e f h = ground arith
parse_at-text s (some i) none key e f h = ground arith
parse_at-text s (some i) (some j) key e f h =
    let (lt, checked) = parse_at-guard s i j key h in
    let parts =
      checked_key-parts (substring s 0 i) (substring s (suc i) j) (substring s (suc j) (length s))
        key checked in
    let whole =
      around_colons colon i j s lt (index_of-drop colon s i e) (last_index_of-drop colon s j f) in
    (
      rw (parts.0, parts.1, parts.2) whole,
      rw (parts.0) parts.3,
      rw (parts.1) parts.4,
      rw (parts.2) parts.5,
    )

-- Whatever text is read as a key is the text of that key, whose server and tool are not empty and
-- whose hash is of 64 characters.
pub parse_cache_key-text :
    (s : Text) (key : CacheKey)
    → parse_cache_key s ≡ some key
    → (cache_key_to_string key ≡ s)
      × (is_empty key.server ≡ false)
      × (is_empty key.tool ≡ false)
      × (length key.args_hash ≡ 64)
unfolding parse_cache_key
parse_cache_key-text s key h =
    parse_at-text s (index_of colon s) (last_index_of colon s) key refl refl h
