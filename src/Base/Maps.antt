-- ===== src/Base/Maps.antt =====
-- JavaScript's `Map` with string keys: its entries in insertion order. `set` on a key that is there
-- keeps the key's place.
use Prim.Native.Nat.{◌+◌, ◌≤◌, ◌<◌}
use mathlib.Core.Path.{◌≡◌, refl, ap}
use mathlib.Core.Logic.{inl, inr}
use mathlib.Core.Bool.{Bool, ◌&&◌}
use mathlib.Core.List.{List, [], ◌∷◌, map}
use mathlib.Core.Option.{Option, none, some}
use native.Mathlib.Omega.{arith}
use mcp_conductor.Base.Tests.{if◌then◌else◌, is_some}
use mcp_conductor.Base.Lists.{length, any, keep}
use mcp_conductor.Base.Strings.{Text, text_eq, text_eq_iff, text_eq-ne, Text-cases}

abbrev pub Dict {ℓ} : Type ℓ → Type ℓ
Dict V = List (Text × V)

module _ {ℓ} {V : Type ℓ} where
  -- `m.get(k)`
  unfoldable pub lookup : Text → Dict V → Option V
  lookup k [] = none
  lookup k ((j, v) ∷ m) = if text_eq j k then some v else lookup k m

  -- `m.set(k, v)`
  unfoldable pub insert : Text → V → Dict V → Dict V
  insert k v [] = (k, v) ∷ []
  insert k v ((j, w) ∷ m) = if text_eq j k then (j, v) ∷ m else (j, w) ∷ insert k v m

  -- `m.delete(k)`
  unfoldable pub remove : Text → Dict V → Dict V
  remove k [] = []
  remove k ((j, w) ∷ m) = if text_eq j k then remove k m else (j, w) ∷ remove k m

  -- The entries whose key and value pass a test.
  unfoldable pub keep_entries : (Text → V → Bool) → Dict V → Dict V
  keep_entries p [] = []
  keep_entries p ((j, v) ∷ m) = if p j v then (j, v) ∷ keep_entries p m else keep_entries p m

  -- No key stands twice.
  unfoldable pub Distinct : Dict V → Type ℓ
  Distinct [] = Unit
  Distinct ((k, v) ∷ m) = (lookup k m ≡ none) × Distinct m

  pub lookup-insert :
      (k j : Text) (v : V) (m : Dict V)
      → lookup j (insert k v m) ≡ (if text_eq k j then some v else lookup j m)
  unfolding lookup insert
  lookup-insert k j v [] = refl
  lookup-insert k j v ((i, w) ∷ m) =
      ground (arith, text_eq_iff k j, text_eq_iff i k, text_eq_iff i j, lookup-insert k j v m)

  pub lookup-remove :
      (k j : Text) (m : Dict V) → lookup j (remove k m) ≡ (if text_eq k j then none else lookup j m)
  unfolding lookup remove
  lookup-remove k j [] = ground arith
  lookup-remove k j ((i, w) ∷ m) =
      ground (arith, text_eq_iff k j, text_eq_iff i k, text_eq_iff i j, lookup-remove k j m)

  pub insert-Distinct : (k : Text) (v : V) (m : Dict V) → Distinct m → Distinct (insert k v m)
  unfolding lookup insert Distinct
  insert-Distinct k v [] d = (refl, tt)
  insert-Distinct k v ((i, w) ∷ m) d =
      ground
        (arith, text_eq_iff i k, text_eq_iff k i, lookup-insert k i v m, insert-Distinct k v m d.1)

  lookup-remove-none : (k j : Text) (m : Dict V) → lookup j m ≡ none → lookup j (remove k m) ≡ none
  lookup-remove-none k j m h = ground (arith, lookup-remove k j m)

  pub remove-Distinct : (k : Text) (m : Dict V) → Distinct m → Distinct (remove k m)
  unfolding remove Distinct
  remove-Distinct k [] d = d
  remove-Distinct k ((i, w) ∷ m) d =
      ground (arith, lookup-remove-none k i m d.0, remove-Distinct k m d.1)

  lookup-keep_none :
      (p : Text → V → Bool) (k : Text) (m : Dict V)
      → lookup k m ≡ none
      → lookup k (keep_entries p m) ≡ none
  unfolding lookup keep_entries
  lookup-keep_none p k [] h = refl
  lookup-keep_none p k ((j, v) ∷ m) h = ground (arith, lookup-keep_none p k m)

  pub keep_entries-Distinct :
      (p : Text → V → Bool) (m : Dict V) → Distinct m → Distinct (keep_entries p m)
  unfolding keep_entries Distinct
  keep_entries-Distinct p [] d = tt
  keep_entries-Distinct p ((j, v) ∷ m) d =
      ground (arith, lookup-keep_none p j m, keep_entries-Distinct p m d.1)

  -- `p` at the entry of a key.
  abbrev pub passing : (Text → V → Bool) → Text → Option V → Option V
  passing p k none = none
  passing p k (some v) = if p k v then some v else none

  pub lookup-keep_entries :
      (p : Text → V → Bool) (k : Text) (m : Dict V)
      → Distinct m
      → lookup k (keep_entries p m) ≡ passing p k (lookup k m)
  unfolding lookup keep_entries Distinct
  lookup-keep_entries p k [] d = refl
  lookup-keep_entries p k ((j, v) ∷ m) d =
      ground (arith, text_eq_iff j k, lookup-keep_none p j m d.0, lookup-keep_entries p k m d.1)

  pub length-insert : (k : Text) (v : V) (m : Dict V) → length (insert k v m) ≤ length m + 1
  unfolding insert
  length-insert k v [] = omega arith
  length-insert k v ((j, w) ∷ m) = ground (arith, length-insert k v m)

  pub length-insert-some :
      (k : Text) (v w : V) (m : Dict V) → lookup k m ≡ some w → length (insert k v m) ≡ length m
  unfolding insert lookup
  length-insert-some k v w [] h = ground arith
  length-insert-some k v w ((j, u) ∷ m) h = ground (arith, length-insert-some k v w m)

  pub length-remove : (k : Text) (m : Dict V) → length (remove k m) ≤ length m
  unfolding remove
  length-remove k [] = omega arith
  length-remove k ((j, w) ∷ m) = ground (arith, length-remove k m)

  pub length-remove-some :
      (k : Text) (v : V) (m : Dict V) → lookup k m ≡ some v → length (remove k m) < length m
  unfolding remove lookup
  length-remove-some k v [] h = ground arith
  length-remove-some k v ((j, w) ∷ m) h =
      ground (arith, length-remove-some k v m, length-remove k m)

  pub length-keep_entries :
      (p : Text → V → Bool) (m : Dict V) → length (keep_entries p m) ≤ length m
  unfolding keep_entries
  length-keep_entries p [] = omega arith
  length-keep_entries p ((j, w) ∷ m) = ground (arith, length-keep_entries p m)

  -- The keys of a map are those that it holds.
  pub keys-lookup :
      (k : Text) (m : Dict V) → any (text_eq k) (map (λ p. p.0) m) ≡ is_some (lookup k m)
  unfolding any lookup
  keys-lookup k [] = refl
  keys-lookup k ((j, e) ∷ m) = ground (arith, keys-lookup k m, text_eq_iff k j, text_eq_iff j k)

pub any-keep :
    (p : Text → Bool) (k : Text) (ks : List Text)
    → any (text_eq k) (keep p ks) ≡ (p k && any (text_eq k) ks)
unfolding any keep
any-keep p k [] = ground arith
any-keep p k (j ∷ ks) = elim (Text-cases k j) [
  | inl e ↦ ground (arith, any-keep p k ks, ap p e, text_eq_iff k j)
  | inr n ↦ ground (arith, any-keep p k ks, text_eq-ne k j n)
]
