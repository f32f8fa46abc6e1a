-- ===== src/Cache/Delta.antt =====
-- src/cache/delta.ts for arrays. The items are of any type, with the text that `JSON.stringify`
-- gives for each as a parameter, and so are the sizes of the serialised delta and array. The first
-- test of `deepEqual`, `a === b`, needs no case of its own: equal values have equal texts.
pub mod Reconstruct
use mcp_conductor.Base.{
  ℕ, Bool, true, false, not, Option, none, some, List, [], ◌∷◌, Text, text_eq, any, keep, ltb,
  if◌then◌else◌,
}

-- `DeltaResult`, without the field of objects.
pub record DeltaResult {ℓ} (V : Type ℓ) : Type ℓ where
  pub unchanged : Bool
  pub added : Option (List V)
  pub removed : Option (List V)
  pub full : Option (List V)

module _ {ℓ} {V : Type ℓ} (stringify : V → Text) where
  -- `deepEqual`
  unfoldable pub deep_equal : V → V → Bool
  unfolding text_eq
  deep_equal a b = text_eq (stringify a) (stringify b)

  -- `items.some((p) => deepEqual(p, item))`
  unfoldable pub has_item : List V → V → Bool
  unfolding deep_equal any
  has_item items item = any (λ p. deep_equal p item) items

  -- A loop of `arrayDelta`: the items that are not among others.
  unfoldable pub missing_from : (others items : List V) → List V
  unfolding has_item keep
  missing_from others items = keep (λ item. not (has_item others item)) items

  -- `items.length > 0 ? items : undefined`
  abbrev pub unless_empty : List V → Option (List V)
  unless_empty [] = none
  unless_empty (x ∷ xs) = some (x ∷ xs)

  -- The delta that `arrayDelta` measures.
  unfoldable pub added_and_removed : (prev curr : List V) → DeltaResult V
  unfolding missing_from
  added_and_removed prev curr = record {
    unchanged = false;
    added = unless_empty (missing_from prev curr);
    removed = unless_empty (missing_from curr prev);
    full = none;
  }

  module _ (delta_size : DeltaResult V → ℕ) (full_size : List V → ℕ) where
    -- `shouldReturnFull`
    unfoldable pub should_return_full : DeltaResult V → List V → Bool
    should_return_full delta current = ltb (full_size current) (delta_size delta)

    -- `arrayDelta`
    unfoldable pub array_delta : (prev curr : List V) → DeltaResult V
    unfolding should_return_full added_and_removed
    array_delta prev curr =
        if should_return_full (added_and_removed prev curr) curr
        then record { unchanged = false; added = none; removed = none; full = some curr }
        else added_and_removed prev curr
