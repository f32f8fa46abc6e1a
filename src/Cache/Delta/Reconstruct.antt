-- ===== src/Cache/Delta/Reconstruct.antt =====
-- What a reader learns from a delta of src/cache/delta.ts.
use mcp_conductor.Base.{
  ℕ, ◌≡◌, refl, Bool, true, not, ◌&&◌, ◌||◌, none, some, List, [], ◌∷◌, Text, text_eq_iff, any,
  keep, arith, Bool-cases, inl, inr, or_default,
}
use mcp_conductor.Cache.Delta.{
  DeltaResult, deep_equal, has_item, missing_from, unless_empty, should_return_full,
  added_and_removed, array_delta,
}

either_way : (p c : Bool) → ((p && not (p && not c)) || (c && not p)) ≡ c
either_way p c = ground arith

module _ {ℓ} {V : Type ℓ} (stringify : V → Text) where
  has_item-equal :
      (items : List V) (x y : V)
      → deep_equal stringify x y ≡ true
      → has_item stringify items x ≡ has_item stringify items y
  unfolding has_item deep_equal any
  has_item-equal [] x y e = refl
  has_item-equal (p ∷ items) x y e =
      ground (arith, has_item-equal items x y e, text_eq_iff (stringify x) (stringify y))

  has_item-missing_from :
      (others items : List V) (x : V)
      → has_item stringify (missing_from stringify others items) x
        ≡ (has_item stringify items x && not (has_item stringify others x))
  unfolding has_item missing_from any keep
  has_item-missing_from others [] x = refl
  has_item-missing_from others (p ∷ items) x =
      ground (arith, has_item-missing_from others items x, has_item-equal others p x)

  -- The array that a reader of a delta makes from the previous one has an item.
  abbrev pub reads_item : DeltaResult V → List V → V → Bool
  reads_item delta prev x = elim delta.full [
    | some items ↦ has_item stringify items x
    | none ↦
        (has_item stringify prev x && not (has_item stringify (or_default delta.removed []) x))
        || has_item stringify (or_default delta.added []) x
  ]

  or_default-unless_empty : (xs : List V) → or_default (unless_empty stringify xs) [] ≡ xs
  or_default-unless_empty [] = refl
  or_default-unless_empty (x ∷ xs) = refl

  added_and_removed-reads_item :
      (prev curr : List V) (x : V)
      → reads_item (added_and_removed stringify prev curr) prev x ≡ has_item stringify curr x
  unfolding added_and_removed
  added_and_removed-reads_item prev curr x =
      rw
        (
          or_default-unless_empty (missing_from stringify prev curr),
          or_default-unless_empty (missing_from stringify curr prev),
          has_item-missing_from prev curr x,
          has_item-missing_from curr prev x,
        )
        (either_way (has_item stringify prev x) (has_item stringify curr x))

  -- From a delta of two arrays and the previous one, whether the delta is given in full or not, a
  -- reader can tell for each value whether the current array has it.
  pub array_delta-reads_item :
      (delta_size : DeltaResult V → ℕ) (full_size : List V → ℕ) (prev curr : List V) (x : V)
      → reads_item (array_delta stringify delta_size full_size prev curr) prev x
        ≡ has_item stringify curr x
  unfolding array_delta
  array_delta-reads_item delta_size full_size prev curr x =
      elim (Bool-cases (
        should_return_full stringify delta_size full_size (added_and_removed stringify prev curr)
          curr)) [ inl h ↦ rw h refl | inr h ↦ rw h (added_and_removed-reads_item prev curr x) ]
