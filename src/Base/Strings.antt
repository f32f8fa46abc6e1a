-- ===== src/Base/Strings.antt =====
-- JavaScript strings as lists of code units, with the string methods that the program calls.
use Prim.Native.Nat.{ℕ, zero, suc, ◌+◌}
use Prim.Native.Char.{code}
use Prim.Native.String.{String}
use mathlib.Core.Path.{◌≡◌, refl}
use mathlib.Core.Logic.{◌↔◌, ◌⊎◌, ◌≢◌, inl, inr}
use mathlib.Core.Option.{Option, none, some}
use mathlib.Core.Bool.{Bool, true, false, ◌&&◌}
use mathlib.Core.List.{List, [], ◌∷◌, ◌++◌, map, reverse}
use native.Mathlib.Omega.{arith}
use mcp_conductor.Base.Tests.{◌==◌, leb, Bool-cases, if◌then◌else◌}

abbrev pub Text : Type 0
Text = List ℕ

-- The code units of a literal.
abbrev pub codes : String → Text
codes String.[] = []
codes (String.◌∷◌ c s) = code c ∷ codes s

-- `a === b`
unfoldable pub text_eq : Text → Text → Bool
text_eq [] [] = true
text_eq [] (b ∷ bs) = false
text_eq (a ∷ as') [] = false
text_eq (a ∷ as') (b ∷ bs) = if a == b then text_eq as' bs else false

text_eq_sound : (a b : Text) → text_eq a b ≡ true → a ≡ b
unfolding text_eq
text_eq_sound [] [] h = refl
text_eq_sound [] (b ∷ bs) h = ground arith
text_eq_sound (a ∷ as') [] h = ground arith
text_eq_sound (a ∷ as') (b ∷ bs) h = ground (arith, text_eq_sound as' bs)

pub text_eq_refl : (a : Text) → text_eq a a ≡ true
unfolding text_eq
text_eq_refl [] = refl
text_eq_refl (a ∷ as') = ground (arith, text_eq_refl as')

pub text_eq_iff : (a b : Text) → (text_eq a b ≡ true) ↔ (a ≡ b)
text_eq_iff a b = (text_eq_sound a b, λ e. rw e (text_eq_refl b))

pub text_eq-ne : (a b : Text) → a ≢ b → text_eq a b ≡ false
text_eq-ne a b n = ground (arith, text_eq_iff a b)

pub Text-cases : (a b : Text) → (a ≡ b) ⊎ (a ≢ b)
Text-cases a b = elim (Bool-cases (text_eq a b)) [
  | inl e ↦ inl ((text_eq_iff a b).0 e)
  | inr e ↦ inr (λ p. ground (arith, text_eq_iff a b))
]

-- `s.startsWith(p)`
unfoldable pub starts_with : Text → Text → Bool
starts_with s [] = true
starts_with [] (p ∷ ps) = false
starts_with (c ∷ cs) (p ∷ ps) = if c == p then starts_with cs ps else false

-- `s.endsWith(p)`, and the test of the expression /p$/ for a literal `p`
unfoldable pub ends_with : Text → Text → Bool
unfolding starts_with
ends_with s p = starts_with (reverse s) (reverse p)

-- `s.includes(p)`
unfoldable pub includes : Text → Text → Bool
unfolding starts_with
includes [] p = starts_with [] p
includes (c ∷ cs) p = if starts_with (c ∷ cs) p then true else includes cs p

-- `s.toLowerCase()` on the letters A to Z.
unfoldable pub lower : Text → Text
lower = map (λ c. if leb 65 c && leb c 90 then c + 32 else c)

pub starts_with-append : (s t : Text) → starts_with (s ++ t) s ≡ true
unfolding starts_with
starts_with-append [] t = refl
starts_with-append (c ∷ cs) t = ground (arith, starts_with-append cs t)

-- `s.indexOf(c)` for a single code unit.
unfoldable pub index_of : ℕ → Text → Option ℕ
index_of c [] = none
index_of c (x ∷ s) =
    let later = index_of c s in
    if x == c then some 0 else elim later [ none ↦ none | some i ↦ some (suc i) ]

-- `s.lastIndexOf(c)` for a single code unit.
unfoldable pub last_index_of : ℕ → Text → Option ℕ
last_index_of c [] = none
last_index_of c (x ∷ s) = elim (last_index_of c s) [
  | none ↦ if x == c then some 0 else none
  | some i ↦ some (suc i)
]

unfoldable pub take : ℕ → Text → Text
take zero s = []
take (suc n) [] = []
take (suc n) (x ∷ s) = x ∷ take n s

unfoldable pub drop : ℕ → Text → Text
drop zero s = s
drop (suc n) [] = []
drop (suc n) (x ∷ s) = drop n s
