-- ===== src/Cache/Key/Slices.antt =====
-- Where a character stands in a text, and the parts of a text before and after a place.
use mcp_conductor.Base.{
  index_of, last_index_of, take, drop, ℕ, zero, suc, ◌+◌, ◌-◌, ◌≤◌, ◌≡◌, refl, ap, none, some, [],
  ◌∷◌, ◌++◌, Text, length, arith,
}

pub index_of-append :
    (c : ℕ) (s t : Text) → index_of c s ≡ none → index_of c (s ++ c ∷ t) ≡ some (length s)
unfolding index_of
index_of-append c [] t h = ground arith
index_of-append c (x ∷ s) t h = ground (arith, index_of-append c s t)

pub last_index_of-none : (c : ℕ) (t : Text) → index_of c t ≡ none → last_index_of c t ≡ none
unfolding index_of last_index_of
last_index_of-none c [] h = refl
last_index_of-none c (x ∷ t) h = ground (arith, last_index_of-none c t)

pub last_index_of-append :
    (c : ℕ) (s t : Text) → index_of c t ≡ none → last_index_of c (s ++ c ∷ t) ≡ some (length s)
unfolding last_index_of
last_index_of-append c [] t h = ground (arith, last_index_of-none c t)
last_index_of-append c (x ∷ s) t h = ground (arith, last_index_of-append c s t)

pub take-append : (s t : Text) → take (length s) (s ++ t) ≡ s
unfolding take
take-append [] t = refl
take-append (x ∷ s) t = ap (◌∷◌ x) (take-append s t)

pub drop-append : (s t : Text) → drop (length s) (s ++ t) ≡ t
unfolding drop
drop-append [] t = refl
drop-append (x ∷ s) t = drop-append s t

pub take_all : (s : Text) → take (length s) s ≡ s
unfolding take
take_all [] = refl
take_all (x ∷ s) = ap (◌∷◌ x) (take_all s)

pub drop_past : (s t : Text) (c : ℕ) → drop (suc (length s)) (s ++ c ∷ t) ≡ t
unfolding drop
drop_past [] t c = refl
drop_past (x ∷ s) t c = drop_past s t c

pub index_of-drop :
    (c : ℕ) (s : Text) (i : ℕ) → index_of c s ≡ some i → drop i s ≡ c ∷ drop (suc i) s
unfolding index_of drop
index_of-drop c [] i h = ground arith
index_of-drop c (x ∷ s) zero h = ground (arith)
index_of-drop c (x ∷ s) (suc i) h = ground (arith, index_of-drop c s i)

pub last_index_of-drop :
    (c : ℕ) (s : Text) (i : ℕ) → last_index_of c s ≡ some i → drop i s ≡ c ∷ drop (suc i) s
unfolding last_index_of drop
last_index_of-drop c [] i h = ground arith
last_index_of-drop c (x ∷ s) zero h = ground arith
last_index_of-drop c (x ∷ s) (suc i) h = ground (arith, last_index_of-drop c s i)

pub take-drop : (n : ℕ) (s : Text) → take n s ++ drop n s ≡ s
unfolding take drop
take-drop zero s = refl
take-drop (suc n) [] = refl
take-drop (suc n) (x ∷ s) = ap (◌∷◌ x) (take-drop n s)

pub drop-drop : (n m k : ℕ) (s : Text) → k ≡ n + m → drop m (drop n s) ≡ drop k s
unfolding drop
drop-drop zero m k s e = let same : k ≡ m = omega arith in rw same refl
drop-drop (suc n) m zero s e = absurd (omega arith)
drop-drop (suc n) zero (suc k) [] e = refl
drop-drop (suc n) (suc m) (suc k) [] e = refl
drop-drop (suc n) m (suc k) (x ∷ s) e = drop-drop n m k s (omega arith)

pub take_enough : (n : ℕ) (s : Text) → length s ≤ n → take n s ≡ s
unfolding take
take_enough zero [] h = refl
take_enough (suc n) [] h = refl
take_enough zero (x ∷ s) h = ground arith
take_enough (suc n) (x ∷ s) h = ap (◌∷◌ x) (take_enough n s (omega arith))

pub length-drop : (n : ℕ) (s : Text) → length (drop n s) ≤ length s - n
unfolding drop
length-drop zero s = omega arith
length-drop (suc n) [] = omega arith
length-drop (suc n) (x ∷ s) = omega (arith, length-drop n s)
