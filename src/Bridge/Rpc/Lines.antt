-- ===== src/Bridge/Rpc/Lines.antt =====
-- A text as the lines that src/bridge/pool.ts takes off its buffer, and the rest.
use mcp_conductor.Base.{
  index_of, take, drop, ℕ, zero, suc, ◌+◌, ◌≤◌, ◌≡◌, refl, none, some, List, [], ◌∷◌, ◌++◌, Text,
  length, ◌==◌, if◌then◌else◌, arith,
}
use mcp_conductor.Bridge.Rpc.{newline}

-- A text cut at its line ends: the lines that are complete, and the rest.
pub record Cut : Type 0 where
  pub lines : List Text
  pub rest : Text

-- Puts a character before the first line.
abbrev put_before : ℕ → Cut → Cut
put_before c cut = elim cut.lines as (λ ls. Cut) [
  | [] ↦ record cut { rest = c ∷ cut.rest }
  | l ∷ ls ↦ record cut { lines = (c ∷ l) ∷ ls }
]

unfoldable pub cut_lines : Text → Cut
cut_lines [] = record { lines = []; rest = [] }
cut_lines (c ∷ s) =
    let later = cut_lines s in
    if c == newline then record later { lines = [] ∷ later.lines } else put_before c later

pub cut_lines-index_of-none :
    (s : Text) → index_of newline s ≡ none → cut_lines s ≡ record { lines = []; rest = s }
unfolding cut_lines index_of
cut_lines-index_of-none [] h = refl
cut_lines-index_of-none (c ∷ s) h = ground (arith, cut_lines-index_of-none s)

pub cut_lines-index_of :
    (s : Text) (nl : ℕ)
    → index_of newline s ≡ some nl
    → (cut_lines s).lines ≡ take nl s ∷ (cut_lines (drop (suc nl) s)).lines
unfolding cut_lines index_of take drop
cut_lines-index_of [] nl h = ground arith
cut_lines-index_of (c ∷ s) zero h = ground arith
cut_lines-index_of (c ∷ s) (suc nl) h = ground (arith, cut_lines-index_of s nl)

pub cut_lines-index_of-rest :
    (s : Text) (nl : ℕ)
    → index_of newline s ≡ some nl
    → (cut_lines s).rest ≡ (cut_lines (drop (suc nl) s)).rest
unfolding cut_lines index_of take drop
cut_lines-index_of-rest [] nl h = ground arith
cut_lines-index_of-rest (c ∷ s) zero h = ground arith
cut_lines-index_of-rest (c ∷ s) (suc nl) h =
    ground (arith, cut_lines-index_of-rest s nl, cut_lines-index_of s nl)

pub index_of-length :
    (s : Text) (nl : ℕ)
    → index_of newline s ≡ some nl
    → length (drop (suc nl) s) + suc nl ≤ length s
unfolding index_of drop
index_of-length [] nl h = ground arith
index_of-length (c ∷ s) zero h = omega arith
index_of-length (c ∷ s) (suc nl) h = ground (arith, index_of-length s nl)

pub cut_lines-append :
    (a b : Text)
    → ((cut_lines (a ++ b)).lines
        ≡ (cut_lines a).lines ++ (cut_lines ((cut_lines a).rest ++ b)).lines)
      × ((cut_lines (a ++ b)).rest ≡ (cut_lines ((cut_lines a).rest ++ b)).rest)
unfolding cut_lines
cut_lines-append [] b = (refl, refl)
cut_lines-append (c ∷ a) b = ground (arith, cut_lines-append a b)

-- Lines put together again, each with its line end.
unfoldable pub join_lines : List Text → Text
join_lines [] = []
join_lines (l ∷ ls) = l ++ newline ∷ join_lines ls

pub join_lines-cut_lines : (s : Text) → join_lines (cut_lines s).lines ++ (cut_lines s).rest ≡ s
unfolding cut_lines join_lines
join_lines-cut_lines [] = refl
join_lines-cut_lines (c ∷ s) = ground (arith, join_lines-cut_lines s)
