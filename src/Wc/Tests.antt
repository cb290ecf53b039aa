-- ===== src/Wc/Tests.antt =====
-- The theorem on wc at a concrete input.
use operating_systems_projec.Prelude.{
  ℕ, ◌≡◌, refl, false, List, [], ◌∷◌, length, none, some, if◌then◌else◌,
}
use mathlib.Core.List.{flatten}
use operating_systems_projec.Wc.{wc, count_byte, is_separator}
use operating_systems_projec.Wc.Counting.{lines, words, wc_lem}

-- `a bc`, a newline and `d`, read in two pieces that cut the second word.
abbrev two_pieces : List (List ℕ)
two_pieces = (97 ∷ 32 ∷ 98 ∷ []) ∷ (99 ∷ 10 ∷ 100 ∷ []) ∷ []

wc_lem_example : wc two_pieces false ≡ (
    if false
    then none
    else some (lines (flatten two_pieces), words (flatten two_pieces), length (flatten two_pieces)))
wc_lem_example = wc_lem two_pieces false

wc-two_pieces : wc two_pieces false ≡ some (1, 3, 6)
unfolding wc count_byte is_separator
wc-two_pieces = refl
