-- ===== src/Grep/Tests.antt =====
-- The theorem on grep.c at a concrete input, and runs of the matcher.
use operating_systems_projec.Prelude.{ℕ, ◌≡◌, ◌↔◌, refl, true, false, List, [], ◌∷◌}
use operating_systems_projec.Grep.{match}
use operating_systems_projec.Grep.Pattern.{Describes}
use operating_systems_projec.Grep.Matching.{match_lem}

-- `ab*c$`, and the texts `xabbc` and `abca`.
abbrev pattern_text : List ℕ
pattern_text = 97 ∷ 98 ∷ 42 ∷ 99 ∷ 36 ∷ []

abbrev good : List ℕ
good = 120 ∷ 97 ∷ 98 ∷ 98 ∷ 99 ∷ []

abbrev bad : List ℕ
bad = 97 ∷ 98 ∷ 99 ∷ 97 ∷ []

match_lem_example : (match pattern_text good ≡ true) ↔ Describes pattern_text good
match_lem_example = match_lem pattern_text good

match-good : match pattern_text good ≡ true
unfolding match
match-good = refl

match-bad : match pattern_text bad ≡ false
unfolding match
match-bad = refl
