-- ===== src/Grep.antt =====
-- The matcher of Project 1/xv6-public/grep.c: match, matchhere and matchstar. A string is the list of
-- its characters without the NUL.
mod Tests
pub mod Pattern
pub mod Matching
use operating_systems_projec.Prelude.{
  ℕ, Bool, true, false, ◌||◌, List, [], ◌∷◌, ◌==◌, if◌then◌else◌,
}

-- The characters `^`, `.`, `*` and `$`.
abbrev pub caret : ℕ
caret = 94

abbrev pub dot : ℕ
dot = 46

abbrev pub asterisk : ℕ
asterisk = 42

abbrev pub dollar : ℕ
dollar = 36

-- `*text == '\0'`
abbrev pub at_end : List ℕ → Bool
at_end [] = true
at_end (x ∷ xs) = false

-- The loop of matchstar, with `here` for matchhere of the pattern behind the asterisk.
unfoldable pub matchstar : (c : ℕ) → (here : List ℕ → Bool) → List ℕ → Bool
matchstar c here [] = here []
matchstar c here (x ∷ xs) =
    let rest = matchstar c here xs in
    if here (x ∷ xs) then true else if x == c || c == dot then rest else false

-- The last test of matchhere, with `here` for matchhere of the pattern behind `c`.
unfoldable pub match_char : (c : ℕ) → (here : List ℕ → Bool) → List ℕ → Bool
match_char c here [] = false
match_char c here (x ∷ xs) = if c == dot || c == x then here xs else false

unfoldable pub matchhere : (re text : List ℕ) → Bool
unfolding matchstar match_char
matchhere [] text = true
matchhere (c ∷ []) text =
    if c == dollar then at_end text else match_char c (λ t. matchhere [] t) text
matchhere (c ∷ (d ∷ re)) text =
    let star = matchstar c (λ t. matchhere re t) text in
    let plain = match_char c (λ t. matchhere (d ∷ re) t) text in
    if d == asterisk then star else plain

-- The loop of match.
unfoldable pub match_anywhere : (re text : List ℕ) → Bool
unfolding matchhere
match_anywhere re [] = matchhere re []
match_anywhere re (x ∷ xs) =
    let rest = match_anywhere re xs in if matchhere re (x ∷ xs) then true else rest

unfoldable pub match : (re text : List ℕ) → Bool
unfolding match_anywhere
match [] text = match_anywhere [] text
match (c ∷ re) text = if c == caret then matchhere re text else match_anywhere (c ∷ re) text
