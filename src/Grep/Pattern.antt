-- ===== src/Grep/Pattern.antt =====
-- What a pattern of grep describes, without the matcher.
use operating_systems_projec.Prelude.{ℕ, ◌≡◌, ◌⊎◌, List, [], ◌∷◌, ◌++◌, ◌==◌, if◌then◌else◌}
use operating_systems_projec.Grep.{caret, dot, asterisk, dollar}

-- What a pattern is made of: a character, any number of them, and the end of the text.
pub data Piece : Type 0 where
  one many : ℕ → Piece
  end : Piece

unfoldable pub pieces : List ℕ → List Piece
pieces [] = []
pieces (c ∷ []) = if c == dollar then end ∷ [] else one c ∷ []
pieces (c ∷ (d ∷ re)) =
    let star = many c ∷ pieces re in
    let plain = one c ∷ pieces (d ∷ re) in if d == asterisk then star else plain

-- A dot stands for every character.
abbrev pub Fits : ℕ → ℕ → Type 0
Fits c x = (c ≡ dot) ⊎ (c ≡ x)

abbrev pub AllFit : ℕ → List ℕ → Type 0
AllFit c [] = Unit {0}
AllFit c (x ∷ xs) = Fits c x × AllFit c xs

-- A piece takes `xs` in front of `rest`.
abbrev pub Takes : Piece → (xs rest : List ℕ) → Type 0
Takes (one c) xs rest = (x : ℕ) × (xs ≡ x ∷ []) × Fits c x
Takes (many c) xs rest = AllFit c xs
Takes end xs rest = (xs ≡ []) × (rest ≡ [])

-- The text begins with what the pieces take, one behind the other.
abbrev pub Begins : List Piece → List ℕ → Type 0
Begins [] text = Unit {0}
Begins (p ∷ ps) text =
    (xs : List ℕ) × (rest : List ℕ) × (text ≡ xs ++ rest) × Takes p xs rest × Begins ps rest

-- The text contains what the pattern describes, or begins with it if the pattern begins with ^.
abbrev pub Contains : (re text : List ℕ) → Type 0
Contains re text =
    (front : List ℕ) × (rest : List ℕ) × (text ≡ front ++ rest) × Begins (pieces re) rest

unfoldable pub Describes : (re text : List ℕ) → Type 0
Describes [] text = Contains [] text
Describes (c ∷ re) text = if c == caret then Begins (pieces re) text else Contains (c ∷ re) text
