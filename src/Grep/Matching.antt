-- ===== src/Grep/Matching.antt =====
-- match decides what the pattern says.
use operating_systems_projec.Prelude.{
  ℕ, ◌≡◌, ◌↔◌, refl, sym, ap, ap₂, ◌∙◌, inl, inr, Bool, true, ◌||◌, List, [], ◌∷◌, ◌++◌, ◌==◌,
  Bool-cases, arith,
}
use mathlib.Core.Path.{subst}
use operating_systems_projec.Grep.{
  caret, dot, asterisk, dollar, at_end, matchstar, match_char, matchhere, match_anywhere, match,
}
use operating_systems_projec.Grep.Pattern.{
  one, many, end, pieces, Fits, AllFit, Begins, Contains, Describes,
}

Fits-test : (c x : ℕ) → (c == dot || c == x) ≡ true → Fits c x
Fits-test c x e = elim (Bool-cases (c == dot)) [
  | inl p ↦ inl (ground arith)
  | inr p ↦ inr (ground arith)
]

Fits-star : (c x : ℕ) → (x == c || c == dot) ≡ true → Fits c x
Fits-star c x e = elim (Bool-cases (c == dot)) [
  | inl p ↦ inl (ground arith)
  | inr p ↦ inr (ground arith)
]

star-Fits : (c x : ℕ) → Fits c x → (x == c || c == dot) ≡ true
star-Fits c x (inl e) = ground arith
star-Fits c x (inr e) = ground arith

test-Fits : (c x : ℕ) → Fits c x → (c == dot || c == x) ≡ true
test-Fits c x (inl e) = ground arith
test-Fits c x (inr e) = ground arith

-- matchstar finds a run of fitting characters with a match behind it, if there is one.
abbrev Run : (c : ℕ) → (here : List ℕ → Bool) → List ℕ → Type 0
Run c here text =
    (xs : List ℕ) × (rest : List ℕ) × (text ≡ xs ++ rest) × AllFit c xs × (here rest ≡ true)

matchstar_sound :
    (c : ℕ) (here : List ℕ → Bool) (text : List ℕ) → matchstar c here text ≡ true → Run c here text
unfolding matchstar
matchstar_sound c here [] e = ([], [], refl, tt, e)
matchstar_sound c here (x ∷ xs) e = elim (Bool-cases (here (x ∷ xs))) [
  | inl h ↦ ([], x ∷ xs, refl, tt, h)
  | inr h ↦ elim (Bool-cases (x == c || c == dot)) [
    | inl f ↦
        let more : matchstar c here xs ≡ true = ground (arith, e) in
        let (ys, rest, q, a, k) = matchstar_sound c here xs more in
        (x ∷ ys, rest, ap (λ l. x ∷ l) q, (Fits-star c x f, a), k)
    | inr f ↦ absurd (ground (arith, e))
  ]
]

matchstar_here :
    (c : ℕ) (here : List ℕ → Bool) (rest : List ℕ) → here rest ≡ true → matchstar c here rest ≡ true
unfolding matchstar
matchstar_here c here [] h = h
matchstar_here c here (x ∷ xs) h = rw h refl

matchstar_complete :
    (c : ℕ) (here : List ℕ → Bool) (xs rest : List ℕ)
    → AllFit c xs
    → here rest ≡ true
    → matchstar c here (xs ++ rest) ≡ true
unfolding matchstar
matchstar_complete c here [] rest a h = matchstar_here c here rest h
matchstar_complete c here (x ∷ xs) rest (f, a) h =
    let more = matchstar_complete c here xs rest a h in
    let fits = star-Fits c x f in
    elim (Bool-cases (here (x ∷ (xs ++ rest)))) [ inl e ↦ rw e refl | inr e ↦ rw (e, fits) more ]

match_char_sound :
    (c : ℕ) (here : List ℕ → Bool) (text : List ℕ)
    → match_char c here text ≡ true
    → (x : ℕ) × (rest : List ℕ) × (text ≡ x ∷ rest) × Fits c x × (here rest ≡ true)
unfolding match_char
match_char_sound c here [] e = absurd (ground (arith, e))
match_char_sound c here (x ∷ xs) e = elim (Bool-cases (c == dot || c == x)) [
  | inl f ↦ (x, xs, refl, Fits-test c x f, ground (arith, e))
  | inr f ↦ absurd (ground (arith, e))
]

match_char_complete :
    (c : ℕ) (here : List ℕ → Bool) (x : ℕ) (rest : List ℕ)
    → Fits c x
    → here rest ≡ true
    → match_char c here (x ∷ rest) ≡ true
unfolding match_char
match_char_complete c here x rest f h = rw (test-Fits c x f) h

at_end-nil : (text : List ℕ) → at_end text ≡ true → text ≡ []
at_end-nil [] e = refl
at_end-nil (x ∷ xs) e = absurd (ground (arith, e))

matchhere_sound : (re text : List ℕ) → matchhere re text ≡ true → Begins (pieces re) text
unfolding matchhere pieces
matchhere_sound [] text e = tt
matchhere_sound (c ∷ []) text e = elim (Bool-cases (c == dollar)) [
  | inl d ↦
      let m : at_end text ≡ true = ground (arith, e) in
      rw d ([], text, refl, (refl, at_end-nil text m), tt)
  | inr d ↦
      let m : match_char c (λ t. matchhere [] t) text ≡ true = ground (arith, e) in
      let (x, rest, q, f, h) = match_char_sound c (λ t. matchhere [] t) text m in
      rw d (x ∷ [], rest, q, (x, refl, f), tt)
]
matchhere_sound (c ∷ (d ∷ re)) text e = elim (Bool-cases (d == asterisk)) [
  | inl s ↦
      let m : matchstar c (λ t. matchhere re t) text ≡ true = ground (arith, e) in
      let (xs, rest, q, a, h) = matchstar_sound c (λ t. matchhere re t) text m in
      rw s (xs, rest, q, a, matchhere_sound re rest h)
  | inr s ↦
      let m : match_char c (λ t. matchhere (d ∷ re) t) text ≡ true = ground (arith, e) in
      let (x, rest, q, f, h) = match_char_sound c (λ t. matchhere (d ∷ re) t) text m in
      rw s (x ∷ [], rest, q, (x, refl, f), matchhere_sound (d ∷ re) rest h)
]

matchhere_complete : (re text : List ℕ) → Begins (pieces re) text → matchhere re text ≡ true
unfolding matchhere pieces
matchhere_complete [] text b = refl
matchhere_complete (c ∷ []) text b = elim (Bool-cases (c == dollar)) [
  | inl d ↦
      let p : pieces (c ∷ []) ≡ end ∷ [] = rw d refl in
      let (xs, rest, q, (y, z), t) = subst (λ ps. Begins ps text) p b in
      let nil : text ≡ [] = q ∙ ap₂ (λ l m. l ++ m) y z in rw (d, nil) refl
  | inr d ↦
      let p : pieces (c ∷ []) ≡ one c ∷ [] = rw d refl in
      let (xs, rest, q, (x, y, f), t) = subst (λ ps. Begins ps text) p b in
      let cons : text ≡ x ∷ rest = q ∙ ap (λ l. l ++ rest) y in
      rw (d, cons) (match_char_complete c (λ t. matchhere [] t) x rest f refl)
]
matchhere_complete (c ∷ (d ∷ re)) text b = elim (Bool-cases (d == asterisk)) [
  | inl s ↦
      let p : pieces (c ∷ (d ∷ re)) ≡ many c ∷ pieces re = rw s refl in
      let (xs, rest, q, a, k) = subst (λ ps. Begins ps text) p b in
      rw (s, q)
        (matchstar_complete c (λ t. matchhere re t) xs rest a (matchhere_complete re rest k))
  | inr s ↦
      let p : pieces (c ∷ (d ∷ re)) ≡ one c ∷ pieces (d ∷ re) = rw s refl in
      let (xs, rest, q, (x, y, f), k) = subst (λ ps. Begins ps text) p b in
      let cons : text ≡ x ∷ rest = q ∙ ap (λ l. l ++ rest) y in
      rw (s, cons)
        (match_char_complete c (λ t. matchhere (d ∷ re) t) x rest f
          (matchhere_complete (d ∷ re) rest k))
]

match_anywhere_sound : (re text : List ℕ) → match_anywhere re text ≡ true → Contains re text
unfolding match_anywhere
match_anywhere_sound re [] e = ([], [], refl, matchhere_sound re [] e)
match_anywhere_sound re (x ∷ xs) e = elim (Bool-cases (matchhere re (x ∷ xs))) [
  | inl h ↦ ([], x ∷ xs, refl, matchhere_sound re (x ∷ xs) h)
  | inr h ↦
      let more : match_anywhere re xs ≡ true = ground (arith, e) in
      let (front, rest, q, b) = match_anywhere_sound re xs more in
      (x ∷ front, rest, ap (λ l. x ∷ l) q, b)
]

match_anywhere_here : (re text : List ℕ) → matchhere re text ≡ true → match_anywhere re text ≡ true
unfolding match_anywhere
match_anywhere_here re [] h = h
match_anywhere_here re (x ∷ xs) h = rw h refl

match_anywhere_complete :
    (re front rest : List ℕ) → Begins (pieces re) rest → match_anywhere re (front ++ rest) ≡ true
unfolding match_anywhere
match_anywhere_complete re [] rest b = match_anywhere_here re rest (matchhere_complete re rest b)
match_anywhere_complete re (x ∷ xs) rest b =
    let more = match_anywhere_complete re xs rest b in
    elim (Bool-cases (matchhere re (x ∷ (xs ++ rest)))) [ inl e ↦ rw e refl | inr e ↦ rw e more ]

match_anywhere_lem : (re text : List ℕ) → (match_anywhere re text ≡ true) ↔ Contains re text
match_anywhere_lem re text = (
  match_anywhere_sound re text,
  λ (front, rest, q, b).
      subst (λ t. match_anywhere re t ≡ true) (sym q) (match_anywhere_complete re front rest b),
)

-- match returns 1 exactly if the pattern describes a part of the text, one that begins the text if the
-- pattern begins with ^. A pattern is read as pieces, one behind the other: a character and an asterisk
-- take any number of characters that fit, $ as the last character the end of the text, and any other
-- character one that fits; a dot fits every character, and any other only itself.
pub match_lem : (re text : List ℕ) → (match re text ≡ true) ↔ Describes re text
unfolding match Describes
match_lem [] text = match_anywhere_lem [] text
match_lem (c ∷ re) text = elim (Bool-cases (c == caret)) [
  | inl e ↦ rw e (matchhere_sound re text, matchhere_complete re text)
  | inr e ↦ rw e (match_anywhere_lem (c ∷ re) text)
]
