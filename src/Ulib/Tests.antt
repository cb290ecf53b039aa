-- ===== src/Ulib/Tests.antt =====
-- The theorem on printint and atoi at a concrete input.
use operating_systems_projec.Prelude.{
  ℕ, ◌-◌, ◌^◌, ◌≤◌, ◌<◌, ◌≡◌, refl, true, false, List, [], ◌∷◌, length, arith,
}
use operating_systems_projec.Ulib.{minus, printint, atoi}
use operating_systems_projec.Ulib.Numbers.{atoi-printint}

-- The pattern of -25.
abbrev minus_25 : ℕ
minus_25 = 0xffffffe7

atoi-printint_example :
    (length (printint minus_25 10 true) ≤ 11)
    × (minus_25 < 2 ^ 31 → atoi (printint minus_25 10 true) ≡ minus_25)
    × (2 ^ 31 ≤ minus_25
        → (text : List ℕ) × (printint minus_25 10 true ≡ minus ∷ text)
          × (atoi text ≡ 2 ^ 32 - minus_25))
atoi-printint_example = atoi-printint minus_25 (omega arith)

printint-minus_25 : printint minus_25 10 true ≡ minus ∷ 50 ∷ 53 ∷ []
unfolding printint
printint-minus_25 = refl

printint-hex : printint 0x80104c2f 16 false ≡ 56 ∷ 48 ∷ 49 ∷ 48 ∷ 52 ∷ 67 ∷ 50 ∷ 70 ∷ []
unfolding printint
printint-hex = refl
