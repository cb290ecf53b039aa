-- ===== src/String/Compare.antt =====
-- memcmp, strncmp and strlen of string.c.
use operating_systems_projec.Prelude.{
  ℕ, zero, suc, ◌+◌, ◌<◌, ◌≡◌, ◌↔◌, refl, ap, ◌∙◌, some, List, [], ◌∷◌, ◌==◌, if◌then◌else◌, arith,
  cells, length,
}
use operating_systems_projec.Prelude.Int.{pos}
use operating_systems_projec.String.{Mem, memcmp, strncmp, strlen_from, strlen}

-- The characters of the string at `p`, without its NUL and at most `n` of them.
abbrev pub chars : (n p : ℕ) → Mem → List ℕ
chars zero p m = []
chars (suc n) p m = let rest = m p ∷ chars n (p + 1) m in if m p == 0 then [] else rest

-- Memories that agree on two ranges have the same string there.
pub chars-shift :
    (n p q : ℕ) (m m' : Mem)
    → ((j : ℕ) → j < n → m (p + j) ≡ m' (q + j))
    → chars n p m ≡ chars n q m'
chars-shift zero p q m m' h = refl
chars-shift (suc n) p q m m' h =
    let e : m p ≡ m' q = ap m (omega arith) ∙ h 0 (omega arith) ∙ ap m' (omega arith) in
    let rest : chars n (p + 1) m ≡ chars n (q + 1) m' =
      chars-shift n (p + 1) (q + 1) m m'
        (λ j k. ap m (omega arith) ∙ h (suc j) (omega arith) ∙ ap m' (omega arith)) in
    ground (arith, e, rest)

-- memcmp returns 0 exactly on equal ranges.
pub memcmp_lem : (n p q : ℕ) (m : Mem) → (memcmp n p q m ≡ pos 0) ↔ (cells m p n ≡ cells m q n)
unfolding memcmp
memcmp_lem zero p q m = (λ e. refl, λ e. refl)
memcmp_lem (suc n) p q m =
    let (f, g) = memcmp_lem n (p + 1) (q + 1) m in (λ e. ground (arith, f), λ e. ground (arith, g))

-- strncmp returns 0 exactly on strings with equal characters before the NUL, up to `n` of them.
pub strncmp_lem : (n p q : ℕ) (m : Mem) → (strncmp n p q m ≡ pos 0) ↔ (chars n p m ≡ chars n q m)
unfolding strncmp
strncmp_lem zero p q m = (λ e. refl, λ e. refl)
strncmp_lem (suc n) p q m =
    let (f, g) = strncmp_lem n (p + 1) (q + 1) m in (λ e. ground (arith, f), λ e. ground (arith, g))

strlen_from_lem :
    (fuel n s k : ℕ) (m : Mem)
    → m (s + n + k) ≡ 0
    → k < fuel
    → strlen_from fuel n s m ≡ some (n + length (chars fuel (s + n) m))
unfolding strlen_from
strlen_from_lem zero n s k m e h = ground arith
strlen_from_lem (suc f) n s zero m e h = ground arith
strlen_from_lem (suc f) n s (suc k) m e h = ground (arith, strlen_from_lem f (n + 1) s k m)

-- strlen of a string with a NUL within `fuel` bytes returns the number of its characters.
pub strlen_lem :
    (fuel s k : ℕ) (m : Mem)
    → m (s + k) ≡ 0
    → k < fuel
    → strlen fuel s m ≡ some (length (chars fuel s m))
unfolding strlen
strlen_lem fuel s k m e h = ground (arith, strlen_from_lem fuel 0 s k m)
