-- ===== src/Prelude/Memory.antt =====
-- Arrays and memories as functions from an index, and the bytes at consecutive addresses.
use Prim.Native.Nat.{ℕ, zero, suc, ◌+◌, ◌≤◌, ◌<◌}
use mathlib.Core.Path.{◌≡◌, refl, ap, ap₂, ◌∙◌}
use mathlib.Core.Logic.{◌≢◌}
use mathlib.Core.List.{List, [], ◌∷◌, ◌++◌}
use native.Mathlib.Omega.{arith}
use operating_systems_projec.Prelude.Lists.{get_or}
use operating_systems_projec.Prelude.Tests.{◌==◌, if◌then◌else◌}

module _ {ℓ} {A : Type ℓ} where
  abbrev pub update : (ℕ → A) → ℕ → A → ℕ → A
  update f i a j = if i == j then a else f j

  -- The `n` cells from address `p` on.
  abbrev pub cells : (ℕ → A) → ℕ → ℕ → List A
  cells m p zero = []
  cells m p (suc n) = m p ∷ cells m (p + 1) n

  pub update_self : (f : ℕ → A) (i : ℕ) (a : A) → update f i a i ≡ a
  update_self f i a = ground arith

  pub update_ne : (f : ℕ → A) (i j : ℕ) (a : A) → i ≢ j → update f i a j ≡ f j
  update_ne f i j a h = ground arith

  -- Memories that agree on a range hold the same cells there.
  pub cells-ext :
      (f g : ℕ → A) (p n : ℕ)
      → ((j : ℕ) → p ≤ j → j < p + n → f j ≡ g j)
      → cells f p n ≡ cells g p n
  cells-ext f g p zero h = refl
  cells-ext f g p (suc n) h =
      ap₂ ◌∷◌ (h p (omega arith) (omega arith))
        (cells-ext f g (p + 1) n (λ j a b. h j (omega arith) (omega arith)))

-- The first virtual address of the kernel, from memlayout.h.
abbrev pub kernbase : ℕ
kernbase = 0x80000000

module _ {ℓ} {A : Type ℓ} where
  pub cells-shift :
      (f g : ℕ → A) (p q n : ℕ)
      → ((j : ℕ) → j < n → f (p + j) ≡ g (q + j))
      → cells f p n ≡ cells g q n
  cells-shift f g p q zero h = refl
  cells-shift f g p q (suc n) h =
      ap₂ ◌∷◌ (ap f (omega arith) ∙ h 0 (omega arith) ∙ ap g (omega arith)) (
        cells-shift f g (p + 1) (q + 1) n
          (λ j k. ap f (omega arith) ∙ h (suc j) (omega arith) ∙ ap g (omega arith)))

  pub cells-append : (f : ℕ → A) (p m n : ℕ) → cells f p (m + n) ≡ cells f p m ++ cells f (p + m) n
  cells-append f p zero n = ap₂ (cells f) (omega arith) (omega arith)
  cells-append f p (suc m) n =
      ap (λ k. cells f p k) {x = suc m + n} {y = suc (m + n)} (omega arith)
      ∙ ap (λ xs. f p ∷ xs)
          (cells-append f (p + 1) m n ∙ ap (λ q. cells f (p + 1) m ++ cells f q n) (omega arith))

  pub get_or-cells : (f : ℕ → A) (p n i : ℕ) (d : A) → i < n → get_or (cells f p n) i d ≡ f (p + i)
  get_or-cells f p zero i d h = elim h [ ]
  get_or-cells f p (suc n) zero d h = ap f (omega arith)
  get_or-cells f p (suc n) (suc i) d h =
      get_or-cells f (p + 1) n i d (omega arith) ∙ ap f (omega arith)
