-- ===== src/Console/Ring.antt =====
-- The bytes that the ring holds: lines that can be read, and the line that is edited.
use operating_systems_projec.Prelude.{
  ℕ, zero, suc, ◌+◌, ◌-◌, ◌%◌, ◌<◌, ◌≡◌, ◌≢◌, refl, ap, ap₂, ◌∙◌, List, [], ◌∷◌, ◌++◌, length,
  arith, update, update_ne,
}
use operating_systems_projec.Console.{Input, input_buf, uint_mod, edit_length}

-- The `k` bytes from index `r` on.
abbrev pub window : (ℕ → ℕ) → ℕ → ℕ → List ℕ
window buf r zero = []
window buf r (suc k) = buf (r % input_buf) ∷ window buf ((r + 1) % uint_mod) k

-- `input.w - input.r`
abbrev pub ready_length : Input → ℕ
ready_length i = (i.w + uint_mod - i.r) % uint_mod

-- The bytes of finished lines that are not read yet, and those of the line that is edited.
unfoldable pub ready : Input → List ℕ
ready i = window i.buf i.r (ready_length i)

unfoldable pub editing : Input → List ℕ
editing i = window i.buf i.w (edit_length i)

pub length-window : (buf : ℕ → ℕ) (r k : ℕ) → length (window buf r k) ≡ k
length-window buf r zero = refl
length-window buf r (suc k) = ap suc (length-window buf ((r + 1) % uint_mod) k)

-- A byte behind a window extends it.
pub window-snoc :
    (buf : ℕ → ℕ) (k r e : ℕ)
    → r < uint_mod
    → e ≡ (r + k) % uint_mod
    → window buf r (suc k) ≡ window buf r k ++ buf (e % input_buf) ∷ []
window-snoc buf zero r e a h = ap (λ x. buf (x % input_buf) ∷ []) (omega arith)
window-snoc buf (suc k) r e a h =
    ap (λ t. buf (r % input_buf) ∷ t)
      (window-snoc buf k ((r + 1) % uint_mod) e (omega arith) (omega arith))

-- A write outside of a window leaves it.
pub window-update :
    (buf : ℕ → ℕ) (x k r e : ℕ)
    → r < uint_mod
    → ((j : ℕ) → j < k → e ≢ ((r + j) % uint_mod) % input_buf)
    → window (update buf e x) r k ≡ window buf r k
window-update buf x zero r e a h = refl
window-update buf x (suc k) r e a h =
    ap₂ ◌∷◌ (update_ne buf e (r % input_buf) x (λ q. h 0 (omega arith) (omega arith))) (
      window-update buf x k ((r + 1) % uint_mod) e (omega arith)
        (λ j p q. h (suc j) (omega arith) (omega arith)))

pub window-append :
    (buf : ℕ → ℕ) (m n r : ℕ)
    → r < uint_mod
    → window buf r (m + n) ≡ window buf r m ++ window buf ((r + m) % uint_mod) n
window-append buf zero n r a = ap₂ (window buf) (omega arith) (omega arith)
window-append buf (suc m) n r a =
    ap (window buf r) {x = suc m + n} {y = suc (m + n)} (omega arith)
    ∙ ap (λ t. buf (r % input_buf) ∷ t)
        (window-append buf m n ((r + 1) % uint_mod) (omega arith)
          ∙ ap (λ q. window buf ((r + 1) % uint_mod) m ++ window buf q n) (omega arith))
