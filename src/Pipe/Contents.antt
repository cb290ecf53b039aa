-- ===== src/Pipe/Contents.antt =====
-- The bytes that a pipe holds, oldest first, and the invariant of its counters.
use operating_systems_projec.Prelude.{
  ℕ, zero, suc, ◌+◌, ◌-◌, ◌%◌, ◌≤◌, ◌<◌, ◌≡◌, refl, ap₂, ap, ◌∙◌, List, [], ◌∷◌, ◌++◌, length,
  arith, update, update_ne, ◌≢◌,
}
use operating_systems_projec.Pipe.{Pipe, pipesize, uint_mod, put_byte, drop_byte, next_byte, fresh}

-- The `k` bytes from counter value `r` on.
abbrev pub window : (ℕ → ℕ) → ℕ → ℕ → List ℕ
window bytes r zero = []
window bytes r (suc k) = bytes (r % pipesize) ∷ window bytes ((r + 1) % uint_mod) k

-- `nwrite - nread`, in `uint` arithmetic.
abbrev pub count : Pipe → ℕ
count p = (p.nwrite + uint_mod - p.nread) % uint_mod

abbrev pub contents : Pipe → List ℕ
contents p = window p.bytes p.nread (count p)

pub record IsValid (p : Pipe) : Type 0 where
  pub nread_in : p.nread < uint_mod
  pub nwrite_in : p.nwrite < uint_mod
  pub fits : count p ≤ pipesize

pub length-window : (bytes : ℕ → ℕ) (r k : ℕ) → length (window bytes r k) ≡ k
length-window bytes r zero = refl
length-window bytes r (suc k) = ap suc (length-window bytes ((r + 1) % uint_mod) k)

pub length-contents : (p : Pipe) → length (contents p) ≡ count p
length-contents p = length-window p.bytes p.nread (count p)

-- A byte stored behind a window that is not full extends the window.
pub window-update :
    (bytes : ℕ → ℕ) (x k r w : ℕ)
    → r < uint_mod
    → k < pipesize
    → w ≡ (r + k) % uint_mod
    → window (update bytes (w % pipesize) x) r (suc k) ≡ window bytes r k ++ x ∷ []
window-update bytes x zero r w a b e = ground arith
window-update bytes x (suc k) r w a b e =
    ap₂ ◌∷◌ (update_ne bytes (w % pipesize) (r % pipesize) x (omega arith))
      (window-update bytes x k ((r + 1) % uint_mod) w (omega arith) (omega arith) (omega arith))

-- A freshly allocated pipe is valid and empty.
pub fresh-IsValid : (junk : ℕ → ℕ) → IsValid (fresh junk) × (contents (fresh junk) ≡ [])
unfolding fresh
fresh-IsValid junk = (omega arith, refl)

pub put_byte-IsValid : {p : Pipe} (x : ℕ) → IsValid p → count p < pipesize → IsValid (put_byte x p)
unfolding put_byte
put_byte-IsValid x v h = omega arith

pub count-put_byte :
    {p : Pipe} (x : ℕ) → IsValid p → count p < pipesize → count (put_byte x p) ≡ count p + 1
unfolding put_byte
count-put_byte x v h = omega arith

-- `data[nwrite++ % PIPESIZE] = x` appends `x`.
pub contents-put_byte :
    {p : Pipe} (x : ℕ)
    → IsValid p
    → count p < pipesize
    → contents (put_byte x p) ≡ contents p ++ x ∷ []
unfolding put_byte
contents-put_byte {p} x v h =
    ap (window (update p.bytes (p.nwrite % pipesize) x) p.nread) (
      let e : (((p.nwrite + 1) % uint_mod + uint_mod - p.nread) % uint_mod ≡ suc (count p)) =
        omega arith in
      e)
    ∙ window-update p.bytes x (count p) p.nread p.nwrite v.nread_in h (omega arith)

pub drop_byte-IsValid : {p : Pipe} → IsValid p → p.nread ≢ p.nwrite → IsValid (drop_byte p)
unfolding drop_byte
drop_byte-IsValid v h = omega arith

-- `nread++` drops the oldest byte, which stands at `data[nread % PIPESIZE]`.
pub contents-drop_byte :
    {p : Pipe} → IsValid p → p.nread ≢ p.nwrite → contents p ≡ next_byte p ∷ contents (drop_byte p)
unfolding drop_byte
contents-drop_byte {p} v h =
    ap (window p.bytes p.nread) (let e : (count p ≡ suc (count (drop_byte p))) = omega arith in e)
