-- ===== src/Console/Text.antt =====
-- How a read of consoleread takes text apart, and a step of it on the ring.
use operating_systems_projec.Prelude.{
  ℕ, zero, suc, ◌+◌, ◌-◌, ◌%◌, ◌≡◌, ◌≢◌, refl, ap, ap₂, ◌∙◌, Bool, true, false, List, [], ◌∷◌, ◌++◌,
  length, arith, Option, none, some, ◌==◌, if◌then◌else◌, append_assoc,
}
use operating_systems_projec.Prelude.Kernel.{Outcome, ok, asleep, Locked, unlocked}
use operating_systems_projec.Console.{
  Input, Waits, uint_mod, ctrl_d, newline, next_char, step_on, step_back,
}
use operating_systems_projec.Console.Ring.{window, ready_length, ready, editing}
use operating_systems_projec.Console.Editing.{IsValid}

-- How a read of `n` bytes takes `text` apart: it ends with a newline, in front of ^D, with `n` bytes, or
-- where the text ends. Then it is finished or wants more. A read that has stored nothing takes ^D away.
pub record Taken : Type 0 where
  pub bytes : List ℕ
  pub rest : List ℕ
  pub finished : Bool

unfoldable pub take_text : (fresh : Bool) → ℕ → List ℕ → Taken
take_text fresh zero text = record { bytes = []; rest = text; finished = true }
take_text fresh (suc n) [] = record { bytes = []; rest = []; finished = false }
take_text fresh (suc n) (c ∷ cs) =
    let more = take_text false n cs in
    if c == ctrl_d
    then record { bytes = []; rest = if fresh then cs else c ∷ cs; finished = true }
    else if c == newline
    then record { bytes = newline ∷ []; rest = cs; finished = true }
    else record more { bytes = c ∷ more.bytes }

-- The loop with `got` stored already takes `t` from the ring `i`: it returns behind a finished read,
-- and where more is wanted fails if the process is killed and sleeps if not.
pub record Reads (killed : Bool) (n : ℕ) (got : List ℕ) (i : Input) (t : Taken)
    (o : Outcome Waits (Locked Input) (Option (List ℕ))) : Type 0 where
  pub after : Input
  pub valid : IsValid after
  pub same_line : editing after ≡ editing i
  pub left : ready after ≡ t.rest
  pub returns : t.finished ≡ true → o ≡ ok (some (got ++ t.bytes)) (unlocked after)
  pub fails : t.finished ≡ false → killed ≡ true → o ≡ ok none (unlocked after)
  pub sleeps :
      t.finished ≡ false
      → killed ≡ false
      → o ≡ asleep (record { left = n - length t.bytes; got = got ++ t.bytes }) (unlocked after)

pub step_on-IsValid : (i : Input) → IsValid i → i.r ≢ i.w → IsValid (step_on i)
step_on-IsValid i v n = record {
  r_in = omega arith;
  w_in = v.w_in;
  e_in = v.e_in;
  fits = omega (arith, v.fits, v.r_in, v.w_in, v.e_in);
  one_line = v.one_line;
}

pub ready-step_on : (i : Input) → IsValid i → i.r ≢ i.w → ready i ≡ next_char i ∷ ready (step_on i)
unfolding ready
ready-step_on i v n =
    let e : ready_length i ≡ suc (ready_length (step_on i)) = omega (arith, v.r_in, v.w_in) in
    ap (window i.buf i.r) e

pub step_back-step_on : (i : Input) → IsValid i → step_back (step_on i) ≡ i
step_back-step_on i v =
    let e : ((i.r + 1) % uint_mod + uint_mod - 1) % uint_mod ≡ i.r = omega (arith, v.r_in) in
    ap (λ (k : ℕ). record i { r = k }) e

pub no-ready : (i : Input) → IsValid i → i.r ≡ i.w → ready i ≡ []
unfolding ready
no-ready i v e = let z : ready_length i ≡ 0 = omega (arith, v.w_in) in ap (window i.buf i.r) z

-- A byte that is neither ^D nor a newline is stored, and the loop goes on.
pub Reads-cons :
    (killed : Bool) (n : ℕ) (got : List ℕ) (i : Input) (t : Taken)
    (o : Outcome Waits (Locked Input) (Option (List ℕ))) (c : ℕ)
    → editing (step_on i) ≡ editing i
    → Reads killed n (got ++ c ∷ []) (step_on i) t o
    → Reads killed (suc n) got i (record t { bytes = c ∷ t.bytes }) o
Reads-cons killed n got i t o c e r =
    let more : (got ++ c ∷ []) ++ t.bytes ≡ got ++ (c ∷ t.bytes) =
      append_assoc got (c ∷ []) t.bytes in
    let rest : n - length t.bytes ≡ suc n - length (c ∷ t.bytes) = omega arith in
    record {
      after = r.after;
      valid = r.valid;
      same_line = r.same_line ∙ e;
      left = r.left;
      returns = λ f. r.returns f ∙ ap (λ l. ok (some l) (unlocked r.after)) more;
      fails = r.fails;
      sleeps = λ f k.
          r.sleeps f k
          ∙ ap₂ (λ m l. asleep (record { left = m; got = l }) (unlocked r.after)) rest more;
    }

pub editing-step_on : (i : Input) → editing (step_on i) ≡ editing i
unfolding editing
editing-step_on i = refl
