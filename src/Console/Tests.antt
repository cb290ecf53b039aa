-- ===== src/Console/Tests.antt =====
-- The theorems on console.c at concrete inputs.
use operating_systems_projec.Prelude.{
  ℕ, ◌+◌, ◌%◌, ◌≡◌, ◌≢◌, refl, sym, true, false, List, [], ◌∷◌, ◌++◌, arith, update,
}
use mathlib.Core.Path.{subst}
use operating_systems_projec.Prelude.Kernel.{ok, unlocked}
use operating_systems_projec.Console.{
  Input, input_buf, uint_mod, newline, consoleintr, consoleread, wants_listing,
}
use operating_systems_projec.Console.Ring.{ready}
use operating_systems_projec.Console.Editing.{IsValid, Bytes, view, insert, press, press_all}
use operating_systems_projec.Console.Refine.{consoleintr_lem}
use operating_systems_projec.Console.Text.{Reads, take_text}
use operating_systems_projec.Console.Reading.{consoleread_lem}

-- An empty ring, and the keys `a`, backspace, `b`, ^U, `c`, return, `d`.
abbrev empty_input : Input
empty_input = record { buf = λ k. 0; r = 0; w = 0; e = 0; echo = []; wakeups = 0 }

abbrev typed : List ℕ
typed = 97 ∷ 8 ∷ 98 ∷ 21 ∷ 99 ∷ 13 ∷ 100 ∷ []

empty_input-IsValid : IsValid empty_input
empty_input-IsValid = record {
  r_in = omega arith;
  w_in = omega arith;
  e_in = omega arith;
  fits = omega arith;
  one_line = λ j h. absurd (omega arith);
}

typed-Bytes : Bytes typed
typed-Bytes = (
  omega arith,
  (omega arith, (omega arith, (omega arith, (omega arith, (omega arith, (omega arith, tt)))))),
)

consoleintr_lem_example :
    (j : Input) × (consoleintr typed (unlocked empty_input) ≡ ok (wants_listing typed) (unlocked j))
    × IsValid j
    × (view j ≡ press_all typed (view empty_input))
    × ((more : List ℕ) × (ready j ≡ ready empty_input ++ more))
consoleintr_lem_example = consoleintr_lem typed empty_input empty_input-IsValid typed-Bytes

-- What is left of the line behind each key.
typed-view :
    press_all typed (record { done = []; line = [] })
    ≡ record { done = 99 ∷ 10 ∷ []; line = 100 ∷ [] }
unfolding press_all press insert
typed-view = refl

-- The line `c`, with `d` behind it.
abbrev with_line : Input
with_line = record {
  buf = update (update (update (λ k. 0) 0 99) 1 10) 2 100;
  r = 0;
  w = 2;
  e = 3;
  echo = [];
  wakeups = 1;
}

with_line-IsValid : IsValid with_line
with_line-IsValid = record {
  r_in = omega arith;
  w_in = omega arith;
  e_in = omega arith;
  fits = omega arith;
  one_line = λ j h.
      let z : j ≡ 0 = omega (arith, h) in
      let byte : with_line.buf ((with_line.w + 0) % uint_mod % input_buf) ≢ newline =
        λ e. absurd (omega (arith, e)) in
      subst (λ (k : ℕ). with_line.buf ((with_line.w + k) % uint_mod % input_buf) ≢ newline) (sym z)
        byte;
}

consoleread_lem_example :
    Reads false 10 [] with_line
      (take_text true 10 (ready with_line))
      (consoleread false 10 (unlocked with_line))
consoleread_lem_example = consoleread_lem false 10 with_line with_line-IsValid
