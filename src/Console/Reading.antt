-- ===== src/Console/Reading.antt =====
-- consoleread takes text from the finished lines of the ring.
use operating_systems_projec.Prelude.{
  ℕ, zero, suc, ◌-◌, ◌≤◌, ◌≡◌, ◌≢◌, refl, sym, ap, ap₂, inl, inr, Bool, true, false, List, [], ◌∷◌,
  ◌++◌, arith, some, ◌==◌, ltb, Bool-cases, append-nil,
}
use mathlib.Core.Path.{subst}
use operating_systems_projec.Prelude.Kernel.{ok, asleep, locked, unlocked}
use operating_systems_projec.Console.{
  Input, ctrl_d, newline, next_char, step_on, read_loop, consoleread,
}
use operating_systems_projec.Console.Ring.{ready, editing}
use operating_systems_projec.Console.Editing.{IsValid}
use operating_systems_projec.Console.Text.{
  take_text, Reads, step_on-IsValid, ready-step_on, step_back-step_on, no-ready, Reads-cons,
  editing-step_on,
}

-- Without text to read.
Reads-nil :
    (killed : Bool) (target n : ℕ) (got : List ℕ) (i : Input)
    → IsValid i
    → i.r ≡ i.w
    → Reads killed
        (suc n)
        got
        i
        (take_text (target == suc n) (suc n) [])
        (read_loop killed target (suc n) got (locked i))
unfolding read_loop take_text
Reads-nil killed target n got i v e =
    let q : (i.r == i.w) ≡ true = ground arith in
    record {
      after = i;
      valid = v;
      same_line = refl;
      left = no-ready i v e;
      returns = λ f. cc;
      fails = λ f k. rw (q, k) refl;
      sleeps = λ f k.
          let z : suc n ≡ suc n - 0 = omega arith in
          rw (q, k)
            (ap₂ (λ m l. asleep (record { left = m; got = l }) (unlocked i)) z
              (sym (append-nil got)));
    }

-- The read that returns here.
Reads-return :
    (killed : Bool) (n : ℕ) (got bytes all rest : List ℕ) (i j : Input)
    → all ≡ got ++ bytes
    → IsValid j
    → editing j ≡ editing i
    → ready j ≡ rest
    → Reads killed n got i
        (record { bytes = bytes; rest = rest; finished = true })
        (ok (some all) (unlocked j))
Reads-return killed n got bytes all rest i j a v e r = record {
  after = j;
  valid = v;
  same_line = e;
  left = r;
  returns = λ f. ap (λ l. ok (some l) (unlocked j)) a;
  fails = λ f. cc;
  sleeps = λ f. cc;
}

-- At ^D: it is left for the next read if something has been stored.
Reads-end :
    (killed : Bool) (target n : ℕ) (got : List ℕ) (i : Input)
    → IsValid i
    → suc n ≤ target
    → i.r ≢ i.w
    → next_char i ≡ ctrl_d
    → Reads killed
        (suc n)
        got
        i
        (take_text (target == suc n) (suc n) (next_char i ∷ ready (step_on i)))
        (read_loop killed target (suc n) got (locked i))
unfolding read_loop take_text
Reads-end killed target n got i v h m e =
    let q : (i.r == i.w) ≡ false = ground arith in
    let d : (next_char i == ctrl_d) ≡ true = ground arith in
    let g = sym (append-nil got) in
    elim (Bool-cases (ltb (suc n) target)) [
      | inl l ↦
          let f : (target == suc n) ≡ false = ground arith in
          rw (q, d, l, f, step_back-step_on i v)
            (Reads-return killed (suc n) got [] got (next_char i ∷ ready (step_on i)) i i g v refl
              (ready-step_on i v m))
      | inr l ↦
          let f : (target == suc n) ≡ true = ground arith in
          rw (q, d, l, f)
            (Reads-return killed (suc n) got [] got (ready (step_on i)) i (step_on i) g
              (step_on-IsValid i v m) (editing-step_on i) refl)
    ]

-- At any other byte, with what the loop does behind it.
Reads-byte :
    (killed : Bool) (target n : ℕ) (got : List ℕ) (i : Input)
    → IsValid i
    → i.r ≢ i.w
    → next_char i ≢ ctrl_d
    → Reads killed n
        (got ++ next_char i ∷ [])
        (step_on i)
        (take_text false n (ready (step_on i)))
        (read_loop killed target n (got ++ next_char i ∷ []) (locked (step_on i)))
    → Reads killed
        (suc n)
        got
        i
        (take_text (target == suc n) (suc n) (next_char i ∷ ready (step_on i)))
        (read_loop killed target (suc n) got (locked i))
unfolding read_loop take_text
Reads-byte killed target n got i v m e more =
    let q : (i.r == i.w) ≡ false = ground arith in
    let d : (next_char i == ctrl_d) ≡ false = ground arith in
    elim (Bool-cases (next_char i == newline)) [
      | inl l ↦
          rw (q, d, l)
            (Reads-return killed (suc n) got (newline ∷ []) (got ++ newline ∷ [])
              (ready (step_on i)) i (step_on i) refl (step_on-IsValid i v m) (editing-step_on i)
              refl)
      | inr l ↦
          rw (q, d, l)
            (Reads-cons killed n got i (take_text false n (ready (step_on i)))
              (read_loop killed target n (got ++ next_char i ∷ []) (locked (step_on i)))
              (next_char i) (editing-step_on i) more)
    ]

read_loop_lem :
    (killed : Bool) (target n : ℕ) (got : List ℕ) (i : Input)
    → IsValid i
    → n ≤ target
    → Reads killed n got i
        (take_text (target == n) n (ready i))
        (read_loop killed target n got (locked i))
read_loop_lem killed target zero got i v h =
    unfold read_loop in
    unfold take_text in
    record {
      after = i;
      valid = v;
      same_line = refl;
      left = refl;
      returns = λ f. ap (λ l. ok (some l) (unlocked i)) (sym (append-nil got));
      fails = λ f. cc;
      sleeps = λ f. cc;
    }
read_loop_lem killed target (suc n) got i v h =
    let run = read_loop killed target (suc n) got (locked i) in
    let reads =
      λ (t : List ℕ). Reads killed (suc n) got i (take_text (target == suc n) (suc n) t) run in
    elim (Bool-cases (i.r == i.w)) [
      | inl e ↦
          let q : i.r ≡ i.w = ground arith in
          subst reads (sym (no-ready i v q)) (Reads-nil killed target n got i v q)
      | inr e ↦
          let m : i.r ≢ i.w = ground arith in
          let f : (target == n) ≡ false = ground arith in
          let got2 = got ++ next_char i ∷ [] in
          let step = step_on i in
          let ih = read_loop_lem killed target n got2 step (step_on-IsValid i v m) (omega arith) in
          let more =
            subst
              (λ (b : Bool).
                Reads killed n got2 step (take_text b n (ready step))
                  (read_loop killed target n got2 (locked step)))
              f ih in
          subst reads (sym (ready-step_on i v m)) (elim (Bool-cases (next_char i == ctrl_d)) [
            | inl d ↦ Reads-end killed target n got i v h m (ground arith)
            | inr d ↦ Reads-byte killed target n got i v m (ground arith) more
          ])
    ]

-- consoleread of `n` bytes on a valid ring whose lock is free: it does not panic and frees the lock.
-- It takes the finished text up to a newline, which it stores too, to a ^D, or to `n` bytes, in order,
-- and returns what it took; where the text ends before, it fails if the process is killed, and else
-- sleeps with the bytes that are still to come. A ^D is taken away only by a read that stored nothing
-- before it; the line that is edited does not change, and the ring stays valid.
pub consoleread_lem :
    (killed : Bool) (n : ℕ) (i : Input)
    → IsValid i
    → Reads killed n [] i (take_text true n (ready i)) (consoleread killed n (unlocked i))
unfolding consoleread
consoleread_lem killed n i v =
    let e : (n == n) ≡ true = ground arith in
    subst
      (λ (b : Bool).
        Reads killed n [] i (take_text b n (ready i)) (read_loop killed n n [] (locked i)))
      e (read_loop_lem killed n n [] i v (omega arith))
