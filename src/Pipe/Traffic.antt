-- ===== src/Pipe/Traffic.antt =====
-- Any sequence of calls on one pipe, by any processes: what was accepted and what was delivered.
use operating_systems_projec.Prelude.{
  ℕ, zero, suc, ◌-◌, ◌≤◌, ◌≡◌, refl, ◌∙◌, ap, sym, Bool, true, false, List, [], ◌∷◌, ◌++◌, Option,
  none, some, length, take, drop, take-append-drop, length-drop, arith, append-nil, append_assoc,
}
use operating_systems_projec.Prelude.Kernel.{Outcome, ok, asleep, panic, Locked, unlocked}
use operating_systems_projec.Pipe.{
  Pipe, Waits, for_room, for_data, pipesize, pipewrite, write_again, piperead, pipeclose, fresh,
}
use operating_systems_projec.Pipe.Contents.{count, contents, IsValid, fresh-IsValid}
use operating_systems_projec.Pipe.Refine.{
  Wrote, Appended, Read, pipewrite_lem, write_again_lem, piperead_lem,
}

-- A write, a write that goes on after a sleep, a read (new or woken), and a close.
pub data Call : Type 0 where
  writes : Bool → List ℕ → Call
  resumes : ℕ → Bool → List ℕ → Call
  reads : Bool → ℕ → Call
  closes : Bool → Call

-- The pipe with the bytes that its calls have taken from writers and given to readers.
pub record Traffic : Type 0 where
  pub pipe : Pipe
  pub sent : List ℕ
  pub received : List ℕ

-- The state that a call leaves to the next one.
abbrev after : {A : Type 0} → Pipe → Outcome Waits (Locked Pipe) A → Pipe
after p (ok a s) = s.guarded
after p (asleep r s) = s.guarded
after p panic = p

-- The bytes of `xs` that a write stored: all if it returned their number, those before the rest if
-- it sleeps, those that found room if it failed.
abbrev accepted : Pipe → List ℕ → Outcome Waits (Locked Pipe) (Option ℕ) → List ℕ
accepted p xs (ok (some n) s) = xs
accepted p xs (ok none s) = take (pipesize - count p) xs
accepted p xs (asleep (for_room ys) s) = take (length xs - length ys) xs
accepted p xs (asleep for_data s) = []
accepted p xs panic = []

abbrev delivered : Outcome Waits (Locked Pipe) (Option (List ℕ)) → List ℕ
delivered (ok (some out) s) = out
delivered _ = []

abbrev wrote : Traffic → List ℕ → Outcome Waits (Locked Pipe) (Option ℕ) → Traffic
wrote t xs o = record t { pipe = after t.pipe o; sent = t.sent ++ accepted t.pipe xs o }

abbrev read : Traffic → Outcome Waits (Locked Pipe) (Option (List ℕ)) → Traffic
read t o = record t { pipe = after t.pipe o; received = t.received ++ delivered o }

unfoldable pub step : Traffic → Call → Traffic
step t (writes killed xs) = wrote t xs (pipewrite killed xs (unlocked t.pipe))
step t (resumes n killed xs) = wrote t xs (write_again n killed xs (unlocked t.pipe))
step t (reads killed n) = read t (piperead killed n (unlocked t.pipe))
step t (closes w) = record t { pipe = after t.pipe (pipeclose w (unlocked t.pipe)) }

unfoldable pub run : Traffic → List Call → Traffic
run t [] = t
run t (c ∷ cs) = run (step t c) cs

unfoldable pub start : (ℕ → ℕ) → Traffic
start junk = record { pipe = fresh junk; sent = []; received = [] }

record IsFifo (t : Traffic) : Type 0 where
  valid : IsValid t.pipe
  order : t.sent ≡ t.received ++ contents t.pipe

take_all {ℓ} : {A : Type ℓ} (n : ℕ) (xs : List A) → length xs ≤ n → take n xs ≡ xs
take_all zero [] h = refl
take_all (suc n) [] h = refl
take_all zero (x ∷ xs) h = absurd (omega arith)
take_all (suc n) (x ∷ xs) h = ap (λ l. x ∷ l) (take_all n xs (omega arith))

Appended-IsFifo :
    (t : Traffic) (new : List ℕ) (s : Locked Pipe)
    → IsFifo t
    → Appended t.pipe new s
    → IsFifo (record t { pipe = s.guarded; sent = t.sent ++ new })
Appended-IsFifo t new s f a = record {
  valid = a.valid;
  order =
      ap (λ l. l ++ new) f.order
      ∙ append_assoc t.received (contents t.pipe) new
      ∙ ap (λ l. t.received ++ l) (sym a.bytes);
}

wrote-IsFifo :
    (t : Traffic) (n : ℕ) (killed : Bool) (xs : List ℕ) (o : Outcome Waits (Locked Pipe) (Option ℕ))
    → IsFifo t
    → Wrote n killed t.pipe (pipesize - count t.pipe) xs o
    → IsFifo (wrote t xs o)
wrote-IsFifo t n killed xs (ok (some m) s) f w = Appended-IsFifo t xs s f w.2
wrote-IsFifo t n killed xs (ok none s) f w = Appended-IsFifo t _ s f w.2
wrote-IsFifo t n killed xs (asleep (for_room ys) s) f w = rw e (Appended-IsFifo t _ s f w.3)
  where
    e : length xs - length ys ≡ pipesize - count t.pipe
    e = rw w.1 (omega (arith, length-drop (pipesize - count t.pipe) xs))
wrote-IsFifo t n killed xs (asleep for_data s) f w = absurd w
wrote-IsFifo t n killed xs panic f w = absurd w

read-IsFifo :
    (t : Traffic) (n : ℕ) (killed : Bool) (o : Outcome Waits (Locked Pipe) (Option (List ℕ)))
    → IsFifo t
    → Read killed n t.pipe o
    → IsFifo (read t o)
read-IsFifo t n killed (ok (some out) s) f (a, b, w) = record {
  valid = w.valid;
  order =
      f.order
      ∙ ap (λ l. t.received ++ l) (sym (take-append-drop n (contents t.pipe)))
      ∙ sym (append_assoc t.received (take n (contents t.pipe)) (drop n (contents t.pipe)))
      ∙ (rw (w.got, w.left));
}
read-IsFifo t n killed (ok none s) f (a, b, c, e) = rw (e, append-nil) f
read-IsFifo t n killed (asleep for_data s) f (a, b, c, e) = rw (e, append-nil) f
read-IsFifo t n killed (asleep (for_room ys) s) f w = absurd w
read-IsFifo t n killed panic f w = absurd w

closes-IsFifo : (t : Traffic) (w : Bool) → IsFifo t → IsFifo (step t (closes w))
unfolding step pipeclose
closes-IsFifo t true f = record { valid = omega arith; order = f.order }
closes-IsFifo t false f = record { valid = omega arith; order = f.order }

step-IsFifo : (t : Traffic) (c : Call) → IsFifo t → IsFifo (step t c)
unfolding step
step-IsFifo t (writes killed xs) f =
    wrote-IsFifo t (length xs) killed xs _ f (pipewrite_lem killed xs t.pipe f.valid)
step-IsFifo t (resumes n killed xs) f =
    wrote-IsFifo t n killed xs _ f (write_again_lem n killed xs t.pipe f.valid)
step-IsFifo t (reads killed n) f = read-IsFifo t n killed _ f (piperead_lem killed n t.pipe f.valid)
step-IsFifo t (closes w) f = closes-IsFifo t w f

run-IsFifo : (t : Traffic) (cs : List Call) → IsFifo t → IsFifo (run t cs)
unfolding run
run-IsFifo t [] f = f
run-IsFifo t (c ∷ cs) f = run-IsFifo (step t c) cs (step-IsFifo t c f)

-- However writes, reads, wake-ups and closes of a new pipe are interleaved, the bytes accepted from
-- writers are the bytes delivered to readers followed by the bytes that the pipe still holds, in
-- order, and it holds at most PIPESIZE of them.
pub run_fifo :
    (junk : ℕ → ℕ) (cs : List Call)
    → let t = run (start junk) cs in
      (t.sent ≡ t.received ++ contents t.pipe) × (count t.pipe ≤ pipesize)
unfolding start
run_fifo junk cs = (f.order, f.valid.fits)
  where
    f : IsFifo (run (start junk) cs)
    f =
        run-IsFifo (start junk) cs
          (record { valid = (fresh-IsValid junk).0; order = sym (fresh-IsValid junk).1 })
