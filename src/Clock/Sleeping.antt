-- ===== src/Clock/Sleeping.antt =====
-- A process that sleeps in sys_sleep gets on when its ticks are over.
use operating_systems_projec.Prelude.{
  ℕ, zero, suc, ◌+◌, ◌-◌, ◌%◌, ◌^◌, ◌≤◌, ◌<◌, ◌≡◌, refl, sym, ap, ap₂, ◌∙◌, inl, inr, Bool, true,
  false, Option, some, ltb, if◌then◌else◌, Bool-cases, arith,
}
use operating_systems_projec.Prelude.Kernel.{Outcome, ok, asleep, panic, Locked, locked, unlocked}
use operating_systems_projec.Syscall.{Caller, argint}
use operating_systems_projec.Clock.{
  Clock, Sleeper, uint_mod, sleep_loop, sleep_ticks, sleep_for, sys_sleep, timer,
}

abbrev pub SleepOutcome : Type 0
SleepOutcome = Outcome Sleeper (Locked Clock) (Option ℕ)

-- The sleeper that is woken takes the lock again and goes on in its loop.
unfoldable pub wake : (killed : Bool) → Sleeper → Locked Clock → SleepOutcome
wake killed r s = elim s.held [
  | true ↦ panic
  | false ↦ sleep_loop killed r.ticks0 r.n (record s { held = true })
]

-- The next interrupt of CPU 0, and the sleeper behind it; one that has returned is not concerned.
unfoldable pub next : (killed : Bool) → SleepOutcome → SleepOutcome
next killed (ok a s) = ok a s
next killed panic = panic
next killed (asleep r s) = elim (timer 0 s) [
  | ok u t ↦ wake killed r t
  | asleep q t ↦ panic
  | panic ↦ panic
]

-- sys_sleep and then `k` interrupts of the timer.
unfoldable pub after_ticks : (killed : Bool) → Caller → (k : ℕ) → Clock → SleepOutcome
after_ticks killed c zero t = sys_sleep c killed (unlocked t)
after_ticks killed c (suc k) t = next killed (after_ticks killed c k t)

-- The clock after `k` interrupts.
abbrev pub later : ℕ → Clock → Clock
later k t = record { ticks = (t.ticks + k) % uint_mod; wakeups = t.wakeups + k }

-- The loop of a sleeper that has slept for `j` ticks.
sleep_loop_lem :
    (n j : ℕ) (t : Clock)
    → t.ticks < 2 ^ 32
    → j < 2 ^ 32
    → sleep_loop false t.ticks n (locked (later j t)) ≡ (
        if ltb j n
        then asleep (record { ticks0 = t.ticks; n = n }) (unlocked (later j t))
        else ok (some 0) (unlocked (later j t)))
unfolding sleep_loop
sleep_loop_lem n j t h m =
    let d : ((t.ticks + j) % uint_mod + uint_mod - t.ticks) % uint_mod ≡ j = omega arith in
    elim (Bool-cases (ltb j n)) [ inl e ↦ rw (d, e) refl | inr e ↦ rw (d, e) refl ]

later-zero : (t : Clock) → t.ticks < 2 ^ 32 → later 0 t ≡ t
later-zero t h =
    let a : (t.ticks + 0) % uint_mod ≡ t.ticks = omega arith in
    let b : t.wakeups + 0 ≡ t.wakeups = omega arith in
    ap₂ (λ (x : ℕ) (y : ℕ). record { ticks = x; wakeups = y }) a b

later-suc :
    (k : ℕ) (t : Clock)
    → record { ticks = ((later k t).ticks + 1) % uint_mod; wakeups = suc (later k t).wakeups }
      ≡ later (suc k) t
later-suc k t =
    let a : ((t.ticks + k) % uint_mod + 1) % uint_mod ≡ (t.ticks + suc k) % uint_mod =
      omega arith in
    let b : suc (t.wakeups + k) ≡ t.wakeups + suc k = omega arith in
    ap₂ (λ (x : ℕ) (y : ℕ). record { ticks = x; wakeups = y }) a b

next-asleep :
    (n k : ℕ) (t : Clock)
    → t.ticks < 2 ^ 32
    → suc k < 2 ^ 32
    → next false (asleep (record { ticks0 = t.ticks; n = n }) (unlocked (later k t))) ≡ (
        if ltb (suc k) n
        then asleep (record { ticks0 = t.ticks; n = n }) (unlocked (later (suc k) t))
        else ok (some 0) (unlocked (later (suc k) t)))
unfolding next wake timer
next-asleep n k t h m =
    ap (λ (u : Clock). sleep_loop false t.ticks n (locked u)) (later-suc k t)
    ∙ sleep_loop_lem n (suc k) t h m

-- Where it returns by the interrupt number `n`, it returns at that one.
abbrev asleep_or : (n j i : ℕ) → Clock → SleepOutcome
asleep_or n j i t =
    if ltb j n
    then asleep (record { ticks0 = t.ticks; n = n }) (unlocked (later j t))
    else ok (some 0) (unlocked (later i t))

same_end : (n j : ℕ) (t : Clock) → j ≤ n → asleep_or n j j t ≡ asleep_or n j n t
same_end n j t h = elim (Bool-cases (ltb j n)) [
  | inl e ↦ rw e refl
  | inr e ↦
      let q : j ≡ n = ground arith in rw e (ap (λ (i : ℕ). ok (some 0) (unlocked (later i t))) q)
]

sys_sleep-loop :
    (c : Caller) (n : ℕ) (t : Clock)
    → argint c 0 ≡ some n
    → sys_sleep c false (unlocked t) ≡ sleep_loop false t.ticks n (locked t)
unfolding sys_sleep sleep_ticks
sys_sleep-loop c n t e = ap (λ o. sleep_for false o (unlocked t)) e

-- sys_sleep of `n` ticks, resumed behind each interrupt of the timer in a process that is not killed, on a
-- clock whose lock is free, with `n` and the ticks below 2 ^ 32: it sleeps until the interrupt number `n`,
-- and then returns 0.
pub sys_sleep_lem :
    (c : Caller) (n k : ℕ) (t : Clock)
    → argint c 0 ≡ some n
    → t.ticks < 2 ^ 32
    → n < 2 ^ 32
    → after_ticks false c k t ≡ (
        if ltb k n
        then asleep (record { ticks0 = t.ticks; n = n }) (unlocked (later k t))
        else ok (some 0) (unlocked (later n t)))
unfolding after_ticks
sys_sleep_lem c n zero t e h m =
    sys_sleep-loop c n t e
    ∙ ap (λ (u : Clock). sleep_loop false t.ticks n (locked u)) (sym (later-zero t h))
    ∙ sleep_loop_lem n 0 t h (omega arith)
    ∙ same_end n 0 t (omega arith)
sys_sleep_lem c n (suc k) t e h m = elim (Bool-cases (ltb k n)) [
  | inl f ↦
      let ih : after_ticks false c k t
          ≡ asleep (record { ticks0 = t.ticks; n = n }) (unlocked (later k t)) =
        sys_sleep_lem c n k t e h m ∙ (rw f refl) in
      ap (next false) ih ∙ next-asleep n k t h (ground arith) ∙ same_end n (suc k) t (ground arith)
  | inr f ↦
      let ih : after_ticks false c k t ≡ ok (some 0) (unlocked (later n t)) =
        sys_sleep_lem c n k t e h m ∙ (rw f refl) in
      let g : ltb (suc k) n ≡ false = ground arith in
      rw g (ap (next false) ih ∙ (unfold next in refl))
]
