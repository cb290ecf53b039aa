-- ===== src/Proc/Schedule.antt =====
-- The hand-over of the CPU: scheduler, sched, yield, sleep, wakeup, forkret; and the listing of cps.
use operating_systems_projec.Prelude.{
  ℕ, zero, suc, ◌+◌, Bool, true, false, List, [], ◌∷◌, Option, none, some, if◌then◌else◌,
}
use operating_systems_projec.Prelude.Kernel.{acquire, release, look, change, pure, ◌>>=◌, ◌>>◌}
use operating_systems_projec.Spinlock.{Cpu}
use operating_systems_projec.Proc.Table.{
  nproc, ProcState, sleeping, runnable, running, Proc, switchuvm, Resume, in_yield, ProcK, set_proc,
  call, state_is, find_proc, wakeup1, sched,
}
use operating_systems_projec.Proc.Wait.{go_to_sleep}

unfoldable pub yield : {A : Type 0} → Cpu → ℕ → ProcK A
yield cpu cur = do
  acquire
  change (set_proc cur (λ p. record p { state = runnable }))
  sched cpu cur in_yield

-- sleep on `chan`, for a lock other than ptable.lock, up to the swtch. The release of that lock
-- stands between the two steps, and is its owner's.
unfoldable pub sleep_on : {A : Type 0} → Cpu → ℕ → Option ℕ → Resume → ProcK A
sleep_on cpu cur chan r = do acquire; change (go_to_sleep cur chan); sched cpu cur r

-- sleep behind the swtch, with ptable.lock held by this CPU again.
unfoldable pub tidy_up : ℕ → ProcK (Unit {0})
tidy_up cur = do change (set_proc cur (λ p. record p { chan = none })); release

unfoldable pub wakeup : Option ℕ → ProcK (Unit {0})
unfolding wakeup1
wakeup chan = do acquire; change (wakeup1 chan); release

-- The loop of scheduler from entry `i` with `rounds` left, and the lock held: the process to which it
-- switches, marked RUNNING, or none at the end of the table.
unfoldable pub pick : (rounds i : ℕ) → ProcK (Option ℕ)
unfolding find_proc
pick rounds i = do
  t ← look
  let found = find_proc (λ p. state_is p.state runnable) rounds i t.proc
  change (λ t. elim found [
    | none ↦ t
    | some j ↦ set_proc j (λ p. record p { state = running }) (call (switchuvm j) t)
  ])
  pure found

-- What cps prints of a process: its name, its pid and its state.
pub record Row : Type 0 where
  pub name : List ℕ
  pub pid : ℕ
  pub state : ProcState

abbrev pub row : Proc → Row
row p = record { name = p.name; pid = p.pid; state = p.state }

abbrev pub is_listed : Proc → Bool
is_listed p = elim p.state [ sleeping ↦ true | running ↦ true | runnable ↦ true | _ ↦ false ]

unfoldable pub cps_rows : (rounds i : ℕ) → (ℕ → Proc) → List Row
cps_rows zero i proc = []
cps_rows (suc r) i proc =
    let rest = cps_rows r (i + 1) proc in if is_listed (proc i) then row (proc i) ∷ rest else rest

-- cps returns 22, and prints a heading and these rows.
unfoldable pub cps : ProcK (ℕ × List Row)
unfolding cps_rows
cps = do acquire; t ← look; release; pure (22, cps_rows nproc 0 t.proc)
