-- ===== src/Proc/Loops.antt =====
-- What the loops over the process table compute.
use operating_systems_projec.Prelude.{
  ℕ, zero, suc, ◌+◌, ◌≤◌, ◌<◌, ◌≡◌, ◌∙◌, inl, inr, Bool, true, false, ◌&&◌, Option, none, some,
  arith, ltb, leb, if◌then◌else◌, update, ℕ_discrete, Bool-cases,
}
use operating_systems_projec.Proc.Table.{
  Proc, Ptable, nproc, find_proc, for_each, wake_one, wakeup1, sched, state_is, running, sleeping,
  IsSwitching, Resume,
}
use operating_systems_projec.Proc.Wait.{go_to_sleep}
use operating_systems_projec.Spinlock.{Cpu}
use operating_systems_projec.Prelude.Kernel.{asleep, locked}

-- A search finds the first entry that passes, or none passes.
abbrev pub Found : (Proc → Bool) → (rounds i : ℕ) → (ℕ → Proc) → Option ℕ → Type 0
Found test r i proc none = (j : ℕ) → i ≤ j → j < i + r → test (proc j) ≡ false
Found test r i proc (some k) =
    (i ≤ k)
    × (k < i + r)
    × (test (proc k) ≡ true)
    × ((j : ℕ) → i ≤ j → j < k → test (proc j) ≡ false)

pub find_proc-Found :
    (test : Proc → Bool) (r i : ℕ) (proc : ℕ → Proc) → Found test r i proc (find_proc test r i proc)
unfolding find_proc
find_proc-Found test zero i proc = λ j p q. absurd (omega arith)
find_proc-Found test (suc r) i proc = elim (Bool-cases (test (proc i))) [
  | inl e ↦ rw e (omega arith, omega arith, e, λ j p q. absurd (omega arith))
  | inr e ↦ rw e (later (find_proc test r (i + 1) proc) e (find_proc-Found test r (i + 1) proc))
]
  where
    here : (j : ℕ) → test (proc i) ≡ false → i ≡ j → test (proc j) ≡ false
    here j e p = rw (← p) e

    later :
        (o : Option ℕ)
        → test (proc i) ≡ false
        → Found test r (i + 1) proc o
        → Found test (suc r) i proc o
    later none e h = λ j p q. elim (ℕ_discrete i j) [
      | yes s ↦ here j e s
      | no s ↦ h j (omega arith) (omega arith)
    ]
    later (some k) e h = (
      omega arith,
      omega arith,
      h.2,
      λ j p q. elim (ℕ_discrete i j) [
        | yes s ↦ here j e s
        | no s ↦ h.3 j (omega arith) (omega arith)
      ],
    )

pub for_each_lem :
    (f : Proc → Proc) (r i : ℕ) (proc : ℕ → Proc) (j : ℕ)
    → for_each f r i proc j ≡ (if leb i j && ltb j (i + r) then f (proc j) else proc j)
unfolding for_each
for_each_lem f zero i proc j = ground arith
for_each_lem f (suc r) i proc j = elim (ℕ_discrete i j) [
  | yes s ↦ ground (arith, for_each_lem f r (i + 1) (update proc i (f (proc i))) j)
  | no s ↦ ground (arith, for_each_lem f r (i + 1) (update proc i (f (proc i))) j)
]

-- wakeup1 makes exactly the processes RUNNABLE that sleep on the channel, and changes nothing else.
pub wakeup1_lem :
    (chan : Option ℕ) (t : Ptable) (j : ℕ)
    → j < nproc
    → (wakeup1 chan t).proc j ≡ wake_one chan (t.proc j)
unfolding wakeup1
wakeup1_lem chan t j h = for_each_lem (wake_one chan) nproc 0 t.proc j ∙ (ground arith)

-- sched does not panic for a process that has changed its state, on a CPU that holds only ptable.lock.
pub sched_lem :
    {A : Type 0} (cpu : Cpu) (cur : ℕ) (r : Resume) (t : Ptable)
    → IsSwitching cpu
    → state_is (t.proc cur).state running ≡ false
    → sched {A = A} cpu cur r (locked t) ≡ asleep r (locked t)
unfolding sched
sched_lem cpu cur r t on e = simp (e, on.0, on.1)

-- A process that has gone to sleep is not running.
pub asleep_state :
    (cur : ℕ) (chan : Option ℕ) (t : Ptable) → ((go_to_sleep cur chan t).proc cur).state ≡ sleeping
asleep_state cur chan t = ground arith
