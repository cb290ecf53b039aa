-- ===== src/Proc/Tests.antt =====
-- Runs on a small process table, and instances of the theorems on processes.
use operating_systems_projec.Prelude.{
  ℕ, ◌<◌, ◌≡◌, refl, ◌⊎◌, true, false, Option, none, some, [], ◌==◌, if◌then◌else◌, arith,
}
use operating_systems_projec.Prelude.Kernel.{ok, asleep, panic, locked, unlocked}
use operating_systems_projec.Spinlock.{Cpu}
use operating_systems_projec.Proc.Table.{
  Proc, Ptable, ProcState, unused, sleeping, running, zombie, in_sched, nproc, in_exit, is_ptr,
  set_proc,
}
use operating_systems_projec.Proc.Lifecycle.{allocproc, exit, kill}
use operating_systems_projec.Proc.Wait.{wait}
use operating_systems_projec.Proc.Reap.{HasMemory, Waited, wait_lem}
use operating_systems_projec.Proc.Birth.{DistinctPids, Alloc, allocproc_lem}
use operating_systems_projec.Proc.Kill.{has_pid, marked, kill_lem}
use operating_systems_projec.Proc.Exit.{Exited, exit_lem}

abbrev entry : ProcState → ℕ → Option ℕ → Option ℕ → Proc
entry s pid parent chan = record {
  sz = 4096;
  pgdir = some 900;
  kstack = some 800;
  state = s;
  pid = pid;
  parent = parent;
  tf = λ r. 0;
  context = in_sched;
  chan = chan;
  killed = false;
  ofile = λ fd. if fd == 0 then some 70 else none;
  cwd = some 60;
  name = [];
}

-- Entry 0 is init, asleep in wait; 1 is its child, which runs; 2 is a child of 1, a zombie.
abbrev family : Ptable
family = record {
  proc = λ i.
      if i == 0
      then entry sleeping 1 none (some 0)
      else if i == 1
      then entry running 2 (some 0) none
      else if i == 2
      then entry zombie 3 (some 1) none
      else entry unused 0 none none;
  nextpid = 4;
  initproc = some 0;
  calls = [];
}

abbrev cpu : Cpu
cpu = record { interrupts = false; ncli = 1; intena = true }

family-HasMemory : HasMemory family
family-HasMemory k h z = (800, 900, ground arith, ground arith)

wait_lem_example : Waited 1 family (wait cpu 1 (unlocked family))
wait_lem_example = wait_lem cpu 1 family (refl, refl) family-HasMemory

exit_lem_example :
    ((is_ptr (some 0) 1 ≡ true) × (exit cpu 1 (unlocked family) ≡ panic))
    ⊎ ((is_ptr (some 0) 1 ≡ false)
        × ((u : Ptable) × (exit cpu 1 (unlocked family) ≡ asleep in_exit (locked u))
            × Exited 1 family u))
exit_lem_example = exit_lem cpu 1 family (refl, refl) (λ e. cc)

family-DistinctPids : DistinctPids family
family-DistinctPids = record {
  below = λ i h u. ground arith;
  distinct = λ i j p q u w e. ground arith;
}

allocproc_lem_example : Alloc (some 801) family (allocproc (some 801) (unlocked family))
allocproc_lem_example = allocproc_lem (some 801) family family-DistinctPids

kill_lem_example :
    ((k : ℕ) × (k < nproc)
      × (has_pid 1 (family.proc k) ≡ true)
      × ((j : ℕ) → j < k → has_pid 1 (family.proc j) ≡ false)
      × (kill 1 (unlocked family) ≡ ok true (unlocked (set_proc k marked family))))
    ⊎ (((j : ℕ) → j < nproc → has_pid 1 (family.proc j) ≡ false)
        × (kill 1 (unlocked family) ≡ ok false (unlocked family)))
kill_lem_example = kill_lem 1 family
