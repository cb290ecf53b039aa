-- ===== src/Proc/Table.antt =====
-- `struct proc`, the process table, and the loops over it. A process is named by its index in
-- `ptable.proc`. A pointer that may be 0 is an `Option`.
use operating_systems_projec.Prelude.{
  ℕ, zero, suc, ◌+◌, ◌≡◌, Bool, true, false, not, ◌&&◌, List, ◌∷◌, Option, none, some, ◌==◌,
  if◌then◌else◌, update,
}
use operating_systems_projec.Prelude.Kernel.{Kernel, Locked, asleep, panic, change}
use operating_systems_projec.Spinlock.{Cpu}

abbrev pub nproc : ℕ
nproc = 64

abbrev pub nofile : ℕ
nofile = 16

-- `enum procstate`
pub data ProcState : Type 0 where
  unused embryo sleeping runnable running zombie : ProcState

-- Where `swtch` to a process goes on: at forkret, or behind the swtch in sched.
pub data Context : Type 0 where
  at_forkret in_sched : Context

-- `struct proc`. A channel is an address, and that of process `i` is `i`. `tf` is the trap frame by register; `ofile`, `cwd`, `pgdir` and `kstack` are
-- addresses of what they point to.
pub record Proc : Type 0 where
  pub sz : ℕ
  pub pgdir : Option ℕ
  pub kstack : Option ℕ
  pub state : ProcState
  pub pid : ℕ
  pub parent : Option ℕ
  pub tf : ℕ → ℕ
  pub context : Context
  pub chan : Option ℕ
  pub killed : Bool
  pub ofile : ℕ → Option ℕ
  pub cwd : Option ℕ
  pub name : List ℕ

-- The calls that proc.c makes of the other parts of the kernel, with their arguments. idup and iput are
-- called with `cwd` as it is, the null pointer included.
pub data Call : Type 0 where
  kfree filedup fileclose freevm : ℕ → Call
  idup iput : Option ℕ → Call
  begin_op end_op : Call
  switchuvm : ℕ → Call

-- `ptable` with the static variables of proc.c, and the calls made so far, the last one first.
pub record Ptable : Type 0 where
  pub proc : ℕ → Proc
  pub nextpid : ℕ
  pub initproc : Option ℕ
  pub calls : List Call

-- Where a process that has left the CPU goes on.
pub data Resume : Type 0 where
  in_wait in_yield in_exit : Resume

abbrev pub ProcK : Type 0 → Type 0
ProcK A = Kernel Resume (Locked Ptable) A

abbrev pub set_proc : ℕ → (Proc → Proc) → Ptable → Ptable
set_proc i f t = record t { proc = update t.proc i (f (t.proc i)) }

abbrev pub call : Call → Ptable → Ptable
call c t = record t { calls = c ∷ t.calls }

-- `kfree(p)` and `freevm(p)`, which panic on a null pointer.
abbrev pub free_page : Option ℕ → ProcK (Unit {0})
free_page none s = panic
free_page (some k) s = change (call (kfree k)) s

abbrev pub free_pgdir : Option ℕ → ProcK (Unit {0})
free_pgdir none s = panic
free_pgdir (some d) s = change (call (freevm d)) s

-- `p->state == s`
abbrev pub state_is : ProcState → ProcState → Bool
state_is unused unused = true
state_is embryo embryo = true
state_is sleeping sleeping = true
state_is runnable runnable = true
state_is running running = true
state_is zombie zombie = true
state_is _ _ = false

abbrev pub is_ptr : Option ℕ → ℕ → Bool
is_ptr none a = false
is_ptr (some b) a = b == a

-- Equality of two pointers.
abbrev pub same_ptr : Option ℕ → Option ℕ → Bool
same_ptr none none = true
same_ptr none (some b) = false
same_ptr (some a) none = false
same_ptr (some a) (some b) = a == b

-- `for(p = ptable.proc; ...) if(test(p)) found`, from index `i` with `rounds` left.
unfoldable pub find_proc : (Proc → Bool) → (rounds i : ℕ) → (ℕ → Proc) → Option ℕ
find_proc test zero i proc = none
find_proc test (suc r) i proc = if test (proc i) then some i else find_proc test r (i + 1) proc

-- `for(p = ptable.proc; ...) body(p)`, for a body that changes only `*p`.
unfoldable pub for_each : (Proc → Proc) → (rounds i : ℕ) → (ℕ → Proc) → ℕ → Proc
for_each f zero i proc = proc
for_each f (suc r) i proc = for_each f r (i + 1) (update proc i (f (proc i)))

abbrev pub wake_one : Option ℕ → Proc → Proc
wake_one chan p =
    if state_is p.state sleeping && same_ptr p.chan chan then record p { state = runnable } else p

unfoldable pub wakeup1 : Option ℕ → Ptable → Ptable
unfolding for_each
wakeup1 chan t = record t { proc = for_each (wake_one chan) nproc 0 t.proc }

-- sched by process `cur` on a CPU, up to the swtch, which leaves the lock held to the scheduler.
unfoldable pub sched : {A : Type 0} → Cpu → ℕ → Resume → ProcK A
sched cpu cur r s =
    if not s.held
    then panic
    else if not (cpu.ncli == 1)
    then panic
    else if state_is (s.guarded.proc cur).state running
    then panic
    else if cpu.interrupts
    then panic
    else asleep r s

-- A CPU that holds one lock, with interrupts off.
abbrev pub IsSwitching : Cpu → Type 0
IsSwitching cpu = (cpu.ncli ≡ 1) × (cpu.interrupts ≡ false)
