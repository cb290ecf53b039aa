-- ===== src/Proc/Lifecycle.antt =====
-- The operations that make and end processes: allocproc, userinit, fork, exit, kill, growproc.
use operating_systems_projec.Prelude.{
  ℕ, zero, suc, ◌+◌, Bool, true, false, Option, none, some, ◌==◌, if◌then◌else◌, update,
}
use operating_systems_projec.Prelude.Kernel.{
  acquire, release, look, change, pure, panic_if, ◌>>=◌, ◌>>◌,
}
use operating_systems_projec.Proc.Table.{
  nproc, nofile, unused, embryo, sleeping, runnable, zombie, at_forkret, free_page, filedup,
  fileclose, idup, iput, begin_op, end_op, Ptable, in_exit, ProcK, set_proc, call, state_is, is_ptr,
  find_proc, wakeup1, sched,
}
use operating_systems_projec.Spinlock.{Cpu}

-- The part of allocproc under the lock: the first UNUSED entry becomes an EMBRYO with the next pid.
unfoldable pub claim : ProcK (Option ℕ)
claim = do
  acquire
  t ← look
  let found = find_proc (λ p. state_is p.state unused) nproc 0 t.proc
  change (λ t. elim found [
    | none ↦ t
    | some i ↦ record (set_proc i (λ p. record p { state = embryo; pid = t.nextpid }) t) {
      nextpid = t.nextpid + 1;
    }
  ])
  release
  pure found

-- The rest of allocproc for entry `i`: `page` is what kalloc returns. The new context is zero but
-- for its return address.
unfoldable pub set_up_stack : Option ℕ → ℕ → ProcK (Option ℕ)
set_up_stack none i = do
  change (set_proc i (λ p. record p { kstack = none; state = unused }))
  pure none
set_up_stack (some k) i = do
  change (set_proc i (λ p. record p { kstack = some k; context = at_forkret }))
  pure (some i)

unfoldable pub allocproc : Option ℕ → ProcK (Option ℕ)
unfolding claim set_up_stack
allocproc page = do found ← claim; elim found [ none ↦ pure none | some i ↦ set_up_stack page i ]

-- The loop of fork over the open files, from descriptor `fd` with `rounds` left.
unfoldable pub dup_files : (rounds fd : ℕ) → (parent child : ℕ) → Ptable → Ptable
dup_files zero fd c n t = t
dup_files (suc r) fd c n t = dup_files r (fd + 1) c n (elim ((t.proc c).ofile fd) [
  | none ↦ t
  | some f ↦ call (filedup f) (set_proc n (λ p. record p { ofile = update p.ofile fd (some f) }) t)
])

-- The index of %eax in a trap frame.
abbrev pub eax : ℕ
eax = 7

-- fork once copyuvm has returned the page table `pd` for entry `n`.
unfoldable pub fill_child : (cur n pd : ℕ) → Ptable → Ptable
unfolding dup_files
fill_child cur n pd t =
    let copied =
      set_proc n
        (λ p. record p {
          pgdir = some pd;
          sz = (t.proc cur).sz;
          parent = some cur;
          tf = update (t.proc cur).tf eax 0;
        })
        t in
    let files = dup_files nofile 0 cur n copied in
    set_proc n (λ p. record p { cwd = (t.proc cur).cwd; name = (t.proc cur).name })
      (call (idup (t.proc cur).cwd) files)

-- fork by process `cur`: `page` is what kalloc returns to allocproc, `pd` what copyuvm returns.
unfoldable pub fork : ℕ → (page pd : Option ℕ) → ProcK (Option ℕ)
unfolding allocproc fill_child
fork cur page pd = do
  found ← allocproc page
  elim found [
    | none ↦ pure none
    | some n ↦ elim pd [
      | none ↦ (do
        t ← look
        free_page (t.proc n).kstack
        change (set_proc n (λ p. record p { kstack = none; state = unused; pgdir = none }))
        pure none)
      | some d ↦ (do
        change (fill_child cur n d)
        t ← look
        acquire
        change (set_proc n (λ p. record p { state = runnable }))
        release
        pure (some (t.proc n).pid))
    ]
  ]

-- What exit does with descriptor `fd`, which holds `o`.
abbrev pub close_fd : Option ℕ → (fd cur : ℕ) → Ptable → Ptable
close_fd none fd cur t = t
close_fd (some f) fd cur t =
    set_proc cur (λ p. record p { ofile = update p.ofile fd none }) (call (fileclose f) t)

-- The loop of exit that closes the files, from descriptor `fd` with `rounds` left.
unfoldable pub close_files : (rounds fd : ℕ) → ℕ → Ptable → Ptable
close_files zero fd c t = t
close_files (suc r) fd c t = close_files r (fd + 1) c (close_fd ((t.proc c).ofile fd) fd c t)

-- The body of exit's loop over the table: a child of `cur` goes to init, which is woken if the child
-- is a zombie.
unfoldable pub abandon_one : (cur i : ℕ) → Ptable → Ptable
unfolding wakeup1
abandon_one cur i t =
    if is_ptr (t.proc i).parent cur
    then (let u = set_proc i (λ p. record p { parent = t.initproc }) t in
        if state_is (t.proc i).state zombie then wakeup1 t.initproc u else u)
    else t

unfoldable pub abandon : (rounds i : ℕ) → (cur : ℕ) → Ptable → Ptable
unfolding abandon_one
abandon zero i cur t = t
abandon (suc r) i cur t = abandon r (i + 1) cur (abandon_one cur i t)

-- `begin_op(); iput(curproc->cwd); end_op(); curproc->cwd = 0;`
abbrev pub leave_fs : ℕ → Ptable → Ptable
leave_fs cur t =
    let u = call begin_op t in
    set_proc cur (λ p. record p { cwd = none }) (call end_op (call (iput (u.proc cur).cwd) u))

-- exit before it takes ptable.lock.
unfoldable pub drop_all : ℕ → Ptable → Ptable
drop_all cur t = leave_fs cur (close_files nofile 0 cur t)

-- exit under ptable.lock, up to sched.
unfoldable pub become_zombie : ℕ → Ptable → Ptable
become_zombie cur t =
    set_proc cur (λ p. record p { state = zombie })
      (abandon nproc 0 cur (wakeup1 (t.proc cur).parent t))

-- exit by process `cur`: it gives up the CPU for good and leaves ptable.lock to the scheduler. (What
-- stands behind sched in exit is not reached.)
unfoldable pub exit : Cpu → ℕ → ProcK (Unit {0})
exit cpu cur = do
  t ← look
  panic_if (is_ptr t.initproc cur)
  change (drop_all cur)
  acquire
  change (become_zombie cur)
  sched cpu cur in_exit

-- kill: the first process with that pid.
unfoldable pub kill : ℕ → ProcK Bool
kill pid = do
  acquire
  t ← look
  let found = find_proc (λ p. p.pid == pid) nproc 0 t.proc
  change (λ t. elim found [
    | none ↦ t
    | some i ↦
        set_proc i
          (λ p. record p {
            killed = true;
            state = if state_is p.state sleeping then runnable else p.state;
          })
          t
  ])
  release
  pure (elim found [ none ↦ false | some _ ↦ true ])
