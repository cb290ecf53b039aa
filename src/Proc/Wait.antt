-- ===== src/Proc/Wait.antt =====
-- wait of proc.c: the scan for a zombie child, and what becomes of its entry.
use operating_systems_projec.Prelude.{
  ℕ, zero, suc, ◌+◌, Bool, false, not, ◌||◌, ◌&&◌, [], Option, none, some, if◌then◌else◌,
}
use operating_systems_projec.Prelude.Kernel.{acquire, release, look, change, pure, ◌>>=◌, ◌>>◌}
use operating_systems_projec.Proc.Table.{
  nproc, unused, sleeping, zombie, Proc, free_page, free_pgdir, Ptable, in_wait, ProcK, set_proc,
  state_is, is_ptr, sched,
}
use operating_systems_projec.Spinlock.{Cpu}

-- What the scan of wait finds: a zombie child, or none, and then whether there are children.
pub data Scan : Type 0 where
  reap : ℕ → Scan
  nothing : Bool → Scan

-- The scan from entry `i`, with `rounds` left and `havekids` so far.
unfoldable pub scan : (cur rounds i : ℕ) (havekids : Bool) → (ℕ → Proc) → Scan
scan cur zero i havekids proc = nothing havekids
scan cur (suc r) i havekids proc =
    let rest = scan cur r (i + 1) (havekids || is_ptr (proc i).parent cur) proc in
    if is_ptr (proc i).parent cur && state_is (proc i).state zombie then reap i else rest

-- The entry of a reaped child, from kfree to UNUSED.
unfoldable pub clear_entry : ℕ → ProcK (Unit {0})
clear_entry i = do
  t ← look
  free_page (t.proc i).kstack
  change (set_proc i (λ p. record p { kstack = none }))
  free_pgdir (t.proc i).pgdir
  change (
      set_proc i
        (λ p. record p { pid = 0; parent = none; name = []; killed = false; state = unused }))

-- `sleep(curproc, &ptable.lock)` by process `cur`, up to sched.
abbrev pub go_to_sleep : ℕ → Option ℕ → Ptable → Ptable
go_to_sleep cur chan = set_proc cur (λ p. record p { chan = chan; state = sleeping })

-- One turn of the loop of wait, with the lock held.
unfoldable pub wait_turn : Cpu → ℕ → ProcK (Option ℕ)
unfolding scan clear_entry
wait_turn cpu cur = do
  t ← look
  elim (scan cur nproc 0 false t.proc) [
    | reap i ↦ (do clear_entry i; release; pure (some (t.proc i).pid))
    | nothing havekids ↦
        if not havekids || (t.proc cur).killed
        then (do release; pure none)
        else (do change (go_to_sleep cur (some cur)); sched cpu cur in_wait)
  ]

unfoldable pub wait : Cpu → ℕ → ProcK (Option ℕ)
unfolding wait_turn
wait cpu cur = do acquire; wait_turn cpu cur

-- wait when the sleep returns: the lock is held again, and `chan` is tidied up.
unfoldable pub wait_again : Cpu → ℕ → ProcK (Option ℕ)
unfolding wait_turn
wait_again cpu cur = do
  acquire
  change (set_proc cur (λ p. record p { chan = none }))
  wait_turn cpu cur
