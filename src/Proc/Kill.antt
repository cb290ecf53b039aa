-- ===== src/Proc/Kill.antt =====
-- kill: who is marked, and who is woken.
use operating_systems_projec.Prelude.{
  ℕ, ◌<◌, ◌≡◌, refl, ◌⊎◌, inl, inr, Bool, true, false, Option, none, some, arith, ◌==◌,
  if◌then◌else◌,
}
use operating_systems_projec.Prelude.Kernel.{ok, unlocked}
use operating_systems_projec.Proc.Table.{
  Proc, Ptable, nproc, sleeping, runnable, state_is, find_proc, set_proc,
}
use operating_systems_projec.Proc.Loops.{Found, find_proc-Found}
use operating_systems_projec.Proc.Lifecycle.{kill}

abbrev pub has_pid : ℕ → Proc → Bool
has_pid pid p = p.pid == pid

-- What kill does to the process that it finds.
abbrev pub marked : Proc → Proc
marked p = record p {
  killed = true;
  state = if state_is p.state sleeping then runnable else p.state;
}

-- kill of `pid` succeeds exactly if some entry has that pid. It then marks the first such entry as
-- killed, makes it RUNNABLE if it was SLEEPING, and changes nothing else; if it fails it changes
-- nothing. It neither sleeps nor panics, and leaves the lock free.
pub kill_lem :
    (pid : ℕ) (t : Ptable)
    → ((k : ℕ) × (k < nproc)
        × (has_pid pid (t.proc k) ≡ true)
        × ((j : ℕ) → j < k → has_pid pid (t.proc j) ≡ false)
        × (kill pid (unlocked t) ≡ ok true (unlocked (set_proc k marked t))))
      ⊎ (((j : ℕ) → j < nproc → has_pid pid (t.proc j) ≡ false)
          × (kill pid (unlocked t) ≡ ok false (unlocked t)))
unfolding kill
kill_lem pid t =
    branch (find_proc (has_pid pid) nproc 0 t.proc) refl
      (find_proc-Found (has_pid pid) nproc 0 t.proc)
  where
    branch :
        (found : Option ℕ)
        → find_proc (has_pid pid) nproc 0 t.proc ≡ found
        → Found (has_pid pid) nproc 0 t.proc found
        → ((k : ℕ) × (k < nproc)
            × (has_pid pid (t.proc k) ≡ true)
            × ((j : ℕ) → j < k → has_pid pid (t.proc j) ≡ false)
            × (kill pid (unlocked t) ≡ ok true (unlocked (set_proc k marked t))))
          ⊎ (((j : ℕ) → j < nproc → has_pid pid (t.proc j) ≡ false)
              × (kill pid (unlocked t) ≡ ok false (unlocked t)))
    branch none e v = inr ((λ j h. v j (omega arith) (omega arith)), simp e)
    branch (some k) e v = inl (k, omega arith, v.2, (λ j h. v.3 j (omega arith) h), simp e)
