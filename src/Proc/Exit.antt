-- ===== src/Proc/Exit.antt =====
-- exit: what the process gives up, and what it leaves to the others.
use operating_systems_projec.Prelude.{
  ℕ, ◌+◌, ◌<◌, ◌≡◌, ◌≢◌, sym, refl, ap, ap₂, ◌∙◌, ◌⊎◌, inl, inr, true, false, ◌&&◌, Option, none,
  some, arith, Bool-cases, ltb, leb, if◌then◌else◌,
}
use mathlib.Core.Path.{subst}
use operating_systems_projec.Prelude.Kernel.{asleep, panic, locked, unlocked}
use operating_systems_projec.Spinlock.{Cpu}
use operating_systems_projec.Proc.Table.{
  Proc, Ptable, in_exit, nproc, nofile, sleeping, zombie, running, runnable, state_is, is_ptr,
  set_proc, wakeup1, wake_one, IsSwitching,
}
use operating_systems_projec.Proc.Loops.{wakeup1_lem, sched_lem}
use operating_systems_projec.Proc.Lifecycle.{drop_all, abandon, become_zombie, exit}
use operating_systems_projec.Proc.Orphans.{
  wakeup1-Woken, Moves, Moves-trans, adopted, parent-abandon, abandon-Moves, Frame, Frame-trans,
  abandon-Frame, wakeup1-SameRest, abandon-SameRest,
}
use operating_systems_projec.Proc.Leaving.{Dropped, Put, drop_all-Dropped, drop_all-Put, dropped}

-- What exit leaves: the process is a zombie with no file open and no directory, and keeps the rest of its
-- entry, but that its own parent may be init now; it has closed its files and put its directory; every
-- child of it is a child of init, and every other process has the parent that it had; and a process other
-- than the one that exits is otherwise as it was, or has gone from SLEEPING to RUNNABLE.
pub record Exited (cur : ℕ) (t u : Ptable) : Type 0 where
  pub self : u.proc cur ≡ record (t.proc cur) {
    state = zombie;
    cwd = none;
    ofile = (u.proc cur).ofile;
    parent = (u.proc cur).parent;
  }
  pub closed : (k : ℕ) → k < nofile → (u.proc cur).ofile k ≡ none
  pub put : Put cur t u
  pub parents : (j : ℕ) → j < nproc → j ≢ cur → (u.proc j).parent ≡ adopted cur t j
  pub frame : (j : ℕ) → j ≢ cur → Frame (t.proc j) (u.proc j)
  pub others : (j : ℕ) → j ≢ cur → Moves (t.proc j) (u.proc j)
  pub same : (u.nextpid ≡ t.nextpid) × (u.initproc ≡ t.initproc)
  -- The parent is woken if it sleeps in wait.
  pub woken :
      (p : ℕ)
      → p < nproc
      → p ≢ cur
      → (t.proc cur).parent ≡ some p
      → (t.proc p).state ≡ sleeping
      → (t.proc p).chan ≡ some p
      → (u.proc p).state ≡ runnable

initproc-wakeup1 : (chan : Option ℕ) (t : Ptable) → (wakeup1 chan t).initproc ≡ t.initproc
unfolding wakeup1
initproc-wakeup1 chan t = refl

adopted-cong :
    (cur j : ℕ) (t u : Ptable)
    → (u.proc j).parent ≡ (t.proc j).parent
    → u.initproc ≡ t.initproc
    → adopted cur u j ≡ adopted cur t j
adopted-cong cur j t u e f = ap₂ (λ p i. if is_ptr p cur then i else p) e f

zombie_ne :
    (cur j : ℕ) (t : Ptable)
    → j ≢ cur
    → (set_proc cur (λ p. record p { state = zombie }) t).proc j ≡ t.proc j
zombie_ne cur j t h = ground arith

runnable_stays : (p q : Proc) → p.state ≡ runnable → Moves p q → q.state ≡ runnable
runnable_stays p q e (inl a) = a ∙ e
runnable_stays p q e (inr a) = a.1

wake_one_lem :
    (c : ℕ) (p : Proc)
    → p.state ≡ sleeping
    → p.chan ≡ some c
    → (wake_one (some c) p).state ≡ runnable
wake_one_lem c p e f = simp (e, f) (ground arith)

become_zombie-Exited :
    (cur : ℕ) (t u : Ptable)
    → Dropped cur t u
    → ((u.proc cur).cwd ≡ none) × ((k : ℕ) → k < nofile → (u.proc cur).ofile k ≡ none)
    → Put cur t u
    → Exited cur t (become_zombie cur u)
unfolding become_zombie
become_zombie-Exited cur t u d g f = record {
  self =
      subst
        (λ (p : Proc).
          p
          ≡ record (t.proc cur) { state = zombie; cwd = none; ofile = p.ofile; parent = p.parent })
        (sym (self (abandon nproc 0 cur w))) self_frame;
  closed = λ k h. (rw (self (abandon nproc 0 cur w))) ∙ ap (λ (p : Proc). p.ofile k) kept ∙ g.1 k h;
  put = record {
    files = f.files;
    put = (abandon-SameRest nproc 0 cur w).2 ∙ (wakeup1-SameRest chan u).2 ∙ f.put;
    fileclosed = f.fileclosed;
  };
  frame = λ j h.
      rw (zombie_ne cur j (abandon nproc 0 cur w) h, ← d.others j h)
        (Frame-trans (u.proc j) (w.proc j) ((abandon nproc 0 cur w).proc j)
          (wakeup1-Woken chan u j).frame (abandon-Frame nproc 0 cur w j));
  same = (
    (abandon-SameRest nproc 0 cur w).0 ∙ (wakeup1-SameRest chan u).0 ∙ d.next,
    (abandon-SameRest nproc 0 cur w).1 ∙ (wakeup1-SameRest chan u).1 ∙ d.init,
  );
  parents = λ j lt h.
      ap (λ (p : Proc). p.parent) (zombie_ne cur j (abandon nproc 0 cur w) h)
      ∙ parent-abandon nproc 0 cur w j
      ∙ in_range j lt
      ∙ adopted-cong cur j t w
          ((wakeup1-Woken chan u j).parent ∙ ap (λ (p : Proc). p.parent) (d.others j h))
          (initproc-wakeup1 chan u ∙ d.init);
  others = λ j h.
      rw (zombie_ne cur j (abandon nproc 0 cur w) h, ← d.others j h)
        (Moves-trans (u.proc j) (w.proc j) ((abandon nproc 0 cur w).proc j)
          (wakeup1-Woken chan u j).state (abandon-Moves nproc 0 cur w j));
  woken = λ p lt h e s c. rw (zombie_ne cur p (abandon nproc 0 cur w) h) (
      runnable_stays (w.proc p) ((abandon nproc 0 cur w).proc p)
        (ap (λ (k : Option ℕ). ((wakeup1 k u).proc p).state)
            (ap (λ (q : Proc). q.parent) d.self ∙ e)
          ∙ ap (λ (q : Proc). q.state)
              (wakeup1_lem (some p) u p lt ∙ ap (wake_one (some p)) (d.others p h))
          ∙ wake_one_lem p (t.proc p) s c)
        (abandon-Moves nproc 0 cur w p));
}
  where
    chan : Option ℕ
    chan = (u.proc cur).parent

    w : Ptable
    w = wakeup1 chan u

    kept : Frame (u.proc cur) ((abandon nproc 0 cur w).proc cur)
    kept =
        Frame-trans (u.proc cur) (w.proc cur) ((abandon nproc 0 cur w).proc cur)
          (wakeup1-Woken chan u cur).frame (abandon-Frame nproc 0 cur w cur)

    self_frame :
        record ((abandon nproc 0 cur w).proc cur) { state = zombie } ≡ record (t.proc cur) {
          state = zombie;
          cwd = none;
          ofile = ((abandon nproc 0 cur w).proc cur).ofile;
          parent = ((abandon nproc 0 cur w).proc cur).parent;
        }
    self_frame =
        let q = (abandon nproc 0 cur w).proc cur in
        let o = (u.proc cur).ofile in
        ap (λ (x : Proc). record x { state = zombie }) kept
        ∙ ap (λ (x : Proc). record x { parent = q.parent; state = zombie }) d.self
        ∙ ap
            (λ (c : Option ℕ). record (t.proc cur) {
              ofile = o;
              cwd = c;
              parent = q.parent;
              state = zombie;
            })
            g.0
        ∙ ap
            (λ (f : ℕ → Option ℕ). record (t.proc cur) {
              ofile = f;
              cwd = none;
              parent = q.parent;
              state = zombie;
            })
            (sym (ap (λ (x : Proc). x.ofile) kept))

    self :
        (v : Ptable)
        → (set_proc cur (λ p. record p { state = zombie }) v).proc cur
          ≡ record (v.proc cur) { state = zombie }
    self v = ground arith

    in_range :
        (j : ℕ)
        → j < nproc
        → (if leb 0 j && ltb j (0 + nproc) then adopted cur w j else (w.proc j).parent)
          ≡ adopted cur w j
    in_range j lt = ground arith

-- exit of a process with a directory, on a CPU that then holds only ptable.lock: init may not exit, that
-- panics. Any other process gives up the CPU with the lock held and leaves a table as in `Exited`: it is
-- a zombie with no open file and no directory, having called fileclose with each file that was open and
-- iput with the directory, in a transaction; its children are init's; every other process is as it was
-- but for that and that it may have been woken, and its parent has been woken if it slept in wait.
pub exit_lem :
    (cpu : Cpu) (cur : ℕ) (t : Ptable)
    → IsSwitching cpu
    → (t.proc cur).cwd ≢ none
    → ((is_ptr t.initproc cur ≡ true) × (exit cpu cur (unlocked t) ≡ panic))
      ⊎ ((is_ptr t.initproc cur ≡ false)
          × ((u : Ptable) × (exit cpu cur (unlocked t) ≡ asleep in_exit (locked u))
              × Exited cur t u))
unfolding exit
exit_lem cpu cur t on dir = elim (Bool-cases (is_ptr t.initproc cur)) [
  | inl e ↦ inl (e, simp e)
  | inr e ↦ inr (
    e,
    (
      become_zombie cur (drop_all cur t),
      simp e (
          sched_lem cpu cur in_exit (become_zombie cur (drop_all cur t)) on
            (ap (λ (p : Proc). state_is p.state running) x.self)),
      x,
    ),
  )
]
  where
    x : Exited cur t (become_zombie cur (drop_all cur t))
    x =
        become_zombie-Exited cur t (drop_all cur t) (drop_all-Dropped cur t) (dropped cur t)
          (drop_all-Put cur t)
