-- ===== src/Proc/Reap.antt =====
-- What wait returns, and when it sleeps.
use operating_systems_projec.Prelude.{
  ℕ, zero, suc, ◌+◌, ◌≤◌, ◌<◌, ◌≡◌, refl, ◌⊎◌, inl, inr, Bool, true, false, ◌&&◌, ◌||◌, Option,
  none, some, [], ◌∷◌, ◌≢◌, update, arith, if◌then◌else◌, ℕ_discrete, Bool-cases,
}
use operating_systems_projec.Prelude.Kernel.{
  Outcome, ok, asleep, panic, Locked, locked, unlocked, change, release, pure, ◌>>◌,
}
use mathlib.Core.Bool.{false≢true}
use operating_systems_projec.Spinlock.{Cpu}
use operating_systems_projec.Proc.Table.{
  Proc, Ptable, Resume, in_wait, in_yield, in_exit, nproc, unused, sleeping, zombie, kfree, freevm,
  set_proc, state_is, is_ptr, sched, IsSwitching,
}
use operating_systems_projec.Proc.Loops.{sched_lem, asleep_state}
use operating_systems_projec.Proc.Wait.{Scan, reap, nothing, scan, clear_entry, go_to_sleep, wait}

abbrev pub is_child : ℕ → Proc → Bool
is_child cur p = is_ptr p.parent cur

-- No child of `cur` among the entries is a zombie.
abbrev pub NoZombie : (cur rounds i : ℕ) → (ℕ → Proc) → Type 0
NoZombie cur r i proc =
    (j : ℕ) → i ≤ j → j < i + r → (is_child cur (proc j) && state_is (proc j).state zombie) ≡ false

abbrev pub HasChild : (cur rounds i : ℕ) → (ℕ → Proc) → Type 0
HasChild cur r i proc = (j : ℕ) × (i ≤ j) × (j < i + r) × (is_child cur (proc j) ≡ true)

abbrev pub NoChild : (cur rounds i : ℕ) → (ℕ → Proc) → Type 0
NoChild cur r i proc = (j : ℕ) → i ≤ j → j < i + r → is_child cur (proc j) ≡ false

abbrev Scanned : (cur rounds i : ℕ) (havekids : Bool) → (ℕ → Proc) → Scan → Type 0
Scanned cur r i h proc (reap k) =
    (i ≤ k) × (k < i + r) × (is_child cur (proc k) ≡ true) × (state_is (proc k).state zombie ≡ true)
Scanned cur r i h proc (nothing true) = NoZombie cur r i proc × ((h ≡ true) ⊎ HasChild cur r i proc)
Scanned cur r i h proc (nothing false) = (h ≡ false) × NoZombie cur r i proc × NoChild cur r i proc

module _ (cur i r : ℕ) (proc : ℕ → Proc) where
  extend :
      (h : Bool) (s : Scan)
      → (is_child cur (proc i) && state_is (proc i).state zombie) ≡ false
      → Scanned cur r (i + 1) (h || is_child cur (proc i)) proc s
      → Scanned cur (suc r) i h proc s
  extend h (reap k) e v = (omega arith, omega arith, v.2, v.3)
  extend h (nothing true) e v = (all, kids v.1)
    where
      all : NoZombie cur (suc r) i proc
      all j p q = elim (ℕ_discrete i j) [
        | yes s ↦ rw (← s) e
        | no s ↦ v.0 j (omega arith) (omega arith)
      ]

      kids :
          ((h || is_child cur (proc i)) ≡ true) ⊎ HasChild cur r (i + 1) proc
          → (h ≡ true) ⊎ HasChild cur (suc r) i proc
      kids (inr (j, p, q, c)) = inr (j, omega arith, omega arith, c)
      kids (inl c) = elim (Bool-cases h) [
        | inl t ↦ inl t
        | inr f ↦ inr (i, omega arith, omega arith, (rw f at c))
      ]
  extend h (nothing false) e v = (ground arith, all, none_here)
    where
      all : NoZombie cur (suc r) i proc
      all j p q = elim (ℕ_discrete i j) [
        | yes s ↦ rw (← s) e
        | no s ↦ v.1 j (omega arith) (omega arith)
      ]

      mine : is_child cur (proc i) ≡ false
      mine = ground arith

      none_here : NoChild cur (suc r) i proc
      none_here j p q = elim (ℕ_discrete i j) [
        | yes s ↦ rw (← s) mine
        | no s ↦ v.2 j (omega arith) (omega arith)
      ]

scan-Scanned :
    (cur r i : ℕ) (h : Bool) (proc : ℕ → Proc) → Scanned cur r i h proc (scan cur r i h proc)
unfolding scan
scan-Scanned cur zero i true proc = ((λ j p q. absurd (omega arith)), inl refl)
scan-Scanned cur zero i false proc =
    (refl, (λ j p q. absurd (omega arith)), λ j p q. absurd (omega arith))
scan-Scanned cur (suc r) i h proc =
    elim (Bool-cases (is_child cur (proc i) && state_is (proc i).state zombie)) [
      | inl e ↦ rw e (omega arith, omega arith, ground arith, ground arith)
      | inr e ↦
          rw e (
            extend cur i r proc h _ e
              (scan-Scanned cur r (i + 1) (h || is_child cur (proc i)) proc))
    ]

-- From `t` to `u` the stack and the page directory of process `k` are given back, and its entry is free
-- for another one; nothing else changes.
pub record Freed (k : ℕ) (t u : Ptable) : Type 0 where
  pub stack : ℕ
  pub dir : ℕ
  pub had_stack : (t.proc k).kstack ≡ some stack
  pub had_dir : (t.proc k).pgdir ≡ some dir
  pub given_back : u.calls ≡ freevm dir ∷ (kfree stack ∷ t.calls)
  pub entry : u.proc k ≡ record (t.proc k) {
    kstack = none;
    pid = 0;
    parent = none;
    name = [];
    killed = false;
    state = unused;
  }
  pub others : (j : ℕ) → j ≢ k → u.proc j ≡ t.proc j
  pub same : (u.nextpid ≡ t.nextpid) × (u.initproc ≡ t.initproc)

-- Every zombie has a kernel stack and a page directory.
abbrev pub HasMemory : Ptable → Type 0
HasMemory t =
    (k : ℕ)
    → k < nproc
    → state_is (t.proc k).state zombie ≡ true
    → (stack : ℕ) × (dir : ℕ) × ((t.proc k).kstack ≡ some stack) × ((t.proc k).pgdir ≡ some dir)

clear_entry_lem :
    (k stack dir : ℕ) (t : Ptable)
    → (t.proc k).kstack ≡ some stack
    → (t.proc k).pgdir ≡ some dir
    → (u : Ptable) × (clear_entry k (locked t) ≡ ok tt (locked u)) × Freed k t u
unfolding clear_entry
clear_entry_lem k stack dir t e f =
    let a = record t {
      proc = update t.proc k (record (t.proc k) { kstack = none });
      calls = kfree stack ∷ t.calls;
    } in
    let u : Ptable = record t {
      proc = update a.proc k (record (t.proc k) {
        kstack = none;
        pid = 0;
        parent = none;
        name = [];
        killed = false;
        state = unused;
      });
      calls = freevm dir ∷ (kfree stack ∷ t.calls);
    } in
    (
      u,
      ground (arith, e, f),
      record {
        stack = stack;
        dir = dir;
        had_stack = e;
        had_dir = f;
        given_back = refl;
        entry = ground arith;
        others = λ j n. ground arith;
        same = (refl, refl);
      },
    )

-- What wait by `cur` may do: free the entry of a zombie child and return its pid; fail and change
-- nothing, if there is no child or the process is killed; or sleep on its own channel.
abbrev pub Waited : (cur : ℕ) (t : Ptable) → Outcome Resume (Locked Ptable) (Option ℕ) → Type 0
Waited cur t (ok (some pid) s) =
    (k : ℕ) × (k < nproc)
    × (is_child cur (t.proc k) ≡ true)
    × (state_is (t.proc k).state zombie ≡ true)
    × (pid ≡ (t.proc k).pid)
    × ((u : Ptable) × (s ≡ unlocked u) × Freed k t u)
Waited cur t (ok none s) =
    NoZombie cur nproc 0 t.proc
    × (NoChild cur nproc 0 t.proc ⊎ ((t.proc cur).killed ≡ true))
    × (s ≡ unlocked t)
Waited cur t (asleep in_wait s) =
    NoZombie cur nproc 0 t.proc
    × HasChild cur nproc 0 t.proc
    × ((t.proc cur).killed ≡ false)
    × (s ≡ locked (set_proc cur (λ p. record p { chan = some cur; state = sleeping }) t))
Waited cur t (asleep in_yield s) = ⊥
Waited cur t (asleep in_exit s) = ⊥
Waited cur t panic = ⊥

-- wait, on a CPU that holds only ptable.lock, and where every zombie has a kernel stack and a page
-- directory, does what `Waited` lists and does not panic: it returns the pid of a zombie child, gives
-- back its stack and its page directory and frees its entry, fails only if there is no zombie child and
-- either no child at all or the process is killed, and sleeps only if no child is a zombie yet, some
-- child is left and the process is not killed. No other entry changes.
pub wait_lem :
    (cpu : Cpu) (cur : ℕ) (t : Ptable)
    → IsSwitching cpu
    → HasMemory t
    → Waited cur t (wait cpu cur (unlocked t))
unfolding wait
wait_lem cpu cur t on m =
    branch (scan cur nproc 0 false t.proc) refl (scan-Scanned cur nproc 0 false t.proc)
  where
    asleep_now :
        NoZombie cur nproc 0 t.proc
        → (false ≡ true) ⊎ HasChild cur nproc 0 t.proc
        → (t.proc cur).killed ≡ false
        → Waited cur t (sched cpu cur in_wait (locked (go_to_sleep cur (some cur) t)))
    asleep_now z (inl f) d = absurd (false≢true f)
    asleep_now z (inr c) d =
        rw
          (sched_lem {A = Option ℕ} cpu cur in_wait (go_to_sleep cur (some cur) t) on
            (rw (asleep_state cur (some cur) t)))
          (z, c, d, refl)

    turn :
        (k : Bool)
        → (t.proc cur).killed ≡ k
        → NoZombie cur nproc 0 t.proc
        → (false ≡ true) ⊎ HasChild cur nproc 0 t.proc
        → Waited cur t (
            (if k
                then (do release; pure none)
                else (do change (go_to_sleep cur (some cur)); sched cpu cur in_wait))
              (locked t))
    turn true d z c = (z, inr d, refl)
    turn false d z c = asleep_now z c d

    branch :
        (s : Scan)
        → scan cur nproc 0 false t.proc ≡ s
        → Scanned cur nproc 0 false t.proc s
        → Waited cur t (wait cpu cur (unlocked t))
    branch (reap i) e v =
        let (stack, dir, p, q) = m i v.1 v.3 in
        let (u, r, f) = clear_entry_lem i stack dir t p q in
        rw (e, r) (i, v.1, v.2, v.3, refl, (u, refl, f))
    branch (nothing false) e v = simp e (v.1, inl v.2, refl)
    branch (nothing true) e v = simp e (turn (t.proc cur).killed refl v.0 v.1)
