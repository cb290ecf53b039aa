-- ===== src/Proc/Birth.antt =====
-- allocproc and fork: which entry a new process takes, and that pids of live processes stay distinct.
use operating_systems_projec.Prelude.{
  ℕ, ◌+◌, ◌<◌, ◌≡◌, ◌≢◌, refl, ◌⊎◌, inl, inr, Bool, true, false, Option, none, some, arith,
}
use operating_systems_projec.Prelude.Kernel.{Outcome, ok, asleep, panic, Locked, unlocked}
use operating_systems_projec.Proc.Table.{
  Proc, Ptable, Resume, nproc, unused, embryo, state_is, at_forkret, find_proc, set_proc,
}
use operating_systems_projec.Proc.Loops.{Found, find_proc-Found}
use operating_systems_projec.Proc.Lifecycle.{allocproc}

abbrev pub is_unused : Proc → Bool
is_unused p = state_is p.state unused

-- Live processes have distinct pids, all below the next one.
pub record DistinctPids (t : Ptable) : Type 0 where
  pub below : (i : ℕ) → i < nproc → is_unused (t.proc i) ≡ false → (t.proc i).pid < t.nextpid
  pub distinct :
      (i j : ℕ)
      → i < nproc
      → j < nproc
      → is_unused (t.proc i) ≡ false
      → is_unused (t.proc j) ≡ false
      → (t.proc i).pid ≡ (t.proc j).pid
      → i ≡ j

-- The entry `k` as allocproc claims it.
abbrev claimed : ℕ → Ptable → Ptable
claimed k t = record (set_proc k (λ p. record p { state = embryo; pid = t.nextpid }) t) {
  nextpid = t.nextpid + 1;
}

-- The new process behind allocproc.
pub record Allocated (k page : ℕ) (t u : Ptable) : Type 0 where
  pub first :
      (k < nproc) × (is_unused (t.proc k) ≡ true) × ((j : ℕ) → j < k → is_unused (t.proc j) ≡ false)
  pub state : (u.proc k).state ≡ embryo
  pub pid : ((u.proc k).pid ≡ t.nextpid) × (u.nextpid ≡ t.nextpid + 1)
  pub stack : ((u.proc k).kstack ≡ some page) × ((u.proc k).context ≡ at_forkret)
  pub others : (j : ℕ) → j ≢ k → u.proc j ≡ t.proc j
  pub pids : DistinctPids u

-- What allocproc may do when kalloc returns `page`.
abbrev pub Alloc :
    (page : Option ℕ) (t : Ptable) → Outcome Resume (Locked Ptable) (Option ℕ) → Type 0
Alloc (some k) t (ok (some i) s) = (s.held ≡ false) × Allocated i k t s.guarded
Alloc none t (ok (some i) s) = ⊥
Alloc page t (ok none s) =
    (s.held ≡ false)
    × (((s ≡ unlocked t) × ((j : ℕ) → j < nproc → is_unused (t.proc j) ≡ false))
        ⊎ ((page ≡ none)
            × ((j : ℕ) → j < nproc → is_unused (t.proc j) ≡ false → s.guarded.proc j ≡ t.proc j)
            × ((j : ℕ) → is_unused (t.proc j) ≡ true → is_unused (s.guarded.proc j) ≡ true)))
Alloc page t (asleep r s) = ⊥
Alloc page t panic = ⊥

-- What allocproc returns, by what its search finds and what kalloc returns.
abbrev result : (page found : Option ℕ) → Ptable → Outcome Resume (Locked Ptable) (Option ℕ)
result page none t = ok none (unlocked t)
result none (some k) t =
    ok none (unlocked (set_proc k (λ p. record p { kstack = none; state = unused }) (claimed k t)))
result (some a) (some k) t =
    ok (some k) (
      unlocked (set_proc k (λ p. record p { kstack = some a; context = at_forkret }) (claimed k t)))

allocproc-eq :
    (page found : Option ℕ) (t : Ptable)
    → find_proc is_unused nproc 0 t.proc ≡ found
    → allocproc page (unlocked t) ≡ result page found t
unfolding allocproc
allocproc-eq none none t e = ground arith
allocproc-eq none (some k) t e = ground arith
allocproc-eq (some a) none t e = ground arith
allocproc-eq (some a) (some k) t e = ground arith

result-Alloc :
    (page found : Option ℕ) (t : Ptable)
    → DistinctPids t
    → Found is_unused nproc 0 t.proc found
    → Alloc page t (result page found t)
result-Alloc none none t d v = (refl, inl (refl, λ j h. v j (omega arith) (omega arith)))
result-Alloc (some p) none t d v = (refl, inl (refl, λ j h. v j (omega arith) (omega arith)))
result-Alloc none (some k) t d v =
    (refl, inr (refl, (λ j h u. ground (arith, v.2)), λ j u. ground arith))
result-Alloc (some p) (some k) t d v = (
  refl,
  record {
    first = (omega arith, v.2, λ j h. v.3 j (omega arith) h);
    state = ground arith;
    pid = (ground arith, refl);
    stack = (ground arith, ground arith);
    others = λ j h. ground arith;
    pids = record {
      below = λ i h u. ground (arith, d.below i);
      distinct = λ i j p q u w e. ground (arith, d.distinct i j, d.below i, d.below j);
    };
  },
)

-- allocproc, on a table whose live processes have distinct pids below the next one, neither sleeps nor
-- panics. It takes the first UNUSED entry, makes it an EMBRYO with the
-- next pid, the kernel stack that kalloc gave and a context that starts at forkret, touches no other
-- entry and keeps the pids so. It fails, and changes nothing, if there is no
-- UNUSED entry; if kalloc fails, the live entries are as before and no UNUSED entry is lost.
pub allocproc_lem :
    (page : Option ℕ) (t : Ptable) → DistinctPids t → Alloc page t (allocproc page (unlocked t))
allocproc_lem page t d = rw (allocproc-eq page (find_proc is_unused nproc 0 t.proc) t refl) (
    result-Alloc page (find_proc is_unused nproc 0 t.proc) t d
      (find_proc-Found is_unused nproc 0 t.proc))
