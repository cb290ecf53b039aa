-- ===== src/Log/Cycle.antt =====
-- end_op: what the last operation's commit leaves to the next transaction.
use operating_systems_projec.Prelude.{
  ℕ, suc, ◌+◌, ◌*◌, ◌<◌, ◌≡◌, refl, ap, sym, ◌∙◌, ◌⊎◌, inl, inr, none, true, false, arith, dec_lt,
}
use mathlib.Core.Path.{subst}
use operating_systems_projec.Prelude.Int.{pos}
use operating_systems_projec.Prelude.Kernel.{ok, unlocked}
use operating_systems_projec.Log.Disk.{Log, bread, bwrite}
use operating_systems_projec.Log.Commit.{commit, write_head, install_trans}
use operating_systems_projec.Log.Loops.{
  transfer-eq, install_from-eq-transfer, transfer_unpinned, transfer-pinned,
}
use operating_systems_projec.Log.Install.{IsHome, finish}
use operating_systems_projec.Log.Atomic.{
  CanCommit, commit_done, commit-eq, logged, written_unpinned, commit_zero,
}
use operating_systems_projec.Log.Write.{end_op}

-- What commit leaves alone, and the count that it clears.
record Ends (l m : Log) : Type 0 where
  start : m.start ≡ l.start
  size : m.size ≡ l.size
  outstanding : m.outstanding ≡ l.outstanding
  committing : m.committing ≡ l.committing
  wakeups : m.wakeups ≡ l.wakeups
  n : m.lh.n ≡ 0

install_trans-eq :
    (l : Log)
    → let m = install_trans l in m ≡ record l { disk = m.disk; pinned = m.pinned; power = m.power }
unfolding install_trans
install_trans-eq l =
    rw (install_from-eq-transfer l.lh.n 0 l)
      (transfer-eq l.lh.block (λ i. l.start + i + 1) l.lh.n 0 l)

finish-Ends : (l : Log) → Ends l (finish l)
unfolding write_head bwrite
finish-Ends l =
    subst (λ m. Ends l (write_head (record m { lh = record { n = 0; block = m.lh.block } })))
      (sym (install_trans-eq l))
      (record {
        start = refl;
        size = refl;
        outstanding = refl;
        committing = refl;
        wakeups = refl;
        n = refl;
      })

-- No buffer is pinned behind the end of a commit, if those that were are named in the header.
finish_unpinned :
    (l : Log) (b : ℕ)
    → ((i : ℕ) × (i < l.lh.n) × (l.lh.block i ≡ b)) ⊎ (l.pinned b ≡ none)
    → (finish l).pinned b ≡ none
unfolding write_head bwrite install_trans
finish_unpinned l b h = ground (arith, gone h)
  where
    gone :
        ((i : ℕ) × (i < l.lh.n) × (l.lh.block i ≡ b)) ⊎ (l.pinned b ≡ none)
        → (install_trans l).pinned b ≡ none
    gone (inl (i, lt, e)) =
        rw (install_from-eq-transfer l.lh.n 0 l, ← e)
          (transfer-pinned l.lh.block (λ i. l.start + i + 1) l.lh.n 0 i l (omega arith)
            (omega arith))
    gone (inr e) =
        rw (install_from-eq-transfer l.lh.n 0 l)
          (transfer_unpinned l.lh.block (λ i. l.start + i + 1) l.lh.n 0 b l e)

commit-Ends : (l : Log) → CanCommit l → Ends l (commit l)
unfolding logged write_head bwrite
commit-Ends l v = elim (dec_lt 0 l.lh.n) [
  | yes p ↦ rw (commit-eq l v p) (of_head (finish-Ends (write_head (logged l v))))
  | no p ↦ rw (commit_zero l (omega arith)) (record {
    start = refl;
    size = refl;
    outstanding = refl;
    committing = refl;
    wakeups = refl;
    n = omega arith;
  })
]
  where
    of_head : {m : Log} → Ends (write_head (logged l v)) m → Ends l m
    of_head e = record {
      start = e.start;
      size = e.size;
      outstanding = e.outstanding;
      committing = e.committing;
      wakeups = e.wakeups;
      n = e.n;
    }

commit_unpinned :
    (l : Log) (v : CanCommit l) (b : ℕ)
    → ((i : ℕ) × (i < l.lh.n) × (l.lh.block i ≡ b)) ⊎ (l.pinned b ≡ none)
    → (commit l).pinned b ≡ none
unfolding logged write_head bwrite
commit_unpinned l v b h = elim (dec_lt 0 l.lh.n) [
  | yes p ↦
      ap (λ m. m.pinned b) (commit-eq l v p) ∙ finish_unpinned (write_head (logged l v)) b (head h)
  | no p ↦ rw (commit_zero l (omega arith)) (idle p h)
]
  where
    head :
        ((i : ℕ) × (i < l.lh.n) × (l.lh.block i ≡ b)) ⊎ (l.pinned b ≡ none)
        → ((i : ℕ) × (i < l.lh.n) × (l.lh.block i ≡ b))
          ⊎ ((write_head (logged l v)).pinned b ≡ none)
    head (inl k) = inl k
    head (inr e) = inr (ground (arith, written_unpinned l v b e))

    idle :
        ¬ (0 < l.lh.n)
        → ((i : ℕ) × (i < l.lh.n) × (l.lh.block i ≡ b)) ⊎ (l.pinned b ≡ none)
        → l.pinned b ≡ none
    idle p (inl (i, lt, e)) = absurd (omega arith)
    idle p (inr e) = e

-- Behind a commit that had power to its end, the log is empty and the next transaction may begin.
commit-CanCommit : (l : Log) → CanCommit l → 2 * l.lh.n + 1 < l.power → CanCommit (commit l)
commit-CanCommit l v p = record {
  fits = omega (arith, e.n, e.size, v.fits);
  homes = λ i h. absurd (omega (arith, e.n));
  clean = rw (e.start) (commit_done l v p).0;
  log_free = λ b h k.
      commit_unpinned l v b (inr (v.log_free b (rw e.start at h) (rw (e.start, e.size) at k)));
  named = λ b h. inr (commit_unpinned l v b (v.named b (rw (e.start, e.size) at h)));
}
  where
    e : Ends l (commit l)
    e = commit-Ends l v

-- The state in which end_op calls commit.
abbrev last_one : Log → Log
last_one l = record l { outstanding = pos 0; committing = true }

-- What end_op leaves when the last operation ends.
pub record Ended (l m : Log) : Type 0 where
  pub can_commit : CanCommit m
  pub empty : m.lh.n ≡ 0
  pub idle : (m.outstanding ≡ pos 0) × (m.committing ≡ false)
  pub woken : m.wakeups ≡ suc l.wakeups
  pub durable : (b : ℕ) → IsHome l.start l.size b → m.disk b ≡ bread l b

-- end_op of the last outstanding operation, with power for the `2 n + 2` disk writes: it does not
-- panic, every home block on disk is what bread gave before, and the log is empty, idle, unlocked and
-- ready for the next transaction, with the processes that wait for it woken.
pub end_op_last :
    (l : Log)
    → CanCommit l
    → l.outstanding ≡ pos 1
    → l.committing ≡ false
    → 2 * l.lh.n + 1 < l.power
    → (m : Log) × (end_op (unlocked l) ≡ ok tt (unlocked m)) × Ended l m
unfolding end_op
end_op_last l v o c p = (
  record (commit (last_one l)) { committing = false; wakeups = suc (commit (last_one l)).wakeups },
  ground arith,
  record {
    can_commit = record {
      fits = k.fits;
      homes = k.homes;
      clean = k.clean;
      log_free = k.log_free;
      named = k.named;
    };
    empty = e.n;
    idle = (e.outstanding, refl);
    woken = ap suc e.wakeups;
    durable = (commit_done (last_one l) w p).1;
  },
)
  where
    w : CanCommit (last_one l)
    w = record {
      fits = v.fits;
      homes = v.homes;
      clean = v.clean;
      log_free = v.log_free;
      named = v.named;
    }

    k : CanCommit (commit (last_one l))
    k = commit-CanCommit (last_one l) w p

    e : Ends (last_one l) (commit (last_one l))
    e = commit-Ends (last_one l) w
