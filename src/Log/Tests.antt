-- ===== src/Log/Tests.antt =====
-- Runs of the log on a small disk, and instances of its theorems.
use operating_systems_projec.Prelude.{
  ℕ, zero, suc, ◌+◌, ◌*◌, ◌≤◌, ◌<◌, ◌≡◌, refl, ◌⊎◌, inl, inr, true, false, none, some, [], ◌∷◌,
  ◌==◌, if◌then◌else◌, arith, ℕ_discrete, fun_ext,
}
use operating_systems_projec.Prelude.Kernel.{ok, asleep, unlocked}
use operating_systems_projec.Prelude.Int.{pos}
use operating_systems_projec.Log.Disk.{Block, Log, bread, logsize, maxopblocks}
use operating_systems_projec.Log.Commit.{commit, initlog}
use operating_systems_projec.Log.Install.{Holds}
use operating_systems_projec.Log.Recovery.{boots, recovery_complete}
use operating_systems_projec.Log.Atomic.{CanCommit, crash_safe}
use operating_systems_projec.Log.Write.{log_write, begin_op, end_op}
use operating_systems_projec.Log.Transaction.{Logged, log_write_lem, begin_op_lem}
use operating_systems_projec.Log.Cycle.{Ended, end_op_last}

-- The log stands in blocks 2 to 5; block 10 is logged with sevens, over zeros on disk.
abbrev sevens : Block
sevens i = 7

abbrev one_block : ℕ → Log
one_block power = record {
  start = 2;
  size = 4;
  outstanding = pos 1;
  committing = false;
  lh = record { n = 1; block = λ _. 10 };
  disk = λ b i. 0;
  pinned = λ b. if b == 10 then some sevens else none;
  power = power;
  wakeups = 0;
}

one_block-CanCommit : (power : ℕ) → CanCommit (one_block power)
one_block-CanCommit power = record {
  fits = omega arith;
  homes = λ i h. inr (omega arith);
  clean = refl;
  log_free = λ b p q. ground arith;
  named =
      λ b h. elim (ℕ_discrete 10 b) [ yes e ↦ inl (0, omega arith, e) | no e ↦ inr (ground arith) ];
}

-- The power fails behind the write of the header, and once more during recovery.
crash_safe_example :
    let last = initlog 2 4 9 (boots 2 4 (1 ∷ 0 ∷ []) (commit (one_block 2)).disk) in
    ((2 ≤ 1) × (last.disk 10 ≡ (one_block 2).disk 10))
    ⊎ ((1 < 2) × (last.disk 10 ≡ bread (one_block 2) 10))
crash_safe_example =
    crash_safe (one_block 2) (one_block-CanCommit 2) (1 ∷ 0 ∷ []) 9 (omega arith) 10
      (inr (omega arith))

-- The same by evaluation, and with the power failing one write earlier.
crash_runs :
    ((initlog 2 4 9 (boots 2 4 (1 ∷ 0 ∷ []) (commit (one_block 2)).disk)).disk 10 5 ≡ 7)
    × ((initlog 2 4 9 (boots 2 4 (1 ∷ 0 ∷ []) (commit (one_block 1)).disk)).disk 10 5 ≡ 0)
unfolding commit initlog boots
crash_runs = (refl, refl)

-- A disk whose log holds a block 10 of sevens that is not in place.
abbrev torn : ℕ → Block
torn b i =
    if b == 2 then (if i == 0 then 1 else if i == 1 then 10 else 0) else if b == 3 then 7 else 0

abbrev mended : ℕ → Block
mended b i = if b == 10 then 7 else torn b i

torn-Holds : Holds 2 4 mended torn
torn-Holds = record {
  fits = omega arith;
  homes = λ i h. ground arith;
  logged = λ i h. logged i h;
  placed = λ b h. elim (ℕ_discrete 10 b) [
    | yes e ↦ inl (0, omega arith, e)
    | no e ↦ inr (fun_ext λ i. ground arith)
  ];
}
  where
    logged : (i : ℕ) → i < 1 → torn (2 + i + 1) ≡ mended (torn 2 (suc i))
    logged zero h = refl
    logged (suc i) h = absurd (omega arith)

recovery_complete_example :
    let last = initlog 2 4 9 (boots 2 4 (0 ∷ 1 ∷ []) torn) in
    (last.disk 2 0 ≡ 0) × (last.disk 10 ≡ mended 10)
recovery_complete_example =
    recovery_complete 2 4 9 mended (0 ∷ 1 ∷ []) torn torn-Holds (omega arith) 10 (inr (omega arith))

end_op_last_example :
    (m : Log) × (end_op (unlocked (one_block 9)) ≡ ok tt (unlocked m)) × Ended (one_block 9) m
end_op_last_example = end_op_last (one_block 9) (one_block-CanCommit 9) refl refl (omega arith)

log_write_lem_example :
    (m : Log) × (log_write 11 sevens (unlocked (one_block 9)) ≡ ok tt (unlocked m))
    × Logged (one_block 9) 11 sevens m
log_write_lem_example =
    log_write_lem (one_block 9) 11 sevens 0 (one_block-CanCommit 9) (inr (omega arith))
      (omega arith) (omega arith) refl

begin_op_lem_example :
    (((one_block 9).committing ≡ false)
      × (1 + (1 + 1) * maxopblocks ≤ logsize)
      × (begin_op (unlocked (one_block 9))
          ≡ ok tt (unlocked (record (one_block 9) { outstanding = pos 2 }))))
    ⊎ ((((one_block 9).committing ≡ true) ⊎ (logsize < 1 + (1 + 1) * maxopblocks))
        × (begin_op (unlocked (one_block 9)) ≡ asleep tt (unlocked (one_block 9))))
begin_op_lem_example = begin_op_lem (one_block 9) 1 refl
