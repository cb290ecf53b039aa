-- ===== src/Log/Transaction.antt =====
-- The life of a transaction: log_write collects blocks, begin_op keeps room for them, and end_op
-- leaves a log that is ready for the next one.
use operating_systems_projec.Prelude.{
  ℕ, zero, suc, ◌+◌, ◌*◌, ◌≤◌, ◌<◌, ◌≡◌, ◌≢◌, refl, ◌∙◌, ◌⊎◌, inl, inr, some, Bool, true, false,
  arith, update, ltb, ℕ_discrete, ◌==◌, if◌then◌else◌, ==_iff, Bool-cases,
}
use operating_systems_projec.Prelude.Int.{pos}
use operating_systems_projec.Prelude.Kernel.{ok, asleep, panic, unlocked}
use operating_systems_projec.Log.Disk.{Block, Log, bread, logsize, maxopblocks}
use operating_systems_projec.Log.Install.{IsHome}
use operating_systems_projec.Log.Atomic.{CanCommit}
use operating_systems_projec.Log.Write.{find_slot, record_block, log_write, begin_op}

-- The search ends at a slot of `b`, or behind all of them.
find_slot_lem :
    (r i : ℕ) (block : ℕ → ℕ) (b : ℕ)
    → let k = find_slot r i block b in (i ≤ k) × (k ≤ i + r) × ((k ≡ i + r) ⊎ (block k ≡ b))
unfolding find_slot
find_slot_lem zero i block b = (omega arith, omega arith, inl (omega arith))
find_slot_lem (suc r) i block b = elim (Bool-cases (block i == b)) [
  | inl e ↦ rw e (omega arith, omega arith, inr ((==_iff _ _).0 e))
  | inr e ↦ rw e (ground (arith, find_slot_lem r (i + 1) block b))
]

-- What log_write makes of the state.
abbrev logged : ℕ → Block → Log → Log
logged b w l = record l { lh = record_block b l.lh; pinned = update l.pinned b (some w) }

module _ (l : Log) (b : ℕ) (w : Block) (v : CanCommit l) (home : IsHome l.start l.size b)
    (room : l.lh.n + 1 < l.size) where
  slot : ℕ
  slot = find_slot l.lh.n 0 l.lh.block b

  slot_cases : (slot ≤ l.lh.n) × ((slot ≡ l.lh.n) ⊎ (l.lh.block slot ≡ b))
  unfolding slot
  slot_cases = ground (arith, find_slot_lem l.lh.n 0 l.lh.block b)

  count_logged :
      (l.lh.n ≤ (logged b w l).lh.n)
      × ((logged b w l).lh.n ≤ l.lh.n + 1)
      × (slot < (logged b w l).lh.n)
  unfolding record_block slot
  count_logged = ground (arith, slot_cases)

  block_logged :
      (i : ℕ)
      → i < (logged b w l).lh.n
      → ((logged b w l).lh.block i ≡ b)
        ⊎ ((i < l.lh.n) × ((logged b w l).lh.block i ≡ l.lh.block i))
  unfolding record_block slot
  block_logged i h = ground (arith, slot_cases)

  slot_logged : (logged b w l).lh.block slot ≡ b
  unfolding record_block slot
  slot_logged = ground arith

  block_kept : (i : ℕ) → i < l.lh.n → (logged b w l).lh.block i ≡ l.lh.block i
  unfolding record_block slot
  block_kept i h = ground (arith, slot_cases)

  logged-CanCommit : CanCommit (logged b w l)
  logged-CanCommit = record {
    fits = omega (arith, count_logged);
    homes =
        λ i h. elim (block_logged i h) [ inl e ↦ rw e home | inr (lt, e) ↦ rw e (v.homes i lt) ];
    clean = v.clean;
    log_free = λ c p q. ground (arith, v.log_free c p q);
    named = λ c h. elim (ℕ_discrete b c) [
      | yes e ↦ inl (slot, count_logged.2, slot_logged ∙ e)
      | no e ↦ elim (v.named c h) [
        | inl (i, lt, q) ↦ inl (i, omega (arith, count_logged), block_kept i lt ∙ q)
        | inr u ↦ inr (ground arith)
      ]
    ];
  }

find_slot_miss :
    (r i j : ℕ) (block : ℕ → ℕ) (b : ℕ)
    → find_slot r i block b ≡ i + r
    → i ≤ j
    → j < i + r
    → block j ≢ b
unfolding find_slot
find_slot_miss zero i j block b e p q = absurd (omega arith)
find_slot_miss (suc r) i j block b e p q = elim (ℕ_discrete i j) [
  | yes s ↦ rw (← s) (ground arith)
  | no s ↦ find_slot_miss r (i + 1) j block b (ground arith) (omega arith) (omega arith)
]

absorbed : (l : Log) (b i : ℕ) → i < l.lh.n → l.lh.block i ≡ b → (record_block b l.lh).n ≡ l.lh.n
unfolding record_block
absorbed l b i h e =
    ground (arith, find_slot_miss l.lh.n 0 i l.lh.block b, find_slot_lem l.lh.n 0 l.lh.block b)

-- What a call of log_write makes of a transaction that may commit.
pub record Logged (l : Log) (b : ℕ) (w : Block) (m : Log) : Type 0 where
  pub can_commit : CanCommit m
  pub contents : (c : ℕ) → bread m c ≡ (if b == c then w else bread l c)
  pub grows : m.lh.n ≤ l.lh.n + 1
  pub absorbs : (i : ℕ) → i < l.lh.n → l.lh.block i ≡ b → m.lh.n ≡ l.lh.n
  pub disk : m.disk ≡ l.disk

-- Within a transaction, with room for one more block in the log, log_write of a home block does not
-- panic and leaves the lock free: from then on the block reads as what was written and every other
-- block as before, the disk is as it was, the transaction can still be committed, and a block that is
-- logged already takes no second slot.
pub log_write_lem :
    (l : Log) (b : ℕ) (w : Block) (o : ℕ)
    → CanCommit l
    → IsHome l.start l.size b
    → l.lh.n < logsize
    → l.lh.n + 1 < l.size
    → l.outstanding ≡ pos (suc o)
    → (m : Log) × (log_write b w (unlocked l) ≡ ok tt (unlocked m)) × Logged l b w m
unfolding log_write
log_write_lem l b w o v home few room started = (
  logged b w l,
  ground arith,
  record {
    can_commit = logged-CanCommit l b w v home room;
    contents = λ c. ground arith;
    grows = (count_logged l b w v home room).1;
    absorbs = λ i h e. absorbed l b i h e;
    disk = refl;
  },
)

-- log_write panics where the log is full, or where no operation is outstanding.
pub log_write_panics :
    (l : Log) (b : ℕ) (w : Block)
    → (logsize ≤ l.lh.n) ⊎ (l.size ≤ l.lh.n + 1) ⊎ (l.outstanding ≡ pos 0)
    → log_write b w (unlocked l) ≡ panic
unfolding log_write
log_write_panics l b w h = ground arith

-- begin_op with `o` operations outstanding starts one more exactly if no commit is running and the
-- log keeps MAXOPBLOCKS free slots for each of them; otherwise it sleeps and changes nothing.
pub begin_op_lem :
    (l : Log) (o : ℕ)
    → l.outstanding ≡ pos o
    → ((l.committing ≡ false)
        × (l.lh.n + (o + 1) * maxopblocks ≤ logsize)
        × (begin_op (unlocked l) ≡ ok tt (unlocked (record l { outstanding = pos (suc o) }))))
      ⊎ (((l.committing ≡ true) ⊎ (logsize < l.lh.n + (o + 1) * maxopblocks))
          × (begin_op (unlocked l) ≡ asleep tt (unlocked l)))
unfolding begin_op
begin_op_lem l o e = branch l.committing (ltb logsize (l.lh.n + (o + 1) * maxopblocks)) refl refl
  where
    branch :
        (c t : Bool)
        → l.committing ≡ c
        → ltb logsize (l.lh.n + (o + 1) * maxopblocks) ≡ t
        → ((l.committing ≡ false)
            × (l.lh.n + (o + 1) * maxopblocks ≤ logsize)
            × (begin_op (unlocked l) ≡ ok tt (unlocked (record l { outstanding = pos (suc o) }))))
          ⊎ (((l.committing ≡ true) ⊎ (logsize < l.lh.n + (o + 1) * maxopblocks))
              × (begin_op (unlocked l) ≡ asleep tt (unlocked l)))
    branch true t ec et = inr (inl ec, ground arith)
    branch false true ec et = inr (inr (ground arith), ground arith)
    branch false false ec et = inl (ec, ground arith, ground arith)
