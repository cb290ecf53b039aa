-- ===== src/Log/Write.antt =====
-- log_write, begin_op and end_op of log.c: how a transaction collects its blocks and ends.
use operating_systems_projec.Prelude.{
  ℕ, zero, suc, ◌+◌, ◌*◌, ◌||◌, Bool, true, false, some, ◌==◌, ltb, leb, if◌then◌else◌, update,
}
use operating_systems_projec.Prelude.Int.{ℤ, pos, negsuc, inc, dec}
use operating_systems_projec.Prelude.Kernel.{
  Kernel, Locked, acquire, release, look, change, sleep, pure, panic_if, ◌>>=◌, ◌>>◌,
}
use operating_systems_projec.Log.Disk.{Block, Header, Log, logsize, maxopblocks}
use operating_systems_projec.Log.Commit.{commit}

-- A process that sleeps on `&log` goes on at the head of the loop of begin_op.
abbrev pub LogK : Type 0 → Type 0
LogK A = Kernel (Unit {0}) (Locked Log) A

-- The search loop of log_write, from `i` on: the index of `b` in `block`, or `n`.
unfoldable pub find_slot : (rounds i : ℕ) → (ℕ → ℕ) → ℕ → ℕ
find_slot zero i block b = i
find_slot (suc r) i block b = if block i == b then i else find_slot r (i + 1) block b

-- `log.lh.block[i] = b->blockno; if (i == log.lh.n) log.lh.n++;`
unfoldable pub record_block : ℕ → Header → Header
unfolding find_slot
record_block b h =
    let i = find_slot h.n 0 h.block b in
    record { n = if i == h.n then h.n + 1 else h.n; block = update h.block i b }

abbrev pub below_one : ℤ → Bool
below_one (pos n) = n == 0
below_one (negsuc n) = true

-- log_write of the buffer of block `b`, which the caller has filled with `w`. B_DIRTY pins it.
unfoldable pub log_write : ℕ → Block → LogK (Unit {0})
unfolding record_block
log_write b w = do
  l ← look
  panic_if (leb logsize l.lh.n || leb l.size (l.lh.n + 1))
  panic_if (below_one l.outstanding)
  acquire
  change (λ l. record l { lh = record_block b l.lh; pinned = update l.pinned b (some w) })
  release

-- `log.lh.n + (log.outstanding+1)*MAXOPBLOCKS > LOGSIZE`
abbrev pub is_short : ℕ → ℤ → Bool
is_short n (pos o) = ltb logsize (n + (o + 1) * maxopblocks)
is_short n (negsuc m) = ltb (logsize + m * maxopblocks) n

-- One turn of the loop of begin_op, with the lock held.
unfoldable pub try_begin : LogK (Unit {0})
try_begin = do
  l ← look
  if l.committing
      then sleep tt
      else if is_short l.lh.n l.outstanding
      then sleep tt
      else (do change (λ l. record l { outstanding = inc l.outstanding }); release)

-- A process that slept enters here again too, since `sleep` takes the lock.
unfoldable pub begin_op : LogK (Unit {0})
unfolding try_begin
begin_op = do acquire; try_begin

abbrev is_zero : ℤ → Bool
is_zero (pos n) = n == 0
is_zero (negsuc n) = false

abbrev wake : Log → Log
wake l = record l { wakeups = suc l.wakeups }

-- The critical section of end_op, and whether this call has to commit.
unfoldable pub leave : LogK Bool
leave = do
  acquire
  change (λ l. record l { outstanding = dec l.outstanding })
  l ← look
  panic_if l.committing
  change (λ l. if is_zero l.outstanding then record l { committing = true } else wake l)
  release
  pure (is_zero l.outstanding)

unfoldable pub end_op : LogK (Unit {0})
unfolding leave
end_op = do
  do_commit ← leave
  if do_commit
      then (do
        change commit
        acquire
        change (λ l. wake (record l { committing = false }))
        release)
      else pure tt
