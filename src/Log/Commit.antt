-- ===== src/Log/Commit.antt =====
-- The functions of log.c that move blocks: install_trans, read_head, write_head, write_log, commit
-- and recover_from_log. A loop `for (tail = 0; tail < n; tail++)` recurs on the rounds left.
use operating_systems_projec.Prelude.{ℕ, zero, suc, ◌+◌, false, none, ltb, if◌then◌else◌, update}
use operating_systems_projec.Prelude.Int.{pos}
use operating_systems_projec.Log.Disk.{Block, Header, Log, bread, bwrite}

-- `for (; tail < n; tail++) a[tail] = b[tail]`, with `rounds` rounds left.
unfoldable pub copy_words : (rounds tail : ℕ) → (from to : ℕ → ℕ) → ℕ → ℕ
copy_words zero tail from to = to
copy_words (suc r) tail from to = copy_words r (tail + 1) from (update to tail (from tail))

-- The body of the loop of install_trans.
unfoldable pub install_block : ℕ → Log → Log
unfolding bwrite
install_block tail l = bwrite (l.lh.block tail) (bread l (l.start + tail + 1)) l

unfoldable pub install_from : (rounds tail : ℕ) → Log → Log
unfolding install_block
install_from zero tail l = l
install_from (suc r) tail l = install_from r (tail + 1) (install_block tail l)

unfoldable pub install_trans : Log → Log
unfolding install_from
install_trans l = install_from l.lh.n 0 l

-- The header block holds `n` in its first word and `block[i]` in word `i + 1`.
unfoldable pub read_head : Log → Log
unfolding copy_words
read_head l =
    let w = bread l l.start in
    record l { lh = record { n = w 0; block = copy_words (w 0) 0 (λ i. w (suc i)) l.lh.block } }

-- `hb->n` and `hb->block[i]` are written over what the buffer holds.
unfoldable pub head_block : Header → Block → Block
unfolding copy_words
head_block h w zero = h.n
head_block h w (suc i) = copy_words h.n 0 h.block (λ j. w (suc j)) i

unfoldable pub write_head : Log → Log
unfolding bwrite head_block
write_head l = bwrite l.start (head_block l.lh (bread l l.start)) l

abbrev pub clear : Log → Log
clear l = record l { lh = record { n = 0; block = l.lh.block } }

unfoldable pub recover_from_log : Log → Log
unfolding read_head install_trans write_head
recover_from_log l = write_head (clear (install_trans (read_head l)))

-- The body of the loop of write_log.
unfoldable pub log_block : ℕ → Log → Log
unfolding bwrite
log_block tail l = bwrite (l.start + tail + 1) (bread l (l.lh.block tail)) l

unfoldable pub write_log_from : (rounds tail : ℕ) → Log → Log
unfolding log_block
write_log_from zero tail l = l
write_log_from (suc r) tail l = write_log_from r (tail + 1) (log_block tail l)

unfoldable pub write_log : Log → Log
unfolding write_log_from
write_log l = write_log_from l.lh.n 0 l

unfoldable pub commit : Log → Log
unfolding write_log write_head install_trans
commit l = if ltb 0 l.lh.n then write_head (clear (install_trans (write_head (write_log l)))) else l

-- initlog at boot: nothing in memory survives, and `start` and `size` come from the superblock. Its
-- own panic does not happen, since a header is 124 bytes and a block 512.
unfoldable pub initlog : (start size power : ℕ) → (ℕ → Block) → Log
unfolding recover_from_log
initlog start size power disk = recover_from_log (record {
  start = start;
  size = size;
  outstanding = pos 0;
  committing = false;
  lh = record { n = 0; block = λ _. 0 };
  disk = disk;
  pinned = λ _. none;
  power = power;
  wakeups = 0;
})
