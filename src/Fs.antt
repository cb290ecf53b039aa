-- ===== src/Fs.antt =====
-- The block layer of Project 1/xv6-public/fs.c: blocks of bytes, the words in them, and the bitmap of
-- balloc and bfree. A call works on the blocks as the running transaction sees them: bread gives a
-- block, log_write makes the changed buffer the block (Log/Transaction), and brelse changes nothing. The
-- panics of log_write, outside of a transaction and with a full log, are the business of Log: a call here
-- stands for one within begin_op and end_op that logs no more blocks than begin_op keeps free for it.
mod Tests
pub mod Bits
pub mod Bitmap
pub mod Inode
pub mod Words
pub mod Layout
pub mod Map
pub mod Bmap
pub mod Transfer
pub mod Writes
pub mod ReadWrite
pub mod Update
pub mod Room
pub mod WriteFile
pub mod Dir
pub mod Path
pub mod Icache
pub mod Names
pub mod Truncate
use operating_systems_projec.Prelude.{
  ℕ, zero, suc, ◌+◌, ◌*◌, ◌/◌, ◌%◌, Option, none, some, ◌==◌, ltb, if◌then◌else◌, update,
}
use operating_systems_projec.Prelude.Kernel.{Kernel, ok, panic, pure, ◌>>=◌, ◌>>◌}

abbrev pub bsize : ℕ
bsize = 512

-- Bits in a block of the bitmap.
abbrev pub bpb : ℕ
bpb = 4096

-- The bytes of a block, from index 0 on.
abbrev pub Block : Type 0
Block = ℕ → ℕ

-- `struct superblock`, as far as the kernel uses it.
pub record Superblock : Type 0 where
  pub size : ℕ
  pub ninodes : ℕ
  pub inodestart : ℕ
  pub bmapstart : ℕ

pub record Disk : Type 0 where
  pub sb : Superblock
  pub block : ℕ → Block

-- Nothing sleeps here.
abbrev pub DiskK : Type 0 → Type 0
DiskK A = Kernel ⊥ Disk A

abbrev pub bread : ℕ → DiskK Block
bread b s = ok (s.block b) s

abbrev pub log_write : ℕ → Block → DiskK (Unit {0})
log_write b w s = ok tt (record s { block = update s.block b w })

abbrev pub superblock : DiskK Superblock
superblock s = ok s.sb s

-- `(x >> k) & 1`, `x | (1 << k)` and `x & ~(1 << k)`.
pub bit : ℕ → ℕ → ℕ
bit zero x = x % 2
bit (suc k) x = bit k (x / 2)

pub set_bit : ℕ → ℕ → ℕ
set_bit zero x = x / 2 * 2 + 1
set_bit (suc k) x = x % 2 + 2 * set_bit k (x / 2)

pub clear_bit : ℕ → ℕ → ℕ
clear_bit zero x = x / 2 * 2
clear_bit (suc k) x = x % 2 + 2 * clear_bit k (x / 2)

-- BBLOCK
abbrev pub bblock : Superblock → ℕ → ℕ
bblock sb b = b / bpb + sb.bmapstart

-- `memset(bp->data, 0, BSIZE)`
abbrev pub zeroed : Block → Block
zeroed w i = if ltb i bsize then 0 else w i

pub bzero : ℕ → DiskK (Unit {0})
bzero bno = do w ← bread bno; log_write bno (zeroed w)

-- The inner loop of balloc from bit `bi` on, in the block `w` of the bitmap for blocks from `b` on: a
-- bit that is clear.
pub find_clear : (rounds bi b size : ℕ) → Block → Option ℕ
find_clear zero bi b size w = none
find_clear (suc r) bi b size w =
    let rest = find_clear r (bi + 1) b size w in
    if ltb (b + bi) size then (if bit (bi % 8) (w (bi / 8)) == 0 then some bi else rest) else none

-- `bp->data[bi/8] |= m` and `bp->data[bi/8] &= ~m`
abbrev pub mark : ℕ → Block → Block
mark bi w = update w (bi / 8) (set_bit (bi % 8) (w (bi / 8)))

abbrev pub unmark : ℕ → Block → Block
unmark bi w = update w (bi / 8) (clear_bit (bi % 8) (w (bi / 8)))

-- The way out of balloc with bit `bi` of the block for blocks from `b` on.
pub take_block : (b bi : ℕ) → DiskK ℕ
unfolding bzero
take_block b bi = do
  sb ← superblock
  w ← bread (bblock sb b)
  log_write (bblock sb b) (mark bi w)
  bzero (b + bi)
  pure (b + bi)

-- The outer loop of balloc, from block `b` on.
pub balloc_from : (rounds b : ℕ) → DiskK ℕ
balloc_from zero b s = panic
balloc_from (suc r) b s =
    let rest = balloc_from r (b + bpb) s in
    if ltb b s.sb.size
    then elim (find_clear bpb 0 b s.sb.size (s.block (bblock s.sb b))) [
      | some bi ↦ take_block b bi s
      | none ↦ rest
    ]
    else panic

-- A device has fewer than `size / BPB + 1` blocks of bitmap.
pub balloc : DiskK ℕ
balloc s = balloc_from (s.sb.size / bpb + 1) 0 s

pub bfree : ℕ → DiskK (Unit {0})
bfree b = do
  sb ← superblock
  w ← bread (bblock sb b)
  if bit (b % bpb % 8) (w (b % bpb / 8)) == 0
      then (λ s. panic)
      else log_write (bblock sb b) (unmark (b % bpb) w)
