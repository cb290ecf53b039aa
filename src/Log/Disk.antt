-- ===== src/Log/Disk.antt =====
-- The disk under log.c, and the buffers that bread and bwrite of bio.c give it: a block is read from
-- its pinned buffer if it has one, and from the disk if not. (Which buffer that is, and how buffers
-- are recycled, is bio.c's own business.)
use operating_systems_projec.Prelude.{ℕ, ◌-◌, Bool, Option, none, some, ◌==◌, if◌then◌else◌, update}
use operating_systems_projec.Prelude.Int.{ℤ}

-- A block as its 32-bit words.
abbrev pub Block : Type 0
Block = ℕ → ℕ

abbrev pub logsize : ℕ
logsize = 30

abbrev pub maxopblocks : ℕ
maxopblocks = 10

-- `struct logheader`, in memory: `n`, and the array `block`.
pub record Header : Type 0 where
  pub n : ℕ
  pub block : ℕ → ℕ

-- `struct log` with the disk, the buffers that log_write has pinned, the number of disk writes until
-- the power fails, and how often `wakeup(&log)` was called.
pub record Log : Type 0 where
  pub start : ℕ
  pub size : ℕ
  pub outstanding : ℤ
  pub committing : Bool
  pub lh : Header
  pub disk : ℕ → Block
  pub pinned : ℕ → Option Block
  pub power : ℕ
  pub wakeups : ℕ

-- What the buffer of a block holds.
abbrev pub buffer : (ℕ → Option Block) → (ℕ → Block) → ℕ → Block
buffer pinned disk b = elim (pinned b) [ none ↦ disk b | some w ↦ w ]

abbrev pub bread : Log → ℕ → Block
bread l b = buffer l.pinned l.disk b

-- The buffer of block `b` now holds `w`, and goes to the disk, which clears B_DIRTY. A write behind
-- the power failure does not reach the disk.
unfoldable pub bwrite : ℕ → Block → Log → Log
bwrite b w l = record l {
  disk = if l.power == 0 then l.disk else update l.disk b w;
  pinned = update l.pinned b none;
  power = l.power - 1;
}
