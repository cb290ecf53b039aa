-- ===== src/Fs/Icache.antt =====
-- The inode cache of Project 1/xv6-public/fs.c: ialloc, iget, idup, ilock, iunlock and iput. A
-- `struct inode *` is an index into the cache. The spin lock icache.lock is the flag of the state, as
-- for the buffer cache; a process that sleeps on the lock of an inode goes on in its acquiresleep.
pub mod Get
use operating_systems_projec.Prelude.{
  ℕ, zero, suc, ◌+◌, ◌-◌, Bool, true, false, not, ◌&&◌, ◌||◌, Option, none, some, ◌==◌, ltb, leb,
  if◌then◌else◌, update,
}
use operating_systems_projec.Prelude.Kernel.{
  Kernel, Locked, ok, asleep, panic, acquire, release, look, change, pure, panic_if, ◌>>=◌, ◌>>◌,
}
use operating_systems_projec.Sleeplock.{
  Sleeplock, SleepK, initsleeplock, acquiresleep, releasesleep, holdingsleep,
}
use operating_systems_projec.Fs.{Block, Disk, DiskK, bread, log_write, superblock}
use operating_systems_projec.Fs.Words.{byte_of, get_short}
use operating_systems_projec.Fs.Inode.{
  Inode, FileK, set_inode, iblock, dinode_at, iload, iupdate, itrunc,
}

abbrev pub ninode : ℕ
ninode = 50

-- `struct inode`; the holders of references are counted by `ref`.
pub record Entry : Type 0 where
  pub ref : ℕ
  pub lock : Locked Sleeplock
  pub valid : Bool
  pub ip : Inode

pub record Icache : Type 0 where
  pub entry : ℕ → Entry
  pub disk : Disk

abbrev pub IcacheK : Type 0 → Type 0
IcacheK A = Kernel ℕ (Locked Icache) A

abbrev pub set_entry : ℕ → (Entry → Entry) → Icache → Icache
set_entry i f c = record c { entry = update c.entry i (f (c.entry i)) }

-- A call on the sleep lock of inode `i`.
abbrev pub on_sleeplock : {A : Type 0} → ℕ → SleepK A → IcacheK A
on_sleeplock i m s =
    let put : Locked Sleeplock → Locked Icache =
      λ l. record s { guarded = set_entry i (λ x. record x { lock = l }) s.guarded } in
    elim (m (s.guarded.entry i).lock) [
      | ok a l ↦ ok a (put l)
      | asleep r l ↦ asleep i (put l)
      | panic ↦ panic
    ]

-- A call on the content of inode `i`.
abbrev pub on_inode : {A : Type 0} → ℕ → FileK A → IcacheK A
on_inode i m s = elim (m (record { disk = s.guarded.disk; ip = (s.guarded.entry i).ip })) [
  | ok a w ↦ ok a (record s {
    guarded = record (set_entry i (λ x. record x { ip = w.ip }) s.guarded) { disk = w.disk };
  })
  | asleep r w ↦ absurd r
  | panic ↦ panic
]

-- The loop of iinit; the superblock is read by the caller.
unfoldable pub iinit : (rounds i : ℕ) → Icache → Icache
unfolding initsleeplock
iinit zero i c = c
iinit (suc r) i c =
    iinit r (i + 1) (set_entry i (λ x. record x { lock = initsleeplock x.lock.guarded }) c)

-- What the loop of iget finds: the inode in the cache, or the first free entry if there is one.
pub data Found : Type 0 where
  cached : ℕ → Found
  missing : Option ℕ → Found

-- `if(empty == 0 && ip->ref == 0) empty = ip`
abbrev pub remember : Option ℕ → ℕ → ℕ → Option ℕ
remember (some e) i ref = some e
remember none i ref = if ref == 0 then some i else none

abbrev pub is_inode : (dev inum : ℕ) → Entry → Bool
is_inode dev inum x = ltb 0 x.ref && (x.ip.dev == dev && x.ip.inum == inum)

-- The loop of iget from entry `i` on.
unfoldable pub scan : (rounds i dev inum : ℕ) → Option ℕ → (ℕ → Entry) → Found
scan zero i dev inum empty entry = missing empty
scan (suc r) i dev inum empty entry =
    let rest = scan r (i + 1) dev inum (remember empty i (entry i).ref) entry in
    if is_inode dev inum (entry i) then cached i else rest

abbrev pub recycle : (dev inum : ℕ) → Entry → Entry
recycle dev inum x = record x {
  ref = 1;
  valid = false;
  ip = record x.ip { dev = dev; inum = inum };
}

-- The way out of iget.
unfoldable pub get_found : (dev inum : ℕ) → Found → IcacheK ℕ
get_found dev inum (cached i) = do
  change (set_entry i (λ x. record x { ref = x.ref + 1 }))
  release
  pure i
get_found dev inum (missing (some i)) = do change (set_entry i (recycle dev inum)); release; pure i
get_found dev inum (missing none) = λ s. panic

unfoldable pub iget : (dev inum : ℕ) → IcacheK ℕ
unfolding scan get_found
iget dev inum = do acquire; c ← look; get_found dev inum (scan ninode 0 dev inum none c.entry)

unfoldable pub idup : ℕ → IcacheK ℕ
idup i = do acquire; change (set_entry i (λ x. record x { ref = x.ref + 1 })); release; pure i

-- ilock by process `me`; an inode that is not valid is read from the disk.
unfoldable pub ilock : (me i : ℕ) → IcacheK (Unit {0})
ilock me i = do
  c ← look
  panic_if (ltb (c.entry i).ref 1)
  on_sleeplock i (acquiresleep me)
  d ← look
  if (d.entry i).valid
      then pure tt
      else (do on_inode i iload; change (set_entry i (λ x. record x { valid = true })))

unfoldable pub iunlock : (me i : ℕ) → IcacheK (Unit {0})
iunlock me i = do
  mine ← on_sleeplock i (holdingsleep me)
  c ← look
  panic_if (not mine || ltb (c.entry i).ref 1)
  on_sleeplock i releasesleep

-- The test of `ref` under icache.lock, and what iput does to an inode without links and without
-- other references.
unfoldable pub free_unlinked : ℕ → IcacheK (Unit {0})
free_unlinked i = do
  acquire
  c ← look
  release
  if (c.entry i).ref == 1
      then (do
        on_inode i itrunc
        on_inode i (set_inode (λ ip. record ip { typ = 0 }))
        on_inode i iupdate
        change (set_entry i (λ x. record x { valid = false })))
      else pure tt

-- iput by process `me`, which holds a reference, so that `ref` is not 0.
unfoldable pub iput : (me i : ℕ) → IcacheK (Unit {0})
unfolding free_unlinked
iput me i = do
  on_sleeplock i (acquiresleep me)
  c ← look
  if (c.entry i).valid && (c.entry i).ip.nlink == 0 then free_unlinked i else pure tt
  on_sleeplock i releasesleep
  acquire
  change (set_entry i (λ x. record x { ref = x.ref - 1 }))
  release

unfoldable pub iunlockput : (me i : ℕ) → IcacheK (Unit {0})
unfolding iunlock iput
iunlockput me i = do iunlock me i; iput me i

-- `memset(dip, 0, sizeof(*dip)); dip->type = type`
unfoldable pub fresh_dinode : (inum typ : ℕ) → Block → Block
fresh_dinode inum typ w j =
    let at = dinode_at inum in
    if leb at j && ltb j (at + 64)
    then (if ltb j (at + 2) then byte_of typ (j - at) else 0)
    else w j

-- The loop of ialloc from `inum` on, in a superblock with `inum + rounds` inodes: the number of a
-- free inode.
unfoldable pub find_inode : (rounds inum : ℕ) → Disk → Option ℕ
find_inode zero inum d = none
find_inode (suc r) inum d =
    let rest = find_inode r (inum + 1) d in
    if get_short (d.block (iblock d.sb inum)) (dinode_at inum) == 0 then some inum else rest

-- The way out of that loop.
unfoldable pub mark_inode : (typ : ℕ) → Option ℕ → DiskK ℕ
unfolding fresh_dinode
mark_inode typ none = λ s. panic
mark_inode typ (some inum) = do
  sb ← superblock
  w ← bread (iblock sb inum)
  log_write (iblock sb inum) (fresh_dinode inum typ w)
  pure inum

abbrev pub on_disk : {A : Type 0} → DiskK A → IcacheK A
on_disk m s = elim (m s.guarded.disk) [
  | ok a d ↦ ok a (record s { guarded = record s.guarded { disk = d } })
  | asleep r d ↦ absurd r
  | panic ↦ panic
]

unfoldable pub ialloc : (dev typ : ℕ) → IcacheK ℕ
unfolding find_inode mark_inode iget
ialloc dev typ = do
  c ← look
  inum ← on_disk (mark_inode typ (find_inode (c.disk.sb.ninodes - 1) 1 c.disk))
  iget dev inum
