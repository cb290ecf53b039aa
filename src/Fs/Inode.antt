-- ===== src/Fs/Inode.antt =====
-- Inodes of Project 1/xv6-public/fs.c and their content: iupdate, bmap, itrunc, stati, readi and
-- writei, on an inode that the caller has locked.
use operating_systems_projec.Prelude.{
  ℕ, zero, suc, ◌+◌, ◌-◌, ◌*◌, ◌/◌, ◌%◌, ◌^◌, min, ◌&&◌, ◌||◌, Option, none, some, List, [], ◌++◌,
  ◌==◌, ltb, leb, if◌then◌else◌, update, cells, length, take, drop, get_or,
}
use operating_systems_projec.Prelude.Kernel.{Kernel, ok, asleep, panic, pure, ◌>>=◌, ◌>>◌}
use operating_systems_projec.Fs.{
  Block, Superblock, Disk, DiskK, bsize, bread, log_write, superblock, balloc, bfree,
}
use operating_systems_projec.Fs.Words.{byte_of, get_short, get_uint, get_word, put_word}

abbrev pub ndirect : ℕ
ndirect = 12

abbrev pub nindirect : ℕ
nindirect = 128

abbrev pub maxfile : ℕ
maxfile = 140

-- Inodes in a block.
abbrev pub ipb : ℕ
ipb = 8

abbrev pub ndev : ℕ
ndev = 10

abbrev pub t_dev : ℕ
t_dev = 3

-- The part of `struct inode` that an inode on disk has, and where it is. A `short` is its 16 bits.
pub record Inode : Type 0 where
  pub dev : ℕ
  pub inum : ℕ
  pub typ : ℕ
  pub major : ℕ
  pub minor : ℕ
  pub nlink : ℕ
  pub size : ℕ
  pub addrs : ℕ → ℕ

-- The disk, and the locked inode `ip`.
pub record Work : Type 0 where
  pub disk : Disk
  pub ip : Inode

abbrev pub FileK : Type 0 → Type 0
FileK A = Kernel ⊥ Work A

abbrev pub on_disk : {A : Type 0} → DiskK A → FileK A
on_disk m s = elim (m s.disk) [
  | ok a d ↦ ok a (record s { disk = d })
  | asleep r d ↦ absurd r
  | panic ↦ panic
]

abbrev pub inode : FileK Inode
inode s = ok s.ip s

abbrev pub set_inode : (Inode → Inode) → FileK (Unit {0})
set_inode f s = ok tt (record s { ip = f s.ip })

-- IBLOCK
abbrev pub iblock : Superblock → ℕ → ℕ
iblock sb i = i / ipb + sb.inodestart

-- Byte `j` of the `struct dinode` that iupdate fills from an inode.
unfoldable pub dinode_byte : Inode → ℕ → ℕ
dinode_byte ip j =
    if ltb j 2
    then byte_of ip.typ j
    else if ltb j 4
    then byte_of ip.major (j - 2)
    else if ltb j 6
    then byte_of ip.minor (j - 4)
    else if ltb j 8
    then byte_of ip.nlink (j - 6)
    else if ltb j 12
    then byte_of ip.size (j - 8)
    else byte_of (ip.addrs ((j - 12) / 4)) (j % 4)

-- `dip` stands at byte `inum % IPB * sizeof(struct dinode)` of its block.
abbrev pub dinode_at : ℕ → ℕ
dinode_at inum = inum % ipb * 64

unfoldable pub write_dinode : Inode → Block → Block
unfolding dinode_byte
write_dinode ip w i =
    let at = dinode_at ip.inum in
    if leb at i && ltb i (at + 64) then dinode_byte ip (i - at) else w i

unfoldable pub iupdate : FileK (Unit {0})
unfolding write_dinode
iupdate = do
  ip ← inode
  sb ← on_disk superblock
  w ← on_disk (bread (iblock sb ip.inum))
  on_disk (log_write (iblock sb ip.inum) (write_dinode ip w))

-- The fields that ilock copies from the `struct dinode` in block `w`.
unfoldable pub read_dinode : Block → Inode → Inode
read_dinode w ip =
    let at = dinode_at ip.inum in
    record ip {
      typ = get_short w at;
      major = get_short w (at + 2);
      minor = get_short w (at + 4);
      nlink = get_short w (at + 6);
      size = get_uint w (at + 8);
      addrs = λ i. if ltb i (ndirect + 1) then get_uint w (at + 12 + i * 4) else ip.addrs i;
    }

-- ilock of an inode that is not valid yet, behind its acquiresleep.
unfoldable pub iload : FileK (Unit {0})
unfolding read_dinode
iload = do
  ip ← inode
  sb ← on_disk superblock
  w ← on_disk (bread (iblock sb ip.inum))
  set_inode (read_dinode w)
  jp ← inode
  if jp.typ == 0 then (λ s. panic) else pure tt

-- `if((addr = ip->addrs[k]) == 0) ip->addrs[k] = addr = balloc(ip->dev);`
unfoldable pub slot : ℕ → FileK ℕ
slot k = do
  ip ← inode
  if ip.addrs k == 0
      then (do
        a ← on_disk balloc
        set_inode (λ ip. record ip { addrs = update ip.addrs k a })
        pure a)
      else pure (ip.addrs k)

-- The entry `bn` of the indirect block `ind`. balloc works on other buffers, and the entry goes into
-- what the block's buffer holds behind it.
unfoldable pub entry : (ind bn : ℕ) → FileK ℕ
entry ind bn = do
  w ← on_disk (bread ind)
  if get_word w bn == 0
      then (do
        a ← on_disk balloc
        w' ← on_disk (bread ind)
        on_disk (log_write ind (put_word bn a w'))
        pure a)
      else pure (get_word w bn)

unfoldable pub bmap : ℕ → FileK ℕ
unfolding slot entry
bmap bn =
    if ltb bn ndirect
    then slot bn
    else if ltb (bn - ndirect) nindirect
    then (do ind ← slot ndirect; entry ind (bn - ndirect))
    else (λ s. panic)

-- The first loop of itrunc, from entry `i` on.
unfoldable pub free_direct : (rounds i : ℕ) → FileK (Unit {0})
free_direct zero i = pure tt
free_direct (suc r) i =
    let rest = free_direct r (i + 1) in
    do
      ip ← inode
      if ip.addrs i == 0 then rest else (do
        on_disk (bfree (ip.addrs i))
        set_inode (λ ip. record ip { addrs = update ip.addrs i 0 })
        rest)

-- The second loop, over the words of the indirect block `w`.
unfoldable pub free_entries : (rounds j : ℕ) → Block → FileK (Unit {0})
free_entries zero j w = pure tt
free_entries (suc r) j w =
    let rest = free_entries r (j + 1) w in
    if get_word w j == 0 then rest else (do on_disk (bfree (get_word w j)); rest)

-- itrunc on the indirect block.
unfoldable pub free_indirect : FileK (Unit {0})
free_indirect = do
  ip ← inode
  if ip.addrs ndirect == 0 then pure tt else (do
    w ← on_disk (bread (ip.addrs ndirect))
    free_entries nindirect 0 w
    on_disk (bfree (ip.addrs ndirect))
    set_inode (λ ip. record ip { addrs = update ip.addrs ndirect 0 }))

unfoldable pub itrunc : FileK (Unit {0})
itrunc = do free_direct ndirect 0; free_indirect; set_inode (λ ip. record ip { size = 0 }); iupdate

-- `min(n, BSIZE - off%BSIZE)`
abbrev pub piece : (off n : ℕ) → ℕ
piece off n = min n (bsize - off % bsize)

-- The loop of readi with `n` bytes to go: the bytes that it stores at `dst`. Each round reads one at
-- least, so `n` rounds are enough.
unfoldable pub read_from : (rounds off n : ℕ) → FileK (List ℕ)
read_from zero off n = pure []
read_from (suc r) off n =
    let m = piece off n in
    let rest = read_from r (off + m) (n - m) in
    if n == 0 then pure [] else (do
      b ← bmap (off / bsize)
      w ← on_disk (bread b)
      more ← rest
      pure (cells w (off % bsize) m ++ more))

-- A driver's `read` and `write`, as devsw has them: `n`, or the bytes to write, and the result, -1 as
-- `none`. A negative major number is at least NDEV as 16 bits.
abbrev pub Driver : Type 0 → Type 0
Driver A = ℕ → Option (A → FileK (Option ℕ))

abbrev pub call_driver : {A : Type 0} → Driver A → ℕ → A → FileK (Option ℕ)
call_driver devsw major a =
    if leb ndev major then pure none else elim (devsw major) [ none ↦ pure none | some f ↦ f a ]

-- What readi returns, and the bytes that it stores from an inode that is no device.
unfoldable pub readi : Driver ℕ → (off n : ℕ) → FileK (Option ℕ × List ℕ)
unfolding read_from
readi devsw off n = do
  ip ← inode
  if ip.typ == t_dev
      then (do r ← call_driver devsw ip.major n; pure (r, []))
      else if ltb ip.size off || ltb ((off + n) % 2 ^ 32) off
      then pure (none, [])
      else (do
        let k = if ltb ip.size (off + n) then ip.size - off else n
        bs ← read_from k off k
        pure (some k, bs))

-- The bytes `xs` over those of the block from index `i` on.
abbrev pub paste : ℕ → List ℕ → Block → Block
paste i xs w j = if leb i j && ltb j (i + length xs) then get_or xs (j - i) 0 else w j

-- The loop of writei on the bytes that are left.
unfoldable pub write_from : (rounds off : ℕ) → List ℕ → FileK (Unit {0})
write_from zero off xs = pure tt
write_from (suc r) off xs =
    let m = piece off (length xs) in
    let rest = write_from r (off + m) (drop m xs) in
    if length xs == 0 then pure tt else (do
      b ← bmap (off / bsize)
      w ← on_disk (bread b)
      on_disk (log_write b (paste (off % bsize) (take m xs) w))
      rest)

unfoldable pub writei : Driver (List ℕ) → (off : ℕ) → List ℕ → FileK (Option ℕ)
unfolding write_from iupdate
writei devsw off xs = do
  ip ← inode
  if ip.typ == t_dev
      then call_driver devsw ip.major xs
      else if ltb ip.size off || ltb ((off + length xs) % 2 ^ 32) off
      then pure none
      else if ltb (maxfile * bsize) (off + length xs)
      then pure none
      else (do
        write_from (length xs) off xs
        jp ← inode
        if ltb 0 (length xs) && ltb jp.size (off + length xs)
            then (do set_inode (λ ip. record ip { size = off + length xs }); iupdate)
            else pure tt
        pure (some (length xs)))

-- `struct stat`
pub record Stat : Type 0 where
  pub typ : ℕ
  pub dev : ℕ
  pub ino : ℕ
  pub nlink : ℕ
  pub size : ℕ

unfoldable pub stati : Inode → Stat
stati ip = record { dev = ip.dev; ino = ip.inum; typ = ip.typ; nlink = ip.nlink; size = ip.size }
