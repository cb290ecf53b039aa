-- ===== src/Fs/Dir.antt =====
-- Directories of Project 1/xv6-public/fs.c, on the locked inode of the directory: namecmp, the loops
-- of dirlookup and dirlink. The calls of iget and iput in them stand in Fs/Names.
pub mod Lookup
use operating_systems_projec.Prelude.{
  ℕ, zero, suc, ◌+◌, ◌-◌, ◌*◌, ◌/◌, ◌%◌, Bool, true, false, Option, none, some, List, ◌∷◌, ◌==◌,
  ltb, if◌then◌else◌, cells, get_or,
}
use operating_systems_projec.Prelude.Int.{ℤ, pos, negsuc}
use operating_systems_projec.Prelude.Kernel.{panic, pure, ◌>>=◌, ◌>>◌}
use operating_systems_projec.String.{Mem, strncmp, strncpy}
use operating_systems_projec.Fs.Inode.{FileK, Driver, inode, readi, writei}

abbrev pub dirsiz : ℕ
dirsiz = 14

-- sizeof(struct dirent)
abbrev pub dirent_size : ℕ
dirent_size = 16

abbrev pub t_dir : ℕ
t_dir = 1

-- Two arrays of DIRSIZ characters in one memory, at 0 and at DIRSIZ.
abbrev pub beside : (s t : ℕ → ℕ) → Mem
beside s t i = if ltb i dirsiz then s i else t (i - dirsiz)

pub namecmp : (s t : ℕ → ℕ) → ℤ
namecmp s t = strncmp dirsiz 0 dirsiz (beside s t)

-- The fields of the `struct dirent` that readi stored.
abbrev pub de_inum : List ℕ → ℕ
de_inum xs = get_or xs 0 0 + 256 * get_or xs 1 0

abbrev pub de_name : List ℕ → ℕ → ℕ
de_name xs j = get_or xs (j + 2) 0

abbrev pub is_zero : ℤ → Bool
is_zero (pos zero) = true
is_zero (pos (suc n)) = false
is_zero (negsuc n) = false

abbrev pub is_some_of : ℕ → Option ℕ → Bool
is_some_of n (some k) = k == n
is_some_of n none = false

-- `if(readi(dp, (char*)&de, off, sizeof(de)) != sizeof(de)) panic(...)`
unfoldable pub read_entry : Driver ℕ → ℕ → FileK (List ℕ)
read_entry devsw off = do
  r ← readi devsw off dirent_size
  if is_some_of dirent_size (r.0) then pure (r.1) else (λ s. panic)

-- The loop of dirlookup from offset `off` on: the number of the inode and the offset of the entry. A
-- directory of `size` bytes takes `size / 16 + 1` rounds at most.
unfoldable pub lookup_from : Driver ℕ → (rounds off : ℕ) → (name : ℕ → ℕ) → FileK (Option (ℕ × ℕ))
unfolding namecmp read_entry
lookup_from devsw zero off name = pure none
lookup_from devsw (suc r) off name =
    let rest = lookup_from devsw r (off + dirent_size) name in
    do
      dp ← inode
      if ltb off dp.size
          then (do
            de ← read_entry devsw off
            if de_inum de == 0
                then rest
                else if is_zero (namecmp name (de_name de))
                then pure (some (de_inum de, off))
                else rest)
          else pure none

-- dirlookup up to the call of iget.
unfoldable pub find_entry : Driver ℕ → (name : ℕ → ℕ) → FileK (Option (ℕ × ℕ))
unfolding lookup_from
find_entry devsw name = do
  dp ← inode
  if dp.typ == t_dir then lookup_from devsw (dp.size / dirent_size + 1) 0 name else (λ s. panic)

-- The loop of dirlink for an empty entry: its offset, or the end of the directory.
unfoldable pub find_room : Driver ℕ → (rounds off : ℕ) → FileK ℕ
unfolding read_entry
find_room devsw zero off = pure off
find_room devsw (suc r) off =
    let rest = find_room devsw r (off + dirent_size) in
    do
      dp ← inode
      if ltb off dp.size
          then (do de ← read_entry devsw off; if de_inum de == 0 then pure off else rest)
          else pure off

-- The bytes of an entry: strncpy fills all of `de.name`, whatever it holds before.
unfoldable pub dirent : (old name : ℕ → ℕ) → ℕ → List ℕ
dirent old name inum =
    inum % 256 ∷ (inum / 256 % 256) ∷ cells (strncpy dirsiz 0 dirsiz (beside old name)) 0 dirsiz

-- dirlink behind its dirlookup.
unfoldable pub add_entry : Driver ℕ → Driver (List ℕ) → (old name : ℕ → ℕ) → ℕ → FileK (Unit {0})
unfolding find_room dirent
add_entry devr devw old name inum = do
  dp ← inode
  off ← find_room devr (dp.size / dirent_size + 1) 0
  r ← writei devw off (dirent old name inum)
  if is_some_of dirent_size r then pure tt else (λ s. panic)
