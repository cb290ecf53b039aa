-- ===== src/Fs/Names.antt =====
-- dirlookup, dirlink, namex, namei and nameiparent of Project 1/xv6-public/fs.c, over the inode cache.
-- Where a call sleeps on the lock of an inode, the run stops there.
use operating_systems_projec.Prelude.{
  ℕ, zero, suc, Bool, true, false, ◌&&◌, Option, none, some, List, [], ◌∷◌, ◌==◌, if◌then◌else◌,
  length, not,
}
use operating_systems_projec.Prelude.Kernel.{look, pure, ◌>>=◌, ◌>>◌}
use operating_systems_projec.Fs.Inode.{Driver}
use operating_systems_projec.Fs.Dir.{t_dir, find_entry, add_entry}
use operating_systems_projec.Fs.Path.{skipelem}
use operating_systems_projec.Fs.Icache.{
  IcacheK, on_inode, iget, idup, ilock, iunlock, iput, iunlockput,
}

abbrev pub rootdev : ℕ
rootdev = 1

abbrev pub rootino : ℕ
rootino = 1

-- What dirlookup does with the entry that it found in the directory `i`.
unfoldable pub get_entry : ℕ → Option (ℕ × ℕ) → IcacheK (Option (ℕ × ℕ))
get_entry dev none = pure none
get_entry dev (some (inum, off)) = do j ← iget dev inum; pure (some (j, off))

-- The inode's index and the offset of its entry.
unfoldable pub dirlookup : Driver ℕ → (i : ℕ) → (name : ℕ → ℕ) → IcacheK (Option (ℕ × ℕ))
unfolding get_entry
dirlookup devsw i name = do
  r ← on_inode i (find_entry devsw name)
  c ← look
  get_entry (c.entry i).ip.dev r

-- dirlink behind its dirlookup, in whose result the reference is given back: -1 is `none`.
unfoldable pub link_absent :
    Driver ℕ
    → Driver (List ℕ)
    → (me i : ℕ) → (old name : ℕ → ℕ) → (inum : ℕ) → Option (ℕ × ℕ)
    → IcacheK (Option (Unit {0}))
link_absent devr devw me i old name inum (some (j, off)) = do iput me j; pure none
link_absent devr devw me i old name inum none = do
  on_inode i (add_entry devr devw old name inum)
  pure (some tt)

unfoldable pub dirlink :
    Driver ℕ
    → Driver (List ℕ)
    → (me i : ℕ) → (old name : ℕ → ℕ) → (inum : ℕ) → IcacheK (Option (Unit {0}))
unfolding dirlookup link_absent
dirlink devr devw me i old name inum = do
  r ← dirlookup devr i name
  link_absent devr devw me i old name inum r

-- The inode, and the array with the last element of the path.
abbrev pub NamexK : Type 0
NamexK = IcacheK (Option ℕ × (ℕ → ℕ))

abbrev pub starts_absolute : List ℕ → Bool
starts_absolute [] = false
starts_absolute (c ∷ cs) = c == b'/'

abbrev pub is_empty : List ℕ → Bool
is_empty [] = true
is_empty (c ∷ cs) = false

-- One round of the loop of namex on inode `ip`, with the path `rest` behind the element `name`; `go`
-- is the rest of the loop.
unfoldable pub step_into :
    Driver ℕ
    → (me : ℕ) → (parent : Bool) → (rest : List ℕ) → (name : ℕ → ℕ) → (ip : ℕ) → (ℕ → NamexK)
    → NamexK
unfolding dirlookup
step_into devsw me parent rest name ip go = do
  ilock me ip
  c ← look
  if not ((c.entry ip).ip.typ == t_dir)
      then (do iunlockput me ip; pure (none, name))
      else if parent && is_empty rest
      then (do iunlock me ip; pure (some ip, name))
      else (do
        next ← dirlookup devsw ip name
        iunlockput me ip
        elim next [ none ↦ pure (none, name) | some (j, off) ↦ go j ])

-- The way out of the loop.
unfoldable pub arrive : (me : ℕ) → (parent : Bool) → (name : ℕ → ℕ) → (ip : ℕ) → NamexK
arrive me true name ip = do iput me ip; pure (none, name)
arrive me false name ip = pure (some ip, name)

-- The loop of namex. A round takes an element of the path, so that the length of the path bounds the
-- rounds.
unfoldable pub walk :
    Driver ℕ → (me : ℕ) → (parent : Bool) → (rounds : ℕ) → List ℕ → (ℕ → ℕ) → ℕ → NamexK
unfolding step_into arrive
walk devsw me parent zero path name ip = arrive me parent name ip
walk devsw me parent (suc r) path name ip = elim (skipelem path name) [
  | none ↦ arrive me parent name ip
  | some (rest, name') ↦
      step_into devsw me parent rest name' ip (λ j. walk devsw me parent r rest name' j)
]

unfoldable pub namex : Driver ℕ → (me cwd : ℕ) → List ℕ → (parent : Bool) → (name : ℕ → ℕ) → NamexK
unfolding walk
namex devsw me cwd path parent name = do
  ip ← (if starts_absolute path then iget rootdev rootino else idup cwd)
  walk devsw me parent (length path) path name ip

unfoldable pub namei : Driver ℕ → (me cwd : ℕ) → List ℕ → (ℕ → ℕ) → IcacheK (Option ℕ)
unfolding namex
namei devsw me cwd path name = do r ← namex devsw me cwd path false name; pure (r.0)

unfoldable pub nameiparent : Driver ℕ → (me cwd : ℕ) → List ℕ → (ℕ → ℕ) → NamexK
unfolding namex
nameiparent devsw me cwd path name = namex devsw me cwd path true name
