-- ===== src/File.antt =====
-- The table of open files of Project 1/xv6-public/file.c: filealloc, filedup and fileclose. A
-- `struct file *` is an index into the table.
mod Tests
pub mod Refs
use operating_systems_projec.Prelude.{
  ℕ, zero, suc, ◌+◌, ◌-◌, Bool, true, false, Option, none, some, List, [], ◌∷◌, ◌==◌, ltb,
  if◌then◌else◌, update,
}
use operating_systems_projec.Prelude.Kernel.{
  Kernel, Locked, acquire, release, look, change, pure, panic_if, ◌>>=◌, ◌>>◌,
}

abbrev pub nfile : ℕ
nfile = 100

pub data FdType : Type 0 where
  fd_none fd_pipe fd_inode : FdType

-- `struct file`; the pipe and the inode that it points to are numbers.
pub record File : Type 0 where
  pub typ : FdType
  pub ref : ℕ
  pub readable : Bool
  pub writable : Bool
  pub pipe : ℕ
  pub ip : ℕ
  pub off : ℕ

pub record Ftable : Type 0 where
  pub file : ℕ → File

-- Nothing sleeps here.
abbrev pub FtableK : Type 0 → Type 0
FtableK A = Kernel ⊥ (Locked Ftable) A

abbrev pub set_file : ℕ → (File → File) → Ftable → Ftable
set_file f g t = record { file = update t.file f (g (t.file f)) }

-- The loop of filealloc, from entry `f` with `rounds` left.
pub find_free : (rounds f : ℕ) → (ℕ → File) → Option ℕ
find_free zero f file = none
find_free (suc r) f file =
    let rest = find_free r (f + 1) file in if (file f).ref == 0 then some f else rest

-- The way out of filealloc.
pub take_entry : Option ℕ → FtableK (Option ℕ)
take_entry (some f) = do change (set_file f (λ x. record x { ref = 1 })); release; pure (some f)
take_entry none = do release; pure none

pub filealloc : FtableK (Option ℕ)
unfolding find_free take_entry
filealloc = do acquire; t ← look; take_entry (find_free nfile 0 t.file)

pub filedup : ℕ → FtableK ℕ
filedup f = do
  acquire
  t ← look
  panic_if (ltb (t.file f).ref 1)
  change (set_file f (λ x. record x { ref = x.ref + 1 }))
  release
  pure f

-- What fileclose goes on to do once it has released the table: pipeclose, or iput within a
-- transaction.
pub data After : Type 0 where
  nothing : After
  close_pipe : ℕ → Bool → After
  put_inode : ℕ → After

pub follow_up : File → After
follow_up x = elim x.typ [
  | fd_none ↦ nothing
  | fd_pipe ↦ close_pipe x.pipe x.writable
  | fd_inode ↦ put_inode x.ip
]

pub fileclose : ℕ → FtableK After
unfolding follow_up
fileclose f = do
  acquire
  t ← look
  panic_if (ltb (t.file f).ref 1)
  change (set_file f (λ x. record x { ref = x.ref - 1 }))
  if ltb 0 ((t.file f).ref - 1) then (do release; pure nothing) else (do
    change (set_file f (λ x. record x { ref = 0; typ = fd_none }))
    release
    pure (follow_up (t.file f)))
