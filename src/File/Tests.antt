-- ===== src/File/Tests.antt =====
-- Instances of the theorems on the table of open files.
use operating_systems_projec.Prelude.{
  ℕ, ◌<◌, ◌≡◌, ◌⊎◌, refl, true, false, List, [], ◌∷◌, none, some,
}
use operating_systems_projec.Prelude.Kernel.{ok, unlocked}
use operating_systems_projec.File.{File, Ftable, fd_none, fd_pipe, nfile, filealloc, set_file}
use operating_systems_projec.File.Refs.{alloc, dup, close, run, Counts, run-Counts, filealloc_lem}

abbrev closed : File
closed = record {
  typ = fd_none;
  ref = 0;
  readable = false;
  writable = false;
  pipe = 0;
  ip = 0;
  off = 0;
}

abbrev empty : Ftable
empty = record { file = λ f. closed }

-- One file is opened, duplicated and closed twice.
run-Counts_example :
    (h : List ℕ) × (u : Ftable) × (run (alloc ∷ dup 0 ∷ close 0 ∷ close 0 ∷ []) [] (unlocked empty)
      ≡ ok h (unlocked u))
    × Counts h u
run-Counts_example = run-Counts (alloc ∷ dup 0 ∷ close 0 ∷ close 0 ∷ []) [] empty (λ f. refl)

-- The writing end of pipe 9.
abbrev one_pipe : Ftable
one_pipe = set_file 0 (λ x. record x { typ = fd_pipe; ref = 1; pipe = 9; writable = true }) empty

filealloc_lem_example :
    ((filealloc (unlocked one_pipe) ≡ ok none (unlocked one_pipe))
      × ((g : ℕ) → g < nfile → 0 < (one_pipe.file g).ref))
    ⊎ ((f : ℕ) × (filealloc (unlocked one_pipe)
          ≡ ok (some f) (unlocked (set_file f (λ x. record x { ref = 1 }) one_pipe)))
        × (f < nfile)
        × ((one_pipe.file f).ref ≡ 0))
filealloc_lem_example = filealloc_lem one_pipe
