-- ===== src/File/Refs.antt =====
-- The reference counts of file.c count the references that are held.
use operating_systems_projec.Prelude.{
  count, erase, count-erase, ℕ, zero, suc, ◌+◌, ◌-◌, ◌<◌, ◌≤◌, ◌≡◌, ◌≢◌, refl, ◌⊎◌, inl, inr, Bool,
  true, false, Option, none, some, List, [], ◌∷◌, ◌==◌, if◌then◌else◌, arith,
}
use operating_systems_projec.Prelude.Kernel.{ok, unlocked, locked, pure, ◌>>=◌}
use operating_systems_projec.File.{
  After, close_pipe, put_inode, fd_pipe, fd_inode, File, Ftable, FtableK, nothing, fd_none, nfile,
  find_free, take_entry, filealloc, filedup, fileclose, set_file,
}

-- The calls that processes make; dup and close only of a file that one of them has.
pub data Op : Type 0 where
  alloc : Op
  dup close : ℕ → Op

-- One call, and the references held behind it; `held` has a file once for each reference.
pub apply : Op → (held : List ℕ) → FtableK (List ℕ)
apply alloc held = do r ← filealloc; pure (elim r [ some f ↦ f ∷ held | none ↦ held ])
apply (dup f) held = if count f held == 0 then pure held else (do g ← filedup f; pure (g ∷ held))
apply (close f) held =
    if count f held == 0 then pure held else (do a ← fileclose f; pure (erase f held))

pub run : List Op → (held : List ℕ) → FtableK (List ℕ)
run [] held = pure held
run (o ∷ os) held = do h ← apply o held; run os h

abbrev pub Counts : List ℕ → Ftable → Type 0
Counts held t = (f : ℕ) → (t.file f).ref ≡ count f held

abbrev pub Free : (f n : ℕ) → (ℕ → File) → Option ℕ → Type 0
Free f n file none = (g : ℕ) → f ≤ g → g < f + n → 0 < (file g).ref
Free f n file (some g) = (f ≤ g) × (g < f + n) × ((file g).ref ≡ 0)

find_free_lem : (n f : ℕ) (file : ℕ → File) → Free f n file (find_free n f file)
unfolding find_free
find_free_lem zero f file = λ g p q. ground arith
find_free_lem (suc n) f file =
    branch ((file f).ref == 0) refl (find_free n (f + 1) file) (find_free_lem n (f + 1) file)
  where
    branch :
        (t : Bool)
        → ((file f).ref == 0) ≡ t
        → (o : Option ℕ) → Free (f + 1) n file o
        → Free f (suc n) file (if t then some f else o)
    branch true e o h = (omega arith, omega arith, ground arith)
    branch false e none h = λ g p q. ground (arith, h g)
    branch false e (some g) (a, b, z) = (omega arith, omega arith, z)

take_entry_lem :
    (o : Option ℕ) (t : Ftable)
    → Free 0 nfile t.file o
    → (held : List ℕ) → Counts held t
    → (u : Ftable) × (take_entry o (locked t) ≡ ok o (unlocked u))
      × Counts (elim o [ some f ↦ f ∷ held | none ↦ held ]) u
unfolding take_entry
take_entry_lem none t h held c = (t, refl, c)
take_entry_lem (some f) t (a, b, z) held c =
    (set_file f (λ x. record x { ref = 1 }) t, refl, λ g. ground (arith, c g, c f))

apply-Counts :
    (o : Op) (held : List ℕ) (t : Ftable)
    → Counts held t
    → (h : List ℕ) × (u : Ftable) × (apply o held (unlocked t) ≡ ok h (unlocked u)) × Counts h u
unfolding apply filealloc filedup fileclose
apply-Counts alloc held t c =
    let (u, e, d) =
      take_entry_lem (find_free nfile 0 t.file) t (find_free_lem nfile 0 t.file) held c in
    (elim (find_free nfile 0 t.file) [ some f ↦ f ∷ held | none ↦ held ], u, ground (arith, e), d)
apply-Counts (dup f) held t c = branch (count f held) refl
  where
    branch :
        (n : ℕ)
        → count f held ≡ n
        → (h : List ℕ) × (u : Ftable) × (apply (dup f) held (unlocked t) ≡ ok h (unlocked u))
          × Counts h u
    branch zero e = (held, t, ground arith, c)
    branch (suc n) e = (
      f ∷ held,
      set_file f (λ x. record x { ref = x.ref + 1 }) t,
      ground (arith, c f),
      λ g. ground (arith, c g, c f),
    )
apply-Counts (close f) held t c = branch (count f held) refl
  where
    branch :
        (n : ℕ)
        → count f held ≡ n
        → (h : List ℕ) × (u : Ftable) × (apply (close f) held (unlocked t) ≡ ok h (unlocked u))
          × Counts h u
    branch zero e = (held, t, ground arith, c)
    branch (suc zero) e = (
      erase f held,
      set_file f (λ x. record x { ref = 0; typ = fd_none })
          (set_file f (λ x. record x { ref = x.ref - 1 }) t),
      ground (arith, c f),
      λ g. ground (arith, c g, c f, count-erase f held g),
    )
    branch (suc (suc n)) e = (
      erase f held,
      set_file f (λ x. record x { ref = x.ref - 1 }) t,
      ground (arith, c f),
      λ g. ground (arith, c g, c f, count-erase f held g),
    )

-- In every sequence of calls of filealloc, filedup and fileclose, from a table whose counts are those
-- of the references held, no call panics or loses the table's lock, and every `ref` stays the number
-- of references held: an entry is given out again only when none is left.
pub run-Counts :
    (os : List Op) (held : List ℕ) (t : Ftable)
    → Counts held t
    → (h : List ℕ) × (u : Ftable) × (run os held (unlocked t) ≡ ok h (unlocked u)) × Counts h u
unfolding run
run-Counts [] held t c = (held, t, refl, c)
run-Counts (o ∷ os) held t c =
    let (h, u, e, d) = apply-Counts o held t c in
    let (k, w, r, b) = run-Counts os h u d in (k, w, ground (arith, e, r), b)

-- What fileclose has left to do once it has closed `x`.
abbrev pub Closes : File → After → Type 0
Closes x a =
    (x.ref ≢ 1 → a ≡ nothing)
    × (x.ref ≡ 1 → x.typ ≡ fd_none → a ≡ nothing)
    × (x.ref ≡ 1 → x.typ ≡ fd_pipe → a ≡ close_pipe x.pipe x.writable)
    × (x.ref ≡ 1 → x.typ ≡ fd_inode → a ≡ put_inode x.ip)

-- filealloc on a table whose lock is free takes an entry that no reference is held to and gives it
-- one, and changes no other; it fails, and changes nothing, exactly if all NFILE entries are open.
pub filealloc_lem :
    (t : Ftable)
    → ((filealloc (unlocked t) ≡ ok none (unlocked t)) × ((g : ℕ) → g < nfile → 0 < (t.file g).ref))
      ⊎ ((f : ℕ) × (filealloc (unlocked t)
            ≡ ok (some f) (unlocked (set_file f (λ x. record x { ref = 1 }) t)))
          × (f < nfile)
          × ((t.file f).ref ≡ 0))
unfolding filealloc take_entry
filealloc_lem t = branch (find_free nfile 0 t.file) (find_free_lem nfile 0 t.file)
  where
    branch :
        (o : Option ℕ)
        → Free 0 nfile t.file o
        → ((take_entry o (locked t) ≡ ok none (unlocked t))
            × ((g : ℕ) → g < nfile → 0 < (t.file g).ref))
          ⊎ ((f : ℕ) × (take_entry o (locked t)
                ≡ ok (some f) (unlocked (set_file f (λ x. record x { ref = 1 }) t)))
              × (f < nfile)
              × ((t.file f).ref ≡ 0))
    branch none h = inl (refl, λ g p. h g (omega arith) (omega arith))
    branch (some f) (a, b, z) = inr (f, refl, omega arith, z)
