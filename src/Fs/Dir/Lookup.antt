-- ===== src/Fs/Dir/Lookup.antt =====
-- What dirlookup finds in a directory.
use operating_systems_projec.Prelude.{
  ℕ, zero, suc, ◌+◌, ◌-◌, ◌*◌, ◌/◌, ◌%◌, ◌≤◌, ◌<◌, ◌≡◌, ◌≢◌, ◌↔◌, refl, sym, ap, ◌∙◌, inl, inr,
  true, false, Option, none, some, List, ◌==◌, ltb, cells, get_or, arith, Bool-cases, min,
  get_or-cells,
}
use mathlib.Core.Path.{subst}
use operating_systems_projec.Prelude.Int.{ℤ, pos}
use operating_systems_projec.Prelude.Kernel.{ok}
use operating_systems_projec.String.{strncmp}
use operating_systems_projec.String.Compare.{chars, chars-shift, strncmp_lem}
use operating_systems_projec.Fs.Inode.{Work, Driver}
use operating_systems_projec.Fs.Layout.{content}
use operating_systems_projec.Fs.ReadWrite.{IsWhole, readi_lem}
use operating_systems_projec.Fs.Dir.{
  dirsiz, dirent_size, t_dir, beside, namecmp, de_inum, de_name, is_zero, read_entry, lookup_from,
  find_entry,
}

-- The entry at offset `off` of the directory.
abbrev pub inum_at : Work → ℕ → ℕ
inum_at s off = content s off + 256 * content s (off + 1)

pub name_at : Work → ℕ → List ℕ
name_at s off = chars dirsiz (off + 2) (content s)

pub entry_at : Work → ℕ → List ℕ
entry_at s off = cells (content s) off dirent_size

-- The name in an array of DIRSIZ characters.
pub name_in : (ℕ → ℕ) → List ℕ
name_in name = chars dirsiz 0 name

-- A directory: a whole file of entries.
pub record IsDir (s : Work) : Type 0 where
  pub whole : IsWhole s
  pub typ : s.ip.typ ≡ t_dir
  pub entries : s.ip.size % dirent_size ≡ 0

pub read_entry_lem :
    (devsw : Driver ℕ) (off : ℕ) (s : Work)
    → IsDir s
    → off + dirent_size ≤ s.ip.size
    → read_entry devsw off s ≡ ok (entry_at s off) s
unfolding read_entry entry_at
read_entry_lem devsw off s d h =
    let limit = d.whole.limit in
    let b : ltb s.ip.size off ≡ false = ground arith in
    let m : min dirent_size (s.ip.size - off) ≡ 16 = omega arith in
    let e =
      rw (b, m) at
        (readi_lem devsw off dirent_size s d.whole (ground (arith, d.typ)) (omega arith)) in
    ground (arith, e)

pub de_inum-entry_at : (s : Work) (off : ℕ) → de_inum (entry_at s off) ≡ inum_at s off
unfolding entry_at
de_inum-entry_at s off = ap (λ k. content s k + 256 * content s (off + 1)) {x = off} refl

is_zero_iff : (z : ℤ) → (is_zero z ≡ true) ↔ (z ≡ pos 0)
is_zero_iff z = (λ e. ground arith, λ e. ground arith)

beside-de_name :
    (name : ℕ → ℕ) (xs : List ℕ) (j : ℕ)
    → beside name (de_name xs) (dirsiz + j) ≡ get_or xs (j + 2) 0
beside-de_name name xs j =
    let e : dirsiz + j - dirsiz + 2 ≡ j + 2 = omega arith in
    let f : ltb (dirsiz + j) dirsiz ≡ false = ground arith in rw (e, f) refl

pub namecmp_lem :
    (s : Work) (name : ℕ → ℕ) (off : ℕ)
    → (is_zero (namecmp name (de_name (entry_at s off))) ≡ true) ↔ (name_in name ≡ name_at s off)
unfolding namecmp entry_at name_at name_in
namecmp_lem s name off =
    let m = beside name (de_name (cells (content s) off dirent_size)) in
    let a : chars dirsiz 0 m ≡ chars dirsiz 0 name =
      chars-shift dirsiz 0 0 m name (λ j h. ground arith) in
    let b : chars dirsiz dirsiz m ≡ chars dirsiz (off + 2) (content s) =
      chars-shift dirsiz dirsiz (off + 2) m (content s) (λ j h.
        beside-de_name name (cells (content s) off dirent_size) j
        ∙ get_or-cells (content s) off dirent_size (j + 2) 0 (omega arith)
        ∙ ap (content s) (omega arith)) in
    let (f, g) = strncmp_lem dirsiz 0 dirsiz m in
    let (k, l) = is_zero_iff (strncmp dirsiz 0 dirsiz m) in
    (λ e. sym a ∙ f (k e) ∙ b, λ e. l (g (a ∙ e ∙ sym b)))

-- The entry at `off` is in use and has the name.
abbrev pub Has : Work → (ℕ → ℕ) → ℕ → Type 0
Has s name off = (inum_at s off ≢ 0) × (name_in name ≡ name_at s off)

-- What a lookup from `from` on finds: no entry, or the first one with the name.
abbrev pub Finds : Work → (ℕ → ℕ) → ℕ → Option (ℕ × ℕ) → Type 0
Finds s name from none =
    (off : ℕ) → from ≤ off → off < s.ip.size → off % dirent_size ≡ 0 → ¬ (Has s name off)
Finds s name from (some (inum, off)) =
    (from ≤ off)
    × (off < s.ip.size)
    × (off % dirent_size ≡ 0)
    × (inum ≡ inum_at s off)
    × Has s name off
    × ((o : ℕ) → from ≤ o → o < off → o % dirent_size ≡ 0 → ¬ (Has s name o))

-- An entry that is not found, and those behind it.
Finds-skip :
    (s : Work) (name : ℕ → ℕ) (off : ℕ) (o : Option (ℕ × ℕ))
    → off % dirent_size ≡ 0
    → ¬ (Has s name off)
    → Finds s name (off + dirent_size) o
    → Finds s name off o
Finds-skip s name off none m n f = λ o p q r. elim (Bool-cases (o == off)) [
  | inl e ↦ λ h. n (subst (Has s name) (ground arith) h)
  | inr e ↦ f o (ground arith) q r
]
Finds-skip s name off (some (i, k)) m n (p, q, r, e, h, first) = (
  omega arith,
  q,
  r,
  e,
  h,
  λ o a b c. elim (Bool-cases (o == off)) [
    | inl e ↦ λ h. n (subst (Has s name) (ground arith) h)
    | inr e ↦ first o (ground arith) b c
  ],
)

abbrev Looked : Driver ℕ → (r off : ℕ) → (ℕ → ℕ) → Work → Type 0
Looked devsw r off name s =
    (o : Option (ℕ × ℕ)) × (lookup_from devsw r off name s ≡ ok o s) × Finds s name off o

lookup_from_lem :
    (devsw : Driver ℕ) (r off : ℕ) (name : ℕ → ℕ) (s : Work)
    → IsDir s
    → off % dirent_size ≡ 0
    → s.ip.size ≤ off + r * dirent_size
    → Looked devsw r off name s
unfolding lookup_from
lookup_from_lem devsw zero off name s d m h = (none, refl, λ o p q. absurd (omega arith))
lookup_from_lem devsw (suc r) off name s d m h = elim (Bool-cases (ltb off s.ip.size)) [
  | inr e ↦ (none, rw e refl, λ o p q. absurd (ground arith))
  | inl e ↦
      let (o, t, f) =
        lookup_from_lem devsw r (off + dirent_size) name s d (omega arith) (omega arith) in
      let entries = d.entries in
      let here = read_entry_lem devsw off s d (ground arith) in
      let inum = de_inum-entry_at s off in
      let (k, l) = namecmp_lem s name off in
      elim (Bool-cases (de_inum (entry_at s off) == 0)) [
        | inl z ↦ (
          o,
          ground (arith, e, here, z, t),
          Finds-skip s name off o m (λ x. x.0 (ground (arith, inum))) f,
        )
        | inr z ↦ elim (Bool-cases (is_zero (namecmp name (de_name (entry_at s off))))) [
          | inl y ↦ (
            some (de_inum (entry_at s off), off),
            ground (arith, e, here, z, y),
            (
              omega arith,
              ground arith,
              m,
              inum,
              (ground (arith, inum), k y),
              λ p a b. absurd (omega arith),
            ),
          )
          | inr y ↦ (
            o,
            ground (arith, e, here, z, y, t),
            Finds-skip s name off o m (λ x. ground (arith, l x.1)) f,
          )
        ]
      ]
]

-- dirlookup of a name in a directory, whose size is a multiple of that of an entry: it does not
-- panic, changes nothing, and finds the first entry in use with the name, up to a NUL and DIRSIZ
-- characters, with its inode and its offset; it finds none exactly if there is no such entry.
pub find_entry_lem :
    (devsw : Driver ℕ) (name : ℕ → ℕ) (s : Work)
    → IsDir s
    → (o : Option (ℕ × ℕ)) × (find_entry devsw name s ≡ ok o s) × Finds s name 0 o
unfolding find_entry
find_entry_lem devsw name s d =
    let (o, t, f) =
      lookup_from_lem devsw (s.ip.size / dirent_size + 1) 0 name s d refl (omega arith) in
    (o, ground (arith, d.typ, t), f)
