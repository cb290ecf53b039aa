-- ===== src/Wc.antt =====
-- wc of Project 1/xv6-public/wc.c: what it prints of a file that it reads piece by piece. The counters are
-- taken not to overflow an `int`.
mod Tests
pub mod Counting
use operating_systems_projec.Prelude.{
  ℕ, suc, Bool, true, false, List, [], ◌∷◌, Option, none, some, ◌==◌, if◌then◌else◌,
}
use operating_systems_projec.Ulib.{strchr}

-- " \r\t\n\v"
abbrev pub separators : List ℕ
separators = 32 ∷ 13 ∷ 9 ∷ 10 ∷ 11 ∷ []

abbrev pub newline : ℕ
newline = 10

-- `l`, `w`, `c` and `inword`.
pub record Counts : Type 0 where
  pub l : ℕ
  pub w : ℕ
  pub c : ℕ
  pub inword : Bool

-- Whether the pointer that strchr returns is not null.
unfoldable pub is_separator : ℕ → Bool
unfolding strchr
is_separator x = elim (strchr separators x) [ none ↦ false | some s ↦ true ]

-- The body of the inner loop on the byte `x`.
unfoldable pub count_byte : ℕ → Counts → Counts
count_byte x k =
    let j = record k { c = suc k.c; l = if x == newline then suc k.l else k.l } in
    if is_separator x
    then record j { inword = false }
    else if j.inword
    then j
    else record j { w = suc j.w; inword = true }

unfoldable pub count_piece : List ℕ → Counts → Counts
count_piece [] k = k
count_piece (x ∷ xs) k = count_piece xs (count_byte x k)

-- What read returns: pieces of the file, until it returns 0 or fails.
unfoldable pub count_pieces : List (List ℕ) → Counts → Counts
unfolding count_piece
count_pieces [] k = k
count_pieces (p ∷ ps) k = count_pieces ps (count_piece p k)

-- The numbers that wc prints: lines, words and bytes, or none if the last read fails.
unfoldable pub wc : (pieces : List (List ℕ)) → (fails : Bool) → Option (ℕ × ℕ × ℕ)
unfolding count_pieces
wc pieces fails =
    let k = count_pieces pieces (record { l = 0; w = 0; c = 0; inword = false }) in
    if fails then none else some (k.l, k.w, k.c)
