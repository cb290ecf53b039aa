-- ===== src/Wc/Counting.antt =====
-- wc counts the lines, words and bytes of the whole file, however it is read.
use operating_systems_projec.Prelude.{
  ℕ, suc, ◌+◌, ◌≡◌, refl, sym, ap, ap₂, ◌∙◌, inl, inr, Bool, true, false, List, [], ◌∷◌, ◌++◌,
  length, none, some, ◌==◌, if◌then◌else◌, Bool-cases, arith,
}
use mathlib.Core.List.{flatten}
use operating_systems_projec.Wc.{
  newline, Counts, is_separator, count_byte, count_piece, count_pieces, wc,
}

-- The newlines of a text.
unfoldable pub lines : List ℕ → ℕ
lines [] = 0
lines (x ∷ xs) = let rest = lines xs in if x == newline then suc rest else rest

-- The text between separators, the empty ones too; there is always a first one.
abbrev pub put_first : ℕ → List (List ℕ) → List (List ℕ)
put_first x [] = (x ∷ []) ∷ []
put_first x (s ∷ ss) = (x ∷ s) ∷ ss

unfoldable pub split : List ℕ → List (List ℕ)
split [] = [] ∷ []
split (x ∷ xs) = let rest = split xs in if is_separator x then [] ∷ rest else put_first x rest

-- How many of them are not empty: those are the words.
abbrev pub count_filled : List (List ℕ) → ℕ
count_filled [] = 0
count_filled ([] ∷ ss) = count_filled ss
count_filled ((x ∷ s) ∷ ss) = suc (count_filled ss)

unfoldable pub words : List ℕ → ℕ
words xs = count_filled (split xs)

-- The words that begin behind a text that ends in a word or not.
new_words : Bool → List (List ℕ) → ℕ
new_words b [] = 0
new_words true (s ∷ ss) = count_filled ss
new_words false (s ∷ ss) = count_filled (s ∷ ss)

split-cons : (xs : List ℕ) → (s : List ℕ) × (ss : List (List ℕ)) × (split xs ≡ s ∷ ss)
unfolding split
split-cons [] = ([], [], refl)
split-cons (x ∷ xs) =
    let (s, ss, e) = split-cons xs in
    elim (Bool-cases (is_separator x)) [
      | inl f ↦ ([], split xs, rw f refl)
      | inr f ↦ (x ∷ s, ss, rw (f, e) refl)
    ]

count_byte-words :
    (x : ℕ) (xs : List ℕ) (k : Counts)
    → (count_byte x k).w + new_words (count_byte x k).inword (split xs)
      ≡ k.w + new_words k.inword (split (x ∷ xs))
unfolding count_byte split new_words
count_byte-words x xs k =
    let (s, ss, e) = split-cons xs in
    elim (Bool-cases (is_separator x)) [
      | inl f ↦ elim (Bool-cases k.inword) [ inl g ↦ rw (f, g, e) refl | inr g ↦ rw (f, g, e) refl ]
      | inr f ↦ elim (Bool-cases k.inword) [
        | inl g ↦ rw (f, g, e) (unfold new_words in refl)
        | inr g ↦ rw (f, g, e) (omega arith)
      ]
    ]

count_piece-words :
    (xs : List ℕ) (k : Counts) → (count_piece xs k).w ≡ k.w + new_words k.inword (split xs)
unfolding count_piece
count_piece-words [] k = elim (Bool-cases k.inword) [
  | inl g ↦ unfold split in unfold new_words in rw g (omega arith)
  | inr g ↦ unfold split in unfold new_words in rw g (omega arith)
]
count_piece-words (x ∷ xs) k = count_piece-words xs (count_byte x k) ∙ count_byte-words x xs k

count_byte-lines :
    (x : ℕ) (xs : List ℕ) (k : Counts)
    → ((count_byte x k).l + lines xs ≡ k.l + lines (x ∷ xs)) × ((count_byte x k).c ≡ suc k.c)
unfolding count_byte lines
count_byte-lines x xs k = elim (Bool-cases (is_separator x)) [
  | inl f ↦ rw f (ground arith, refl)
  | inr f ↦ elim (Bool-cases k.inword) [
    | inl g ↦ rw (f, g) (ground arith, refl)
    | inr g ↦ rw (f, g) (ground arith, refl)
  ]
]

count_piece-lines :
    (xs : List ℕ) (k : Counts)
    → ((count_piece xs k).l ≡ k.l + lines xs) × ((count_piece xs k).c ≡ k.c + length xs)
unfolding count_piece
count_piece-lines [] k = (unfold lines in omega arith, omega arith)
count_piece-lines (x ∷ xs) k =
    let (a, b) = count_piece-lines xs (count_byte x k) in
    let (p, q) = count_byte-lines x xs k in (a ∙ p, omega (arith, b, q))

count_piece-append :
    (xs ys : List ℕ) (k : Counts) → count_piece (xs ++ ys) k ≡ count_piece ys (count_piece xs k)
unfolding count_piece
count_piece-append [] ys k = refl
count_piece-append (x ∷ xs) ys k = count_piece-append xs ys (count_byte x k)

count_pieces_lem :
    (ps : List (List ℕ)) (k : Counts) → count_pieces ps k ≡ count_piece (flatten ps) k
unfolding count_pieces flatten
count_pieces_lem [] k = unfold count_piece in refl
count_pieces_lem (p ∷ ps) k =
    count_pieces_lem ps (count_piece p k) ∙ sym (count_piece-append p (flatten ps) k)

first_words : (xs : List ℕ) → 0 + new_words false (split xs) ≡ count_filled (split xs)
unfolding new_words
first_words xs = let (s, ss, e) = split-cons xs in rw e (omega arith)

-- wc of a file, in whatever pieces it is read, prints the number of its newlines, of its words, which are
-- the texts between separators that are not empty, and of its bytes; if the last read fails it prints none
-- of them.
pub wc_lem :
    (pieces : List (List ℕ)) (fails : Bool)
    → wc pieces fails ≡ (
        if fails
        then none
        else some (lines (flatten pieces), words (flatten pieces), length (flatten pieces)))
unfolding wc words
wc_lem pieces true = refl
wc_lem pieces false =
    let start : Counts = record { l = 0; w = 0; c = 0; inword = false } in
    let text = flatten pieces in
    let e = count_pieces_lem pieces start in
    let (l, c) = count_piece-lines text start in
    let lines_ok : (count_pieces pieces start).l ≡ lines text =
      ap (λ (k : Counts). k.l) e ∙ l ∙ omega arith in
    let words_ok : (count_pieces pieces start).w ≡ count_filled (split text) =
      ap (λ (k : Counts). k.w) e ∙ count_piece-words text start ∙ first_words text in
    let bytes_ok : (count_pieces pieces start).c ≡ length text =
      ap (λ (k : Counts). k.c) e ∙ c ∙ omega arith in
    let end = count_pieces pieces start in
    ap (λ n. some (end.l, end.w, n)) bytes_ok
    ∙ ap₂ (λ m n. some (m, n, length text)) lines_ok words_ok
