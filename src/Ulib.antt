-- ===== src/Ulib.antt =====
-- The user library of Project 1/xv6-public: printint of printf.c, atoi and strchr of ulib.c. An `int` is its
-- 32-bit pattern, a string the list of its characters without the NUL, and the array of printint the list
-- of the characters stored, the last one first, which is the order in which they are put out.
mod Tests
pub mod Numbers
use operating_systems_projec.Prelude.{
  Option, none, some, ℕ, zero, suc, ◌+◌, ◌-◌, ◌*◌, ◌/◌, ◌%◌, ◌^◌, Bool, ◌&&◌, List, [], ◌∷◌, ◌==◌,
  leb, if◌then◌else◌, get_or,
}

-- "0123456789ABCDEF"
abbrev pub digits : List ℕ
digits = 48 ∷ 49 ∷ 50 ∷ 51 ∷ 52 ∷ 53 ∷ 54 ∷ 55 ∷ 56 ∷ 57 ∷ 65 ∷ 66 ∷ 67 ∷ 68 ∷ 69 ∷ 70 ∷ []

-- The character `-`.
abbrev pub minus : ℕ
minus = 45

-- The loop that stores the digits of `x`, with `buf` stored already.
unfoldable pub store_digits : (rounds base x : ℕ) → (buf : List ℕ) → List ℕ
store_digits zero base x buf = buf
store_digits (suc r) base x buf =
    let more = get_or digits (x % base) 0 ∷ buf in
    let rest = store_digits r base (x / base) more in if x / base == 0 then more else rest

-- A `uint` has 32 digits at most, in base 2.
abbrev pub max_digits : ℕ
max_digits = 32

-- What printint puts out. The pattern of a negative `int` is at least 2 ^ 31.
unfoldable pub printint : (xx base : ℕ) → (sgn : Bool) → List ℕ
unfolding store_digits
printint xx base sgn =
    if sgn && leb (2 ^ 31) xx
    then minus ∷ store_digits max_digits base ((2 ^ 32 - xx) % 2 ^ 32) []
    else store_digits max_digits base xx []

-- The loop of atoi.
unfoldable pub atoi_from : (n : ℕ) → List ℕ → ℕ
atoi_from n [] = n
atoi_from n (c ∷ s) =
    let rest = atoi_from ((n * 10 + c + 2 ^ 32 - 48) % 2 ^ 32) s in
    if leb 48 c && leb c 57 then rest else n

unfoldable pub atoi : List ℕ → ℕ
unfolding atoi_from
atoi s = atoi_from 0 s

-- The string that strchr returns a pointer to; a null pointer is `none`.
unfoldable pub strchr : List ℕ → (c : ℕ) → Option (List ℕ)
strchr [] c = none
strchr (x ∷ s) c = let rest = strchr s c in if x == c then some (x ∷ s) else rest
