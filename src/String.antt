-- ===== src/String.antt =====
-- Project 1/xv6-public/string.c. Memory holds a byte at each address; the ranges of a call do not run
-- over the end of the address space. A character is the byte as an `unsigned char`.
mod Tests
pub mod Copy
pub mod Compare
pub mod Bounded
use operating_systems_projec.Prelude.{
  ℕ, zero, suc, ◌+◌, ◌-◌, ◌*◌, ◌/◌, ◌%◌, ◌^◌, Bool, true, false, not, ◌&&◌, Option, none, some,
  ◌==◌, ltb, if◌then◌else◌, update,
}
use operating_systems_projec.Prelude.Int.{ℤ, pos, negsuc}

abbrev pub Mem : Type 0
Mem = ℕ → ℕ

-- `x - y` of two characters.
abbrev pub char_diff : ℕ → ℕ → ℤ
char_diff x y = if ltb x y then negsuc (y - x - 1) else pos (x - y)

-- `rep stosb` and `rep stosl` of x86.h; a word is stored with its low byte first.
pub stosb : (n dst c : ℕ) → Mem → Mem
stosb zero dst c m = m
stosb (suc n) dst c m = stosb n (dst + 1) c (update m dst (c % 256))

abbrev pub store_word : ℕ → ℕ → Mem → Mem
store_word p w m =
    update
      (update (update (update m p (w % 256)) (p + 1) (w / 256 % 256)) (p + 2) (w / 65536 % 256))
      (p + 3) (w / 16777216 % 256)

pub stosl : (n dst w : ℕ) → Mem → Mem
stosl zero dst w m = m
stosl (suc n) dst w m = stosl n (dst + 4) w (store_word dst w m)

-- `(c<<24)|(c<<16)|(c<<8)|c` of a byte is a sum, since no two of the four share a bit.
abbrev pub four_times : ℕ → ℕ
four_times c = c * 16777216 + c * 65536 + c * 256 + c

pub memset : (dst c n : ℕ) → Mem → Mem
unfolding stosb stosl
memset dst c n m =
    if dst % 4 == 0 && n % 4 == 0
    then stosl (n / 4) dst (four_times (c % 256)) m
    else stosb n dst c m

pub memcmp : (n v1 v2 : ℕ) → Mem → ℤ
memcmp zero s1 s2 m = pos 0
memcmp (suc n) s1 s2 m =
    let rest = memcmp n (s1 + 1) (s2 + 1) m in
    if not (m s1 == m s2) then char_diff (m s1) (m s2) else rest

-- `while(n-- > 0) *d++ = *s++`
pub copy_up : (n d s : ℕ) → Mem → Mem
copy_up zero d s m = m
copy_up (suc n) d s m = copy_up n (d + 1) (s + 1) (update m d (m s))

-- `while(n-- > 0) *--d = *--s` from the ends of the ranges at `d` and `s`: with `n + 1` bytes left, the
-- pointers step down to `d + n` and `s + n`.
pub copy_down : (n d s : ℕ) → Mem → Mem
copy_down zero d s m = m
copy_down (suc n) d s m = copy_down n d s (update m (d + n) (m (s + n)))

pub memmove : (dst src n : ℕ) → Mem → Mem
memmove d s n m = if ltb s d && ltb d (s + n) then copy_down n d s m else copy_up n d s m

pub memcpy : (dst src n : ℕ) → Mem → Mem
unfolding memmove
memcpy dst src n = memmove dst src n

pub strncmp : (n p q : ℕ) → Mem → ℤ
strncmp zero p q m = pos 0
strncmp (suc n) p q m =
    let rest = strncmp n (p + 1) (q + 1) m in
    if not (m p == 0) && m p == m q then rest else char_diff (m p) (m q)

-- The second loop of strncpy.
pub pad : (n s : ℕ) → Mem → Mem
pad zero s m = m
pad (suc n) s m = pad n (s + 1) (update m s 0)

-- strncpy for `n` not negative; a negative one is as 0.
pub strncpy : (n s t : ℕ) → Mem → Mem
unfolding pad
strncpy zero s t m = m
strncpy (suc n) s t m =
    let m' = update m s (m t) in
    let rest = strncpy n (s + 1) (t + 1) m' in if m t == 0 then pad n (s + 1) m' else rest

-- The loop of safestrcpy with `--n` rounds left, and the final `*s = 0`.
pub safestrcpy_from : (n s t : ℕ) → Mem → Mem
safestrcpy_from zero s t m = update m s 0
safestrcpy_from (suc n) s t m =
    let m' = update m s (m t) in
    let rest = safestrcpy_from n (s + 1) (t + 1) m' in
    if m t == 0 then update m' (s + 1) 0 else rest

-- safestrcpy for `n` not negative; a negative one is as 0.
pub safestrcpy : (n s t : ℕ) → Mem → Mem
unfolding safestrcpy_from
safestrcpy zero s t m = m
safestrcpy (suc n) s t m = safestrcpy_from n s t m

-- strlen from index `n` on; `none` if there is no NUL within `fuel` bytes.
pub strlen_from : (fuel n s : ℕ) → Mem → Option ℕ
strlen_from zero n s m = none
strlen_from (suc f) n s m =
    let rest = strlen_from f (n + 1) s m in if m (s + n) == 0 then some n else rest

pub strlen : (fuel s : ℕ) → Mem → Option ℕ
unfolding strlen_from
strlen fuel s m = strlen_from fuel 0 s m
