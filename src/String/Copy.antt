-- ===== src/String/Copy.antt =====
-- memset and memmove of string.c.
use operating_systems_projec.Prelude.{
  ℕ, zero, suc, ◌+◌, ◌-◌, ◌*◌, ◌/◌, ◌%◌, ◌≤◌, ◌<◌, ◌≡◌, ◌⊎◌, Bool, ◌&&◌, ltb, leb, if◌then◌else◌,
  update, arith,
}
use operating_systems_projec.String.{
  Mem, stosb, stosl, store_word, four_times, memset, copy_up, copy_down, memmove,
}

-- Address `a` lies in the `n` bytes from `p` on.
abbrev pub within : (p n a : ℕ) → Bool
within p n a = leb p a && ltb a (p + n)

copy_up_lem :
    (n d s : ℕ) (m : Mem) (a : ℕ)
    → (d ≤ s) ⊎ (s + n ≤ d)
    → copy_up n d s m a ≡ (if within d n a then m (s + (a - d)) else m a)
unfolding copy_up
copy_up_lem zero d s m a h = ground arith
copy_up_lem (suc n) d s m a h = ground (arith, copy_up_lem n (d + 1) (s + 1) (update m d (m s)) a)

copy_down_lem :
    (n d s : ℕ) (m : Mem) (a : ℕ)
    → s < d
    → copy_down n d s m a ≡ (if within d n a then m (s + (a - d)) else m a)
unfolding copy_down
copy_down_lem zero d s m a h = ground arith
copy_down_lem (suc n) d s m a h =
    ground (arith, copy_down_lem n d s (update m (d + n) (m (s + n))) a)

-- memmove, whether its ranges overlap or not: byte `i` of the destination becomes what byte `i` of the
-- source was before the call, and no other byte changes.
pub memmove_lem :
    (d s n : ℕ) (m : Mem) (a : ℕ)
    → memmove d s n m a ≡ (if within d n a then m (s + (a - d)) else m a)
unfolding memmove
memmove_lem d s n m a = ground (arith, copy_up_lem n d s m a, copy_down_lem n d s m a)

stosb_lem :
    (n dst c : ℕ) (m : Mem) (a : ℕ) → stosb n dst c m a ≡ (if within dst n a then c % 256 else m a)
unfolding stosb
stosb_lem zero dst c m a = ground arith
stosb_lem (suc n) dst c m a = ground (arith, stosb_lem n (dst + 1) c (update m dst (c % 256)) a)

four_times_lem :
    (c : ℕ)
    → c < 256
    → (four_times c % 256 ≡ c)
      × (four_times c / 256 % 256 ≡ c)
      × (four_times c / 65536 % 256 ≡ c)
      × (four_times c / 16777216 % 256 ≡ c)
four_times_lem c h = (omega arith, omega arith, omega arith, omega arith)

store_word_lem :
    (p c : ℕ) (m : Mem) (a : ℕ)
    → c < 256
    → store_word p (four_times c) m a ≡ (if within p 4 a then c else m a)
store_word_lem p c m a h =
    let (b0, b1, b2, b3) = four_times_lem c h in simp (b0, b1, b2, b3) (ground arith)

stosl_lem :
    (n dst c : ℕ) (m : Mem) (a : ℕ)
    → c < 256
    → stosl n dst (four_times c) m a ≡ (if within dst (n * 4) a then c else m a)
unfolding stosl
stosl_lem zero dst c m a h = ground arith
stosl_lem (suc n) dst c m a h = ground (
  arith,
  stosl_lem n (dst + 4) c (store_word dst (four_times c) m) a h,
  store_word_lem dst c m a h,
)

-- memset, by words or by bytes: the `n` bytes from `dst` on become the low byte of `c`, and no other
-- byte changes.
pub memset_lem :
    (dst c n : ℕ) (m : Mem) (a : ℕ) → memset dst c n m a ≡ (if within dst n a then c % 256 else m a)
unfolding memset
memset_lem dst c n m a =
    ground (arith, stosl_lem (n / 4) dst (c % 256) m a (omega arith), stosb_lem n dst c m a)
