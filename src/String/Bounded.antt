-- ===== src/String/Bounded.antt =====
-- strncpy and safestrcpy of string.c.
use operating_systems_projec.Prelude.{
  ℕ, zero, suc, ◌+◌, ◌≤◌, ◌≡◌, refl, ◌⊎◌, Bool, true, false, ◌==◌, if◌then◌else◌, update, arith,
}
use operating_systems_projec.String.{Mem, pad, strncpy, safestrcpy_from, safestrcpy}
use operating_systems_projec.String.Compare.{chars}
use operating_systems_projec.String.Copy.{within}

chars-ext :
    (n p : ℕ) (m m' : Mem)
    → ((a : ℕ) → within p n a ≡ true → m a ≡ m' a)
    → chars n p m ≡ chars n p m'
chars-ext zero p m m' h = refl
chars-ext (suc n) p m m' h =
    ground (arith, h p, chars-ext n (p + 1) m m' (λ a w. ground (arith, h a)))

-- Two ranges of `n` bytes that share no byte.
abbrev pub Apart : (n s t : ℕ) → Type 0
Apart n s t = (s + n ≤ t) ⊎ (t + n ≤ s)

safe_outside :
    (n s t : ℕ) (m : Mem) (a : ℕ) → within s (suc n) a ≡ false → safestrcpy_from n s t m a ≡ m a
unfolding safestrcpy_from
safe_outside zero s t m a h = ground arith
safe_outside (suc n) s t m a h = ground (arith, safe_outside n (s + 1) (t + 1) (update m s (m t)) a)

safe_end : (n s t : ℕ) (m : Mem) → (k : ℕ) × (k ≤ n) × (safestrcpy_from n s t m (s + k) ≡ 0)
unfolding safestrcpy_from
safe_end zero s t m = (0, omega arith, ground arith)
safe_end (suc n) s t m = branch (m t == 0) (safe_end n (s + 1) (t + 1) (update m s (m t)))
  where
    branch :
        (b : Bool)
        → (k : ℕ) × (k ≤ n) × (safestrcpy_from n (s + 1) (t + 1) (update m s (m t)) (s + 1 + k) ≡ 0)
        → (k : ℕ) × (k ≤ suc n)
          × ((if b
                  then update (update m s (m t)) (s + 1) 0
                  else safestrcpy_from n (s + 1) (t + 1) (update m s (m t)))
                (s + k)
              ≡ 0)
    branch true e = (1, omega arith, ground arith)
    branch false (k, p, e) = (suc k, omega arith, ground (arith, e))

safe-chars :
    (n s t : ℕ) (m : Mem)
    → Apart (suc n) s t
    → chars (suc n) s (safestrcpy_from n s t m) ≡ chars n t m
unfolding safestrcpy_from
safe-chars zero s t m h = ground arith
safe-chars (suc n) s t m h =
    let m' : Mem = update m s (m t) in
    ground (
      arith,
      safe-chars n (s + 1) (t + 1) m',
      safe_outside n (s + 1) (t + 1) m' s,
      chars-ext n (t + 1) m' m (λ a w. ground arith),
    )

pad_lem : (n s : ℕ) (m : Mem) (a : ℕ) → pad n s m a ≡ (if within s n a then 0 else m a)
unfolding pad
pad_lem zero s m a = ground arith
pad_lem (suc n) s m a = ground (arith, pad_lem n (s + 1) (update m s 0) a)

strncpy_outside : (n s t : ℕ) (m : Mem) (a : ℕ) → within s n a ≡ false → strncpy n s t m a ≡ m a
unfolding strncpy
strncpy_outside zero s t m a h = refl
strncpy_outside (suc n) s t m a h =
    let m' : Mem = update m s (m t) in
    ground (arith, strncpy_outside n (s + 1) (t + 1) m' a, pad_lem n (s + 1) m' a)

strncpy-chars : (n s t : ℕ) (m : Mem) → Apart n s t → chars n s (strncpy n s t m) ≡ chars n t m
unfolding strncpy
strncpy-chars zero s t m h = refl
strncpy-chars (suc n) s t m h =
    let m' : Mem = update m s (m t) in
    ground (
      arith,
      strncpy-chars n (s + 1) (t + 1) m',
      strncpy_outside n (s + 1) (t + 1) m' s,
      pad_lem n (s + 1) m' s,
      chars-ext n (t + 1) m' m (λ a w. ground arith),
    )

-- safestrcpy to a buffer of `n + 1` bytes that does not overlap the source: the buffer then holds a
-- terminated string, the first `n` characters of the source, and nothing outside it has changed.
safestrcpy_lem :
    (n s t : ℕ) (m : Mem)
    → Apart (suc n) s t
    → (chars (suc n) s (safestrcpy (suc n) s t m) ≡ chars n t m)
      × ((k : ℕ) × (k ≤ n) × (safestrcpy (suc n) s t m (s + k) ≡ 0))
      × ((a : ℕ) → within s (suc n) a ≡ false → safestrcpy (suc n) s t m a ≡ m a)
unfolding safestrcpy
safestrcpy_lem n s t m h = (safe-chars n s t m h, safe_end n s t m, λ a w. safe_outside n s t m a w)

-- strncpy to a buffer of `n` bytes that does not overlap the source: the buffer then holds the first
-- `n` characters of the source, and nothing outside it has changed.
strncpy_lem :
    (n s t : ℕ) (m : Mem)
    → Apart n s t
    → (chars n s (strncpy n s t m) ≡ chars n t m)
      × ((a : ℕ) → within s n a ≡ false → strncpy n s t m a ≡ m a)
strncpy_lem n s t m h = (strncpy-chars n s t m h, λ a w. strncpy_outside n s t m a w)
