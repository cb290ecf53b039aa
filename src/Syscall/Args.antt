-- ===== src/Syscall/Args.antt =====
-- The kernel reads no user pointer beyond the caller's address space. An address space ends below
-- KERNBASE, as allocuvm sees to, so the sums in the tests do not wrap.
use operating_systems_projec.Prelude.{
  kernbase, ℕ, zero, suc, ◌+◌, ◌-◌, ◌^◌, ◌≤◌, ◌<◌, ◌≡◌, ◌≢◌, ◌↔◌, refl, ap, sym, Bool, true, false,
  Option, none, some, ◌==◌, leb, if◌then◌else◌, arith,
}
use mathlib.Core.Path.{subst}
use operating_systems_projec.Prelude.Int.{pos, negsuc}
use operating_systems_projec.Syscall.{
  Caller, read_int, fetchint, find_nul, fetchstr, with_length, argint, check_block, argptr, argstr,
}

fetchint_lem :
    (c : Caller) (a v : ℕ)
    → c.sz ≤ kernbase
    → (fetchint c a ≡ some v) ↔ ((a + 4 ≤ c.sz) × (read_int c.mem a ≡ v))
unfolding fetchint
fetchint_lem c a v h = (λ e. ground arith, λ e. ground arith)

-- argptr of a block of `size` bytes, not negative as an `int`, returns the pointer `p` exactly if the
-- argument is `p` and the block from `p` on lies in the address space, with `p` itself; it fails for
-- every negative size.
pub argptr_lem :
    (c : Caller) (n size p : ℕ)
    → c.sz ≤ kernbase
    → size < 2 ^ 31
    → ((argptr c n (pos size) ≡ some p) ↔ ((argint c n ≡ some p) × (p < c.sz) × (p + size ≤ c.sz)))
      × (argptr c n (negsuc size) ≡ none)
unfolding argptr check_block
argptr_lem c n size p h k = ((λ e. ground arith, λ e. ground arith), ground arith)

-- What the scan from `n` on finds within `r` bytes.
abbrev FindsNul : (r n a : ℕ) → (ℕ → ℕ) → Option ℕ → Type 0
FindsNul r n a mem none = (i : ℕ) → n ≤ i → i < n + r → mem (a + i) ≢ 0
FindsNul r n a mem (some l) =
    (n ≤ l) × (l < n + r) × (mem (a + l) ≡ 0) × ((i : ℕ) → n ≤ i → i < l → mem (a + i) ≢ 0)

find_nul_lem : (r n a : ℕ) (mem : ℕ → ℕ) → FindsNul r n a mem (find_nul r n a mem)
unfolding find_nul
find_nul_lem zero n a mem = λ i p q. ground arith
find_nul_lem (suc r) n a mem =
    branch (mem (a + n) == 0) refl (find_nul r (n + 1) a mem) (find_nul_lem r (n + 1) a mem)
  where
    branch :
        (b : Bool)
        → (mem (a + n) == 0) ≡ b
        → (o : Option ℕ) → FindsNul r (n + 1) a mem o
        → FindsNul (suc r) n a mem (if b then some n else o)
    branch true e o f = (omega arith, omega arith, ground arith, λ i p q. ground arith)
    branch false e none f = λ i p q. ground (arith, f i)
    branch false e (some l) (p, q, z, f) =
        (omega arith, omega arith, z, λ i u w. ground (arith, f i))

-- fetchstr returns a length exactly if the first NUL stands at that distance, within the address
-- space.
fetchstr_lem :
    (c : Caller) (a l : ℕ)
    → (fetchstr c a ≡ some l)
      ↔ ((a + l < c.sz) × (c.mem (a + l) ≡ 0) × ((i : ℕ) → i < l → c.mem (a + i) ≢ 0))
unfolding fetchstr
fetchstr_lem c a l = branch (find_nul (c.sz - a) 0 a c.mem) (find_nul_lem (c.sz - a) 0 a c.mem)
  where
    branch :
        (o : Option ℕ)
        → FindsNul (c.sz - a) 0 a c.mem o
        → ((if leb c.sz a then none else o) ≡ some l)
          ↔ ((a + l < c.sz) × (c.mem (a + l) ≡ 0) × ((i : ℕ) → i < l → c.mem (a + i) ≢ 0))
    branch none f = (λ e. ground arith, λ (p, z, h). ground (arith, f l))
    branch (some k) (p, q, z, f) = (
      λ e. (ground arith, ground arith, λ i u. ground (arith, f i)),
      λ (u, w, h). ground (arith, f l, h k),
    )

-- argstr returns a pointer and a length exactly if the argument is the pointer and the first NUL
-- behind it stands at that distance, within the address space.
pub argstr_lem :
    (c : Caller) (n p l : ℕ)
    → (argstr c n ≡ some (p, l)) ↔ (
        (argint c n ≡ some p)
        × ((p + l < c.sz) × (c.mem (p + l) ≡ 0) × ((i : ℕ) → i < l → c.mem (p + i) ≢ 0)))
unfolding argstr
argstr_lem c n p l = branch (argint c n)
  where
    Here : Type 0
    Here = (p + l < c.sz) × (c.mem (p + l) ≡ 0) × ((i : ℕ) → i < l → c.mem (p + i) ≢ 0)

    inner : (a : ℕ) (s : Option ℕ) → (with_length a s ≡ some (p, l)) ↔ ((a ≡ p) × (s ≡ some l))
    inner a none = (λ e. ground arith, λ (e, h). ground arith)
    inner a (some k) = (λ e. (ground arith, ground arith), λ (e, h). ground arith)

    branch :
        (o : Option ℕ)
        → ((elim o [ none ↦ none | some a ↦ with_length a (fetchstr c a) ]) ≡ some (p, l))
          ↔ ((o ≡ some p) × Here)
    branch none = (λ e. ground arith, λ (e, h). ground arith)
    branch (some a) =
        let (f, g) = inner a (fetchstr c a) in
        let (to, from) = fetchstr_lem c p l in
        (
          λ e. let (x, y) = f e in (ap some x, to (subst (λ b. fetchstr c b ≡ some l) x y)),
          λ (e, h).
              let x : a ≡ p = ground arith in
              g (x, subst (λ b. fetchstr c b ≡ some l) (sym x) (from h)),
        )
