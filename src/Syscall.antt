-- ===== src/Syscall.antt =====
-- How Project 1/xv6-public/syscall.c fetches the arguments of a system call from user memory. The
-- address space of the caller is its bytes below `sz`; a result -1 is `none`.
mod Tests
pub mod Args
use operating_systems_projec.Prelude.{
  ℕ, zero, suc, ◌+◌, ◌-◌, ◌*◌, ◌%◌, ◌^◌, ◌||◌, Option, none, some, ◌==◌, ltb, leb, if◌then◌else◌,
}
use operating_systems_projec.Prelude.Int.{ℤ, pos, negsuc}

-- What `myproc()` says of the caller: its size, its saved stack pointer, and its memory.
pub record Caller : Type 0 where
  pub sz : ℕ
  pub esp : ℕ
  pub mem : ℕ → ℕ

-- `*(int*)addr`, as the 32-bit pattern.
abbrev pub read_int : (ℕ → ℕ) → ℕ → ℕ
read_int mem a = mem a + mem (a + 1) * 256 + mem (a + 2) * 65536 + mem (a + 3) * 16777216

unfoldable pub fetchint : Caller → ℕ → Option ℕ
fetchint c addr =
    if leb c.sz addr || ltb c.sz ((addr + 4) % 2 ^ 32) then none else some (read_int c.mem addr)

-- The loop of fetchstr from `*pp + n` on, with the bytes below `ep` left: the index of the NUL.
pub find_nul : (rounds n addr : ℕ) → (ℕ → ℕ) → Option ℕ
find_nul zero n addr mem = none
find_nul (suc r) n addr mem =
    let rest = find_nul r (n + 1) addr mem in if mem (addr + n) == 0 then some n else rest

-- The length that fetchstr returns; the pointer that it sets is `addr`.
pub fetchstr : Caller → ℕ → Option ℕ
unfolding find_nul
fetchstr c addr = if leb c.sz addr then none else find_nul (c.sz - addr) 0 addr c.mem

unfoldable pub argint : Caller → ℕ → Option ℕ
argint c n = fetchint c ((c.esp + 4 + 4 * n) % 2 ^ 32)

-- The test of argptr on the pointer `i`.
pub check_block : Caller → ℤ → ℕ → Option ℕ
check_block c (negsuc k) i = none
check_block c (pos size) i = if leb c.sz i || ltb c.sz ((i + size) % 2 ^ 32) then none else some i

pub argptr : Caller → ℕ → ℤ → Option ℕ
argptr c n size = elim (argint c n) [ none ↦ none | some i ↦ check_block c size i ]

-- The pointer that argstr sets, and the length that it returns.
abbrev pub with_length : ℕ → Option ℕ → Option (ℕ × ℕ)
with_length a none = none
with_length a (some l) = some (a, l)

pub argstr : Caller → ℕ → Option (ℕ × ℕ)
argstr c n = elim (argint c n) [ none ↦ none | some a ↦ with_length a (fetchstr c a) ]
