-- ===== src/Spinlock.antt =====
-- Project 1/xv6-public/spinlock.c. A call runs on one CPU, on its interrupt state and the lock.
mod Tests
pub mod Nesting
pub mod Exclusion
use operating_systems_projec.Prelude.{
  kernbase, ℕ, zero, suc, ◌+◌, ◌-◌, ◌<◌, ◌^◌, ◌%◌, Bool, true, false, not, ◌&&◌, ◌||◌, Option, none,
  some, ◌==◌, ltb, if◌then◌else◌, update,
}
use operating_systems_projec.Prelude.Kernel.{Kernel, ok, pure, panic_if, ◌>>=◌, ◌>>◌}

-- The part of `struct cpu` that locks use, and the CPU's FL_IF flag.
pub record Cpu : Type 0 where
  pub interrupts : Bool
  pub ncli : ℕ
  pub intena : Bool

-- `struct spinlock`, without its name; `cpu` is the number of the CPU that holds it.
pub record Spinlock : Type 0 where
  pub locked : Bool
  pub cpu : Option ℕ
  pub pcs : ℕ → ℕ

-- What a call on a CPU sees.
pub record Here : Type 0 where
  pub my : Cpu
  pub lk : Spinlock

-- Nothing sleeps here.
abbrev pub LockK : Type 0 → Type 0
LockK A = Kernel ⊥ Here A

abbrev pub get : LockK Here
get s = ok s s

abbrev pub on_cpu : (Cpu → Cpu) → LockK (Unit {0})
on_cpu f s = ok tt (record s { my = f s.my })

abbrev pub on_lock : (Spinlock → Spinlock) → LockK (Unit {0})
on_lock f s = ok tt (record s { lk = f s.lk })

pub initlock : LockK (Unit {0})
initlock = on_lock (λ l. record l { locked = false; cpu = none })

-- cli, then the count; the flag is saved by the outermost call.
pub pushcli : LockK (Unit {0})
pushcli = on_cpu λ c. record {
  interrupts = false;
  ncli = c.ncli + 1;
  intena = if c.ncli == 0 then c.interrupts else c.intena;
}

pub popcli : LockK (Unit {0})
popcli = do
  s ← get
  panic_if s.my.interrupts
  panic_if (s.my.ncli == 0)
  on_cpu (λ c. record c { ncli = c.ncli - 1; interrupts = (c.ncli - 1 == 0) && c.intena })

abbrev pub same_cpu : Option ℕ → ℕ → Bool
same_cpu none me = false
same_cpu (some c) me = c == me

-- Whether CPU `me` holds the lock.
pub holding : ℕ → LockK Bool
unfolding pushcli popcli
holding me = do pushcli; s ← get; popcli; pure (s.lk.locked && same_cpu s.lk.cpu me)

-- The loop of getcallerpcs over the words of memory, from entry `i` with `rounds` left.
pub getcallerpcs_from : (rounds i : ℕ) → (ℕ → ℕ) → ℕ → (ℕ → ℕ) → ℕ → ℕ
getcallerpcs_from zero i mem ebp pcs = pcs
getcallerpcs_from (suc r) i mem ebp pcs =
    let on = getcallerpcs_from r (i + 1) mem (mem ebp) (update pcs i (mem (ebp + 4))) in
    let off = getcallerpcs_from r (i + 1) mem 0 (update pcs i 0) in
    if ebp == 0 || (ltb ebp kernbase || ebp == 0xffffffff) then off else on

-- `v` is the address of the caller's first argument; `(uint*)v - 2` lies 8 bytes below, modulo 2^32.
pub getcallerpcs : (ℕ → ℕ) → ℕ → (ℕ → ℕ) → ℕ → ℕ
unfolding getcallerpcs_from
getcallerpcs mem v pcs = getcallerpcs_from 10 0 mem ((v + 2 ^ 32 - 8) % 2 ^ 32) pcs

-- acquire by CPU `me`, once its xchg finds the lock free: the wait itself is in Exclusion.
pub acquire : ℕ → (ℕ → ℕ) → ℕ → LockK (Unit {0})
acquire me mem v = do
  pushcli
  mine ← holding me
  panic_if mine
  on_lock (λ l. record { locked = true; cpu = some me; pcs = getcallerpcs mem v l.pcs })

pub release : ℕ → LockK (Unit {0})
release me = do
  mine ← holding me
  panic_if (not mine)
  on_lock (λ l. record { locked = false; cpu = none; pcs = update l.pcs 0 0 })
  popcli
