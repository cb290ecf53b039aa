-- ===== src/Clock.antt =====
-- The clock ticks: sys_sleep and sys_uptime of Project 1/xv6-public/sysproc.c, and the timer's case in
-- trap of Project 1/xv6-public/trap.c. `ticks` is a `uint`, and an `int` argument its 32-bit pattern.
mod Tests
pub mod Sleeping
use operating_systems_projec.Prelude.{
  ℕ, suc, ◌+◌, ◌-◌, ◌%◌, ◌^◌, Bool, Option, none, some, ◌==◌, ltb, if◌then◌else◌,
}
use operating_systems_projec.Prelude.Kernel.{
  Kernel, Locked, acquire, release, look, change, sleep, pure, ◌>>=◌, ◌>>◌,
}
use operating_systems_projec.Syscall.{Caller, argint}

-- `ticks`, and the number of the calls of `wakeup(&ticks)`.
pub record Clock : Type 0 where
  pub ticks : ℕ
  pub wakeups : ℕ

-- The locals of a sys_sleep that sleeps.
pub record Sleeper : Type 0 where
  pub ticks0 : ℕ
  pub n : ℕ

abbrev pub ClockK : Type 0 → Type 0
ClockK A = Kernel Sleeper (Locked Clock) A

abbrev pub uint_mod : ℕ
uint_mod = 2 ^ 32

-- The loop of sys_sleep, where one that slept goes on: the value that it returns, or `none` for -1. The
-- comparison is one of `uint`s.
unfoldable pub sleep_loop : (killed : Bool) → (ticks0 n : ℕ) → ClockK (Option ℕ)
sleep_loop killed ticks0 n = do
  k ← look
  if ltb ((k.ticks + uint_mod - ticks0) % uint_mod) n
      then (if killed then (do release; pure none) else sleep (record { ticks0 = ticks0; n = n }))
      else (do release; pure (some 0))

-- Behind the argint of sys_sleep.
unfoldable pub sleep_ticks : (killed : Bool) → (n : ℕ) → ClockK (Option ℕ)
unfolding sleep_loop
sleep_ticks killed n = do acquire; k ← look; sleep_loop killed k.ticks n

abbrev pub sleep_for : (killed : Bool) → Option ℕ → ClockK (Option ℕ)
sleep_for killed none = pure none
sleep_for killed (some n) = sleep_ticks killed n

unfoldable pub sys_sleep : Caller → (killed : Bool) → ClockK (Option ℕ)
sys_sleep c killed = sleep_for killed (argint c 0)

unfoldable pub sys_uptime : ClockK ℕ
sys_uptime = do acquire; k ← look; release; pure k.ticks

-- The timer interrupt on a CPU.
unfoldable pub timer : (cpu : ℕ) → ClockK (Unit {0})
timer cpu =
    if cpu == 0
    then (do
      acquire
      change (λ k. record k { ticks = (k.ticks + 1) % uint_mod })
      change (λ k. record k { wakeups = suc k.wakeups })
      release)
    else pure tt
