-- ===== src/Clock/Tests.antt =====
-- The theorem on sys_sleep at a concrete input.
use operating_systems_projec.Prelude.{◌≡◌, ◌==◌, refl, false, some, ltb, if◌then◌else◌, arith}
use operating_systems_projec.Prelude.Kernel.{ok, asleep, unlocked}
use operating_systems_projec.Syscall.{Caller, fetchint, argint}
use operating_systems_projec.Clock.{Clock}
use operating_systems_projec.Clock.Sleeping.{later, after_ticks, sys_sleep_lem}

-- A caller with the argument 3 on its stack, and a clock that is about to wrap.
abbrev sleepy : Caller
sleepy = record { sz = 4096; esp = 0; mem = λ a. if a == 4 then 3 else 0 }

abbrev late : Clock
late = record { ticks = 0xfffffffe; wakeups = 0 }

argint-sleepy : argint sleepy 0 ≡ some 3
unfolding argint fetchint
argint-sleepy = refl

sys_sleep_lem_example : after_ticks false sleepy 5 late ≡ (
    if ltb 5 3
    then asleep (record { ticks0 = late.ticks; n = 3 }) (unlocked (later 5 late))
    else ok (some 0) (unlocked (later 3 late)))
sys_sleep_lem_example = sys_sleep_lem sleepy 3 5 late argint-sleepy (omega arith) (omega arith)
