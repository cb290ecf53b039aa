-- ===== src/Syscall/Tests.antt =====
-- Instances of the theorems on arguments: a page-sized process with its first argument, 16, on top of
-- the stack at 100, and "hi" at 16.
use operating_systems_projec.Prelude.{ℕ, ◌+◌, ◌≤◌, ◌<◌, ◌≡◌, ◌≢◌, ◌↔◌, none, some, update, arith}
use operating_systems_projec.Prelude.Int.{pos, negsuc}
use operating_systems_projec.Syscall.{Caller, argint, argptr, argstr}
use operating_systems_projec.Syscall.Args.{argptr_lem, argstr_lem}

abbrev user : Caller
user = record { sz = 4096; esp = 100; mem = update (update (update (λ a. 0) 104 16) 16 104) 17 105 }

argptr_lem_example :
    ((argptr user 0 (pos 2) ≡ some 16)
      ↔ ((argint user 0 ≡ some 16) × (16 < 4096) × (16 + 2 ≤ 4096)))
    × (argptr user 0 (negsuc 2) ≡ none)
argptr_lem_example = argptr_lem user 0 2 16 (omega arith) (omega arith)

argstr_lem_example : (argstr user 0 ≡ some (16, 2)) ↔ (
    (argint user 0 ≡ some 16)
    × ((16 + 2 < 4096) × (user.mem (16 + 2) ≡ 0) × ((i : ℕ) → i < 2 → user.mem (16 + i) ≢ 0)))
argstr_lem_example = argstr_lem user 0 16 2
