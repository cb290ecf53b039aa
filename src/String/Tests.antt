-- ===== src/String/Tests.antt =====
-- Instances of the theorems on strings, in a memory with "hi" at 100.
use operating_systems_projec.Prelude.{◌+◌, ◌-◌, ◌≡◌, if◌then◌else◌, update}
use operating_systems_projec.String.{Mem, memmove}
use operating_systems_projec.String.Copy.{within, memmove_lem}

abbrev hi : Mem
hi = update (update (λ a. 0) 100 104) 101 105

-- An overlapping move.
memmove_lem_example :
    memmove 101 100 2 hi 102 ≡ (if within 101 2 102 then hi (100 + (102 - 101)) else hi 102)
memmove_lem_example = memmove_lem 101 100 2 hi 102
