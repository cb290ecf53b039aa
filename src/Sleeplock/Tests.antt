-- ===== src/Sleeplock/Tests.antt =====
-- Instances of the theorems on sleep locks.
use operating_systems_projec.Prelude.{ℕ, ◌≡◌, refl, false, ◌==◌}
use operating_systems_projec.Prelude.Kernel.{ok, asleep, unlocked}
use operating_systems_projec.Sleeplock.{
  Sleeplock, acquiresleep, holdingsleep, releasesleep, acquiresleep_lem,
}

abbrev free : Sleeplock
free = record { locked = false; pid = 0; wakeups = 3 }

acquiresleep_lem_example :
    (t : Sleeplock) × (acquiresleep 7 (unlocked free) ≡ ok tt (unlocked t))
    × ((you : ℕ) → holdingsleep you (unlocked t) ≡ ok (7 == you) (unlocked t))
    × ((you : ℕ) → acquiresleep you (unlocked t) ≡ asleep tt (unlocked t))
    × (releasesleep (unlocked t)
        ≡ ok tt (unlocked (record { locked = false; pid = 0; wakeups = 4 })))
acquiresleep_lem_example = acquiresleep_lem 7 free refl
