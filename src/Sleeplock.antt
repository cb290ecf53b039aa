-- ===== src/Sleeplock.antt =====
-- Project 1/xv6-public/sleeplock.c: locks that are held across a sleep. The name of a lock is left out.
mod Tests
use operating_systems_projec.Prelude.{
  ℕ, zero, suc, ◌+◌, ◌≡◌, refl, Bool, true, false, ◌&&◌, ◌==◌, if◌then◌else◌, arith,
}
use operating_systems_projec.Prelude.Kernel.{
  Kernel, Locked, ok, asleep, acquire, release, look, change, sleep, pure, unlocked, ◌>>=◌, ◌>>◌,
}

-- `struct sleeplock`; the spin lock `lk` is the one around it, and `wakeups` counts `wakeup(lk)`.
pub record Sleeplock : Type 0 where
  pub locked : Bool
  pub pid : ℕ
  pub wakeups : ℕ

abbrev pub SleepK : Type 0 → Type 0
SleepK A = Kernel (Unit {0}) (Locked Sleeplock) A

unfoldable pub initsleeplock : Sleeplock → Locked Sleeplock
initsleeplock l = unlocked (record l { locked = false; pid = 0 })

-- acquiresleep by process `me`. One that slept enters here again, since `sleep` takes the spin lock
-- and the loop tests first.
unfoldable pub acquiresleep : ℕ → SleepK (Unit {0})
acquiresleep me = do
  acquire
  l ← look
  if l.locked then sleep tt else (do change (λ l. record l { locked = true; pid = me }); release)

unfoldable pub releasesleep : SleepK (Unit {0})
releasesleep = do
  acquire
  change (λ l. record { locked = false; pid = 0; wakeups = suc l.wakeups })
  release

unfoldable pub holdingsleep : ℕ → SleepK Bool
holdingsleep me = do acquire; l ← look; release; pure (l.locked && l.pid == me)

-- On a sleep lock that is free, acquiresleep takes it: then holdingsleep is true for the process
-- `me` and false for every other process, acquiresleep by any process sleeps and changes nothing, and
-- releasesleep frees the lock again and wakes the sleepers. The spin lock is free behind each call.
pub acquiresleep_lem :
    (me : ℕ) (l : Sleeplock)
    → l.locked ≡ false
    → (t : Sleeplock) × (acquiresleep me (unlocked l) ≡ ok tt (unlocked t))
      × ((you : ℕ) → holdingsleep you (unlocked t) ≡ ok (me == you) (unlocked t))
      × ((you : ℕ) → acquiresleep you (unlocked t) ≡ asleep tt (unlocked t))
      × (releasesleep (unlocked t)
          ≡ ok tt (unlocked (record l { locked = false; pid = 0; wakeups = suc l.wakeups })))
unfolding acquiresleep holdingsleep releasesleep
acquiresleep_lem me l f =
    (record l { locked = true; pid = me }, ground arith, λ you. refl, λ you. refl, refl)
