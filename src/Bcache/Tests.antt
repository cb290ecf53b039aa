-- ===== src/Bcache/Tests.antt =====
-- The cache that binit builds, and instances of the theorems on it.
use operating_systems_projec.Prelude.{ℕ, ◌<◌, ◌≡◌, ◌≢◌, refl, ◌⊎◌, true, false, ◌∷◌, arith}
use operating_systems_projec.Prelude.Kernel.{ok, panic, unlocked}
use operating_systems_projec.Bcache.{Buf, Bcache, nbuf, set_buf, binit, bget, brelse, unlink}
use operating_systems_projec.Bcache.Unique.{IsValid, Full, Hands, bget_lem, brelse_lem}
use operating_systems_projec.Bcache.Init.{binit-IsValid}

-- Memory that the kernel finds cleared.
abbrev blank : Buf
blank = record {
  valid = false;
  dirty = false;
  dev = 0;
  blockno = 0;
  refcnt = 0;
  lock = unlocked (record { locked = false; pid = 0; wakeups = 0 });
}

abbrev booted : Bcache
booted = binit (λ i. blank)

binit-IsValid_example : IsValid booted
binit-IsValid_example = binit-IsValid (λ i. blank) (λ i. refl) (λ i. refl)

bget_lem_example :
    ((bget 5 1 2 (unlocked booted) ≡ panic) × Full 1 2 booted)
    ⊎ ((b : ℕ) × (d : Bcache) × (b < nbuf)
        × IsValid d
        × Hands 5 1 2 (bget 5 1 2 (unlocked booted)) booted d b)
bget_lem_example =
    bget_lem 5 1 2 booted (binit-IsValid (λ i. blank) (λ i. refl) (λ i. refl)) (omega arith)

-- The same cache when process 5 has buffer 29.
abbrev taken : Bcache
taken =
    set_buf 29
      (λ x. record x {
        refcnt = 1;
        lock = unlocked (record { locked = true; pid = 5; wakeups = 0 });
      })
      booted

taken-IsValid : IsValid taken
taken-IsValid =
    let v = binit-IsValid (λ i. blank) (λ i. refl) (λ i. refl) in
    record {
      listed = v.listed;
      unique = λ i j. ground (arith, v.unique i j);
      free = λ i. ground (arith, v.free i);
    }

brelse_lem_example :
    (d : Bcache) × (brelse 5 29 (unlocked taken) ≡ ok tt (unlocked d))
    × IsValid d
    × ((j : ℕ) → 29 ≢ j → d.buf j ≡ taken.buf j)
    × (d.buf 29 ≡ record (taken.buf 29) { refcnt = 0; lock = (d.buf 29).lock })
    × ((d.buf 29).lock.guarded.locked ≡ false)
    × (d.order ≡ 29 ∷ unlink 29 taken.order)
brelse_lem_example =
    brelse_lem 5 29 taken taken-IsValid (omega arith) refl refl (omega arith) (omega arith)
