-- ===== src/Spinlock/Nesting.antt =====
-- pushcli and popcli match up, and acquire and release with them.
use operating_systems_projec.Prelude.{
  ℕ, zero, suc, ◌+◌, ◌<◌, ◌≡◌, ◌≢◌, refl, ◌⊎◌, inr, true, false, ◌&&◌, none, some, ◌==◌, update,
  if◌then◌else◌, arith,
}
use operating_systems_projec.Prelude.Kernel.{ok, panic, ◌>>◌, pure}
use operating_systems_projec.Spinlock.{
  Cpu, Here, LockK, pushcli, popcli, holding, acquire, release, getcallerpcs, same_cpu,
}

pub nested : ℕ → LockK (Unit {0}) → LockK (Unit {0})
nested zero body = body
nested (suc n) body = do pushcli; nested n body; popcli

-- With cli calls outstanding, any depth of matched pushcli and popcli changes nothing.
nested_inner :
    (n : ℕ) (s : Here) → 0 < s.my.ncli → s.my.interrupts ≡ false → nested n (pure tt) s ≡ ok tt s
unfolding nested pushcli popcli
nested_inner zero s p q = refl
nested_inner (suc n) s p q = ground (
  arith,
  nested_inner n
      (record s {
        my = record {
          interrupts = false;
          ncli = s.my.ncli + 1;
          intena = if s.my.ncli == 0 then s.my.interrupts else s.my.intena;
        };
      })
      (omega arith) refl,
)

-- Matched calls of pushcli and popcli, `n + 1` deep, starting with none outstanding, do not panic and
-- bring the interrupt flag and the depth back to what they were.
pub nested_lem :
    (n : ℕ) (s : Here)
    → s.my.ncli ≡ 0
    → (c : Cpu) × (nested (suc n) (pure tt) s ≡ ok tt (record s { my = c }))
      × (c.ncli ≡ 0)
      × (c.interrupts ≡ s.my.interrupts)
unfolding nested pushcli popcli
nested_lem n s p = (
  record s.my { intena = s.my.interrupts },
  ground (
    arith,
    nested_inner n
        (record s {
          my = record {
            interrupts = false;
            ncli = s.my.ncli + 1;
            intena = if s.my.ncli == 0 then s.my.interrupts else s.my.intena;
          };
        })
        (omega arith) refl,
  ),
  p,
  refl,
)

-- The interrupts of a CPU are off while cli calls are outstanding.
abbrev pub IsCpu : Cpu → Type 0
IsCpu c = (c.ncli ≡ 0) ⊎ (c.interrupts ≡ false)

-- The CPU behind a pushcli that finds it at `c`, and behind the matched popcli.
abbrev off : Cpu → Cpu
off c = record {
  interrupts = false;
  ncli = c.ncli + 1;
  intena = if c.ncli == 0 then c.interrupts else c.intena;
}

abbrev back : Cpu → Cpu
back c = record c { intena = if c.ncli == 0 then c.interrupts else c.intena }

holding_lem :
    (me : ℕ) (s : Here)
    → IsCpu s.my
    → holding me s ≡ ok (s.lk.locked && same_cpu s.lk.cpu me) (record s { my = back s.my })
unfolding holding pushcli popcli
holding_lem me s c = ground arith

-- On a consistent CPU that does not hold the lock: acquire does not panic, interrupts are off behind
-- it and the CPU holds the lock; a second acquire panics; release then frees the lock and brings the
-- interrupt flag and the depth back.
pub acquire-release :
    (me : ℕ) (mem : ℕ → ℕ) (v : ℕ) (s : Here)
    → IsCpu s.my
    → s.lk.locked ≡ false
    → (t : Here) × (u : Here) × (acquire me mem v s ≡ ok tt t)
      × ((t.my.interrupts ≡ false) × (holding me t ≡ ok true t))
      × (acquire me mem v t ≡ panic)
      × (release me t ≡ ok tt u)
      × ((u.lk.locked ≡ false) × (u.my.ncli ≡ s.my.ncli) × (u.my.interrupts ≡ s.my.interrupts))
unfolding acquire release pushcli popcli
acquire-release me mem v s c f =
    let pcs = getcallerpcs mem v s.lk.pcs in
    let t : Here = record {
      my = off s.my;
      lk = record { locked = true; cpu = some me; pcs = pcs };
    } in
    let held = holding_lem me t (inr refl) in
    (
      t,
      record { my = back s.my; lk = record { locked = false; cpu = none; pcs = update pcs 0 0 } },
      ground (arith, holding_lem me (record s { my = off s.my }) (inr refl)),
      (refl, ground (arith, held)),
      ground (arith, holding_lem me (record t { my = off t.my }) (inr refl)),
      ground (arith, held),
      (refl, refl, refl),
    )

-- A CPU that does not hold the lock cannot release it.
pub release_panics :
    (me : ℕ) (s : Here)
    → IsCpu s.my
    → (s.lk.locked ≡ false) ⊎ (s.lk.cpu ≢ some me)
    → release me s ≡ panic
unfolding release
release_panics me s c h = ground (arith, holding_lem me s c)
