-- ===== src/Prelude/Kernel.antt =====
-- Kernel code as a state monad. A run returns a value and the new state, calls `panic`, or calls
-- `sleep`: then it leaves a state to the other processes, and `R` says where it will go on.
use mathlib.Core.Bool.{Bool, true, false}

pub data Outcome (R S A : Type 0) : Type 0 where
  ok : A → S → Outcome R S A
  asleep : R → S → Outcome R S A
  panic : Outcome R S A

abbrev pub Kernel : Type 0 → Type 0 → Type 0 → Type 0
Kernel R S A = S → Outcome R S A

abbrev pub pure : {R S A : Type 0} → A → Kernel R S A
pure a s = ok a s

infixl 5 ◌>>=◌ ◌>>◌
abbrev pub ◌>>=◌ : {R S A B : Type 0} → Kernel R S A → (A → Kernel R S B) → Kernel R S B
◌>>=◌ m f s = elim (m s) [ ok a s' ↦ f a s' | asleep r s' ↦ asleep r s' | panic ↦ panic ]

abbrev pub ◌>>◌ : {R S B : Type 0} → Kernel R S (Unit {0}) → Kernel R S B → Kernel R S B
m >> k = m >>= λ _. k

-- `if(b) panic(...)`
abbrev pub panic_if : {R S : Type 0} → Bool → Kernel R S (Unit {0})
panic_if true s = panic
panic_if false s = ok tt s

-- Data behind a spin lock: `held` says that the running CPU holds the lock. The wait for another
-- CPU that holds it is the business of Spinlock; here the lock is free once the wait is over.
pub record Locked (S : Type 0) : Type 0 where
  pub held : Bool
  pub guarded : S

abbrev pub acquire : {R S : Type 0} → Kernel R (Locked S) (Unit {0})
acquire s = elim s.held [ true ↦ panic | false ↦ ok tt (record s { held = true }) ]

abbrev pub release : {R S : Type 0} → Kernel R (Locked S) (Unit {0})
release s = elim s.held [ true ↦ ok tt (record s { held = false }) | false ↦ panic ]

-- The guarded data, and a change of it.
abbrev pub look : {R S : Type 0} → Kernel R (Locked S) S
look s = ok s.guarded s

abbrev pub change : {R S : Type 0} → (S → S) → Kernel R (Locked S) (Unit {0})
change f s = ok tt (record s { guarded = f s.guarded })

-- `sleep(chan, &lock)`: the lock is given up, and the run stops at the point `r`.
abbrev pub sleep : {R S A : Type 0} → R → Kernel R (Locked S) A
sleep r s = asleep r (record s { held = false })

-- Data whose lock is free, and data whose lock is held.
abbrev pub unlocked : {S : Type 0} → S → Locked S
unlocked s = record { held = false; guarded = s }

abbrev pub locked : {S : Type 0} → S → Locked S
locked s = record { held = true; guarded = s }
