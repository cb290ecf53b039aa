-- ===== src/Spinlock/Tests.antt =====
-- Instances of the theorems on spin locks.
use operating_systems_projec.Prelude.{ℕ, ◌≡◌, ◌↔◌, refl, inl, true, false, none, some, [], ◌∷◌}
use operating_systems_projec.Prelude.Kernel.{ok, panic, pure}
use operating_systems_projec.Spinlock.{Cpu, Here, acquire, release, holding}
use operating_systems_projec.Spinlock.Nesting.{nested, nested_lem, acquire-release}
use operating_systems_projec.Spinlock.Exclusion.{
  System, busy, named, holds, run, start, mutual_exclusion,
}

-- A CPU with interrupts on, and a free lock.
abbrev calm : Here
calm = record {
  my = record { interrupts = true; ncli = 0; intena = false };
  lk = record { locked = false; cpu = none; pcs = λ i. 0 };
}

nested_lem_example :
    (c : Cpu) × (nested 3 (pure tt) calm ≡ ok tt (record calm { my = c }))
    × (c.ncli ≡ 0)
    × (c.interrupts ≡ true)
nested_lem_example = nested_lem 2 calm refl

acquire-release_example :
    (t : Here) × (u : Here) × (acquire 0 (λ a. 0) 64 calm ≡ ok tt t)
    × ((t.my.interrupts ≡ false) × (holding 0 t ≡ ok true t))
    × (acquire 0 (λ a. 0) 64 t ≡ panic)
    × (release 0 t ≡ ok tt u)
    × ((u.lk.locked ≡ false) × (u.my.ncli ≡ 0) × (u.my.interrupts ≡ true))
acquire-release_example = acquire-release 0 (λ a. 0) 64 calm (inl refl) refl

-- CPUs 0 and 1 contend.
mutual_exclusion_example :
    (s : System) × (run (0 ∷ 1 ∷ 0 ∷ 1 ∷ 0 ∷ 1 ∷ 0 ∷ 0 ∷ 1 ∷ 0 ∷ 0 ∷ 1 ∷ []) start ≡ some s)
    × ((i j : ℕ) → busy (s.pc i) ≡ true → busy (s.pc j) ≡ true → i ≡ j)
    × ((i : ℕ) → busy (s.pc i) ≡ true → s.locked ≡ true)
    × ((i : ℕ) → (holds s i ≡ true) ↔ (named (s.pc i) ≡ true))
mutual_exclusion_example = mutual_exclusion (0 ∷ 1 ∷ 0 ∷ 1 ∷ 0 ∷ 1 ∷ 0 ∷ 0 ∷ 1 ∷ 0 ∷ 0 ∷ 1 ∷ [])
