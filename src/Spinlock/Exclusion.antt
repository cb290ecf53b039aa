-- ===== src/Spinlock/Exclusion.antt =====
-- CPUs that acquire and release one lock again and again, a shared access at a time, in any order. The
-- array `pcs` of the lock is left out: acquire and release write it and never read it.
use operating_systems_projec.Prelude.{
  ℕ, ◌≡◌, ◌↔◌, refl, Bool, true, false, ◌&&◌, Option, none, some, List, [], ◌∷◌, ◌==◌,
  if◌then◌else◌, update, arith, Bool-cases, inl, inr,
}

-- Where a CPU stands: outside; in acquire, between the two loads of its `holding`, in the xchg loop, and
-- between its xchg and `lk->cpu = mycpu()`; in the critical section; in release, between the two loads
-- of its `holding`, before `lk->cpu = 0`, and before the store that unlocks.
pub data Pc : Type 0 where
  outside checking spinning entered inside confirming clearing leaving : Pc

pub record System : Type 0 where
  pub locked : Bool
  pub cpu : Option ℕ
  pub pc : ℕ → Pc

abbrev pub owns : Option ℕ → ℕ → Bool
owns none i = false
owns (some c) i = c == i

-- What `holding` returns on CPU `i`, if nothing comes between its loads.
abbrev pub holds : System → ℕ → Bool
holds s i = s.locked && owns s.cpu i

abbrev goes : System → ℕ → Pc → System
goes s i p = record s { pc = update s.pc i p }

-- CPU `i` makes its next access; `none` is a panic of acquire or of release. The second load of `holding`
-- is made only where the first one found the lock taken.
pub act : Pc → ℕ → System → Option System
act outside i s = some (goes s i (if s.locked then checking else spinning))
act checking i s = if owns s.cpu i then none else some (goes s i spinning)
act spinning i s = if s.locked then some s else some (record (goes s i entered) { locked = true })
act entered i s = some (record (goes s i inside) { cpu = some i })
act inside i s = if s.locked then some (goes s i confirming) else none
act confirming i s = if owns s.cpu i then some (goes s i clearing) else none
act clearing i s = some (record (goes s i leaving) { cpu = none })
act leaving i s = some (record (goes s i outside) { locked = false })

unfoldable pub step : ℕ → System → Option System
step i s = act (s.pc i) i s

unfoldable pub run : List ℕ → System → Option System
run [] s = some s
run (i ∷ is) s = elim (step i s) [ none ↦ none | some t ↦ run is t ]

unfoldable pub start : System
start = record { locked = false; cpu = none; pc = λ _. outside }

-- Behind a successful xchg, and before the store that unlocks.
abbrev pub busy : Pc → Bool
busy outside = false
busy checking = false
busy spinning = false
busy _ = true

-- Behind `lk->cpu = mycpu()`, and before `lk->cpu = 0`.
abbrev pub named : Pc → Bool
named inside = true
named confirming = true
named clearing = true
named _ = false

record Inv (s : System) : Type 0 where
  one : (i j : ℕ) → busy (s.pc i) ≡ true → busy (s.pc j) ≡ true → i ≡ j
  held : (i : ℕ) → busy (s.pc i) ≡ true → s.locked ≡ true
  owned : (i : ℕ) → named (s.pc i) ≡ true → s.cpu ≡ some i
  owner : (i : ℕ) → s.cpu ≡ some i → named (s.pc i) ≡ true

abbrev Good : Option System → Type 0
Good none = ⊥
Good (some t) = Inv t

owns-true : (o : Option ℕ) (i : ℕ) → owns o i ≡ true → o ≡ some i
owns-true none i h = cc
owns-true (some c) i h = ground arith

holds-true : (s : System) (i : ℕ) → holds s i ≡ true → s.cpu ≡ some i
holds-true s i h = ground (arith, owns-true s.cpu i)

owns_self : (o : Option ℕ) (i : ℕ) → o ≡ some i → owns o i ≡ true
owns_self o i e = rw e (ground arith)

named-busy : (p : Pc) → named p ≡ true → busy p ≡ true
named-busy inside e = refl
named-busy confirming e = refl
named-busy clearing e = refl
named-busy outside e = cc
named-busy checking e = cc
named-busy spinning e = cc
named-busy entered e = cc
named-busy leaving e = cc

holds_self : (s : System) (i : ℕ) → s.locked ≡ true → s.cpu ≡ some i → holds s i ≡ true
holds_self s i p q = ground arith

-- A CPU that goes on without a store stays as busy and as named as it was.
goes-Inv :
    (s : System) (i : ℕ) (p : Pc)
    → busy p ≡ busy (s.pc i)
    → named p ≡ named (s.pc i)
    → Inv s
    → Inv (goes s i p)
goes-Inv s i p e f v = record {
  one = λ a b. ground (arith, e, v.one a b);
  held = λ a. ground (arith, e, v.held a);
  owned = λ a. ground (arith, f, v.owned a);
  owner = λ a. ground (arith, f, v.owner a);
}

Good-if : (b : Bool) (t : System) → b ≡ true → Inv t → Good (if b then some t else none)
Good-if b t e v = rw e v

first_load :
    (i : ℕ) (s : System)
    → s.pc i ≡ outside
    → Inv s
    → (b : Bool) → Inv (goes s i (if b then checking else spinning))
first_load i s e v true = goes-Inv s i checking (rw e refl) (rw e refl) v
first_load i s e v false = goes-Inv s i spinning (rw e refl) (rw e refl) v

-- No step of a CPU panics, and each keeps the invariant.
act-Inv : (p : Pc) (i : ℕ) (s : System) → s.pc i ≡ p → Inv s → Good (act p i s)
unfolding act
act-Inv outside i s e v = first_load i s e v s.locked
act-Inv checking i s e v = elim (Bool-cases (owns s.cpu i)) [
  | inl h ↦ absurd (ground (arith, v.owner i (owns-true s.cpu i h)))
  | inr h ↦ rw h (goes-Inv s i spinning (rw e refl) (rw e refl) v)
]
act-Inv spinning i s e v = elim (Bool-cases s.locked) [
  | inl h ↦ simp h v
  | inr h ↦ simp h (record {
    one = λ a b. ground (arith, v.one a b, v.held a, v.held b);
    held = λ a. ground (arith, v.held a);
    owned = λ a. ground (arith, v.owned a);
    owner = λ a. ground (arith, v.owner a);
  })
]
act-Inv entered i s e v = record {
  one = λ a b. ground (arith, v.one a b);
  held = λ a. ground (arith, v.held a);
  owned = λ a. ground (arith, v.owned a, v.one i a, named-busy (s.pc a));
  owner = λ a. ground (arith, v.owner a);
}
act-Inv inside i s e v =
    Good-if s.locked (goes s i confirming) (v.held i (rw e refl))
      (goes-Inv s i confirming (rw e refl) (rw e refl) v)
act-Inv confirming i s e v =
    rw (owns_self s.cpu i (v.owned i (rw e refl))) (goes-Inv s i clearing (rw e refl) (rw e refl) v)
act-Inv clearing i s e v = record {
  one = λ a b. ground (arith, v.one a b);
  held = λ a. ground (arith, v.held a);
  owned = λ a. ground (arith, v.one i a, named-busy (s.pc a));
  owner = λ a. ground arith;
}
act-Inv leaving i s e v = record {
  one = λ a b. ground (arith, v.one a b);
  held = λ a. ground (arith, v.held a, v.one i a);
  owned = λ a. ground (arith, v.owned a);
  owner = λ a. ground (arith, v.owner a);
}

start-Inv : Inv start
unfolding start
start-Inv = record { one = λ i j p q. cc; held = λ i p. cc; owned = λ i p. cc; owner = λ i p. cc }

run-Inv : (is : List ℕ) (s : System) → Inv s → Good (run is s)
unfolding run step
run-Inv [] s v = v
run-Inv (i ∷ is) s v = go (act (s.pc i) i s) (act-Inv (s.pc i) i s refl v) (run-Inv is)
  where
    go :
        (o : Option System)
        → Good o
        → ((t : System) → Inv t → Good (run is t))
        → Good (elim o [ none ↦ none | some t ↦ run is t ])
    go none h rest = absurd h
    go (some t) h rest = rest t h

Good-some : (o : Option System) → Good o → (t : System) × (o ≡ some t) × Inv t
Good-some none h = absurd h
Good-some (some t) h = (t, refl, h)

-- However the shared accesses of CPUs that acquire and release a lock are interleaved, neither acquire nor
-- release panics, and at any time at most one CPU is between its successful xchg and the store that
-- unlocks; such a CPU finds the lock taken, and a CPU finds the lock taken and its own name in it, as
-- `holding` asks, exactly between its stores `lk->cpu = mycpu()` and `lk->cpu = 0`.
pub mutual_exclusion :
    (schedule : List ℕ)
    → (s : System) × (run schedule start ≡ some s)
      × ((i j : ℕ) → busy (s.pc i) ≡ true → busy (s.pc j) ≡ true → i ≡ j)
      × ((i : ℕ) → busy (s.pc i) ≡ true → s.locked ≡ true)
      × ((i : ℕ) → (holds s i ≡ true) ↔ (named (s.pc i) ≡ true))
mutual_exclusion schedule =
    let (s, e, v) = Good-some (run schedule start) (run-Inv schedule start start-Inv) in
    (
      s,
      e,
      v.one,
      v.held,
      λ i. (
        (λ h. v.owner i (holds-true s i h)),
        (λ h. holds_self s i (v.held i (named-busy (s.pc i) h)) (v.owned i h)),
      ),
    )
