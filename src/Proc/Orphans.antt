-- ===== src/Proc/Orphans.antt =====
-- The loop of exit over the table: who inherits the children, and who is woken.
use operating_systems_projec.Prelude.{
  ℕ, zero, suc, ◌+◌, ◌≡◌, refl, sym, ap, ◌∙◌, ◌⊎◌, inl, inr, true, false, ◌&&◌, Option, arith,
  ℕ_discrete, Bool-cases, ◌==◌, ltb, leb, if◌then◌else◌,
}
use operating_systems_projec.Proc.Table.{
  Proc, Ptable, nproc, sleeping, zombie, runnable, state_is, is_ptr, same_ptr, set_proc, wakeup1,
  wake_one,
}
use operating_systems_projec.Proc.Loops.{for_each_lem}
use operating_systems_projec.Proc.Lifecycle.{abandon_one, abandon}

wakeup1-entry :
    (chan : Option ℕ) (t : Ptable) (j : ℕ)
    → ((wakeup1 chan t).proc j ≡ wake_one chan (t.proc j)) ⊎ ((wakeup1 chan t).proc j ≡ t.proc j)
unfolding wakeup1
wakeup1-entry chan t j = ground (arith, for_each_lem (wake_one chan) nproc 0 t.proc j)

-- From `p` to `q` nothing but the parent and the state may be another one.
abbrev pub Frame : Proc → Proc → Type 0
Frame p q = q ≡ record p { parent = q.parent; state = q.state }

pub Frame-trans : (p q r : Proc) → Frame p q → Frame q r → Frame p r
Frame-trans p q r e f = f ∙ ap (λ (x : Proc). record x { parent = r.parent; state = r.state }) e

-- wakeup1 changes the state of a process only, and from SLEEPING to RUNNABLE only.
pub record Woken (p q : Proc) : Type 0 where
  pub parent : q.parent ≡ p.parent
  pub state : (q.state ≡ p.state) ⊎ ((p.state ≡ sleeping) × (q.state ≡ runnable))
  pub frame : Frame p q

wake_one-Woken : (chan : Option ℕ) (p : Proc) → Woken p (wake_one chan p)
wake_one-Woken chan p = record {
  parent = ground arith;
  state = ground arith;
  frame = elim (Bool-cases (state_is p.state sleeping && same_ptr p.chan chan)) [
    | inl e ↦ rw e refl
    | inr e ↦ rw e refl
  ];
}

pub wakeup1-Woken :
    (chan : Option ℕ) (t : Ptable) (j : ℕ) → Woken (t.proc j) ((wakeup1 chan t).proc j)
wakeup1-Woken chan t j = elim (wakeup1-entry chan t j) [
  | inl e ↦ rw e (wake_one-Woken chan (t.proc j))
  | inr e ↦ rw e (record { parent = refl; state = inl refl; frame = refl })
]

abbrev pub adopted : ℕ → Ptable → ℕ → Option ℕ
adopted cur t j = if is_ptr (t.proc j).parent cur then t.initproc else (t.proc j).parent

pub initproc-abandon_one : (cur i : ℕ) (t : Ptable) → (abandon_one cur i t).initproc ≡ t.initproc
unfolding abandon_one wakeup1
initproc-abandon_one cur i t = ground arith

abbrev given_away : ℕ → Ptable → Ptable
given_away i t = set_proc i (λ p. record p { parent = t.initproc }) t

parent-given_away :
    (i : ℕ) (t : Ptable) (j : ℕ)
    → ((given_away i t).proc j).parent ≡ (if i == j then t.initproc else (t.proc j).parent)
parent-given_away i t j = elim (ℕ_discrete i j) [ yes e ↦ ground arith | no e ↦ ground arith ]

kept_parent :
    (cur i : ℕ) (t : Ptable) (j : ℕ)
    → is_ptr (t.proc i).parent cur ≡ false
    → (t.proc j).parent ≡ (if i == j then adopted cur t j else (t.proc j).parent)
kept_parent cur i t j e = elim (ℕ_discrete i j) [
  | yes s ↦ rw (← s) (rw e (ground arith))
  | no s ↦ ground arith
]

new_parent :
    (cur i : ℕ) (t : Ptable) (j : ℕ)
    → is_ptr (t.proc i).parent cur ≡ true
    → ((given_away i t).proc j).parent ≡ (if i == j then adopted cur t j else (t.proc j).parent)
new_parent cur i t j e =
    parent-given_away i t j
    ∙ (elim (ℕ_discrete i j) [ yes s ↦ rw (← s) (rw e) | no s ↦ ground arith ])

parent-abandon_one :
    (cur i : ℕ) (t : Ptable) (j : ℕ)
    → ((abandon_one cur i t).proc j).parent
      ≡ (if i == j then adopted cur t j else (t.proc j).parent)
unfolding abandon_one
parent-abandon_one cur i t j = elim (Bool-cases (is_ptr (t.proc i).parent cur)) [
  | inr e ↦ rw e (kept_parent cur i t j e)
  | inl e ↦ elim (Bool-cases (state_is (t.proc i).state zombie)) [
    | inl z ↦
        rw (e, z) ((wakeup1-Woken t.initproc (given_away i t) j).parent ∙ new_parent cur i t j e)
    | inr z ↦ rw (e, z) (new_parent cur i t j e)
  ]
]

-- The loop of exit hands every child of `cur` to init, and no other process.
pub parent-abandon :
    (r i cur : ℕ) (t : Ptable) (j : ℕ)
    → ((abandon r i cur t).proc j).parent
      ≡ (if leb i j && ltb j (i + r) then adopted cur t j else (t.proc j).parent)
unfolding abandon
parent-abandon zero i cur t j = ground arith
parent-abandon (suc r) i cur t j = ground (
  arith,
  parent-abandon r (i + 1) cur (abandon_one cur i t) j,
  parent-abandon_one cur i t j,
  initproc-abandon_one cur i t,
)

-- A process may be woken, and nothing else happens to its state.
abbrev pub Moves : Proc → Proc → Type 0
Moves p q = (q.state ≡ p.state) ⊎ ((p.state ≡ sleeping) × (q.state ≡ runnable))

pub Moves-trans : (p q r : Proc) → Moves p q → Moves q r → Moves p r
Moves-trans p q r (inl a) (inl b) = inl (b ∙ a)
Moves-trans p q r (inl a) (inr b) = inr (sym a ∙ b.0, b.1)
Moves-trans p q r (inr a) (inl b) = inr (a.0, b ∙ a.1)
Moves-trans p q r (inr a) (inr b) = inr (a.0, b.1)

given_away-Moves : (i : ℕ) (t : Ptable) (j : ℕ) → Moves (t.proc j) ((given_away i t).proc j)
given_away-Moves i t j = elim (ℕ_discrete i j) [
  | yes e ↦ inl (ground arith)
  | no e ↦ inl (ground arith)
]

abandon_one-Moves :
    (cur i : ℕ) (t : Ptable) (j : ℕ) → Moves (t.proc j) ((abandon_one cur i t).proc j)
unfolding abandon_one
abandon_one-Moves cur i t j = elim (Bool-cases (is_ptr (t.proc i).parent cur)) [
  | inr e ↦ rw e (inl refl)
  | inl e ↦ elim (Bool-cases (state_is (t.proc i).state zombie)) [
    | inl z ↦
        rw (e, z)
          (Moves-trans (t.proc j) ((given_away i t).proc j)
            ((wakeup1 t.initproc (given_away i t)).proc j) (given_away-Moves i t j)
            (wakeup1-Woken t.initproc (given_away i t) j).state)
    | inr z ↦ rw (e, z) (given_away-Moves i t j)
  ]
]

pub abandon-Moves :
    (r i cur : ℕ) (t : Ptable) (j : ℕ) → Moves (t.proc j) ((abandon r i cur t).proc j)
unfolding abandon
abandon-Moves zero i cur t j = inl refl
abandon-Moves (suc r) i cur t j =
    Moves-trans (t.proc j) ((abandon_one cur i t).proc j)
      ((abandon r (i + 1) cur (abandon_one cur i t)).proc j) (abandon_one-Moves cur i t j)
      (abandon-Moves r (i + 1) cur (abandon_one cur i t) j)

given_away-Frame : (i : ℕ) (t : Ptable) (j : ℕ) → Frame (t.proc j) ((given_away i t).proc j)
given_away-Frame i t j = elim (ℕ_discrete i j) [ yes e ↦ ground arith | no e ↦ ground arith ]

abandon_one-Frame :
    (cur i : ℕ) (t : Ptable) (j : ℕ) → Frame (t.proc j) ((abandon_one cur i t).proc j)
unfolding abandon_one
abandon_one-Frame cur i t j = elim (Bool-cases (is_ptr (t.proc i).parent cur)) [
  | inr e ↦ rw e refl
  | inl e ↦ elim (Bool-cases (state_is (t.proc i).state zombie)) [
    | inl z ↦
        rw (e, z)
          (Frame-trans (t.proc j) ((given_away i t).proc j)
            ((wakeup1 t.initproc (given_away i t)).proc j) (given_away-Frame i t j)
            (wakeup1-Woken t.initproc (given_away i t) j).frame)
    | inr z ↦ rw (e, z) (given_away-Frame i t j)
  ]
]

-- The loop of exit changes the parent and the state of a process, and nothing else of it.
pub abandon-Frame :
    (r i cur : ℕ) (t : Ptable) (j : ℕ) → Frame (t.proc j) ((abandon r i cur t).proc j)
unfolding abandon
abandon-Frame zero i cur t j = refl
abandon-Frame (suc r) i cur t j =
    Frame-trans (t.proc j) ((abandon_one cur i t).proc j)
      ((abandon r (i + 1) cur (abandon_one cur i t)).proc j) (abandon_one-Frame cur i t j)
      (abandon-Frame r (i + 1) cur (abandon_one cur i t) j)

-- What stands beside the entries of the table.
abbrev pub SameRest : Ptable → Ptable → Type 0
SameRest t u = (u.nextpid ≡ t.nextpid) × (u.initproc ≡ t.initproc) × (u.calls ≡ t.calls)

pub wakeup1-SameRest : (chan : Option ℕ) (t : Ptable) → SameRest t (wakeup1 chan t)
unfolding wakeup1
wakeup1-SameRest chan t = (refl, refl, refl)

abandon_one-SameRest : (cur i : ℕ) (t : Ptable) → SameRest t (abandon_one cur i t)
unfolding abandon_one wakeup1
abandon_one-SameRest cur i t = ground arith

pub abandon-SameRest : (r i cur : ℕ) (t : Ptable) → SameRest t (abandon r i cur t)
unfolding abandon
abandon-SameRest zero i cur t = (refl, refl, refl)
abandon-SameRest (suc r) i cur t =
    let (a, b, c) = abandon_one-SameRest cur i t in
    let (d, e, f) = abandon-SameRest r (i + 1) cur (abandon_one cur i t) in (d ∙ a, e ∙ b, f ∙ c)
