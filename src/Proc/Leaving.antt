-- ===== src/Proc/Leaving.antt =====
-- What exit gives up before it takes ptable.lock: the open files and the directory.
use operating_systems_projec.Prelude.{
  ℕ, zero, suc, ◌+◌, ◌≤◌, ◌<◌, ◌≡◌, ◌≢◌, List, [], ◌∷◌, ◌++◌, append_assoc, sym, refl, ap, ◌∙◌, ◌⊎◌,
  inl, inr, Option, none, some, arith, ℕ_discrete,
}
use operating_systems_projec.Proc.Table.{
  Proc, Ptable, nofile, Call, iput, fileclose, begin_op, end_op,
}
use operating_systems_projec.Proc.Lifecycle.{close_files, drop_all, leave_fs, close_fd}

-- Before it takes the lock, exit changes nothing but the open files and the directory of its process.
pub record Dropped (cur : ℕ) (t u : Ptable) : Type 0 where
  pub others : (j : ℕ) → j ≢ cur → u.proc j ≡ t.proc j
  pub self : u.proc cur ≡ record (t.proc cur) { ofile = (u.proc cur).ofile; cwd = (u.proc cur).cwd }
  pub init : u.initproc ≡ t.initproc
  pub next : u.nextpid ≡ t.nextpid

Dropped-trans : (cur : ℕ) (t u v : Ptable) → Dropped cur t u → Dropped cur u v → Dropped cur t v
Dropped-trans cur t u v a b = record {
  others = λ j h. b.others j h ∙ a.others j h;
  self =
      b.self
      ∙ ap (λ (x : Proc). record x { ofile = (v.proc cur).ofile; cwd = (v.proc cur).cwd }) a.self;
  init = b.init ∙ a.init;
  next = b.next ∙ a.next;
}

close_fd-Dropped : (o : Option ℕ) (fd cur : ℕ) (t : Ptable) → Dropped cur t (close_fd o fd cur t)
close_fd-Dropped none fd cur t = record {
  others = λ j h. refl;
  self = refl;
  init = refl;
  next = refl;
}
close_fd-Dropped (some f) fd cur t = record {
  others = λ j h. ground arith;
  self = ground arith;
  init = refl;
  next = refl;
}

close_files-Dropped : (r fd cur : ℕ) (t : Ptable) → Dropped cur t (close_files r fd cur t)
unfolding close_files
close_files-Dropped zero fd cur t = record {
  others = λ j h. refl;
  self = refl;
  init = refl;
  next = refl;
}
close_files-Dropped (suc r) fd cur t =
    let o = (t.proc cur).ofile fd in
    Dropped-trans cur t (close_fd o fd cur t) (close_files r (fd + 1) cur (close_fd o fd cur t))
      (close_fd-Dropped o fd cur t) (close_files-Dropped r (fd + 1) cur (close_fd o fd cur t))

-- The calls `cs` contain `c`.
abbrev pub Has : Call → List Call → Type 0
Has c cs = (later : List Call) × (earlier : List Call) × (cs ≡ later ++ (c ∷ earlier))

Has-append : (c : Call) (cs more all : List Call) → all ≡ more ++ cs → Has c cs → Has c all
Has-append c cs more all e (later, earlier, q) = (
  more ++ later,
  earlier,
  e ∙ ap (λ l. more ++ l) q ∙ sym (append_assoc more later (c ∷ earlier)),
)

calls-close_fd :
    (o : Option ℕ) (fd cur : ℕ) (t : Ptable)
    → ((close_fd o fd cur t).proc cur).cwd ≡ (t.proc cur).cwd
      × ((more : List Call) × ((close_fd o fd cur t).calls ≡ more ++ t.calls))
calls-close_fd none fd cur t = (refl, ([], refl))
calls-close_fd (some f) fd cur t = (ground arith, (fileclose f ∷ [], refl))

calls-close_files :
    (r fd cur : ℕ) (t : Ptable)
    → ((close_files r fd cur t).proc cur).cwd ≡ (t.proc cur).cwd
      × ((more : List Call) × ((close_files r fd cur t).calls ≡ more ++ t.calls))
unfolding close_files
calls-close_files zero fd cur t = (refl, ([], refl))
calls-close_files (suc r) fd cur t =
    let o = (t.proc cur).ofile fd in
    let (c, (m, e)) = calls-close_fd o fd cur t in
    let (d, (n, f)) = calls-close_files r (fd + 1) cur (close_fd o fd cur t) in
    (d ∙ c, (n ++ m, f ∙ ap (λ l. n ++ l) e ∙ sym (append_assoc n m t.calls)))

-- close_fd calls fileclose with the file that it finds, and leaves the other descriptors alone.
fileclose-close_fd :
    (o : Option ℕ) (fd cur f : ℕ) (t : Ptable)
    → o ≡ some f
    → Has (fileclose f) (close_fd o fd cur t).calls
fileclose-close_fd o fd cur f t e = rw e ([], t.calls, refl)

ofile-close_fd :
    (o : Option ℕ) (fd cur k : ℕ) (t : Ptable)
    → fd ≢ k
    → ((close_fd o fd cur t).proc cur).ofile k ≡ (t.proc cur).ofile k
ofile-close_fd none fd cur k t n = refl
ofile-close_fd (some f) fd cur k t n = ground arith

fileclose-close_files :
    (r fd cur k f : ℕ) (t : Ptable)
    → fd ≤ k
    → k < fd + r
    → (t.proc cur).ofile k ≡ some f
    → Has (fileclose f) (close_files r fd cur t).calls
unfolding close_files
fileclose-close_files zero fd cur k f t a b e = absurd (omega arith)
fileclose-close_files (suc r) fd cur k f t a b e =
    let o = (t.proc cur).ofile fd in
    let u = close_fd o fd cur t in
    elim (ℕ_discrete fd k) [
      | yes s ↦
          let (c, (more, q)) = calls-close_files r (fd + 1) cur u in
          let q2 : o ≡ some f = ap (λ (i : ℕ). (t.proc cur).ofile i) s ∙ e in
          Has-append (fileclose f) u.calls more (close_files r (fd + 1) cur u).calls q
            (fileclose-close_fd o fd cur f t q2)
      | no s ↦
          fileclose-close_files r (fd + 1) cur k f u (omega arith) (omega arith)
            (ofile-close_fd o fd cur k t s ∙ e)
    ]

closed_fd :
    (o : Option ℕ) (fd cur k : ℕ) (t : Ptable)
    → (t.proc cur).ofile fd ≡ o
    → (fd ≡ k) ⊎ ((t.proc cur).ofile k ≡ none)
    → ((close_fd o fd cur t).proc cur).ofile k ≡ none
closed_fd none fd cur k t e h = ground arith
closed_fd (some f) fd cur k t e h = ground arith

closed_all :
    (r fd cur : ℕ) (t : Ptable) (k : ℕ)
    → ((fd ≤ k) × (k < fd + r)) ⊎ ((t.proc cur).ofile k ≡ none)
    → ((close_files r fd cur t).proc cur).ofile k ≡ none
unfolding close_files
closed_all zero fd cur t k (inl h) = absurd (omega arith)
closed_all zero fd cur t k (inr h) = h
closed_all (suc r) fd cur t k h = closed_all r (fd + 1) cur (close_fd o fd cur t) k (next h)
  where
    o : Option ℕ
    o = (t.proc cur).ofile fd

    next :
        ((fd ≤ k) × (k < fd + suc r)) ⊎ ((t.proc cur).ofile k ≡ none)
        → ((fd + 1 ≤ k) × (k < fd + 1 + r)) ⊎ (((close_fd o fd cur t).proc cur).ofile k ≡ none)
    next (inr e) = inr (closed_fd o fd cur k t refl (inr e))
    next (inl e) = elim (ℕ_discrete fd k) [
      | yes s ↦ inr (closed_fd o fd cur k t refl (inl s))
      | no s ↦ inl (omega arith)
    ]

leave_fs-Dropped : (cur : ℕ) (t : Ptable) → Dropped cur t (leave_fs cur t)
leave_fs-Dropped cur t = record {
  others = λ j h. ground arith;
  self = ground arith;
  init = refl;
  next = refl;
}

cwd-leave_fs : (cur : ℕ) (t : Ptable) → ((leave_fs cur t).proc cur).cwd ≡ none
cwd-leave_fs cur t = ground arith

ofile-leave_fs : (cur : ℕ) (t : Ptable) → ((leave_fs cur t).proc cur).ofile ≡ (t.proc cur).ofile
ofile-leave_fs cur t = ground arith

pub drop_all-Dropped : (cur : ℕ) (t : Ptable) → Dropped cur t (drop_all cur t)
unfolding drop_all
drop_all-Dropped cur t =
    let u = close_files nofile 0 cur t in
    Dropped-trans cur t u (leave_fs cur u) (close_files-Dropped nofile 0 cur t)
      (leave_fs-Dropped cur u)

-- Every file that was open has been closed, and then the directory put within a transaction.
pub record Put (cur : ℕ) (t u : Ptable) : Type 0 where
  pub files : List Call
  pub put : u.calls ≡ end_op ∷ (iput (t.proc cur).cwd ∷ (begin_op ∷ files))
  pub fileclosed : (k f : ℕ) → k < nofile → (t.proc cur).ofile k ≡ some f → Has (fileclose f) files

pub drop_all-Put : (cur : ℕ) (t : Ptable) → Put cur t (drop_all cur t)
unfolding drop_all
drop_all-Put cur t =
    let u = close_files nofile 0 cur t in
    let (c, more) = calls-close_files nofile 0 cur t in
    record {
      files = u.calls;
      put = ap (λ (d : Option ℕ). end_op ∷ (iput d ∷ (begin_op ∷ u.calls))) c;
      fileclosed =
          λ k f h e. fileclose-close_files nofile 0 cur k f t (omega arith) (omega arith) e;
    }

-- What exit has given up before it takes the lock.
pub dropped :
    (cur : ℕ) (t : Ptable)
    → (((drop_all cur t).proc cur).cwd ≡ none)
      × ((k : ℕ) → k < nofile → ((drop_all cur t).proc cur).ofile k ≡ none)
unfolding drop_all
dropped cur t = (
  cwd-leave_fs cur (close_files nofile 0 cur t),
  λ k h.
      ap (λ o. o k) (ofile-leave_fs cur (close_files nofile 0 cur t))
      ∙ closed_all nofile 0 cur t k (inl (omega arith)),
)
