-- ===== src/Pipe/Refine.antt =====
-- The loops of pipewrite and piperead against a queue of at most PIPESIZE bytes.
use operating_systems_projec.Prelude.{
  ℕ, zero, suc, ◌+◌, ◌-◌, ◌≤◌, ◌<◌, ◌≡◌, refl, ◌∙◌, ap, sym, ◌⊎◌, ◌≢◌, inl, inr, Bool, true, false,
  List, [], ◌∷◌, ◌++◌, Option, none, some, length, take, drop, arith, append-nil, append_assoc,
  Bool-cases,
}
use operating_systems_projec.Prelude.Kernel.{Outcome, ok, asleep, panic, Locked, locked, unlocked}
use operating_systems_projec.Pipe.{
  Pipe, Waits, Chan, wakeup, for_room, for_data, pipesize, is_full, is_empty, put_byte, drop_byte,
  next_byte, write_full, write_loop, pipewrite, write_again, copy_loop, copy_out, piperead,
}
use operating_systems_projec.Pipe.Contents.{
  count, window, contents, IsValid, put_byte-IsValid, count-put_byte, contents-put_byte,
  drop_byte-IsValid, contents-drop_byte,
}

-- The state that a write leaves: `q` bytes-in-order behind what the pipe held, and a free lock.
pub record Appended (p : Pipe) (new : List ℕ) (s : Locked Pipe) : Type 0 where
  pub lock_free : s.held ≡ false
  pub valid : IsValid s.guarded
  pub bytes : contents s.guarded ≡ contents p ++ new
  pub reader : s.guarded.readopen ≡ p.readopen
  pub writer : s.guarded.writeopen ≡ p.writeopen

-- What a write of `xs` may do, on a pipe with room for `room` bytes: store them all and return `n`;
-- fail behind the bytes that fit, if there is no reader or the process is killed; or sleep with the
-- rest behind the bytes that fit. It never panics.
abbrev pub Wrote :
    (n : ℕ) (killed : Bool) (p : Pipe) (room : ℕ) (xs : List ℕ)
    → Outcome Waits (Locked Pipe) (Option ℕ)
    → Type 0
Wrote n killed p room xs (ok (some m) s) = (m ≡ n) × (length xs ≤ room) × Appended p xs s
Wrote n killed p room xs (ok none s) =
    (room < length xs) × ((p.readopen ≡ false) ⊎ (killed ≡ true)) × Appended p (take room xs) s
Wrote n killed p room xs (asleep (for_room ys) s) =
    (room < length xs)
    × (ys ≡ drop room xs)
    × ((p.readopen ≡ true) × (killed ≡ false))
    × Appended p (take room xs) s
Wrote n killed p room xs (asleep for_data s) = ⊥
Wrote n killed p room xs panic = ⊥

is_full-eq-true : (p : Pipe) → IsValid p → count p ≡ pipesize → is_full p ≡ true
is_full-eq-true p v e = ground arith

is_full-eq-false : (p : Pipe) → IsValid p → count p < pipesize → is_full p ≡ false
is_full-eq-false p v e = ground arith

module _ {p : Pipe} (x : ℕ) (v : IsValid p) (h : count p < pipesize) where
  Appended-cons :
      {new : List ℕ} {s : Locked Pipe} → Appended (put_byte x p) new s → Appended p (x ∷ new) s
  unfolding put_byte
  Appended-cons {new} a = record {
    lock_free = a.lock_free;
    valid = a.valid;
    bytes =
        a.bytes
        ∙ ap (λ l. l ++ new) (contents-put_byte x v h)
        ∙ append_assoc (contents p) (x ∷ []) new;
    reader = a.reader;
    writer = a.writer;
  }

  Wrote-cons :
      (n : ℕ) (killed : Bool) (room : ℕ) (xs : List ℕ) (o : Outcome Waits (Locked Pipe) (Option ℕ))
      → Wrote n killed (put_byte x p) room xs o
      → Wrote n killed p (suc room) (x ∷ xs) o
  unfolding put_byte
  Wrote-cons n killed room xs (ok (some m) s) w = (w.0, omega arith, Appended-cons w.2)
  Wrote-cons n killed room xs (ok none s) w = (omega arith, w.1, Appended-cons w.2)
  Wrote-cons n killed room xs (asleep (for_room ys) s) w =
      (omega arith, w.1, w.2, Appended-cons w.3)
  Wrote-cons n killed room xs (asleep for_data s) w = w
  Wrote-cons n killed room xs panic w = w

Appended-nil :
    (p : Pipe)
    → IsValid p
    → (q : Pipe) → IsValid q
    → contents q ≡ contents p
    → q.readopen ≡ p.readopen
    → q.writeopen ≡ p.writeopen
    → Appended p [] (unlocked q)
Appended-nil p v q w e r t = record {
  lock_free = refl;
  valid = w;
  bytes = e ∙ sym (append-nil (contents p));
  reader = r;
  writer = t;
}

write_full-Wrote :
    (n : ℕ) (killed : Bool) (p : Pipe) (x : ℕ) (xs : List ℕ)
    → IsValid p
    → Wrote n killed p 0 (x ∷ xs) (write_full killed (x ∷ xs) (locked p))
unfolding write_full
write_full-Wrote n killed p x xs v = branch p.readopen killed refl refl
  where
    nothing :
        (q : Pipe)
        → IsValid q
        → contents q ≡ contents p
        → q.readopen ≡ p.readopen
        → q.writeopen ≡ p.writeopen
        → Appended p [] (unlocked q)
    nothing q w e r t = Appended-nil p v q w e r t

    branch :
        (r k : Bool)
        → p.readopen ≡ r
        → killed ≡ k
        → Wrote n killed p 0 (x ∷ xs) (write_full killed (x ∷ xs) (locked p))
    branch true true er ek = simp (er, ek) (omega arith, inr refl, nothing p v refl refl refl)
    branch true false er ek =
        simp (er, ek) (omega arith, refl, (refl, refl), nothing _ (omega arith) refl (sym er) refl)
    branch false k er ek = simp er (omega arith, inl refl, nothing p v refl refl refl)

pub write_loop-Wrote :
    (n : ℕ) (killed : Bool) (xs : List ℕ) (room : ℕ) (p : Pipe)
    → IsValid p
    → count p + room ≡ pipesize
    → Wrote n killed p room xs (write_loop n killed xs (locked p))
unfolding write_loop
write_loop-Wrote n killed [] room p v e =
    (refl, omega arith, Appended-nil p v _ (omega arith) refl refl refl)
write_loop-Wrote n killed (x ∷ xs) zero p v e =
    rw (is_full-eq-true p v (omega arith)) (write_full-Wrote n killed p x xs v)
write_loop-Wrote n killed (x ∷ xs) (suc room) p v e = rw (is_full-eq-false p v (omega arith)) (
    Wrote-cons x v (omega arith) n killed room xs _ (
      write_loop-Wrote n killed xs room (put_byte x p) (put_byte-IsValid x v (omega arith))
        (omega (arith, count-put_byte {p = p} x v (omega arith)))))

-- A write on a valid pipe whose lock is free does what `Wrote` lists and does not panic: it appends
-- the bytes that fit, in order, returns `n` exactly if all of them do, and otherwise fails if there
-- is no reader or the process is killed and sleeps with the rest if not. The lock is free again.
pub pipewrite_lem :
    (killed : Bool) (xs : List ℕ) (p : Pipe)
    → IsValid p
    → Wrote (length xs) killed p (pipesize - count p) xs (pipewrite killed xs (unlocked p))
unfolding pipewrite
pipewrite_lem killed xs p v =
    write_loop-Wrote (length xs) killed xs (pipesize - count p) p v (omega arith)

pub write_again_lem :
    (n : ℕ) (killed : Bool) (xs : List ℕ) (p : Pipe)
    → IsValid p
    → Wrote n killed p (pipesize - count p) xs (write_again n killed xs (unlocked p))
unfolding write_again
write_again_lem n killed xs p v =
    write_loop-Wrote n killed xs (pipesize - count p) p v (omega arith)

-- What a pipe holds after its oldest bytes have been taken.
pub record Took (n : ℕ) (p : Pipe) (out : List ℕ) (q : Pipe) : Type 0 where
  pub valid : IsValid q
  pub got : out ≡ take n (contents p)
  pub left : contents q ≡ drop n (contents p)
  pub reader : q.readopen ≡ p.readopen
  pub writer : q.writeopen ≡ p.writeopen

contents-empty : (p : Pipe) → p.nread ≡ p.nwrite → IsValid p → contents p ≡ []
contents-empty p e v = ap (window p.bytes p.nread) (let z : count p ≡ 0 = omega arith in z)

Took-cons :
    (n : ℕ) (p : Pipe)
    → IsValid p
    → p.nread ≢ p.nwrite
    → (out : List ℕ) (q : Pipe) → Took n (drop_byte p) out q
    → Took (suc n) p (next_byte p ∷ out) q
unfolding drop_byte
Took-cons n p v h out q t = record {
  valid = t.valid;
  got = ap (λ l. next_byte p ∷ l) t.got ∙ ap (take (suc n)) (sym (contents-drop_byte v h));
  left = t.left ∙ ap (drop (suc n)) (sym (contents-drop_byte v h));
  reader = t.reader;
  writer = t.writer;
}

pub copy_loop-Took : (n : ℕ) (p : Pipe) → IsValid p → Took n p (copy_loop n p).0 (copy_loop n p).1
unfolding copy_loop
copy_loop-Took zero p v = record {
  valid = v;
  got = refl;
  left = refl;
  reader = refl;
  writer = refl;
}
copy_loop-Took (suc n) p v = elim (Bool-cases (is_empty p)) [
  | inl e ↦ rw e (record {
    valid = v;
    got = rw (contents-empty p (ground arith) v);
    left = rw (contents-empty p (ground arith) v);
    reader = refl;
    writer = refl;
  })
  | inr e ↦ rw e (
      Took-cons n p v (ground arith) _ _
        (copy_loop-Took n (drop_byte p) (drop_byte-IsValid v (ground arith))))
]

-- What a read of `n` bytes may do: return the oldest bytes that it has taken, at most `n`; or, on an
-- empty pipe with an open writing end, fail if the process is killed and sleep if not. It never
-- panics, and it returns no byte only on an empty pipe with no writer, or if `n` is 0.
abbrev pub Read :
    (killed : Bool) (n : ℕ) (p : Pipe) → Outcome Waits (Locked Pipe) (Option (List ℕ)) → Type 0
Read killed n p (ok (some out) s) =
    (s.held ≡ false) × ((contents p ≢ []) ⊎ (p.writeopen ≡ false)) × Took n p out s.guarded
Read killed n p (ok none s) =
    (killed ≡ true) × (contents p ≡ []) × (p.writeopen ≡ true) × (s ≡ unlocked p)
Read killed n p (asleep for_data s) =
    (killed ≡ false) × (contents p ≡ []) × (p.writeopen ≡ true) × (s ≡ unlocked p)
Read killed n p (asleep (for_room ys) s) = ⊥
Read killed n p panic = ⊥

Took-wakeup :
    {n : ℕ} {p : Pipe} {out : List ℕ} {q : Pipe} {c : Chan}
    → Took n p out q
    → Took n p out (wakeup c q)
Took-wakeup {q} t = record {
  valid = record { nread_in = v.nread_in; nwrite_in = v.nwrite_in; fits = v.fits };
  got = t.got;
  left = t.left;
  reader = t.reader;
  writer = t.writer;
}
  where
    v : IsValid q
    v = t.valid

copy_out-Read :
    (killed : Bool) (n : ℕ) (p : Pipe)
    → IsValid p
    → (contents p ≢ []) ⊎ (p.writeopen ≡ false)
    → Read killed n p (copy_out n (locked p))
unfolding copy_out
copy_out-Read killed n p v h = (refl, h, Took-wakeup (copy_loop-Took n p v))

contents-nonempty : (p : Pipe) → IsValid p → p.nread ≢ p.nwrite → contents p ≢ []
contents-nonempty p v h e = cc (contents-drop_byte v h)

-- A read on a valid pipe whose lock is free does what `Read` lists and does not panic: it takes the
-- oldest bytes, at most `n`, in order; on an empty pipe with an open writing end it fails if the
-- process is killed and sleeps if not, and then changes nothing.
pub piperead_lem :
    (killed : Bool) (n : ℕ) (p : Pipe)
    → IsValid p
    → Read killed n p (piperead killed n (unlocked p))
unfolding piperead
piperead_lem killed n p v = branch (is_empty p) p.writeopen killed refl refl refl
  where
    branch :
        (b w k : Bool)
        → is_empty p ≡ b
        → p.writeopen ≡ w
        → killed ≡ k
        → Read killed n p (piperead killed n (unlocked p))
    branch true true true eb ew ek =
        simp (eb, ew, ek) (refl, contents-empty p (ground arith) v, refl, refl)
    branch true true false eb ew ek =
        simp (eb, ew, ek) (refl, contents-empty p (ground arith) v, refl, refl)
    branch true false k eb ew ek =
        simp (eb, ew) (refl, inr refl, Took-wakeup (copy_loop-Took n p v))
    branch false w k eb ew ek =
        simp eb (copy_out-Read killed n p v (inl (contents-nonempty p v (ground arith))))
