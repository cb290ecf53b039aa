-- ===== src/Console/Editing.antt =====
-- What the ring holds behind each step of consoleintr, and an editor on two lists to compare it with.
use operating_systems_projec.Prelude.{
  ℕ, zero, suc, ◌+◌, ◌-◌, ◌%◌, ◌≤◌, ◌<◌, ◌≡◌, ◌≢◌, refl, sym, ap, ◌∙◌, inl, inr, true, not, ◌&&◌,
  ◌||◌, List, [], ◌∷◌, ◌++◌, length, arith, ◌==◌, ltb, if◌then◌else◌, Bool-cases,
}
use operating_systems_projec.Console.{
  Input, input_buf, uint_mod, ctrl_d, ctrl_h, ctrl_p, ctrl_u, delete, newline, as_newline,
  edit_length, used_length, rub_out, kill_line,
}
use operating_systems_projec.Console.Ring.{
  window, ready_length, ready, editing, length-window, window-snoc,
}

-- The indices are in order, and the edited line has no newline.
pub record IsValid (i : Input) : Type 0 where
  pub r_in : i.r < uint_mod
  pub w_in : i.w < uint_mod
  pub e_in : i.e < uint_mod
  pub fits : ready_length i + edit_length i ≤ input_buf
  pub one_line : (j : ℕ) → j < edit_length i → i.buf ((i.w + j) % uint_mod % input_buf) ≢ newline

-- What an editor holds: text that is handed over, and the line that is edited.
pub record Editor : Type 0 where
  pub done : List ℕ
  pub line : List ℕ

abbrev pub drop_last : List ℕ → List ℕ
drop_last [] = []
drop_last (x ∷ []) = []
drop_last (x ∷ (y ∷ xs)) = x ∷ drop_last (y ∷ xs)

drop_last-append : (xs : List ℕ) (x : ℕ) → drop_last (xs ++ x ∷ []) ≡ xs
drop_last-append [] x = refl
drop_last-append (y ∷ []) x = refl
drop_last-append (y ∷ (z ∷ xs)) x = ap (λ t. y ∷ t) (drop_last-append (z ∷ xs) x)

-- The editor on a key that is a character: a line ends with a newline, with ^D or where the room ends.
unfoldable pub insert : ℕ → Editor → Editor
insert c t =
    let d = as_newline c in
    let line = t.line ++ d ∷ [] in
    if not (c == 0) && ltb (length t.done + length t.line) input_buf
    then (if d == newline || (d == ctrl_d || length t.done + length line == input_buf)
        then record { done = t.done ++ line; line = [] }
        else record t { line = line })
    else t

unfoldable pub press : ℕ → Editor → Editor
press c t =
    if c == ctrl_p
    then t
    else if c == ctrl_u
    then record t { line = [] }
    else if c == ctrl_h || c == delete
    then record t { line = drop_last t.line }
    else insert c t

unfoldable pub press_all : List ℕ → Editor → Editor
press_all [] t = t
press_all (c ∷ cs) t = press_all cs (press c t)

unfoldable pub view : Input → Editor
view i = record { done = ready i; line = editing i }

-- Every key is a byte.
abbrev pub Bytes : List ℕ → Type 0
Bytes [] = Unit {0}
Bytes (c ∷ cs) = (c < 256) × Bytes cs

pub rub_out-IsValid : (i : Input) → IsValid i → i.e ≢ i.w → IsValid (rub_out i)
unfolding rub_out
rub_out-IsValid i v n = record {
  r_in = v.r_in;
  w_in = v.w_in;
  e_in = omega arith;
  fits = omega (arith, v.fits, v.w_in, v.e_in);
  one_line = λ j h. v.one_line j (omega (arith, v.w_in, v.e_in));
}

-- The last byte of the line stands before the edit index.
pub last-rub_out :
    (i : Input) → IsValid i → i.e ≢ i.w → edit_length i ≡ suc (edit_length (rub_out i))
unfolding rub_out
last-rub_out i v n = omega (arith, v.w_in, v.e_in)

pub editing-rub_out :
    (i : Input) → IsValid i → i.e ≢ i.w → editing (rub_out i) ≡ drop_last (editing i)
unfolding editing
editing-rub_out i v n =
    let k = edit_length (rub_out i) in
    let e : (rub_out i).e ≡ (i.w + k) % uint_mod =
      unfold rub_out in omega (arith, v.w_in, v.e_in) in
    let s : window i.buf i.w (suc k)
        ≡ window i.buf i.w k ++ i.buf ((rub_out i).e % input_buf) ∷ [] =
      window-snoc i.buf k i.w (rub_out i).e v.w_in e in
    let l = last-rub_out i v n in
    unfold rub_out in
    sym (drop_last-append (window i.buf i.w k) (i.buf ((rub_out i).e % input_buf)))
    ∙ ap drop_last (sym s ∙ ap (window i.buf i.w) (sym l))

pub kill_line_lem :
    (n : ℕ) (i : Input)
    → IsValid i
    → edit_length i ≤ n
    → kill_line n i ≡ record i { e = i.w; echo = (kill_line n i).echo }
unfolding kill_line
kill_line_lem zero i v h = let q : i.e ≡ i.w = omega (arith, v.w_in, v.e_in) in ground (arith, q)
kill_line_lem (suc n) i v h = elim (Bool-cases (i.e == i.w)) [
  | inl q ↦ ground (arith, q)
  | inr q ↦
      let m : i.e ≢ i.w = ground arith in
      let l = last-rub_out i v m in
      let ih = kill_line_lem n (rub_out i) (rub_out-IsValid i v m) (omega arith) in
      let at : (i.w + edit_length (rub_out i)) % uint_mod ≡ (i.e + uint_mod - 1) % uint_mod =
        omega (arith, v.w_in, v.e_in) in
      let other : i.buf ((i.e + uint_mod - 1) % uint_mod % input_buf) ≢ newline = λ z.
        v.one_line (edit_length (rub_out i)) (omega arith)
          (ap (λ j. i.buf (j % input_buf)) at ∙ z) in
      let go : (not (i.e == i.w)
            && not (i.buf ((i.e + uint_mod - 1) % uint_mod % input_buf) == newline))
          ≡ true =
        ground arith in
      rw go ih
]

-- Without its line, the ring is valid, and holds the finished lines.
pub empty_line-IsValid :
    (i : Input) (l : List ℕ) → IsValid i → IsValid (record i { e = i.w; echo = l })
empty_line-IsValid i l v = record {
  r_in = v.r_in;
  w_in = v.w_in;
  e_in = v.w_in;
  fits = omega (arith, v.fits, v.w_in);
  one_line = λ j h. absurd (omega (arith, v.w_in));
}

pub empty_line-view :
    (i : Input) (l : List ℕ)
    → IsValid i
    → view (record i { e = i.w; echo = l }) ≡ record (view i) { line = [] }
unfolding view ready editing
empty_line-view i l v =
    let z : (i.w + uint_mod - i.w) % uint_mod ≡ 0 = omega (arith, v.w_in) in rw z refl

pub sum_length : (i : Input) → IsValid i → used_length i ≡ ready_length i + edit_length i
sum_length i v = omega (arith, v.r_in, v.w_in, v.e_in, v.fits)

pub length-view : (i : Input) → IsValid i → length (ready i) + length (editing i) ≡ used_length i
unfolding ready editing
length-view i v = omega (
  arith,
  length-window i.buf i.r (ready_length i),
  length-window i.buf i.w (edit_length i),
  sum_length i v,
)
