-- ===== src/Console/Refine.antt =====
-- consoleintr edits a line: it refines an editor on two lists.
use operating_systems_projec.Prelude.{
  ℕ, ◌+◌, ◌%◌, ◌<◌, ◌≡◌, ◌≢◌, refl, sym, ap, ◌∙◌, ◌⊎◌, inl, inr, Bool, true, false, not, ◌&&◌, ◌||◌,
  List, [], ◌∷◌, ◌++◌, length, arith, ◌==◌, ltb, if◌then◌else◌, Bool-cases, append_assoc,
  append-nil,
}
use mathlib.Core.Path.{subst}
use operating_systems_projec.Prelude.Kernel.{ok, unlocked}
use operating_systems_projec.Console.{
  Input, input_buf, uint_mod, ctrl_d, ctrl_h, ctrl_p, ctrl_u, delete, newline, as_newline,
  edit_length, used_length, rub_out, kill_line, put_char, type_char, key, keys, wants_listing,
  consoleintr,
}
use operating_systems_projec.Console.Ring.{window, ready, editing}
use operating_systems_projec.Console.Editing.{
  IsValid, Editor, drop_last, insert, press, press_all, view, Bytes, rub_out-IsValid,
  editing-rub_out, kill_line_lem, empty_line-IsValid, empty_line-view, length-view,
}
use operating_systems_projec.Console.Typing.{ends_same, typed-IsValid-view}

type_char-IsValid-view :
    (c : ℕ) (i : Input)
    → IsValid i
    → c < 256
    → IsValid (type_char c i) × (view (type_char c i) ≡ insert c (view i))
unfolding type_char insert view
type_char-IsValid-view c i v h =
    let len = length-view i v in
    elim (Bool-cases (not (c == 0) && ltb (used_length i) input_buf)) [
      | inr e ↦
          let f : (not (c == 0) && ltb (length (ready i) + length (editing i)) input_buf) ≡ false =
            ap (λ n. not (c == 0) && ltb n input_buf) len ∙ e in
          (rw e v, rw (e, f) refl)
      | inl e ↦
          let f : (not (c == 0) && ltb (length (ready i) + length (editing i)) input_buf) ≡ true =
            ap (λ n. not (c == 0) && ltb n input_buf) len ∙ e in
          let d = as_newline c in
          let small : d < 256 = ground arith in
          let room : used_length i < input_buf = ground arith in
          let j = put_char d i in
          let b = d == newline || (d == ctrl_d || j.e == (j.r + input_buf) % uint_mod) in
          let same = ap (λ x. d == newline || (d == ctrl_d || x)) (ends_same i d v small room) in
          let ended : b ≡ true ⊎ d ≢ newline = elim (Bool-cases (d == newline)) [
            | inl q ↦ inl (rw q refl)
            | inr q ↦ inr (ground arith)
          ] in
          let (p, q) = typed-IsValid-view i d v small room b ended in
          let done : Editor = record { done = ready i ++ (editing i ++ d ∷ []); line = [] } in
          let more : Editor = record { done = ready i; line = editing i ++ d ∷ [] } in
          (rw e p, rw (e, f) (q ∙ ap (λ (x : Bool). if x then done else more) same))
    ]

ready-rub_out : (i : Input) → ready (rub_out i) ≡ ready i
unfolding ready rub_out
ready-rub_out i = refl

no-editing : (i : Input) → IsValid i → i.e ≡ i.w → editing i ≡ []
unfolding editing
no-editing i v e = let z : edit_length i ≡ 0 = omega (arith, v.w_in) in ap (window i.buf i.w) z

backspace-IsValid-view :
    (i : Input)
    → IsValid i
    → IsValid (if i.e == i.w then i else rub_out i)
      × (view (if i.e == i.w then i else rub_out i)
          ≡ record { done = ready i; line = drop_last (editing i) })
unfolding view
backspace-IsValid-view i v = elim (Bool-cases (i.e == i.w)) [
  | inl e ↦
      let z = no-editing i v (ground arith) in
      (
        rw e v,
        rw e (ap (λ (l : List ℕ). record { done = ready i; line = l }) (z ∙ sym (ap drop_last z))),
      )
  | inr e ↦
      let n : i.e ≢ i.w = ground arith in
      (rw e (rub_out-IsValid i v n), rw e (ground (arith, ready-rub_out i, editing-rub_out i v n)))
]

key-IsValid-view :
    (c : ℕ) (i : Input)
    → IsValid i
    → c < 256
    → IsValid (key c i) × (view (key c i) ≡ press c (view i))
unfolding key press view
key-IsValid-view c i v h = elim (Bool-cases (c == ctrl_p)) [
  | inl p ↦ (rw p v, rw p refl)
  | inr p ↦ elim (Bool-cases (c == ctrl_u)) [
    | inl u ↦
        let k = kill_line_lem (edit_length i) i v (omega arith) in
        let l = (kill_line (edit_length i) i).echo in
        (
          rw (p, u) (subst IsValid (sym k) (empty_line-IsValid i l v)),
          rw (p, u) (ap view k ∙ empty_line-view i l v),
        )
    | inr u ↦ elim (Bool-cases (c == ctrl_h || c == delete)) [
      | inl b ↦ let (y, z) = backspace-IsValid-view i v in (rw (p, u, b) y, rw (p, u, b) z)
      | inr b ↦ let (y, z) = type_char-IsValid-view c i v h in (rw (p, u, b) y, rw (p, u, b) z)
    ]
  ]
]

insert-done : (c : ℕ) (t : Editor) → (more : List ℕ) × ((insert c t).done ≡ t.done ++ more)
unfolding insert
insert-done c t =
    let d = as_newline c in
    let line = t.line ++ d ∷ [] in
    let same = sym (append-nil t.done) in
    elim (Bool-cases (not (c == 0) && ltb (length t.done + length t.line) input_buf)) [
      | inr e ↦ ([], rw e same)
      | inl e ↦
          elim (Bool-cases
            (d == newline || (d == ctrl_d || length t.done + length line == input_buf))) [
              | inl f ↦ (line, rw (e, f) refl)
              | inr f ↦ ([], rw (e, f) same)
            ]
    ]

press-done : (c : ℕ) (t : Editor) → (more : List ℕ) × ((press c t).done ≡ t.done ++ more)
unfolding press
press-done c t =
    let same = sym (append-nil t.done) in
    elim (Bool-cases (c == ctrl_p)) [
      | inl p ↦ ([], rw p same)
      | inr p ↦ elim (Bool-cases (c == ctrl_u)) [
        | inl u ↦ ([], rw (p, u) same)
        | inr u ↦ elim (Bool-cases (c == ctrl_h || c == delete)) [
          | inl b ↦ ([], rw (p, u, b) same)
          | inr b ↦ let (more, e) = insert-done c t in (more, rw (p, u, b) e)
        ]
      ]
    ]

keys-IsValid-view :
    (cs : List ℕ) (i : Input)
    → IsValid i
    → Bytes cs
    → IsValid (keys cs i) × (view (keys cs i) ≡ press_all cs (view i))
unfolding keys press_all
keys-IsValid-view [] i v h = (v, refl)
keys-IsValid-view (c ∷ cs) i v (a, h) =
    let (w, e) = key-IsValid-view c i v a in
    let (x, f) = keys-IsValid-view cs (key c i) w h in (x, f ∙ ap (press_all cs) e)

-- A key takes back nothing that has been handed over.
press_all-done :
    (cs : List ℕ) (t : Editor) → (more : List ℕ) × ((press_all cs t).done ≡ t.done ++ more)
unfolding press_all
press_all-done [] t = ([], sym (append-nil t.done))
press_all-done (c ∷ cs) t =
    let (a, p) = press-done c t in
    let (b, q) = press_all-done cs (press c t) in
    (a ++ b, q ∙ ap (λ l. l ++ b) p ∙ append_assoc t.done a b)

-- consoleintr with keys that are bytes, on a valid ring whose lock is free, does not panic or sleep and
-- frees the lock: the ring then holds the text that an editor of one line holds behind these keys.
-- In the editor ^U empties the line, ^H and delete take its last character back, ^P types nothing, and
-- every other key but NUL is added, a return as a newline, while less than INPUT_BUF bytes are held;
-- a newline, ^D and the last place hand the line over to the readers. The ring stays valid, and what
-- was handed over before stays in front of what the keys add to it.
pub consoleintr_lem :
    (cs : List ℕ) (i : Input)
    → IsValid i
    → Bytes cs
    → (j : Input) × (consoleintr cs (unlocked i) ≡ ok (wants_listing cs) (unlocked j))
      × IsValid j
      × (view j ≡ press_all cs (view i))
      × ((more : List ℕ) × (ready j ≡ ready i ++ more))
unfolding consoleintr view
consoleintr_lem cs i v h =
    let (x, f) = keys-IsValid-view cs i v h in
    let (more, e) = press_all-done cs (view i) in
    (keys cs i, refl, x, f, (more, ap (λ (t : Editor). t.done) f ∙ e))
