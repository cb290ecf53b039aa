-- ===== src/Console/Typing.antt =====
-- What type_char does to the ring.
use operating_systems_projec.Prelude.{
  ℕ, suc, ◌+◌, ◌-◌, ◌%◌, ◌<◌, ◌≡◌, ◌≢◌, ap, ap₂, ◌∙◌, ◌⊎◌, inl, inr, Bool, true, false, [], ◌∷◌,
  ◌++◌, length, length-append, arith, ◌==◌, if◌then◌else◌, update, Bool-cases,
}
use operating_systems_projec.Console.{
  Input, input_buf, uint_mod, newline, edit_length, used_length, put_char, finish_line,
}
use operating_systems_projec.Console.Ring.{
  window, ready_length, ready, editing, window-snoc, window-update, window-append,
}
use operating_systems_projec.Console.Editing.{IsValid, view, sum_length, length-view}

-- What a typed character does to the ring with room left.
module _ (i : Input) (c : ℕ) (v : IsValid i) (small : c < 256)
    (room : used_length i < input_buf) where
  edit_length-put_char : edit_length (put_char c i) ≡ suc (edit_length i)
  unfolding put_char
  edit_length-put_char = omega (arith, v.r_in, v.w_in, v.e_in, v.fits, sum_length i v)

  ready-put_char : ready (put_char c i) ≡ ready i
  unfolding put_char ready
  ready-put_char =
      window-update i.buf (c % 256) (ready_length i) i.r (i.e % input_buf) v.r_in
        (λ j h. omega (arith, v.r_in, v.w_in, v.e_in, v.fits, sum_length i v))

  editing-put_char : editing (put_char c i) ≡ editing i ++ c ∷ []
  unfolding put_char editing
  editing-put_char =
      let b = update i.buf (i.e % input_buf) (c % 256) in
      let e : i.e ≡ (i.w + edit_length i) % uint_mod = omega (arith, v.w_in, v.e_in) in
      let m : c % 256 ≡ c = omega arith in
      ap (window b i.w) edit_length-put_char
      ∙ window-snoc b (edit_length i) i.w i.e v.w_in e
      ∙ ap₂ (λ xs x. xs ++ x ∷ [])
          (window-update i.buf (c % 256) (edit_length i) i.w (i.e % input_buf) v.w_in
            (λ j h. omega (arith, v.r_in, v.w_in, v.e_in, v.fits, sum_length i v)))
          (ground (arith, m))

  put_char-IsValid : c ≢ newline → IsValid (put_char c i)
  unfolding put_char
  put_char-IsValid n = record {
    r_in = v.r_in;
    w_in = v.w_in;
    e_in = omega arith;
    fits = omega (arith, v.fits, sum_length i v, edit_length-put_char);
    one_line = λ j h.
        let l : j < suc (edit_length i) = omega (arith, edit_length-put_char) in
        elim (Bool-cases (i.e % input_buf == (i.w + j) % uint_mod % input_buf)) [
          | inl q ↦ ground (arith, q, small)
          | inr q ↦
              let m : i.e % input_buf ≢ (i.w + j) % uint_mod % input_buf = ground arith in
              let before : j < edit_length i = omega (arith, v.w_in, v.e_in) in
              ground (arith, q, v.one_line j before)
        ];
  }

  -- The line that ends with the character is handed over.
  finish-IsValid : IsValid (finish_line (put_char c i))
  unfolding put_char finish_line
  finish-IsValid = record {
    r_in = v.r_in;
    w_in = omega arith;
    e_in = omega arith;
    fits = omega (arith, v.fits, sum_length i v, edit_length-put_char, v.r_in, v.w_in, v.e_in);
    one_line = λ j h. absurd (omega arith);
  }

  view-finish_line :
      view (finish_line (put_char c i))
      ≡ record { done = ready i ++ (editing i ++ c ∷ []); line = [] }
  unfolding view put_char
  view-finish_line =
      let j = put_char c i in
      let k : (j.e + uint_mod - i.r) % uint_mod ≡ ready_length i + edit_length j =
        unfold put_char in
        omega (arith, v.r_in, v.w_in, v.e_in, v.fits, sum_length i v, edit_length-put_char) in
      let at : (i.r + ready_length i) % uint_mod ≡ i.w = omega (arith, v.r_in, v.w_in) in
      let z : (j.e + uint_mod - j.e) % uint_mod ≡ 0 = unfold put_char in omega arith in
      let whole : ready (finish_line j) ≡ ready j ++ editing j =
        unfold ready editing finish_line in
        ap (window j.buf i.r) k
        ∙ window-append j.buf (ready_length i) (edit_length j) i.r v.r_in
        ∙ ap (λ q. window j.buf i.r (ready_length i) ++ window j.buf q (edit_length j)) at in
      let none_left : editing (finish_line j) ≡ [] =
        unfold editing finish_line in ap (window j.buf j.e) z in
      ground (arith, whole, none_left, ready-put_char, editing-put_char)

  -- The ring is full exactly if the editor has no room left.
  pub ends_same :
      ((put_char c i).e == ((put_char c i).r + input_buf) % uint_mod)
      ≡ (length (ready i) + length (editing i ++ c ∷ []) == input_buf)
  unfolding put_char
  ends_same =
      let n = length-append (editing i) (c ∷ []) in
      let l : length (ready i) + length (editing i ++ c ∷ []) ≡ used_length i + 1 =
        omega (arith, n, length-view i v) in
      let r = v.r_in in let e = v.e_in in rw l (ground (arith, room))

  pub typed-IsValid-view :
      (b : Bool)
      → (b ≡ true ⊎ c ≢ newline)
      → IsValid (if b then finish_line (put_char c i) else put_char c i)
        × (view (if b then finish_line (put_char c i) else put_char c i) ≡ (
            if b
            then record { done = ready i ++ (editing i ++ c ∷ []); line = [] }
            else record (view i) { line = editing i ++ c ∷ [] }))
  unfolding view
  typed-IsValid-view true h = (finish-IsValid, view-finish_line)
  typed-IsValid-view false h =
      (put_char-IsValid (ground arith), ground (arith, ready-put_char, editing-put_char))
