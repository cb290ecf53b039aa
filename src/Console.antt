-- ===== src/Console.antt =====
-- The line editing of Project 1/xv6-public/console.c: consoleintr and consoleread on the ring `input`.
-- The characters that getc gives are a list; it has none left where getc returns a negative number.
-- `uint` indices wrap at 2 ^ 32. What consputc is called with is recorded, the last call first.
mod Tests
pub mod Ring
pub mod Editing
pub mod Typing
pub mod Refine
pub mod Text
pub mod Reading
use operating_systems_projec.Prelude.{
  ℕ, zero, suc, ◌+◌, ◌-◌, ◌%◌, ◌^◌, Bool, false, not, ◌&&◌, ◌||◌, List, [], ◌∷◌, ◌++◌, Option, none,
  some, ◌==◌, ltb, if◌then◌else◌, update,
}
use operating_systems_projec.Prelude.Kernel.{
  Kernel, Locked, acquire, release, look, change, sleep, pure, ◌>>=◌, ◌>>◌,
}

abbrev pub input_buf : ℕ
input_buf = 128

abbrev pub uint_mod : ℕ
uint_mod = 2 ^ 32

abbrev pub backspace : ℕ
backspace = 0x100

-- C('D'), C('H'), C('P'), C('U') and delete.
abbrev pub ctrl_d : ℕ
ctrl_d = 4

abbrev pub ctrl_h : ℕ
ctrl_h = 8

abbrev pub ctrl_p : ℕ
ctrl_p = 16

abbrev pub ctrl_u : ℕ
ctrl_u = 21

abbrev pub delete : ℕ
delete = 0x7f

abbrev pub newline : ℕ
newline = 10

abbrev pub carriage_return : ℕ
carriage_return = 13

-- `input`, the calls of consputc, and the calls of `wakeup(&input.r)`.
pub record Input : Type 0 where
  pub buf : ℕ → ℕ
  pub r : ℕ
  pub w : ℕ
  pub e : ℕ
  pub echo : List ℕ
  pub wakeups : ℕ

-- `input.e--; consputc(BACKSPACE)`
unfoldable pub rub_out : Input → Input
rub_out i = record i { e = (i.e + uint_mod - 1) % uint_mod; echo = backspace ∷ i.echo }

-- `input.e - input.w` and `input.e - input.r`
abbrev pub edit_length : Input → ℕ
edit_length i = (i.e + uint_mod - i.w) % uint_mod

abbrev pub used_length : Input → ℕ
used_length i = (i.e + uint_mod - i.r) % uint_mod

-- The loop for C('U'): it stops at the write index after `e - w` rounds at most.
unfoldable pub kill_line : (rounds : ℕ) → Input → Input
unfolding rub_out
kill_line zero i = i
kill_line (suc n) i =
    let rest = kill_line n (rub_out i) in
    if not (i.e == i.w) && not (i.buf ((i.e + uint_mod - 1) % uint_mod % input_buf) == newline)
    then rest
    else i

-- `input.buf[input.e++ % INPUT_BUF] = c; consputc(c);`
unfoldable pub put_char : ℕ → Input → Input
put_char c i = record i {
  buf = update i.buf (i.e % input_buf) (c % 256);
  e = (i.e + 1) % uint_mod;
  echo = c ∷ i.echo;
}

-- `input.w = input.e; wakeup(&input.r);`
unfoldable pub finish_line : Input → Input
finish_line i = record i { w = i.e; wakeups = suc i.wakeups }

abbrev pub as_newline : ℕ → ℕ
as_newline c = if c == carriage_return then newline else c

-- The `default` case.
unfoldable pub type_char : ℕ → Input → Input
type_char c i =
    if not (c == 0) && ltb (used_length i) input_buf
    then (let d = as_newline c in
        let j = put_char d i in
        if d == newline || (d == ctrl_d || j.e == (j.r + input_buf) % uint_mod)
        then finish_line j
        else j)
    else i

-- The body of the loop of consoleintr.
unfoldable pub key : ℕ → Input → Input
key c i =
    if c == ctrl_p
    then i
    else if c == ctrl_u
    then kill_line (edit_length i) i
    else if c == ctrl_h || c == delete
    then (if i.e == i.w then i else rub_out i)
    else type_char c i

unfoldable pub keys : List ℕ → Input → Input
keys [] i = i
keys (c ∷ cs) i = keys cs (key c i)

-- Whether the process listing is to be printed behind the release of the lock.
unfoldable pub wants_listing : List ℕ → Bool
wants_listing [] = false
wants_listing (c ∷ cs) = c == ctrl_p || wants_listing cs

-- A reader that sleeps: the number of bytes that it still wants, and those that it has stored.
pub record Waits : Type 0 where
  pub left : ℕ
  pub got : List ℕ

abbrev pub ConsoleK : Type 0 → Type 0
ConsoleK A = Kernel Waits (Locked Input) A

unfoldable pub consoleintr : List ℕ → ConsoleK Bool
consoleintr cs = do acquire; change (keys cs); release; pure (wants_listing cs)

abbrev pub next_char : Input → ℕ
next_char i = i.buf (i.r % input_buf)

abbrev pub step_back : Input → Input
step_back i = record i { r = (i.r + uint_mod - 1) % uint_mod }

abbrev pub step_on : Input → Input
step_on i = record i { r = (i.r + 1) % uint_mod }

-- The loops of consoleread with `n` of `target` bytes to go and `got` stored: the bytes, or `none`
-- for -1. One that slept enters here again.
unfoldable pub read_loop :
    (killed : Bool) → (target n : ℕ) → (got : List ℕ) → ConsoleK (Option (List ℕ))
read_loop killed target zero got = do release; pure (some got)
read_loop killed target (suc n) got =
    let rest = λ (c : ℕ). read_loop killed target n (got ++ c ∷ []) in
    do
      i ← look
      if i.r == i.w
          then (if killed
              then (do release; pure none)
              else sleep (record { left = suc n; got = got }))
          else (do
            change step_on
            if next_char i == ctrl_d
                then (do
                  if ltb (suc n) target then change step_back else pure tt
                  release
                  pure (some got))
                else if next_char i == newline
                then (do release; pure (some (got ++ newline ∷ [])))
                else rest (next_char i))

-- consoleread between the iunlock and the ilock of the inode.
unfoldable pub consoleread : (killed : Bool) → (n : ℕ) → ConsoleK (Option (List ℕ))
consoleread killed n = do acquire; read_loop killed n n []
