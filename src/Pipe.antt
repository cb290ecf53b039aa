-- ===== src/Pipe.antt =====
-- `struct pipe` of Project 1/xv6-public/pipe.c with pipeclose, pipewrite and piperead.
-- `uint` counters wrap at 2 ^ 32. A result -1 is `none`. The buffer argument of a write is the list
-- of its bytes from `addr[i]` on; a read returns the list of the bytes that it stores at `addr`.
mod Tests
pub mod Contents
pub mod Refine
pub mod Traffic
use operating_systems_projec.Prelude.{
  ℕ, zero, suc, ◌+◌, ◌%◌, ◌^◌, ◌≡◌, Bool, true, false, not, ◌&&◌, ◌||◌, List, [], ◌∷◌, Option, none,
  some, ◌==◌, if◌then◌else◌, update, length,
}
use operating_systems_projec.Prelude.Kernel.{
  Kernel, Locked, acquire, release, look, change, sleep, pure, ◌>>=◌, ◌>>◌,
}

abbrev pub pipesize : ℕ
pipesize = 512

abbrev pub uint_mod : ℕ
uint_mod = 2 ^ 32

-- The channels `&p->nread` and `&p->nwrite`.
pub data Chan : Type 0 where
  nread_chan nwrite_chan : Chan

-- `woken` lists the channels on which `wakeup` was called, the last call first.
pub record Pipe : Type 0 where
  pub bytes : ℕ → ℕ
  pub nread : ℕ
  pub nwrite : ℕ
  pub readopen : Bool
  pub writeopen : Bool
  pub woken : List Chan

-- Where a sleeping call goes on: a write with the bytes that are left, a read at its loop test.
pub data Waits : Type 0 where
  for_room : List ℕ → Waits
  for_data : Waits

abbrev pub PipeK : Type 0 → Type 0
PipeK A = Kernel Waits (Locked Pipe) A

abbrev pub wakeup : Chan → Pipe → Pipe
wakeup c p = record p { woken = c ∷ p.woken }

-- What pipealloc writes into a fresh page; `junk` is what the page held.
pub fresh : (ℕ → ℕ) → Pipe
fresh junk = record {
  bytes = junk;
  nread = 0;
  nwrite = 0;
  readopen = true;
  writeopen = true;
  woken = [];
}

abbrev pub close_end : Bool → Pipe → Pipe
close_end writable p =
    if writable
    then wakeup nread_chan (record p { writeopen = false })
    else wakeup nwrite_chan (record p { readopen = false })

-- The result says whether the page goes to kfree.
pub pipeclose : Bool → PipeK Bool
pipeclose writable = do
  acquire
  change (close_end writable)
  p ← look
  release
  pure (not p.readopen && not p.writeopen)

-- `nwrite == nread + PIPESIZE`, in `uint` arithmetic.
abbrev pub is_full : Pipe → Bool
is_full p = p.nwrite == (p.nread + pipesize) % uint_mod

abbrev pub is_empty : Pipe → Bool
is_empty p = p.nread == p.nwrite

-- `p->data[p->nwrite++ % PIPESIZE] = x`
pub put_byte : ℕ → Pipe → Pipe
put_byte x p = record p {
  bytes = update p.bytes (p.nwrite % pipesize) x;
  nwrite = (p.nwrite + 1) % uint_mod;
}

-- `p->nread++`, and the byte at the old index.
abbrev pub next_byte : Pipe → ℕ
next_byte p = p.bytes (p.nread % pipesize)

pub drop_byte : Pipe → Pipe
drop_byte p = record p { nread = (p.nread + 1) % uint_mod }

-- The body of the inner loop of pipewrite, on a full pipe.
pub write_full : Bool → List ℕ → PipeK (Option ℕ)
write_full killed xs = do
  p ← look
  if not p.readopen || killed
      then (do release; pure none)
      else (do change (wakeup nread_chan); sleep (for_room xs))

-- The loop of pipewrite from `addr[i]` on, with the code behind it; `n` is the call's argument and
-- `killed` is `myproc()->killed`.
pub write_loop : (n : ℕ) (killed : Bool) → List ℕ → PipeK (Option ℕ)
unfolding write_full put_byte
write_loop n killed [] = do change (wakeup nread_chan); release; pure (some n)
write_loop n killed (x ∷ xs) =
    let rest = (do change (put_byte x); write_loop n killed xs) in
    do p ← look; if is_full p then write_full killed (x ∷ xs) else rest

pub pipewrite : Bool → List ℕ → PipeK (Option ℕ)
unfolding write_loop
pipewrite killed xs = do acquire; write_loop (length xs) killed xs

-- A write that slept, woken with the bytes `xs` left: `sleep` takes the lock again.
pub write_again : ℕ → Bool → List ℕ → PipeK (Option ℕ)
unfolding write_loop
write_again n killed xs = do acquire; write_loop n killed xs

-- The copying loop of piperead, for at most `n` more bytes.
pub copy_loop : ℕ → Pipe → List ℕ × Pipe
copy_loop zero p = ([], p)
copy_loop (suc n) p =
    let rest = copy_loop n (drop_byte p) in
    if is_empty p then ([], p) else (next_byte p ∷ rest.0, rest.1)

pub copy_out : ℕ → PipeK (Option (List ℕ))
unfolding copy_loop
copy_out n = do
  p ← look
  change (λ q. (copy_loop n q).1)
  change (wakeup nwrite_chan)
  release
  pure (some (copy_loop n p).0)

-- A read that slept enters here again, since its loop tests first.
pub piperead : Bool → ℕ → PipeK (Option (List ℕ))
unfolding copy_out
piperead killed n = do
  acquire
  p ← look
  if is_empty p && p.writeopen
      then (if killed then (do release; pure none) else sleep for_data)
      else copy_out n
