-- ===== src/Bcache/Init.antt =====
-- binit of bio.c.
use operating_systems_projec.Prelude.{
  count, ℕ, zero, suc, ◌+◌, ◌≡◌, ◌&&◌, leb, false, [], ltb, if◌then◌else◌, arith,
}
use operating_systems_projec.Sleeplock.{initsleeplock}
use operating_systems_projec.Bcache.{Buf, Bcache, nbuf, binit, binit_from, init_buf}
use operating_systems_projec.Bcache.Unique.{IsValid}

-- The loop of binit puts the buffers from `b` on into the list, each once.
count-binit_from :
    (rounds b : ℕ) (c : Bcache) (i : ℕ)
    → count i (binit_from rounds b c).order
      ≡ count i c.order + (if leb b i && ltb i (b + rounds) then 1 else 0)
unfolding binit_from init_buf
count-binit_from zero b c i = ground arith
count-binit_from (suc r) b c i = ground (arith, count-binit_from r (b + 1) (init_buf b c) i)

binit_from_blank :
    (rounds b : ℕ) (c : Bcache)
    → ((i : ℕ) → ((c.buf i).dev ≡ 0) × ((c.buf i).lock.held ≡ false))
    → (i : ℕ)
    → (((binit_from rounds b c).buf i).dev ≡ 0)
      × (((binit_from rounds b c).buf i).lock.held ≡ false)
unfolding binit_from init_buf initsleeplock
binit_from_blank zero b c h = h
binit_from_blank (suc r) b c h =
    binit_from_blank r (b + 1) (init_buf b c) (λ i. ground (arith, h i))

-- binit, on the cleared memory that the kernel starts with, builds a valid cache.
pub binit-IsValid :
    (buf : ℕ → Buf)
    → ((i : ℕ) → (buf i).dev ≡ 0)
    → ((i : ℕ) → (buf i).lock.held ≡ false)
    → IsValid (binit buf)
unfolding binit
binit-IsValid buf z h =
    let c : Bcache = record { buf = buf; order = [] } in
    let blank = binit_from_blank nbuf 0 c (λ i. (z i, h i)) in
    record {
      listed = λ i. ground (arith, count-binit_from nbuf 0 c i);
      unique = λ i j. ground (arith, (blank i).0);
      free = λ i. (blank i).1;
    }
