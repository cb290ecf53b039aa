-- ===== src/Bcache.antt =====
-- The buffer cache of Project 1/xv6-public/bio.c: binit, bget and brelse. The circular list through
-- `next` and `prev` is `order`, the indices of its buffers in `next` order from `head.next` on. What a
-- buffer holds, and the disk queue, are left out. A reference count is a `uint` and wraps at 2 ^ 32.
mod Tests
pub mod Lru
pub mod Unique
pub mod Init
use operating_systems_projec.Prelude.{
  ℕ, zero, suc, ◌+◌, ◌-◌, ◌%◌, ◌^◌, Bool, false, not, ◌&&◌, Option, none, some, List, [], ◌∷◌, ◌==◌,
  if◌then◌else◌, update,
}
use operating_systems_projec.Prelude.Kernel.{
  Kernel, Locked, ok, asleep, panic, acquire, release, look, change, pure, panic_if, ◌>>=◌, ◌>>◌,
}
use operating_systems_projec.Sleeplock.{
  Sleeplock, SleepK, initsleeplock, acquiresleep, releasesleep, holdingsleep,
}

abbrev pub nbuf : ℕ
nbuf = 30

-- `struct buf`; `valid` and `dirty` are the bits B_VALID and B_DIRTY of its flags.
pub record Buf : Type 0 where
  pub valid : Bool
  pub dirty : Bool
  pub dev : ℕ
  pub blockno : ℕ
  pub refcnt : ℕ
  pub lock : Locked Sleeplock

pub record Bcache : Type 0 where
  pub buf : ℕ → Buf
  pub order : List ℕ

-- A process that sleeps on the lock of a buffer goes on in its acquiresleep.
abbrev pub BcacheK : Type 0 → Type 0
BcacheK A = Kernel ℕ (Locked Bcache) A

abbrev pub set_buf : ℕ → (Buf → Buf) → Bcache → Bcache
set_buf b f c = record c { buf = update c.buf b (f (c.buf b)) }

-- A call on the sleep lock of buffer `b`.
abbrev pub on_lock : {A : Type 0} → ℕ → SleepK A → BcacheK A
on_lock b m s =
    let put : Locked Sleeplock → Locked Bcache =
      λ l. record s { guarded = set_buf b (λ x. record x { lock = l }) s.guarded } in
    elim (m (s.guarded.buf b).lock) [
      | ok a l ↦ ok a (put l)
      | asleep r l ↦ asleep b (put l)
      | panic ↦ panic
    ]

-- The body of the loop of binit.
pub init_buf : ℕ → Bcache → Bcache
unfolding initsleeplock
init_buf b c = record (set_buf b (λ x. record x { lock = initsleeplock x.lock.guarded }) c) {
  order = b ∷ c.order;
}

pub binit_from : (rounds b : ℕ) → Bcache → Bcache
unfolding init_buf
binit_from zero b c = c
binit_from (suc r) b c = binit_from r (b + 1) (init_buf b c)

pub binit : (ℕ → Buf) → Bcache
unfolding binit_from
binit buf = binit_from nbuf 0 (record { buf = buf; order = [] })

-- The first scan of bget, from `head.next` on.
pub find_cached : (dev blockno : ℕ) → (ℕ → Buf) → List ℕ → Option ℕ
find_cached dev blockno buf [] = none
find_cached dev blockno buf (b ∷ bs) =
    let rest = find_cached dev blockno buf bs in
    if (buf b).dev == dev && (buf b).blockno == blockno then some b else rest

abbrev pub is_reusable : Buf → Bool
is_reusable b = b.refcnt == 0 && not b.dirty

-- The second scan of bget, which starts at the other end.
pub find_unused : (ℕ → Buf) → List ℕ → Option ℕ
find_unused buf [] = none
find_unused buf (b ∷ bs) = elim (find_unused buf bs) [
  | some i ↦ some i
  | none ↦ if is_reusable (buf b) then some b else none
]

abbrev pub uint_mod : ℕ
uint_mod = 2 ^ 32

abbrev pub recycle : (dev blockno : ℕ) → Buf → Buf
recycle dev blockno b = record b {
  dev = dev;
  blockno = blockno;
  valid = false;
  dirty = false;
  refcnt = 1;
}

-- The way out of bget with buffer `b`.
pub get_locked : (me b : ℕ) → (Buf → Buf) → BcacheK ℕ
get_locked me b f = do change (set_buf b f); release; on_lock b (acquiresleep me); pure b

-- The buffer of the block if the first scan found it, and else the one that the second found.
pub get_chosen : (me dev blockno : ℕ) → (cached unused : Option ℕ) → BcacheK ℕ
get_chosen me dev blockno (some b) unused =
    get_locked me b (λ x. record x { refcnt = (x.refcnt + 1) % uint_mod })
get_chosen me dev blockno none (some b) = get_locked me b (recycle dev blockno)
get_chosen me dev blockno none none = λ s. panic

-- bget by process `me`.
pub bget : (me dev blockno : ℕ) → BcacheK ℕ
bget me dev blockno = do
  acquire
  c ← look
  get_chosen me dev blockno (find_cached dev blockno c.buf c.order) (find_unused c.buf c.order)

-- The buffer leaves its place in the list.
pub unlink : ℕ → List ℕ → List ℕ
unlink b [] = []
unlink b (x ∷ xs) = let rest = x ∷ unlink b xs in if x == b then xs else rest

-- The critical section of brelse.
pub put_back : ℕ → Bcache → Bcache
unfolding unlink
put_back b c =
    let d = set_buf b (λ x. record x { refcnt = (x.refcnt + uint_mod - 1) % uint_mod }) c in
    if (d.buf b).refcnt == 0 then record d { order = b ∷ unlink b d.order } else d

-- brelse by process `me`.
pub brelse : (me b : ℕ) → BcacheK (Unit {0})
brelse me b = do
  mine ← on_lock b (holdingsleep me)
  panic_if (not mine)
  on_lock b releasesleep
  acquire
  change (put_back b)
  release
