-- ===== src/Bcache/Unique.antt =====
-- bget and brelse of bio.c: no block has two buffers, and none is lost from the list.
use operating_systems_projec.Prelude.{
  count, ℕ, suc, ◌+◌, ◌-◌, ◌%◌, ◌^◌, ◌<◌, ◌≡◌, ◌≢◌, refl, ap, ◌⊎◌, inl, inr, Bool, true, false,
  Option, none, some, ◌∷◌, ◌==◌, ltb, if◌then◌else◌, arith,
}
use operating_systems_projec.Prelude.Kernel.{Locked, Outcome, ok, asleep, panic, locked, unlocked}
use operating_systems_projec.Sleeplock.{Sleeplock, acquiresleep, releasesleep, holdingsleep}
use operating_systems_projec.Bcache.{
  Buf, Bcache, nbuf, uint_mod, set_buf, find_cached, find_unused, is_reusable, recycle, get_locked,
  get_chosen, bget, unlink, put_back, brelse,
}
use operating_systems_projec.Bcache.Lru.{
  is_block, Finds, find_cached_lem, find_unused_lem, count-unlink,
}

-- Every buffer is in the list once, no block of a real device has two, and the spin locks of the
-- buffers' sleep locks are free.
pub record IsValid (c : Bcache) : Type 0 where
  pub listed : (i : ℕ) → count i c.order ≡ (if ltb i nbuf then 1 else 0)
  pub unique :
      (i j : ℕ)
      → i < nbuf
      → j < nbuf
      → 0 < (c.buf i).dev
      → (c.buf i).dev ≡ (c.buf j).dev
      → (c.buf i).blockno ≡ (c.buf j).blockno
      → i ≡ j
  pub free : (i : ℕ) → (c.buf i).lock.held ≡ false

-- Buffer `b` is handed out locked by `me`, or the caller sleeps on its lock.
abbrev pub Locks : (me b : ℕ) → Outcome ℕ (Locked Bcache) ℕ → Bcache → Bcache → Type 0
Locks me b o c d =
    ((o ≡ ok b (unlocked d))
      × ((c.buf b).lock.guarded.locked ≡ false)
      × ((d.buf b).lock.guarded.locked ≡ true)
      × ((d.buf b).lock.guarded.pid ≡ me))
    ⊎ ((o ≡ asleep b (unlocked d))
        × ((c.buf b).lock.guarded.locked ≡ true)
        × ((d.buf b).lock.guarded ≡ (c.buf b).lock.guarded))

-- From `c` to `d`, buffer `b` becomes `x`, but for its lock, and nothing else changes.
pub record Gets (me b : ℕ) (x : Buf) (o : Outcome ℕ (Locked Bcache) ℕ) (c d : Bcache) : Type 0 where
  pub locks : Locks me b o c d
  pub same : d.order ≡ c.order
  pub others : (j : ℕ) → b ≢ j → d.buf j ≡ c.buf j
  pub this : d.buf b ≡ record x { lock = (d.buf b).lock }
  pub spin : (d.buf b).lock.held ≡ false

get_locked_lem :
    (me b : ℕ) (f : Buf → Buf) (c : Bcache)
    → (f (c.buf b)).lock ≡ (c.buf b).lock
    → (c.buf b).lock.held ≡ false
    → (d : Bcache) × Gets me b (f (c.buf b)) (get_locked me b f (locked c)) c d
unfolding get_locked acquiresleep
get_locked_lem me b f c e h = branch (c.buf b).lock.guarded.locked refl
  where
    branch :
        (t : Bool)
        → (c.buf b).lock.guarded.locked ≡ t
        → (d : Bcache) × Gets me b (f (c.buf b)) (get_locked me b f (locked c)) c d
    branch true p =
        let d : Bcache =
          set_buf b (λ x. record x { lock = unlocked x.lock.guarded }) (set_buf b f c) in
        (
          d,
          record {
            locks = inr (ground arith, p, ground arith);
            same = refl;
            others = λ j n. ground arith;
            this = ground arith;
            spin = ground arith;
          },
        )
    branch false p =
        let d : Bcache =
          set_buf b
            (λ x. record x { lock = unlocked (record x.lock.guarded { locked = true; pid = me }) })
            (set_buf b f c) in
        (
          d,
          record {
            locks = inl (ground arith, p, ground arith, ground arith);
            same = refl;
            others = λ j n. ground arith;
            this = ground arith;
            spin = ground arith;
          },
        )

-- A buffer that changes keeps the table valid if its new block is in no other buffer.
Gets-IsValid :
    (me b : ℕ) (x : Buf) (o : Outcome ℕ (Locked Bcache) ℕ) (c d : Bcache)
    → IsValid c
    → ((j : ℕ)
        → j < nbuf
        → b ≢ j
        → x.dev ≡ (c.buf j).dev
        → x.blockno ≡ (c.buf j).blockno
        → (0 < x.dev)
        → ⊥)
    → Gets me b x o c d
    → IsValid d
Gets-IsValid me b x o c d v new g = record {
  listed = λ i. ground (arith, v.listed i, g.same);
  unique = λ i j. ground (
    arith,
    v.unique i j,
    g.others i,
    g.others j,
    g.this,
    new i,
    new j,
    ap (λ y. y.dev) g.this,
    ap (λ y. y.blockno) g.this,
  );
  free = λ i. ground (arith, v.free i, g.others i, g.spin);
}

-- No buffer can be had for the block: each holds another one and is used or dirty.
abbrev pub Full : (dev blockno : ℕ) → Bcache → Type 0
Full dev blockno c =
    (i : ℕ) → i < nbuf → (is_block dev blockno (c.buf i) ≡ false) × (is_reusable (c.buf i) ≡ false)

-- A buffer that is assigned to a block anew: it holds nothing of it yet, and has one reference.
abbrev pub assigned : (dev blockno : ℕ) → Locked Sleeplock → Buf
assigned dev blockno lock = record {
  valid = false;
  dirty = false;
  dev = dev;
  blockno = blockno;
  refcnt = 1;
  lock = lock;
}

-- The outcome `o` hands out buffer `b` of the block, or one that becomes the block's.
abbrev pub Hands : (me dev blockno : ℕ) → Outcome ℕ (Locked Bcache) ℕ → Bcache → Bcache → ℕ → Type 0
Hands me dev blockno o c d b =
    ((is_block dev blockno (c.buf b) ≡ true)
      × Gets me b (record (c.buf b) { refcnt = ((c.buf b).refcnt + 1) % uint_mod }) o c d)
    ⊎ (((i : ℕ) → i < nbuf → is_block dev blockno (c.buf i) ≡ false)
        × (is_reusable (c.buf b) ≡ true)
        × Gets me b (assigned dev blockno (c.buf b).lock) o c d)

get_chosen_lem :
    (me dev blockno : ℕ) (c : Bcache)
    → IsValid c
    → 0 < dev
    → (o : Option ℕ) → Finds (is_block dev blockno) c.buf c.order o
    → (u : Option ℕ) → Finds is_reusable c.buf c.order u
    → ((get_chosen me dev blockno o u (locked c) ≡ panic) × Full dev blockno c)
      ⊎ ((b : ℕ) × (d : Bcache) × (b < nbuf)
          × IsValid d
          × Hands me dev blockno (get_chosen me dev blockno o u (locked c)) c d b)
unfolding get_chosen
get_chosen_lem me dev blockno c v h (some b) (k, m) u w =
    let (d, g) =
      get_locked_lem me b (λ x. record x { refcnt = (x.refcnt + 1) % uint_mod }) c refl
        (v.free b) in
    inr (
      b,
      d,
      ground (arith, v.listed b),
      Gets-IsValid me b _ _ c d v (λ j. ground (arith, v.unique b j, v.listed b)) g,
      inl (m, g),
    )
get_chosen_lem me dev blockno c v h none n (some b) (k, m) =
    let (d, g) = get_locked_lem me b (recycle dev blockno) c refl (v.free b) in
    inr (
      b,
      d,
      ground (arith, v.listed b),
      Gets-IsValid me b _ _ c d v (λ j. ground (arith, n j, v.listed j)) g,
      inr (λ i. ground (arith, n i, v.listed i), m, g),
    )
get_chosen_lem me dev blockno c v h none n none w =
    inl (refl, λ i p. (ground (arith, n i, v.listed i), ground (arith, w i, v.listed i)))

-- bget of a block of a real device, on a valid cache whose lock is free, either panics, and then no
-- buffer holds the block and each is used or dirty; or it changes one buffer, the one of the
-- block, with its count one more as a uint, or, if there is none, an unused clean one that becomes the
-- block's with one reference and no contents yet, which it hands out locked by `me`, or whose lock the caller sleeps
-- on. The cache stays valid.
pub bget_lem :
    (me dev blockno : ℕ) (c : Bcache)
    → IsValid c
    → 0 < dev
    → ((bget me dev blockno (unlocked c) ≡ panic) × Full dev blockno c)
      ⊎ ((b : ℕ) × (d : Bcache) × (b < nbuf)
          × IsValid d
          × Hands me dev blockno (bget me dev blockno (unlocked c)) c d b)
unfolding bget
bget_lem me dev blockno c v h =
    get_chosen_lem me dev blockno c v h (find_cached dev blockno c.buf c.order)
      (find_cached_lem dev blockno c.buf c.order) (find_unused c.buf c.order)
      (find_unused_lem c.buf c.order)

-- brelse by the holder of a buffer with a reference to it, on a valid cache whose lock is free: it does
-- not panic, frees the buffer's lock and drops one reference; with the last one the buffer moves to the front of the
-- list. No other buffer changes, the lock of the cache is free again, and the cache stays valid.
pub brelse_lem :
    (me b : ℕ) (c : Bcache)
    → IsValid c
    → b < nbuf
    → (c.buf b).lock.guarded.locked ≡ true
    → (c.buf b).lock.guarded.pid ≡ me
    → 0 < (c.buf b).refcnt
    → (c.buf b).refcnt < 2 ^ 32
    → (d : Bcache) × (brelse me b (unlocked c) ≡ ok tt (unlocked d))
      × IsValid d
      × ((j : ℕ) → b ≢ j → d.buf j ≡ c.buf j)
      × (d.buf b ≡ record (c.buf b) { refcnt = (c.buf b).refcnt - 1; lock = (d.buf b).lock })
      × ((d.buf b).lock.guarded.locked ≡ false)
      × (d.order ≡ (if (c.buf b).refcnt == 1 then b ∷ unlink b c.order else c.order))
unfolding brelse holdingsleep releasesleep put_back
brelse_lem me b c v q l e p m = (
  put_back b (
      set_buf b
        (λ x. record x {
          lock =
              unlocked (record { locked = false; pid = 0; wakeups = suc x.lock.guarded.wakeups });
        })
        c),
  ground (arith, v.free b),
  record {
    listed = λ i. ground (arith, v.listed i, v.listed b, count-unlink b c.order i);
    unique = λ i j. ground (arith, v.unique i j);
    free = λ i. ground (arith, v.free i);
  },
  ground arith,
  ground arith,
  ground arith,
  ground arith,
)
