-- ===== src/Kalloc.antt =====
-- Project 1/xv6-public/kalloc.c. Memory is a 32-bit word at each aligned address, so that the free
-- list is threaded through the pages as in the source; `end`, the first address behind the kernel,
-- comes from the linker.
mod Tests
pub mod Pages
use operating_systems_projec.Prelude.{
  kernbase, ℕ, zero, suc, ◌+◌, ◌-◌, ◌*◌, ◌/◌, ◌%◌, ◌^◌, Bool, true, false, not, ◌&&◌, ◌||◌, ◌==◌,
  ltb, leb, if◌then◌else◌, update,
}
use operating_systems_projec.Prelude.Kernel.{
  Kernel, Locked, acquire, release, look, change, pure, panic_if, ◌>>=◌, ◌>>◌,
}

abbrev pub pgsize : ℕ
pgsize = 4096

abbrev pub phystop : ℕ
phystop = 0xE000000

abbrev pub v2p : ℕ → ℕ
v2p v = (v + 2 ^ 32 - kernbase) % 2 ^ 32

abbrev pub pgroundup : ℕ → ℕ
pgroundup a = (a + pgsize - 1) % 2 ^ 32 / pgsize * pgsize

-- `kmem`, and the memory that the list runs through; a null pointer is 0.
pub record Kmem : Type 0 where
  pub use_lock : Bool
  pub freelist : ℕ
  pub mem : ℕ → ℕ

-- Nothing sleeps here.
abbrev pub KmemK : Type 0 → Type 0
KmemK A = Kernel ⊥ (Locked Kmem) A

-- `if(kmem.use_lock) acquire(&kmem.lock)`, and the same for release.
abbrev pub if_locking : KmemK (Unit {0}) → KmemK (Unit {0})
if_locking f s = (if s.guarded.use_lock then f else pure tt) s

-- `memset(v, 1, PGSIZE)`, on words.
abbrev pub junk : ℕ → (ℕ → ℕ) → ℕ → ℕ
junk v mem a = if leb v a && ltb a (v + pgsize) then 0x01010101 else mem a

-- What kfree panics on.
abbrev pub is_bad : (end v : ℕ) → Bool
is_bad end v = not (v % pgsize == 0) || ltb v end || leb phystop (v2p v)

pub kfree : (end v : ℕ) → KmemK (Unit {0})
kfree end v = do
  panic_if (is_bad end v)
  change (λ k. record k { mem = junk v k.mem })
  if_locking acquire
  change (λ k. record k { mem = update k.mem v k.freelist; freelist = v })
  if_locking release

pub kalloc : KmemK ℕ
kalloc = do
  if_locking acquire
  k ← look
  change (λ k. if k.freelist == 0 then k else record k { freelist = k.mem k.freelist })
  if_locking release
  pure k.freelist

-- The loop of freerange. `p` grows by a page a round, so `vend / pgsize` rounds reach the end.
pub freerange_from : (rounds end p vend : ℕ) → KmemK (Unit {0})
freerange_from zero end p vend = pure tt
freerange_from (suc r) end p vend =
    let rest = freerange_from r end (p + pgsize) vend in
    if leb (p + pgsize) vend then (do kfree end p; rest) else pure tt

pub freerange : (end vstart vend : ℕ) → KmemK (Unit {0})
unfolding freerange_from
freerange end vstart vend = freerange_from (vend / pgsize) end (pgroundup vstart) vend

-- `initlock(&kmem.lock, "kmem")`
abbrev pub init_lock : KmemK (Unit {0})
init_lock s = pure tt (record s { held = false })

pub kinit1 : (end vstart vend : ℕ) → KmemK (Unit {0})
unfolding freerange
kinit1 end vstart vend = do
  init_lock
  change (λ k. record k { use_lock = false })
  freerange end vstart vend

pub kinit2 : (end vstart vend : ℕ) → KmemK (Unit {0})
unfolding freerange
kinit2 end vstart vend = do freerange end vstart vend; change (λ k. record k { use_lock = true })
