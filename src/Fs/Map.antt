-- ===== src/Fs/Map.antt =====
-- The two ways in which bmap allocates: an address in the inode, and one in the indirect block.
use operating_systems_projec.Prelude.{
  ℕ, ◌+◌, ◌-◌, ◌<◌, ◌≡◌, ◌≢◌, refl, ap, ◌⊎◌, inl, inr, ◌==◌, update, arith, Bool-cases,
}
use mathlib.Core.Path.{subst}
use operating_systems_projec.Prelude.Kernel.{Outcome, ok, panic}
use operating_systems_projec.Fs.{Block, Disk, bblock}
use operating_systems_projec.Fs.Bitmap.{used, IsDisk, Allocates, balloc_lem}
use operating_systems_projec.Fs.Words.{get_word, put_word, get_word-put_word}
use operating_systems_projec.Fs.Inode.{Work, ndirect, nindirect, slot}
use operating_systems_projec.Fs.Layout.{addr_of, IsData, IsFile, Takes, Fills}

-- No block of the disk is free.
abbrev pub Full : Work → Type 0
Full s = (c : ℕ) → c < s.disk.sb.size → used s.disk c ≢ 0

-- balloc for the file, and what the caller does to the inode.
pub alloc_Takes :
    (b : ℕ) (s : Work) (d : Disk) (f : ℕ → ℕ)
    → Allocates b s.disk d
    → IsDisk d
    → b ≢ 0
    → Takes b s (record { disk = d; ip = record s.ip { addrs = f } })
alloc_Takes b s d f a v n = record {
  same_sb = a.same_sb;
  same_ip = refl;
  disk = v;
  inside = a.inside;
  nonzero = n;
  was_free = a.was_free;
  now_used = a.now_used;
  zero_block = a.zero_block;
  others = λ c p q r. a.others c p (r b a.inside);
}

abbrev pub Slot : (k : ℕ) → Work → Outcome ⊥ Work ℕ → Type 0
Slot k s o =
    ((o ≡ panic) × Full s)
    ⊎ ((s.ip.addrs k ≢ 0) × (o ≡ ok (s.ip.addrs k) s))
    ⊎ ((b : ℕ) × (d : Disk) × (s.ip.addrs k ≡ 0)
        × (o ≡ ok b (record { disk = d; ip = record s.ip { addrs = update s.ip.addrs k b } }))
        × Allocates b s.disk d
        × IsDisk d
        × (b ≢ 0))

pub slot_lem : (k : ℕ) (s : Work) → IsFile s → Slot k s (slot k s)
unfolding slot
slot_lem k s f = elim (Bool-cases (s.ip.addrs k == 0)) [
  | inr e ↦ inr (inl (ground arith, simp e refl))
  | inl e ↦ elim (balloc_lem s.disk f.disk) [
    | inl (p, full) ↦ inl (ground (arith, e, p), full)
    | inr (b, d, p, n, a, v) ↦ inr (inr (b, d, ground arith, ground (arith, e, p), a, v, n))
  ]
]

-- A block of the file that is no new one keeps what it holds.
pub kept :
    (b c : ℕ) (s : Work) (d : Disk) → Allocates b s.disk d → IsData s c → d.block c ≡ s.disk.block c
kept b c s d a k =
    a.others c (λ q. k.taken (subst (λ x. used s.disk x ≡ 0) q a.was_free)) (k.no_bitmap b a.inside)

pub direct-Fills :
    (k b : ℕ) (s : Work) (d : Disk)
    → k < ndirect
    → IsFile s
    → s.ip.addrs k ≡ 0
    → Allocates b s.disk d
    → IsDisk d
    → b ≢ 0
    → Fills k b s (record { disk = d; ip = record s.ip { addrs = update s.ip.addrs k b } })
unfolding addr_of
direct-Fills k b s d h f z a v n = record {
  takes = alloc_Takes b s d (update s.ip.addrs k b) a v n;
  small = omega arith;
  hole = ground arith;
  same_indirect = ground arith;
  addr = λ j p. ground (
    arith,
    λ (q : s.ip.addrs ndirect ≢ 0).
        ap (λ (w : Block). get_word w (j - ndirect))
          (kept b (s.ip.addrs ndirect) s d a (f.indirect q)),
  );
}

-- A write to a data block leaves the bitmap as it is.
pub write-used :
    (x c : ℕ) (w : Block) (d : Disk)
    → ((b : ℕ) → b < d.sb.size → bblock d.sb b ≢ x)
    → c < d.sb.size
    → used (record d { block = update d.block x w }) c ≡ used d c
write-used x c w d h p = ground (arith, h c)

pub write-IsDisk :
    (x : ℕ) (w : Block) (d : Disk)
    → IsDisk d
    → ((b : ℕ) → b < d.sb.size → bblock d.sb b ≢ x)
    → 0 < d.sb.size
    → IsDisk (record d { block = update d.block x w })
write-IsDisk x w d v h p = record {
  small = v.small;
  first = ground (arith, write-used x 0 w d h p, v.first);
  within = v.within;
  bitmap = λ b q. ground (arith, write-used x (bblock d.sb b) w d h (v.within b q), v.bitmap b);
}

pub entry-Fills :
    (bn b : ℕ) (s : Work) (d : Disk)
    → bn < nindirect
    → IsFile s
    → s.ip.addrs ndirect ≢ 0
    → get_word (s.disk.block (s.ip.addrs ndirect)) bn ≡ 0
    → Allocates b s.disk d
    → IsDisk d
    → b ≢ 0
    → let ind = s.ip.addrs ndirect in
      Fills
        (bn + ndirect)
        b
        s
        (record s { disk = record d { block = update d.block ind (put_word bn b (d.block ind)) } })
unfolding addr_of
entry-Fills bn b s d h f i z a v n =
    let ind = s.ip.addrs ndirect in
    let k = f.indirect i in
    let same = kept b ind s d a k in
    let apart : b ≢ ind = λ q. k.taken (subst (λ x. used s.disk x ≡ 0) q a.was_free) in
    let clear : (c : ℕ) → c < d.sb.size → bblock d.sb c ≢ ind =
      λ c p. ground (arith, a.same_sb, k.no_bitmap c) in
    let w = put_word bn b (d.block ind) in
    record {
      takes = record {
        same_sb = a.same_sb;
        same_ip = refl;
        disk = write-IsDisk ind w d v clear (ground (arith, a.same_sb, a.inside));
        inside = a.inside;
        nonzero = n;
        was_free = a.was_free;
        now_used = λ c p. ground (arith, write-used ind c w d clear, a.same_sb, a.now_used c);
        zero_block = λ j p. ground (arith, apart, a.zero_block j);
        others = λ c p q r. ground (arith, q, a.others c p (r b a.inside));
      };
      small = omega arith;
      hole = ground arith;
      same_indirect = refl;
      addr = λ j p. ground (
        arith,
        i,
        get_word-put_word (d.block ind) bn (j - ndirect) b (omega (arith, a.inside, f.disk.small)),
        ap (λ (x : Block). get_word x (j - ndirect)) same,
      );
    }
