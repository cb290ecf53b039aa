-- ===== src/Fs/Bitmap.antt =====
-- balloc and bfree against the set of blocks in use.
use operating_systems_projec.Prelude.{
  ℕ, zero, suc, ◌+◌, ◌-◌, ◌*◌, ◌/◌, ◌%◌, ◌≤◌, ◌<◌, ◌≡◌, ◌≢◌, refl, ◌⊎◌, inl, inr, Bool, true, false,
  Option, none, some, ◌==◌, ltb, if◌then◌else◌, update, arith, Bool-cases,
}
use mathlib.Core.Path.{subst}
use operating_systems_projec.Prelude.Kernel.{Outcome, ok, panic}
use operating_systems_projec.Fs.{
  Block, Disk, bsize, bpb, bblock, bit, zeroed, bzero, mark, unmark, find_clear, take_block,
  balloc_from, balloc, bfree,
}
use operating_systems_projec.Fs.Bits.{bit-set_bit, bit-clear_bit}

-- The bit of block `b` in the bitmap.
abbrev pub used : Disk → ℕ → ℕ
used s b = bit (b % bpb % 8) (s.block (bblock s.sb b) (b % bpb / 8))

-- The first block and the blocks of the bitmap are in use.
pub record IsDisk (s : Disk) : Type 0 where
  pub small : s.sb.size < 4294967296
  pub first : used s 0 ≢ 0
  pub within : (b : ℕ) → b < s.sb.size → bblock s.sb b < s.sb.size
  pub bitmap : (b : ℕ) → b < s.sb.size → used s (bblock s.sb b) ≢ 0

abbrev FindsClear : (rounds bi b size : ℕ) → Block → Option ℕ → Type 0
FindsClear r bi b size w none =
    (i : ℕ) → bi ≤ i → i < bi + r → b + i < size → bit (i % 8) (w (i / 8)) ≢ 0
FindsClear r bi b size w (some k) =
    (bi ≤ k) × (k < bi + r) × (b + k < size) × (bit (k % 8) (w (k / 8)) ≡ 0)

find_clear_lem : (r bi b size : ℕ) (w : Block) → FindsClear r bi b size w (find_clear r bi b size w)
unfolding find_clear
find_clear_lem zero bi b size w = λ i p q. ground arith
find_clear_lem (suc r) bi b size w =
    branch (ltb (b + bi) size) refl (bit (bi % 8) (w (bi / 8)) == 0) refl
      (find_clear r (bi + 1) b size w) (find_clear_lem r (bi + 1) b size w)
  where
    branch :
        (t : Bool)
        → ltb (b + bi) size ≡ t
        → (u : Bool) → (bit (bi % 8) (w (bi / 8)) == 0) ≡ u
        → (o : Option ℕ) → FindsClear r (bi + 1) b size w o
        → FindsClear (suc r) bi b size w (if t then (if u then some bi else o) else none)
    branch false e u d o f = λ i p q h. ground arith
    branch true e true d o f = (omega arith, omega arith, ground arith, ground arith)
    branch true e false d none f = λ i p q h. ground (arith, f i)
    branch true e false d (some k) (p, q, h, z) = (omega arith, omega arith, h, z)

-- The bits that a marked or unmarked byte of the bitmap holds.
bit-mark :
    (w : Block) (bi i : ℕ)
    → bit (i % 8) (mark bi w (i / 8)) ≡ (if bi == i then 1 else bit (i % 8) (w (i / 8)))
bit-mark w bi i = ground (arith, bit-set_bit (bi % 8) (i % 8) (w (bi / 8)))

bit-unmark :
    (w : Block) (bi i : ℕ)
    → bit (i % 8) (unmark bi w (i / 8)) ≡ (if bi == i then 0 else bit (i % 8) (w (i / 8)))
bit-unmark w bi i = ground (arith, bit-clear_bit (bi % 8) (i % 8) (w (bi / 8)))

-- From `s` to `t`, block `b`, which was free, is allocated and zeroed, and nothing else changes.
pub record Allocates (b : ℕ) (s t : Disk) : Type 0 where
  pub same_sb : t.sb ≡ s.sb
  pub inside : b < s.sb.size
  pub was_free : used s b ≡ 0
  pub now_used : (c : ℕ) → c < s.sb.size → used t c ≡ (if b == c then 1 else used s c)
  pub zero_block : (i : ℕ) → i < bsize → t.block b i ≡ 0
  pub others : (c : ℕ) → b ≢ c → bblock s.sb b ≢ c → t.block c ≡ s.block c

take_block_lem :
    (b bi : ℕ) (s : Disk)
    → IsDisk s
    → b % bpb ≡ 0
    → bi < bpb
    → b + bi < s.sb.size
    → bit (bi % 8) (s.block (bblock s.sb b) (bi / 8)) ≡ 0
    → (t : Disk) × (take_block b bi s ≡ ok (b + bi) t) × Allocates (b + bi) s t
unfolding take_block bzero
take_block_lem b bi s v m h k z =
    let e : (b + bi) / bpb ≡ b / bpb = omega arith in
    let f : (b + bi) % bpb ≡ bi = omega arith in
    let free : used s (b + bi) ≡ 0 = rw (e, f) z in
    let bits = s.block (bblock s.sb b) in
    let marked : ℕ → Block = update s.block (bblock s.sb b) (mark bi bits) in
    (
      record s { block = update marked (b + bi) (zeroed (marked (b + bi))) },
      refl,
      record {
        same_sb = refl;
        inside = k;
        was_free = free;
        now_used = λ c p.
            let apart : b + bi ≢ bblock s.sb c =
              λ q. v.bitmap c p (subst (λ x. used s x ≡ 0) q free) in
            ground (arith, e, f, apart, bit-mark bits bi (c % bpb));
        zero_block = λ i p. ground arith;
        others = λ c p q. ground (arith, e);
      },
    )

-- Every block from `b` on is in use.
abbrev pub FullFrom : ℕ → Disk → Type 0
FullFrom b s = (c : ℕ) → b ≤ c → c < s.sb.size → used s c ≢ 0

balloc_from_lem :
    (r b : ℕ) (s : Disk)
    → IsDisk s
    → b % bpb ≡ 0
    → s.sb.size < b + r * bpb
    → ((balloc_from r b s ≡ panic) × FullFrom b s)
      ⊎ ((n : ℕ) × (t : Disk) × (balloc_from r b s ≡ ok n t) × Allocates n s t)
unfolding balloc_from
balloc_from_lem zero b s v m h = inl (refl, λ c p q. absurd (omega arith))
balloc_from_lem (suc r) b s v m h =
    branch (ltb b s.sb.size) refl (find_clear bpb 0 b s.sb.size (s.block (bblock s.sb b)))
      (find_clear_lem bpb 0 b s.sb.size (s.block (bblock s.sb b))) (balloc_from r (b + bpb) s)
      (balloc_from_lem r (b + bpb) s v (omega arith) (omega arith))
  where
    branch :
        (x : Bool)
        → ltb b s.sb.size ≡ x
        → (o : Option ℕ) → FindsClear bpb 0 b s.sb.size (s.block (bblock s.sb b)) o
        → (rest : Outcome ⊥ Disk ℕ)
        → ((rest ≡ panic) × FullFrom (b + bpb) s)
          ⊎ ((n : ℕ) × (t : Disk) × (rest ≡ ok n t) × Allocates n s t)
        → (((if x then elim o [ some bi ↦ take_block b bi s | none ↦ rest ] else panic) ≡ panic)
            × FullFrom b s)
          ⊎ ((n : ℕ) × (t : Disk) × ((if x
                  then elim o [ some bi ↦ take_block b bi s | none ↦ rest ]
                  else panic)
                ≡ ok n t)
              × Allocates n s t)
    branch false e o f rest ih = inl (refl, λ c p q. absurd (ground arith))
    branch true e (some bi) (p, q, k, z) rest ih =
        let (t, d, a) = take_block_lem b bi s v m q k z in inr (b + bi, t, d, a)
    branch true e none f rest (inl (d, full)) = inl (
      d,
      λ c p q. elim (Bool-cases (ltb c (b + bpb))) [
        | inl n ↦
            let g : c / bpb ≡ b / bpb = ground arith in
            let w : c % bpb ≡ c - b = ground arith in
            rw (g, w) (f (c - b) (omega arith) (ground arith) (omega arith))
        | inr n ↦ full c (ground arith) q
      ],
    )
    branch true e none f rest (inr (n, t, d, a)) = inr (n, t, d, a)

Allocates-IsDisk : (b : ℕ) (s t : Disk) → IsDisk s → Allocates b s t → IsDisk t
Allocates-IsDisk b s t v a = record {
  small = ground (arith, a.same_sb, v.small);
  first = ground (arith, a.same_sb, a.now_used 0, v.first, a.inside);
  within = λ c h. ground (arith, a.same_sb, v.within c);
  bitmap = λ c h. ground (arith, a.same_sb, a.now_used (bblock s.sb c), v.within c, v.bitmap c);
}

-- balloc on a disk whose bitmap counts itself and the first block as used: it panics only if every
-- block is in use; otherwise it returns a block that was free, and not 0, marks exactly this one as
-- used, fills it with zeros and changes no other block but one of the bitmap. The bitmap still counts itself.
pub balloc_lem :
    (s : Disk)
    → IsDisk s
    → ((balloc s ≡ panic) × ((c : ℕ) → c < s.sb.size → used s c ≢ 0))
      ⊎ ((b : ℕ) × (t : Disk) × (balloc s ≡ ok b t) × (b ≢ 0) × Allocates b s t × IsDisk t)
unfolding balloc
balloc_lem s v = branch (balloc s) (balloc_from_lem (s.sb.size / bpb + 1) 0 s v refl (omega arith))
  where
    branch :
        (o : Outcome ⊥ Disk ℕ)
        → ((o ≡ panic) × FullFrom 0 s) ⊎ ((n : ℕ) × (t : Disk) × (o ≡ ok n t) × Allocates n s t)
        → ((o ≡ panic) × ((c : ℕ) → c < s.sb.size → used s c ≢ 0))
          ⊎ ((b : ℕ) × (t : Disk) × (o ≡ ok b t) × (b ≢ 0) × Allocates b s t × IsDisk t)
    branch o (inl (e, f)) = inl (e, λ c. f c (omega arith))
    branch o (inr (b, t, e, a)) = inr (
      b,
      t,
      e,
      (λ z. v.first (subst (λ x. used s x ≡ 0) z a.was_free)),
      a,
      Allocates-IsDisk b s t v a,
    )

-- bfree of a block of the disk panics exactly if the block is free; otherwise it marks exactly this block as free
-- and changes no block but one of the bitmap.
pub bfree_lem :
    (b : ℕ) (s : Disk)
    → ((bfree b s ≡ panic) × (used s b ≡ 0))
      ⊎ ((t : Disk) × (bfree b s ≡ ok tt t)
          × (used s b ≢ 0)
          × (t.sb ≡ s.sb)
          × ((c : ℕ) → used t c ≡ (if b == c then 0 else used s c))
          × ((c : ℕ) → bblock s.sb b ≢ c → t.block c ≡ s.block c))
unfolding bfree
bfree_lem b s = elim (Bool-cases (used s b == 0)) [
  | inl e ↦ inl (simp e refl, ground arith)
  | inr e ↦ inr (
    record s {
      block = update s.block (bblock s.sb b) (unmark (b % bpb) (s.block (bblock s.sb b)));
    },
    simp e refl,
    ground arith,
    refl,
    λ c. ground (arith, bit-unmark (s.block (bblock s.sb b)) (b % bpb) (c % bpb)),
    λ c p. ground arith,
  )
]
