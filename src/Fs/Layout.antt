-- ===== src/Fs/Layout.antt =====
-- A file on the disk: which block holds each of its bytes, and what keeps files apart from the rest.
use operating_systems_projec.Prelude.{
  ℕ, ◌-◌, ◌*◌, ◌/◌, ◌%◌, ◌<◌, ◌≡◌, ◌≢◌, sym, ap, inl, inr, Bool-cases, ◌==◌, ltb, if◌then◌else◌,
  arith,
}
use mathlib.Core.Path.{subst}
use operating_systems_projec.Fs.{Block, bsize, bblock}
use operating_systems_projec.Fs.Bitmap.{used, IsDisk}
use operating_systems_projec.Fs.Words.{get_word}
use operating_systems_projec.Fs.Inode.{Work, ndirect, maxfile, iblock}

-- The block of block `bn` of the file, or 0.
unfoldable pub addr_of : Work → ℕ → ℕ
addr_of s bn =
    if ltb bn ndirect
    then s.ip.addrs bn
    else if s.ip.addrs ndirect == 0
    then 0
    else get_word (s.disk.block (s.ip.addrs ndirect)) (bn - ndirect)

-- Byte `k` of the file; a block that is not there yet reads as zeros.
abbrev pub content : Work → ℕ → ℕ
content s k =
    if addr_of s (k / bsize) == 0 then 0 else s.disk.block (addr_of s (k / bsize)) (k % bsize)

-- Block `a` holds data: it is in use, and no block of the bitmap, nor the inode's own.
pub record IsData (s : Work) (a : ℕ) : Type 0 where
  pub inside : a < s.disk.sb.size
  pub taken : used s.disk a ≢ 0
  pub no_bitmap : (c : ℕ) → c < s.disk.sb.size → bblock s.disk.sb c ≢ a
  pub no_inode : iblock s.disk.sb s.ip.inum ≢ a

-- The block of the inode itself is in use, not the first one, and none of the bitmap.
pub record IsHome (s : Work) : Type 0 where
  pub home_nonzero : iblock s.disk.sb s.ip.inum ≢ 0
  pub home_used : used s.disk (iblock s.disk.sb s.ip.inum) ≢ 0
  pub home_inside : iblock s.disk.sb s.ip.inum < s.disk.sb.size
  pub home_apart : (c : ℕ) → c < s.disk.sb.size → bblock s.disk.sb c ≢ iblock s.disk.sb s.ip.inum

pub record IsFile (s : Work) : Type 0 where
  pub disk : IsDisk s.disk
  pub home : IsHome s
  pub indirect : s.ip.addrs ndirect ≢ 0 → IsData s (s.ip.addrs ndirect)
  pub apart : (bn : ℕ) → bn < maxfile → addr_of s bn ≢ 0 → addr_of s bn ≢ s.ip.addrs ndirect
  pub blocks : (bn : ℕ) → bn < maxfile → addr_of s bn ≢ 0 → IsData s (addr_of s bn)
  pub distinct :
      (bn bm : ℕ)
      → bn < maxfile
      → bm < maxfile
      → addr_of s bn ≢ 0
      → addr_of s bn ≡ addr_of s bm
      → bn ≡ bm

-- From `s` to `t`, the free block `a` is allocated for the file, and the inode changes only in its
-- block addresses.
pub record Takes (a : ℕ) (s t : Work) : Type 0 where
  pub same_sb : t.disk.sb ≡ s.disk.sb
  pub same_ip : t.ip ≡ record s.ip { addrs = t.ip.addrs }
  pub disk : IsDisk t.disk
  pub inside : a < s.disk.sb.size
  pub nonzero : a ≢ 0
  pub was_free : used s.disk a ≡ 0
  pub now_used :
      (c : ℕ) → c < s.disk.sb.size → used t.disk c ≡ (if a == c then 1 else used s.disk c)
  pub zero_block : (i : ℕ) → i < bsize → t.disk.block a i ≡ 0
  pub others :
      (c : ℕ)
      → a ≢ c
      → s.ip.addrs ndirect ≢ c
      → ((b : ℕ) → b < s.disk.sb.size → bblock s.disk.sb b ≢ c)
      → t.disk.block c ≡ s.disk.block c

-- A block that was in use stays a data block, and the new one becomes one.
pub Takes-IsData : (a c : ℕ) (s t : Work) → Takes a s t → IsData s c → IsData t c
Takes-IsData a c s t k d = record {
  inside = ground (arith, k.same_sb, d.inside);
  taken = ground (arith, k.now_used c, d.taken, d.inside);
  no_bitmap = λ b h. ground (arith, k.same_sb, d.no_bitmap b);
  no_inode = ground (arith, k.same_sb, k.same_ip, d.no_inode);
}

pub Takes-new : (a : ℕ) (s t : Work) → IsFile s → Takes a s t → IsData t a
Takes-new a s t f k = record {
  inside = ground (arith, k.same_sb, k.inside);
  taken = ground (arith, k.now_used a, k.inside);
  no_bitmap = λ b h. ground (arith, k.same_sb, f.disk.bitmap b, k.was_free);
  no_inode = ground (arith, k.same_sb, k.same_ip, f.home.home_used, k.was_free);
}

-- The new block becomes block `bn` of the file, which had none.
pub record Fills (bn a : ℕ) (s t : Work) : Type 0 where
  pub takes : Takes a s t
  pub small : bn < maxfile
  pub hole : addr_of s bn ≡ 0
  pub same_indirect : t.ip.addrs ndirect ≡ s.ip.addrs ndirect
  pub addr : (k : ℕ) → k < maxfile → addr_of t k ≡ (if k == bn then a else addr_of s k)

-- A block of the file that holds data does not change.
pub Takes-block :
    (a : ℕ) (s t : Work) (bn : ℕ)
    → IsFile s
    → Takes a s t
    → bn < maxfile
    → addr_of s bn ≢ 0
    → (a ≢ addr_of s bn) × (t.disk.block (addr_of s bn) ≡ s.disk.block (addr_of s bn))
Takes-block a s t bn f k h n =
    let d = f.blocks bn h n in
    let e : a ≢ addr_of s bn = λ q. d.taken (subst (λ c. used s.disk c ≡ 0) q k.was_free) in
    (e, k.others (addr_of s bn) e (λ q. f.apart bn h n (sym q)) d.no_bitmap)

pub Fills-content :
    (bn a : ℕ) (s t : Work) (k : ℕ)
    → IsFile s
    → Fills bn a s t
    → k < maxfile * bsize
    → content t k ≡ content s k
Fills-content bn a s t k f g h =
    let q : k / bsize < maxfile = omega arith in
    elim (Bool-cases (k / bsize == bn)) [
      | inl e ↦ ground (arith, g.addr (k / bsize) q, g.hole, g.takes.zero_block (k % bsize))
      | inr e ↦ ground (
        arith,
        g.addr (k / bsize) q,
        λ (n : addr_of s (k / bsize) ≢ 0).
            ap (λ (b : Block). b (k % bsize)) (Takes-block a s t (k / bsize) f g.takes q n).1,
      )
    ]

pub Takes-IsHome : (a : ℕ) (s t : Work) → IsHome s → Takes a s t → IsHome t
Takes-IsHome a s t f k = record {
  home_nonzero = ground (arith, k.same_sb, k.same_ip, f.home_nonzero);
  home_used = ground (
    arith,
    k.same_sb,
    k.same_ip,
    k.now_used (iblock s.disk.sb s.ip.inum),
    f.home_used,
    f.home_inside,
  );
  home_inside = ground (arith, k.same_sb, k.same_ip, f.home_inside);
  home_apart = λ c h. ground (arith, k.same_sb, k.same_ip, f.home_apart c);
}

pub Fills-IsFile : (bn a : ℕ) (s t : Work) → IsFile s → Fills bn a s t → IsFile t
Fills-IsFile bn a s t f g =
    let k = g.takes in
    let new = Takes-new a s t f k in
    record {
      disk = k.disk;
      home = Takes-IsHome a s t f.home k;
      indirect = λ n. subst (IsData t) (sym g.same_indirect) (
          Takes-IsData a (s.ip.addrs ndirect) s t k (f.indirect (ground (arith, g.same_indirect))));
      apart = λ m h n. ground (
        arith,
        g.addr m h,
        g.same_indirect,
        f.apart m,
        λ (z : s.ip.addrs ndirect ≢ 0). (f.indirect z).taken,
        k.was_free,
        k.nonzero,
      );
      blocks = λ m h n. elim (Bool-cases (m == bn)) [
        | inl e ↦ subst (IsData t) (ground (arith, g.addr m h)) new
        | inr e ↦
            let q : addr_of t m ≡ addr_of s m = ground (arith, g.addr m h) in
            subst (IsData t) (sym q)
              (Takes-IsData a (addr_of s m) s t k (f.blocks m h (ground (arith, q))))
      ];
      distinct = λ m l h i n e. ground (
        arith,
        g.addr m h,
        g.addr l i,
        f.distinct m l h i,
        λ (z : addr_of s m ≢ 0). (f.blocks m h z).taken,
        λ (z : addr_of s l ≢ 0). (f.blocks l i z).taken,
        k.was_free,
        k.nonzero,
      );
    }
