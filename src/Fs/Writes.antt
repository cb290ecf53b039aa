-- ===== src/Fs/Writes.antt =====
-- The loop of writei: what it writes, and what it leaves alone.
use operating_systems_projec.Prelude.{
  ℕ, ◌+◌, ◌-◌, ◌*◌, ◌/◌, ◌%◌, ◌≤◌, ◌<◌, ◌≡◌, ◌≢◌, refl, sym, ◌∙◌, ◌==◌, inl, inr, ltb, leb, ◌&&◌,
  List, if◌then◌else◌, arith, Bool-cases, length, take, drop, get_or, length-take, length-drop,
  get_or-take, get_or-drop,
}
use mathlib.Core.Path.{subst}
use operating_systems_projec.Fs.{Block, bsize, bblock}
use operating_systems_projec.Fs.Bitmap.{used}
use operating_systems_projec.Fs.Inode.{Work, ndirect, maxfile, piece, paste}
use operating_systems_projec.Fs.Layout.{addr_of, content, IsFile}
use operating_systems_projec.Fs.Map.{write-used}
use operating_systems_projec.Fs.Bmap.{Extends, HasBlock, HasBlock-kept}
use operating_systems_projec.Fs.Transfer.{with_block, write-IsFile, write-content, write-addr_of}

-- Block `c` is in use, and neither the file's nor the bitmap's.
pub record Foreign (s : Work) (c : ℕ) : Type 0 where
  pub inside : c < s.disk.sb.size
  pub taken : used s.disk c ≢ 0
  pub no_bitmap : (b : ℕ) → b < s.disk.sb.size → bblock s.disk.sb b ≢ c
  pub no_indirect : s.ip.addrs ndirect ≢ c
  pub no_block : (bn : ℕ) → bn < maxfile → addr_of s bn ≢ c

-- From `s` to `t` the file keeps its blocks, those that come into use are its own, and those of others
-- keep what they hold.
pub record Keeps (s t : Work) : Type 0 where
  pub file : IsFile t
  pub same_sb : t.disk.sb ≡ s.disk.sb
  pub same_ip : t.ip ≡ record s.ip { addrs = t.ip.addrs }
  pub mapped : (bn : ℕ) → bn < maxfile → addr_of s bn ≢ 0 → addr_of t bn ≡ addr_of s bn
  pub indirect : s.ip.addrs ndirect ≢ 0 → t.ip.addrs ndirect ≡ s.ip.addrs ndirect
  pub new : (c : ℕ) → c < s.disk.sb.size → used s.disk c ≡ 0 → used t.disk c ≢ 0 → HasBlock t c
  pub foreign : (c : ℕ) → Foreign s c → Foreign t c
  pub others : (c : ℕ) → Foreign s c → t.disk.block c ≡ s.disk.block c

pub Keeps-nonzero :
    (s t : Work) (bn : ℕ) → Keeps s t → bn < maxfile → addr_of s bn ≢ 0 → addr_of t bn ≢ 0
Keeps-nonzero s t bn k h n = λ z. n (sym (k.mapped bn h n) ∙ z)

pub Keeps-refl : (s : Work) → IsFile s → Keeps s s
Keeps-refl s f = record {
  file = f;
  same_sb = refl;
  same_ip = refl;
  mapped = λ bn h n. refl;
  indirect = λ n. refl;
  new = λ c h u n. absurd (n u);
  foreign = λ c d. d;
  others = λ c d. refl;
}

pub Keeps-trans : (s t u : Work) → Keeps s t → Keeps t u → Keeps s u
Keeps-trans s t u j k = record {
  file = k.file;
  same_sb = k.same_sb ∙ j.same_sb;
  same_ip = ground (arith, k.same_ip, j.same_ip);
  mapped = λ bn h n. k.mapped bn h (λ z. n (sym (j.mapped bn h n) ∙ z)) ∙ j.mapped bn h n;
  indirect = λ n. k.indirect (λ z. n (sym (j.indirect n) ∙ z)) ∙ j.indirect n;
  new = λ c h n m. elim (Bool-cases (used t.disk c == 0)) [
    | inl z ↦ k.new c (ground (arith, j.same_sb)) (ground arith) m
    | inr z ↦ HasBlock-kept t u c k.indirect k.mapped (j.new c h n (ground arith))
  ];
  foreign = λ c d. k.foreign c (j.foreign c d);
  others = λ c d. k.others c (j.foreign c d) ∙ j.others c d;
}

pub Extends-Keeps : (s t : Work) → Extends s t → Keeps s t
Extends-Keeps s t e = record {
  file = e.file;
  same_sb = e.same_sb;
  same_ip = e.same_ip;
  mapped = e.mapped;
  indirect = e.indirect;
  new = e.new;
  foreign = λ c d. record {
    inside = ground (arith, e.same_sb, d.inside);
    taken = e.still_used c d.inside d.taken;
    no_bitmap = λ b h. ground (arith, e.same_sb, d.no_bitmap b);
    no_indirect = e.other_indirect c d.inside d.taken d.no_indirect;
    no_block = e.other_blocks c d.inside d.taken d.no_block;
  };
  others = λ c d. e.others c d.inside d.taken d.no_indirect d.no_bitmap;
}

-- A write to a block of the file.
pub write-Keeps :
    (s : Work) (bn : ℕ) (w : Block)
    → IsFile s
    → bn < maxfile
    → addr_of s bn ≢ 0
    → Keeps s (with_block (addr_of s bn) w s)
write-Keeps s bn w f h n =
    let x = addr_of s bn in
    let k = f.blocks bn h n in
    let apart : s.ip.addrs ndirect ≢ x = λ e. f.apart bn h n (sym e) in
    let same = λ (j : ℕ). write-addr_of s x w f j apart in
    record {
      file = write-IsFile s x w f k.no_bitmap apart;
      same_sb = refl;
      same_ip = refl;
      mapped = λ j i m. same j;
      indirect = λ m. refl;
      new = λ c i u m. absurd (m (write-used x c w s.disk k.no_bitmap i ∙ u));
      foreign = λ c d. record {
        inside = d.inside;
        taken = ground (arith, write-used x c w s.disk k.no_bitmap d.inside, d.taken);
        no_bitmap = d.no_bitmap;
        no_indirect = d.no_indirect;
        no_block = λ j i e. d.no_block j i (sym (same j) ∙ e);
      };
      others = λ c d. ground (arith, d.no_block bn h);
    }

-- From `s` to `t` the bytes `xs` are written at `off`.
pub record Wrote (off : ℕ) (xs : List ℕ) (s t : Work) : Type 0 where
  pub keeps : Keeps s t
  pub covered : (k : ℕ) → off ≤ k → k < off + length xs → addr_of t (k / bsize) ≢ 0
  pub bytes :
      (k : ℕ)
      → k < maxfile * bsize
      → content t k
        ≡ (if leb off k && ltb k (off + length xs) then get_or xs (k - off) 0 else content s k)

-- One round of the loop, then the others.
pub Wrote-step :
    (off m : ℕ) (xs : List ℕ) (s t u : Work)
    → m ≡ piece off (length xs)
    → 0 < length xs
    → off + length xs ≤ maxfile * bsize
    → IsFile t
    → Extends s t
    → addr_of t (off / bsize) ≢ 0
    → let x = addr_of t (off / bsize) in
      Wrote
        (off + m)
        (drop m xs)
        (with_block x (paste (off % bsize) (take m xs) (t.disk.block x)) t)
        u
      → Wrote off xs s u
Wrote-step off m xs s t u e p h f g n w =
    let x = addr_of t (off / bsize) in
    let ys = paste (off % bsize) (take m xs) (t.disk.block x) in
    let v = with_block x ys t in
    let q : off / bsize < maxfile = omega arith in
    let k = write-Keeps t (off / bsize) ys f q n in
    let lt = length-take m xs in
    let ld = length-drop m xs in
    let small : m ≤ length xs = omega arith in
    let block : (i : ℕ) → off ≤ i → i < off + m → off / bsize ≡ i / bsize = λ i a b. omega arith in
    record {
      keeps = Keeps-trans s t u (Extends-Keeps s t g) (Keeps-trans t v u k w.keeps);
      covered = λ i a b. elim (Bool-cases (ltb i (off + m))) [
        | inl c ↦ Keeps-nonzero v u (i / bsize) w.keeps (omega arith) (
            Keeps-nonzero t v (i / bsize) k (omega arith)
              (subst (λ j. addr_of t j ≢ 0) (block i a (ground arith)) n))
        | inr c ↦ w.covered i (ground arith) (ground (arith, ld))
      ];
      bytes = λ i a. ground (
        arith,
        lt,
        ld,
        w.bytes i a,
        write-content t (off / bsize) ys i f q n a,
        g.bytes i a,
        get_or-drop m xs (i - (off + m)) 0,
        get_or-take m xs (i - off) 0,
        block i,
      );
    }
