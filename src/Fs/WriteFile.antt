-- ===== src/Fs/WriteFile.antt =====
-- writei as a whole: a file is an array of bytes of which writei changes a range.
use operating_systems_projec.Prelude.{
  ℕ, ◌+◌, ◌-◌, ◌*◌, ◌/◌, ◌%◌, ◌^◌, ◌≤◌, ◌<◌, ◌≡◌, ◌≢◌, refl, sym, ap, ◌∙◌, ◌⊎◌, ltb, leb, ◌&&◌,
  if◌then◌else◌, arith, inl, inr, Bool-cases, List, length, get_or, none, some,
}
use operating_systems_projec.Prelude.Kernel.{ok, panic}
use operating_systems_projec.Fs.{Block, bsize}
use operating_systems_projec.Fs.Inode.{
  Inode, Work, Driver, ndirect, maxfile, t_dev, iblock, write_dinode, writei,
}
use operating_systems_projec.Fs.Layout.{addr_of, content, IsData, IsFile}
use operating_systems_projec.Fs.Room.{Crowded, crowded}
use operating_systems_projec.Fs.Writes.{Foreign, Keeps-nonzero, Wrote}
use operating_systems_projec.Fs.ReadWrite.{IsWhole, write_from_lem}
use operating_systems_projec.Fs.Update.{
  updated, iupdate-updated, updated-IsFile, updated-addr_of, updated-content,
}

-- `s` with a new size of its inode.
abbrev resized : ℕ → Work → Work
resized n s = record s { ip = record s.ip { size = n } }

resized-addr_of : (n : ℕ) (s : Work) (bn : ℕ) → addr_of (resized n s) bn ≡ addr_of s bn
unfolding addr_of
resized-addr_of n s bn = refl

resized-IsData : (n : ℕ) (s : Work) (a : ℕ) → IsData s a → IsData (resized n s) a
resized-IsData n s a d = record {
  inside = d.inside;
  taken = d.taken;
  no_bitmap = d.no_bitmap;
  no_inode = d.no_inode;
}

resized-IsFile : (n : ℕ) (s : Work) → IsFile s → IsFile (resized n s)
unfolding addr_of
resized-IsFile n s f = record {
  disk = f.disk;
  home = record {
    home_nonzero = f.home.home_nonzero;
    home_used = f.home.home_used;
    home_inside = f.home.home_inside;
    home_apart = f.home.home_apart;
  };
  indirect = λ m. resized-IsData n s (s.ip.addrs ndirect) (f.indirect m);
  apart = f.apart;
  blocks = λ bn h m. resized-IsData n s (addr_of s bn) (f.blocks bn h m);
  distinct = f.distinct;
}

-- From `s` to `t` the bytes `xs` are written at `off` to the file of the inode.
pub record Stores (off : ℕ) (xs : List ℕ) (s t : Work) : Type 0 where
  pub whole : IsWhole t
  pub same_sb : t.disk.sb ≡ s.disk.sb
  pub same_ip : t.ip ≡ record s.ip { addrs = t.ip.addrs; size = t.ip.size }
  pub size : t.ip.size ≡ (if ltb s.ip.size (off + length xs) then off + length xs else s.ip.size)
  pub bytes :
      (k : ℕ)
      → k < maxfile * bsize
      → content t k
        ≡ (if leb off k && ltb k (off + length xs) then get_or xs (k - off) 0 else content s k)
  pub others :
      (c : ℕ) → Foreign s c → iblock s.disk.sb s.ip.inum ≢ c → t.disk.block c ≡ s.disk.block c
  pub saved :
      s.ip.size < off + length xs
      → (w : Block) × (t.disk.block (iblock s.disk.sb s.ip.inum) ≡ write_dinode t.ip w)
  -- The other inodes in the block of the inode.
  pub neighbours :
      (i : ℕ)
      → i < s.ip.inum % 8 * 64 ⊎ s.ip.inum % 8 * 64 + 64 ≤ i
      → t.disk.block (iblock s.disk.sb s.ip.inum) i ≡ s.disk.block (iblock s.disk.sb s.ip.inum) i

module _ (off : ℕ) (xs : List ℕ) (s u : Work) (v : IsWhole s) (begins : off ≤ s.ip.size)
    (fits : off + length xs ≤ maxfile * bsize) (w : Wrote off xs s u) where
  -- The bytes of the file, old and new, have blocks.
  all-Mapped : (k : ℕ) → k < s.ip.size ⊎ k < off + length xs → addr_of u (k / bsize) ≢ 0
  all-Mapped k h =
      let limit = v.limit in
      elim (Bool-cases (leb off k && ltb k (off + length xs))) [
        | inl e ↦ w.covered k (ground arith) (ground arith)
        | inr e ↦
            Keeps-nonzero s u (k / bsize) w.keeps (ground (arith, limit))
              (v.mapped k (omega arith) (ground arith))
      ]

  same_inum : u.ip.inum ≡ s.ip.inum
  same_inum = ap (λ (i : Inode). i.inum) w.keeps.same_ip

  same_size : u.ip.size ≡ s.ip.size
  same_size = ap (λ (i : Inode). i.size) w.keeps.same_ip

  -- The block of the inode is none that the loop writes.
  home-Foreign : Foreign s (iblock s.disk.sb s.ip.inum)
  home-Foreign =
      let f = v.file in
      let z = f.home.home_nonzero in
      record {
        inside = f.home.home_inside;
        taken = f.home.home_used;
        no_bitmap = λ b h. f.home.home_apart b h;
        no_indirect = λ e. (f.indirect (λ n. z (sym e ∙ n))).no_inode (sym e);
        no_block = λ bn h e. (f.blocks bn h (λ n. z (sym e ∙ n))).no_inode (sym e);
      }

  same_home : u.disk.block (iblock s.disk.sb s.ip.inum) ≡ s.disk.block (iblock s.disk.sb s.ip.inum)
  same_home = w.keeps.others (iblock s.disk.sb s.ip.inum) home-Foreign

  grown-Stores :
      s.ip.size < off + length xs → Stores off xs s (updated (resized (off + length xs) u))
  grown-Stores h =
      let r = resized (off + length xs) u in
      let f = resized-IsFile (off + length xs) u w.keeps.file in
      let home : iblock r.disk.sb r.ip.inum ≡ iblock s.disk.sb s.ip.inum =
        ground (arith, same_inum, w.keeps.same_sb) in
      let map = λ (bn : ℕ). updated-addr_of r f bn ∙ resized-addr_of (off + length xs) u bn in
      record {
        whole = record {
          file = updated-IsFile r f;
          limit = fits;
          mapped = λ k a b q. all-Mapped k (inr (omega arith)) (sym (map (k / bsize)) ∙ q);
        };
        same_sb = w.keeps.same_sb;
        same_ip = ap (λ (i : Inode). record i { size = off + length xs }) w.keeps.same_ip;
        size = ground arith;
        bytes = λ k a.
            updated-content r f k a
            ∙ ground (arith, resized-addr_of (off + length xs) u (k / bsize))
            ∙ w.bytes k a;
        others = λ c d n. ground (arith, home, w.keeps.others c d);
        saved = λ q. (u.disk.block (iblock s.disk.sb s.ip.inum), ground (arith, home));
        neighbours = λ i a.
            unfold write_dinode in
            ground (arith, home, same_inum, ap (λ (b : Block). b i) same_home);
      }

  within-Stores : off + length xs ≤ s.ip.size → Stores off xs s u
  within-Stores h = record {
    whole = record {
      file = w.keeps.file;
      limit = omega (arith, same_size, v.limit);
      mapped = λ k a b. all-Mapped k (inl (omega (arith, same_size)));
    };
    same_sb = w.keeps.same_sb;
    same_ip = ground (arith, w.keeps.same_ip);
    size = ground (arith, same_size);
    bytes = w.bytes;
    others = λ c d n. w.keeps.others c d;
    saved = λ q. absurd (omega arith);
    neighbours = λ i a. ap (λ (b : Block). b i) same_home;
  }

-- What filewrite gives to writei at most, so that its blocks fit the log.
abbrev pub max_write : ℕ
max_write = 1536

-- writei, within a transaction, of an inode that is no device, of at most 1536 bytes, as filewrite writes
-- at most, of a range below 2 ^ 32, on a file whose blocks are all there: it fails, and changes nothing,
-- exactly if the range begins behind the end of the file or ends behind the largest size of a file.
-- Otherwise it panics only if at most one block of the disk is free, besides one for the indirect block and
-- one for each block of the range; else it returns the number of bytes, which are then the bytes of the
-- file from `off` on. The other bytes of the file are as before, the size is the larger of the old one and
-- the end of the range, the inode on disk is brought up to date if it has grown, and what other files and
-- inodes have on the disk does not change.
pub writei_lem :
    (devsw : Driver (List ℕ)) (off : ℕ) (xs : List ℕ) (s : Work)
    → IsWhole s
    → s.ip.typ ≢ t_dev
    → off + length xs < 2 ^ 32
    → length xs ≤ max_write
    → ((s.ip.size < off ⊎ maxfile * bsize < off + length xs) × (writei devsw off xs s ≡ ok none s))
      ⊎ ((off ≤ s.ip.size)
          × (off + length xs ≤ maxfile * bsize)
          × (((writei devsw off xs s ≡ panic) × Crowded off (length xs) s)
              ⊎ ((t : Work) × (writei devsw off xs s ≡ ok (some (length xs)) t)
                  × Stores off xs s t)))
unfolding writei
writei_lem devsw off xs s v d h small = elim (Bool-cases (ltb s.ip.size off)) [
  | inl e ↦ inl (inl (ground arith), ground (arith, e, d))
  | inr e ↦ elim (Bool-cases (ltb (maxfile * bsize) (off + length xs))) [
    | inl g ↦ inl (inr (ground arith), ground (arith, e, d, g))
    | inr g ↦
        let begins : off ≤ s.ip.size = ground arith in
        let fits : off + length xs ≤ maxfile * bsize = ground arith in
        inr (
          begins,
          fits,
          elim (write_from_lem (length xs) off xs s (omega arith) fits v.file) [
            | inl (p, (t, k, m, full)) ↦
                inl (ground (arith, e, d, g, p), crowded off (length xs) s t v.file k m full)
            | inr (u, p, w) ↦ elim (Bool-cases (ltb s.ip.size (off + length xs))) [
              | inl q ↦ inr (
                updated (resized (off + length xs) u),
                ground (
                  arith,
                  e,
                  d,
                  g,
                  p,
                  q,
                  same_size off xs s u v begins fits w,
                  iupdate-updated (resized (off + length xs) u),
                ),
                grown-Stores off xs s u v begins fits w (ground arith),
              )
              | inr q ↦ inr (
                u,
                ground (arith, e, d, g, p, q, same_size off xs s u v begins fits w),
                within-Stores off xs s u v begins fits w (ground arith),
              )
            ]
          ],
        )
  ]
]
