-- ===== src/Fs/Truncate/Finish.antt =====
-- The end of itrunc: the empty inode is written to the disk.
use operating_systems_projec.Prelude.{
  ℕ, ◌+◌, ◌<◌, ◌≡◌, ◌≢◌, refl, sym, ap, ◌∙◌, inl, inr, false, ◌==◌, update, arith, Bool-cases, ◌||◌,
}
use operating_systems_projec.Prelude.Kernel.{ok, ◌>>=◌}
use operating_systems_projec.Fs.{Block, Disk, bblock, bfree}
use operating_systems_projec.Fs.Bitmap.{used}
use operating_systems_projec.Fs.Inode.{
  Inode, Work, ndirect, nindirect, iblock, free_direct, free_entries, free_indirect, itrunc,
  write_dinode,
}
use operating_systems_projec.Fs.Layout.{addr_of, IsFile}
use operating_systems_projec.Fs.Update.{updated, iupdate-updated}
use operating_systems_projec.Fs.Map.{write-used}
use operating_systems_projec.Fs.Truncate.{hit, Frees-trans, bfree-Frees}
use operating_systems_projec.Fs.Truncate.Loops.{Cleared, free_direct_lem, free_entries_lem}
use operating_systems_projec.Fs.Truncate.Whole.{
  GivesBack, direct-AreOwn, words, words-AreOwn, with-GivesBack, without-GivesBack, no-direct-hit,
  no-word-hit,
}

-- From `s` to `t` the file has become empty.
pub record Truncated (s t : Work) : Type 0 where
  pub back : GivesBack s t.disk
  pub same_ip : t.ip ≡ record s.ip { addrs = t.ip.addrs; size = 0 }
  pub no_blocks : (j : ℕ) → j < 13 → t.ip.addrs j ≡ 0
  pub saved : (w : Block) × (t.disk.block (iblock s.disk.sb s.ip.inum) ≡ write_dinode t.ip w)
  pub others :
      (c : ℕ)
      → iblock s.disk.sb s.ip.inum ≢ c
      → ((b : ℕ) → b < s.disk.sb.size → bblock s.disk.sb b ≢ c)
      → t.disk.block c ≡ s.disk.block c

-- The state before the last two steps of itrunc.
record Emptied (s u : Work) : Type 0 where
  back : GivesBack s u.disk
  same_ip : u.ip ≡ record s.ip { addrs = u.ip.addrs }
  no_blocks : (j : ℕ) → j < 13 → u.ip.addrs j ≡ 0
  others :
      (c : ℕ)
      → ((b : ℕ) → b < s.disk.sb.size → bblock s.disk.sb b ≢ c)
      → u.disk.block c ≡ s.disk.block c

module _ (s u : Work) (f : IsFile s) (e : Emptied s u) where
  same_home : iblock u.disk.sb u.ip.inum ≡ iblock s.disk.sb s.ip.inum
  same_home = ground (arith, e.back.same_sb, ap (λ (i : Inode). i.inum) e.same_ip)

  written : Work
  written = updated (record u { ip = record u.ip { size = 0 } })

  -- The write of the inode leaves the bitmap as it is.
  written-used : (c : ℕ) → c < s.disk.sb.size → used written.disk c ≡ used u.disk c
  unfolding written
  written-used c h =
      write-used (iblock u.disk.sb u.ip.inum) c _ u.disk
        (λ b k. ground (arith, same_home, e.back.same_sb, f.home.home_apart b))
        (ground (arith, e.back.same_sb))

  written-Truncated : Truncated s written
  unfolding written
  written-Truncated = record {
    back = record {
      same_sb = e.back.same_sb;
      freed = λ bn h n. written-used (addr_of s bn) (f.blocks bn h n).inside ∙ e.back.freed bn h n;
      freed_indirect =
          λ n. written-used (s.ip.addrs ndirect) (f.indirect n).inside ∙ e.back.freed_indirect n;
      still_used = λ c h m k. written-used c h ∙ e.back.still_used c h m k;
    };
    same_ip = ap (λ (i : Inode). record i { size = 0 }) e.same_ip;
    no_blocks = e.no_blocks;
    saved = (u.disk.block (iblock u.disk.sb u.ip.inum), ground (arith, same_home));
    others = λ c n h. ground (arith, same_home, e.others c h);
  }

module _ (s t : Work) (f : IsFile s) (c : Cleared ndirect 0 s t) where
  kept_indirect : t.ip.addrs ndirect ≡ s.ip.addrs ndirect
  kept_indirect = c.kept ndirect (inr (omega arith))

  without-Emptied : s.ip.addrs ndirect ≡ 0 → Emptied s t
  without-Emptied z = record {
    back = without-GivesBack s f t.disk z c.freed;
    same_ip = c.same_ip;
    no_blocks = λ j h. elim (Bool-cases (j == ndirect)) [
      | inl e ↦ let q : j ≡ ndirect = ground arith in ap t.ip.addrs q ∙ kept_indirect ∙ z
      | inr e ↦ c.cleared j (omega arith) (ground arith)
    ];
    others = c.freed.others;
  }

  -- The entries of the indirect block, and the block itself, are freed.
  with-Emptied :
      s.ip.addrs ndirect ≢ 0
      → (d e : Disk) × (free_entries nindirect 0 (t.disk.block (s.ip.addrs ndirect)) t
          ≡ ok tt (record t { disk = d }))
        × (bfree (s.ip.addrs ndirect) d ≡ ok tt e)
        × Emptied s (record { disk = e; ip = record t.ip { addrs = update t.ip.addrs ndirect 0 } })
  unfolding words
  with-Emptied i =
      let ind = s.ip.addrs ndirect in
      let own = f.indirect i in
      let same = c.freed.others ind own.no_bitmap in
      let (d, p, x) =
        free_entries_lem nindirect 0 (s.disk.block ind) t (words-AreOwn s f i t.disk c.freed) in
      let a = no-direct-hit s f ind (λ j h n. f.apart j (omega arith) n) in
      let b = no-word-hit s f i ind (λ j h n. f.apart (j + ndirect) (omega arith) n) in
      let still : used d ind ≢ 0 = ground (
        arith,
        x.bits ind (ground (arith, c.freed.same_sb, own.inside)),
        c.freed.bits ind own.inside,
        a,
        b,
        own.taken,
      ) in
      let (e, q, y) =
        bfree-Frees ind d (ground (arith, x.same_sb, c.freed.same_sb, own.inside)) still in
      let both =
        Frees-trans (hit s.ip.addrs ndirect 0) (λ k. hit (words s f i) nindirect 0 k || ind == k)
          (λ k. hit s.ip.addrs ndirect 0 k || (hit (words s f i) nindirect 0 k || ind == k)) s.disk
          t.disk e c.freed
          (Frees-trans (hit (words s f i) nindirect 0) (λ k. ind == k)
            (λ k. hit (words s f i) nindirect 0 k || ind == k) t.disk d e x y (λ k. refl))
          (λ k. refl) in
      (
        d,
        e,
        ap (λ w. free_entries nindirect 0 w t) same ∙ p,
        q,
        record {
          back = with-GivesBack s f i e both;
          same_ip = ground (arith, c.same_ip);
          no_blocks = λ j h. elim (Bool-cases (j == ndirect)) [
            | inl v ↦ ground arith
            | inr v ↦ ground (arith, c.cleared j (omega arith) (ground arith))
          ];
          others = both.others;
        },
      )

free_indirect_none : (t : Work) → t.ip.addrs ndirect ≡ 0 → free_indirect t ≡ ok tt t
unfolding free_indirect
free_indirect_none t z = ground arith

free_indirect_some :
    (t : Work) (d g : Disk)
    → t.ip.addrs ndirect ≢ 0
    → free_entries nindirect 0 (t.disk.block (t.ip.addrs ndirect)) t ≡ ok tt (record t { disk = d })
    → bfree (t.ip.addrs ndirect) d ≡ ok tt g
    → free_indirect t
      ≡ ok tt (record { disk = g; ip = record t.ip { addrs = update t.ip.addrs ndirect 0 } })
unfolding free_indirect
free_indirect_some t d g n p q =
    let z : (t.ip.addrs ndirect == 0) ≡ false = ground arith in
    rw z (rw (p, ◌>>=◌) (rw (q, ◌>>=◌) refl))

itrunc-Emptied :
    (s t u : Work) (f : IsFile s) (e : Emptied s u)
    → free_direct ndirect 0 s ≡ ok tt t
    → free_indirect t ≡ ok tt u
    → itrunc s ≡ ok tt (written s u f e)
unfolding itrunc written
itrunc-Emptied s t u f e p q =
    rw (p, ◌>>=◌) (rw (q, ◌>>=◌) (iupdate-updated (record u { ip = record u.ip { size = 0 } })))

-- itrunc of a file whose blocks are blocks of its own does not panic: every block that it has, the
-- indirect one too, is free afterwards, and every other block of the disk is in use exactly if it
-- was. The inode, in memory and on disk, has no block and the size 0, and otherwise its old fields.
-- No block changes but the inode's own and those of the bitmap.
pub itrunc_lem : (s : Work) → IsFile s → (t : Work) × (itrunc s ≡ ok tt t) × Truncated s t
itrunc_lem s f =
    let (t, p, c) = free_direct_lem ndirect 0 s (direct-AreOwn s f) in
    let k = kept_indirect s t f c in
    elim (Bool-cases (s.ip.addrs ndirect == 0)) [
      | inl z ↦
          let zero_there : s.ip.addrs ndirect ≡ 0 = ground arith in
          let e = without-Emptied s t f c zero_there in
          (
            written s t f e,
            itrunc-Emptied s t t f e p (free_indirect_none t (k ∙ zero_there)),
            written-Truncated s t f e,
          )
      | inr z ↦
          let i : s.ip.addrs ndirect ≢ 0 = ground arith in
          let (d, g, q, r, e) = with-Emptied s t f c i in
          let u : Work = record {
            disk = g;
            ip = record t.ip { addrs = update t.ip.addrs ndirect 0 };
          } in
          let h =
            free_indirect_some t d g (λ x. i (sym k ∙ x))
              (ap (λ a. free_entries nindirect 0 (t.disk.block a) t) k ∙ q)
              (ap (λ a. bfree a d) k ∙ r) in
          (written s u f e, itrunc-Emptied s t u f e p h, written-Truncated s u f e)
    ]
