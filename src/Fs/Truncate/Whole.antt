-- ===== src/Fs/Truncate/Whole.antt =====
-- itrunc as a whole: it gives back the blocks of a file, and no others.
use operating_systems_projec.Prelude.{
  ℕ, ◌+◌, ◌-◌, ◌≤◌, ◌<◌, ◌≡◌, ◌≢◌, refl, sym, ap, ◌∙◌, inl, inr, false, ◌==◌, ltb, arith,
  Bool-cases, ◌||◌,
}
use mathlib.Core.Path.{subst}
use operating_systems_projec.Fs.{Disk}
use operating_systems_projec.Fs.Bitmap.{used}
use operating_systems_projec.Fs.Words.{get_word}
use operating_systems_projec.Fs.Inode.{Work, ndirect, nindirect, maxfile}
use operating_systems_projec.Fs.Layout.{addr_of, IsData, IsFile}
use operating_systems_projec.Fs.Truncate.{hit, hit-true, hit-false, Frees, AreOwn}

-- On `d` the blocks of the file of `s` are free, and the others as they were.
pub record GivesBack (s : Work) (d : Disk) : Type 0 where
  pub same_sb : d.sb ≡ s.disk.sb
  pub freed : (bn : ℕ) → bn < maxfile → addr_of s bn ≢ 0 → used d (addr_of s bn) ≡ 0
  pub freed_indirect : s.ip.addrs ndirect ≢ 0 → used d (s.ip.addrs ndirect) ≡ 0
  pub still_used :
      (c : ℕ)
      → c < s.disk.sb.size
      → ((bn : ℕ) → bn < maxfile → addr_of s bn ≢ 0 → addr_of s bn ≢ c)
      → (s.ip.addrs ndirect ≢ 0 → s.ip.addrs ndirect ≢ c)
      → used d c ≡ used s.disk c

direct-addr : (s : Work) (j : ℕ) → j < ndirect → addr_of s j ≡ s.ip.addrs j
unfolding addr_of
direct-addr s j h = ground arith

indirect-addr :
    (s : Work) (j : ℕ)
    → j < nindirect
    → s.ip.addrs ndirect ≢ 0
    → addr_of s (j + ndirect) ≡ get_word (s.disk.block (s.ip.addrs ndirect)) j
unfolding addr_of
indirect-addr s j h n = ground arith

no-indirect-addr : (s : Work) (j : ℕ) → ndirect ≤ j → s.ip.addrs ndirect ≡ 0 → addr_of s j ≡ 0
unfolding addr_of
no-indirect-addr s j h n = ground arith

module _ (s : Work) (f : IsFile s) where
  pub block-IsData : (bn a : ℕ) → bn < maxfile → addr_of s bn ≡ a → a ≢ 0 → IsData s a
  block-IsData bn a h e n = subst (IsData s) e (f.blocks bn h (λ z. n (sym e ∙ z)))

  -- Addresses of blocks of the file, from block `off` on.
  part-AreOwn :
      (g : ℕ → ℕ) (n off : ℕ) (d : Disk)
      → n + off ≤ maxfile
      → ((j : ℕ) → j < n → addr_of s (j + off) ≡ g j)
      → d.sb ≡ s.disk.sb
      → ((j : ℕ) → j < n → g j ≢ 0 → used s.disk (g j) ≢ 0 → used d (g j) ≢ 0)
      → AreOwn g n 0 d
  part-AreOwn g n off d h same sb keep =
      let own = λ (j : ℕ) (q : j < n) (m : g j ≢ 0).
        block-IsData (j + off) (g j) (omega arith) (same j q) m in
      record {
        inside = λ j p q m. ground (arith, sb, (own j (omega arith) m).inside);
        taken = λ j p q m. keep j (omega arith) m (own j (omega arith) m).taken;
        once = λ j k p q r t m e. omega (
          arith,
          f.distinct (j + off) (k + off) (omega arith) (omega arith)
              (λ z. m (sym (same j (omega arith)) ∙ z))
              (same j (omega arith) ∙ e ∙ sym (same k (omega arith))),
        );
      }

  pub direct-AreOwn : AreOwn s.ip.addrs ndirect 0 s.disk
  direct-AreOwn =
      part-AreOwn s.ip.addrs ndirect 0 s.disk (omega arith)
        (λ j h. ap (addr_of s) (omega arith) ∙ direct-addr s j h) refl (λ j h n u. u)

  -- The direct addresses are neither the indirect block's nor those in it.
  pub no-direct-hit :
      (c : ℕ)
      → ((j : ℕ) → j < ndirect → addr_of s j ≢ 0 → addr_of s j ≢ c)
      → hit s.ip.addrs ndirect 0 c ≡ false
  no-direct-hit c h = hit-false s.ip.addrs ndirect 0 c (λ j p q n e.
      h j (omega arith) (λ z. n (sym (direct-addr s j (omega arith)) ∙ z))
        (direct-addr s j (omega arith) ∙ e))

  module _ (i : s.ip.addrs ndirect ≢ 0) where
    unfoldable pub words : ℕ → ℕ
    words = get_word (s.disk.block (s.ip.addrs ndirect))

    entry-addr : (j : ℕ) → j < nindirect → addr_of s (j + ndirect) ≡ words j
    unfolding words
    entry-addr j h = indirect-addr s j h i

    pub words-AreOwn :
        (d : Disk) → Frees (hit s.ip.addrs ndirect 0) s.disk d → AreOwn words nindirect 0 d
    words-AreOwn d x =
        part-AreOwn words nindirect ndirect d (omega arith) entry-addr x.same_sb (λ j h n u.
          let e = entry-addr j h in
          let own = block-IsData (j + ndirect) (words j) (omega arith) e n in
          let miss = no-direct-hit (words j) (λ k p m q. absurd (
            omega (arith, f.distinct k (j + ndirect) (omega arith) (omega arith) m (q ∙ sym e)))) in
          ground (arith, x.bits (words j) own.inside, miss))

    pub no-word-hit :
        (c : ℕ)
        → ((j : ℕ) → j < nindirect → addr_of s (j + ndirect) ≢ 0 → addr_of s (j + ndirect) ≢ c)
        → hit words nindirect 0 c ≡ false
    no-word-hit c h = hit-false words nindirect 0 c (λ j p q n e.
        h j (omega arith) (λ z. n (sym (entry-addr j (omega arith)) ∙ z))
          (entry-addr j (omega arith) ∙ e))

    -- With the direct blocks, those in the indirect block and the indirect block freed.
    pub with-GivesBack :
        (d : Disk)
        → Frees
            (λ c.
              hit s.ip.addrs ndirect 0 c || (hit words nindirect 0 c || s.ip.addrs ndirect == c))
            s.disk
            d
        → GivesBack s d
    with-GivesBack d x = record {
      same_sb = x.same_sb;
      freed = λ bn h n.
          let inside = (f.blocks bn h n).inside in
          elim (Bool-cases (ltb bn ndirect)) [
            | inl e ↦
                let a = direct-addr s bn (ground arith) in
                let y =
                  hit-true s.ip.addrs ndirect 0 (addr_of s bn) bn (omega arith) (ground arith)
                    (λ z. n (a ∙ z)) (sym a) in
                ground (arith, x.bits (addr_of s bn) inside, y)
            | inr e ↦
                let q : bn - ndirect + ndirect ≡ bn = ground arith in
                let a : addr_of s bn ≡ words (bn - ndirect) =
                  ap (addr_of s) (sym q) ∙ entry-addr (bn - ndirect) (ground arith) in
                let y =
                  hit-true words nindirect 0 (addr_of s bn) (bn - ndirect) (omega arith)
                    (ground arith) (λ z. n (a ∙ z)) (sym a) in
                ground (arith, x.bits (addr_of s bn) inside, y)
          ];
      freed_indirect = λ n. ground (arith, x.bits (s.ip.addrs ndirect) (f.indirect i).inside);
      still_used = λ c h m k.
          let a = no-direct-hit c (λ j q. m j (omega arith)) in
          let b = no-word-hit c (λ j q. m (j + ndirect) (omega arith)) in
          ground (arith, x.bits c h, a, b, k i);
    }

  -- Without an indirect block.
  pub without-GivesBack :
      (d : Disk)
      → s.ip.addrs ndirect ≡ 0
      → Frees (hit s.ip.addrs ndirect 0) s.disk d
      → GivesBack s d
  without-GivesBack d z x = record {
    same_sb = x.same_sb;
    freed = λ bn h n. elim (Bool-cases (ltb bn ndirect)) [
      | inl e ↦
          let a = direct-addr s bn (ground arith) in
          let y =
            hit-true s.ip.addrs ndirect 0 (addr_of s bn) bn (omega arith) (ground arith)
              (λ z. n (a ∙ z)) (sym a) in
          ground (arith, x.bits (addr_of s bn) (f.blocks bn h n).inside, y)
      | inr e ↦ absurd (n (no-indirect-addr s bn (ground arith) z))
    ];
    freed_indirect = λ n. absurd (n z);
    still_used = λ c h m k.
        let a = no-direct-hit c (λ j q. m j (omega arith)) in ground (arith, x.bits c h, a);
  }
