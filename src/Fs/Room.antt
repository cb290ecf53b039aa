-- ===== src/Fs/Room.antt =====
-- How few blocks of the disk are free where writei finds no room.
use operating_systems_projec.Prelude.{
  ℕ, ◌+◌, ◌/◌, ◌≤◌, ◌<◌, ◌≡◌, ◌≢◌, sym, ap, ◌∙◌, inl, inr, ◌==◌, Bool-cases, arith,
}
use mathlib.Core.Path.{subst}
use operating_systems_projec.Fs.{Superblock, bsize}
use operating_systems_projec.Fs.Bitmap.{used}
use operating_systems_projec.Fs.Inode.{Work, ndirect}
use operating_systems_projec.Fs.Layout.{addr_of, IsFile}
use operating_systems_projec.Fs.Bmap.{AlmostFull, HasBlock}
use operating_systems_projec.Fs.Writes.{Keeps}
use operating_systems_projec.Fs.ReadWrite.{Within}

-- Block `b` is free, and neither `ind` nor what `at` gives for a block of the range.
abbrev pub Spare : (off n : ℕ) → Work → (ind : ℕ) → (at : ℕ → ℕ) → ℕ → Type 0
Spare off n s ind at b =
    (b < s.disk.sb.size)
    × (used s.disk b ≡ 0)
    × (b ≢ ind)
    × ((k : ℕ) → off ≤ k → k < off + n → at (k / bsize) ≢ b)

-- At most one block of the disk is free, besides one for the indirect block and one for each block of
-- the range.
abbrev pub Crowded : (off n : ℕ) → Work → Type 0
Crowded off n s =
    (ind : ℕ) × (at : ℕ → ℕ) × ((b c : ℕ) → Spare off n s ind at b → Spare off n s ind at c → b ≡ c)

module _ (off n : ℕ) (s t : Work) (f : IsFile s) (k : Keeps s t) (w : Within off n s t) where
  no_owner : (b : ℕ) → Spare off n s (t.ip.addrs ndirect) (addr_of t) b → HasBlock t b → ⊥
  no_owner b (h, u, i, a) (z, inl e) = i (sym e)
  no_owner b (h, u, i, a) (z, inr (bn, l, e)) =
      let old : addr_of t bn ≡ addr_of s bn = w bn l (λ j p q r. a j p q (ap (addr_of t) r ∙ e)) in
      let same : addr_of s bn ≡ b = sym old ∙ e in
      (f.blocks bn l (λ y. z (sym same ∙ y))).taken (subst (λ c. used s.disk c ≡ 0) (sym same) u)

  still_free : (b : ℕ) → Spare off n s (t.ip.addrs ndirect) (addr_of t) b → used t.disk b ≡ 0
  still_free b p = elim (Bool-cases (used t.disk b == 0)) [
    | inl e ↦ ground arith
    | inr e ↦ absurd (no_owner b p (k.new b p.0 p.1 (ground arith)))
  ]

  pub crowded : AlmostFull t → Crowded off n s
  crowded full = (
    t.ip.addrs ndirect,
    addr_of t,
    λ b c p q.
        full b c (subst (λ (sb : ℕ). b < sb) (size_back) p.0)
          (subst (λ (sb : ℕ). c < sb) (size_back) q.0) (still_free b p) (still_free c q),
  )
    where
      size_back : s.disk.sb.size ≡ t.disk.sb.size
      size_back = sym (ap (λ (x : Superblock). x.size) k.same_sb)
