-- ===== src/Log/Install.antt =====
-- What a disk stands for, and what the end of commit and of recovery, install_trans and the clearing
-- of the header, makes of it, whenever the power fails.
use operating_systems_projec.Prelude.{
  ℕ, suc, ◌+◌, ◌-◌, ◌≤◌, ◌<◌, ◌≡◌, ◌≢◌, ap, sym, ◌∙◌, ◌⊎◌, inl, inr, none, arith, dec_lt,
}
use operating_systems_projec.Log.Disk.{Block, Log, bread, bwrite}
use operating_systems_projec.Log.Commit.{install_trans, head_block, write_head, clear}
use operating_systems_projec.Log.Loops.{
  transfer, install_from-eq-transfer, transfer-Frame, power-transfer, transfer_ne, transfer_keep,
  transfer_hit, disk-transfer_off, copy_words_lem,
}

-- A block that is not in the log area.
abbrev pub IsHome : (start size b : ℕ) → Type 0
IsHome start size b = (b < start) ⊎ (start + size ≤ b)

-- The disk stands for the contents `f` of the home blocks: each block named in the header on disk is
-- to be copied from the log, where its contents are, and every other home block is in place.
pub record Holds (start size : ℕ) (f : ℕ → Block) (disk : ℕ → Block) : Type 0 where
  pub fits : disk start 0 < size
  pub homes : (i : ℕ) → i < disk start 0 → IsHome start size (disk start (suc i))
  pub logged : (i : ℕ) → i < disk start 0 → disk (start + i + 1) ≡ f (disk start (suc i))
  pub placed :
      (b : ℕ)
      → IsHome start size b
      → ((i : ℕ) × (i < disk start 0) × (disk start (suc i) ≡ b)) ⊎ (disk b ≡ f b)

-- The header in memory, and the log on disk, say how to reach `f`.
pub record Installs (f : ℕ → Block) (l : Log) : Type 0 where
  pub fits : l.lh.n < l.size
  pub homes : (i : ℕ) → i < l.lh.n → IsHome l.start l.size (l.lh.block i)
  pub ready : (i : ℕ) → i < l.lh.n → bread l (l.start + i + 1) ≡ f (l.lh.block i)
  pub placed :
      (b : ℕ)
      → IsHome l.start l.size b
      → ((i : ℕ) × (i < l.lh.n) × (l.lh.block i ≡ b)) ⊎ (l.disk b ≡ f b)

-- `write_head` puts the header into the words of block `start`, and changes no other block.
module _ (l : Log) where
  pub write_head-on :
      0 < l.power
      → ((write_head l).disk l.start 0 ≡ l.lh.n)
        × ((i : ℕ) → i < l.lh.n → (write_head l).disk l.start (suc i) ≡ l.lh.block i)
  unfolding write_head head_block bwrite
  write_head-on p = (
    ground arith,
    λ i h.
        ground (arith, copy_words_lem l.lh.n 0 i l.lh.block (λ (j : ℕ). bread l l.start (suc j))),
  )

  pub write_head-off : l.power ≡ 0 → (write_head l).disk ≡ l.disk
  unfolding write_head bwrite
  write_head-off p = ground arith

  pub write_head_ne : (b : ℕ) → l.start ≢ b → (write_head l).disk b ≡ l.disk b
  unfolding write_head bwrite
  write_head_ne b h = ground arith

module _ (f : ℕ → Block) (l : Log) (v : Installs f l) where
  apart : (i j : ℕ) → i < l.lh.n → j < l.lh.n → l.lh.block j ≢ l.start + i + 1
  apart i j p q = ground (arith, v.homes j q, v.fits)

  installed : Log
  installed = transfer l.lh.block (λ i. l.start + i + 1) l.lh.n 0 l

  installed_keep : (b : ℕ) → l.disk b ≡ f b → installed.disk b ≡ f b
  unfolding installed
  installed_keep b e =
      transfer_keep l.lh.block (λ i. l.start + i + 1) f l.lh.n apart l.lh.n 0 b l (omega arith)
        v.ready e

  installed_hit :
      l.lh.n ≤ l.power → (i : ℕ) → i < l.lh.n → installed.disk (l.lh.block i) ≡ f (l.lh.block i)
  unfolding installed
  installed_hit p i h =
      transfer_hit l.lh.block (λ i. l.start + i + 1) f l.lh.n apart l.lh.n 0 i l (omega arith) p
        v.ready (omega arith) (omega arith)

  -- The log area is not touched.
  installed_log : (b : ℕ) → l.start ≤ b → b < l.start + l.size → installed.disk b ≡ l.disk b
  unfolding installed
  installed_log b p q =
      (transfer_ne l.lh.block (λ i. l.start + i + 1) l.lh.n 0 b l
        (λ i _ h. let k : i < l.lh.n = omega arith in ground (arith, v.homes i k))).0

  installed_all : l.lh.n ≤ l.power → (b : ℕ) → IsHome l.start l.size b → installed.disk b ≡ f b
  installed_all p b h = elim (v.placed b h) [
    | inl (i, lt, e) ↦ rw (← e) (installed_hit p i lt)
    | inr e ↦ installed_keep b e
  ]

  install_trans-eq : install_trans l ≡ installed
  unfolding install_trans installed
  install_trans-eq = install_from-eq-transfer l.lh.n 0 l

-- `install_trans(); log.lh.n = 0; write_head();`
abbrev pub finish : Log → Log
finish l = write_head (clear (install_trans l))

-- The header in memory is the header on disk.
pub record IsWritten (l : Log) : Type 0 where
  pub count : l.disk l.start 0 ≡ l.lh.n
  pub words : (i : ℕ) → i < l.lh.n → l.disk l.start (suc i) ≡ l.lh.block i
  pub logs : (i : ℕ) → i < l.lh.n → l.disk (l.start + i + 1) ≡ bread l (l.start + i + 1)

module _ (f : ℕ → Block) (l : Log) (v : Installs f l) where
  -- A disk with the log area of `l`, on which blocks in place have stayed in place.
  Holds-of_same :
      IsWritten l
      → (d : ℕ → Block) → ((b : ℕ) → l.start ≤ b → b < l.start + l.size → d b ≡ l.disk b)
      → ((b : ℕ) → l.disk b ≡ f b → d b ≡ f b)
      → Holds l.start l.size f d
  Holds-of_same w d same keep = record {
    fits = rw (head, w.count) v.fits;
    homes = λ i h. rw (word i (named i h)) (v.homes i (named i h));
    logged = λ i h.
        same (l.start + i + 1) (omega arith) (omega (arith, named i h, v.fits))
        ∙ w.logs i (named i h)
        ∙ v.ready i (named i h)
        ∙ ap f (sym (word i (named i h)));
    placed = λ b h. elim (v.placed b h) [
      | inl (i, lt, e) ↦ inl (i, (rw (head, w.count) lt), word i lt ∙ e)
      | inr e ↦ inr (keep b e)
    ];
  }
    where
      head : d l.start ≡ l.disk l.start
      head = same l.start (omega arith) (omega (arith, v.fits))

      named : (i : ℕ) → i < d l.start 0 → i < l.lh.n
      named i h = rw (head, w.count) at h

      word : (i : ℕ) → i < l.lh.n → d l.start (suc i) ≡ l.lh.block i
      word i h = ap (λ g. g (suc i)) head ∙ w.words i h

pub Holds-of_clear :
    (start size : ℕ) (f d : ℕ → Block)
    → 0 < size
    → d start 0 ≡ 0
    → ((b : ℕ) → IsHome start size b → d b ≡ f b)
    → Holds start size f d
Holds-of_clear start size f d h e all = record {
  fits = omega arith;
  homes = λ i p. absurd (omega arith);
  logged = λ i p. absurd (omega arith);
  placed = λ b p. inr (all b p);
}

module _ (f : ℕ → Block) (l : Log) (v : Installs f l) where
  cleared : Log
  unfolding installed
  cleared = clear (installed f l v)

  finish-eq : finish l ≡ write_head cleared
  unfolding cleared
  finish-eq = rw (install_trans-eq f l v)

  start_cleared : cleared.start ≡ l.start
  unfolding cleared
  start_cleared = (transfer-Frame l.lh.block (λ i. l.start + i + 1) l.lh.n 0 l).start

  power_cleared : cleared.power ≡ l.power - l.lh.n
  unfolding cleared
  power_cleared = power-transfer l.lh.block (λ i. l.start + i + 1) l.lh.n 0 l

  -- With power to the end, every home block is in place and the header on disk is empty.
  pub finish_done :
      l.lh.n < l.power
      → ((finish l).disk l.start 0 ≡ 0)
        × ((b : ℕ) → IsHome l.start l.size b → (finish l).disk b ≡ f b)
  finish_done p = (
    rw (finish-eq, ← start_cleared)
        (unfold cleared in (write_head-on cleared (omega (arith, power_cleared))).0),
    λ b h.
        ap (λ m. m.disk b) finish-eq
        ∙ write_head_ne cleared b (ground (arith, start_cleared, v.fits))
        ∙ (unfold cleared in installed_all f l v (omega arith) b h),
  )

  -- Wherever the power fails, the disk still stands for `f`.
  pub finish-Holds : IsWritten l → Holds l.start l.size f (finish l).disk
  finish-Holds w = elim (dec_lt l.lh.n l.power) [
    | yes p ↦
        Holds-of_clear l.start l.size f (finish l).disk (omega (arith, v.fits)) (finish_done p).0
          (finish_done p).1
    | no p ↦
        rw (finish-eq, write_head-off cleared (omega (arith, power_cleared)))
          (unfold cleared in
            Holds-of_same f l v w (installed f l v).disk (installed_log f l v)
              (installed_keep f l v))
  ]

-- Without power the disk stays as it is.
pub finish_off : (l : Log) → l.power ≡ 0 → (finish l).disk ≡ l.disk
unfolding install_trans
finish_off l p = rw (install_from-eq-transfer l.lh.n 0 l) (
    write_head-off (clear (transfer l.lh.block (λ i. l.start + i + 1) l.lh.n 0 l))
      (omega (arith, power-transfer l.lh.block (λ i. l.start + i + 1) l.lh.n 0 l))
    ∙ disk-transfer_off l.lh.block (λ i. l.start + i + 1) l.lh.n 0 l p)

pub bread-unpinned : (l : Log) (b : ℕ) → l.pinned b ≡ none → bread l b ≡ l.disk b
bread-unpinned l b h = ground arith
