-- ===== src/Log/Loops.antt =====
-- The two copying loops of log.c as one, and what it does to each block, whenever the power fails.
use operating_systems_projec.Prelude.{
  ℕ, zero, suc, ◌+◌, ◌-◌, ◌≤◌, ◌<◌, ◌≡◌, ◌≢◌, refl, ◌∙◌, none, leb, ltb, ◌&&◌, if◌then◌else◌,
  update, arith, ℕ_discrete,
}
use operating_systems_projec.Log.Disk.{Block, Log, bread, bwrite}
use operating_systems_projec.Log.Commit.{
  copy_words, install_block, install_from, log_block, write_log_from,
}

-- `dst(i) := src(i)` for the `rounds` values of `i` from `t` on.
pub transfer : (dst src : ℕ → ℕ) (rounds t : ℕ) → Log → Log
transfer dst src zero t l = l
transfer dst src (suc r) t l = transfer dst src r (t + 1) (bwrite (dst t) (bread l (src t)) l)

pub install_from-eq-transfer :
    (r t : ℕ) (l : Log) → install_from r t l ≡ transfer l.lh.block (λ i. l.start + i + 1) r t l
unfolding install_from install_block transfer
install_from-eq-transfer zero t l = refl
install_from-eq-transfer (suc r) t l = install_from-eq-transfer r (t + 1) (install_block t l)

pub write_log_from-eq-transfer :
    (r t : ℕ) (l : Log) → write_log_from r t l ≡ transfer (λ i. l.start + i + 1) l.lh.block r t l
unfolding write_log_from log_block transfer
write_log_from-eq-transfer zero t l = refl
write_log_from-eq-transfer (suc r) t l = write_log_from-eq-transfer r (t + 1) (log_block t l)

-- What a loop leaves alone beside the disk and the buffers.
pub record Frame (l m : Log) : Type 0 where
  pub start : m.start ≡ l.start
  pub size : m.size ≡ l.size
  pub lh : m.lh ≡ l.lh

module _ (dst src : ℕ → ℕ) where
  pub transfer-Frame : (r t : ℕ) (l : Log) → Frame l (transfer dst src r t l)
  unfolding transfer bwrite
  transfer-Frame zero t l = record { start = refl; size = refl; lh = refl }
  transfer-Frame (suc r) t l =
      let f = transfer-Frame r (t + 1) (bwrite (dst t) (bread l (src t)) l) in
      record { start = f.start; size = f.size; lh = f.lh }

  pub power-transfer : (r t : ℕ) (l : Log) → (transfer dst src r t l).power ≡ l.power - r
  unfolding transfer bwrite
  power-transfer zero t l = omega arith
  power-transfer (suc r) t l =
      omega (arith, power-transfer r (t + 1) (bwrite (dst t) (bread l (src t)) l))

  -- A block that is no target keeps its contents, on the disk and in its buffer.
  pub transfer_ne :
      (r t b : ℕ) (l : Log)
      → ((i : ℕ) → t ≤ i → i < t + r → dst i ≢ b)
      → ((transfer dst src r t l).disk b ≡ l.disk b)
        × ((transfer dst src r t l).pinned b ≡ l.pinned b)
  unfolding transfer bwrite
  transfer_ne zero t b l h = (refl, refl)
  transfer_ne (suc r) t b l h = ground (
    arith,
    h t,
    transfer_ne r (t + 1) b (bwrite (dst t) (bread l (src t)) l)
        λ (i : ℕ) (p : t + 1 ≤ i) (q : i < t + 1 + r). h i (omega arith) (omega arith),
  )

  -- A buffer that is not pinned stays so, and a target's buffer is no longer pinned.
  pub transfer_unpinned :
      (r t b : ℕ) (l : Log) → l.pinned b ≡ none → (transfer dst src r t l).pinned b ≡ none
  unfolding transfer bwrite
  transfer_unpinned zero t b l h = h
  transfer_unpinned (suc r) t b l h =
      transfer_unpinned r (t + 1) b (bwrite (dst t) (bread l (src t)) l) (ground arith)

  pub transfer-pinned :
      (r t i : ℕ) (l : Log) → t ≤ i → i < t + r → (transfer dst src r t l).pinned (dst i) ≡ none
  unfolding transfer bwrite
  transfer-pinned zero t i l a b = absurd (omega arith)
  transfer-pinned (suc r) t i l a b = elim (ℕ_discrete t i) [
    | yes e ↦
        transfer_unpinned r (t + 1) (dst i) (bwrite (dst t) (bread l (src t)) l)
          (rw e (ground arith))
    | no e ↦
        transfer-pinned r (t + 1) i (bwrite (dst t) (bread l (src t)) l) (omega arith) (omega arith)
  ]

-- Each target `dst(i)` is to hold `f (dst i)`, which stands in the source `src(i)`; no source is a
-- target.
module _ (dst src : ℕ → ℕ) (f : ℕ → Block) (n : ℕ)
    (apart : (i j : ℕ) → i < n → j < n → dst j ≢ src i) where
  abbrev pub Ready : Log → Type 0
  Ready l = (i : ℕ) → i < n → bread l (src i) ≡ f (dst i)

  Ready-step : (t : ℕ) (l : Log) → t < n → Ready l → Ready (bwrite (dst t) (bread l (src t)) l)
  unfolding bwrite
  Ready-step t l lt h i p = ground (arith, h i p, apart i t p lt)

  keep_step :
      (t b : ℕ) (l : Log)
      → t < n
      → Ready l
      → l.disk b ≡ f b
      → (bwrite (dst t) (bread l (src t)) l).disk b ≡ f b
  unfolding bwrite
  keep_step t b l lt h e = elim (ℕ_discrete (dst t) b) [
    | yes q ↦ rw (← q) (ground (arith, h t lt))
    | no q ↦ ground arith
  ]

  -- A block that holds what it is to hold keeps it, wherever the power fails.
  pub transfer_keep :
      (r t b : ℕ) (l : Log)
      → t + r ≤ n
      → Ready l
      → l.disk b ≡ f b
      → (transfer dst src r t l).disk b ≡ f b
  unfolding transfer
  transfer_keep zero t b l le h e = e
  transfer_keep (suc r) t b l le h e =
      transfer_keep r (t + 1) b (bwrite (dst t) (bread l (src t)) l) (omega arith)
        (Ready-step t l (omega arith) h) (keep_step t b l (omega arith) h e)

  hit_step :
      (t : ℕ) (l : Log)
      → t < n
      → Ready l
      → 0 < l.power
      → (bwrite (dst t) (bread l (src t)) l).disk (dst t) ≡ f (dst t)
  unfolding bwrite
  hit_step t l lt h p = ground (arith, h t lt)

  -- With the power on throughout, every target holds what it is to hold.
  pub transfer_hit :
      (r t i : ℕ) (l : Log)
      → t + r ≤ n
      → r ≤ l.power
      → Ready l
      → t ≤ i
      → i < t + r
      → (transfer dst src r t l).disk (dst i) ≡ f (dst i)
  unfolding transfer
  transfer_hit zero t i l le p h a b = absurd (omega arith)
  transfer_hit (suc r) t i l le p h a b = elim (ℕ_discrete t i) [
    | yes e ↦ rw (← e) (
        transfer_keep r (t + 1) (dst t) (bwrite (dst t) (bread l (src t)) l) (omega arith)
          (Ready-step t l (omega arith) h) (hit_step t l (omega arith) h (omega arith)))
    | no e ↦
        transfer_hit r (t + 1) i (bwrite (dst t) (bread l (src t)) l) (omega arith)
          (unfold bwrite in omega arith) (Ready-step t l (omega arith) h) (omega arith)
          (omega arith)
  ]

-- Without power nothing reaches the disk.
pub disk-transfer_off :
    (dst src : ℕ → ℕ) (r t : ℕ) (l : Log) → l.power ≡ 0 → (transfer dst src r t l).disk ≡ l.disk
unfolding transfer bwrite
disk-transfer_off dst src zero t l h = refl
disk-transfer_off dst src (suc r) t l h =
    disk-transfer_off dst src r (t + 1) (bwrite (dst t) (bread l (src t)) l) (omega arith)
    ∙ (ground arith)

-- `copy_words` copies the words of its range.
pub copy_words_lem :
    (r t i : ℕ) (from to : ℕ → ℕ)
    → copy_words r t from to i ≡ (if leb t i && ltb i (t + r) then from i else to i)
unfolding copy_words
copy_words_lem zero t i from to = ground arith
copy_words_lem (suc r) t i from to = elim (ℕ_discrete t i) [
  | yes e ↦ ground (arith, copy_words_lem r (t + 1) i from (update to t (from t)))
  | no e ↦ ground (arith, copy_words_lem r (t + 1) i from (update to t (from t)))
]

-- A loop changes the disk, the buffers and the power, and nothing else.
pub transfer-eq :
    (dst src : ℕ → ℕ) (r t : ℕ) (l : Log)
    → let m = transfer dst src r t l in
      m ≡ record l { disk = m.disk; pinned = m.pinned; power = m.power }
unfolding transfer bwrite
transfer-eq dst src zero t l = refl
transfer-eq dst src (suc r) t l = transfer-eq dst src r (t + 1) (bwrite (dst t) (bread l (src t)) l)
