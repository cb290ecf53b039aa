-- ===== src/Log/Atomic.antt =====
-- commit is atomic: wherever the power fails, the disk stands for the old contents or for the new.
use operating_systems_projec.Prelude.{
  ℕ, suc, ◌+◌, ◌-◌, ◌*◌, ◌≤◌, ◌<◌, ◌≡◌, ◌≢◌, refl, ap, sym, ◌∙◌, ◌⊎◌, inl, inr, none, arith, List,
  lt→ltb, dec_lt,
}
use operating_systems_projec.Log.Disk.{Block, Log, bread, bwrite}
use operating_systems_projec.Log.Commit.{write_head, write_log, commit, initlog}
use operating_systems_projec.Log.Recovery.{boots, recovery_complete}
use operating_systems_projec.Log.Loops.{
  transfer, transfer-eq, write_log_from-eq-transfer, power-transfer, transfer_ne, transfer-pinned,
  transfer_unpinned, transfer_hit,
}
use operating_systems_projec.Log.Install.{
  IsHome, Holds, Holds-of_clear, Installs, IsWritten, finish, finish-Holds, finish_done,
  write_head-on, write_head-off, write_head_ne, bread-unpinned, finish_off,
}

-- What holds when end_op calls commit: the header names home blocks and fits into the log, the log on
-- disk is empty, no block of the log area is pinned, and every pinned home block is named.
pub record CanCommit (l : Log) : Type 0 where
  pub fits : l.lh.n < l.size
  pub homes : (i : ℕ) → i < l.lh.n → IsHome l.start l.size (l.lh.block i)
  pub clean : l.disk l.start 0 ≡ 0
  pub log_free : (b : ℕ) → l.start ≤ b → b < l.start + l.size → l.pinned b ≡ none
  pub named :
      (b : ℕ)
      → IsHome l.start l.size b
      → ((i : ℕ) × (i < l.lh.n) × (l.lh.block i ≡ b)) ⊎ (l.pinned b ≡ none)

module _ (l : Log) (v : CanCommit l) where
  slot : ℕ → ℕ
  slot i = l.start + i + 1

  -- After write_log.
  unfoldable pub written : Log
  written = transfer (λ i. l.start + i + 1) l.lh.block l.lh.n 0 l

  pub written_same :
      (b : ℕ)
      → ((i : ℕ) → i < l.lh.n → l.start + i + 1 ≢ b)
      → (written.disk b ≡ l.disk b) × (written.pinned b ≡ l.pinned b)
  unfolding written
  written_same b h =
      transfer_ne (λ i. l.start + i + 1) l.lh.block l.lh.n 0 b l (λ i _ p. h i (omega arith))

  written_home : (b : ℕ) → IsHome l.start l.size b → written.disk b ≡ l.disk b
  written_home b h = (written_same b (λ i p. ground (arith, v.fits))).0

  written_slot :
      l.lh.n ≤ l.power
      → (i : ℕ) → i < l.lh.n
      → written.disk (l.start + i + 1) ≡ bread l (l.lh.block i)
  unfolding written
  written_slot p i h =
      transfer_hit (λ i. l.start + i + 1) l.lh.block (λ b. bread l (l.lh.block (b - l.start - 1)))
        l.lh.n (λ i j p q. ground (arith, v.homes i p, v.fits)) l.lh.n 0 i l (omega arith) p
        (λ i p. back i) (omega arith) (omega arith)
      ∙ sym (back i)
    where
      back : (i : ℕ) → bread l (l.lh.block i) ≡ bread l (l.lh.block (l.start + i + 1 - l.start - 1))
      back i = ap (λ k. bread l (l.lh.block k)) (omega arith)

  written_free : (i : ℕ) → i < l.lh.n → written.pinned (l.start + i + 1) ≡ none
  unfolding written
  written_free i h =
      transfer-pinned (λ i. l.start + i + 1) l.lh.block l.lh.n 0 i l (omega arith) (omega arith)

  pub written_unpinned : (b : ℕ) → l.pinned b ≡ none → written.pinned b ≡ none
  unfolding written
  written_unpinned b h = transfer_unpinned (λ i. l.start + i + 1) l.lh.block l.lh.n 0 b l h

  power_written : written.power ≡ l.power - l.lh.n
  unfolding written
  power_written = power-transfer (λ i. l.start + i + 1) l.lh.block l.lh.n 0 l

  -- The same state, with the fields that do not change shown.
  unfoldable pub logged : Log
  logged = record l { disk = written.disk; pinned = written.pinned; power = written.power }

  written-eq : written ≡ logged
  unfolding written logged
  written-eq = transfer-eq (λ i. l.start + i + 1) l.lh.block l.lh.n 0 l

  write_log-eq : write_log l ≡ logged
  unfolding write_log written
  write_log-eq = write_log_from-eq-transfer l.lh.n 0 l ∙ written-eq

  pub commit-eq : 0 < l.lh.n → commit l ≡ finish (write_head logged)
  unfolding commit
  commit-eq p = rw (lt→ltb 0 l.lh.n p, write_log-eq)

  -- With power left behind write_log, the header names the blocks and the log holds them.
  module _ (on : l.lh.n < l.power) where
    head : Log
    unfolding logged
    head = write_head logged

    head_ne : (b : ℕ) → l.start ≢ b → head.disk b ≡ written.disk b
    unfolding head
    head_ne b h = write_head_ne logged b h

    head_on :
        (head.disk l.start 0 ≡ l.lh.n)
        × ((i : ℕ) → i < l.lh.n → head.disk l.start (suc i) ≡ l.lh.block i)
    unfolding head
    head_on = write_head-on logged (omega (arith, power_written))

    head_slot : (i : ℕ) → i < l.lh.n → head.disk (l.start + i + 1) ≡ bread l (l.lh.block i)
    head_slot i h = head_ne (l.start + i + 1) (omega arith) ∙ written_slot (omega arith) i h

    head_free : (i : ℕ) → i < l.lh.n → head.pinned (l.start + i + 1) ≡ none
    unfolding head write_head bwrite
    head_free i h = ground (arith, written_free i h)

    bread_slot : (i : ℕ) → i < l.lh.n → bread head (l.start + i + 1) ≡ head.disk (l.start + i + 1)
    bread_slot i h = bread-unpinned head (l.start + i + 1) (head_free i h)

    head-placed : (b : ℕ) → IsHome l.start l.size b → l.pinned b ≡ none → head.disk b ≡ bread l b
    head-placed b h e =
        head_ne b (ground (arith, v.fits)) ∙ written_home b h ∙ sym (bread-unpinned l b e)

    head-Installs : Installs (bread l) head
    unfolding head write_head bwrite
    head-Installs = record {
      fits = v.fits;
      homes = v.homes;
      ready = λ i p. bread_slot i p ∙ head_slot i p;
      placed = λ b h. elim (v.named b h) [ inl k ↦ inl k | inr e ↦ inr (head-placed b h e) ];
    }

    head-IsWritten : IsWritten head
    unfolding head write_head bwrite
    head-IsWritten = record {
      count = head_on.0;
      words = head_on.1;
      logs = λ i p. sym (bread_slot i p);
    }

    committed-Holds : 0 < l.lh.n → Holds l.start l.size (bread l) (commit l).disk
    unfolding head write_head bwrite
    committed-Holds p = rw (commit-eq p) (finish-Holds (bread l) head head-Installs head-IsWritten)

    committed_done :
        0 < l.lh.n
        → 2 * l.lh.n + 1 < l.power
        → ((commit l).disk l.start 0 ≡ 0)
          × ((b : ℕ) → IsHome l.start l.size b → (commit l).disk b ≡ bread l b)
    unfolding head write_head bwrite
    committed_done p q =
        rw (commit-eq p) (finish_done (bread l) head head-Installs (omega (arith, power_written)))

  -- Without, the disk is that of write_log.
  aborted : 0 < l.lh.n → l.power ≤ l.lh.n → (commit l).disk ≡ written.disk
  unfolding logged write_head bwrite
  aborted p q =
      ap (λ m. m.disk) (commit-eq p)
      ∙ finish_off (write_head logged) (omega (arith, power_written))
      ∙ write_head-off logged (omega (arith, power_written))

  aborted-Holds : 0 < l.lh.n → l.power ≤ l.lh.n → Holds l.start l.size l.disk (commit l).disk
  aborted-Holds p q = rw (aborted p q) (
      Holds-of_clear l.start l.size l.disk written.disk (omega (arith, v.fits))
        (ap (λ w. w 0) (written_same l.start (λ i _. omega arith)).0 ∙ v.clean) written_home)

pub commit_zero : (l : Log) → l.lh.n ≡ 0 → commit l ≡ l
unfolding commit
commit_zero l e = rw e

idle-Holds :
    (l : Log)
    → CanCommit l
    → (f : ℕ → Block) → ((b : ℕ) → IsHome l.start l.size b → l.disk b ≡ f b)
    → Holds l.start l.size f l.disk
idle-Holds l v f e = Holds-of_clear l.start l.size f l.disk (omega (arith, v.fits)) v.clean e

idle_new :
    (l : Log) → CanCommit l → l.lh.n ≡ 0 → (b : ℕ) → IsHome l.start l.size b → l.disk b ≡ bread l b
idle_new l v e b h = elim (v.named b h) [
  | inl (i, lt, _) ↦ absurd (omega arith)
  | inr u ↦ sym (bread-unpinned l b u)
]

-- If the power fails at or before the last of the `n` writes of write_log, the disk stands for the
-- contents before the transaction; if it fails later, or not at all, for the contents with every
-- logged block.
pub commit_atomic :
    (l : Log)
    → CanCommit l
    → (l.power ≤ l.lh.n → Holds l.start l.size l.disk (commit l).disk)
      × (l.lh.n < l.power → Holds l.start l.size (bread l) (commit l).disk)
commit_atomic l v = elim (dec_lt 0 l.lh.n) [
  | yes p ↦ (aborted-Holds l v p, λ q. committed-Holds l v q p)
  | no p ↦ rw (commit_zero l (omega arith)) (
    (λ _. idle-Holds l v l.disk (λ b _. refl)),
    (λ _. idle-Holds l v (bread l) (idle_new l v (omega arith))),
  )
]

-- With power for its `2 n + 2` writes, commit puts every logged block in place and leaves an empty
-- log on disk.
pub commit_done :
    (l : Log)
    → CanCommit l
    → 2 * l.lh.n + 1 < l.power
    → ((commit l).disk l.start 0 ≡ 0)
      × ((b : ℕ) → IsHome l.start l.size b → (commit l).disk b ≡ bread l b)
commit_done l v q = elim (dec_lt 0 l.lh.n) [
  | yes p ↦ committed_done l v (omega arith) p q
  | no p ↦ rw (commit_zero l (omega arith)) (v.clean, idle_new l v (omega arith))
]

-- A transaction that is cut off anywhere, then any number of boots that are cut off, then a boot that
-- is not. If the power failed within write_log, every home block holds what it held on disk before the
-- transaction; if it failed later, or not at all, every home block holds what bread gave before commit.
pub crash_safe :
    (l : Log)
    → CanCommit l
    → (ps : List ℕ) (power : ℕ) → l.size ≤ power
    → (b : ℕ) → IsHome l.start l.size b
    → let last = initlog l.start l.size power (boots l.start l.size ps (commit l).disk) in
      ((l.power ≤ l.lh.n) × (last.disk b ≡ l.disk b))
      ⊎ ((l.lh.n < l.power) × (last.disk b ≡ bread l b))
crash_safe l v ps power p b h = elim (dec_lt l.lh.n l.power) [
  | yes q ↦ inr (
    q,
    (recovery_complete l.start l.size power (bread l) ps (commit l).disk ((commit_atomic l v).1 q) p
        b h).1,
  )
  | no q ↦
      let q' : l.power ≤ l.lh.n = omega arith in
      inl (
        q',
        (recovery_complete l.start l.size power l.disk ps (commit l).disk ((commit_atomic l v).0 q')
            p b h).1,
      )
]
