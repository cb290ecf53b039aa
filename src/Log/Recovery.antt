-- ===== src/Log/Recovery.antt =====
-- Recovery at boot: initlog on any disk that stands for some contents, through any number of crashes.
use operating_systems_projec.Prelude.{
  ℕ, suc, ◌≤◌, ◌<◌, ◌≡◌, refl, sym, ◌∙◌, inl, inr, none, arith, List, [], ◌∷◌, false,
}
use operating_systems_projec.Prelude.Int.{pos}
use operating_systems_projec.Log.Disk.{Block, Log}
use operating_systems_projec.Log.Commit.{read_head, initlog}
use operating_systems_projec.Log.Loops.{copy_words_lem}
use operating_systems_projec.Log.Install.{
  IsHome, Holds, Installs, IsWritten, finish-Holds, finish_done,
}

module _ (start size power : ℕ) (f disk : ℕ → Block) (h : Holds start size f disk) where
  booted : Log
  booted = record {
    start = start;
    size = size;
    outstanding = pos 0;
    committing = false;
    lh = record { n = 0; block = λ _. 0 };
    disk = disk;
    pinned = λ _. none;
    power = power;
    wakeups = 0;
  }

  -- The header as read_head leaves it in memory.
  word_read : (i : ℕ) → i < disk start 0 → (read_head booted).lh.block i ≡ disk start (suc i)
  unfolding read_head booted
  word_read i p =
      ground
        (arith, copy_words_lem (disk start 0) 0 i (λ (j : ℕ). disk start (suc j)) (λ (j : ℕ). 0))

  read_head-Installs : Installs f (read_head booted)
  unfolding read_head booted
  read_head-Installs = record {
    fits = h.fits;
    homes = λ i p. rw (word_read i p) (h.homes i p);
    ready = λ i p. rw (word_read i p) (h.logged i p);
    placed = λ b p. elim (h.placed b p) [
      | inl (i, lt, e) ↦ inl (i, lt, word_read i lt ∙ e)
      | inr e ↦ inr e
    ];
  }

  read_head-IsWritten : IsWritten (read_head booted)
  unfolding read_head booted
  read_head-IsWritten = record {
    count = refl;
    words = λ i p. sym (word_read i p);
    logs = λ i p. refl;
  }

  initlog-Holds : Holds start size f (initlog start size power disk).disk
  unfolding initlog read_head booted
  initlog-Holds = finish-Holds f (read_head booted) read_head-Installs read_head-IsWritten

  initlog_done :
      disk start 0 < power
      → ((initlog start size power disk).disk start 0 ≡ 0)
        × ((b : ℕ) → IsHome start size b → (initlog start size power disk).disk b ≡ f b)
  unfolding initlog read_head booted
  initlog_done p = finish_done f (read_head booted) read_head-Installs p

-- Boots that are cut off, the power of each given in disk writes.
unfoldable pub boots : (start size : ℕ) → List ℕ → (ℕ → Block) → ℕ → Block
boots start size [] disk = disk
boots start size (p ∷ ps) disk = boots start size ps (initlog start size p disk).disk

pub boots-Holds :
    (start size : ℕ) (f : ℕ → Block) (ps : List ℕ) (disk : ℕ → Block)
    → Holds start size f disk
    → Holds start size f (boots start size ps disk)
unfolding boots
boots-Holds start size f [] disk h = h
boots-Holds start size f (p ∷ ps) disk h =
    boots-Holds start size f ps (initlog start size p disk).disk
      (initlog-Holds start size p f disk h)

-- A disk that stands for `f`: after any number of boots that lose power at any of their disk writes,
-- a boot with power for as many writes as the log has blocks puts `f b` into every home block `b` and
-- leaves an empty log on disk.
pub recovery_complete :
    (start size power : ℕ) (f : ℕ → Block) (ps : List ℕ) (disk : ℕ → Block)
    → Holds start size f disk
    → size ≤ power
    → (b : ℕ) → IsHome start size b
    → let last = initlog start size power (boots start size ps disk) in
      (last.disk start 0 ≡ 0) × (last.disk b ≡ f b)
recovery_complete start size power f ps disk h p b home = (done.0, done.1 b home)
  where
    k : Holds start size f (boots start size ps disk)
    k = boots-Holds start size f ps disk h

    done :
        ((initlog start size power (boots start size ps disk)).disk start 0 ≡ 0)
        × ((c : ℕ)
            → IsHome start size c
            → (initlog start size power (boots start size ps disk)).disk c ≡ f c)
    done = initlog_done start size power f (boots start size ps disk) k (omega (arith, k.fits))
