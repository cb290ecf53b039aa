-- ===== src/Fs/Truncate/Loops.antt =====
-- itrunc frees the blocks of a file, and no others.
use operating_systems_projec.Prelude.{
  ℕ, zero, suc, ◌+◌, ◌≤◌, ◌<◌, ◌≡◌, ◌≢◌, refl, ap, ◌∙◌, ◌⊎◌, inl, inr, ◌==◌, update, arith,
  Bool-cases,
}
use operating_systems_projec.Prelude.Kernel.{ok}
use operating_systems_projec.Fs.{Block, Disk}
use operating_systems_projec.Fs.Words.{get_word}
use operating_systems_projec.Fs.Inode.{Work, free_direct, free_entries}
use operating_systems_projec.Fs.Truncate.{
  hit, hit-ext, Frees, Frees-nil, Frees-trans, bfree-Frees, AreOwn, AreOwn-skip, AreOwn-free,
}

-- One freed block, and those behind it.
Frees-cons :
    (f g : ℕ → ℕ) (n i : ℕ) (d e e' : Disk)
    → f i ≢ 0
    → Frees (λ c. f i == c) d e
    → Frees (hit g n (i + 1)) e e'
    → ((j : ℕ) → i < j → g j ≡ f j)
    → Frees (hit f (suc n) i) d e'
unfolding hit
Frees-cons f g n i d e e' z x y same =
    Frees-trans (λ c. f i == c) (hit g n (i + 1)) (hit f (suc n) i) d e e' x y
      (λ c. ground (arith, z, hit-ext g f n (i + 1) c (λ j p. same j (omega arith))))

Frees-skip :
    (f : ℕ → ℕ) (n i : ℕ) (d e : Disk)
    → f i ≡ 0
    → Frees (hit f n (i + 1)) d e
    → Frees (hit f (suc n) i) d e
unfolding hit
Frees-skip f n i d e z x = record {
  same_sb = x.same_sb;
  bits = λ c h. ground (arith, z, x.bits c h);
  others = x.others;
}

-- What the first loop leaves.
pub record Cleared (n i : ℕ) (s t : Work) : Type 0 where
  pub freed : Frees (hit s.ip.addrs n i) s.disk t.disk
  pub same_ip : t.ip ≡ record s.ip { addrs = t.ip.addrs }
  pub cleared : (j : ℕ) → i ≤ j → j < i + n → t.ip.addrs j ≡ 0
  pub kept : (j : ℕ) → j < i ⊎ i + n ≤ j → t.ip.addrs j ≡ s.ip.addrs j

outside-skip : (j i n : ℕ) → j < i ⊎ i + suc n ≤ j → j < i + 1 ⊎ i + 1 + n ≤ j
outside-skip j i n (inl h) = inl (omega arith)
outside-skip j i n (inr h) = inr (omega arith)

-- A round of the loop that leaves address `i` at 0, and those behind it.
Cleared-cons :
    (n i : ℕ) (s u t : Work)
    → u.ip ≡ record s.ip { addrs = u.ip.addrs }
    → u.ip.addrs i ≡ 0
    → ((j : ℕ) → i ≢ j → u.ip.addrs j ≡ s.ip.addrs j)
    → Frees (hit s.ip.addrs (suc n) i) s.disk t.disk
    → Cleared n (i + 1) u t
    → Cleared (suc n) i s t
Cleared-cons n i s u t e z same x c = record {
  freed = x;
  same_ip = ground (arith, c.same_ip, e);
  cleared = λ j a b. elim (Bool-cases (j == i)) [
    | inl y ↦ let k : j ≡ i = ground arith in ap t.ip.addrs k ∙ c.kept i (inl (omega arith)) ∙ z
    | inr y ↦ c.cleared j (ground arith) (omega arith)
  ];
  kept = λ j h.
      c.kept j (outside-skip j i n h)
      ∙ same j (λ q. elim h [ inl a ↦ omega arith | inr a ↦ omega arith ]);
}

pub free_direct_lem :
    (n i : ℕ) (s : Work)
    → AreOwn s.ip.addrs n i s.disk
    → (t : Work) × (free_direct n i s ≡ ok tt t) × Cleared n i s t
unfolding free_direct hit
free_direct_lem zero i s o = (
  s,
  refl,
  record {
    freed = Frees-nil s.disk;
    same_ip = refl;
    cleared = λ j p q. absurd (omega arith);
    kept = λ j h. refl;
  },
)
free_direct_lem (suc n) i s o = elim (Bool-cases (s.ip.addrs i == 0)) [
  | inl e ↦
      let z : s.ip.addrs i ≡ 0 = ground arith in
      let (t, p, c) = free_direct_lem n (i + 1) s (AreOwn-skip s.ip.addrs n i s.disk o) in
      (
        t,
        ground (arith, e, p),
        Cleared-cons n i s s t refl z (λ j h. refl)
            (Frees-skip s.ip.addrs n i s.disk t.disk z c.freed) c,
      )
  | inr e ↦
      let z : s.ip.addrs i ≢ 0 = ground arith in
      let (d, p, x) =
        bfree-Frees (s.ip.addrs i) s.disk (o.inside i (omega arith) (omega arith) z)
          (o.taken i (omega arith) (omega arith) z) in
      let g : ℕ → ℕ = update s.ip.addrs i 0 in
      let u : Work = record { disk = d; ip = record s.ip { addrs = g } } in
      let same : (j : ℕ) → i < j → g j ≡ s.ip.addrs j = λ j h. ground arith in
      let (t, q, c) =
        free_direct_lem n (i + 1) u (AreOwn-free s.ip.addrs g n i s.disk d o z x same) in
      (
        t,
        ground (arith, e, p, q),
        Cleared-cons n i s u t refl (ground arith) (λ j h. ground arith)
            (Frees-cons s.ip.addrs g n i s.disk d t.disk z x c.freed same) c,
      )
]

pub free_entries_lem :
    (n i : ℕ) (w : Block) (s : Work)
    → AreOwn (get_word w) n i s.disk
    → (d : Disk) × (free_entries n i w s ≡ ok tt (record s { disk = d }))
      × Frees (hit (get_word w) n i) s.disk d
unfolding free_entries hit
free_entries_lem zero i w s o = (s.disk, refl, Frees-nil s.disk)
free_entries_lem (suc n) i w s o = elim (Bool-cases (get_word w i == 0)) [
  | inl e ↦
      let (d, p, x) = free_entries_lem n (i + 1) w s (AreOwn-skip (get_word w) n i s.disk o) in
      (d, ground (arith, e, p), Frees-skip (get_word w) n i s.disk d (ground arith) x)
  | inr e ↦
      let z : get_word w i ≢ 0 = ground arith in
      let (d, p, x) =
        bfree-Frees (get_word w i) s.disk (o.inside i (omega arith) (omega arith) z)
          (o.taken i (omega arith) (omega arith) z) in
      let u : Work = record s { disk = d } in
      let (d', q, y) =
        free_entries_lem n (i + 1) w u
          (AreOwn-free (get_word w) (get_word w) n i s.disk d o z x (λ j h. refl)) in
      (
        d',
        ground (arith, e, p, q),
        Frees-cons (get_word w) (get_word w) n i s.disk d d' z x y (λ j h. refl),
      )
]
