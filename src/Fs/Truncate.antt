-- ===== src/Fs/Truncate.antt =====
-- The blocks that itrunc frees one after another, and what freeing a block does to the others.
pub mod Loops
pub mod Whole
pub mod Finish
use operating_systems_projec.Prelude.{
  ℕ, zero, suc, ◌+◌, ◌≤◌, ◌<◌, ◌≡◌, ◌≢◌, refl, ap, ◌∙◌, inl, inr, Bool, true, false, ◌==◌,
  if◌then◌else◌, arith, Bool-cases, not, ◌&&◌, ◌||◌,
}
use operating_systems_projec.Prelude.Kernel.{ok}
use operating_systems_projec.Fs.{Block, Disk, bblock, bfree}
use operating_systems_projec.Fs.Bitmap.{used, bfree_lem}

-- Block `c` is one of the `n` addresses from `f i` on that are not 0.
pub hit : (ℕ → ℕ) → (n i c : ℕ) → Bool
hit f zero i c = false
hit f (suc n) i c = (not (f i == 0) && f i == c) || hit f n (i + 1) c

hit-ext : (f g : ℕ → ℕ) (n i c : ℕ) → ((j : ℕ) → i ≤ j → f j ≡ g j) → hit f n i c ≡ hit g n i c
unfolding hit
hit-ext f g zero i c h = refl
hit-ext f g (suc n) i c h =
    rw (h i (omega arith), hit-ext f g n (i + 1) c (λ j p. h j (omega arith))) refl

hit-true : (f : ℕ → ℕ) (n i c j : ℕ) → i ≤ j → j < i + n → f j ≢ 0 → f j ≡ c → hit f n i c ≡ true
unfolding hit
hit-true f zero i c j p q n e = absurd (omega arith)
hit-true f (suc m) i c j p q n e = elim (Bool-cases (i == j)) [
  | inl x ↦ let y : f i ≡ c = ap f (ground arith) ∙ e in ground (arith, y, n, e)
  | inr x ↦ let y = hit-true f m (i + 1) c j (ground arith) (omega arith) n e in ground (arith, y)
]

hit-false :
    (f : ℕ → ℕ) (n i c : ℕ)
    → ((j : ℕ) → i ≤ j → j < i + n → f j ≢ 0 → f j ≢ c)
    → hit f n i c ≡ false
unfolding hit
hit-false f zero i c h = refl
hit-false f (suc n) i c h =
    let y = hit-false f n (i + 1) c (λ j p q. h j (omega arith) (omega arith)) in
    ground (arith, y, h i (omega arith) (omega arith))

-- From `d` to `e` the blocks in `gone` are freed, and no block changes but those of the bitmap.
pub record Frees (gone : ℕ → Bool) (d e : Disk) : Type 0 where
  pub same_sb : e.sb ≡ d.sb
  pub bits : (c : ℕ) → c < d.sb.size → used e c ≡ (if gone c then 0 else used d c)
  pub others : (c : ℕ) → ((b : ℕ) → b < d.sb.size → bblock d.sb b ≢ c) → e.block c ≡ d.block c

Frees-nil : (d : Disk) → Frees (λ c. false) d d
Frees-nil d = record { same_sb = refl; bits = λ c h. refl; others = λ c h. refl }

Frees-trans :
    (p q r : ℕ → Bool) (d e f : Disk)
    → Frees p d e
    → Frees q e f
    → ((c : ℕ) → r c ≡ (p c || q c))
    → Frees r d f
Frees-trans p q r d e f x y z = record {
  same_sb = y.same_sb ∙ x.same_sb;
  bits = λ c h. ground (arith, z c, x.bits c h, y.bits c (ground (arith, x.same_sb)));
  others = λ c h. y.others c (λ b k. ground (arith, x.same_sb, h b)) ∙ x.others c h;
}

bfree-Frees :
    (b : ℕ) (d : Disk)
    → b < d.sb.size
    → used d b ≢ 0
    → (e : Disk) × (bfree b d ≡ ok tt e) × Frees (λ c. b == c) d e
bfree-Frees b d h n = elim (bfree_lem b d) [
  | inl (p, z) ↦ absurd (n z)
  | inr (e, p, u, q, bits, others) ↦
      (e, p, record { same_sb = q; bits = λ c k. bits c; others = λ c k. others c (k b h) })
]

-- The addresses from `f i` on are of blocks in use, each once.
pub record AreOwn (f : ℕ → ℕ) (n i : ℕ) (d : Disk) : Type 0 where
  pub inside : (j : ℕ) → i ≤ j → j < i + n → f j ≢ 0 → f j < d.sb.size
  pub taken : (j : ℕ) → i ≤ j → j < i + n → f j ≢ 0 → used d (f j) ≢ 0
  pub once : (j k : ℕ) → i ≤ j → j < i + n → i ≤ k → k < i + n → f j ≢ 0 → f j ≡ f k → j ≡ k

AreOwn-skip : (f : ℕ → ℕ) (n i : ℕ) (d : Disk) → AreOwn f (suc n) i d → AreOwn f n (i + 1) d
AreOwn-skip f n i d o = record {
  inside = λ j p q. o.inside j (omega arith) (omega arith);
  taken = λ j p q. o.taken j (omega arith) (omega arith);
  once = λ j k p q r s. o.once j k (omega arith) (omega arith) (omega arith) (omega arith);
}

-- With the first one freed, the others still are.
AreOwn-free :
    (f g : ℕ → ℕ) (n i : ℕ) (d e : Disk)
    → AreOwn f (suc n) i d
    → f i ≢ 0
    → Frees (λ c. f i == c) d e
    → ((j : ℕ) → i < j → g j ≡ f j)
    → AreOwn g n (i + 1) e
AreOwn-free f g n i d e o z x same = record {
  inside = λ j p q m. ground (arith, same j, o.inside j (omega arith) (omega arith), x.same_sb);
  taken = λ j p q m. ground (
    arith,
    same j,
    o.inside j (omega arith) (omega arith),
    o.taken j (omega arith) (omega arith),
    x.bits (f j),
    o.once i j (omega arith) (omega arith) (omega arith) (omega arith) z,
  );
  once = λ j k p q r s m t.
      ground
        (arith, same j, same k, o.once j k (omega arith) (omega arith) (omega arith) (omega arith));
}
