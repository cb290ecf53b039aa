-- ===== src/Fs/Icache/Get.antt =====
-- iget keeps every inode at most once in the cache.
use operating_systems_projec.Prelude.{
  ℕ, zero, suc, ◌+◌, ◌<◌, ◌≡◌, ◌≢◌, refl, sym, ◌∙◌, ◌⊎◌, inl, inr, false, Option, none, some, ◌==◌,
  arith, Bool-cases,
}
use mathlib.Core.Path.{subst}
use operating_systems_projec.Prelude.Kernel.{ok, panic, unlocked, locked}
use operating_systems_projec.Fs.Icache.{
  ninode, Entry, Icache, set_entry, Found, cached, missing, remember, is_inode, scan, recycle,
  get_found, iget,
}

-- Entry `i` holds the inode.
abbrev pub Holds : (dev inum : ℕ) → (ℕ → Entry) → ℕ → Type 0
Holds dev inum entry i = (0 < (entry i).ref) × ((entry i).ip.dev ≡ dev) × ((entry i).ip.inum ≡ inum)

-- No inode is in two entries that are in use.
abbrev pub IsUnique : Icache → Type 0
IsUnique c =
    (i j : ℕ)
    → i < ninode
    → j < ninode
    → 0 < (c.entry i).ref
    → 0 < (c.entry j).ref
    → (c.entry i).ip.dev ≡ (c.entry j).ip.dev
    → (c.entry i).ip.inum ≡ (c.entry j).ip.inum
    → i ≡ j

-- What is remembered of the entries before `i`.
abbrev Remembers : (i : ℕ) → (ℕ → Entry) → Option ℕ → Type 0
Remembers i entry none = (k : ℕ) → k < i → 0 < (entry k).ref
Remembers i entry (some e) = (e < i) × ((entry e).ref ≡ 0)

abbrev Scans : (n dev inum : ℕ) → (ℕ → Entry) → Found → Type 0
Scans n dev inum entry (cached i) = (i < n) × Holds dev inum entry i
Scans n dev inum entry (missing o) =
    ((k : ℕ) → k < n → ¬ (Holds dev inum entry k)) × Remembers n entry o

remember_lem :
    (i : ℕ) (entry : ℕ → Entry) (o : Option ℕ)
    → Remembers i entry o
    → Remembers (i + 1) entry (remember o i (entry i).ref)
remember_lem i entry (some e) (p, q) = (omega arith, q)
remember_lem i entry none f = elim (Bool-cases ((entry i).ref == 0)) [
  | inl e ↦ rw e (omega arith, ground arith)
  | inr e ↦ rw e (λ k h. elim (Bool-cases (k == i)) [
    | inl q ↦ let x : i ≡ k = ground arith in subst (λ n. 0 < (entry n).ref) x (ground arith)
    | inr q ↦ f k (ground arith)
  ])
]

scan_lem :
    (r i dev inum : ℕ) (o : Option ℕ) (entry : ℕ → Entry)
    → ((k : ℕ) → k < i → ¬ (Holds dev inum entry k))
    → Remembers i entry o
    → Scans (i + r) dev inum entry (scan r i dev inum o entry)
unfolding scan
scan_lem zero i dev inum o entry n m =
    let e : i ≡ i + 0 = omega arith in
    (λ k h. n k (omega arith), subst (λ j. Remembers j entry o) e m)
scan_lem (suc r) i dev inum o entry n m = elim (Bool-cases (is_inode dev inum (entry i))) [
  | inl e ↦ rw e (omega arith, (ground arith, ground arith, ground arith))
  | inr e ↦
      let q : i + 1 + r ≡ i + suc r = omega arith in
      let o' = remember o i (entry i).ref in
      rw e (
        subst (λ j. Scans j dev inum entry (scan r (i + 1) dev inum o' entry)) q
          (scan_lem r (i + 1) dev inum o' entry
            (λ k h. elim (Bool-cases (k == i)) [
              | inl y ↦ λ (a, b, c). ground arith
              | inr y ↦ n k (ground arith)
            ])
            (remember_lem i entry o m)))
]

-- iget of an inode that is in the cache hands out its entry, and otherwise a free one, which is not
-- valid.
pub record Gives (dev inum i : ℕ) (c d : Icache) : Type 0 where
  pub small : i < ninode
  pub holds : Holds dev inum d.entry i
  pub counted : (d.entry i).ref ≡ (c.entry i).ref + 1
  pub old :
      0 < (c.entry i).ref
      → ((d.entry i).valid ≡ (c.entry i).valid) × ((d.entry i).ip ≡ (c.entry i).ip)
  pub new : (c.entry i).ref ≡ 0 → (d.entry i).valid ≡ false
  pub same : (j : ℕ) → j < ninode → Holds dev inum c.entry j → i ≡ j
  pub locks : (d.entry i).lock ≡ (c.entry i).lock
  pub others : (j : ℕ) → i ≢ j → d.entry j ≡ c.entry j
  pub same_disk : d.disk ≡ c.disk
  pub unique : IsUnique d

get_cached :
    (dev inum i : ℕ) (c : Icache)
    → IsUnique c
    → i < ninode
    → Holds dev inum c.entry i
    → Gives dev inum i c (set_entry i (λ x. record x { ref = x.ref + 1 }) c)
get_cached dev inum i c u h (a, b, e) = record {
  small = h;
  holds = (ground arith, ground (arith, b), ground (arith, e));
  counted = ground arith;
  old = λ p. (ground arith, ground arith);
  new = λ p. absurd (omega arith);
  same = λ j k (x, y, z). u i j h k a x (b ∙ sym y) (e ∙ sym z);
  locks = ground arith;
  others = λ j n. ground arith;
  same_disk = refl;
  unique = λ j k p q r s t v. ground (arith, u j k p q);
}

get_recycled :
    (dev inum i : ℕ) (c : Icache)
    → IsUnique c
    → i < ninode
    → (c.entry i).ref ≡ 0
    → ((k : ℕ) → k < ninode → ¬ (Holds dev inum c.entry k))
    → Gives dev inum i c (set_entry i (recycle dev inum) c)
get_recycled dev inum i c u h z n = record {
  small = h;
  holds = (ground arith, ground arith, ground arith);
  counted = ground arith;
  old = λ p. absurd (omega arith);
  new = λ p. ground arith;
  same = λ j k x. absurd (n j k x);
  locks = ground arith;
  others = λ j m. ground arith;
  same_disk = refl;
  unique = λ j k p q r s t v. elim (Bool-cases (j == i)) [
    | inl x ↦ elim (Bool-cases (k == i)) [
      | inl y ↦ ground arith
      | inr y ↦ absurd (n k q (ground arith, ground arith, ground arith))
    ]
    | inr x ↦ elim (Bool-cases (k == i)) [
      | inl y ↦ absurd (n j p (ground arith, ground arith, ground arith))
      | inr y ↦ u j k p q (ground arith) (ground arith) (ground arith) (ground arith)
    ]
  ];
}

get_found_lem :
    (dev inum : ℕ) (c : Icache) (f : Found)
    → IsUnique c
    → Scans ninode dev inum c.entry f
    → ((get_found dev inum f (locked c) ≡ panic)
        × ((k : ℕ) → k < ninode → (0 < (c.entry k).ref) × ¬ (Holds dev inum c.entry k)))
      ⊎ ((i : ℕ) × (d : Icache) × (get_found dev inum f (locked c) ≡ ok i (unlocked d))
          × Gives dev inum i c d)
unfolding get_found
get_found_lem dev inum c (cached i) u (h, x) =
    inr (i, set_entry i (λ x. record x { ref = x.ref + 1 }) c, refl, get_cached dev inum i c u h x)
get_found_lem dev inum c (missing (some i)) u (n, (h, z)) =
    inr (i, set_entry i (recycle dev inum) c, refl, get_recycled dev inum i c u h z n)
get_found_lem dev inum c (missing none) u (n, f) = inl (refl, λ k h. (f k h, n k h))

-- iget on a cache that has no inode in two entries in use, and whose lock is free: it panics only if
-- all entries are in use and none holds the inode. Otherwise it frees the lock again and returns an
-- entry that holds the inode, with one more reference: the one that held it before, with its content
-- kept, or else a free one, which then is not valid. No other entry and nothing on the disk changes,
-- and still no inode is in two entries.
pub iget_lem :
    (dev inum : ℕ) (c : Icache)
    → IsUnique c
    → ((iget dev inum (unlocked c) ≡ panic)
        × ((k : ℕ) → k < ninode → (0 < (c.entry k).ref) × ¬ (Holds dev inum c.entry k)))
      ⊎ ((i : ℕ) × (d : Icache) × (iget dev inum (unlocked c) ≡ ok i (unlocked d))
          × Gives dev inum i c d)
unfolding iget
iget_lem dev inum c u = get_found_lem dev inum c (scan ninode 0 dev inum none c.entry) u (
    scan_lem ninode 0 dev inum none c.entry (λ k h. absurd (omega arith))
      (λ k h. absurd (omega arith)))
