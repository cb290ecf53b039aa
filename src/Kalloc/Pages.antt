-- ===== src/Kalloc/Pages.antt =====
-- The free list of kalloc.c against the pages that are handed out.
use operating_systems_projec.Prelude.{
  count, erase, count-erase, ℕ, zero, suc, ◌+◌, ◌*◌, ◌/◌, ◌%◌, ◌≤◌, ◌<◌, ◌≡◌, ◌≢◌, refl, Bool, true,
  false, ◌&&◌, ◌||◌, List, [], ◌∷◌, ◌==◌, ltb, leb, if◌then◌else◌, update, arith,
}
use mathlib.Core.Path.{subst}
use operating_systems_projec.Prelude.Kernel.{ok, unlocked, change, pure, ◌>>=◌, ◌>>◌}
use operating_systems_projec.Kalloc.{Kmem, KmemK, pgsize, junk, is_bad, kfree, kalloc}

-- The list from `p` on runs through the pages `xs`.
abbrev pub Chain : (ℕ → ℕ) → ℕ → List ℕ → Type 0
Chain mem p [] = p ≡ 0
Chain mem p (x ∷ xs) = (p ≡ x) × (0 < x) × Chain mem (mem x) xs

Chain-ext :
    (mem mem' : ℕ → ℕ) (p : ℕ) (xs : List ℕ)
    → ((x : ℕ) → 0 < count x xs → mem x ≡ mem' x)
    → Chain mem p xs
    → Chain mem' p xs
Chain-ext mem mem' p [] h c = c
Chain-ext mem mem' p (x ∷ xs) h (e, z, c) = (
  e,
  z,
  subst (λ q. Chain mem' q xs) (h x (ground arith))
      (Chain-ext mem mem' (mem x) xs (λ y k. h y (ground arith)) c),
)

Chain-cons :
    (mem : ℕ → ℕ) (p q : ℕ) (xs : List ℕ)
    → mem p ≡ q
    → 0 < p
    → Chain mem q xs
    → Chain mem p (p ∷ xs)
Chain-cons mem p q xs e z c = (refl, z, simp e c)

aligned : (end p : ℕ) → is_bad end p ≡ false → p % pgsize ≡ 0
aligned end p g = ground arith

-- Good pages are aligned, so an address within one is in no other; and none is at 0.
apart :
    (end p x i : ℕ)
    → is_bad end p ≡ false
    → is_bad end x ≡ false
    → p ≢ x
    → i < pgsize
    → (leb p x && ltb x (p + pgsize) ≡ false) × (p + i ≢ x)
apart end p x i g h n k =
    let u = aligned end p g in let w = aligned end x h in (ground arith, λ e. n (omega arith))

good_pos : (end p : ℕ) → is_bad end p ≡ false → 0 < p
good_pos end zero g = ground arith
good_pos end (suc p) g = omega arith

-- What the users of the allocator do: take a page, give back one that they have, or write a word into
-- a page that they have.
pub data Op : Type 0 where
  take_page : Op
  give_back : ℕ → Op
  store : (page index word : ℕ) → Op

-- One step, and the pages that users have behind it; a step with a page that they do not have does
-- nothing, and so does a write beyond the page.
pub use_page : (end : ℕ) → Op → (held : List ℕ) → KmemK (List ℕ)
use_page end take_page held = do p ← kalloc; pure (if p == 0 then held else p ∷ held)
use_page end (give_back p) held =
    if count p held == 0 then pure held else (do kfree end p; pure (erase p held))
use_page end (store p i w) held =
    if count p held == 0 || leb (pgsize / 4) i
    then pure held
    else (do change (λ k. record k { mem = update k.mem (p + i * 4) w }); pure held)

pub run : (end : ℕ) → List Op → (held : List ℕ) → KmemK (List ℕ)
run end [] held = pure held
run end (o ∷ os) held = do h ← use_page end o held; run end os h

-- The pages of `all` are good and differ, and each is either on the free list or with a user.
pub record IsShared (end : ℕ) (all held : List ℕ) (k : Kmem) : Type 0 where
  pub free : List ℕ
  pub chain : Chain k.mem k.freelist free
  pub once : (p : ℕ) → count p free + count p held ≡ count p all
  pub distinct : (p : ℕ) → count p all ≤ 1
  pub good : (p : ℕ) → 0 < count p all → is_bad end p ≡ false

use_page-IsShared :
    (end : ℕ) (all : List ℕ) (o : Op) (held : List ℕ) (k : Kmem)
    → IsShared end all held k
    → (h : List ℕ) × (l : Kmem) × (use_page end o held (unlocked k) ≡ ok h (unlocked l))
      × IsShared end all h l
unfolding use_page kalloc kfree
use_page-IsShared end all take_page held k v = branch v.free v.chain v.once
  where
    branch :
        (xs : List ℕ)
        → Chain k.mem k.freelist xs
        → ((p : ℕ) → count p xs + count p held ≡ count p all)
        → (h : List ℕ) × (l : Kmem) × (use_page end take_page held (unlocked k) ≡ ok h (unlocked l))
          × IsShared end all h l
    branch [] c n = (held, k, ground arith, v)
    branch (x ∷ xs) (e, z, c) n = (
      x ∷ held,
      record k { freelist = k.mem k.freelist },
      ground arith,
      record {
        free = xs;
        chain = simp e c;
        once = λ p. ground (arith, n p);
        distinct = v.distinct;
        good = v.good;
      },
    )
use_page-IsShared end all (give_back p) held k v = branch (count p held) refl
  where
    branch :
        (n : ℕ)
        → count p held ≡ n
        → (h : List ℕ) × (l : Kmem) × (use_page end (give_back p) held (unlocked k)
            ≡ ok h (unlocked l))
          × IsShared end all h l
    branch zero e = (held, k, ground arith, v)
    branch (suc n) e =
        let g : is_bad end p ≡ false = v.good p (omega (arith, v.once p)) in
        let mem : ℕ → ℕ = update (junk p k.mem) p k.freelist in
        (
          erase p held,
          record k { mem = mem; freelist = p },
          ground (arith, g),
          record {
            free = p ∷ v.free;
            chain = Chain-cons mem p k.freelist v.free (ground arith) (good_pos end p g) (
                Chain-ext k.mem mem k.freelist v.free
                  (λ x h.
                    ground (arith, apart end p x 0, v.once p, v.once x, v.distinct p, g, v.good x))
                  v.chain);
            once = λ q. ground (arith, v.once q, v.once p, count-erase p held q);
            distinct = v.distinct;
            good = v.good;
          },
        )
use_page-IsShared end all (store p i w) held k v =
    branch (count p held == 0 || leb (pgsize / 4) i) refl
  where
    branch :
        (b : Bool)
        → (count p held == 0 || leb (pgsize / 4) i) ≡ b
        → (h : List ℕ) × (l : Kmem) × (use_page end (store p i w) held (unlocked k)
            ≡ ok h (unlocked l))
          × IsShared end all h l
    branch true e = (held, k, simp e refl, v)
    branch false e =
        let mem : ℕ → ℕ = update k.mem (p + i * 4) w in
        (
          held,
          record k { mem = mem },
          simp e refl,
          record {
            free = v.free;
            chain =
                Chain-ext k.mem mem k.freelist v.free
                  (λ x h. ground (
                    arith,
                    apart end p x (i * 4),
                    v.once p,
                    v.once x,
                    v.distinct p,
                    v.good p,
                    v.good x,
                  ))
                  v.chain;
            once = v.once;
            distinct = v.distinct;
            good = v.good;
          },
        )

run-IsShared :
    (end : ℕ) (all : List ℕ) (os : List Op) (held : List ℕ) (k : Kmem)
    → IsShared end all held k
    → (h : List ℕ) × (l : Kmem) × (run end os held (unlocked k) ≡ ok h (unlocked l))
      × IsShared end all h l
unfolding run
run-IsShared end all [] held k v = (held, k, refl, v)
run-IsShared end all (o ∷ os) held k v =
    let (h, l, e, w) = use_page-IsShared end all o held k v in
    let (i, m, r, x) = run-IsShared end all os h l w in (i, m, ground (arith, e, r), x)

-- Whatever users do with pages (take one, give back one that they have, write anything into one that
-- they have), kalloc and kfree do not panic or lose the lock, and behind it every page is either on
-- the free list, which stays intact, or with one user, and never with two.
pub no_sharing :
    (end : ℕ) (all : List ℕ) (os : List Op) (k : Kmem)
    → IsShared end all [] k
    → (h : List ℕ) × (l : Kmem) × (free : List ℕ) × (run end os [] (unlocked k) ≡ ok h (unlocked l))
      × Chain l.mem l.freelist free
      × ((p : ℕ) → count p free + count p h ≡ count p all)
      × ((p : ℕ) → count p h ≤ 1)
no_sharing end all os k v =
    let (h, l, e, w) = run-IsShared end all os [] k v in
    (h, l, w.free, e, w.chain, w.once, λ p. omega (arith, w.once p, w.distinct p))
