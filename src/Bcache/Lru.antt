-- ===== src/Bcache/Lru.antt =====
-- The list of bio.c: what the scans of bget find in it, and how brelse reorders it.
use operating_systems_projec.Prelude.{
  count, ℕ, ◌<◌, ◌≡◌, refl, Bool, true, false, ◌&&◌, Option, none, some, List, [], ◌∷◌, ◌==◌,
  if◌then◌else◌, arith,
}
use operating_systems_projec.Bcache.{Buf, find_cached, find_unused, is_reusable, unlink}

abbrev pub is_block : (dev blockno : ℕ) → Buf → Bool
is_block dev blockno b = b.dev == dev && b.blockno == blockno

abbrev pub Finds : (Buf → Bool) → (ℕ → Buf) → List ℕ → Option ℕ → Type 0
Finds test buf xs none = (i : ℕ) → 0 < count i xs → test (buf i) ≡ false
Finds test buf xs (some b) = (0 < count b xs) × (test (buf b) ≡ true)

pub find_cached_lem :
    (dev blockno : ℕ) (buf : ℕ → Buf) (xs : List ℕ)
    → Finds (is_block dev blockno) buf xs (find_cached dev blockno buf xs)
unfolding find_cached
find_cached_lem dev blockno buf [] = λ i h. ground arith
find_cached_lem dev blockno buf (x ∷ xs) =
    branch (is_block dev blockno (buf x)) refl (find_cached dev blockno buf xs)
      (find_cached_lem dev blockno buf xs)
  where
    branch :
        (t : Bool)
        → is_block dev blockno (buf x) ≡ t
        → (o : Option ℕ) → Finds (is_block dev blockno) buf xs o
        → Finds (is_block dev blockno) buf (x ∷ xs) (if t then some x else o)
    branch true e o f = (ground arith, e)
    branch false e none f = λ i h. ground (arith, f i)
    branch false e (some b) f = (ground (arith, f.0), f.1)

pub find_unused_lem : (buf : ℕ → Buf) (xs : List ℕ) → Finds is_reusable buf xs (find_unused buf xs)
unfolding find_unused
find_unused_lem buf [] = λ i h. ground arith
find_unused_lem buf (x ∷ xs) =
    branch (find_unused buf xs) (find_unused_lem buf xs) (is_reusable (buf x)) refl
  where
    branch :
        (o : Option ℕ)
        → Finds is_reusable buf xs o
        → (t : Bool) → is_reusable (buf x) ≡ t
        → Finds is_reusable buf
            (x ∷ xs)
            (elim o [ some i ↦ some i | none ↦ if t then some x else none ])
    branch none f true e = (ground arith, e)
    branch none f false e = λ i h. ground (arith, f i)
    branch (some b) f t e = (ground (arith, f.0), f.1)

-- A buffer of the list that is moved to its front: nothing else is lost or doubled.
pub count-unlink :
    (b : ℕ) (xs : List ℕ) (i : ℕ) → 0 < count b xs → count i (b ∷ unlink b xs) ≡ count i xs
unfolding unlink
count-unlink b [] i h = elim h [ ]
count-unlink b (x ∷ xs) i h = ground (arith, count-unlink b xs i)
