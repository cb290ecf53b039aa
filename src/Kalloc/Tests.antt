-- ===== src/Kalloc/Tests.antt =====
-- An instance of the theorem on pages: a free list of two pages.
use operating_systems_projec.Prelude.{
  count, ℕ, ◌+◌, ◌≤◌, ◌≡◌, refl, false, List, [], ◌∷◌, update, arith,
}
use operating_systems_projec.Prelude.Kernel.{ok, unlocked}
use operating_systems_projec.Kalloc.{Kmem}
use operating_systems_projec.Kalloc.Pages.{
  Op, take_page, give_back, store, run, Chain, IsShared, no_sharing,
}

abbrev two_pages : List ℕ
two_pages = 0x80101000 ∷ 0x80100000 ∷ []

abbrev two_free : Kmem
two_free = record {
  use_lock = false;
  freelist = 0x80101000;
  mem = update (λ a. 0) 0x80101000 0x80100000;
}

two_free-IsShared : IsShared 0x80100000 two_pages [] two_free
two_free-IsShared = record {
  free = two_pages;
  chain = (refl, omega arith, (refl, omega arith, refl));
  once = λ p. omega arith;
  distinct = λ p. ground arith;
  good = λ p h. ground arith;
}

-- A page is taken, overwritten, and given back.
abbrev steps : List Op
steps = take_page ∷ store 0x80101000 0 7 ∷ give_back 0x80101000 ∷ []

no_sharing_example :
    (h : List ℕ) × (l : Kmem) × (free : List ℕ) × (run 0x80100000 steps [] (unlocked two_free)
      ≡ ok h (unlocked l))
    × Chain l.mem l.freelist free
    × ((p : ℕ) → count p free + count p h ≡ count p two_pages)
    × ((p : ℕ) → count p h ≤ 1)
no_sharing_example = no_sharing 0x80100000 two_pages steps two_free two_free-IsShared
