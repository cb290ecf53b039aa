-- ===== src/Fs/Path/Elements.antt =====
-- skipelem takes a path apart into elements and slashes.
use operating_systems_projec.Prelude.{
  ℕ, zero, suc, ◌+◌, ◌≤◌, ◌<◌, ◌≡◌, ◌≢◌, refl, sym, ap, ◌∙◌, ◌⊎◌, inl, inr, Option, none, some,
  List, [], ◌∷◌, ◌++◌, ◌==◌, get_or, length, take, arith, Bool-cases, append-nil,
}
use mathlib.Core.Path.{subst}
use operating_systems_projec.String.Compare.{chars}
use operating_systems_projec.Fs.Dir.{dirsiz}
use operating_systems_projec.Fs.Path.{
  skip_slashes, element, after_element, store_name, take_element, skipelem,
}

abbrev pub All : (ℕ → Type 0) → List ℕ → Type 0
All P [] = Unit {0}
All P (x ∷ xs) = P x × All P xs

abbrev pub Slashes : List ℕ → Type 0
Slashes = All (λ c. c ≡ b'/')

abbrev pub NoSlash : List ℕ → Type 0
NoSlash = All (λ c. c ≢ b'/')

-- Text behind the slashes that are skipped.
abbrev pub StartsElement : List ℕ → Type 0
StartsElement [] = Unit {0}
StartsElement (c ∷ cs) = c ≢ b'/'

skip_slashes_lem :
    (cs : List ℕ)
    → (s : List ℕ) × (cs ≡ s ++ skip_slashes cs) × Slashes s × StartsElement (skip_slashes cs)
unfolding skip_slashes
skip_slashes_lem [] = ([], refl, tt, tt)
skip_slashes_lem (c ∷ cs) = elim (Bool-cases (c == b'/')) [
  | inl e ↦
      let (s, p, a, b) = skip_slashes_lem cs in
      (c ∷ s, rw e (ap (λ r. c ∷ r) p), (ground arith, a), rw e b)
  | inr e ↦ ([], rw e refl, tt, rw e (ground arith))
]

-- Text at an element's end.
abbrev pub EndsElement : List ℕ → Type 0
EndsElement [] = Unit {0}
EndsElement (c ∷ cs) = c ≡ b'/'

element_lem :
    (cs : List ℕ)
    → (cs ≡ element cs ++ after_element cs) × NoSlash (element cs) × EndsElement (after_element cs)
unfolding element after_element
element_lem [] = (refl, tt, tt)
element_lem (c ∷ cs) = elim (Bool-cases (c == b'/')) [
  | inl e ↦ (rw e refl, rw e tt, rw e (ground arith))
  | inr e ↦
      let (p, a, b) = element_lem cs in (rw e (ap (λ r. c ∷ r) p), rw e (ground arith, a), rw e b)
]

chars-get_or :
    (n p : ℕ) (s : List ℕ) (m : ℕ → ℕ)
    → All (λ c. c ≢ 0) s
    → ((j : ℕ) → j < n → j < length s → m (p + j) ≡ get_or s j 0)
    → (length s < n → m (p + length s) ≡ 0)
    → chars n p m ≡ take n s
chars-get_or zero p s m a h z = refl
chars-get_or (suc n) p [] m a h z =
    let e : m p ≡ 0 = ap m (omega arith) ∙ z (omega arith) in rw e refl
chars-get_or (suc n) p (c ∷ cs) m a h z =
    let e : m p ≡ c = ap m (omega arith) ∙ h 0 (omega arith) (omega arith) in
    let rest : chars n (p + 1) m ≡ take n cs =
      chars-get_or n (p + 1) cs m a.1
        (λ j k l. ap m (omega arith) ∙ h (suc j) (omega arith) (omega arith))
        (λ l. ap m (omega arith) ∙ z (omega arith)) in
    ground (arith, e, rest, a.0)

All-append : (P : ℕ → Type 0) (xs ys : List ℕ) → All P (xs ++ ys) → All P xs × All P ys
All-append P [] ys a = (tt, a)
All-append P (x ∷ xs) ys (p, a) = let (b, c) = All-append P xs ys a in ((p, b), c)

-- The array holds the first DIRSIZ characters of the element.
store_name-chars :
    (s : List ℕ) (name : ℕ → ℕ)
    → All (λ c. c ≢ 0) s
    → (chars dirsiz 0 (store_name s name) ≡ take dirsiz s)
      × ((j : ℕ) → dirsiz ≤ j → store_name s name j ≡ name j)
unfolding store_name
store_name-chars s name a = (
  chars-get_or dirsiz 0 s (store_name s name) a (λ j h k. ground arith) (λ h. ground arith),
  λ j h. ground arith,
)

ends-slash :
    (more rest : List ℕ) → EndsElement (more ++ rest) → StartsElement rest → rest ≢ [] → more ≢ []
ends-slash [] [] e b n = absurd (n refl)
ends-slash [] (c ∷ cs) e b n = absurd (b e)
ends-slash (x ∷ xs) rest e b n = cc

element-ne_nil : (c : ℕ) (cs : List ℕ) → c ≢ b'/' → element (c ∷ cs) ≢ []
unfolding element
element-ne_nil c cs h = ground arith

-- What skipelem makes of a path: an element `e` of it is copied, and `rest` is left.
pub record Takes (path : List ℕ) (name : ℕ → ℕ) (rest : List ℕ) (name' : ℕ → ℕ) : Type 0 where
  pub front : List ℕ
  pub e : List ℕ
  pub back : List ℕ
  pub parts : path ≡ front ++ (e ++ (back ++ rest))
  pub front_slashes : Slashes front
  pub nonempty : e ≢ []
  pub no_slash : NoSlash e
  pub back_slashes : Slashes back
  pub separated : rest ≢ [] → back ≢ []
  pub starts : StartsElement rest
  pub copied : chars dirsiz 0 name' ≡ take dirsiz e
  pub beyond : (j : ℕ) → dirsiz ≤ j → name' j ≡ name j

abbrev pub TakesElement : (path : List ℕ) → (ℕ → ℕ) → Option (List ℕ × (ℕ → ℕ)) → Type 0
TakesElement path name o =
    ((o ≡ none) × Slashes path)
    ⊎ ((rest : List ℕ) × (name' : ℕ → ℕ) × (o ≡ some (rest, name')) × Takes path name rest name')

take_element_lem :
    (path front cs : List ℕ) (name : ℕ → ℕ)
    → All (λ c. c ≢ 0) path
    → path ≡ front ++ cs
    → Slashes front
    → StartsElement cs
    → TakesElement path name (take_element cs name)
unfolding take_element
take_element_lem path front [] name a p f b =
    inl (refl, subst Slashes (sym (p ∙ append-nil front)) f)
take_element_lem path front (c ∷ cs) name a p f b =
    let s = element (c ∷ cs) in
    let (q, n, e) = element_lem (c ∷ cs) in
    let (back, r, g, d) = skip_slashes_lem (after_element (c ∷ cs)) in
    let rest = skip_slashes (after_element (c ∷ cs)) in
    let whole : path ≡ front ++ (s ++ (back ++ rest)) =
      p ∙ ap (λ t. front ++ t) (q ∙ ap (λ t. s ++ t) r) in
    let clean : All (λ c. c ≢ 0) s =
      (All-append _ s (back ++ rest)
        (All-append _ front (s ++ (back ++ rest)) (subst (All (λ c. c ≢ 0)) whole a)).1).0 in
    let (k, l) = store_name-chars s name clean in
    inr (
      rest,
      store_name s name,
      refl,
      record {
        front = front;
        e = s;
        back = back;
        parts = whole;
        front_slashes = f;
        nonempty = element-ne_nil c cs b;
        no_slash = n;
        back_slashes = g;
        separated = ends-slash back rest (subst EndsElement r e) d;
        starts = d;
        copied = k;
        beyond = l;
      },
    )

-- skipelem on a path: it fails exactly on a path of slashes alone, the empty one too. Otherwise the
-- path is slashes, an element without a slash, and slashes before what skipelem returns, which does
-- not begin with a slash; the array then holds the element, cut to DIRSIZ characters, and nothing
-- behind the array changes.
pub skipelem_lem :
    (path : List ℕ) (name : ℕ → ℕ)
    → All (λ c. c ≢ 0) path
    → ((skipelem path name ≡ none) × Slashes path)
      ⊎ ((rest : List ℕ) × (name' : ℕ → ℕ) × (skipelem path name ≡ some (rest, name'))
          × Takes path name rest name')
unfolding skipelem
skipelem_lem path name a =
    let (front, p, f, b) = skip_slashes_lem path in
    take_element_lem path front (skip_slashes path) name a p f b
