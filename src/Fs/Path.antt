-- ===== src/Fs/Path.antt =====
-- skipelem of Project 1/xv6-public/fs.c. A path is its characters without the NUL behind them; `name`
-- is the caller's array of DIRSIZ characters.
pub mod Elements
use operating_systems_projec.Prelude.{
  ℕ, Option, none, some, List, [], ◌∷◌, ◌==◌, ltb, leb, if◌then◌else◌, get_or, length,
}
use operating_systems_projec.Fs.Dir.{dirsiz}

-- `while(*path == '/') path++`
unfoldable pub skip_slashes : List ℕ → List ℕ
skip_slashes [] = []
skip_slashes (c ∷ cs) = let rest = skip_slashes cs in if c == b'/' then rest else c ∷ cs

-- `while(*path != '/' && *path != 0) path++`: the characters that it passes, and those from where it
-- stops.
unfoldable pub element : List ℕ → List ℕ
element [] = []
element (c ∷ cs) = let rest = c ∷ element cs in if c == b'/' then [] else rest

unfoldable pub after_element : List ℕ → List ℕ
after_element [] = []
after_element (c ∷ cs) = let rest = after_element cs in if c == b'/' then c ∷ cs else rest

-- The array `name` with the element `s` copied to it.
unfoldable pub store_name : List ℕ → (ℕ → ℕ) → ℕ → ℕ
store_name s name j =
    if leb dirsiz (length s)
    then (if ltb j dirsiz then get_or s j 0 else name j)
    else if ltb j (length s)
    then get_or s j 0
    else if j == length s
    then 0
    else name j

-- skipelem behind its first loop.
unfoldable pub take_element : List ℕ → (ℕ → ℕ) → Option (List ℕ × (ℕ → ℕ))
unfolding skip_slashes element after_element store_name
take_element [] name = none
take_element (c ∷ cs) name =
    some (skip_slashes (after_element (c ∷ cs)), store_name (element (c ∷ cs)) name)

-- The path behind the element and the array with the element; a null pointer is `none`.
unfoldable pub skipelem : List ℕ → (ℕ → ℕ) → Option (List ℕ × (ℕ → ℕ))
unfolding skip_slashes take_element
skipelem path name = take_element (skip_slashes path) name
