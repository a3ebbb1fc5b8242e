-- ===== src/FileTree/Paths.antt =====
-- Path names in lab1_hutchins.c: `z`, which splits one with `dirname` and `basename` of the C library,
-- `tokenize` and `nodeP`. The source declares `dirname` and `basename` again as arrays of characters,
-- which no compiler accepts together with the calls; the calls are read as those of the C library.
use past_work.Base.{
  ℕ, Bool, ◌&&◌, Option, none, some, List, [], ◌∷◌, ◌==◌, ltb, if◌then◌else◌, length,
}
use mathlib.Core.List.{reverse}
use past_work.Base.Text.{CString, codes, str_eq}
use past_work.FileTree.Tree.{Files, ◌>>=◌, node, look_c}

abbrev pub slash : ℕ
slash = b'/'

-- A text without the slashes in front, and without what is in front of the first slash.
unfoldable pub skip_slashes : CString → CString
skip_slashes [] = []
skip_slashes (c ∷ s) = let rest = skip_slashes s in if c == slash then rest else c ∷ s

unfoldable pub from_slash : CString → CString
from_slash [] = []
from_slash (c ∷ s) = let rest = from_slash s in if c == slash then c ∷ s else rest

unfoldable pub before_slash : CString → CString
before_slash [] = []
before_slash (c ∷ s) = let rest = before_slash s in if c == slash then [] else c ∷ rest

-- `basename` and `dirname`, on the path from its end.
unfoldable pub base_name : CString → CString
unfolding skip_slashes before_slash
base_name [] = codes "."
base_name (c ∷ s) = elim (skip_slashes (reverse (c ∷ s))) [
  | [] ↦ codes "/"
  | d ∷ t ↦ reverse (before_slash (d ∷ t))
]

unfoldable pub dir_name : CString → CString
unfolding skip_slashes from_slash
dir_name [] = codes "."
dir_name (c ∷ s) = elim (skip_slashes (reverse (c ∷ s))) [
  | [] ↦ codes "/"
  | d ∷ t ↦ elim (from_slash (d ∷ t)) [
    | [] ↦ codes "."
    | e ∷ u ↦ elim (skip_slashes (e ∷ u)) [ [] ↦ codes "/" | f ∷ v ↦ reverse (f ∷ v) ]
  ]
]

-- `z`
unfoldable pub z : CString → Files → Option Files
z path s =
    if ltb (length path) 130 && ltb (length (dir_name path)) 70 && ltb (length (base_name path)) 70
    then some (record s { dirname = dir_name path; basename = base_name path })
    else none

-- `tokenize`: the parts between slashes that are not empty; `current` is the part so far.
abbrev pub flush : CString → List CString → List CString
flush [] ts = ts
flush (c ∷ s) ts = reverse (c ∷ s) ∷ ts

unfoldable pub tokenize_from : CString → CString → List CString
tokenize_from current [] = flush current []
tokenize_from current (c ∷ s) =
    if c == slash then flush current (tokenize_from [] s) else tokenize_from (c ∷ current) s

unfoldable pub tokenize : CString → List CString
unfolding tokenize_from
tokenize path = tokenize_from [] path

-- The loop of `nodeP`.
unfoldable pub walk : Files → List CString → ℕ → Option (Option ℕ)
walk s [] chief = some (some chief)
walk s (t ∷ ts) chief =
    if str_eq t (codes ".")
    then walk s ts chief
    else if str_eq t (codes "..")
    then (do r ← node s chief; walk s ts r.pptr)
    else do found ← look_c s chief t; elim found [ none ↦ some none | some p ↦ walk s ts p ]

-- Whether the directory name, which `z` has set last, is absolute.
abbrev pub is_absolute : CString → Bool
is_absolute [] = Bool.false
is_absolute (c ∷ s) = c == slash

-- `nodeP`; `nm` has room for 40 parts.
unfoldable pub node_p : CString → Files → Option (Option ℕ)
unfolding walk tokenize
node_p path s =
    let parts = tokenize path in
    if ltb (length path) 130 && ltb (length parts) 41
    then walk s parts (if is_absolute s.dirname then s.root else s.cwd)
    else none
