-- ===== src/Shell/Parse.antt =====
-- `parseline` of tsh.c: the command line as an argument vector.
use past_work.Base.{
  ℕ, zero, suc, Bool, true, false, Option, none, some, List, [], ◌∷◌, ◌==◌, ◌&&◌, ltb,
  if◌then◌else◌, length,
}
use past_work.Base.Text.{CString}

abbrev pub space : ℕ
space = b' '

abbrev pub quote : ℕ
quote = 39

abbrev pub ampersand : ℕ
ampersand = b'&'

-- `buf[strlen(buf)-1] = ' '`
unfoldable pub end_with_space : CString → CString
end_with_space [] = []
end_with_space (c ∷ []) = space ∷ []
end_with_space (c ∷ d ∷ s) = c ∷ end_with_space (d ∷ s)

-- `while (*buf && (*buf == ' ')) buf++;`
unfoldable pub skip_spaces : CString → CString
skip_spaces [] = []
skip_spaces (c ∷ s) = if c == space then skip_spaces s else c ∷ s

-- `strchr`: the text before the first `d`, and the text behind it.
unfoldable pub split_at : ℕ → CString → Option (CString × CString)
split_at d [] = none
split_at d (c ∷ s) =
    if c == d
    then some ([], s)
    else elim (split_at d s) [ none ↦ none | some (w, rest) ↦ some (c ∷ w, rest) ]

-- The next argument: what stands in single quotes, or up to a space.
unfoldable pub next_word : CString → Option (CString × CString)
next_word [] = none
next_word (c ∷ s) = if c == quote then split_at quote s else split_at space (c ∷ s)

-- The loop that builds the vector. Each round takes a character at least.
unfoldable pub words : ℕ → CString → List CString
words zero s = []
words (suc k) s = elim (next_word s) [ none ↦ [] | some (w, rest) ↦ w ∷ words k (skip_spaces rest) ]

-- A vector without its last element, where a job is to run in the background.
unfoldable pub drop_last : List CString → List CString
drop_last [] = []
drop_last (w ∷ []) = []
drop_last (w ∷ v ∷ ws) = w ∷ drop_last (v ∷ ws)

-- Whether the last argument begins with an ampersand.
unfoldable pub is_background : List CString → Bool
is_background [] = true
is_background ((c ∷ w) ∷ []) = c == ampersand
is_background ([] ∷ []) = false
is_background (w ∷ v ∷ ws) = is_background (v ∷ ws)

abbrev pub max_args : ℕ
max_args = 128

-- MAXLINE of tsh.c
abbrev pub max_line : ℕ
max_line = 1024

-- `parseline`: whether the job is to run in the background, and the vector; a blank line counts
-- as a background job. `none` is a write behind the end of the array that holds the copy of the
-- line, or of `argv`, whose last entry is NULL.
unfoldable pub parse_line : CString → Option (Bool × List CString)
parse_line cmdline =
    let buf = skip_spaces (end_with_space cmdline) in
    let argv = words (length buf) buf in
    let bg = is_background argv in
    if ltb (length cmdline) max_line && ltb (length argv) max_args
    then some (bg, if bg then drop_last argv else argv)
    else none
