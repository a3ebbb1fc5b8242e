-- ===== src/Base/Search.antt =====
-- `strstr` on C strings.
use Prim.Native.Nat.{ℕ}
use mathlib.Core.Path.{◌≡◌, ap, ◌∙◌}
use mathlib.Core.Bool.{Bool, true, false}
use mathlib.Core.Logic.{inl, inr}
use mathlib.Core.List.{[], ◌∷◌, ◌++◌}
use mathlib.Core.Option.{Option, none, some}
use native.Mathlib.Omega.{arith}
use past_work.Base.Tests.{◌==◌, if◌then◌else◌, Option-cases}
use past_work.Base.Text.{CString}

-- The rest of a text that begins with another.
unfoldable pub after_prefix : CString → CString → Option CString
after_prefix [] s = some s
after_prefix (p ∷ ps) [] = none
after_prefix (p ∷ ps) (c ∷ s) = let rest = after_prefix ps s in if c == p then rest else none

-- `strstr`: the text before the first occurrence, and the text behind it.
unfoldable pub cut : CString → CString → Option (CString × CString)
unfolding after_prefix
cut p [] = elim (after_prefix p []) [ none ↦ none | some rest ↦ some ([], rest) ]
cut p (c ∷ s) = elim (after_prefix p (c ∷ s)) [
  | some rest ↦ some ([], rest)
  | none ↦ elim (cut p s) [ none ↦ none | some (before, rest) ↦ some (c ∷ before, rest) ]
]

-- Whether one text stands in another.
abbrev pub contains : CString → CString → Bool
contains p s = elim (cut p s) [ none ↦ false | some _ ↦ true ]

pub after_prefix_sound : (p s rest : CString) → after_prefix p s ≡ some rest → s ≡ p ++ rest
unfolding after_prefix
after_prefix_sound [] s rest e = ground arith
after_prefix_sound (c ∷ p) [] rest e = absurd (cc e)
after_prefix_sound (c ∷ p) (d ∷ s) rest e =
    let same : d ≡ c = ground arith in
    let more : after_prefix p s ≡ some rest = ground arith in
    ap (λ (n : ℕ). n ∷ s) same ∙ ap (◌∷◌ c) (after_prefix_sound p s rest more)

pub cut_sound :
    (p s before rest : CString) → cut p s ≡ some (before, rest) → s ≡ before ++ p ++ rest
unfolding cut
cut_sound p [] before rest e = elim (Option-cases (after_prefix p [])) [
  | inl no_match ↦ absurd (ground arith)
  | inr (r, found) ↦
      let b : before ≡ [] = ground arith in
      let same : r ≡ rest = ground arith in rw (b, ← same) (after_prefix_sound p [] r found)
]
cut_sound p (c ∷ s) before rest e = elim (Option-cases (after_prefix p (c ∷ s))) [
  | inr (r, found) ↦
      let b : before ≡ [] = ground arith in
      let same : r ≡ rest = ground arith in rw (b, ← same) (after_prefix_sound p (c ∷ s) r found)
  | inl no_match ↦ elim (Option-cases (cut p s)) [
    | inl none_left ↦ absurd (ground arith)
    | inr ((a, r), found) ↦
        let b : before ≡ c ∷ a = ground arith in
        let same : r ≡ rest = ground arith in rw (b, ← same) (ap (◌∷◌ c) (cut_sound p s a r found))
  ]
]
