-- ===== src/Shell/RoundTrip.antt =====
-- `parseline` of tsh.c against a printer of command lines.
use past_work.Base.{
  ℕ, zero, suc, ◌≤◌, ◌<◌, ◌≡◌, refl, ap, ◌∙◌, Bool, true, false, some, List, [], ◌∷◌, ◌++◌, ◌==◌,
  if◌then◌else◌, arith, All, length, length-append,
}
use past_work.Base.Text.{CString}
use past_work.Shell.Parse.{
  space, quote, ampersand, max_args, max_line, end_with_space, skip_spaces, split_at, next_word,
  words, drop_last, is_background, parse_line,
}

-- The text of an argument: not empty, with no space in it, and with no quote in front.
abbrev pub Word : CString → Type 0
Word [] = ⊥
Word (c ∷ w) = ((c == quote) ≡ false) × All (λ d. (d == space) ≡ false) (c ∷ w)

-- Arguments that are printed with a space between them, and a newline at the end.
abbrev pub line : List CString → CString
line [] = b'\n' ∷ []
line (w ∷ []) = w ++ b'\n' ∷ []
line (w ∷ v ∷ ws) = w ++ space ∷ line (v ∷ ws)

-- The same with a space behind each.
abbrev spaced : List CString → CString
spaced [] = []
spaced (w ∷ ws) = w ++ space ∷ spaced ws

end_with_space-append :
    (w : CString) (c : ℕ) (s : CString) → end_with_space (w ++ c ∷ s) ≡ w ++ end_with_space (c ∷ s)
unfolding end_with_space
end_with_space-append [] c s = refl
end_with_space-append (d ∷ []) c s = refl
end_with_space-append (d ∷ e ∷ w) c s = ap (◌∷◌ d) (end_with_space-append (e ∷ w) c s)

end_with_space-cons :
    (c d : ℕ) (s : CString) → end_with_space (c ∷ d ∷ s) ≡ c ∷ end_with_space (d ∷ s)
unfolding end_with_space
end_with_space-cons c d s = refl

line_cons : (w : CString) (ws : List CString) → (c : ℕ) × (s : CString) × (line (w ∷ ws) ≡ c ∷ s)
line_cons [] [] = (b'\n', [], refl)
line_cons (c ∷ w) [] = (c, _, refl)
line_cons [] (v ∷ ws) = (space, _, refl)
line_cons (c ∷ w) (v ∷ ws) = (c, _, refl)

spread :
    (w : CString) (ws : List CString)
    → end_with_space (space ∷ line (w ∷ ws)) ≡ space ∷ end_with_space (line (w ∷ ws))
spread w ws = let (c, s, e) = line_cons w ws in rw e (end_with_space-cons space c s)

end_with_space-line :
    (w : CString) (ws : List CString) → end_with_space (line (w ∷ ws)) ≡ spaced (w ∷ ws)
unfolding end_with_space
end_with_space-line w [] = end_with_space-append w b'\n' []
end_with_space-line w (v ∷ ws) =
    let (c, s, e) = line_cons v ws in
    end_with_space-append w space (line (v ∷ ws))
    ∙ ap (λ (t : CString). w ++ t) (spread v ws ∙ ap (◌∷◌ space) (end_with_space-line v ws))

split_at-word :
    (d : ℕ) (w rest : CString)
    → All (λ c. (c == d) ≡ false) w
    → split_at d (w ++ d ∷ rest) ≡ some (w, rest)
unfolding split_at
split_at-word d [] rest h = ground arith
split_at-word d (c ∷ w) rest h = ground (arith, split_at-word d w rest h.1)

next_word-Word : (w rest : CString) → Word w → next_word (w ++ space ∷ rest) ≡ some (w, rest)
unfolding next_word
next_word-Word [] rest h = absurd h
next_word-Word (c ∷ w) rest h = rw h.0 (split_at-word space (c ∷ w) rest h.1)

skip_spaces-spaced : (ws : List CString) → All Word ws → skip_spaces (spaced ws) ≡ spaced ws
unfolding skip_spaces
skip_spaces-spaced [] h = refl
skip_spaces-spaced ([] ∷ ws) h = absurd h.0
skip_spaces-spaced ((c ∷ w) ∷ ws) h = rw (h.0.1.0)

words-nil : (k : ℕ) → words (suc k) [] ≡ []
unfolding words next_word
words-nil k = refl

words-spaced : (k : ℕ) (ws : List CString) → All Word ws → length ws ≤ k → words k (spaced ws) ≡ ws
unfolding words
words-spaced zero [] h fuel = refl
words-spaced zero (w ∷ ws) h fuel = absurd (omega arith)
words-spaced (suc k) [] h fuel = words-nil k
words-spaced (suc k) (w ∷ ws) h fuel =
    rw (next_word-Word w (spaced ws) h.0, words, skip_spaces-spaced ws h.1)
      (ap (◌∷◌ w) (words-spaced k ws h.1 (omega arith)))

length-spaced : (ws : List CString) → length ws ≤ length (spaced ws)
length-spaced [] = omega arith
length-spaced (w ∷ ws) = omega (arith, length-append w (space ∷ spaced ws), length-spaced ws)

-- A last argument that asks for the background.
abbrev pub amp : CString
amp = ampersand ∷ []

-- Whether the last of some arguments begins with something else.
abbrev pub Foreground : List CString → Type 0
Foreground [] = ⊥
Foreground ([] ∷ []) = Unit
Foreground ((c ∷ _) ∷ []) = (c == ampersand) ≡ false
Foreground (w ∷ v ∷ ws) = Foreground (v ∷ ws)

is_background-Foreground : (ws : List CString) → Foreground ws → is_background ws ≡ false
unfolding is_background
is_background-Foreground [] h = absurd h
is_background-Foreground ([] ∷ []) h = refl
is_background-Foreground ((c ∷ w) ∷ []) h = h
is_background-Foreground ([] ∷ v ∷ ws) h = is_background-Foreground (v ∷ ws) h
is_background-Foreground ((c ∷ w) ∷ v ∷ ws) h = is_background-Foreground (v ∷ ws) h

is_background-amp : (ws : List CString) → is_background (ws ++ amp ∷ []) ≡ true
unfolding is_background
is_background-amp [] = refl
is_background-amp ([] ∷ []) = refl
is_background-amp ((c ∷ w) ∷ []) = refl
is_background-amp ([] ∷ v ∷ ws) = is_background-amp (v ∷ ws)
is_background-amp ((c ∷ w) ∷ v ∷ ws) = is_background-amp (v ∷ ws)

drop_last-snoc : (ws : List CString) (w : CString) → drop_last (ws ++ w ∷ []) ≡ ws
unfolding drop_last
drop_last-snoc [] w = refl
drop_last-snoc (v ∷ []) w = refl
drop_last-snoc (v ∷ u ∷ ws) w = ap (◌∷◌ v) (drop_last-snoc (u ∷ ws) w)

-- The argument vector before the look at its last entry.
parsed :
    (w : CString) (ws : List CString)
    → All Word (w ∷ ws)
    → words
        (length (skip_spaces (end_with_space (line (w ∷ ws)))))
        (skip_spaces (end_with_space (line (w ∷ ws))))
      ≡ w ∷ ws
parsed w ws h =
    rw (end_with_space-line w ws, skip_spaces-spaced (w ∷ ws) h)
      (words-spaced (length (spaced (w ∷ ws))) (w ∷ ws) h (length-spaced (w ∷ ws)))

parse_line-argv :
    (cmdline : CString) (argv : List CString) (bg : Bool)
    → words (length (skip_spaces (end_with_space cmdline))) (skip_spaces (end_with_space cmdline))
      ≡ argv
    → length cmdline < max_line
    → length argv < max_args
    → is_background argv ≡ bg
    → parse_line cmdline ≡ some (bg, if bg then drop_last argv else argv)
unfolding parse_line
parse_line-argv cmdline argv bg e fits room b = ground arith

-- From at least one and fewer than 128 arguments that are printed with a space between them and a
-- newline at the end, in fewer than 1024 characters, `parseline` gives back the arguments, for the
-- foreground, when no argument is empty, has a space in it or begins with a quote, and the last
-- does not begin with an ampersand.
pub parse_line-line :
    (w : CString) (ws : List CString)
    → All Word (w ∷ ws)
    → length (line (w ∷ ws)) < max_line
    → length (w ∷ ws) < max_args
    → Foreground (w ∷ ws)
    → parse_line (line (w ∷ ws)) ≡ some (false, w ∷ ws)
parse_line-line w ws h fits room f =
    parse_line-argv (line (w ∷ ws)) (w ∷ ws) false (parsed w ws h) fits room
      (is_background-Foreground (w ∷ ws) f)

-- From at least one and fewer than 127 arguments and an ampersand behind them, printed with a space
-- between them and a newline at the end, in fewer than 1024 characters, `parseline` gives back the
-- arguments without the ampersand, for the background, when no argument is empty, has a space in it
-- or begins with a quote.
pub parse_line-line-amp :
    (w : CString) (ws : List CString)
    → All Word (w ∷ ws ++ amp ∷ [])
    → length (line (w ∷ ws ++ amp ∷ [])) < max_line
    → length (w ∷ ws ++ amp ∷ []) < max_args
    → parse_line (line (w ∷ ws ++ amp ∷ [])) ≡ some (true, w ∷ ws)
parse_line-line-amp w ws h fits room =
    parse_line-argv (line (w ∷ ws ++ amp ∷ [])) (w ∷ ws ++ amp ∷ []) true
      (parsed w (ws ++ amp ∷ []) h) fits room (is_background-amp (w ∷ ws))
    ∙ ap (λ (v : List CString). some (true, v)) (drop_last-snoc (w ∷ ws) amp)
