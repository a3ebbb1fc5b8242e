-- ===== src/Shell/Numbers.antt =====
-- How the handlers of tsh.c turn a number into text: `push`, `back` and `sio_putl`.
use past_work.Base.{ℕ, zero, suc, ◌+◌, ◌-◌, ◌/◌, ◌%◌, [], ◌∷◌, ◌++◌, ◌==◌, ltb, if◌then◌else◌, set}
use past_work.Base.Text.{CString}

-- A `long`.
pub data ℤ : Type 0 where
  pos : ℕ → ℤ
  negsuc : ℕ → ℤ

-- `s[i]`, the terminating NUL behind the text.
unfoldable pub char_at : CString → ℕ → ℕ
char_at [] i = 0
char_at (c ∷ s) zero = c
char_at (c ∷ s) (suc i) = char_at s i

-- `str_it`
unfoldable pub str_it : CString → ℕ
str_it [] = 0
str_it (c ∷ s) = suc (str_it s)

-- The loop of `back`. Each round brings the two indices nearer, so that as many rounds as there are
-- characters are enough.
unfoldable pub back_from : ℕ → (beta gamma : ℕ) → CString → CString
unfolding char_at
back_from zero beta gamma s = s
back_from (suc k) beta gamma s =
    let alpha = char_at s beta in
    let swapped = set (set s beta (char_at s gamma)) gamma alpha in
    let rest = back_from k (suc beta) (gamma - 1) swapped in if ltb beta gamma then rest else s

-- `back`. The index of the last character of the empty text is -1 in the source, and the loop ends
-- at once there as it does here.
unfoldable pub back : CString → CString
unfolding back_from str_it
back s = back_from (str_it s) 0 (str_it s - 1) s

-- `alpha < yo ? alpha + '0' : alpha - yo + 'y'`
unfoldable pub digit : ℕ → ℕ
digit alpha = if ltb alpha 10 then alpha + b'0' else alpha - 10 + b'y'

-- The `do` loop of `push`: the digits, the last first. A number has no more digits than its value
-- and one more.
unfoldable pub digits_from : ℕ → (y z : ℕ) → CString
unfolding digit
digits_from zero y z = []
digits_from (suc k) y z =
    let rest = digits_from k (y / z) z in digit (y % z) ∷ (if y / z == 0 then [] else rest)

-- `push`, on numbers whose opposite is a `long` too.
unfoldable pub push : ℤ → ℕ → CString
unfolding digits_from back
push (pos y) z = back (digits_from (suc y) y z)
push (negsuc n) z = back (digits_from (suc (suc n)) (suc n) z ++ b'-' ∷ [])

-- `sio_putl`: the text that is written.
unfoldable pub sio_putl : ℤ → CString
unfolding push
sio_putl y = push y 10
