-- ===== src/Base/Text.antt =====
-- C strings: a string is the list of its bytes before the terminating NUL.
use Prim.Native.Nat.{ℕ, zero, suc, ◌+◌, ◌/◌, ◌%◌}
use Prim.Native.Char.{code}
use Prim.Native.String.{String}
use mathlib.Core.Path.{◌≡◌, refl}
use mathlib.Core.Bool.{Bool, true, false, ◌&&◌}
use mathlib.Core.List.{List, [], ◌∷◌, ◌++◌}
use native.Mathlib.Omega.{arith}
use past_work.Base.Tests.{◌==◌, ltb, if◌then◌else◌}

abbrev pub CString : Type 0
CString = List ℕ

-- The bytes of an ASCII literal.
abbrev pub codes : String → CString
codes String.[] = []
codes (String.◌∷◌ c s) = code c ∷ codes s

-- `strcmp(s, t) == 0`
abbrev pub str_eq : CString → CString → Bool
str_eq [] [] = true
str_eq [] (d ∷ t) = false
str_eq (c ∷ s) [] = false
str_eq (c ∷ s) (d ∷ t) = (c == d) && str_eq s t

pub str_eq_sound : (s t : CString) → str_eq s t ≡ true → s ≡ t
str_eq_sound [] [] h = refl
str_eq_sound [] (d ∷ t) h = ground arith
str_eq_sound (c ∷ s) [] h = ground arith
str_eq_sound (c ∷ s) (d ∷ t) h = ground (arith, str_eq_sound s t)

pub str_eq_self : (s : CString) → str_eq s s ≡ true
str_eq_self [] = refl
str_eq_self (c ∷ s) = ground (arith, str_eq_self s)

-- `sprintf("%d", n)` and `sprintf("%lu", n)`: the decimal digits, with a bound on their number.
unfoldable pub decimal_from : ℕ → ℕ → CString
decimal_from zero n = []
decimal_from (suc k) n =
    let high = decimal_from k (n / 10) in
    if ltb n 10 then (b'0' + n) ∷ [] else high ++ (b'0' + n % 10) ∷ []

-- A number has no more digits than its value and one more.
unfoldable pub decimal : ℕ → CString
unfolding decimal_from
decimal n = decimal_from (suc n) n
