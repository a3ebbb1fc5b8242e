-- ===== src/Shell/Printed.antt =====
-- What tsh.c prints for a number.
use past_work.Base.{
  ℕ, zero, suc, ◌+◌, ◌-◌, ◌*◌, ◌/◌, ◌%◌, ◌<◌, ◌≤◌, ◌^◌, ◌≡◌, ◌⊎◌, inl, inr, refl, sym, ap, ◌∙◌,
  true, false, [], ◌∷◌, ◌++◌, ◌==◌, ltb, length, length-append, set, arith, Bool-cases,
}
use mathlib.Core.List.{reverse, reverse-cons, reverse-append, append_assoc}
use past_work.Base.Text.{CString, decimal, decimal_from}
use past_work.Shell.Numbers.{
  ℤ, pos, negsuc, char_at, str_it, back_from, back, digit, digits_from, push, sio_putl,
}

str_it-length : (s : CString) → str_it s ≡ length s
unfolding str_it
str_it-length [] = refl
str_it-length (c ∷ s) = ap suc (str_it-length s)

char_at-middle : (p : CString) (x : ℕ) (q : CString) → char_at (p ++ x ∷ q) (length p) ≡ x
unfolding char_at
char_at-middle [] x q = refl
char_at-middle (c ∷ p) x q = char_at-middle p x q

set-middle : (p : CString) (x y : ℕ) (q : CString) → set (p ++ x ∷ q) (length p) y ≡ p ++ y ∷ q
set-middle [] x y q = refl
set-middle (c ∷ p) x y q = ap (◌∷◌ c) (set-middle p x y q)

-- A text that is not empty has a last character.
last_of : (y : ℕ) (m : CString) → (m' : CString) × (b : ℕ) × (y ∷ m ≡ m' ++ b ∷ [])
last_of y [] = ([], y, refl)
last_of y (c ∷ m) = let (m', b, e) = last_of c m in (y ∷ m', b, ap (◌∷◌ y) e)

-- A text is empty, one character, or has two ends.
ends :
    (m : CString) → (length m ≤ 1) ⊎ ((x : ℕ) × (m' : CString) × (y : ℕ) × (m ≡ x ∷ m' ++ y ∷ []))
ends [] = inl (omega arith)
ends (x ∷ []) = inl (omega arith)
ends (x ∷ y ∷ m) = let (m', b, e) = last_of y m in inr (x, m', b, ap (◌∷◌ x) e)

reverse-ends : (x : ℕ) (m : CString) (y : ℕ) → reverse (x ∷ m ++ y ∷ []) ≡ y ∷ reverse m ++ x ∷ []
reverse-ends x m y =
    reverse-cons x (m ++ y ∷ []) ∙ ap (λ (s : CString). s ++ x ∷ []) (reverse-append m (y ∷ []))

reverse-short : (m : CString) → length m ≤ 1 → reverse m ≡ m
reverse-short [] h = refl
reverse-short (x ∷ []) h = refl
reverse-short (x ∷ y ∷ m) h = absurd (omega arith)

-- A round of `back` swaps the characters at the two indices.
swap :
    (p : CString) (x : ℕ) (m : CString) (y : ℕ) (q s : CString) (beta gamma : ℕ)
    → beta ≡ length p
    → gamma ≡ length p + length m + 1
    → s ≡ p ++ (x ∷ m ++ y ∷ q)
    → set (set s beta (char_at s gamma)) gamma (char_at s beta) ≡ p ++ (y ∷ m ++ x ∷ q)
swap p x m y q s beta gamma b g e =
    let far : s ≡ (p ++ x ∷ m) ++ y ∷ q = e ∙ sym (append_assoc p (x ∷ m) (y ∷ q)) in
    let at_beta : char_at s beta ≡ x =
      ap (λ (t : CString). char_at t beta) e
      ∙ ap (char_at (p ++ (x ∷ m ++ y ∷ q))) b
      ∙ char_at-middle p x (m ++ y ∷ q) in
    let far_index : gamma ≡ length (p ++ x ∷ m) = omega (arith, g, length-append p (x ∷ m)) in
    let at_gamma : char_at s gamma ≡ y =
      ap (λ (t : CString). char_at t gamma) far
      ∙ ap (char_at ((p ++ x ∷ m) ++ y ∷ q)) far_index
      ∙ char_at-middle (p ++ x ∷ m) y q in
    let first : set s beta y ≡ p ++ (y ∷ m ++ y ∷ q) =
      ap (λ (t : CString). set t beta y) e
      ∙ ap (λ (n : ℕ). set (p ++ (x ∷ m ++ y ∷ q)) n y) b
      ∙ set-middle p x y (m ++ y ∷ q) in
    let far_index' : gamma ≡ length (p ++ y ∷ m) = omega (arith, g, length-append p (y ∷ m)) in
    let second : set (p ++ (y ∷ m ++ y ∷ q)) gamma x ≡ p ++ (y ∷ m ++ x ∷ q) =
      ap (λ (t : CString). set t gamma x) (sym (append_assoc p (y ∷ m) (y ∷ q)))
      ∙ ap (λ (n : ℕ). set ((p ++ y ∷ m) ++ y ∷ q) n x) far_index'
      ∙ set-middle (p ++ y ∷ m) y x q
      ∙ append_assoc p (y ∷ m) (x ∷ q) in
    rw (at_beta, at_gamma, first) second

-- The loop turns round what stands between the two indices.
back_from-middle :
    (k : ℕ) (p m q s : CString) (beta gamma : ℕ)
    → length m ≤ k
    → beta ≡ length p
    → gamma ≡ length p + length m - 1
    → s ≡ p ++ (m ++ q)
    → back_from k beta gamma s ≡ p ++ (reverse m ++ q)
unfolding back_from
back_from-middle zero p m q s beta gamma fuel b g e =
    e ∙ ap (λ (n : CString). p ++ (n ++ q)) (sym (reverse-short m (omega (arith, fuel))))
back_from-middle (suc k) p m q s beta gamma fuel b g e = elim (ends m) [
  | inl short ↦
      let stop : ltb beta gamma ≡ false = ground (arith, b, g, short) in
      rw stop (e ∙ ap (λ (n : CString). p ++ (n ++ q)) (sym (reverse-short m short)))
  | inr (x, m', y, two) ↦
      let size : length m ≡ length m' + 2 =
        ap length two ∙ omega (arith, length-append m' (y ∷ [])) in
      let go : ltb beta gamma ≡ true = ground (arith, b, g, size) in
      let s_split : s ≡ p ++ (x ∷ m' ++ y ∷ q) =
        e
        ∙ ap (λ (n : CString). p ++ (n ++ q)) two
        ∙ ap (λ (n : CString). p ++ (x ∷ n)) (append_assoc m' (y ∷ []) q) in
      let swapped = swap p x m' y q s beta gamma b (omega (arith, g, size)) s_split in
      let rest =
        back_from-middle k (p ++ y ∷ []) m' (x ∷ q)
          (set (set s beta (char_at s gamma)) gamma (char_at s beta)) (suc beta) (gamma - 1)
          (omega (arith, size, fuel)) (omega (arith, b, length-append p (y ∷ [])))
          (omega (arith, g, size, length-append p (y ∷ [])))
          (swapped ∙ sym (append_assoc p (y ∷ []) (m' ++ x ∷ q))) in
      rw go (
        rest
        ∙ append_assoc p (y ∷ []) (reverse m' ++ x ∷ q)
        ∙ ap (λ (n : CString). p ++ (y ∷ n)) (sym (append_assoc (reverse m') (x ∷ []) q))
        ∙ ap (λ (n : CString). p ++ (n ++ q)) (sym (reverse-ends x m' y) ∙ ap reverse (sym two)))
]

append_nil : (s : CString) → s ++ [] ≡ s
append_nil [] = refl
append_nil (c ∷ s) = ap (◌∷◌ c) (append_nil s)

-- `back` reverses a text in place.
back-reverse : (s : CString) → back s ≡ reverse s
unfolding back
back-reverse s =
    back_from-middle (str_it s) [] s [] s 0 (str_it s - 1) (omega (arith, str_it-length s)) refl
      (omega (arith, str_it-length s)) (sym (append_nil s))
    ∙ append_nil (reverse s)

digit-small : (d : ℕ) → d < 10 → digit d ≡ b'0' + d
unfolding digit
digit-small d h = ground arith

-- The digits of `push` are those of `printf`, the last first.
digits_from-decimal : (k y : ℕ) → reverse (digits_from k y 10) ≡ decimal_from k y
unfolding digits_from decimal_from
digits_from-decimal zero y = refl
digits_from-decimal (suc k) y = elim (Bool-cases (ltb y 10)) [
  | inl one ↦
      let none_left : (y / 10 == 0) ≡ true = ground arith in
      let last : y % 10 ≡ y = ground arith in
      rw (one, none_left, last, digit-small y (ground arith)) refl
  | inr more ↦
      let left : (y / 10 == 0) ≡ false = ground arith in
      let last : digit (y % 10) ≡ b'0' + y % 10 = digit-small (y % 10) (ground arith) in
      rw (more, left, last, sym (digits_from-decimal k (y / 10)))
        (reverse-cons (b'0' + y % 10) (digits_from k (y / 10) 10))
]

-- What `printf("%ld", y)` prints.
unfoldable pub printed : ℤ → CString
printed (pos n) = decimal n
printed (negsuc n) = b'-' ∷ decimal (suc n)

unfoldable pub magnitude : ℤ → ℕ
magnitude (pos n) = n
magnitude (negsuc n) = suc n

-- The text that `sio_putl` writes for a number whose opposite is a `long` too is the one that
-- `printf` writes: its decimal digits, the first of them first, behind a minus sign when it is
-- negative.
pub sio_putl-printed : (y : ℤ) → sio_putl y ≡ printed y
unfolding sio_putl push printed decimal
sio_putl-printed (pos n) = back-reverse (digits_from (suc n) n 10) ∙ digits_from-decimal (suc n) n
sio_putl-printed (negsuc n) =
    back-reverse (digits_from (suc (suc n)) (suc n) 10 ++ b'-' ∷ [])
    ∙ reverse-append (digits_from (suc (suc n)) (suc n) 10) (b'-' ∷ [])
    ∙ ap (◌∷◌ b'-') (digits_from-decimal (suc (suc n)) (suc n))

decimal_from-length : (k j n : ℕ) → n < 10 ^ suc j → length (decimal_from k n) ≤ suc j
unfolding decimal_from
decimal_from-length zero j n h = omega arith
decimal_from-length (suc k) zero n h =
    let one : ltb n 10 ≡ true = ground arith in rw one (omega arith)
decimal_from-length (suc k) (suc j) n h = elim (Bool-cases (ltb n 10)) [
  | inl one ↦ rw one (omega arith)
  | inr more ↦
      let power : 10 ^ suc (suc j) ≡ 10 * 10 ^ suc j = ground arith in
      let shorter = decimal_from-length k j (n / 10) (omega (arith, h, power)) in
      rw more
        (omega (arith, shorter, length-append (decimal_from k (n / 10)) ((b'0' + n % 10) ∷ [])))
]

-- The text that `sio_putl` writes for a number of magnitude below 2^63 has at most 20 characters:
-- with its NUL it fits into the array of 130 that it is made in.
pub sio_putl-length : (y : ℤ) → magnitude y < 2 ^ 63 → length (sio_putl y) ≤ 20
unfolding printed magnitude decimal
sio_putl-length (pos n) h =
    let short = decimal_from-length (suc n) 18 n (omega (arith, h)) in
    rw (sio_putl-printed (pos n)) (omega (arith, short))
sio_putl-length (negsuc n) h =
    let short = decimal_from-length (suc (suc n)) 18 (suc n) (omega (arith, h)) in
    rw (sio_putl-printed (negsuc n)) (omega (arith, short))
