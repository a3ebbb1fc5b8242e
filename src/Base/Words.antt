-- ===== src/Base/Words.antt =====
-- Words of 32 bits as numbers below 2 ^ 32: the C types `uint32_t` and `int32_t`, the latter by
-- its two's-complement pattern.
use Prim.Native.Nat.{ℕ, ◌+◌, ◌-◌, ◌*◌, ◌%◌, ◌^◌}
use mathlib.Core.Bool.{Bool, ◌||◌}
use past_work.Base.Tests.{leb, ◌==◌}

abbrev pub add32 : ℕ → ℕ → ℕ
add32 m n = (m + n) % 2 ^ 32

-- The difference wraps: the modulus is added before the subtraction of the naturals.
abbrev pub sub32 : ℕ → ℕ → ℕ
sub32 m n = (m + 2 ^ 32 - n) % 2 ^ 32

abbrev pub mul32 : ℕ → ℕ → ℕ
mul32 m n = (m * n) % 2 ^ 32

-- `(int32_t) w <= 0`
abbrev pub nonpositive32 : ℕ → Bool
nonpositive32 w = (w == 0) || leb (2 ^ 31) w

-- The pattern of -1.
abbrev pub minus_one32 : ℕ
minus_one32 = 2 ^ 32 - 1
