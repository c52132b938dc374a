-- ===== src/Go/Int32.antt =====
-- Conversions to `int32`, which keep the low 32 bits and read them as two's complement.
use undermoon_operator_old.Common.{
  ℕ, ◌+◌, ◌-◌, ◌*◌, ◌%◌, ◌^◌, ◌<◌, ◌≡◌, refl, arith, ltb, if◌then◌else◌,
}
use undermoon_operator_old.Common.Int.{ℤ, pos, negsuc}

-- The low 32 bits.
abbrev bits32 : ℤ → ℕ
bits32 (pos n) = n % 2 ^ 32
bits32 (negsuc n) = 2 ^ 32 - 1 - n % 2 ^ 32

-- The `int32` with these bits.
abbrev of_bits32 : ℕ → ℤ
of_bits32 b = if ltb b (2 ^ 31) then pos b else negsuc (2 ^ 32 - 1 - b)

-- `int32(x)`
unfoldable pub int32 : ℤ → ℤ
int32 x = of_bits32 (bits32 x)

abbrev twice : ℤ → ℤ
twice (pos n) = pos (2 * n)
twice (negsuc n) = negsuc (2 * n + 1)

-- `x * 2` in `int32`
unfoldable pub mul2_int32 : ℤ → ℤ
unfolding int32
mul2_int32 x = int32 (twice x)

-- `x - 1` in `int32`
unfoldable pub pred_int32 : ℤ → ℤ
unfolding int32
pred_int32 (pos n) = if ltb 0 n then pos (n - 1) else negsuc 0
pred_int32 (negsuc n) = int32 (negsuc (n + 1))

pub int32_of_small : (n : ℕ) → n < 2 ^ 31 → int32 (pos n) ≡ pos n
unfolding int32
int32_of_small n h = ground arith

-- Doubling after the conversion or before it is the same, wrap-around included.
pub mul2_int32-int32 : (n : ℕ) → mul2_int32 (int32 (pos n)) ≡ int32 (pos (n * 2))
unfolding mul2_int32
mul2_int32-int32 n = ground arith

negative : int32 (pos (2 ^ 31)) ≡ negsuc (2 ^ 31 - 1)
unfolding int32
negative = refl
