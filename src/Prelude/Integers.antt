-- ===== src/Prelude/Integers.antt =====
-- Integers over the native numbers.
use Prim.Native.Nat.{ℕ, zero, suc, ◌+◌, ◌-◌, ◌%◌, ◌<◌}
use mathlib.Core.Path.{◌≡◌}
use mathlib.Core.Bool.{Bool}
use native.Mathlib.Omega.{arith}
use vitis.Prelude.Tests.{ltb, leb, if◌then◌else◌}

pub data ℤ : Type 0 where
  pos : ℕ → ℤ
  negsuc : ℕ → ℤ

-- The difference of two numbers.
abbrev pub sub_nat : ℕ → ℕ → ℤ
sub_nat m zero = pos m
sub_nat zero (suc n) = negsuc n
sub_nat (suc m) (suc n) = sub_nat m n

abbrev pub pos_part : ℤ → ℕ
pos_part (pos n) = n
pos_part (negsuc n) = 0

abbrev pub neg_part : ℤ → ℕ
neg_part (pos n) = 0
neg_part (negsuc n) = suc n

-- a - b, as an integer.
abbrev pub sub_ℕ : ℕ → ℕ → ℤ
sub_ℕ a b = if leb b a then pos (a - b) else negsuc (b - a - 1)

infixl 65 ◌+ℤ◌ ◌-ℤ◌
unfoldable pub ◌+ℤ◌ : ℤ → ℤ → ℤ
a +ℤ b = sub_ℕ (pos_part a + pos_part b) (neg_part a + neg_part b)

unfoldable pub ◌-ℤ◌ : ℤ → ℤ → ℤ
a -ℤ b = sub_ℕ (pos_part a + neg_part b) (neg_part a + pos_part b)

abbrev pub ltb_ℤ : ℤ → ℤ → Bool
ltb_ℤ a b = ltb (pos_part a + neg_part b) (pos_part b + neg_part a)

abbrev pub leb_ℤ : ℤ → ℤ → Bool
leb_ℤ a b = leb (pos_part a + neg_part b) (pos_part b + neg_part a)

abbrev pub two63 : ℕ
two63 = 9223372036854775808

abbrev pub two64 : ℕ
two64 = 18446744073709551616

-- The signed reading of a 64-bit pattern.
abbrev pub signed64 : ℕ → ℤ
signed64 u = if ltb u two63 then pos u else negsuc (two64 - 1 - u)

-- A Go `int` keeps the 64 low bits of a result.
unfoldable pub wrap64 : ℤ → ℤ
wrap64 (pos n) = signed64 (n % two64)
wrap64 (negsuc n) = signed64 (two64 - 1 - n % two64)

unfoldable pub add_int : ℤ → ℤ → ℤ
unfolding ◌+ℤ◌ wrap64
add_int a b = wrap64 (a +ℤ b)

unfoldable pub sub_int : ℤ → ℤ → ℤ
unfolding ◌-ℤ◌ wrap64
sub_int a b = wrap64 (a -ℤ b)

pub add_int_small : (a b : ℕ) → a + b < two63 → add_int (pos a) (pos b) ≡ pos (a + b)
unfolding add_int
add_int_small a b h = ground arith

-- A difference of two small numbers, cut off at zero.
pub sub_int_floor : (a b : ℕ) → a < two63 → b < two63 → pos_part (sub_int (pos a) (pos b)) ≡ a - b
unfolding sub_int
sub_int_floor a b h k = ground arith
