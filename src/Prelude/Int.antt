-- ===== src/Prelude/Int.antt =====
-- Signed integers over the native numbers, and the reading of a 64-bit pattern as a `long`.
use Prim.Native.Nat.{ℕ, suc, ◌+◌, ◌-◌, ◌%◌, ◌^◌}
use mathlib.Core.Bool.{Bool, true}
use lsm_workload_aware_compa.Prelude.Tests.{ltb, if◌then◌else◌}

-- `negsuc n` is -(n + 1).
pub data ℤ : Type 0 where
  pos : ℕ → ℤ
  negsuc : ℕ → ℤ

abbrev pub pos_part : ℤ → ℕ
pos_part (pos n) = n
pos_part (negsuc n) = 0

abbrev pub neg_part : ℤ → ℕ
neg_part (pos n) = 0
neg_part (negsuc n) = suc n

abbrev pub ltb_ℤ : ℤ → ℤ → Bool
ltb_ℤ a b = ltb (pos_part a + neg_part b) (pos_part b + neg_part a)

-- The `long` with the given bit pattern, in two's complement.
abbrev pub long_of_bits : ℕ → ℤ
long_of_bits n = if ltb n (2 ^ 63) then pos n else negsuc (2 ^ 64 - 1 - n)

-- The conversion to an unsigned type of the given width.
abbrev pub to_unsigned : ℕ → ℤ → ℕ
to_unsigned width (pos n) = n % 2 ^ width
to_unsigned width (negsuc n) = 2 ^ width - 1 - n % 2 ^ width

-- The conversion to `bool`.
abbrev pub nonzero : ℤ → Bool
nonzero (pos n) = ltb 0 n
nonzero (negsuc n) = true

abbrev pub pred_ℤ : ℤ → ℤ
pred_ℤ (pos n) = if ltb 0 n then pos (n - 1) else negsuc 0
pred_ℤ (negsuc n) = negsuc (suc n)

-- a - b, as an integer.
abbrev pub sub_ℕ : ℕ → ℕ → ℤ
sub_ℕ a b = if ltb a b then negsuc (b - a - 1) else pos (a - b)

infixl 65 ◌-ℤ◌
abbrev pub ◌-ℤ◌ : ℤ → ℤ → ℤ
a -ℤ b = sub_ℕ (pos_part a + neg_part b) (neg_part a + pos_part b)

-- Whether a `long` holds the number.
abbrev pub fits_long : ℤ → Bool
fits_long (pos n) = ltb n (2 ^ 63)
fits_long (negsuc n) = ltb n (2 ^ 63)

infixl 65 ◌+ℤ◌
abbrev pub ◌+ℤ◌ : ℤ → ℤ → ℤ
a +ℤ b = sub_ℕ (pos_part a + pos_part b) (neg_part a + neg_part b)
