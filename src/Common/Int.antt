-- ===== src/Common/Int.antt =====
-- Signed integers over the native numbers, as far as the signed fields of the sources need them.
use Prim.Native.Nat.{ℕ, suc, ◌+◌, ◌-◌}
use mathlib.Core.Bool.{Bool, false}
use clibmedia_transfer_proto.Common.Tests.{ltb, leb, ◌==◌, if◌then◌else◌}

-- `negsuc n` is -(n + 1).
pub data ℤ : Type 0 where
  pos : ℕ → ℤ
  negsuc : ℕ → ℤ

abbrev pub pos_part : ℤ → ℕ
pos_part (pos n) = n
pos_part (negsuc n) = 0

abbrev pub neg_part : ℤ → ℕ
neg_part (pos n) = 0
neg_part (negsuc n) = suc n

-- a - b, as an integer.
abbrev pub sub_ℕ : ℕ → ℕ → ℤ
sub_ℕ a b = if leb b a then pos (a - b) else negsuc (b - a - 1)

-- An integer and a size.
abbrev pub sub_nat : ℤ → ℕ → ℤ
sub_nat (pos a) n = sub_ℕ a n
sub_nat (negsuc a) n = negsuc (a + n)

abbrev pub add_nat : ℤ → ℕ → ℤ
add_nat (pos a) n = pos (a + n)
add_nat (negsuc a) n = sub_ℕ n (suc a)

abbrev pub is_zero : ℤ → Bool
is_zero (pos n) = n == 0
is_zero (negsuc n) = false

-- Whether the size is below the integer.
abbrev pub lt_nat : ℕ → ℤ → Bool
lt_nat n (pos a) = ltb n a
lt_nat n (negsuc a) = false
