-- ===== src/Prelude/Int.antt =====
-- Signed integers over the native numbers, for `i64` and `i128` values that never overflow.
use Prim.Native.Nat.{ℕ, suc, ◌+◌, ◌-◌, ◌/◌, ◌%◌}
use kehrkraft.Prelude.Tests.{leb, if◌then◌else◌}

-- `negsuc n` is -(n + 1).
pub data ℤ : Type 0 where
  pos : ℕ → ℤ
  negsuc : ℕ → ℤ

abbrev pub pos_part : ℤ → ℕ
pos_part (pos n) = n
pos_part (negsuc n) = 0

abbrev pub neg_part : ℤ → ℕ
neg_part (pos n) = 0
neg_part (negsuc n) = suc n

-- a - b, as an integer.
abbrev pub sub_ℕ : ℕ → ℕ → ℤ
sub_ℕ a b = if leb b a then pos (a - b) else negsuc (b - a - 1)

infixl 65 ◌+ℤ◌
unfoldable pub ◌+ℤ◌ : ℤ → ℤ → ℤ
a +ℤ b = sub_ℕ (pos_part a + pos_part b) (neg_part a + neg_part b)

-- Rust's `/`, which rounds towards zero, by a positive divisor.
unfoldable pub div_ℤ : ℤ → ℕ → ℤ
div_ℤ (pos n) m = pos (n / m)
div_ℤ (negsuc n) m = sub_ℕ 0 (suc n / m)

-- Rust's `rem_euclid`, by a positive divisor.
unfoldable pub rem_euclid : ℤ → ℕ → ℕ
rem_euclid (pos n) m = n % m
rem_euclid (negsuc n) m = m - 1 - n % m
