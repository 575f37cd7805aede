-- ===== src/Base/Int.antt =====
-- Signed integers over the native numbers: the C type `int`, within its range.
use Prim.Native.Nat.{ℕ, zero, suc, ◌+◌, ◌-◌, ◌%◌, ◌/◌, ◌<◌}
use mathlib.Core.Path.{◌≡◌, refl, ap}
use mathlib.Core.Bool.{Bool, true, false}
use native.Mathlib.Omega.{arith}
use network_system_programmi.Base.Tests.{leb, ltb, lt→ltb, ◌==◌, if◌then◌else◌}

-- `negsuc n` is -(n + 1).
pub data ℤ : Type 0 where
  pos : ℕ → ℤ
  negsuc : ℕ → ℤ

abbrev pub pos_part : ℤ → ℕ
pos_part (pos n) = n
pos_part (negsuc n) = 0

abbrev pub neg_part : ℤ → ℕ
neg_part (pos n) = 0
neg_part (negsuc n) = suc n

-- a - b, as an integer.
abbrev pub sub_ℕ : ℕ → ℕ → ℤ
sub_ℕ a b = if leb b a then pos (a - b) else negsuc (b - a - 1)

infixl 65 ◌+ℤ◌
abbrev pub ◌+ℤ◌ : ℤ → ℤ → ℤ
a +ℤ b = sub_ℕ (pos_part a + pos_part b) (neg_part a + neg_part b)

-- The value of an `int` of 32 bits that an operation has left with this pattern.
unfoldable pub as_int : ℕ → ℤ
as_int n = let w = n % 4294967296 in if ltb w 2147483648 then pos w else negsuc (4294967295 - w)

pub as_int-fits : (n : ℕ) → n < 2147483648 → as_int n ≡ pos n
unfolding as_int
as_int-fits n h =
    let same : n % 4294967296 ≡ n = omega arith in rw (same, lt→ltb n 2147483648 h) refl

abbrev pub neg : ℕ → ℤ
neg zero = pos 0
neg (suc n) = negsuc n

-- The division of C, towards 0, by an int that is not 0.
abbrev pub quot : ℤ → ℤ → ℤ
quot (pos a) (pos b) = pos (a / b)
quot (pos a) (negsuc b) = neg (a / suc b)
quot (negsuc a) (pos b) = neg (suc a / b)
quot (negsuc a) (negsuc b) = pos (suc a / suc b)

abbrev pub eq_int : ℤ → ℤ → Bool
eq_int (pos m) (pos n) = m == n
eq_int (negsuc m) (negsuc n) = m == n
eq_int (pos m) (negsuc n) = false
eq_int (negsuc m) (pos n) = false

pub eq_int_refl : (a : ℤ) → eq_int a a ≡ true
eq_int_refl (pos n) = ground arith
eq_int_refl (negsuc n) = ground arith

pub eq_int→eq : (a b : ℤ) → eq_int a b ≡ true → a ≡ b
eq_int→eq (pos m) (pos n) h = ap pos (ground arith)
eq_int→eq (negsuc m) (negsuc n) h = ap negsuc (ground arith)
eq_int→eq (pos m) (negsuc n) h = absurd (ground (arith, h))
eq_int→eq (negsuc m) (pos n) h = absurd (ground (arith, h))
