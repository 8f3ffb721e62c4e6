-- ===== src/Base/Int.antt =====
-- Signed integers over the native numbers, with the tests of `<`, `>`, `==` on them, and their
-- two's-complement representation in `int32_t` and `int64_t`.
use Prim.Native.Nat.{ℕ, suc, ◌+◌, ◌-◌, ◌≤◌, ◌<◌}
use mathlib.Core.Path.{◌≡◌}
use mathlib.Core.Bool.{Bool}
use native.Mathlib.Omega.{arith}
use columnix.Base.Tests.{ltb, ◌==◌, if◌then◌else◌}

-- `negsuc n` is -(n + 1).
pub data ℤ : Type 0 where
  pos : ℕ → ℤ
  negsuc : ℕ → ℤ

abbrev pub pos_part : ℤ → ℕ
pos_part (pos n) = n
pos_part (negsuc n) = 0

abbrev pub neg_part : ℤ → ℕ
neg_part (pos n) = 0
neg_part (negsuc n) = suc n

infix 50 ◌<ℤ◌ ◌≤ℤ◌
abbrev pub ◌<ℤ◌ : ℤ → ℤ → Type 0
a <ℤ b = pos_part a + neg_part b < pos_part b + neg_part a

abbrev pub ◌≤ℤ◌ : ℤ → ℤ → Type 0
a ≤ℤ b = pos_part a + neg_part b ≤ pos_part b + neg_part a

abbrev pub ltb_ℤ : ℤ → ℤ → Bool
ltb_ℤ a b = ltb (pos_part a + neg_part b) (pos_part b + neg_part a)

abbrev pub eqb_ℤ : ℤ → ℤ → Bool
eqb_ℤ a b = pos_part a + neg_part b == pos_part b + neg_part a

-- The bit pattern of a signed number of 2 * `half` values, and the number of a pattern.
abbrev pub to_signed : ℕ → ℕ → ℤ
to_signed half r = if ltb r half then pos r else negsuc (half + half - 1 - r)

abbrev pub of_signed : ℕ → ℤ → ℕ
of_signed half (pos n) = n
of_signed half (negsuc n) = half + half - 1 - n

abbrev pub InSigned : ℕ → ℤ → Type 0
InSigned half (pos n) = n < half
InSigned half (negsuc n) = n < half

pub to_signed-of_signed :
    (half : ℕ) (z : ℤ) → InSigned half z → to_signed half (of_signed half z) ≡ z
to_signed-of_signed half (pos n) h = ground arith
to_signed-of_signed half (negsuc n) h = ground arith

pub of_signed-lt : (half : ℕ) (z : ℤ) → InSigned half z → of_signed half z < half + half
of_signed-lt half (pos n) h = omega arith
of_signed-lt half (negsuc n) h = omega arith
