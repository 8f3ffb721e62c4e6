-- ===== src/Base/Bits.antt =====
-- The bits of a number: a test at an index, and what the bitwise operations do to it.
use Prim.Native.Nat.{
  ℕ, zero, suc, ◌+◌, ◌-◌, ◌*◌, ◌/◌, ◌%◌, ◌^◌, ◌≤◌, ◌<◌, min, max, bit_and, bit_or, digits,
  bit_and-bitwise, bit_or-bitwise,
}
use mathlib.Core.Path.{◌≡◌, refl, ◌∙◌}
use mathlib.Core.List.{List, [], ◌∷◌}
use mathlib.Core.Bool.{Bool, false, ◌&&◌, ◌||◌, not}
use native.Mathlib.Nat.{pow-suc, one-le-pow, pow-le-pow_right}
use native.Mathlib.Omega.{arith}
use columnix.Base.Tests.{ltb, ◌==◌}

-- Whether bit `i` of `n` is set: `n & (1 << i)`.
abbrev pub bit : ℕ → ℕ → Bool
bit zero n = n % 2 == 1
bit (suc i) n = bit i (n / 2)

-- One digit of an operation that `digits` computes, whatever the fuel.
module _ (z : ℕ → ℕ) (op : ℕ → ℕ → ℕ) where
  enough : (n m a b : ℕ) → a ≤ n → a ≤ m → digits z op n a b ≡ digits z op m a b
  enough zero zero zero b p q = refl
  enough zero zero (suc a) b p q = elim p [ ]
  enough zero (suc m) zero b p q = refl
  enough zero (suc m) (suc a) b p q = elim p [ ]
  enough (suc n) zero zero b p q = refl
  enough (suc n) zero (suc a) b p q = elim q [ ]
  enough (suc n) (suc m) zero b p q = refl
  enough (suc n) (suc m) (suc a) b p q =
      rw (enough n m (suc a / 2) (b / 2) (omega arith) (omega arith))

and_low : (a b : ℕ) → bit_and a b ≡ bit_and (a / 2) (b / 2) * 2 + min (a % 2) (b % 2)
and_low zero b = omega (arith, bit_and-bitwise 0 b, bit_and-bitwise 0 (b / 2))
and_low (suc a) b = omega (
  arith,
  bit_and-bitwise (suc a) b,
  bit_and-bitwise (suc a / 2) (b / 2),
  enough (λ _. 0) min a (suc a / 2) (suc a / 2) (b / 2) (omega arith) (omega arith),
)

or_low : (a b : ℕ) → bit_or a b ≡ bit_or (a / 2) (b / 2) * 2 + max (a % 2) (b % 2)
or_low zero b = omega (arith, bit_or-bitwise 0 b, bit_or-bitwise 0 (b / 2))
or_low (suc a) b = omega (
  arith,
  bit_or-bitwise (suc a) b,
  bit_or-bitwise (suc a / 2) (b / 2),
  enough (λ y. y) max a (suc a / 2) (suc a / 2) (b / 2) (omega arith) (omega arith),
)

pub bit-and : (i a b : ℕ) → bit i (bit_and a b) ≡ (bit i a && bit i b)
bit-and zero a b = ground (arith, and_low a b)
bit-and (suc i) a b =
    let halved : bit_and a b / 2 ≡ bit_and (a / 2) (b / 2) = omega (arith, and_low a b) in
    rw halved (bit-and i (a / 2) (b / 2))

pub bit-or : (i a b : ℕ) → bit i (bit_or a b) ≡ (bit i a || bit i b)
bit-or zero a b = ground (arith, or_low a b)
bit-or (suc i) a b =
    let halved : bit_or a b / 2 ≡ bit_or (a / 2) (b / 2) = omega (arith, or_low a b) in
    rw halved (bit-or i (a / 2) (b / 2))

pub bit-zero : (i : ℕ) → bit i 0 ≡ false
bit-zero zero = refl
bit-zero (suc i) = bit-zero i

-- `1 << k`.
pub bit-pow : (i k : ℕ) → bit i (2 ^ k) ≡ (i == k)
bit-pow zero zero = refl
bit-pow zero (suc k) = ground (arith, pow-suc 2 k)
bit-pow (suc i) zero = bit-zero i ∙ ground arith
bit-pow (suc i) (suc k) =
    let halved : 2 ^ suc k / 2 ≡ 2 ^ k = omega (arith, pow-suc 2 k) in
    rw halved (bit-pow i k ∙ ground arith)

-- `(1 << k) - 1`.
pub bit-low_mask : (i k : ℕ) → bit i (2 ^ k - 1) ≡ ltb i k
bit-low_mask i zero = bit-zero i ∙ ground arith
bit-low_mask zero (suc k) = ground (arith, pow-suc 2 k, one-le-pow k 2)
bit-low_mask (suc i) (suc k) =
    let halved : (2 ^ suc k - 1) / 2 ≡ 2 ^ k - 1 = omega (arith, pow-suc 2 k, one-le-pow k 2) in
    rw halved (bit-low_mask i k ∙ ground arith)

-- The complement at `w` bits.
pub bit-complement : (w i n : ℕ) → n < 2 ^ w → i < w → bit i (2 ^ w - 1 - n) ≡ not (bit i n)
bit-complement zero i n h k = elim k [ ]
bit-complement (suc w) zero n h k = ground (arith, pow-suc 2 w, one-le-pow w 2)
bit-complement (suc w) (suc i) n h k =
    let halved : (2 ^ suc w - 1 - n) / 2 ≡ 2 ^ w - 1 - n / 2 = omega (arith, pow-suc 2 w) in
    rw halved (bit-complement w i (n / 2) (omega (arith, pow-suc 2 w)) (omega arith))

-- Above the width every bit is clear.
pub bit-ge : (w i n : ℕ) → n < 2 ^ w → w ≤ i → bit i n ≡ false
bit-ge zero i n h k = let none_set : n ≡ 0 = omega arith in rw none_set (bit-zero i)
bit-ge (suc w) zero n h k = elim k [ ]
bit-ge (suc w) (suc i) n h k = bit-ge w i (n / 2) (omega (arith, pow-suc 2 w)) (omega arith)

-- Numbers with the same bits are equal.
pub bit_ext : (w a b : ℕ) → a < 2 ^ w → b < 2 ^ w → ((i : ℕ) → bit i a ≡ bit i b) → a ≡ b
bit_ext zero a b p q h = omega arith
bit_ext (suc w) a b p q h =
    let halves : a / 2 ≡ b / 2 =
      bit_ext w (a / 2) (b / 2) (omega (arith, pow-suc 2 w)) (omega (arith, pow-suc 2 w))
        (λ i. h (suc i)) in
    ground (arith, h 0)

pub bit_or-lt : (w a b : ℕ) → a < 2 ^ w → b < 2 ^ w → bit_or a b < 2 ^ w
bit_or-lt zero a b p q =
    let a_zero : a ≡ 0 = omega arith in
    let b_zero : b ≡ 0 = omega arith in rw (a_zero, b_zero) (omega arith)
bit_or-lt (suc w) a b p q = omega (
  arith,
  pow-suc 2 w,
  or_low a b,
  bit_or-lt w (a / 2) (b / 2) (omega (arith, pow-suc 2 w)) (omega (arith, pow-suc 2 w)),
)

pub bit_and-lt : (w a b : ℕ) → a < 2 ^ w → bit_and a b < 2 ^ w
bit_and-lt zero a b p =
    let a_zero : a ≡ 0 = omega arith in rw a_zero (omega (arith, bit_and-bitwise 0 b))
bit_and-lt (suc w) a b p =
    omega
      (arith, pow-suc 2 w, and_low a b, bit_and-lt w (a / 2) (b / 2) (omega (arith, pow-suc 2 w)))

pub two_pow-lt : (i w : ℕ) → i < w → 2 ^ i < 2 ^ w
two_pow-lt i w h = omega (
  arith,
  pow-suc 2 i,
  one-le-pow i 2,
  pow-le-pow_right {n = 2} (omega arith) {i = suc i} {j = w} h,
)

-- The first `n` bits of a word, from bit `i` on.
abbrev pub word_bits : ℕ → ℕ → ℕ → List Bool
word_bits zero i word = []
word_bits (suc n) i word = bit i word ∷ word_bits n (suc i) word
