-- ===== src/Base/Bits.antt =====
-- Shifts, masks and the `|` of words with no common bit, as arithmetic. The laws come from the digit
-- recursion that the native operations stand for.
use Prim.Native.Nat.{
  ℕ, zero, suc, ◌+◌, ◌*◌, ◌/◌, ◌%◌, ◌^◌, ◌≤◌, ◌<◌, min, max, bit_and, bit_or, digits,
  bit_and-bitwise, bit_or-bitwise,
}
use mathlib.Core.Path.{◌≡◌, refl, ap, ◌∙◌}
use native.Mathlib.Omega.{arith}
use native.Mathlib.Nat.{pow-suc}

-- x >> k and x << k, before the result is cut to the width of its type.
abbrev pub shr : ℕ → ℕ → ℕ
shr x k = x / 2 ^ k

abbrev pub shl : ℕ → ℕ → ℕ
shl x k = x * 2 ^ k

-- A value of `uint8_t`, and of `uint32_t`.
abbrev pub IsByte : ℕ → Type 0
IsByte b = b < 256

abbrev pub IsU32 : ℕ → Type 0
IsU32 v = v < 2 ^ 32

-- The fuel of the digit recursion does not matter once it reaches the first number.
digits_enough :
    (z : ℕ → ℕ) (f : ℕ → ℕ → ℕ) (m n a b : ℕ) → a ≤ m → a ≤ n → digits z f m a b ≡ digits z f n a b
digits_enough z f zero zero a b p q = refl
digits_enough z f (suc m) (suc n) zero b p q = refl
digits_enough z f zero (suc n) zero b p q = refl
digits_enough z f (suc m) zero zero b p q = refl
digits_enough z f zero (suc n) (suc a) b p q = absurd (omega arith)
digits_enough z f (suc m) zero (suc a) b p q = absurd (omega arith)
digits_enough z f (suc m) (suc n) (suc a) b p q =
    rw (digits_enough z f m n (suc a / 2) (b / 2) (omega arith) (omega arith))

or_digit : (a b : ℕ) → bit_or a b ≡ 2 * bit_or (a / 2) (b / 2) + max (a % 2) (b % 2)
or_digit zero b = omega (arith, bit_or-bitwise 0 b, bit_or-bitwise 0 (b / 2))
or_digit (suc a) b = omega (
  arith,
  bit_or-bitwise (suc a) b,
  bit_or-bitwise (suc a / 2) (b / 2),
  digits_enough (λ y. y) max a (suc a / 2) (suc a / 2) (b / 2) (omega arith) (omega arith),
)

and_digit : (a b : ℕ) → bit_and a b ≡ 2 * bit_and (a / 2) (b / 2) + min (a % 2) (b % 2)
and_digit zero b = omega (arith, bit_and-bitwise 0 b, bit_and-bitwise 0 (b / 2))
and_digit (suc a) b = omega (
  arith,
  bit_and-bitwise (suc a) b,
  bit_and-bitwise (suc a / 2) (b / 2),
  digits_enough (λ y. 0) min a (suc a / 2) (suc a / 2) (b / 2) (omega arith) (omega arith),
)

or-zero_bounded : (n a : ℕ) → a ≤ n → bit_or a 0 ≡ a
or-zero_bounded n zero h = refl
or-zero_bounded zero (suc a) h = absurd (omega arith)
or-zero_bounded (suc n) (suc a) h =
    omega (arith, or_digit (suc a) 0, or-zero_bounded n (suc a / 2) (omega arith))

and-zero_bounded : (n a : ℕ) → a ≤ n → bit_and a 0 ≡ 0
and-zero_bounded n zero h = refl
and-zero_bounded zero (suc a) h = absurd (omega arith)
and-zero_bounded (suc n) (suc a) h =
    omega (arith, and_digit (suc a) 0, and-zero_bounded n (suc a / 2) (omega arith))

and-zero : (a : ℕ) → bit_and a 0 ≡ 0
and-zero a = and-zero_bounded a a (omega arith)

double_high : (q k : ℕ) → q * 2 ^ suc k ≡ 2 * (q * 2 ^ k)
double_high q k = omega (arith, ap (λ (t : ℕ). q * t) (pow-suc 2 k))

-- A word whose low `k` bits are clear, joined with a word of `k` bits: the high one first.
pub or_high_low : (k q r : ℕ) → r < 2 ^ k → bit_or (q * 2 ^ k) r ≡ q * 2 ^ k + r
or_high_low zero q r h = ground (arith, or-zero_bounded q q)
or_high_low (suc k) q r h =
    ground
      (arith, or_digit (q * 2 ^ suc k) r, double_high q k, pow-suc 2 k, or_high_low k q (r / 2))

-- The same with the low one first.
pub or_low_high : (k r q : ℕ) → r < 2 ^ k → bit_or r (q * 2 ^ k) ≡ r + q * 2 ^ k
or_low_high zero zero q h = ground (arith, bit_or-bitwise 0 q)
or_low_high zero (suc r) q h = absurd (omega arith)
or_low_high (suc k) r q h =
    ground
      (arith, or_digit r (q * 2 ^ suc k), double_high q k, pow-suc 2 k, or_low_high k (r / 2) q)

and_odd : (a m : ℕ) → bit_and a (2 * m + 1) ≡ 2 * bit_and (a / 2) m + a % 2
and_odd a m =
    let half : (2 * m + 1) / 2 ≡ m = omega arith in
    let digit : min (a % 2) ((2 * m + 1) % 2) ≡ a % 2 = omega arith in
    and_digit a (2 * m + 1) ∙ rw (half, digit)

-- The mask 0xff keeps the lowest byte.
pub and_byte_mask : (a : ℕ) → bit_and a 0xff ≡ a % 256
and_byte_mask a = omega (
  arith,
  and_odd a 127,
  and_odd (a / 2) 63,
  and_odd (a / 2 / 2) 31,
  and_odd (a / 2 / 2 / 2) 15,
  and_odd (a / 2 / 2 / 2 / 2) 7,
  and_odd (a / 2 / 2 / 2 / 2 / 2) 3,
  and_odd (a / 2 / 2 / 2 / 2 / 2 / 2) 1,
  and_odd (a / 2 / 2 / 2 / 2 / 2 / 2 / 2) 0,
  and-zero (a / 2 / 2 / 2 / 2 / 2 / 2 / 2 / 2),
)
