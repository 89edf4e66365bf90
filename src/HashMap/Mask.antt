-- ===== src/HashMap/Mask.antt =====
-- `index & (capacity - 1)` at a power of two: in range, the identity below it, and 0 at it.
use Prim.Native.Nat.{
  ℕ, zero, suc, ◌+◌, ◌-◌, ◌*◌, ◌/◌, ◌%◌, ◌≤◌, ◌<◌, min, bit_and, digits, bit_and-bitwise,
}
use mathlib.Core.Path.{◌≡◌, refl, ◌∙◌}
use native.Mathlib.Omega.{arith}

-- The powers of two.
abbrev pub pow2 : ℕ → ℕ
pow2 zero = 1
pow2 (suc k) = pow2 k * 2

pub pow2_pos : (k : ℕ) → 0 < pow2 k
pow2_pos zero = omega arith
pow2_pos (suc k) = omega (arith, pow2_pos k)

half_mask : (k : ℕ) → ((pow2 k * 2 - 1) / 2 ≡ pow2 k - 1) × ((pow2 k * 2 - 1) % 2 ≡ 1)
half_mask k = omega (arith, pow2_pos k)

-- The number of the `k` lowest binary digits.
abbrev low : ℕ → ℕ → ℕ
low zero a = 0
low (suc k) a = low k (a / 2) * 2 + a % 2

low-zero : (k : ℕ) → low k 0 ≡ 0
low-zero zero = refl
low-zero (suc k) = omega (arith, low-zero k)

low-lt : (k a : ℕ) → low k a < pow2 k
low-lt zero a = omega arith
low-lt (suc k) a = omega (arith, low-lt k (a / 2))

low_below : (k a : ℕ) → a < pow2 k → low k a ≡ a
low_below zero a h = omega arith
low_below (suc k) a h = omega (arith, low_below k (a / 2) (omega arith))

low_wraps : (k : ℕ) → low k (pow2 k) ≡ 0
low_wraps zero = refl
low_wraps (suc k) =
    let half : pow2 k * 2 / 2 ≡ pow2 k = omega arith in rw half (omega (arith, low_wraps k))

-- Digit by digit, a mask of `k` ones keeps the `k` lowest digits.
mask_digits : (k n a : ℕ) → a ≤ n → digits (λ _. 0) min n a (pow2 k - 1) ≡ low k a
mask_digits k zero zero h = omega (arith, low-zero k)
mask_digits k (suc n) zero h = omega (arith, low-zero k)
mask_digits k zero (suc a) h = absurd (omega arith)
mask_digits zero (suc n) (suc a) h = omega (arith, mask_digits 0 n (suc a / 2) (omega arith))
mask_digits (suc k) (suc n) (suc a) h =
    let (half, odd) = half_mask k in
    rw (half, odd) (omega (arith, mask_digits k n (suc a / 2) (omega arith)))

mask-low : (k a : ℕ) → bit_and a (pow2 k - 1) ≡ low k a
mask-low k a = bit_and-bitwise a (pow2 k - 1) ∙ mask_digits k a a (omega arith)

pub mask-lt : (k a : ℕ) → bit_and a (pow2 k - 1) < pow2 k
mask-lt k a = omega (arith, mask-low k a, low-lt k a)

pub mask_below : (k a : ℕ) → a < pow2 k → bit_and a (pow2 k - 1) ≡ a
mask_below k a h = mask-low k a ∙ low_below k a h

pub mask_wraps : (k : ℕ) → bit_and (pow2 k) (pow2 k - 1) ≡ 0
mask_wraps k = mask-low k (pow2 k) ∙ low_wraps k
