-- ===== src/Base/Bits/Digits.antt =====
-- The digits of shifted, truncated and complemented numbers.
use native.Mathlib.Nat.{pow-succ', one-le-pow, div-div-eq-div-mul, add-zero, div-one, mul-one}
use best_practices.Base.{
  ℕ, zero, suc, ◌+◌, ◌-◌, ◌*◌, ◌/◌, ◌%◌, ◌^◌, ◌≤◌, ◌<◌, ◌≡◌, ap, sym, ◌∙◌, arith, ltb,
  if◌then◌else◌,
}
use best_practices.Base.Bits.{digit, digit-suc, mod-double, half-lt-pow}

div-pow-suc : (a k : ℕ) → a / 2 ^ suc k ≡ a / 2 / 2 ^ k
div-pow-suc a k = rw (pow-succ', ← div-div-eq-div-mul)

pub digit-lt : (i a : ℕ) → digit i a < 2
digit-lt i a = omega arith

-- Above the top digit there are zeros.
pub digit_above : (n i a : ℕ) → a < 2 ^ n → n ≤ i → digit i a ≡ 0
digit_above zero i zero h g = omega arith
digit_above zero i (suc a) h g = absurd (omega arith)
digit_above (suc n) zero a h g = absurd (omega arith)
digit_above (suc n) (suc i) a h g =
    digit-suc i a ∙ digit_above n i (a / 2) (half-lt-pow n a h) (omega arith)

pub digit-shift_right : (k i a : ℕ) → digit i (a / 2 ^ k) ≡ digit (i + k) a
digit-shift_right zero i a = rw (add-zero, div-one)
digit-shift_right (suc k) i a =
    ap (digit i) (div-pow-suc a k)
    ∙ digit-shift_right k i (a / 2)
    ∙ sym (digit-suc (i + k) a)
    ∙ ap (λ (t : ℕ). digit t a) (omega arith)

pub digit-shift_left : (k i a : ℕ) → digit i (a * 2 ^ k) ≡ (if ltb i k then 0 else digit (i - k) a)
digit-shift_left zero i a = rw mul-one (ground arith)
digit-shift_left (suc k) zero a = ground (arith, ap (λ (t : ℕ). a * t) (pow-succ' 2 k))
digit-shift_left (suc k) (suc i) a =
    digit-suc i (a * 2 ^ suc k) ∙ ap (digit i) halved ∙ digit-shift_left k i a ∙ ground arith
  where
    halved : a * 2 ^ suc k / 2 ≡ a * 2 ^ k
    halved = omega (arith, ap (λ (t : ℕ). a * t) (pow-succ' 2 k))

truncated : (n a : ℕ) → a % 2 ^ suc n ≡ a / 2 % 2 ^ n * 2 + a % 2
truncated n a =
    ap (λ (t : ℕ). a % t) (pow-succ' 2 n) ∙ mod-double (2 ^ n) a (one-le-pow n 2 (omega arith))

pub digit-low_bits : (n i a : ℕ) → i < n → digit i (a % 2 ^ n) ≡ digit i a
digit-low_bits zero i a h = absurd (omega arith)
digit-low_bits (suc n) zero a h = omega (arith, truncated n a)
digit-low_bits (suc n) (suc i) a h =
    digit-suc i (a % 2 ^ suc n)
    ∙ ap (digit i) (omega (arith, truncated n a))
    ∙ digit-low_bits n i (a / 2) (omega arith)
    ∙ sym (digit-suc i a)

pub digit-complement : (n i a : ℕ) → a < 2 ^ n → i < n → digit i (2 ^ n - 1 - a) ≡ 1 - digit i a
digit-complement zero i a h g = absurd (omega arith)
digit-complement (suc n) zero a h g = omega (arith, pow-succ' 2 n, one-le-pow n 2 (omega arith))
digit-complement (suc n) (suc i) a h g =
    digit-suc i (2 ^ suc n - 1 - a)
    ∙ ap (digit i) (omega (arith, pow-succ' 2 n, one-le-pow n 2 (omega arith)))
    ∙ digit-complement n i (a / 2) (half-lt-pow n a h) (omega arith)
    ∙ ap (λ (t : ℕ). 1 - t) (sym (digit-suc i a))
