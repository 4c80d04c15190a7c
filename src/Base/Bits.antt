-- ===== src/Base/Bits.antt =====
-- `&`, `|` and `^` at variables: their lowest digit, their range, and `&` with a mask of low ones.
pub mod Digits
use Prim.Native.Nat.{
  min, max, differ, digits, bitwise, bit_and-bitwise, bit_or-bitwise, bit_xor-bitwise,
}
use native.Mathlib.Nat.{
  pow-suc, pow-succ', one-le-pow, mul_comm, mul-one, div-one, div-div-eq-div-mul, div-add-mod,
}
use best_practices.Base.{
  ℕ, zero, suc, ◌+◌, ◌-◌, ◌*◌, ◌/◌, ◌%◌, ◌^◌, ◌≤◌, ◌<◌, bit_and, bit_or, bit_xor, ◌≡◌, refl, arith,
  ap, ◌∙◌,
}

-- The native operations are a recursion on binary digits with fuel, where `tail` is the result once
-- the first number is used up and `here` combines two digits.
module _ (tail : ℕ → ℕ) (here : ℕ → ℕ → ℕ) where
  -- One more unit of fuel than enough changes nothing, and so does any further fuel.
  one_more : (n a b : ℕ) → a ≤ n → digits tail here (suc n) a b ≡ digits tail here n a b
  one_more zero zero b h = refl
  one_more zero (suc a) b h = absurd (omega arith)
  one_more (suc n) zero b h = refl
  one_more (suc n) (suc a) b h =
      ap (λ rest. rest * 2 + here (suc a % 2) (b % 2))
        (one_more n (suc a / 2) (b / 2) (omega arith))

  any_more : (k n a b : ℕ) → a ≤ n → digits tail here (k + n) a b ≡ digits tail here n a b
  any_more zero n a b h = ap (λ (t : ℕ). digits tail here t a b) (omega arith)
  any_more (suc k) n a b h =
      let fuel : suc k + n ≡ suc (k + n) = omega arith in
      ap (λ (t : ℕ). digits tail here t a b) fuel
      ∙ one_more (k + n) a b (omega arith)
      ∙ any_more k n a b h

  -- The lowest digit, and the operation on the halves.
  halving :
      ((b : ℕ) → tail b ≡ here 0 (b % 2) + 2 * tail (b / 2))
      → (a b : ℕ)
      → bitwise tail here a b ≡ here (a % 2) (b % 2) + 2 * bitwise tail here (a / 2) (b / 2)
  halving used_up zero b = used_up b
  halving used_up (suc a) b =
      let half = suc a / 2 in
      let spare : ℕ = a - half in
      let fuel : spare + half ≡ a = omega arith in
      let same = ap (λ (n : ℕ). digits tail here n half (b / 2)) fuel in
      omega (arith, any_more spare half half (b / 2) (omega arith), same)

-- The lowest digit of each operation, and what is left above it.
bit_and-halves : (a b : ℕ) → bit_and a b ≡ min (a % 2) (b % 2) + 2 * bit_and (a / 2) (b / 2)
bit_and-halves a b = simp bit_and-bitwise (halving (λ _. 0) min (λ y. omega arith) a b)

bit_or-halves : (a b : ℕ) → bit_or a b ≡ max (a % 2) (b % 2) + 2 * bit_or (a / 2) (b / 2)
bit_or-halves a b = simp bit_or-bitwise (halving (λ y. y) max (λ y. omega arith) a b)

differ-zero : (b : ℕ) → b < 2 → differ 0 b ≡ b
differ-zero zero h = refl
differ-zero (suc zero) h = refl
differ-zero (suc (suc b)) h = absurd (omega arith)

bit_xor-halves : (a b : ℕ) → bit_xor a b ≡ differ (a % 2) (b % 2) + 2 * bit_xor (a / 2) (b / 2)
bit_xor-halves a b =
    simp bit_xor-bitwise
      (halving (λ y. y) differ (λ y. omega (arith, differ-zero (y % 2) (omega arith))) a b)

differ-lt : (a b : ℕ) → a < 2 → b < 2 → differ a b < 2
differ-lt zero b h k = omega (arith, differ-zero b k)
differ-lt (suc zero) zero h k = omega arith
differ-lt (suc zero) (suc zero) h k = omega arith
differ-lt (suc zero) (suc (suc b)) h k = absurd (omega arith)
differ-lt (suc (suc a)) b h k = absurd (omega arith)

pub half-lt-pow : (k a : ℕ) → a < 2 ^ suc k → a / 2 < 2 ^ k
half-lt-pow k a h = omega (arith, pow-suc 2 k)

-- The digit of `a` that stands for 2 ^ i.
abbrev pub digit : ℕ → ℕ → ℕ
digit i a = a / 2 ^ i % 2

pub digit-suc : (i a : ℕ) → digit (suc i) a ≡ digit i (a / 2)
digit-suc i a = rw (pow-suc, mul_comm, ← div-div-eq-div-mul)

-- An operation that works digit by digit keeps to k digits, and digit `i` of its result is made of
-- digit `i` of each operand.
module _ (op f : ℕ → ℕ → ℕ)
    (op-halves : (a b : ℕ) → op a b ≡ f (a % 2) (b % 2) + 2 * op (a / 2) (b / 2))
    (f_digit : (a b : ℕ) → a < 2 → b < 2 → f a b < 2) where
  digit_op-lt : op 0 0 ≡ 0 → (k a b : ℕ) → a < 2 ^ k → b < 2 ^ k → op a b < 2 ^ k
  digit_op-lt z zero zero zero h g = omega arith
  digit_op-lt z zero zero (suc b) h g = absurd (omega arith)
  digit_op-lt z zero (suc a) b h g = absurd (omega arith)
  digit_op-lt z (suc k) a b h g = omega (
    arith,
    op-halves a b,
    pow-suc 2 k,
    f_digit (a % 2) (b % 2) (omega arith) (omega arith),
    digit_op-lt z k (a / 2) (b / 2) (half-lt-pow k a h) (half-lt-pow k b g),
  )

  digit-op : (i a b : ℕ) → digit i (op a b) ≡ f (digit i a) (digit i b)
  digit-op zero a b =
      rw (div-one, div-one, div-one) (ground (arith, op-halves a b, f_digit (a % 2) (b % 2)))
  digit-op (suc i) a b =
      rw (digit-suc, digit-suc, digit-suc, half_op a b) (digit-op i (a / 2) (b / 2))
    where
      half_op : (a b : ℕ) → op a b / 2 ≡ op (a / 2) (b / 2)
      half_op a b =
          omega (arith, op-halves a b, f_digit (a % 2) (b % 2) (omega arith) (omega arith))

-- `&`, `|` and `^` of two k-bit numbers have k bits.
pub bit_and-lt : (k a b : ℕ) → a < 2 ^ k → b < 2 ^ k → bit_and a b < 2 ^ k
bit_and-lt = digit_op-lt bit_and min bit_and-halves (λ a b p q. omega arith) refl

pub bit_or-lt : (k a b : ℕ) → a < 2 ^ k → b < 2 ^ k → bit_or a b < 2 ^ k
bit_or-lt = digit_op-lt bit_or max bit_or-halves (λ a b p q. omega arith) refl

pub bit_xor-lt : (k a b : ℕ) → a < 2 ^ k → b < 2 ^ k → bit_xor a b < 2 ^ k
bit_xor-lt = digit_op-lt bit_xor differ bit_xor-halves differ-lt refl

pub digit-bit_and : (i a b : ℕ) → digit i (bit_and a b) ≡ min (digit i a) (digit i b)
digit-bit_and = digit-op bit_and min bit_and-halves (λ a b p q. omega arith)

pub digit-bit_or : (i a b : ℕ) → digit i (bit_or a b) ≡ max (digit i a) (digit i b)
digit-bit_or = digit-op bit_or max bit_or-halves (λ a b p q. omega arith)

pub digit-bit_xor : (i a b : ℕ) → digit i (bit_xor a b) ≡ differ (digit i a) (digit i b)
digit-bit_xor = digit-op bit_xor differ bit_xor-halves differ-lt

bit_and-zero_upto : (n a : ℕ) → a ≤ n → bit_and a 0 ≡ 0
bit_and-zero_upto zero zero h = refl
bit_and-zero_upto zero (suc a) h = absurd (omega arith)
bit_and-zero_upto (suc n) zero h = refl
bit_and-zero_upto (suc n) (suc a) h =
    let rest = bit_and-zero_upto n (suc a / 2) (omega arith) in
    omega (arith, rest, bit_and-halves (suc a) 0)

pub mod-double : (m a : ℕ) → 0 < m → a % (2 * m) ≡ a / 2 % m * 2 + a % 2
mod-double m a h = omega (
  arith,
  div-add-mod a (2 * m),
  div-add-mod (a / 2) m,
  ap (λ (t : ℕ). m * t) (div-div-eq-div-mul a 2 m),
)

-- A mask of k ones takes the remainder by 2 ^ k.
pub bit_and_mask : (k a : ℕ) → bit_and a (2 ^ k - 1) ≡ a % 2 ^ k
bit_and_mask zero a = omega (arith, bit_and-zero_upto a a (omega arith))
bit_and_mask (suc k) a = omega (
  arith,
  bit_and-halves a (2 ^ suc k - 1),
  pow-succ' 2 k,
  one-le-pow k 2 (omega arith),
  mod-double (2 ^ k) a (one-le-pow k 2 (omega arith)),
  ap (λ (t : ℕ). a % t) (pow-succ' 2 k),
  ap (bit_and (a / 2)) halved,
  bit_and_mask k (a / 2),
)
  where
    halved : (2 ^ suc k - 1) / 2 ≡ 2 ^ k - 1
    halved = omega (arith, pow-succ' 2 k, one-le-pow k 2 (omega arith))

-- `|` of a number below 2 ^ k and a multiple of 2 ^ k is their sum.
pub bit_or_high : (k q r : ℕ) → r < 2 ^ k → bit_or r (q * 2 ^ k) ≡ r + q * 2 ^ k
bit_or_high zero q zero h = rw mul-one (bit_or-bitwise 0 q ∙ omega arith)
bit_or_high zero q (suc r) h = absurd (omega arith)
bit_or_high (suc k) q r h = ground (
  arith,
  bit_or-halves r (q * 2 ^ suc k),
  ap (λ (t : ℕ). q * t) (pow-succ' 2 k),
  half-lt-pow k r h,
  bit_or_high k q (r / 2),
)

bit_or_comm_upto : (n a b : ℕ) → a ≤ n → b ≤ n → bit_or a b ≡ bit_or b a
bit_or_comm_upto zero zero zero h k = refl
bit_or_comm_upto zero zero (suc b) h k = absurd (omega arith)
bit_or_comm_upto zero (suc a) b h k = absurd (omega arith)
bit_or_comm_upto (suc n) a b h k = omega (
  arith,
  bit_or-halves a b,
  bit_or-halves b a,
  bit_or_comm_upto n (a / 2) (b / 2) (omega arith) (omega arith),
)

pub bit_or_comm : (a b : ℕ) → bit_or a b ≡ bit_or b a
bit_or_comm a b = bit_or_comm_upto (a + b) a b (omega arith) (omega arith)
