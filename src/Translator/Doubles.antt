-- ===== src/Translator/Doubles.antt =====
-- The arithmetic on `double` that BinaryTranslator-main uses, which the compiler and the processor
-- supply: a parameter of the model. A double is its 64-bit pattern.
use best_practices.Base.{ℕ, ◌-◌, ◌%◌, ◌^◌, ◌<◌, ◌≡◌}
use best_practices.Base.Int.{ℤ, pos, negsuc, ◌-ℤ◌, ◌≤ℤ◌, ◌<ℤ◌}

pub record Doubles : Type 0 where
  -- The conversion of an integer, and the conversions to `int` and to `uint32_t`.
  pub of_int : ℤ → ℕ
  pub to_int : ℕ → ℤ
  pub to_uint32 : ℕ → ℕ
  -- `+`, `-`, `*` and `/`
  pub plus : ℕ → ℕ → ℕ
  pub minus : ℕ → ℕ → ℕ
  pub times : ℕ → ℕ → ℕ
  pub over : ℕ → ℕ → ℕ

-- The 64-bit pattern of an `int` that is converted to `uint64_t`.
unfoldable pub to_uint64 : ℤ → ℕ
to_uint64 (pos n) = n % 2 ^ 64
to_uint64 (negsuc n) = 2 ^ 64 - 1 - n % 2 ^ 64

-- The integers that a double represents exactly.
abbrev pub IsExact : ℤ → Type 0
IsExact z = (negsuc (2 ^ 53 - 1) ≤ℤ z) × (z ≤ℤ pos (2 ^ 53))

-- IEEE 754 on integers that doubles represent exactly, and the conversions to the integer types where
-- these hold the number.
pub record ExactInts (D : Doubles) : Type 0 where
  pub to_int-of_int :
      (z : ℤ) → negsuc (2 ^ 31 - 1) ≤ℤ z → z <ℤ pos (2 ^ 31) → D.to_int (D.of_int z) ≡ z
  pub minus-of_int :
      (a b : ℤ)
      → IsExact a
      → IsExact b
      → IsExact (a -ℤ b)
      → D.minus (D.of_int a) (D.of_int b) ≡ D.of_int (a -ℤ b)
  pub to_uint32-of_int : (n : ℕ) → n < 2 ^ 32 → D.to_uint32 (D.of_int (pos n)) ≡ n

-- C++ leaves the conversion of a negative double to `uint32_t` undefined. This says of a host that it
-- converts the integers from -(2 ^ 31) to -1 modulo 2 ^ 32.
abbrev pub WrapsNegative : Doubles → Type 0
WrapsNegative D = (n : ℕ) → n < 2 ^ 31 → D.to_uint32 (D.of_int (negsuc n)) ≡ 2 ^ 32 - 1 - n
