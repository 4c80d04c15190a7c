-- ===== src/Riscv/Alu/Shifts.antt =====
-- The ALU's bitwise operations and shifts, bit by bit.
use Prim.Native.Nat.{min, max, differ}
use best_practices.Base.{
  ℕ, ◌+◌, ◌-◌, ◌*◌, ◌/◌, ◌%◌, ◌^◌, ◌≤◌, ◌<◌, ◌≡◌, ap, ◌∙◌, bit_and, inl, inr, Bool-cases, arith,
  ltb, ltb→lt, if◌then◌else◌,
}
use best_practices.Base.Bits.{digit, bit_and_mask, digit-bit_and, digit-bit_or, digit-bit_xor}
use best_practices.Base.Bits.Digits.{
  digit-shift_right, digit-shift_left, digit-low_bits, digit-complement, digit_above,
}
use best_practices.Riscv.Alu.{sll, srl, sra, and, or, xor, alu}

-- The shift amount is the operand's five low bits.
amount : (b : ℕ) → bit_and b 0x0000001f ≡ b % 32
amount b = bit_and_mask 5 b

module _ (i a b : ℕ) (hi : i < 32) where
  digit-sll : digit i (alu sll a b) ≡ (if ltb i (b % 32) then 0 else digit (i - b % 32) a)
  unfolding alu
  digit-sll = rw amount (digit-low_bits 32 i (a * 2 ^ (b % 32)) hi ∙ digit-shift_left (b % 32) i a)

  digit-srl : digit i (alu srl a b) ≡ digit (i + b % 32) a
  unfolding alu
  digit-srl = rw amount (digit-shift_right (b % 32) i a)

-- The bit of an arithmetic right shift by `k`: bit `i + k`, or the sign bit past the top.
abbrev pub sra_source : ℕ → ℕ → ℕ
sra_source i k = if ltb (i + k) 32 then i + k else 31

-- A word whose sign bit is clear.
digit-sra_nonneg :
    (i k a : ℕ) → i < 32 → a < 2 ^ 31 → digit i (a / 2 ^ k % 2 ^ 32) ≡ digit (sra_source i k) a
digit-sra_nonneg i k a hi ha =
    digit-low_bits 32 i (a / 2 ^ k) hi
    ∙ digit-shift_right k i a
    ∙ ground (arith, digit_above 31 (i + k) a, digit_above 31 31 a)

-- A word whose sign bit is set: its complement is shifted, and complemented again.
digit-sra_neg :
    (i k a : ℕ)
    → i < 32
    → a < 2 ^ 32
    → 2 ^ 31 ≤ a
    → digit i (2 ^ 32 - 1 - (2 ^ 32 - a - 1) / 2 ^ k % 2 ^ 32) ≡ digit (sra_source i k) a
digit-sra_neg i k a hi ha neg =
    digit-complement 32 i ((2 ^ 32 - a - 1) / 2 ^ k % 2 ^ 32) (omega arith) hi
    ∙ ap (λ (t : ℕ). 1 - t)
        (digit-low_bits 32 i ((2 ^ 32 - a - 1) / 2 ^ k) hi ∙ digit-shift_right k i (2 ^ 32 - a - 1))
    ∙ elim (Bool-cases (ltb (i + k) 32)) [
      | inl inside ↦ rw inside (
          omega (
            arith,
            digit-complement 32 (i + k) (2 ^ 32 - a - 1) (omega arith) (ltb→lt _ _ inside),
            ap (digit (i + k)) flip,
          ))
      | inr past ↦
          rw past
            (omega (arith, digit_above 31 (i + k) (2 ^ 32 - a - 1) (omega arith) (ground arith)))
    ]
  where
    flip : 2 ^ 32 - 1 - (2 ^ 32 - a - 1) ≡ a
    flip = omega arith

digit-sra :
    (i a b : ℕ) → i < 32 → a < 2 ^ 32 → digit i (alu sra a b) ≡ digit (sra_source i (b % 32)) a
unfolding alu
digit-sra i a b hi ha = rw amount (elim (Bool-cases (ltb a (2 ^ 31))) [
  | inl nonneg ↦ rw nonneg (digit-sra_nonneg i (b % 32) a hi (ltb→lt _ _ nonneg))
  | inr neg ↦ rw neg (digit-sra_neg i (b % 32) a hi ha (ground arith))
])

-- Bit by bit, AND, OR and XOR combine the operands' bits; a shift by the five low bits of the second
-- operand moves the bits of the first: SLL shifts zeros in, SRL zeros, and SRA the sign bit.
pub digit-alu :
    (i a b : ℕ)
    → i < 32
    → a < 2 ^ 32
    → (digit i (alu and a b) ≡ min (digit i a) (digit i b))
      × (digit i (alu or a b) ≡ max (digit i a) (digit i b))
      × (digit i (alu xor a b) ≡ differ (digit i a) (digit i b))
      × (digit i (alu sll a b) ≡ (if ltb i (b % 32) then 0 else digit (i - b % 32) a))
      × (digit i (alu srl a b) ≡ (if ltb (i + b % 32) 32 then digit (i + b % 32) a else 0))
      × (digit i (alu sra a b) ≡ digit (sra_source i (b % 32)) a)
unfolding alu
digit-alu i a b hi ha = (
  digit-bit_and i a b,
  digit-bit_or i a b,
  digit-bit_xor i a b,
  digit-sll i a b hi,
  digit-srl i a b hi ∙ ground (arith, digit_above 32 (i + b % 32) a),
  digit-sra i a b hi ha,
)
