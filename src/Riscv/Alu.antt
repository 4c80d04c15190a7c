-- ===== src/Riscv/Alu.antt =====
-- riscv-pipelined-cpu-sim/modules/alu.h: the arithmetic and logic unit.
pub mod Range
pub mod Shifts
pub mod Arithmetic
use best_practices.Base.{
  ℕ, ◌+◌, ◌-◌, ◌*◌, ◌/◌, ◌%◌, ◌^◌, bit_and, bit_or, bit_xor, Bool, ltb, if◌then◌else◌, u32, ◌>>>◌,
}
use best_practices.Base.Int.{ℤ, pos, negsuc, ltb_ℤ, signed32}

-- `ALUControl`
pub data AluControl : Type 0 where
  nop add sub sll slt sltu xor srl sra or and : AluControl

-- The conversion of an `int32_t` back to `word_`.
unfoldable pub pattern32 : ℤ → ℕ
pattern32 (pos n) = n % 2 ^ 32
pattern32 (negsuc n) = 2 ^ 32 - 1 - n % 2 ^ 32

-- `x >> k` at an `int32_t`: the quotient rounds towards minus infinity.
unfoldable pub shift_right_ℤ : ℤ → ℕ → ℤ
shift_right_ℤ (pos n) k = pos (n / 2 ^ k)
shift_right_ℤ (negsuc n) k = negsuc (n / 2 ^ k)

-- The conversion of a `bool` to `word_`.
abbrev pub of_bool : Bool → ℕ
of_bool b = if b then 1 else 0

-- `ALU::operator()`. Shifts take the five low bits of `src_b`. The `default` of the switch is
-- unreachable, since a control signal is one of the eleven.
unfoldable pub alu : AluControl → ℕ → ℕ → ℕ
unfolding pattern32 shift_right_ℤ
alu nop src_a src_b = 0
alu add src_a src_b = u32 (src_a + src_b)
alu sub src_a src_b = u32 (src_a + 2 ^ 32 - src_b)
alu and src_a src_b = bit_and src_a src_b
alu or src_a src_b = bit_or src_a src_b
alu xor src_a src_b = bit_xor src_a src_b
alu sll src_a src_b = u32 (src_a * 2 ^ bit_and src_b 0x0000001f)
alu srl src_a src_b = src_a >>> bit_and src_b 0x0000001f
alu sra src_a src_b = pattern32 (shift_right_ℤ (signed32 src_a) (bit_and src_b 0x0000001f))
alu slt src_a src_b = of_bool (ltb_ℤ (signed32 src_a) (signed32 src_b))
alu sltu src_a src_b = of_bool (ltb src_a src_b)
