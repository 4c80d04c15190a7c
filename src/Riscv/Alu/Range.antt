-- ===== src/Riscv/Alu/Range.antt =====
-- The ALU's results are words.
use native.Mathlib.Nat.{div-le_self}
use best_practices.Base.{ℕ, ◌^◌, ◌<◌, bit_and, arith}
use best_practices.Base.Bits.{bit_and-lt, bit_or-lt, bit_xor-lt}
use best_practices.Base.Int.{ℤ, pos, negsuc}
use best_practices.Riscv.Alu.{
  AluControl, nop, add, sub, sll, slt, sltu, xor, srl, sra, or, and, alu, pattern32,
}

pattern32-lt : (z : ℤ) → pattern32 z < 2 ^ 32
unfolding pattern32
pattern32-lt (pos n) = omega arith
pattern32-lt (negsuc n) = omega arith

-- On words, every operation gives a word.
pub alu-lt : (op : AluControl) (a b : ℕ) → a < 2 ^ 32 → b < 2 ^ 32 → alu op a b < 2 ^ 32
unfolding alu
alu-lt nop a b ha hb = omega arith
alu-lt add a b ha hb = omega arith
alu-lt sub a b ha hb = omega arith
alu-lt sll a b ha hb = omega arith
alu-lt slt a b ha hb = ground arith
alu-lt sltu a b ha hb = ground arith
alu-lt xor a b ha hb = bit_xor-lt 32 a b ha hb
alu-lt srl a b ha hb = omega (arith, div-le_self a (2 ^ bit_and b 0x0000001f))
alu-lt sra a b ha hb = pattern32-lt _
alu-lt or a b ha hb = bit_or-lt 32 a b ha hb
alu-lt and a b ha hb = bit_and-lt 32 a b ha hb
