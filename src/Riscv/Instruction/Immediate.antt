-- ===== src/Riscv/Instruction/Immediate.antt =====
-- The immediate of each instruction type, as the RISC-V manual states it.
use best_practices.Base.{ℕ, ◌+◌, ◌*◌, ◌^◌, ◌<◌, ◌≡◌, arith}
use best_practices.Base.Int.{ℤ, pos, signed32}
use best_practices.Riscv.Extension.Laws.{signed}
use best_practices.Riscv.Instruction.{
  InstructionType, unknown, r_type, i_type, s_type, b_type, u_type, j_type, immediate, immediate_of,
  field,
}

-- The value of the immediate: the instruction's bits, highest first, read as a signed number. The
-- immediate of a U-type instruction is the upper 20 bits of a word.
unfoldable pub immediate_value : InstructionType → ℕ → ℤ
immediate_value unknown w = pos 0
immediate_value r_type w = pos 0
immediate_value i_type w = signed 12 (field 20 12 w)
immediate_value s_type w = signed 12 (field 25 7 w * 2 ^ 5 + field 7 5 w)
immediate_value b_type w =
    signed 13
      (field 31 1 w * 2 ^ 12 + field 7 1 w * 2 ^ 11 + field 25 6 w * 2 ^ 5 + field 8 4 w * 2)
immediate_value u_type w = signed32 (field 12 20 w * 2 ^ 12)
immediate_value j_type w =
    signed 21
      (field 31 1 w * 2 ^ 20 + field 12 8 w * 2 ^ 12 + field 20 1 w * 2 ^ 11 + field 21 10 w * 2)

-- The extension block computes, for every type and word, the word that stands for the immediate.
pub signed32-immediate_of :
    (type : InstructionType) (w : ℕ)
    → w < 2 ^ 32
    → signed32 (immediate_of type w) ≡ immediate_value type w
unfolding immediate_of immediate_value field
signed32-immediate_of unknown w h = ground arith
signed32-immediate_of r_type w h = ground arith
signed32-immediate_of i_type w h = ground arith
signed32-immediate_of s_type w h = ground arith
signed32-immediate_of b_type w h = ground arith
signed32-immediate_of u_type w h = ground arith
signed32-immediate_of j_type w h = ground arith

pub immediate-lt : (w : ℕ) → immediate w < 2 ^ 32
unfolding immediate
immediate-lt w = ground arith
