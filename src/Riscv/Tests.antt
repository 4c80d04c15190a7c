-- ===== src/Riscv/Tests.antt =====
-- The theorems about the processor's parts at concrete inputs, and small runs of its parts.
mod Memories
mod Control
mod Programs
use best_practices.Base.{◌^◌, ◌<◌, ◌≡◌, refl, not, arith}
use best_practices.Base.Int.{signed32}
use best_practices.Riscv.Alu.{sra, alu}
use best_practices.Riscv.Alu.Range.{alu-lt}
use best_practices.Riscv.Cmp.{lt, cmp}
use best_practices.Riscv.Cmp.Branches.{branch_condition, cmp-eq-branch_condition, cmp_signs_differ}
use best_practices.Riscv.Instruction.{
  i_type, b_type, immediate, immediate_of, get_opcode, get_instruction_type,
}
use best_practices.Riscv.Instruction.Immediate.{immediate_value, signed32-immediate_of}
use best_practices.Riscv.Instruction.Encoding.{
  Operands, encode, encoded_value, FieldsAgree, FieldsAgree-encode, signed32-immediate-encode,
}

-- addi a0, a0, 8, from the repository's own test
abbrev addi_operands : Operands
addi_operands = record { funct7 = 0; rs2 = 0; rs1 = 10; funct3 = 0; rd = 10 }

encode_addi : encode i_type 0x13 addi_operands 8 ≡ 0x00850513
unfolding encode
encode_addi = refl

-- bne a3, a0, -12
abbrev bne_operands : Operands
bne_operands = record { funct7 = 0; rs2 = 10; rs1 = 13; funct3 = 1; rd = 0 }

encode_bne : encode b_type 0x63 bne_operands 0x1ff4 ≡ 0xfea69ae3
unfolding encode
encode_bne = refl

alu-lt_example : alu sra 0x8000ffff 3 < 2 ^ 32
alu-lt_example = alu-lt sra 0x8000ffff 3 (omega arith) (omega arith)

-- the shift of the repository's RightShiftTest
sra_shifts : alu sra 0x8000ffff 3 ≡ 0xf0001fff
unfolding alu
sra_shifts = refl

cmp-eq-branch_condition_example : cmp lt 3 5 ≡ branch_condition lt 3 5
cmp-eq-branch_condition_example =
    cmp-eq-branch_condition lt 3 5 (omega arith) (omega arith) (λ _. refl)

signed32-immediate_of_example :
    signed32 (immediate_of i_type 0xfff00513) ≡ immediate_value i_type 0xfff00513
signed32-immediate_of_example = signed32-immediate_of i_type 0xfff00513 (omega arith)

FieldsAgree-encode_example :
    (get_opcode (encode i_type 0x13 addi_operands 8) ≡ 0x13)
    × FieldsAgree i_type (encode i_type 0x13 addi_operands 8) addi_operands
FieldsAgree-encode_example =
    FieldsAgree-encode i_type 0x13 addi_operands 8 (omega arith) (omega arith) (omega arith)

signed32-immediate-encode_example :
    signed32 (immediate (encode b_type 0x63 bne_operands 0x1ff4)) ≡ encoded_value b_type 0x1ff4
unfolding get_instruction_type
signed32-immediate-encode_example =
    signed32-immediate-encode b_type 0x63 bne_operands 0x1ff4 (omega arith) refl (omega arith)
      (omega arith)
