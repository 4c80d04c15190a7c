-- ===== src/Riscv/Instruction.antt =====
-- riscv-pipelined-cpu-sim/pipeline/instruction.h: the fields of an instruction word, its type and
-- its immediate.
pub mod Immediate
pub mod Encoding
use best_practices.Base.{
  ℕ, ◌+◌, ◌-◌, ◌*◌, ◌^◌, Bool, true, false, ◌||◌, ◌==◌, ltb, if◌then◌else◌, u8, ◌>>>◌, low_bits,
}

-- `InstructionType`
pub data InstructionType : Type 0 where
  unknown r_type i_type s_type b_type u_type j_type : InstructionType

-- `getFunct7` and the other fields. A mask of k ones takes the k low bits.
unfoldable pub get_funct7 : ℕ → ℕ
get_funct7 instruction = u8 (low_bits (instruction >>> 25) 7)

unfoldable pub get_rs2 : ℕ → ℕ
get_rs2 instruction = u8 (low_bits (instruction >>> 20) 5)

unfoldable pub get_rs1 : ℕ → ℕ
get_rs1 instruction = u8 (low_bits (instruction >>> 15) 5)

unfoldable pub get_funct3 : ℕ → ℕ
get_funct3 instruction = u8 (low_bits (instruction >>> 12) 3)

unfoldable pub get_rd : ℕ → ℕ
get_rd instruction = u8 (low_bits (instruction >>> 7) 5)

unfoldable pub get_opcode : ℕ → ℕ
get_opcode instruction = u8 (low_bits instruction 7)

-- `getInstructionType`
unfoldable pub get_instruction_type : ℕ → InstructionType
get_instruction_type opcode =
    if opcode == 0b0110011
    then r_type
    else if opcode == 0b0100011
    then s_type
    else if opcode == 0b1100011
    then b_type
    else if opcode == 0b0000011 || opcode == 0b0010011 || opcode == 0b1110011 || opcode == 0b1100111
    then i_type
    else if opcode == 0b0110111 || opcode == 0b0010111
    then u_type
    else if opcode == 0b1101111
    then j_type
    else unknown

-- `hasRs1`
unfoldable pub has_rs1 : InstructionType → Bool
has_rs1 u_type = false
has_rs1 j_type = false
has_rs1 _ = true

-- `hasRs2`
unfoldable pub has_rs2 : InstructionType → Bool
has_rs2 r_type = true
has_rs2 i_type = true
has_rs2 s_type = true
has_rs2 b_type = true
has_rs2 _ = false

-- The bit field of `width` bits from bit `low` on, as the compiler lays `imm_layout` out: the first
-- field of a structure has the lowest bits.
unfoldable pub field : ℕ → ℕ → ℕ → ℕ
field low width instr = low_bits (instr >>> low) width

-- `se--` at a field of `width` bits that holds 0, or the 0 itself.
unfoldable pub se_field : ℕ → ℕ → ℕ
se_field sign width = if ltb 0 sign then 2 ^ width - 1 else 0

-- The immediates of the layouts, each field at its place in `out`.
unfoldable pub imm_i : ℕ → ℕ
unfolding field se_field
imm_i instr = field 20 12 instr + 2 ^ 12 * se_field (field 31 1 instr) 20

unfoldable pub imm_s : ℕ → ℕ
unfolding field se_field
imm_s instr = field 7 5 instr + 2 ^ 5 * field 25 7 instr + 2 ^ 12 * se_field (field 31 1 instr) 20

unfoldable pub imm_b : ℕ → ℕ
unfolding field se_field
imm_b instr =
    2 ^ 1 * field 8 4 instr
    + 2 ^ 5 * field 25 6 instr
    + 2 ^ 11 * field 7 1 instr
    + 2 ^ 12 * se_field (field 31 1 instr) 20

unfoldable pub imm_j : ℕ → ℕ
unfolding field se_field
imm_j instr =
    2 ^ 1 * field 21 10 instr
    + 2 ^ 11 * field 20 1 instr
    + 2 ^ 12 * field 12 8 instr
    + 2 ^ 20 * se_field (field 31 1 instr) 12

unfoldable pub imm_u : ℕ → ℕ
unfolding field
imm_u instr = 2 ^ 12 * field 12 20 instr

-- `ImmediateExtensionBlock::operator()`
unfoldable pub immediate_of : InstructionType → ℕ → ℕ
unfolding imm_i imm_s imm_b imm_j imm_u
immediate_of unknown instr = 0
immediate_of r_type instr = 0
immediate_of i_type instr = imm_i instr
immediate_of s_type instr = imm_s instr
immediate_of b_type instr = imm_b instr
immediate_of j_type instr = imm_j instr
immediate_of u_type instr = imm_u instr

unfoldable pub immediate : ℕ → ℕ
unfolding immediate_of get_instruction_type get_opcode
immediate instr = immediate_of (get_instruction_type (get_opcode instr)) instr
