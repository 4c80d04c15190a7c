-- ===== src/Riscv/Instruction/Encoding.antt =====
-- The six instruction formats of RV32I, assembled by hand, against the simulator's disassembly.
use best_practices.Base.{ℕ, ◌+◌, ◌*◌, ◌/◌, ◌%◌, ◌^◌, ◌<◌, ◌≡◌, refl, ap, ◌∙◌, arith}
use best_practices.Base.Int.{ℤ, pos, signed32}
use best_practices.Riscv.Extension.Laws.{signed}
use best_practices.Riscv.Instruction.{
  InstructionType, unknown, r_type, i_type, s_type, b_type, u_type, j_type, immediate, immediate_of,
  get_instruction_type, get_opcode, get_rd, get_rs1, get_rs2, get_funct3, get_funct7, field,
}
use best_practices.Riscv.Instruction.Immediate.{signed32-immediate_of, immediate_value}

-- The operands that the formats share; each format takes those that it has.
pub record Operands : Type 0 where
  pub funct7 : ℕ
  pub rs2 : ℕ
  pub rs1 : ℕ
  pub funct3 : ℕ
  pub rd : ℕ

pub record IsEncodable (o : Operands) : Type 0 where
  pub funct7_fits : o.funct7 < 2 ^ 7
  pub rs2_fits : o.rs2 < 2 ^ 5
  pub rs1_fits : o.rs1 < 2 ^ 5
  pub funct3_fits : o.funct3 < 2 ^ 3
  pub rd_fits : o.rd < 2 ^ 5

-- The word of an instruction with an immediate of 12 (I, S), 13 (B), 20 (U) or 21 bits (J).
unfoldable pub encode : InstructionType → ℕ → Operands → ℕ → ℕ
encode i_type opcode o imm =
    imm * 2 ^ 20 + o.rs1 * 2 ^ 15 + o.funct3 * 2 ^ 12 + o.rd * 2 ^ 7 + opcode
encode s_type opcode o imm =
    imm / 2 ^ 5 * 2 ^ 25
    + o.rs2 * 2 ^ 20
    + o.rs1 * 2 ^ 15
    + o.funct3 * 2 ^ 12
    + imm % 2 ^ 5 * 2 ^ 7
    + opcode
encode b_type opcode o imm =
    imm / 2 ^ 12 * 2 ^ 31
    + imm / 2 ^ 5 % 2 ^ 6 * 2 ^ 25
    + o.rs2 * 2 ^ 20
    + o.rs1 * 2 ^ 15
    + o.funct3 * 2 ^ 12
    + imm / 2 % 2 ^ 4 * 2 ^ 8
    + imm / 2 ^ 11 % 2 * 2 ^ 7
    + opcode
encode u_type opcode o imm = imm * 2 ^ 12 + o.rd * 2 ^ 7 + opcode
encode j_type opcode o imm =
    imm / 2 ^ 20 * 2 ^ 31
    + imm / 2 % 2 ^ 10 * 2 ^ 21
    + imm / 2 ^ 11 % 2 * 2 ^ 20
    + imm / 2 ^ 12 % 2 ^ 8 * 2 ^ 12
    + o.rd * 2 ^ 7
    + opcode
encode _ opcode o imm =
    o.funct7 * 2 ^ 25 + o.rs2 * 2 ^ 20 + o.rs1 * 2 ^ 15 + o.funct3 * 2 ^ 12 + o.rd * 2 ^ 7 + opcode

-- The immediates that a format can hold: branch and jump offsets are even.
abbrev pub ImmediateFits : InstructionType → ℕ → Type 0
ImmediateFits i_type imm = imm < 2 ^ 12
ImmediateFits s_type imm = imm < 2 ^ 12
ImmediateFits b_type imm = (imm < 2 ^ 13) × (imm % 2 ≡ 0)
ImmediateFits u_type imm = imm < 2 ^ 20
ImmediateFits j_type imm = (imm < 2 ^ 21) × (imm % 2 ≡ 0)
ImmediateFits _ imm = Unit {0}

-- The number that an assembled immediate stands for.
pub encoded_value : InstructionType → ℕ → ℤ
encoded_value i_type imm = signed 12 imm
encoded_value s_type imm = signed 12 imm
encoded_value b_type imm = signed 13 imm
encoded_value u_type imm = signed32 (imm * 2 ^ 12)
encoded_value j_type imm = signed 21 imm
encoded_value _ imm = pos 0

module _ (opcode : ℕ) (o : Operands) (imm : ℕ) (op_fits : opcode < 2 ^ 7) (e : IsEncodable o) where
  encode-lt : (type : InstructionType) → ImmediateFits type imm → encode type opcode o imm < 2 ^ 32
  unfolding encode
  encode-lt i_type h = omega arith
  encode-lt s_type h = omega arith
  encode-lt b_type h = omega arith
  encode-lt u_type h = omega arith
  encode-lt j_type h = omega arith
  encode-lt _ h = omega arith

  immediate_value-encode :
      (type : InstructionType)
      → ImmediateFits type imm
      → immediate_value type (encode type opcode o imm) ≡ encoded_value type imm
  unfolding encode immediate_value encoded_value field
  immediate_value-encode i_type h = ground arith
  immediate_value-encode s_type h = ground arith
  immediate_value-encode b_type h = ground arith
  immediate_value-encode u_type h = ground arith
  immediate_value-encode j_type h = ground arith
  immediate_value-encode _ h = ground arith

  get_opcode-encode : (type : InstructionType) → get_opcode (encode type opcode o imm) ≡ opcode
  unfolding encode get_opcode
  get_opcode-encode i_type = omega arith
  get_opcode-encode s_type = omega arith
  get_opcode-encode b_type = omega arith
  get_opcode-encode u_type = omega arith
  get_opcode-encode j_type = omega arith
  get_opcode-encode _ = omega arith

-- What the getters of the fields return, for the operands that a format has.
abbrev pub FieldsAgree : InstructionType → ℕ → Operands → Type 0
FieldsAgree i_type w o = (get_rs1 w ≡ o.rs1) × (get_funct3 w ≡ o.funct3) × (get_rd w ≡ o.rd)
FieldsAgree s_type w o = (get_rs2 w ≡ o.rs2) × (get_rs1 w ≡ o.rs1) × (get_funct3 w ≡ o.funct3)
FieldsAgree b_type w o = (get_rs2 w ≡ o.rs2) × (get_rs1 w ≡ o.rs1) × (get_funct3 w ≡ o.funct3)
FieldsAgree u_type w o = get_rd w ≡ o.rd
FieldsAgree j_type w o = get_rd w ≡ o.rd
FieldsAgree _ w o =
    (get_funct7 w ≡ o.funct7)
    × (get_rs2 w ≡ o.rs2)
    × (get_rs1 w ≡ o.rs1)
    × (get_funct3 w ≡ o.funct3)
    × (get_rd w ≡ o.rd)

-- Disassembling an assembled instruction gives back its opcode and every operand that its format
-- has, for each format, opcode, operands and immediate that fit it.
pub FieldsAgree-encode :
    (type : InstructionType) (opcode : ℕ) (o : Operands) (imm : ℕ)
    → opcode < 2 ^ 7
    → IsEncodable o
    → ImmediateFits type imm
    → (get_opcode (encode type opcode o imm) ≡ opcode)
      × FieldsAgree type (encode type opcode o imm) o
unfolding encode get_rs1 get_rs2 get_rd get_funct3 get_funct7
FieldsAgree-encode i_type opcode o imm p e h =
    (get_opcode-encode opcode o imm p e i_type, omega arith)
FieldsAgree-encode s_type opcode o imm p e h =
    (get_opcode-encode opcode o imm p e s_type, omega arith)
FieldsAgree-encode b_type opcode o imm p e h =
    (get_opcode-encode opcode o imm p e b_type, omega arith)
FieldsAgree-encode u_type opcode o imm p e h =
    (get_opcode-encode opcode o imm p e u_type, omega arith)
FieldsAgree-encode j_type opcode o imm p e h =
    (get_opcode-encode opcode o imm p e j_type, omega arith)
FieldsAgree-encode unknown opcode o imm p e h =
    (get_opcode-encode opcode o imm p e unknown, omega arith)
FieldsAgree-encode r_type opcode o imm p e h =
    (get_opcode-encode opcode o imm p e r_type, omega arith)

immediate_lem : (w : ℕ) → immediate w ≡ immediate_of (get_instruction_type (get_opcode w)) w
unfolding immediate
immediate_lem w = refl

-- The immediate extracted from an assembled instruction is the one that was assembled, for every
-- opcode of the format's type.
pub signed32-immediate-encode :
    (type : InstructionType) (opcode : ℕ) (o : Operands) (imm : ℕ)
    → opcode < 2 ^ 7
    → get_instruction_type opcode ≡ type
    → IsEncodable o
    → ImmediateFits type imm
    → signed32 (immediate (encode type opcode o imm)) ≡ encoded_value type imm
signed32-immediate-encode type opcode o imm p t e h =
    ap signed32 (extracts ∙ ap (λ k. immediate_of k w) t)
    ∙ signed32-immediate_of type w (encode-lt opcode o imm p e type h)
    ∙ immediate_value-encode opcode o imm p e type h
  where
    w : ℕ
    w = encode type opcode o imm

    extracts : immediate w ≡ immediate_of (get_instruction_type opcode) w
    extracts =
        immediate_lem w
        ∙ ap (λ k. immediate_of (get_instruction_type k) w)
            (get_opcode-encode opcode o imm p e type)
