-- ===== src/Riscv/ControlUnit/Mnemonics.antt =====
-- The instructions of RV32I that the processor executes, with the codes and the meaning that the
-- RISC-V manual gives them.
use best_practices.Base.{ℕ, Bool, true, false, ◌≡◌, Option, none, some}
use best_practices.Riscv.Alu.{AluControl}
use best_practices.Riscv.Cmp.{CmpControl}
use best_practices.Riscv.Instruction.{
  InstructionType, r_type, i_type, s_type, b_type, u_type, j_type,
}

pub data Mnemonic : Type 0 where
  lui auipc jal jalr : Mnemonic
  beq bne blt bge bltu bgeu : Mnemonic
  lb lh lw lbu lhu sb sh sw : Mnemonic
  addi slti sltiu xori ori andi slli srli srai : Mnemonic
  add sub sll slt sltu xor srl sra or and : Mnemonic

-- The format of an instruction.
abbrev pub format : Mnemonic → InstructionType
format lui = u_type
format auipc = u_type
format jal = j_type
format beq = b_type
format bne = b_type
format blt = b_type
format bge = b_type
format bltu = b_type
format bgeu = b_type
format sb = s_type
format sh = s_type
format sw = s_type
format add = r_type
format sub = r_type
format sll = r_type
format slt = r_type
format sltu = r_type
format xor = r_type
format srl = r_type
format sra = r_type
format or = r_type
format and = r_type
format _ = i_type

abbrev pub is_load : Mnemonic → Bool
is_load lb = true
is_load lh = true
is_load lw = true
is_load lbu = true
is_load lhu = true
is_load _ = false

-- The opcode of an instruction.
abbrev pub opcode_of : Mnemonic → ℕ
opcode_of lui = 0x37
opcode_of auipc = 0x17
opcode_of jalr = 0x67
opcode_of lb = 0x03
opcode_of lh = 0x03
opcode_of lw = 0x03
opcode_of lbu = 0x03
opcode_of lhu = 0x03
opcode_of m = elim (format m) [
  | b_type ↦ 0x63
  | s_type ↦ 0x23
  | r_type ↦ 0x33
  | j_type ↦ 0x6f
  | _ ↦ 0x13
]

-- The minor opcode, where the format has one.
abbrev pub funct3_of : Mnemonic → Option ℕ
funct3_of lui = none
funct3_of auipc = none
funct3_of jal = none
funct3_of jalr = some 0
funct3_of beq = some 0
funct3_of bne = some 1
funct3_of blt = some 4
funct3_of bge = some 5
funct3_of bltu = some 6
funct3_of bgeu = some 7
funct3_of lb = some 0
funct3_of lh = some 1
funct3_of lw = some 2
funct3_of lbu = some 4
funct3_of lhu = some 5
funct3_of sb = some 0
funct3_of sh = some 1
funct3_of sw = some 2
funct3_of addi = some 0
funct3_of slti = some 2
funct3_of sltiu = some 3
funct3_of xori = some 4
funct3_of ori = some 6
funct3_of andi = some 7
funct3_of slli = some 1
funct3_of srli = some 5
funct3_of srai = some 5
funct3_of add = some 0
funct3_of sub = some 0
funct3_of sll = some 1
funct3_of slt = some 2
funct3_of sltu = some 3
funct3_of xor = some 4
funct3_of srl = some 5
funct3_of sra = some 5
funct3_of or = some 6
funct3_of and = some 7

-- The upper seven bits, where they are part of the code.
abbrev pub funct7_of : Mnemonic → Option ℕ
funct7_of sub = some 0x20
funct7_of sra = some 0x20
funct7_of srai = some 0x20
funct7_of slli = some 0
funct7_of srli = some 0
funct7_of m = elim (format m) [ r_type ↦ some 0 | _ ↦ none ]

-- What the ALU computes for an instruction: an address or a sum where it is not named.
abbrev pub operation : Mnemonic → AluControl
operation jal = AluControl.nop
operation slti = AluControl.slt
operation slt = AluControl.slt
operation sltiu = AluControl.sltu
operation sltu = AluControl.sltu
operation xori = AluControl.xor
operation xor = AluControl.xor
operation ori = AluControl.or
operation or = AluControl.or
operation andi = AluControl.and
operation and = AluControl.and
operation slli = AluControl.sll
operation sll = AluControl.sll
operation srli = AluControl.srl
operation srl = AluControl.srl
operation srai = AluControl.sra
operation sra = AluControl.sra
operation sub = AluControl.sub
operation m = elim (format m) [ b_type ↦ AluControl.nop | _ ↦ AluControl.add ]

-- What a branch compares.
abbrev pub comparison : Mnemonic → CmpControl
comparison beq = CmpControl.eq
comparison bne = CmpControl.ne
comparison blt = CmpControl.lt
comparison bge = CmpControl.ge
comparison bltu = CmpControl.ltu
comparison bgeu = CmpControl.geu
comparison _ = CmpControl.nop

abbrev pub is_jump : Mnemonic → Bool
is_jump jal = true
is_jump jalr = true
is_jump _ = false

abbrev pub is_branch : Mnemonic → Bool
is_branch m = elim (format m) [ b_type ↦ true | _ ↦ false ]

abbrev pub is_store : Mnemonic → Bool
is_store m = elim (format m) [ s_type ↦ true | _ ↦ false ]

-- The second operand is the immediate.
abbrev pub takes_immediate : Mnemonic → Bool
takes_immediate m = elim (format m) [ r_type ↦ false | b_type ↦ false | j_type ↦ false | _ ↦ true ]

-- Stores and branches write no register.
abbrev pub writes_register : Mnemonic → Bool
writes_register m = elim (format m) [ s_type ↦ false | b_type ↦ false | _ ↦ true ]

-- The code is free, or has the given value.
abbrev pub Matches : Option ℕ → ℕ → Type 0
Matches none n = Unit {0}
Matches (some k) n = n ≡ k
