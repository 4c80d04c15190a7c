-- ===== src/Riscv/ControlUnit.antt =====
-- riscv-pipelined-cpu-sim/pipeline/control_unit.h: the control signals of an instruction.
pub mod Mnemonics
pub mod Decode
pub mod Errors
use best_practices.Base.{
  ℕ, Bool, true, false, not, ◌&&◌, ◌||◌, ◌==◌, if◌then◌else◌, Outcome, done, raise, ◌>>=◌,
}
use best_practices.Riscv.Exceptions.{
  Exception, Result, ok, err, unsupported, ebreak, invalid_funct7, invalid_funct3,
}
use best_practices.Riscv.Instruction.{InstructionType, i_type, s_type, u_type, get_instruction_type}
use best_practices.Riscv.Alu.{AluControl}
use best_practices.Riscv.Cmp.{CmpControl}

-- `ControlUnit`
pub record ControlUnit : Type 0 where
  pub opcode : ℕ
  pub funct3 : ℕ
  pub funct7 : ℕ
  pub is_jalr : Bool
  pub wb_we : Bool
  pub mem_we : Bool
  pub mem_to_reg : Bool
  pub brn_cond : Bool
  pub jmp_cond : Bool
  pub cmp_control : CmpControl
  pub alu_src2 : Bool
  pub alu_op : AluControl
  pub instr_type : InstructionType

-- `instr_type == IType || instr_type == SType || instr_type == UType`
unfoldable pub has_immediate : InstructionType → Bool
has_immediate i_type = true
has_immediate s_type = true
has_immediate u_type = true
has_immediate _ = false

unfoldable pub is_u_type : InstructionType → Bool
is_u_type u_type = true
is_u_type _ = false

-- The operation of an R-type instruction: the `switch` under `opcode == 0b0110011`.
unfoldable pub alu_op_register : ℕ → ℕ → Result AluControl
alu_op_register funct3 funct7 =
    if funct3 == 0b000
    then (if funct7 == 0
        then ok AluControl.add
        else if funct7 == 0b0100000
        then ok AluControl.sub
        else err invalid_funct7)
    else if funct3 == 0b001
    then ok AluControl.sll
    else if funct3 == 0b010
    then ok AluControl.slt
    else if funct3 == 0b011
    then ok AluControl.sltu
    else if funct3 == 0b100
    then ok AluControl.xor
    else if funct3 == 0b101
    then (if funct7 == 0
        then ok AluControl.srl
        else if funct7 == 0b0100000
        then ok AluControl.sra
        else err invalid_funct7)
    else if funct3 == 0b110
    then ok AluControl.or
    else if funct3 == 0b111
    then ok AluControl.and
    else err invalid_funct3

-- The operation of an instruction with an immediate operand: the `switch` under
-- `opcode == 0b0010011`.
unfoldable pub alu_op_immediate : ℕ → ℕ → Result AluControl
alu_op_immediate funct3 funct7 =
    if funct3 == 0b000
    then ok AluControl.add
    else if funct3 == 0b010
    then ok AluControl.slt
    else if funct3 == 0b011
    then ok AluControl.sltu
    else if funct3 == 0b100
    then ok AluControl.xor
    else if funct3 == 0b110
    then ok AluControl.or
    else if funct3 == 0b111
    then ok AluControl.and
    else if funct3 == 0b001
    then (if funct7 == 0 then ok AluControl.sll else err invalid_funct7)
    else if funct3 == 0b101
    then (if funct7 == 0
        then ok AluControl.srl
        else if funct7 == 0b0100000
        then ok AluControl.sra
        else err invalid_funct7)
    else err invalid_funct3

-- The `if` chain that sets `alu_op`.
unfoldable pub select_alu_op : ℕ → ℕ → ℕ → InstructionType → Result AluControl
unfolding alu_op_register alu_op_immediate is_u_type
select_alu_op opcode funct3 funct7 type =
    if opcode == 0b0110011
    then alu_op_register funct3 funct7
    else if opcode == 0b0010011
    then alu_op_immediate funct3 funct7
    else if is_u_type type || opcode == 0b1100111 || opcode == 0b0000011 || opcode == 0b0100011
    then ok AluControl.add
    else ok AluControl.nop

-- The `if` that sets `cmp_control`.
unfoldable pub select_cmp_control : ℕ → ℕ → Result CmpControl
select_cmp_control opcode funct3 =
    if opcode == 0b1100011
    then (if funct3 == 0
        then ok CmpControl.eq
        else if funct3 == 0b001
        then ok CmpControl.ne
        else if funct3 == 0b100
        then ok CmpControl.lt
        else if funct3 == 0b101
        then ok CmpControl.ge
        else if funct3 == 0b110
        then ok CmpControl.ltu
        else if funct3 == 0b111
        then ok CmpControl.geu
        else err invalid_funct3)
    else ok CmpControl.nop

-- The first part of `ControlUnit::tick`: it refuses what is not supported, and sets the signals
-- that stand before `alu_op`.
unfoldable pub set_write_signals : ControlUnit → Outcome Exception ControlUnit
unfolding has_immediate get_instruction_type
set_write_signals c =
    let type = get_instruction_type c.opcode in
    if c.opcode == 0b0001111 || c.opcode == 0b1110011 && not (c.funct3 == 0)
    then raise unsupported c
    else if c.opcode == 0b1110011
    then raise ebreak c
    else done (record c {
      is_jalr = c.opcode == 0b1100111;
      wb_we =
          if c.opcode == 0b0100011 || c.opcode == 0b1100011 || c.opcode == 0b1110011
          then false
          else true;
      mem_we = c.opcode == 0b0100011;
      instr_type = type;
      alu_src2 = if has_immediate type then true else false;
    })

unfoldable pub set_alu_op : ControlUnit → Outcome Exception ControlUnit
unfolding select_alu_op
set_alu_op c = elim (select_alu_op c.opcode c.funct3 c.funct7 c.instr_type) [
  | ok op ↦ done (record c { alu_op = op })
  | err e ↦ raise e c
]

-- The last part: the branch and jump conditions, then `cmp_control`.
unfoldable pub set_conditions : ControlUnit → Outcome Exception ControlUnit
unfolding select_cmp_control
set_conditions c =
    let c' : ControlUnit = record c {
      brn_cond = c.opcode == 0b1100011;
      jmp_cond = if c.opcode == 0b1101111 || c.opcode == 0b1100111 then true else false;
      mem_to_reg = not (c.opcode == 0b0000011);
    } in
    elim (select_cmp_control c.opcode c.funct3) [
      | ok control ↦ done (record c' { cmp_control = control })
      | err e ↦ raise e c'
    ]

-- `ControlUnit::tick`
unfoldable pub control_unit_tick : ControlUnit → Outcome Exception ControlUnit
unfolding set_write_signals set_alu_op set_conditions
control_unit_tick c = do c₁ ← set_write_signals c; c₂ ← set_alu_op c₁; set_conditions c₂
