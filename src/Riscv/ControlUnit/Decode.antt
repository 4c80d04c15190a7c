-- ===== src/Riscv/ControlUnit/Decode.antt =====
-- The control unit recognises the instructions of RV32I.
use best_practices.Base.{Bool, true, false, not, done, ◌≡◌, arith}
use best_practices.Riscv.ControlUnit.{ControlUnit, control_unit_tick}
use best_practices.Riscv.ControlUnit.Mnemonics.{
  Mnemonic, lui, jalr, beq, format, opcode_of, funct3_of, funct7_of, operation, comparison, is_jump,
  is_branch, is_store, is_load, takes_immediate, writes_register, Matches,
}

is_jalr_of : Mnemonic → Bool
is_jalr_of jalr = true
is_jalr_of _ = false

-- The control unit with the signals of an instruction.
pub configured : Mnemonic → ControlUnit → ControlUnit
configured m c = record c {
  is_jalr = is_jalr_of m;
  wb_we = writes_register m;
  mem_we = is_store m;
  mem_to_reg = not (is_load m);
  brn_cond = is_branch m;
  jmp_cond = is_jump m;
  cmp_control = comparison m;
  alu_src2 = takes_immediate m;
  alu_op = operation m;
  instr_type = format m;
}

-- Given the codes of an instruction of RV32I, the control unit ends normally and sets exactly that
-- instruction's signals.
pub control_unit_tick-mnemonic :
    (m : Mnemonic) (c : ControlUnit)
    → c.opcode ≡ opcode_of m
    → Matches (funct3_of m) c.funct3
    → Matches (funct7_of m) c.funct7
    → control_unit_tick c ≡ done (configured m c)
unfolding control_unit_tick configured is_jalr_of
control_unit_tick-mnemonic lui c p q r = ground arith
control_unit_tick-mnemonic beq c p q r = ground arith
control_unit_tick-mnemonic _ c p q r = ground arith
