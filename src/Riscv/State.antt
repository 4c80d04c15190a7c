-- ===== src/Riscv/State.antt =====
-- riscv-pipelined-cpu-sim/pipeline/pipeline.h and hazard_unit.h: the registers between the stages
-- and the members of `Pipeline`.
use best_practices.Base.{ℕ, Bool, true, false}
use best_practices.Riscv.Alu.{AluControl}
use best_practices.Riscv.Cmp.{CmpControl}
use best_practices.Riscv.Register.{Register}
use best_practices.Riscv.RegFile.{RegFile}
use best_practices.Riscv.DataMem.{DataMem}
use best_practices.Riscv.InstrMem.{InstrMem}
use best_practices.Riscv.ControlUnit.{ControlUnit}
use best_practices.Riscv.Instruction.{InstructionType}

-- `BypassOptionsEncoding`
pub data Bypass : Type 0 where
  reg mem wb : Bypass

-- `static_cast<byte_>` of an option
unfoldable pub encoding : Bypass → ℕ
encoding reg = 0
encoding mem = 1
encoding wb = 2

-- `DecodeState`
pub record DecodeState : Type 0 where
  pub v_de : Bool
  pub pc_de : ℕ
  pub instr : ℕ

-- `ExecuteState`
pub record ExecuteState : Type 0 where
  pub funct3 : ℕ
  pub is_jalr : Bool
  pub alu_op : AluControl
  pub alu_src2 : Bool
  pub mem_to_reg : Bool
  pub wb_we : Bool
  pub mem_we : Bool
  pub cmp_control : CmpControl
  pub brn_cond : Bool
  pub jmp_cond : Bool
  pub v_de : Bool
  pub data1 : ℕ
  pub data2 : ℕ
  pub pc_de : ℕ
  pub instr : ℕ

-- `MemoryState`
pub record MemoryState : Type 0 where
  pub mem_we : Bool
  pub mem_to_reg : Bool
  pub wb_we : Bool
  pub jmp_cond : Bool
  pub store_mode : ℕ
  pub write_data : ℕ
  pub alu_res : ℕ
  pub wb_a : ℕ

-- `WriteBackState`
pub record WriteBackState : Type 0 where
  pub wb_we : Bool
  pub wb_d : ℕ
  pub wb_a : ℕ

-- What the constructors of the four states make of the value 0, the only one they are given.
abbrev pub decode_zero : DecodeState
decode_zero = record { v_de = false; pc_de = 0; instr = 0 }

abbrev pub execute_zero : ExecuteState
execute_zero = record {
  funct3 = 0;
  is_jalr = false;
  alu_op = AluControl.nop;
  alu_src2 = false;
  mem_to_reg = false;
  wb_we = false;
  mem_we = false;
  cmp_control = CmpControl.nop;
  brn_cond = false;
  jmp_cond = false;
  v_de = false;
  data1 = 0;
  data2 = 0;
  pc_de = 0;
  instr = 0;
}

abbrev pub memory_zero : MemoryState
memory_zero = record {
  mem_we = false;
  mem_to_reg = false;
  wb_we = false;
  jmp_cond = false;
  store_mode = 0;
  write_data = 0;
  alu_res = 0;
  wb_a = 0;
}

abbrev pub write_back_zero : WriteBackState
write_back_zero = record { wb_we = false; wb_d = 0; wb_a = 0 }

-- The members of `Pipeline`.
pub record Pipeline : Type 0 where
  pub ticks_counter : ℕ
  pub last_instructions_counter : ℕ
  pub last_instructions_flag : Bool
  pub bp_mem : ℕ
  pub pc_disp : ℕ
  pub pc_r : Bool
  pub hu_rs1 : Bypass
  pub hu_rs2 : Bypass
  pub instr_mem_unit : InstrMem
  pub data_mem_unit : DataMem
  pub reg_file : RegFile
  pub control_unit : ControlUnit
  pub program_counter : Register ℕ
  pub decode_register : Register DecodeState
  pub execute_register : Register ExecuteState
  pub memory_register : Register MemoryState
  pub write_back_register : Register WriteBackState

-- The members' initializers, for given memories. C++ leaves `cmp_control` and `instr_type` of the
-- control unit unset; they are read only after `ControlUnit::tick` has set them.
abbrev pub reset_register {ℓ} : {T : Type ℓ} → T → Register T
reset_register zero = record { enable_flag = true; next = zero; current = zero }

abbrev pub reset_reg_file : RegFile
reset_reg_file = record {
  address1 = 0;
  address2 = 0;
  address3 = 0;
  write_enable3 = false;
  write_data3 = 0;
  regs = λ _. 0;
  read_data1 = 0;
  read_data2 = 0;
}

abbrev pub reset_control_unit : ControlUnit
reset_control_unit = record {
  opcode = 0;
  funct3 = 0;
  funct7 = 0;
  is_jalr = false;
  wb_we = false;
  mem_we = false;
  mem_to_reg = false;
  brn_cond = false;
  jmp_cond = false;
  cmp_control = CmpControl.nop;
  alu_src2 = false;
  alu_op = AluControl.nop;
  instr_type = InstructionType.unknown;
}

abbrev pub reset : InstrMem → DataMem → Pipeline
reset instrs values = record {
  ticks_counter = 0;
  last_instructions_counter = 0;
  last_instructions_flag = false;
  bp_mem = 0;
  pc_disp = 0;
  pc_r = false;
  hu_rs1 = reg;
  hu_rs2 = reg;
  instr_mem_unit = instrs;
  data_mem_unit = values;
  reg_file = reset_reg_file;
  control_unit = reset_control_unit;
  program_counter = reset_register 0;
  decode_register = reset_register decode_zero;
  execute_register = reset_register execute_zero;
  memory_register = reset_register memory_zero;
  write_back_register = reset_register write_back_zero;
}
