-- ===== src/Riscv/Pipeline/Invariant.antt =====
-- The values that the processor's members can hold.
use best_practices.Base.{ℕ, ◌^◌, ◌≤◌, ◌<◌, ◌≡◌}
use best_practices.Riscv.Bytes.Laws.{IsBytes}
use best_practices.Riscv.State.{Pipeline, DecodeState, ExecuteState, MemoryState, WriteBackState}

abbrev pub IsWord : ℕ → Type 0
IsWord n = n < 2 ^ 32

pub record IsDecodeState (d : DecodeState) : Type 0 where
  pub pc_de : IsWord d.pc_de
  pub instr : IsWord d.instr

pub record IsExecuteState (x : ExecuteState) : Type 0 where
  pub data1 : IsWord x.data1
  pub data2 : IsWord x.data2
  pub pc_de : IsWord x.pc_de
  pub instr : IsWord x.instr

pub record IsMemoryState (m : MemoryState) : Type 0 where
  pub write_data : IsWord m.write_data
  pub alu_res : IsWord m.alu_res
  pub wb_a : m.wb_a < 32

pub record IsWriteBackState (w : WriteBackState) : Type 0 where
  pub wb_d : IsWord w.wb_d
  pub wb_a : w.wb_a < 32

-- The numbers are words, the destinations are registers, register 0 is 0, and at most three
-- instructions are left to be finished.
pub record IsValid (p : Pipeline) : Type 0 where
  pub zero_reg : p.reg_file.regs 0 ≡ 0
  pub read_data1 : IsWord p.reg_file.read_data1
  pub read_data2 : IsWord p.reg_file.read_data2
  pub bp_mem : IsWord p.bp_mem
  pub pc_disp : IsWord p.pc_disp
  pub pc_next : IsWord p.program_counter.next
  pub pc_current : IsWord p.program_counter.current
  pub decode_next : IsDecodeState p.decode_register.next
  pub decode_current : IsDecodeState p.decode_register.current
  pub execute_next : IsExecuteState p.execute_register.next
  pub execute_current : IsExecuteState p.execute_register.current
  pub memory_next : IsMemoryState p.memory_register.next
  pub memory_current : IsMemoryState p.memory_register.current
  pub write_back_next : IsWriteBackState p.write_back_register.next
  pub write_back_current : IsWriteBackState p.write_back_register.current
  pub countdown : p.last_instructions_counter ≤ 3

-- The arrays hold words and bytes.
pub record ArraysFit (p : Pipeline) : Type 0 where
  pub regs : (j : ℕ) → IsWord (p.reg_file.regs j)
  pub values : IsBytes p.data_mem_unit.memory
  pub instrs : IsBytes p.instr_mem_unit.memory

-- The bounds of the instructions, the inputs of the memories, of the register file and of the control
-- unit, what was read from the data memory, and the modes of the loads and stores on their way:
-- addresses and data are words, the rest are fields of an instruction.
pub record PortsFit (p : Pipeline) : Type 0 where
  pub instr_address : IsWord p.instr_mem_unit.address
  pub section_start : IsWord p.instr_mem_unit.start_of_section
  pub section_end : IsWord p.instr_mem_unit.end_of_section
  pub data_address : IsWord p.data_mem_unit.address
  pub data_written : IsWord p.data_mem_unit.write_data
  pub data_read : IsWord p.data_mem_unit.read_data
  pub data_mode : p.data_mem_unit.store_mode < 8
  pub reg_address1 : p.reg_file.address1 < 32
  pub reg_address2 : p.reg_file.address2 < 32
  pub reg_address3 : p.reg_file.address3 < 32
  pub reg_written : IsWord p.reg_file.write_data3
  pub opcode : p.control_unit.opcode < 128
  pub funct3 : p.control_unit.funct3 < 8
  pub funct7 : p.control_unit.funct7 < 128
  pub execute_next : p.execute_register.next.funct3 < 8
  pub execute_current : p.execute_register.current.funct3 < 8
  pub memory_next : p.memory_register.next.store_mode < 8
  pub memory_current : p.memory_register.current.store_mode < 8
