-- ===== src/Riscv/Pipeline/Ports.antt =====
-- Every stage keeps the inputs of the units in range, whether it ends or throws.
use best_practices.Base.{ℕ, ◌≡◌, object, object->>=, object-on_member, arith, inl, inr, ◌∙◌}
use best_practices.Riscv.Exceptions.{Result-cases}
use best_practices.Riscv.DataMem.{DataMem, data_mem_get, data_mem_tick}
use best_practices.Riscv.DataMem.Range.{data_mem_get-lt}
use best_practices.Riscv.Bytes.Laws.{IsBytes}
use best_practices.Riscv.RegFile.{RegFile, reg_file_tick, write_port, at_index, set_new_signals}
use best_practices.Riscv.ControlUnit.{
  ControlUnit, set_write_signals, set_alu_op, set_conditions, control_unit_tick,
}
use best_practices.Riscv.Instruction.{get_rs1, get_rs2, get_opcode, get_funct3, get_funct7}
use best_practices.Riscv.Register.{register_tick, register_clear}
use best_practices.Riscv.State.{Pipeline}
use best_practices.Riscv.Stages.{
  access_memory, pass_to_write_back, execute_with, do_execute, read_registers, decode_signals,
  pass_to_execute, leave_section, advance_pc, fetch_word, count_down,
}
use best_practices.Riscv.Hazard.{hazard_unit_tick}
use best_practices.Riscv.Pipeline.{clock, clear_stalled, tick_state_registers}
use best_practices.Riscv.Pipeline.Invariant.{IsValid, ArraysFit, PortsFit, IsWord}
use best_practices.Riscv.Pipeline.Preserved.{do_execute_lem}

-- The units do not change their inputs.
abbrev SameRequest : DataMem → DataMem → Type 0
SameRequest d e =
    (e.address ≡ d.address) × (e.write_data ≡ d.write_data) × (e.store_mode ≡ d.store_mode)

data_mem_tick-SameRequest : (d : DataMem) → SameRequest d (object (data_mem_tick d))
unfolding data_mem_tick
data_mem_tick-SameRequest d = ground arith

data_mem_tick-read :
    (d : DataMem)
    → IsBytes d.memory
    → IsWord d.read_data
    → IsWord (object (data_mem_tick d)).read_data
unfolding data_mem_tick
data_mem_tick-read d h k = elim (Result-cases (data_mem_get d)) [
  | inl (v, e) ↦ ground (arith, e, data_mem_get-lt d v h e)
  | inr (x, e) ↦ ground (arith, e)
]

abbrev SamePorts : RegFile → RegFile → Type 0
SamePorts r s =
    (s.address1 ≡ r.address1)
    × (s.address2 ≡ r.address2)
    × (s.address3 ≡ r.address3)
    × (s.write_data3 ≡ r.write_data3)

reg_file_tick-SamePorts : (r : RegFile) → SamePorts r (object (reg_file_tick r))
unfolding reg_file_tick write_port at_index
reg_file_tick-SamePorts r = ground arith

abbrev SameCodes : ControlUnit → ControlUnit → Type 0
SameCodes c d = (d.opcode ≡ c.opcode) × (d.funct3 ≡ c.funct3) × (d.funct7 ≡ c.funct7)

set_write_signals-SameCodes : (c : ControlUnit) → SameCodes c (object (set_write_signals c))
unfolding set_write_signals
set_write_signals-SameCodes c = ground arith

set_alu_op-SameCodes : (c : ControlUnit) → SameCodes c (object (set_alu_op c))
unfolding set_alu_op
set_alu_op-SameCodes c = ground arith

set_conditions-SameCodes : (c : ControlUnit) → SameCodes c (object (set_conditions c))
unfolding set_conditions
set_conditions-SameCodes c = ground arith

SameCodes-trans : (c d e : ControlUnit) → SameCodes c d → SameCodes d e → SameCodes c e
SameCodes-trans c d e h k = (k.0 ∙ h.0, k.1 ∙ h.1, k.2 ∙ h.2)

control_unit_tick-SameCodes : (c : ControlUnit) → SameCodes c (object (control_unit_tick c))
unfolding control_unit_tick
control_unit_tick-SameCodes c =
    object->>= (SameCodes c) (set_write_signals c) _ (set_write_signals-SameCodes c) λ d h.
      object->>= (SameCodes c) (set_alu_op d) set_conditions
        (SameCodes-trans c d (object (set_alu_op d)) h (set_alu_op-SameCodes d))
        λ e k. SameCodes-trans c e (object (set_conditions e)) k (set_conditions-SameCodes e)

-- What `doMemory` asks of the data memory
abbrev request : Pipeline → DataMem
request p =
    let m = p.memory_register.current in
    record p.data_mem_unit {
      store_mode = m.store_mode;
      write_enable = m.mem_we;
      address = m.alu_res;
      write_data = m.write_data;
    }

pub access_memory-PortsFit :
    (p : Pipeline) → IsValid p → ArraysFit p → PortsFit p → PortsFit (object (access_memory p))
unfolding access_memory
access_memory-PortsFit p v f t =
    let same = data_mem_tick-SameRequest (request p) in
    let read = data_mem_tick-read (request p) f.values t.data_read in
    ground (arith, same.0, same.1, same.2, read)

pub pass_to_write_back-PortsFit :
    (p : Pipeline) → PortsFit p → PortsFit (object (pass_to_write_back p))
unfolding pass_to_write_back
pass_to_write_back-PortsFit p t = ground arith

execute_with-PortsFit : (a b : ℕ) (p : Pipeline) → PortsFit p → PortsFit (execute_with a b p)
unfolding execute_with
execute_with-PortsFit a b p t = ground arith

pub do_execute-PortsFit : (p : Pipeline) → IsValid p → PortsFit p → PortsFit (object (do_execute p))
do_execute-PortsFit p v t =
    let (a, b, e, ha, hb) = do_execute_lem p v in rw e (execute_with-PortsFit a b p t)

pub read_registers-PortsFit :
    (p : Pipeline) → IsValid p → PortsFit p → PortsFit (object (read_registers p))
unfolding read_registers set_new_signals get_rs1 get_rs2
read_registers-PortsFit p v t =
    let instr = p.decode_register.current.instr in
    let w = p.write_back_register.current in
    let r = set_new_signals (get_rs1 instr) (get_rs2 instr) w.wb_a w.wb_we w.wb_d p.reg_file in
    let same = reg_file_tick-SamePorts r in
    rw object-on_member (ground (arith, same.0, same.1, same.2, same.3))

pub decode_signals-PortsFit : (p : Pipeline) → PortsFit p → PortsFit (object (decode_signals p))
unfolding decode_signals get_opcode get_funct3 get_funct7
decode_signals-PortsFit p t =
    let instr = p.decode_register.current.instr in
    let c : ControlUnit = record p.control_unit {
      opcode = get_opcode instr;
      funct3 = get_funct3 instr;
      funct7 = get_funct7 instr;
    } in
    let same = control_unit_tick-SameCodes c in
    rw object-on_member (ground (arith, same.0, same.1, same.2))

pub pass_to_execute-PortsFit : (p : Pipeline) → PortsFit p → PortsFit (pass_to_execute p)
unfolding pass_to_execute
pass_to_execute-PortsFit p t = ground arith

pub leave_section-PortsFit : (p : Pipeline) → PortsFit p → PortsFit (object (leave_section p))
unfolding leave_section
leave_section-PortsFit p t = ground arith

pub advance_pc-PortsFit : (p : Pipeline) → IsValid p → PortsFit p → PortsFit (object (advance_pc p))
unfolding advance_pc
advance_pc-PortsFit p v t = ground arith

pub fetch_word-PortsFit : (p : Pipeline) → PortsFit p → PortsFit (object (fetch_word p))
unfolding fetch_word
fetch_word-PortsFit p t = ground arith

pub count_down-PortsFit : (p : Pipeline) → PortsFit p → PortsFit (object (count_down p))
unfolding count_down
count_down-PortsFit p t = ground arith

clear_stalled-PortsFit : (p : Pipeline) → PortsFit p → PortsFit (clear_stalled p)
unfolding clear_stalled register_clear
clear_stalled-PortsFit p t = ground arith

tick_state_registers-PortsFit : (p : Pipeline) → PortsFit p → PortsFit (tick_state_registers p)
unfolding tick_state_registers register_tick
tick_state_registers-PortsFit p t = ground arith

hazard_unit_tick-PortsFit : (p : Pipeline) → PortsFit p → PortsFit (hazard_unit_tick p)
unfolding hazard_unit_tick register_clear
hazard_unit_tick-PortsFit p t = ground arith

count_tick-PortsFit :
    (p : Pipeline) (n : ℕ) → PortsFit p → PortsFit (record p { ticks_counter = n })
count_tick-PortsFit p n t = ground arith

tick_pc-PortsFit :
    (p : Pipeline)
    → PortsFit p
    → PortsFit (record p { program_counter = register_tick p.program_counter })
tick_pc-PortsFit p t = ground arith

pub clock-PortsFit : (p : Pipeline) → PortsFit p → PortsFit (clock p)
unfolding clock
clock-PortsFit p t = count_tick-PortsFit _ _ (
    hazard_unit_tick-PortsFit _
      (tick_pc-PortsFit _ (tick_state_registers-PortsFit _ (clear_stalled-PortsFit p t))))
