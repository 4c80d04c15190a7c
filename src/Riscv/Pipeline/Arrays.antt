-- ===== src/Riscv/Pipeline/Arrays.antt =====
-- Every stage keeps words in the registers and bytes in the memories, whether it ends or throws.
use best_practices.Base.{ℕ, object, object-on_member, arith}
use best_practices.Riscv.DataMem.{DataMem}
use best_practices.Riscv.DataMem.Range.{data_mem_tick-IsBytes}
use best_practices.Riscv.Instruction.{get_rs1, get_rs2}
use best_practices.Riscv.RegFile.{set_new_signals}
use best_practices.Riscv.RegFile.Ports.{reg_file_tick-words}
use best_practices.Riscv.State.{Pipeline}
use best_practices.Riscv.Stages.{
  access_memory, pass_to_write_back, execute_with, do_execute, read_registers, decode_signals,
  pass_to_execute, leave_section, advance_pc, fetch_word, count_down,
}
use best_practices.Riscv.Pipeline.Invariant.{IsValid, ArraysFit}
use best_practices.Riscv.Pipeline.Preserved.{do_execute_lem}

-- What `doMemory` asks of the data memory.
abbrev request : Pipeline → DataMem
request p =
    let m = p.memory_register.current in
    record p.data_mem_unit {
      store_mode = m.store_mode;
      write_enable = m.mem_we;
      address = m.alu_res;
      write_data = m.write_data;
    }

pub access_memory-ArraysFit : (p : Pipeline) → ArraysFit p → ArraysFit (object (access_memory p))
unfolding access_memory
access_memory-ArraysFit p f = record {
  regs = λ j. ground (arith, f.regs j);
  values = λ j. ground (arith, f.values j, data_mem_tick-IsBytes (request p) f.values j);
  instrs = λ j. ground (arith, f.instrs j);
}

pub pass_to_write_back-ArraysFit :
    (p : Pipeline) → ArraysFit p → ArraysFit (object (pass_to_write_back p))
unfolding pass_to_write_back
pass_to_write_back-ArraysFit p f = record {
  regs = λ j. ground (arith, f.regs j);
  values = λ j. ground (arith, f.values j);
  instrs = λ j. ground (arith, f.instrs j);
}

execute_with-ArraysFit : (a b : ℕ) (p : Pipeline) → ArraysFit p → ArraysFit (execute_with a b p)
unfolding execute_with
execute_with-ArraysFit a b p f = record {
  regs = λ j. ground (arith, f.regs j);
  values = λ j. ground (arith, f.values j);
  instrs = λ j. ground (arith, f.instrs j);
}

pub do_execute-ArraysFit :
    (p : Pipeline) → IsValid p → ArraysFit p → ArraysFit (object (do_execute p))
do_execute-ArraysFit p v f =
    let (a, b, e, ha, hb) = do_execute_lem p v in rw e (execute_with-ArraysFit a b p f)

pub read_registers-ArraysFit :
    (p : Pipeline) → IsValid p → ArraysFit p → ArraysFit (object (read_registers p))
unfolding read_registers set_new_signals
read_registers-ArraysFit p v f =
    let instr = p.decode_register.current.instr in
    let w = p.write_back_register.current in
    let r = set_new_signals (get_rs1 instr) (get_rs2 instr) w.wb_a w.wb_we w.wb_d p.reg_file in
    let words = reg_file_tick-words r f.regs v.write_back_current.wb_d v.read_data1 v.read_data2 in
    rw object-on_member
      (record { regs = λ j. words.0 j; values = λ j. f.values j; instrs = λ j. f.instrs j })

pub decode_signals-ArraysFit : (p : Pipeline) → ArraysFit p → ArraysFit (object (decode_signals p))
unfolding decode_signals
decode_signals-ArraysFit p f =
    rw object-on_member (record { regs = f.regs; values = f.values; instrs = f.instrs })

pub pass_to_execute-ArraysFit : (p : Pipeline) → ArraysFit p → ArraysFit (pass_to_execute p)
unfolding pass_to_execute
pass_to_execute-ArraysFit p f = record { regs = f.regs; values = f.values; instrs = f.instrs }

pub leave_section-ArraysFit : (p : Pipeline) → ArraysFit p → ArraysFit (object (leave_section p))
unfolding leave_section
leave_section-ArraysFit p f = record {
  regs = λ j. ground (arith, f.regs j);
  values = λ j. ground (arith, f.values j);
  instrs = λ j. ground (arith, f.instrs j);
}

pub advance_pc-ArraysFit : (p : Pipeline) → ArraysFit p → ArraysFit (object (advance_pc p))
unfolding advance_pc
advance_pc-ArraysFit p f = record {
  regs = λ j. ground (arith, f.regs j);
  values = λ j. ground (arith, f.values j);
  instrs = λ j. ground (arith, f.instrs j);
}

pub fetch_word-ArraysFit : (p : Pipeline) → ArraysFit p → ArraysFit (object (fetch_word p))
unfolding fetch_word
fetch_word-ArraysFit p f = record {
  regs = λ j. ground (arith, f.regs j);
  values = λ j. ground (arith, f.values j);
  instrs = λ j. ground (arith, f.instrs j);
}

pub count_down-ArraysFit : (p : Pipeline) → ArraysFit p → ArraysFit (object (count_down p))
unfolding count_down
count_down-ArraysFit p f = record {
  regs = λ j. ground (arith, f.regs j);
  values = λ j. ground (arith, f.values j);
  instrs = λ j. ground (arith, f.instrs j);
}
