-- ===== src/Riscv/Pipeline/Preserved.antt =====
-- Every stage keeps the processor's members in range, whether it ends or throws.
use best_practices.Base.{ℕ, ◌≡◌, refl, inl, inr, done, object, object-on_member, arith}
use best_practices.Base.Bits.{bit_and-lt}
use best_practices.Riscv.Exceptions.{ok, Result-cases}
use best_practices.Riscv.Gates.{add_word, multiplexer2, multiplexer3}
use best_practices.Riscv.Alu.{alu}
use best_practices.Riscv.Alu.Range.{alu-lt}
use best_practices.Riscv.DataMem.{data_mem_get}
use best_practices.Riscv.DataMem.Range.{data_mem_get-lt}
use best_practices.Riscv.Instruction.{immediate, get_rd, get_rs1, get_rs2}
use best_practices.Riscv.InstrMem.{instr_mem_get}
use best_practices.Riscv.DataMem.Range.{instr_mem_get-lt}
use best_practices.Riscv.Register.{register_clear}
use best_practices.Riscv.Instruction.Immediate.{immediate-lt}
use best_practices.Riscv.RegFile.{set_new_signals}
use best_practices.Riscv.RegFile.Ports.{reg_file_tick-words, reg_file_tick_zero}
use best_practices.Riscv.State.{Pipeline, Bypass, reg, mem, wb, encoding}
use best_practices.Riscv.Stages.{
  access_memory, pass_to_write_back, execute_with, do_execute, read_registers, decode_signals,
  pass_to_execute, leave_section, advance_pc, fetch_word, count_down,
}
use best_practices.Riscv.Pipeline.Invariant.{IsValid, ArraysFit, IsWord}

pub access_memory-IsValid : (p : Pipeline) → IsValid p → IsValid (object (access_memory p))
unfolding access_memory
access_memory-IsValid p v = ground arith

pub pass_to_write_back-IsValid :
    (p : Pipeline) → IsValid p → ArraysFit p → IsValid (object (pass_to_write_back p))
unfolding pass_to_write_back multiplexer2
pass_to_write_back-IsValid p v f = elim (Result-cases (data_mem_get p.data_mem_unit)) [
  | inl (x, e) ↦ ground (arith, e, data_mem_get-lt p.data_mem_unit x f.values e)
  | inr (x, e) ↦ ground (arith, e)
]

pub leave_section-IsValid : (p : Pipeline) → IsValid p → IsValid (object (leave_section p))
unfolding leave_section register_clear
leave_section-IsValid p v = ground arith

pub advance_pc-IsValid : (p : Pipeline) → IsValid p → IsValid (object (advance_pc p))
unfolding advance_pc add_word
advance_pc-IsValid p v = ground arith

pub count_down-IsValid : (p : Pipeline) → IsValid p → IsValid (object (count_down p))
unfolding count_down
count_down-IsValid p v = ground arith

module _ (a b : ℕ) (ha : IsWord a) (hb : IsWord b) where
  execute_with-IsValid : (p : Pipeline) → IsValid p → IsValid (execute_with a b p)
  unfolding execute_with add_word multiplexer2 get_rd
  execute_with-IsValid p v =
      let x = p.execute_register.current in
      ground (
        arith,
        immediate-lt x.instr,
        alu-lt x.alu_op a b ha hb,
        alu-lt x.alu_op a (immediate x.instr) ha (immediate-lt x.instr),
        bit_and-lt 32 (alu x.alu_op a b) 0xfffffffe,
        bit_and-lt 32 (alu x.alu_op a (immediate x.instr)) 0xfffffffe,
      )

-- The choice of an operand never throws, and gives one of the three words.
operand :
    (h : Bypass) (a b c : ℕ)
    → IsWord a
    → IsWord b
    → IsWord c
    → (v : ℕ) × (multiplexer3 (encoding h) a b c ≡ ok v) × IsWord v
unfolding multiplexer3 encoding
operand reg a b c ha hb hc = (a, refl, ha)
operand mem a b c ha hb hc = (b, refl, hb)
operand wb a b c ha hb hc = (c, refl, hc)

do_execute_operands :
    (p : Pipeline) (a b : ℕ)
    → let x = p.execute_register.current in
      let wb_d = p.write_back_register.current.wb_d in
      multiplexer3 (encoding p.hu_rs1) x.data1 p.bp_mem wb_d ≡ ok a
      → multiplexer3 (encoding p.hu_rs2) x.data2 p.bp_mem wb_d ≡ ok b
      → do_execute p ≡ done (execute_with a b p)
unfolding do_execute
do_execute_operands p a b ea eb = rw (ea, eb, do_execute)

pub do_execute_lem :
    (p : Pipeline)
    → IsValid p
    → (a : ℕ) × (b : ℕ) × (do_execute p ≡ done (execute_with a b p)) × IsWord a × IsWord b
do_execute_lem p v =
    let x = p.execute_register.current in
    let w = p.write_back_register.current.wb_d in
    let (a, ea, ha) =
      operand p.hu_rs1 x.data1 p.bp_mem w v.execute_current.data1 v.bp_mem
        v.write_back_current.wb_d in
    let (b, eb, hb) =
      operand p.hu_rs2 x.data2 p.bp_mem w v.execute_current.data2 v.bp_mem
        v.write_back_current.wb_d in
    (a, b, do_execute_operands p a b ea eb, ha, hb)

pub do_execute-IsValid : (p : Pipeline) → IsValid p → IsValid (object (do_execute p))
do_execute-IsValid p v =
    let (a, b, e, ha, hb) = do_execute_lem p v in rw e (execute_with-IsValid a b ha hb p v)

pub read_registers-IsValid :
    (p : Pipeline) → IsValid p → ArraysFit p → IsValid (object (read_registers p))
unfolding read_registers set_new_signals
read_registers-IsValid p v f =
    let instr = p.decode_register.current.instr in
    let w = p.write_back_register.current in
    let r = set_new_signals (get_rs1 instr) (get_rs2 instr) w.wb_a w.wb_we w.wb_d p.reg_file in
    let words = reg_file_tick-words r f.regs v.write_back_current.wb_d v.read_data1 v.read_data2 in
    let zero =
      reg_file_tick_zero (get_rs1 instr) (get_rs2 instr) w.wb_a w.wb_we w.wb_d p.reg_file in
    rw object-on_member (ground (arith, words.1, words.2, zero))

pub decode_signals-IsValid : (p : Pipeline) → IsValid p → IsValid (object (decode_signals p))
unfolding decode_signals
decode_signals-IsValid p v = rw object-on_member (ground arith)

pub pass_to_execute-IsValid : (p : Pipeline) → IsValid p → IsValid (pass_to_execute p)
unfolding pass_to_execute multiplexer2
pass_to_execute-IsValid p v = ground arith

pub fetch_word-IsValid : (p : Pipeline) → IsValid p → ArraysFit p → IsValid (object (fetch_word p))
unfolding fetch_word
fetch_word-IsValid p v f = elim (Result-cases (instr_mem_get p.instr_mem_unit)) [
  | inl (w, e) ↦ ground (arith, e, instr_mem_get-lt p.instr_mem_unit w f.instrs e)
  | inr (x, e) ↦ ground (arith, e)
]
