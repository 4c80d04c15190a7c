-- ===== src/Riscv/Pipeline/Raises.antt =====
-- What each stage throws: never the exceptions of `regs.at` and of the three-way multiplexer.
use best_practices.Base.{
  ℕ, ◌<◌, ◌≡◌, ◌≢◌, inl, inr, not, ◌||◌, raise, >>=-eq-raise, on_member-eq-raise, Bool-cases, arith,
}
use best_practices.Riscv.Exceptions.{Exception, err, out_of_range, invalid_control}
use best_practices.Riscv.DataMem.{DataMem, data_mem_tick, data_mem_get}
use best_practices.Riscv.InstrMem.{instr_mem_get}
use best_practices.Riscv.ControlUnit.{
  ControlUnit, control_unit_tick, set_write_signals, set_alu_op, set_conditions,
}
use best_practices.Riscv.Instruction.{get_rs1, get_rs2}
use best_practices.Riscv.RegFile.{reg_file_tick}
use best_practices.Riscv.RegFile.Ports.{reg_file_tick_lem}
use best_practices.Riscv.State.{Pipeline}
use best_practices.Riscv.Stages.{
  access_memory, pass_to_write_back, do_execute, read_registers, decode_signals, leave_section,
  advance_pc, fetch_word, count_down,
}
use best_practices.Riscv.Pipeline.Invariant.{IsValid}
use best_practices.Riscv.Pipeline.Preserved.{do_execute_lem}

-- Neither `regs.at` nor a three-way multiplexer has thrown.
abbrev pub IsExpected : Exception → Type 0
IsExpected e = (e ≢ out_of_range) × (e ≢ invalid_control)

data_mem_get-IsExpected : (d : DataMem) (e : Exception) → data_mem_get d ≡ err e → IsExpected e
unfolding data_mem_get
data_mem_get-IsExpected d e r = ground arith

data_mem_tick-IsExpected :
    (d d' : DataMem) (e : Exception) → data_mem_tick d ≡ raise e d' → IsExpected e
unfolding data_mem_tick
data_mem_tick-IsExpected d d' e r = ground arith

pub access_memory-IsExpected :
    (p q : Pipeline) (e : Exception) → access_memory p ≡ raise e q → IsExpected e
unfolding access_memory
access_memory-IsExpected p q e r =
    let m = p.memory_register.current in
    let d : DataMem = record p.data_mem_unit {
      store_mode = m.store_mode;
      write_enable = m.mem_we;
      address = m.alu_res;
      write_data = m.write_data;
    } in
    elim (Bool-cases (not m.mem_to_reg || m.mem_we)) [
      | inl used ↦
          let (d', t) =
            on_member-eq-raise (data_mem_tick d) (λ d'. record p { data_mem_unit = d' })
              (rw used at r) in
          data_mem_tick-IsExpected d d' e t
      | inr unused ↦ absurd (ground (arith, unused))
    ]

pub pass_to_write_back-IsExpected :
    (p q : Pipeline) (e : Exception) → pass_to_write_back p ≡ raise e q → IsExpected e
unfolding pass_to_write_back
pass_to_write_back-IsExpected p q e r = ground (arith, data_mem_get-IsExpected p.data_mem_unit e)

pub leave_section-IsExpected :
    (p q : Pipeline) (e : Exception) → leave_section p ≡ raise e q → IsExpected e
unfolding leave_section
leave_section-IsExpected p q e r = ground arith

pub advance_pc-IsExpected :
    (p q : Pipeline) (e : Exception) → advance_pc p ≡ raise e q → IsExpected e
unfolding advance_pc
advance_pc-IsExpected p q e r = ground arith

pub fetch_word-IsExpected :
    (p q : Pipeline) (e : Exception) → fetch_word p ≡ raise e q → IsExpected e
unfolding fetch_word instr_mem_get
fetch_word-IsExpected p q e r = ground arith

pub count_down-IsExpected :
    (p q : Pipeline) (e : Exception) → count_down p ≡ raise e q → IsExpected e
unfolding count_down
count_down-IsExpected p q e r = ground arith

set_write_signals-IsExpected :
    (c c' : ControlUnit) (e : Exception) → set_write_signals c ≡ raise e c' → IsExpected e
unfolding set_write_signals
set_write_signals-IsExpected c c' e r = ground arith

set_alu_op-IsExpected :
    (c c' : ControlUnit) (e : Exception) → set_alu_op c ≡ raise e c' → IsExpected e
unfolding set_alu_op
set_alu_op-IsExpected c c' e r = ground arith

set_conditions-IsExpected :
    (c c' : ControlUnit) (e : Exception) → set_conditions c ≡ raise e c' → IsExpected e
unfolding set_conditions
set_conditions-IsExpected c c' e r = ground arith

control_unit_tick-IsExpected :
    (c c' : ControlUnit) (e : Exception) → control_unit_tick c ≡ raise e c' → IsExpected e
unfolding control_unit_tick
control_unit_tick-IsExpected c c' e r = elim (>>=-eq-raise (set_write_signals c) _ r) [
  | inl early ↦ set_write_signals-IsExpected c c' e early
  | inr (c₁, p₁, r₁) ↦ elim (>>=-eq-raise (set_alu_op c₁) _ r₁) [
    | inl middle ↦ set_alu_op-IsExpected c₁ c' e middle
    | inr (c₂, p₂, r₂) ↦ set_conditions-IsExpected c₂ c' e r₂
  ]
]

pub decode_signals-IsExpected :
    (p q : Pipeline) (e : Exception) → decode_signals p ≡ raise e q → IsExpected e
unfolding decode_signals
decode_signals-IsExpected p q e r =
    let (c, t) = on_member-eq-raise (control_unit_tick _) _ r in
    control_unit_tick-IsExpected _ c e t

get_rs-lt : (w : ℕ) → (get_rs1 w < 32) × (get_rs2 w < 32)
unfolding get_rs1 get_rs2
get_rs-lt w = omega arith

pub read_registers-IsExpected :
    (p q : Pipeline) (e : Exception) → IsValid p → read_registers p ≡ raise e q → IsExpected e
unfolding read_registers
read_registers-IsExpected p q e v r =
    let instr = p.decode_register.current.instr in
    let w = p.write_back_register.current in
    let (s, t) = on_member-eq-raise (reg_file_tick _) _ r in
    let (rs1, rs2) = get_rs-lt instr in
    let ends =
      reg_file_tick_lem (get_rs1 instr) (get_rs2 instr) w.wb_a w.wb_we w.wb_d p.reg_file rs1 rs2
        v.write_back_current.wb_a in
    absurd (cc (ends.0, t))

pub do_execute-IsExpected :
    (p q : Pipeline) (e : Exception) → IsValid p → do_execute p ≡ raise e q → IsExpected e
do_execute-IsExpected p q e v r = let (a, b, d, _, _) = do_execute_lem p v in absurd (cc (d, r))
