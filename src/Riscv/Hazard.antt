-- ===== src/Riscv/Hazard.antt =====
-- riscv-pipelined-cpu-sim/pipeline/pipeline.cpp: `hazardUnitTick`, `haltPipeline` and
-- `restartPipeline`.
pub mod Bypassing
pub mod Operands
use best_practices.Base.{ℕ, Bool, true, false, not, ◌&&◌, ◌||◌, ◌==◌, if◌then◌else◌}
use best_practices.Riscv.Register.{Register, register_clear}
use best_practices.Riscv.Instruction.{get_rs1, get_rs2, has_rs1, has_rs2}
use best_practices.Riscv.State.{Pipeline, Bypass, reg, mem, wb, decode_zero, execute_zero}

abbrev set_enable {ℓ} : {T : Type ℓ} → Bool → Register T → Register T
set_enable b r = record r { enable_flag = b }

-- `Pipeline::haltPipeline`
unfoldable pub halt_pipeline : Pipeline → Pipeline
halt_pipeline p = record p {
  program_counter = set_enable false p.program_counter;
  decode_register = set_enable false p.decode_register;
  execute_register = set_enable false p.execute_register;
}

-- `Pipeline::restartPipeline`
unfoldable pub restart_pipeline : Pipeline → Pipeline
restart_pipeline p = record p {
  program_counter = set_enable true p.program_counter;
  decode_register = set_enable true p.decode_register;
  execute_register = set_enable true p.execute_register;
}

-- Where one operand comes from: the `if` chain over `rs1`, and again over `rs2`. The arguments are
-- whether the instruction has the operand, its register, and the `wb_a` of the two later stages.
unfoldable pub select_bypass : Bool → ℕ → ℕ → ℕ → Bypass
select_bypass has rs mem_wb_a wb_wb_a =
    if has && not (rs == 0)
    then (if rs == mem_wb_a then mem else if rs == wb_wb_a then wb else reg)
    else reg

-- The same chain's calls of `haltPipeline`: the operand is still being loaded.
unfoldable pub needs_halt : Bool → ℕ → ℕ → Bool → Bool
needs_halt has rs mem_wb_a mem_to_reg = has && not (rs == 0) && rs == mem_wb_a && not mem_to_reg

-- `Pipeline::hazardUnitTick`
unfoldable pub hazard_unit_tick : Pipeline → Pipeline
unfolding halt_pipeline restart_pipeline select_bypass needs_halt
hazard_unit_tick p =
    let instr = p.execute_register.current.instr in
    let type = p.control_unit.instr_type in
    let rs1 = get_rs1 instr in
    let rs2 = get_rs2 instr in
    let m = p.memory_register.current in
    let wb_wb_a = p.write_back_register.current.wb_a in
    let was_halted =
      needs_halt (has_rs1 type) rs1 m.wb_a m.mem_to_reg
      || needs_halt (has_rs2 type) rs2 m.wb_a m.mem_to_reg in
    let q = record p {
      hu_rs1 = select_bypass (has_rs1 type) rs1 m.wb_a wb_wb_a;
      hu_rs2 = select_bypass (has_rs2 type) rs2 m.wb_a wb_wb_a;
    } in
    if p.pc_r
    then record p {
      decode_register = register_clear decode_zero p.decode_register;
      execute_register = register_clear execute_zero p.execute_register;
    }
    else if was_halted
    then halt_pipeline q
    else restart_pipeline q
