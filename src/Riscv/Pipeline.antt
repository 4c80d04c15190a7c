-- ===== src/Riscv/Pipeline.antt =====
-- riscv-pipelined-cpu-sim/pipeline/pipeline.cpp and pipeline.h: construction, `tick` and `run`.
pub mod Invariant
pub mod Preserved
pub mod Arrays
pub mod Ports
pub mod Raises
pub mod Safety
pub mod Runs
pub mod Drain
use best_practices.Base.{
  ℕ, zero, suc, ◌+◌, ◌%◌, ◌^◌, not, ltb, if◌then◌else◌, List, Outcome, done, raise, ◌>>=◌, Option,
  none, some,
}
use best_practices.Riscv.Exceptions.{
  Exception, Result, ok, err, ◌>>=◌ as bind, is_logic_error, out_of_range,
}
use best_practices.Riscv.RegFile.{number_of_regs}
use best_practices.Riscv.Register.{register_tick, register_clear}
use best_practices.Riscv.DataMem.{data_mem_get, data_mem_init}
use best_practices.Riscv.InstrMem.{instr_mem_init}
use best_practices.Riscv.State.{Pipeline, memory_zero, reset}
use best_practices.Riscv.Stages.{Stage, do_memory, do_execute, do_decode, do_fetch}
use best_practices.Riscv.Hazard.{hazard_unit_tick}

-- `Pipeline::Pipeline(instructions, start, data)`; without `data` the memory is all zeros.
unfoldable pub pipeline_init : List ℕ → ℕ → List (ℕ × ℕ) → Result Pipeline
unfolding instr_mem_init data_mem_init
pipeline_init instructions start values =
    bind (instr_mem_init instructions start) λ i. bind (data_mem_init values) λ d. ok (reset i d)

-- `Pipeline::setProgramCounter`
unfoldable pub set_program_counter : ℕ → Pipeline → Pipeline
set_program_counter pc p = record p {
  program_counter = register_tick (record p.program_counter { next = pc });
}

-- `Pipeline::tickStateRegisters`
unfoldable pub tick_state_registers : Pipeline → Pipeline
tick_state_registers p = record p {
  decode_register = register_tick p.decode_register;
  execute_register = register_tick p.execute_register;
  memory_register = register_tick p.memory_register;
  write_back_register = register_tick p.write_back_register;
}

-- The `if` of `tick` that clears the memory register while the program counter is held.
unfoldable pub clear_stalled : Pipeline → Pipeline
clear_stalled p =
    if not p.program_counter.enable_flag
    then record p { memory_register = register_clear memory_zero p.memory_register }
    else p

-- The end of `tick`, after the stages.
unfoldable pub clock : Pipeline → Pipeline
clock p =
    let p₁ = tick_state_registers (clear_stalled p) in
    let p₂ = hazard_unit_tick (record p₁ { program_counter = register_tick p₁.program_counter }) in
    record p₂ { ticks_counter = (p₂.ticks_counter + 1) % 2 ^ 64 }

-- `Pipeline::tick`. `doWriteBack` is empty.
unfoldable pub tick : Stage
unfolding clock
tick p = do_memory p >>= do_execute >>= do_decode >>= do_fetch >>= λ q. done (clock q)

-- `Pipeline::run` for at most `fuel` ticks: `none` if the loop is still running then. A
-- `std::logic_error` ends it normally; EbreakException leaves it.
unfoldable pub run : ℕ → Pipeline → Option (Outcome Exception Pipeline)
run zero p = none
run (suc fuel) p = elim (tick p) [
  | done q ↦ run fuel q
  | raise e q ↦ some (if is_logic_error e then done q else raise e q)
]

-- `Pipeline::getDataWord`: the address is put back, unless `getData` throws.
unfoldable pub get_data_word : ℕ → Pipeline → Result ℕ × Pipeline
get_data_word addr p =
    let q = record p { data_mem_unit = record p.data_mem_unit { address = addr } } in
    elim (data_mem_get q.data_mem_unit) [ ok v ↦ (ok v, p) | err e ↦ (err e, q) ]

-- `Pipeline::getRegister`, a `regs.at(addr)`.
unfoldable pub get_register : ℕ → Pipeline → Result ℕ
get_register addr p =
    if ltb addr number_of_regs then ok (p.reg_file.regs addr) else err out_of_range
