-- ===== src/Riscv/Tests/Programs.antt =====
-- Whole programs, and the theorems about ticks and runs at concrete inputs.
use best_practices.Base.{
  ℕ, ◌≡◌, refl, true, List, [], ◌∷◌, Option, some, none, Outcome, done, object, arith,
}
use best_practices.Riscv.Exceptions.{Exception, ok, err, is_logic_error}
use best_practices.Riscv.State.{Pipeline, reset, encoding}
use best_practices.Riscv.Stages.{do_memory, do_execute, do_decode, do_fetch, execute_with}
use best_practices.Riscv.DataMem.{data_mem_tick, data_mem_get}
use best_practices.Riscv.Gates.{multiplexer2, multiplexer3, add_word, and_flag, or_flag}
use best_practices.Riscv.RegFile.{reg_file_tick, set_new_signals}
use best_practices.Riscv.Instruction.{
  get_rs1, get_rs2, get_opcode, get_funct3, get_funct7, get_rd, immediate, has_rs1, has_rs2,
}
use best_practices.Riscv.ControlUnit.{control_unit_tick}
use best_practices.Riscv.InstrMem.{is_pc_out_of_section, instr_mem_get}
use best_practices.Riscv.Register.{register_tick, register_clear}
use best_practices.Riscv.Hazard.{hazard_unit_tick}
use best_practices.Riscv.Alu.{alu}
use best_practices.Riscv.Cmp.{cmp}
use best_practices.Riscv.Bytes.{read_word, write_word}
use best_practices.Riscv.Extension.{sign_extend_from_byte, sign_extend_from_byte2}
use best_practices.Riscv.Pipeline.{
  pipeline_init, set_program_counter, run, tick, get_register, clock, clear_stalled,
  tick_state_registers,
}
use best_practices.Riscv.Pipeline.Safety.{InRange, IsSafe}
use best_practices.Riscv.Pipeline.Runs.{start, step, Reaches-IsSafe}
use best_practices.Riscv.Pipeline.Drain.{run_terminates}
use best_practices.Riscv.Tests.Memories.{empty_data, two_loaded, two_words}

-- Register `x` and the ticks after at most `fuel` ticks of a program from `pc` on.
outcome : List ℕ → ℕ → List (ℕ × ℕ) → ℕ → ℕ → Option (ℕ × ℕ)
unfolding pipeline_init set_program_counter run get_register tick do_memory data_mem_tick
    data_mem_get do_execute multiplexer3 encoding do_decode reg_file_tick set_new_signals
    execute_with get_rs1 get_rs2 get_opcode get_funct3 get_funct7 get_rd control_unit_tick do_fetch
    is_pc_out_of_section instr_mem_get register_tick register_clear hazard_unit_tick clock
    clear_stalled tick_state_registers multiplexer2 add_word and_flag or_flag alu cmp immediate
    has_rs1 has_rs2 read_word write_word is_logic_error sign_extend_from_byte sign_extend_from_byte2
outcome ws pc entries fuel x = elim (pipeline_init ws pc entries) [
  | ok p ↦ elim (run fuel (set_program_counter pc p)) [
    | some (done q) ↦ elim (get_register x q) [ ok v ↦ some (v, q.ticks_counter) | err e ↦ none ]
    | _ ↦ none
  ]
  | err e ↦ none
]

abbrev hazard_test1 : List ℕ
hazard_test1 =
    0x00f58593 ∷ 0x01060613 ∷ 0x00c58533 ∷ 0x00000013 ∷ 0x00000013 ∷ 0x00000013 ∷ 0x00000013
    ∷ 0x00000013 ∷ 0x00000013 ∷ 0x00000013 ∷ 0x00000013 ∷ []

abbrev fibonacci_test : List ℕ
fibonacci_test =
    0x00020137 ∷ 0x04c000ef ∷ 0x0ff00613 ∷ 0x000306b7 ∷ 0x00c68223 ∷ 0x00000013 ∷ 0x00000013
    ∷ 0x00000013 ∷ 0x00000013 ∷ 0x00000013 ∷ 0x00000013 ∷ 0x00000013 ∷ 0x00000013 ∷ 0x00000013
    ∷ 0x00000013 ∷ 0x00000013 ∷ 0x00000013 ∷ 0x00000013 ∷ 0x00000013 ∷ 0x00000013 ∷ 0x00100513
    ∷ 0x00100593 ∷ 0x03700693 ∷ 0x00a58633 ∷ 0x00b00533 ∷ 0x00c005b3 ∷ 0xfea69ae3 ∷ 0x00008067 ∷ []

abbrev right_shift_test : List ℕ
right_shift_test =
    0x00402503 ∷ 0x00300593 ∷ 0x40b55533 ∷ 0x00000013 ∷ 0x00000013 ∷ 0x00000013 ∷ 0x00000013
    ∷ 0x00000013 ∷ 0x00000013 ∷ 0x00000013 ∷ 0x00402603 ∷ 0x00b65633 ∷ 0x00000013 ∷ 0x00000013
    ∷ 0x00000013 ∷ 0x00000013 ∷ 0x00000013 ∷ 0x00000013 ∷ 0x00000013 ∷ 0x0000006f ∷ []

-- The tests of tests/integration_test.cpp and tests/instructions_test.cpp, with the values that they
-- assert, and the tick in which they stop.
hazard_test1_runs : outcome hazard_test1 16 [] 100 10 ≡ some (31, 14)
unfolding outcome
hazard_test1_runs = refl

fibonacci_test_runs : outcome fibonacci_test 16 [] 100 10 ≡ some (55, 61)
unfolding outcome
fibonacci_test_runs = refl

right_shift_test_runs :
    outcome right_shift_test 16 ((4, 0x8000ffff) ∷ []) 100 12 ≡ some (0x10001fff, 22)
unfolding outcome
right_shift_test_runs = refl

-- The first processor of the two-instruction program.
abbrev two_reset : Pipeline
two_reset = reset two_loaded empty_data

two_init : pipeline_init two_words 16 [] ≡ ok two_reset
unfolding pipeline_init
two_init = refl

-- The processor with the counter at the first of them, and what its first tick makes of it
abbrev first_state : Pipeline
first_state = set_program_counter 16 two_reset

abbrev after_tick : Pipeline
after_tick = object (tick first_state)

first_tick : tick first_state ≡ done after_tick
unfolding set_program_counter tick do_memory data_mem_tick data_mem_get do_execute multiplexer3
    encoding do_decode reg_file_tick set_new_signals execute_with get_rs1 get_rs2 get_opcode
    get_funct3 get_funct7 get_rd control_unit_tick do_fetch is_pc_out_of_section instr_mem_get
    register_tick register_clear hazard_unit_tick clock clear_stalled tick_state_registers
    multiplexer2 add_word and_flag or_flag alu cmp immediate has_rs1 has_rs2 read_word write_word
    is_logic_error sign_extend_from_byte sign_extend_from_byte2
first_tick = refl

-- After that tick the processor is safe, and so is the next tick.
Reaches-IsSafe_example : InRange after_tick × IsSafe (tick after_tick)
Reaches-IsSafe_example =
    Reaches-IsSafe two_words 16 [] two_reset after_tick 16 two_init (omega arith)
      (step start first_tick)

-- Two ticks are left.
abbrev draining : Pipeline
draining = record two_reset { last_instructions_flag = true; last_instructions_counter = 2 }

run_terminates_example : (o : Outcome Exception Pipeline) × (run 3 draining ≡ some o)
run_terminates_example = run_terminates 3 draining refl (omega arith)

-- addi x1, x0, 5; addi x2, x0, 6 and nothing behind them: the second is finished, the first is not.
abbrev two_additions : List ℕ
two_additions = 0x00500093 ∷ 0x00600113 ∷ []

first_addition_lost : outcome two_additions 16 [] 100 1 ≡ some (0, 5)
unfolding outcome
first_addition_lost = refl

second_addition_kept : outcome two_additions 16 [] 100 2 ≡ some (6, 5)
unfolding outcome
second_addition_kept = refl

-- addi x8, x0, 77; three nops; sw x0, 8(x0); addi x1, x8, 0: x1 gets the address of the store.
abbrev store_then_move : List ℕ
store_then_move =
    0x04d00413 ∷ 0x13 ∷ 0x13 ∷ 0x13 ∷ 0x00002423 ∷ 0x00040093 ∷ 0x13 ∷ 0x13 ∷ 0x13 ∷ 0x13 ∷ 0x13
    ∷ []

store_is_forwarded : outcome store_then_move 16 [] 100 1 ≡ some (8, 14)
unfolding outcome
store_is_forwarded = refl
