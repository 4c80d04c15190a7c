-- ===== src/Language/Execution.antt =====
-- ProgrammingLanguage-main/execution/proc/proc.cpp: the loop of the processor and the header of a program.
pub mod Agreement
pub mod Runs
pub mod Straight
pub mod Programs
pub mod Overflow
use best_practices.Base.{
  ℕ, zero, suc, ◌+◌, ◌*◌, Bool, true, false, ltb, ◌==◌, if◌then◌else◌, ◌&&◌, not, Option, none,
  some, List, [], ◌∷◌, ◌++◌, bit_and,
}
use best_practices.Base.Int.{ℤ, pos, negsuc, ◌+ℤ◌, ltb_ℤ, signed32}
use best_practices.Base.Lists.{length, get_elem?}
use best_practices.Language.Stack.{Stack, stack_ctor, stack_push, stack_pop}
use best_practices.Translator.Doubles.{Doubles}
use best_practices.Translator.Parser.{signed_char}
use best_practices.Language.Processor.{
  Host, Instr, Place, Processor, Step, buffer_size, byte_at, cell_at, double_bytes, flag, get_arg,
  given, instr_ids, instr_of, reg_arg, set_cell, goes_on, exits, undefined, nowhere, in_regs,
  in_ram,
}
use best_practices.Language.Commands.{
  do_call, do_condition, do_function, do_in, do_jump, do_operator, do_out, do_pop, do_push, do_ret,
  execute_instr, label_pos, pop_operands, pop_value, push_value, read_place, write_place,
}

-- `ProcessCommand`
unfoldable pub process_command : Host → ℕ → Processor → Step
unfolding byte_at instr_of execute_instr
process_command h ip p =
    given (byte_at p ip) λ cmd. elim (instr_of (bit_and cmd 31)) [
      | none ↦ exits p
      | some i ↦ execute_instr h i cmd ip p
    ]

-- What `Execute` ends with: the fuel of the model is used up while it is `running`.
pub data Ending : Type 0 where
  ended : Processor → Ending
  running failed : Ending

-- The loop of `Execute`
unfoldable pub execute_loop : ℕ → Host → ℤ → Processor → Ending
unfolding process_command
execute_loop zero h ip p = running
execute_loop (suc fuel) h ip p = elim (ltb_ℤ ip p.cmds_amount) [
  | false ↦ ended p
  | true ↦ elim ip [
    | negsuc n ↦ failed
    | pos n ↦ elim (process_command h n p) [
      | undefined ↦ failed
      | exits p' ↦ ended p'
      | goes_on p' next ↦ execute_loop fuel h (next +ℤ pos 1) p'
    ]
  ]
]

-- `ReadHeader`, but for the signature and the version, of which only messages depend
unfoldable pub read_header : Processor → Processor
read_header p = record p {
  cmds_amount = signed32 (p.cmds 4 + 256 * (p.cmds 5 + 256 * (p.cmds 6 + 256 * p.cmds 7)));
}

-- `Execute`, with a stack for two elements
unfoldable pub execute : ℕ → Host → Processor → Ending
unfolding execute_loop stack_ctor
execute fuel h p = execute_loop fuel h (pos 8) (record p { main_stack = stack_ctor 2 })
