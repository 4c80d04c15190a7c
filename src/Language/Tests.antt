-- ===== src/Language/Tests.antt =====
-- The processor of ProgrammingLanguage-main on concrete programs.
use best_practices.Base.{ℕ, ◌≡◌, refl, true, ltb, leb, ◌==◌, none, List, [], ◌∷◌, ◌++◌, arith}
use best_practices.Base.Int.{pos}
use best_practices.Language.Processor.{Host, Processor, instr_of, byte_at}
use best_practices.Language.Commands.{execute_instr}
use best_practices.Language.Execution.{execute_loop, execute, failed, ended, process_command}
use best_practices.Language.Stack.{stack_ctor}
use best_practices.Language.Execution.Agreement.{Straight, push_number, pop_register, sub, Agrees}
use best_practices.Language.Execution.Programs.{natives, execute_loop-encode_all}
use best_practices.Language.Execution.Overflow.{push_bytes, execute_overflow}
use best_practices.Translator.Parser.Encoding.{little_endian, encode, encode_all, described}
use best_practices.Translator.Parser.Programs.{describe_all}
use best_practices.Translator.Elf.{copied}
use best_practices.Translator.Elf.Appended.{copied-Holds}
use best_practices.Translator.Optimizer.Meaning.{Machine, put_register, run, execute_kind}
use best_practices.Translator.Optimizer.Meaning
use best_practices.Translator.Tests.{int_doubles}

abbrev int_host : Host
int_host = record {
  doubles = int_doubles;
  less = ltb;
  less_equal = leb;
  equal = ◌==◌;
  sqrt = λ v. v;
  sin = λ v. 0;
  cos = λ v. 0;
  abs = λ v. v;
  ceil = λ v. v;
  left_first = true;
}

-- 7 - 5 goes to register 1.
abbrev program : List Straight
program = push_number 10 0 ∷ push_number 14 0 ∷ sub ∷ pop_register 0 1 ∷ []

abbrev loaded : ℕ → List ℕ → Processor
loaded room bytes = record {
  cmds_amount = pos 60;
  cmds = copied bytes 8 (λ j. 0);
  regs = λ n. 0;
  ram = λ n. 0;
  main_stack = stack_ctor room;
  input = [];
  output = [];
}

abbrev start : Machine
start = record { stack = []; registers = λ z. 0 }

abbrev end : Machine
end = record { stack = []; registers = put_register (pos 1) 4 (λ z. 0) }

-- HLT ends the program.
halts : execute 2 int_host (loaded 2 (0 ∷ [])) ≡ ended (loaded 2 (0 ∷ []))
unfolding execute execute_loop process_command execute_instr instr_of byte_at copied stack_ctor
halts = refl

execute_loop-encode_all_example :
    (p' : Processor) × (execute_loop 7 int_host (pos 8) (loaded 2 (encode_all (natives program)))
      ≡ execute_loop 3 int_host (pos 39) p')
    × Agrees p' end
unfolding encode_all encode little_endian stack_ctor describe_all described run int_doubles
    Meaning.execute execute_kind
execute_loop-encode_all_example =
    execute_loop-encode_all int_host (λ c m. none) program 8 3
      (loaded 2 (encode_all (natives program))) start end refl
      (omega arith, (omega arith, (tt, (omega arith, tt))))
      (copied-Holds (encode_all (natives program)) 8 (λ j. 0)) (omega arith) (omega arith)
      (refl, λ n h. refl) (omega arith)
      (omega arith, (omega arith, (omega arith, (omega arith, tt)))) refl

execute_overflow_example :
    execute 5 int_host (loaded 2 (push_bytes 2 0 ++ (push_bytes 4 0 ++ push_bytes 6 0))) ≡ failed
execute_overflow_example =
    execute_overflow int_host (loaded 2 (push_bytes 2 0 ++ (push_bytes 4 0 ++ push_bytes 6 0))) 2 4
      6 0 0 0 2 (omega arith) (omega arith) (omega arith)
      (copied-Holds (push_bytes 2 0 ++ (push_bytes 4 0 ++ push_bytes 6 0)) 8 (λ j. 0)) (omega arith)
