-- ===== src/Translator/Tests/Theorems.antt =====
-- The theorems about the translator at concrete inputs.
use best_practices.Base.{ℕ, ◌+◌, ◌%◌, ◌^◌, ◌≡◌, ◌≢◌, refl, inl, some, List, [], ◌∷◌, ◌++◌, arith}
use best_practices.Base.Lists.{length, All}
use best_practices.Translator.Commands
use best_practices.Translator.Commands.{Command, x86_size_of, case_of, native_size_of, is_jump}
use best_practices.Translator.Parser.{parse_on_structs}
use best_practices.Translator.Parser.Encoding.{little_endian, encode, encode_all, described}
use best_practices.Translator.Parser.Programs.{describe_all, parse_on_structs-encode_all}
use best_practices.Translator.Addresses.{
  fill_cmd_ip, find_jump_ip, fill_jump_label, fill_jump_labels,
}
use best_practices.Translator.Addresses.Labels.{IsFound, fill_cmd_ip-IsFound}
use best_practices.Translator.Units.{translate_cmd, translate_out, translate_in}
use best_practices.Translator.Units.Sizes.{emitted_size, variation_size}
use best_practices.Translator.Units.Jumps.{EndsWithPtr, translate_cmd-target}
use best_practices.Translator.Units.Calls.{CallsTo}
use best_practices.Translator.Buffer.{Buffer, prologue, translate}
use best_practices.Translator.Buffer.Writes.{bytes_of_all, Holds, AgreeBelow}
use best_practices.Translator.Buffer.Placement.{Placed}
use best_practices.Translator.Buffer.Layout.{translate-Placed}
use best_practices.Translator.Optimizer.{
  Commands, apply, is_arithmetic, handle_constant_calculation, optimize_cmd_flow,
}
use best_practices.Translator.Optimizer.Arrays.{IsSized, PlainAt}
use best_practices.Translator.Optimizer.Rewrites.{operands}
use best_practices.Translator.Optimizer.Meaning.{Machine, run}
use best_practices.Translator.Optimizer.Folding.{run-handle_constant_calculation}
use best_practices.Translator.Optimizer.Preservation.{optimize_cmd_flow-All}
use best_practices.Translator.Optimizer.Nested.{
  push_imm, plain, Operation, nested, idle, run-optimize_cmd_flow-nested,
}
use best_practices.Translator.Program.{compile}
use best_practices.Translator.Program.Correct.{compile-Placed}
use best_practices.Translator.Elf.{Executable, write_in_elf}
use best_practices.Translator.Elf.Appended.{write_in_elf-CallsTo}
use best_practices.Translator.Tests.{
  int_doubles, int_doubles-exact, program, header, zeros, commands, empty_buffer, full_buffer,
  last_out, last_in, reg_move, placed_jump,
}

parse_on_structs-encode_all_example :
    parse_on_structs (header ++ (encode_all program ++ (28 ∷ [])))
    ≡ some (record {
      cmds_array = describe_all program;
      native_ip_counter = 8 + length (encode_all program);
    })
unfolding case_of
parse_on_structs-encode_all_example =
    parse_on_structs-encode_all header program 28 [] refl
      (omega arith, (omega arith, (tt, (omega arith, (omega arith, (tt, (tt, tt))))))) refl

sized : All IsSized commands
unfolding emitted_size variation_size x86_size_of
sized = (refl, (refl, (refl, (refl, (refl, (refl, (refl, tt)))))))

translate-Placed_example :
    (b' : Buffer) × (translate int_doubles commands empty_buffer ≡ some b')
    × (b'.len ≡ 10 + (fill_cmd_ip commands).x86_ip_counter)
    × Holds 0 b'.content (bytes_of_all prologue)
    × All
        (Placed int_doubles (fill_cmd_ip commands).x86_ip_counter b'.content)
        (fill_jump_labels int_doubles (fill_cmd_ip commands).cmds_array)
unfolding fill_cmd_ip
translate-Placed_example =
    translate-Placed int_doubles commands empty_buffer sized refl (omega arith)

fill_cmd_ip-IsFound_example :
    All (IsFound (fill_cmd_ip commands).cmds_array) (fill_cmd_ip commands).cmds_array
fill_cmd_ip-IsFound_example = fill_cmd_ip-IsFound commands (
  (refl, omega arith),
  (
    (refl, omega arith),
    (
      (refl, omega arith),
      (
        (refl, omega arith),
        ((refl, omega arith), ((refl, omega arith), ((refl, omega arith), tt))),
      ),
    ),
  ),
)

translate_cmd-target_example :
    (rel : ℕ) × EndsWithPtr
      (translate_cmd int_doubles 102
        (fill_jump_label int_doubles (fill_cmd_ip commands).cmds_array placed_jump))
      rel
    × ((49 + 5 + rel) % 2 ^ 32 ≡ 95)
unfolding is_jump emitted_size x86_size_of find_jump_ip fill_cmd_ip int_doubles
translate_cmd-target_example =
    translate_cmd-target int_doubles int_doubles-exact 102 (fill_cmd_ip commands).cmds_array
      placed_jump 95 refl refl refl (omega arith) (omega arith) (inl (omega arith))

optimize_cmd_flow-All_example :
    (cs' : Commands) × (optimize_cmd_flow int_doubles commands ≡ some cs')
    × (length cs' ≡ 7)
    × All IsSized cs'
unfolding PlainAt is_arithmetic
optimize_cmd_flow-All_example = optimize_cmd_flow-All int_doubles commands sized refl refl

run-handle_constant_calculation_example :
    (cs : Commands) × (handle_constant_calculation int_doubles 2
        (operands int_doubles [] (reg_move ∷ []) (push_imm 10) (push_imm 14) (plain Commands.add))
      ≡ some cs)
    × ((m : Machine)
        → run int_doubles idle cs m
          ≡ run int_doubles idle
              (operands int_doubles []
                (reg_move ∷ [])
                (push_imm 10)
                (push_imm 14)
                (plain Commands.add))
              m)
unfolding apply int_doubles
run-handle_constant_calculation_example =
    run-handle_constant_calculation int_doubles idle [] (reg_move ∷ []) (push_imm 10) (push_imm 14)
      (plain Commands.add) 24 (refl, refl, refl) (refl, refl, refl) refl refl refl

-- 3 + 2 - 1 is 4, and the optimized commands leave 2 above 1.
abbrev sum_less : List Command
sum_less = describe_all (nested Operation.add Operation.sub 2 4 6)

abbrev no_values : Machine
no_values = record { stack = []; registers = λ r. 0 }

run-optimize_cmd_flow-nested_example :
    (cs : Commands) × (optimize_cmd_flow int_doubles sum_less ≡ some cs)
    × (run int_doubles idle sum_less no_values ≡ some (record no_values { stack = 8 ∷ [] }))
    × (run int_doubles idle cs no_values ≡ some (record no_values { stack = 4 ∷ 2 ∷ [] }))
    × (run int_doubles idle cs no_values ≢ run int_doubles idle sum_less no_values)
unfolding int_doubles
run-optimize_cmd_flow-nested_example =
    run-optimize_cmd_flow-nested int_doubles Operation.add Operation.sub 2 4 6 no_values

compile-Placed_example :
    (optimized : List Command) × (b : Buffer) × (optimize_cmd_flow int_doubles
        (describe_all program)
      ≡ some optimized)
    × (compile int_doubles (header ++ (encode_all program ++ (28 ∷ []))) ≡ some b)
    × (b.len ≡ 10 + (fill_cmd_ip optimized).x86_ip_counter)
    × All
        (Placed int_doubles (fill_cmd_ip optimized).x86_ip_counter b.content)
        (fill_jump_labels int_doubles (fill_cmd_ip optimized).cmds_array)
unfolding case_of PlainAt is_arithmetic describe_all described encode_all encode little_endian
compile-Placed_example =
    compile-Placed int_doubles header program 28 [] refl
      (omega arith, (omega arith, (tt, (omega arith, (omega arith, (tt, (tt, tt)))))))
      (refl, (refl, (refl, (refl, (refl, (refl, (refl, tt))))))) refl refl refl (omega arith)
      (omega arith)

write_in_elf-CallsTo_example :
    (e : Executable) × (printf_ip scanf_ip : ℕ) × (write_in_elf (zeros 219) (1 ∷ 2 ∷ []) full_buffer
      ≡ some e)
    × AgreeBelow 68 full_buffer.content e.code.content
    × CallsTo 17 (translate_out 58 last_out) printf_ip
    × Holds (10 + printf_ip) e.code.content (zeros 219)
    × CallsTo 40 (translate_in 58 last_in) scanf_ip
    × Holds (10 + scanf_ip) e.code.content (1 ∷ 2 ∷ [])
write_in_elf-CallsTo_example =
    write_in_elf-CallsTo (zeros 219) (1 ∷ 2 ∷ []) full_buffer 58 last_out last_in refl (omega arith)
      refl (omega arith) (omega arith) (omega arith)
