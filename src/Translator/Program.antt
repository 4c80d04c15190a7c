-- ===== src/Translator/Program.antt =====
-- BinaryTranslator-main/src/main.cpp: the parts of the translator in the order in which `main` calls
-- them, up to the x86 code in the buffer.
pub mod Sized
pub mod Correct
use best_practices.Base.{ℕ, Option, none, some, List}
use best_practices.Base.Lists.{length}
use best_practices.Translator.Doubles.{Doubles}
use best_practices.Translator.Parser.{Parsing, parse_on_structs}
use best_practices.Translator.Optimizer.{optimize_cmd_flow}
use best_practices.Translator.Buffer.{Buffer, allocate, translate}

-- `main`, from the bytes of the program to the buffer that `WriteInelf` writes
unfoldable pub compile : Doubles → List ℕ → Option Buffer
unfolding allocate parse_on_structs optimize_cmd_flow translate
compile D content = elim (allocate (length content)) [
  | none ↦ none
  | some b ↦ elim (parse_on_structs content) [
    | none ↦ none
    | some s ↦ elim (optimize_cmd_flow D s.cmds_array) [ none ↦ none | some cs ↦ translate D cs b ]
  ]
]
