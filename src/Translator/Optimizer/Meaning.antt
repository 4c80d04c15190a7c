-- ===== src/Translator/Optimizer/Meaning.antt =====
-- What straight-line commands of the stack machine compute, described without the optimizer of
-- BinaryTranslator-main/src/optimizer.cpp: the arithmetic takes its first operand from the top of the
-- stack, as the code in src/translation.cpp does.
use best_practices.Base.{
  ℕ, Bool, true, false, ◌==◌, if◌then◌else◌, Option, none, some, List, [], ◌∷◌,
}
use best_practices.Base.Int.{ℤ, pos, negsuc}
use best_practices.Translator.Commands.{
  CommandName, push, mul, add, sub, div, pop, mov_reg_num_cmd, Command, imm, reg,
}
use best_practices.Translator.Doubles.{Doubles}

pub record Machine : Type 0 where
  pub stack : List ℕ
  pub registers : ℤ → ℕ

-- Whether two register numbers are the same
abbrev pub same_register : ℤ → ℤ → Bool
same_register (pos m) (pos n) = m == n
same_register (negsuc m) (negsuc n) = m == n
same_register (pos m) (negsuc n) = false
same_register (negsuc m) (pos n) = false

abbrev pub put_register : ℤ → ℕ → (ℤ → ℕ) → ℤ → ℕ
put_register r v registers i = if same_register i r then v else registers i

-- The value on the top of the stack goes to a register.
abbrev pub pop_to : ℤ → Machine → Option Machine
pop_to r m = elim m.stack [
  | [] ↦ none
  | v ∷ rest ↦ some (record { stack = rest; registers = put_register r v m.registers })
]

-- The two values on the top of the stack are replaced by the result.
abbrev pub replace_two : (ℕ → ℕ → ℕ) → Machine → Option Machine
replace_two f m = elim m.stack [
  | [] ↦ none
  | a ∷ rest ↦ elim rest [ [] ↦ none | b ∷ below ↦ some (record m { stack = f a b ∷ below }) ]
]

-- One command: `other` is what every command does that is not a push of a number, a pop to a register,
-- arithmetic or a move of a number to a register.
module _ (D : Doubles) (other : Command → Machine → Option Machine) where
  unfoldable pub execute_kind : CommandName → Command → Machine → Option Machine
  execute_kind push c m =
      if c.checksum == imm then some (record m { stack = c.value ∷ m.stack }) else other c m
  execute_kind pop c m = if c.checksum == reg then pop_to c.reg_index m else other c m
  execute_kind add c m = replace_two D.plus m
  execute_kind sub c m = replace_two D.minus m
  execute_kind mul c m = replace_two D.times m
  execute_kind div c m = replace_two D.over m
  execute_kind mov_reg_num_cmd c m =
      some (record m { registers = put_register c.reg_index c.value m.registers })
  execute_kind _ c m = other c m

  -- A command, unless it is skipped
  unfoldable pub execute : Command → Machine → Option Machine
  unfolding execute_kind
  execute c m = elim c.is_skip [ true ↦ some m | false ↦ execute_kind c.name c m ]

  -- The commands in order
  unfoldable pub run : List Command → Machine → Option Machine
  unfolding execute
  run [] m = some m
  run (c ∷ cs) m = elim (execute c m) [ none ↦ none | some m' ↦ run cs m' ]
