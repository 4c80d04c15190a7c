-- ===== src/Translator/Optimizer.antt =====
-- BinaryTranslator-main/src/optimizer.cpp: commands are merged, and those that are merged into
-- another are marked as skipped. An index outside the array, which C++ leaves undefined, is `none`.
pub mod Arrays
pub mod Rewrites
pub mod Meaning
pub mod Folding
pub mod Nested
pub mod Preservation
use best_practices.Base.{
  ℕ, zero, suc, ◌+◌, ◌-◌, Bool, true, false, ◌==◌, leb, if◌then◌else◌, ◌&&◌, Option, none, some,
  List,
}
use best_practices.Base.Int.{ℤ, pos}
use best_practices.Base.Lists.{length, get_elem?, set}
use best_practices.Translator.Commands.{
  CommandName, push, mul, add, sub, div, pop, mov_reg_num_cmd, Command, imm, reg,
}
use best_practices.Translator.Doubles.{Doubles}
use best_practices.Translator.Parser.{is_push, is_pop}

-- The array of commands
abbrev pub Commands : Type 0
Commands = List Command

-- A step that may leave the array
abbrev pub try {ℓ} : {A : Type ℓ} → Option A → (A → Option Commands) → Option Commands
try none f = none
try (some a) f = f a

-- `cmds_array[index - k]`
abbrev pub before : ℕ → ℕ → Commands → Option Command
before k index cs = if leb k index then get_elem? cs (index - k) else none

-- Whether the name is ADD, SUB, MUL or DIV
unfoldable pub is_arithmetic : CommandName → Bool
is_arithmetic add = true
is_arithmetic sub = true
is_arithmetic mul = true
is_arithmetic div = true
is_arithmetic _ = false

-- The operation of a name on doubles, and the number 0 for any other
unfoldable pub apply : Doubles → CommandName → ℕ → ℕ → Option ℕ
apply D add a b = some (D.plus a b)
apply D sub a b = some (D.minus a b)
apply D mul a b = some (D.times a b)
apply D div a b = some (D.over a b)
apply D _ a b = none

-- The `switch` of `HandleConstantCalculation`: the result is an `int`.
unfoldable pub result_value : Doubles → CommandName → ℕ → ℕ → ℤ
unfolding apply
result_value D name a b = elim (apply D name a b) [ none ↦ pos 0 | some r ↦ D.to_int r ]

-- The operation that becomes the push of its result
unfoldable pub folded : Doubles → Command → Command → Command → Command
unfolding result_value
folded D operation member1 member2 = record operation {
  value = D.of_int (result_value D operation.name member1.value member2.value);
  native_size = operation.native_size + (member1.native_size + member2.native_size);
  name = push;
  checksum = imm;
  x86_size = 11;
}

-- `HandleConstantCalculation`
unfoldable pub handle_constant_calculation : Doubles → ℕ → Commands → Option Commands
unfolding folded
handle_constant_calculation D cmd_indx cs = try (get_elem? cs cmd_indx) λ operation.
    try (before 1 cmd_indx cs) λ member1. try (before 2 cmd_indx cs) λ member2.
      if (member1.checksum == imm) && (member2.checksum == imm)
      then some (
          set
            (set (set cs cmd_indx (folded D operation member1 member2)) (cmd_indx - 1)
              (record member1 { is_skip = true }))
            (cmd_indx - 2) (record member2 { is_skip = true }))
      else some cs

-- `OptimizeMovRegNum`
unfoldable pub optimize_mov_reg_num : ℕ → Command → Command
optimize_mov_reg_num num_to_mov cur_cmd = record cur_cmd {
  name = mov_reg_num_cmd;
  x86_size = 2 + 8;
  value = num_to_mov;
}

-- `HandleImmStorage`
unfoldable pub handle_imm_storage : ℕ → Commands → Option Commands
unfolding optimize_mov_reg_num is_pop
handle_imm_storage cmd_indx cs = try (get_elem? cs cmd_indx) λ stored.
    try (get_elem? cs (suc cmd_indx)) λ storage.
      let mov = optimize_mov_reg_num stored.value storage in
      if is_pop storage.name && (storage.checksum == reg)
      then some (
          set (set cs cmd_indx (record stored { is_skip = true })) (suc cmd_indx)
            (record mov { native_size = storage.native_size + stored.native_size }))
      else some cs

-- The two attempts in the loop of `OptimizeCmdFlow`
unfoldable pub attempt_storage : ℕ → Commands → Option Commands
unfolding handle_imm_storage is_push
attempt_storage i cs = try (get_elem? cs i) λ cur_cmd.
    if (cur_cmd.checksum == imm) && is_push cur_cmd.name then handle_imm_storage i cs else some cs

unfoldable pub attempt_arithmetic : Doubles → ℕ → Commands → Option Commands
unfolding handle_constant_calculation is_arithmetic
attempt_arithmetic D i cs =
    try (get_elem? cs i)
      λ cur_cmd. if is_arithmetic cur_cmd.name then handle_constant_calculation D i cs else some cs

-- The loop of `OptimizeCmdFlow`, from command `i`, for the rounds that are left
unfoldable pub optimize_from : Doubles → ℕ → ℕ → Commands → Option Commands
unfolding attempt_storage attempt_arithmetic
optimize_from D zero i cs = some cs
optimize_from D (suc rounds) i cs =
    try (attempt_storage i cs)
      λ cs1. try (attempt_arithmetic D i cs1) λ cs2. optimize_from D rounds (suc i) cs2

-- `OptimizeCmdFlow`
unfoldable pub optimize_cmd_flow : Doubles → Commands → Option Commands
unfolding optimize_from
optimize_cmd_flow D cs = optimize_from D (length cs - 1) 0 cs
