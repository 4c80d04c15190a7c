-- ===== src/Translator/Commands.antt =====
-- BinaryTranslator-main/include/parser.h and codegen/cmds.h: the commands of the stack machine, with
-- their sizes there and in x86 code.
use best_practices.Base.{ℕ, zero, suc, Bool, true, false, Option, none, some, List, [], ◌∷◌}
use best_practices.Base.Int.{ℤ, pos}

-- `EnumCommands`, less the markers `NONE` and `END`, which no command has.
pub data CommandName : Type 0 where
  hlt push mul add sub div pop out jmp jg jge ja jae je jne in_cmd call ret sqr : CommandName
  mov_reg_num_cmd : CommandName

-- `InstrSizes[name].native_size`
unfoldable pub native_size_of : CommandName → ℕ
native_size_of hlt = 1
native_size_of push = 10
native_size_of mul = 1
native_size_of add = 1
native_size_of sub = 1
native_size_of div = 1
native_size_of pop = 10
native_size_of out = 1
native_size_of jmp = 10
native_size_of jg = 10
native_size_of jge = 10
native_size_of ja = 10
native_size_of jae = 10
native_size_of je = 10
native_size_of jne = 10
native_size_of in_cmd = 1
native_size_of call = 10
native_size_of ret = 1
native_size_of sqr = 1
native_size_of mov_reg_num_cmd = 0

-- `InstrSizes[name].x86_size`
unfoldable pub x86_size_of : CommandName → ℕ
x86_size_of hlt = 7
x86_size_of push = 1
x86_size_of mul = 26
x86_size_of add = 26
x86_size_of sub = 26
x86_size_of div = 26
x86_size_of pop = 1
x86_size_of out = 41
x86_size_of jmp = 5
x86_size_of jg = 26
x86_size_of jge = 26
x86_size_of ja = 26
x86_size_of jae = 26
x86_size_of je = 26
x86_size_of jne = 26
x86_size_of in_cmd = 18
x86_size_of call = 5
x86_size_of ret = 1
x86_size_of sqr = 16
x86_size_of mov_reg_num_cmd = 0

-- The commands by their ids in cmds.h.
abbrev pub commands_by_id : List (Option CommandName)
commands_by_id =
    some hlt
    ∷ some push
    ∷ some mul
    ∷ some add
    ∷ some sub
    ∷ some div
    ∷ some pop
    ∷ some out
    ∷ none
    ∷ some jmp
    ∷ some jg
    ∷ some jge
    ∷ some ja
    ∷ some jae
    ∷ some je
    ∷ some jne
    ∷ some in_cmd
    ∷ some call
    ∷ some ret
    ∷ some sqr
    ∷ []

-- The case that the `switch` of `CmdToStruct` takes: `none` for `END` and for the default.
unfoldable pub case_of : ℕ → List (Option CommandName) → Option CommandName
case_of n [] = none
case_of zero (c ∷ cs) = c
case_of (suc n) (c ∷ cs) = case_of n cs

-- `IsJump`
unfoldable pub is_jump : CommandName → Bool
is_jump jmp = true
is_jump jg = true
is_jump jge = true
is_jump ja = true
is_jump jae = true
is_jump je = true
is_jump jne = true
is_jump call = true
is_jump _ = false

-- `Command`: a double is its 64-bit pattern.
pub record Command : Type 0 where
  pub name : CommandName
  pub native_size : ℕ
  pub native_ip : ℕ
  pub x86_size : ℕ
  pub x86_ip : ℕ
  pub reg_index : ℤ
  pub value : ℕ
  pub checksum : ℕ
  pub is_skip : Bool

-- `calloc (1, sizeof (Command))`
abbrev pub new_command : Command
new_command = record {
  name = hlt;
  native_size = 0;
  native_ip = 0;
  x86_size = 0;
  x86_ip = 0;
  reg_index = pos 0;
  value = 0;
  checksum = 0;
  is_skip = false;
}

-- `PushPopVariations`
abbrev pub imm : ℕ
imm = 32

abbrev pub reg : ℕ
reg = 64

abbrev pub ram : ℕ
ram = 128

abbrev pub header_offset : ℕ
header_offset = 8
