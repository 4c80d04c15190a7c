-- ===== src/Translator/Parser/Encoding.antt =====
-- The format of a program for the stack machine, described without the parser of
-- BinaryTranslator-main/src/parser.cpp: what its bytes are, and what commands they stand for.
use best_practices.Base.{ℕ, zero, suc, ◌+◌, ◌/◌, ◌%◌, ◌^◌, ◌<◌, List, [], ◌∷◌, ◌++◌}
use best_practices.Translator.Commands
use best_practices.Translator.Commands.{CommandName, Command, new_command, x86_size_of}
use best_practices.Translator.Parser.{signed_char}

-- `n` in `w` bytes
unfoldable pub little_endian : ℕ → ℕ → List ℕ
little_endian zero n = []
little_endian (suc w) n = n % 256 ∷ little_endian w (n / 256)

-- The commands that take no operand, those that jump, and the two with an operand.
pub data SimpleName : Type 0 where
  hlt mul add sub div out in_cmd ret sqr : SimpleName

pub data JumpName : Type 0 where
  jmp jg jge ja jae je jne call : JumpName

pub data OperandName : Type 0 where
  push pop : OperandName

pub data Variation : Type 0 where
  void imm reg ram imm_reg imm_ram reg_ram imm_reg_ram : Variation

-- The flags in the first byte
abbrev pub flags_of : Variation → ℕ
flags_of void = 0
flags_of imm = 32
flags_of reg = 64
flags_of ram = 128
flags_of imm_reg = 96
flags_of imm_ram = 160
flags_of reg_ram = 192
flags_of imm_reg_ram = 224

abbrev pub simple_id : SimpleName → ℕ
simple_id hlt = 0
simple_id mul = 2
simple_id add = 3
simple_id sub = 4
simple_id div = 5
simple_id out = 7
simple_id in_cmd = 16
simple_id ret = 18
simple_id sqr = 19

abbrev pub jump_id : JumpName → ℕ
jump_id jmp = 9
jump_id jg = 10
jump_id jge = 11
jump_id ja = 12
jump_id jae = 13
jump_id je = 14
jump_id jne = 15
jump_id call = 17

abbrev pub operand_id : OperandName → ℕ
operand_id push = 1
operand_id pop = 6

-- A command of a program: a jump holds its target and a byte that means nothing, the others their
-- value and the byte of their register.
pub data Native : Type 0 where
  simple : SimpleName → Native
  jump : JumpName → (target padding : ℕ) → Native
  operand : OperandName → Variation → (value register : ℕ) → Native

-- Its bytes
unfoldable pub encode : Native → List ℕ
unfolding little_endian
encode (simple name) = simple_id name ∷ []
encode (jump name target padding) = jump_id name ∷ (little_endian 8 target ++ (padding ∷ []))
encode (operand name variation value register) =
    (operand_id name + flags_of variation) ∷ (little_endian 8 value ++ (register ∷ []))

unfoldable pub encode_all : List Native → List ℕ
unfolding encode
encode_all [] = []
encode_all (c ∷ cs) = encode c ++ encode_all cs

-- The values are 64-bit patterns.
abbrev pub FitsNative : Native → Type 0
FitsNative (simple name) = Unit
FitsNative (jump name target padding) = target < 2 ^ 64
FitsNative (operand name variation value register) = value < 2 ^ 64

abbrev pub simple_name : SimpleName → CommandName
simple_name hlt = Commands.hlt
simple_name mul = Commands.mul
simple_name add = Commands.add
simple_name sub = Commands.sub
simple_name div = Commands.div
simple_name out = Commands.out
simple_name in_cmd = Commands.in_cmd
simple_name ret = Commands.ret
simple_name sqr = Commands.sqr

abbrev pub jump_name : JumpName → CommandName
jump_name jmp = Commands.jmp
jump_name jg = Commands.jg
jump_name jge = Commands.jge
jump_name ja = Commands.ja
jump_name jae = Commands.jae
jump_name je = Commands.je
jump_name jne = Commands.jne
jump_name call = Commands.call

abbrev pub operand_name : OperandName → CommandName
operand_name push = Commands.push
operand_name pop = Commands.pop

-- The size of the x86 code of a push or a pop; a variation that has no code has size 0.
abbrev pub operand_size : OperandName → Variation → ℕ
operand_size push imm = 11
operand_size pop imm = 1
operand_size name reg = 1
operand_size name imm_ram = 8
operand_size name reg_ram = 34
operand_size name imm_reg_ram = 34
operand_size name void = 0
operand_size name ram = 0
operand_size name imm_reg = 0

-- The command that it stands for
unfoldable pub described : Native → Command
unfolding x86_size_of
described (simple name) = record new_command {
  name = simple_name name;
  native_size = 1;
  x86_size = x86_size_of (simple_name name);
}
described (jump name target padding) = record new_command {
  name = jump_name name;
  native_size = 10;
  x86_size = x86_size_of (jump_name name);
  value = target;
}
described (operand name variation value register) = record new_command {
  name = operand_name name;
  native_size = 10;
  x86_size = operand_size name variation;
  reg_index = signed_char register;
  value = value;
  checksum = flags_of variation;
}
