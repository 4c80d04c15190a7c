-- ===== src/Translator/Tests.antt =====
-- Concrete runs of the translator of BinaryTranslator-main, for an arithmetic that knows integers only.
pub mod Theorems
use best_practices.Base.{
  ℕ, zero, suc, ◌+◌, ◌-◌, ◌*◌, ◌/◌, ◌%◌, ◌^◌, ◌≡◌, refl, ap, ◌∙◌, true, false, ◌==◌, if◌then◌else◌,
  Option, none, some, List, [], ◌∷◌, ◌++◌, arith,
}
use best_practices.Base.Int.{ℤ, pos, negsuc, ◌+ℤ◌, ◌-ℤ◌, pos_part, neg_part, sub_ℕ}
use best_practices.Base.Lists.{length}
use best_practices.Translator.Commands
use best_practices.Translator.Commands.{Command}
use best_practices.Translator.Doubles.{Doubles, ExactInts, to_uint64}
use best_practices.Translator.Parser.Encoding.{
  little_endian, hlt, add, out, jmp, push, pop, imm, reg, Native, simple, jump, operand, encode,
  encode_all,
}
use best_practices.Translator.Buffer.{Buffer, allocate, translate}
use best_practices.Translator.Optimizer.Nested.{push_imm, plain}

-- The pattern of an integer is twice the number, or one more for a negative one.
abbrev pub int_code : ℤ → ℕ
int_code (pos n) = 2 * n
int_code (negsuc n) = 2 * n + 1

abbrev pub int_of : ℕ → ℤ
int_of n = if n % 2 == 0 then pos (n / 2) else negsuc (n / 2)

-- No test multiplies or divides.
unfoldable pub int_doubles : Doubles
unfolding to_uint64
int_doubles = record {
  of_int = int_code;
  to_int = int_of;
  to_uint32 = λ v. to_uint64 (int_of v) % 2 ^ 32;
  plus = λ a b. int_code (int_of a +ℤ int_of b);
  minus = λ a b. int_code (int_of a -ℤ int_of b);
  times = λ a b. 0;
  over = λ a b. 0;
}

int_of-int_code : (z : ℤ) → int_of (int_code z) ≡ z
int_of-int_code (pos n) =
    let even : (2 * n % 2 == 0) ≡ true = ground arith in
    rw even (ap (λ (t : ℕ). pos t) (omega arith))
int_of-int_code (negsuc n) =
    let odd : ((2 * n + 1) % 2 == 0) ≡ false = ground arith in
    rw odd (ap (λ (t : ℕ). negsuc t) (omega arith))

pub int_doubles-exact : ExactInts int_doubles
unfolding int_doubles
int_doubles-exact = record {
  to_int-of_int = λ z h k. int_of-int_code z;
  minus-of_int = λ a b h k l. rw (int_of-int_code a, int_of-int_code b) refl;
  to_uint32-of_int = λ n h. rw (int_of-int_code (pos n)) (omega arith);
}

-- A program: 5 and 7 are added and the sum goes to a register, and then it jumps over an OUT.
abbrev pub program : List Native
program =
    operand push imm 10 0
    ∷ operand push imm 14 0
    ∷ simple add
    ∷ operand pop reg 0 1
    ∷ jump jmp 100 0
    ∷ simple out
    ∷ simple hlt
    ∷ []

abbrev pub header : List ℕ
header = 0 ∷ 0 ∷ 0 ∷ 0 ∷ 0 ∷ 0 ∷ 0 ∷ 0 ∷ []

-- As many zeros
abbrev pub zeros : ℕ → List ℕ
zeros zero = []
zeros (suc n) = 0 ∷ zeros n

abbrev pub reg_move : Command
reg_move = record (plain Commands.pop) {
  native_size = 10;
  x86_size = 1;
  reg_index = pos 1;
  checksum = 64;
}

-- The commands of the program as the parser leaves them
abbrev pub commands : List Command
commands =
    push_imm 10
    ∷ push_imm 14
    ∷ record (plain Commands.add) { x86_size = 26 }
    ∷ reg_move
    ∷ record (plain Commands.jmp) { native_size = 10; x86_size = 5; value = 100 }
    ∷ record (plain Commands.out) { x86_size = 41 }
    ∷ record (plain Commands.hlt) { x86_size = 7 }
    ∷ []

abbrev pub empty_buffer : Buffer
empty_buffer = record { content = λ j. 0; len = 0 }

-- The code of a command that ends at address 58
abbrev pub full_buffer : Buffer
full_buffer = record { content = λ j. 0; len = 68 }

-- An OUT at address 17, and an IN behind which the code ends
abbrev pub last_out : Command
last_out = record (plain Commands.out) { x86_size = 41; x86_ip = 17 }

abbrev pub last_in : Command
last_in = record (plain Commands.in_cmd) { x86_size = 18; x86_ip = 40 }

-- The jump of the program, at its address
abbrev pub placed_jump : Command
placed_jump = record (plain Commands.jmp) {
  native_size = 10;
  native_ip = 39;
  x86_size = 5;
  x86_ip = 49;
  value = 100;
}
