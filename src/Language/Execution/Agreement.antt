-- ===== src/Language/Execution/Agreement.antt =====
-- The processor of ProgrammingLanguage-main/execution and the meaning that BinaryTranslator-main relies
-- on agree on straight-line programs: both programs read the same bytes.
use native.Mathlib.Nat.{pow-suc}
use best_practices.Base.{
  ℕ, zero, suc, ◌+◌, ◌-◌, ◌/◌, ◌%◌, ◌^◌, ◌≤◌, ◌<◌, ◌≡◌, refl, ap, ◌∙◌, Bool, true, ltb,
  if◌then◌else◌, Option, none, some, List, ◌∷◌, arith, bit_and,
}
use best_practices.Base.Int.{ℤ, pos, negsuc}
use best_practices.Base.Lists.{length}
use best_practices.Language.Stack.{stack_push, stack_pop}
use best_practices.Language.Processor.{
  Host, Instr, instr_of, Processor, goes_on, byte_at, double_bytes, get_arg, reg_arg, set_cell,
  given, Place, nowhere, in_regs, flag, in_ram, exits,
}
use best_practices.Language.Commands.{
  execute_instr, push_value, pop_value, pop_operands, read_place, write_place, do_push, do_pop,
  do_operator,
}
use best_practices.Language.Execution.{process_command}
use best_practices.Translator.Parser.{signed_char}
use best_practices.Translator.Parser.Encoding
use best_practices.Translator.Parser.Encoding.{
  little_endian, Native, simple, operand, encode, encode_all, described,
}
use best_practices.Translator.Buffer.Writes.{Holds}
use best_practices.Translator.Optimizer.Meaning.{Machine}

-- The commands whose meaning is described: a push of a number, a pop to a register, arithmetic
pub data Straight : Type 0 where
  push_number pop_register : (value register : ℕ) → Straight
  add sub mul div : Straight

-- Their form in the byte code
abbrev pub native_of : Straight → Native
native_of (push_number value register) = operand Encoding.push Encoding.imm value register
native_of (pop_register value register) = operand Encoding.pop Encoding.reg value register
native_of add = simple Encoding.add
native_of sub = simple Encoding.sub
native_of mul = simple Encoding.mul
native_of div = simple Encoding.div

-- The number is a 64-bit pattern, and the register one of ten.
abbrev pub FitsStraight : Straight → Type 0
FitsStraight (push_number value register) = value < 2 ^ 64
FitsStraight (pop_register value register) = register < 10
FitsStraight _ = Unit

-- The processor holds the stack and the registers of the machine.
abbrev pub Agrees : Processor → Machine → Type 0
Agrees p m = (p.main_stack.elems ≡ m.stack) × ((n : ℕ) → n < 10 → p.regs n ≡ m.registers (pos n))

-- The rest of the processor that a step keeps
abbrev pub Keeps : Processor → Processor → Type 0
Keeps p p' =
    (p'.cmds ≡ p.cmds)
    × (p'.cmds_amount ≡ p.cmds_amount)
    × (p'.main_stack.capacity ≡ p.main_stack.capacity)

pub byte_at-Holds :
    (p : Processor) (a x : ℕ) (xs : List ℕ)
    → a < 8000
    → Holds a p.cmds (x ∷ xs)
    → byte_at p a ≡ some x
unfolding byte_at
byte_at-Holds p a x xs h holds =
    let inside : ltb a 8000 ≡ true = ground arith in rw inside (ap (λ (t : ℕ). some t) holds.0)

pub double_bytes-Holds :
    (w n a : ℕ) (p : Processor)
    → a + w ≤ 8000
    → n < 256 ^ w
    → Holds a p.cmds (little_endian w n)
    → double_bytes w p a ≡ some n
unfolding double_bytes little_endian
double_bytes-Holds zero n a p h k holds = ap (λ (t : ℕ). some t) (omega arith)
double_bytes-Holds (suc w) n a p h k holds =
    let here = byte_at-Holds p a (n % 256) (little_endian w (n / 256)) (omega arith) holds in
    let later =
      double_bytes-Holds w (n / 256) (a + 1) p (omega arith) (omega (arith, pow-suc 256 w))
        holds.1 in
    rw (double_bytes, here, later) (ap (λ (t : ℕ). some t) (omega arith))

pub process_command_lem :
    (h : Host) (ip cmd : ℕ) (i : Instr) (p : Processor)
    → byte_at p ip ≡ some cmd
    → instr_of (bit_and cmd 31) ≡ some i
    → process_command h ip p ≡ execute_instr h i cmd ip p
unfolding process_command
process_command_lem h ip cmd i p e f =
    ap
      (λ (t : Option ℕ).
        given t λ c. elim (instr_of (bit_and c 31)) [
          | none ↦ exits p
          | some j ↦ execute_instr h j c ip p
        ])
      e
    ∙ ap (λ (t : Option Instr). elim t [ none ↦ exits p | some j ↦ execute_instr h j cmd ip p ]) f

-- Arithmetic, on a stack of two elements or more
pub do_operator_lem :
    (h : Host) (f : ℕ → ℕ → ℕ) (ip x y : ℕ) (rest : List ℕ) (p : Processor)
    → h.left_first ≡ true
    → p.main_stack.elems ≡ x ∷ y ∷ rest
    → length rest < p.main_stack.capacity
    → do_operator h f ip p
      ≡ goes_on (record p { main_stack = record (p.main_stack) { elems = f x y ∷ rest } }) (pos ip)
unfolding do_operator pop_operands pop_value stack_pop push_value stack_push
do_operator_lem h f ip x y rest p left s room =
    let fits : ltb (length rest) p.main_stack.capacity ≡ true = ground arith in
    rw (do_operator, s, left, fits) refl

-- A push of a number: the flags of the first byte are those of a number.
pub get_arg-number :
    (h : Host) (ip v r : ℕ) (p : Processor)
    → byte_at p (ip + 9) ≡ some r
    → double_bytes 8 p (ip + 1) ≡ some v
    → get_arg h 33 ip p ≡ some (nowhere, v)
unfolding get_arg reg_arg
get_arg-number h ip v r p e f = rw (get_arg, e, f) refl

reg_arg-alone :
    (h : Host) (r v : ℕ) (p : Processor)
    → r < 10
    → reg_arg h 70 (pos r) v p ≡ some (in_regs r, p.regs r)
unfolding reg_arg
reg_arg-alone h r v p small = let one : ltb r 10 ≡ true = ground arith in rw (reg_arg, one) refl

get_arg-register :
    (h : Host) (ip r : ℕ) (p : Processor)
    → byte_at p (ip + 9) ≡ some r
    → r < 10
    → get_arg h 70 ip p ≡ some (in_regs r, p.regs r)
unfolding get_arg
get_arg-register h ip r p e small =
    let low : ltb r 128 ≡ true = ground arith in
    let number : signed_char r ≡ pos r =
      ap (λ (b : Bool). if b then pos r else negsuc (255 - r)) low in
    let arg : reg_arg h 70 (signed_char r) 0 p ≡ some (in_regs r, p.regs r) =
      ap (λ (z : ℤ). reg_arg h 70 z 0 p) number ∙ reg_arg-alone h r 0 p small in
    rw (get_arg, e)
      (ap
        (λ (t : Option (Place × ℕ)). elim t [
          | none ↦ none
          | some (place, v) ↦ some (if flag 70 128 then in_ram (h.doubles.to_int v) else place, v)
        ])
        arg)

-- What the code of each command does, on a stack with room
pub do_push-number :
    (h : Host) (ip v r : ℕ) (p : Processor)
    → byte_at p (ip + 9) ≡ some r
    → double_bytes 8 p (ip + 1) ≡ some v
    → length p.main_stack.elems < p.main_stack.capacity
    → do_push h 33 ip p
      ≡ goes_on
          (record p { main_stack = record (p.main_stack) { elems = v ∷ p.main_stack.elems } })
          (pos (ip + 9))
unfolding do_push read_place push_value stack_push
do_push-number h ip v r p e f room =
    let fits : ltb (length p.main_stack.elems) p.main_stack.capacity ≡ true = ground arith in
    rw (do_push, get_arg-number h ip v r p e f, fits) refl

pub do_pop-register :
    (h : Host) (ip r v : ℕ) (rest : List ℕ) (p : Processor)
    → byte_at p (ip + 9) ≡ some r
    → r < 10
    → p.main_stack.elems ≡ v ∷ rest
    → do_pop h 70 ip p
      ≡ goes_on
          (record p {
            main_stack = record (p.main_stack) { elems = rest };
            regs = set_cell r v p.regs;
          })
          (pos (ip + 9))
unfolding do_pop pop_value stack_pop write_place
do_pop-register h ip r v rest p e small s = rw (do_pop, get_arg-register h ip r p e small, s) refl
