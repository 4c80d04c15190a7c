-- ===== src/Language/Execution/Straight.antt =====
-- Straight-line programs on the processor of ProgrammingLanguage-main/execution, from one command to
-- the next.
use best_practices.Base.{
  ℕ, suc, ◌+◌, ◌-◌, ◌≤◌, ◌≡◌, refl, ap, subst, ◌∙◌, Bool, true, false, ltb, leb, if◌then◌else◌,
  Option, some, List, [], ◌∷◌, arith,
}
use best_practices.Base.Int.{ℤ, pos, negsuc, ◌+ℤ◌, ltb_ℤ}
use best_practices.Base.Lists.{length}
use best_practices.Language.Processor.{
  Host, instr_of, Instr, Processor, Step, goes_on, exits, undefined,
}
use best_practices.Language.Commands.{execute_instr}
use best_practices.Language.Execution.{process_command, execute_loop, Ending, ended, failed}
use best_practices.Language.Execution.Agreement.{
  Straight, push_number, pop_register, add, sub, mul, div, native_of, FitsStraight, Agrees,
  byte_at-Holds,
}
use best_practices.Language.Execution.Runs.{Arrives, operator_Arrives, push_Arrives, pop_Arrives}
use best_practices.Translator.Parser.{signed_char}
use best_practices.Translator.Parser.Encoding.{little_endian, encode, described}
use best_practices.Translator.Buffer.Writes.{Holds}
use best_practices.Translator.Commands.{Command}
use best_practices.Translator.Doubles.{Doubles}
use best_practices.Translator.Optimizer.Meaning.{
  Machine, put_register, pop_to, replace_two, execute, execute_kind,
}

-- The bytes of the operand
abbrev pub operand_size : Straight → ℕ
operand_size (push_number value register) = 9
operand_size (pop_register value register) = 9
operand_size _ = 0

-- The values on the stack after a command, which finds `depth` of them
abbrev pub depth_after : Straight → ℕ → ℕ
depth_after (push_number value register) depth = suc depth
depth_after _ depth = depth - 1

-- The stack has room for what each command leaves on it.
abbrev pub HasRoom : ℕ → ℕ → List Straight → Type 0
HasRoom capacity depth [] = Unit
HasRoom capacity depth (c ∷ cs) =
    (depth_after c depth ≤ capacity) × HasRoom capacity (depth_after c depth) cs

replace_two_depth :
    (f : ℕ → ℕ → ℕ) (stack : List ℕ) (registers : ℤ → ℕ) (m' : Machine)
    → replace_two f (record { stack = stack; registers = registers }) ≡ some m'
    → length m'.stack ≡ length stack - 1
replace_two_depth f [] registers m' e = absurd (cc)
replace_two_depth f (x ∷ []) registers m' e = absurd (cc)
replace_two_depth f (x ∷ y ∷ rest) registers m' e =
    let end : Machine = record { stack = f x y ∷ rest; registers = registers } in
    let same : end ≡ m' = cc in
    subst (λ (t : Machine). length t.stack ≡ length (x ∷ y ∷ rest) - 1) same (omega arith)

pop_to_depth :
    (r : ℤ) (stack : List ℕ) (registers : ℤ → ℕ) (m' : Machine)
    → pop_to r (record { stack = stack; registers = registers }) ≡ some m'
    → length m'.stack ≡ length stack - 1
pop_to_depth r [] registers m' e = absurd (cc)
pop_to_depth r (x ∷ rest) registers m' e =
    let end : Machine = record { stack = rest; registers = put_register r x registers } in
    let same : end ≡ m' = cc in
    subst (λ (t : Machine). length t.stack ≡ length (x ∷ rest) - 1) same (omega arith)

-- A command that can be carried out leaves as many values as `depth_after` says.
pub length-execute :
    (D : Doubles) (other : Command → Machine → Option Machine) (c : Straight) (m m' : Machine)
    → execute D other (described (native_of c)) m ≡ some m'
    → length m'.stack ≡ depth_after c (length m.stack)
unfolding described execute execute_kind
length-execute D other (push_number v r) m m' e =
    let same : record m { stack = v ∷ m.stack } ≡ m' = cc in
    subst (λ (t : Machine). length t.stack ≡ suc (length m.stack)) same refl
length-execute D other (pop_register v r) m m' e = pop_to_depth _ m.stack m.registers m' e
length-execute D other add m m' e = replace_two_depth _ m.stack m.registers m' e
length-execute D other sub m m' e = replace_two_depth _ m.stack m.registers m' e
length-execute D other mul m m' e = replace_two_depth _ m.stack m.registers m' e
length-execute D other div m m' e = replace_two_depth _ m.stack m.registers m' e

module _ (h : Host) (other : Command → Machine → Option Machine) (left : h.left_first ≡ true) where
  pub step_Arrives :
      (c : Straight) (ip : ℕ) (p : Processor) (m m' : Machine)
      → FitsStraight c
      → ip + suc (operand_size c) ≤ 8000
      → Holds ip p.cmds (encode (native_of c))
      → Agrees p m
      → length m.stack ≤ p.main_stack.capacity
      → depth_after c (length m.stack) ≤ p.main_stack.capacity
      → execute h.doubles other (described (native_of c)) m ≡ some m'
      → Arrives h ip (operand_size c) p m m'
  unfolding encode described execute execute_kind instr_of execute_instr
  step_Arrives (push_number v r) ip p m m' fits inside holds agrees full room result =
      let same : record m { stack = v ∷ m.stack } ≡ m' = cc in
      subst (Arrives h ip 9 p m) same
        (push_Arrives h v r ip p m fits (omega arith) holds agrees (omega arith))
  step_Arrives (pop_register v r) ip p m m' small inside holds agrees full room result =
      let low : ltb r 128 ≡ true = ground arith in
      let number : signed_char r ≡ pos r =
        ap (λ (b : Bool). if b then pos r else negsuc (255 - r)) low in
      let popped = subst (λ (z : ℤ). pop_to z m ≡ some m') number result in
      pop_Arrives h v r ip p m.stack m.registers m' small (omega arith) holds agrees popped
  step_Arrives add ip p m m' fits inside holds agrees full room result =
      operator_Arrives h left h.doubles.plus Instr.add 3 ip p m.stack m.registers m'
        (byte_at-Holds p ip 3 [] (omega arith) holds) refl refl agrees (omega arith) result
  step_Arrives sub ip p m m' fits inside holds agrees full room result =
      operator_Arrives h left h.doubles.minus Instr.sub 4 ip p m.stack m.registers m'
        (byte_at-Holds p ip 4 [] (omega arith) holds) refl refl agrees (omega arith) result
  step_Arrives mul ip p m m' fits inside holds agrees full room result =
      operator_Arrives h left h.doubles.times Instr.mul 2 ip p m.stack m.registers m'
        (byte_at-Holds p ip 2 [] (omega arith) holds) refl refl agrees (omega arith) result
  step_Arrives div ip p m m' fits inside holds agrees full room result =
      operator_Arrives h left h.doubles.over Instr.div 5 ip p m.stack m.registers m'
        (byte_at-Holds p ip 5 [] (omega arith) holds) refl refl agrees (omega arith) result

pub length-encode_native : (c : Straight) → length (encode (native_of c)) ≡ suc (operand_size c)
unfolding encode little_endian
length-encode_native (push_number v r) = refl
length-encode_native (pop_register v r) = refl
length-encode_native add = refl
length-encode_native sub = refl
length-encode_native mul = refl
length-encode_native div = refl

-- One round of the loop
pub execute_loop-step :
    (h : Host) (fuel ip n : ℕ) (p p' : Processor)
    → ltb_ℤ (pos ip) p.cmds_amount ≡ true
    → process_command h ip p ≡ goes_on p' (pos n)
    → execute_loop (suc fuel) h (pos ip) p ≡ execute_loop fuel h (pos (n + 1)) p'
unfolding execute_loop
execute_loop-step h fuel ip n p p' here step =
    let up : leb 0 (n + 1) ≡ true = ground arith in
    let next : pos n +ℤ pos 1 ≡ pos (n + 1) = rw up (ap (λ (t : ℕ). pos t) (omega arith)) in
    let round = λ (s : Step). elim s as (λ _. Ending) [
      | undefined ↦ failed
      | exits q ↦ ended q
      | goes_on q z ↦ execute_loop fuel h (z +ℤ pos 1) q
    ] in
    ap (λ (b : Bool). elim b [ false ↦ ended p | true ↦ round (process_command h ip p) ]) here
    ∙ ap round step
    ∙ ap (λ (z : ℤ). execute_loop fuel h z p') next
