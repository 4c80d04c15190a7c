-- ===== src/Language/Execution/Programs.antt =====
-- Straight-line programs on the processor of ProgrammingLanguage-main/execution, whole.
use best_practices.Base.{
  ℕ, suc, ◌+◌, ◌≤◌, ◌≡◌, refl, ap, sym, subst, ◌∙◌, true, Option, none, some, List, [], ◌∷◌, ◌++◌,
  arith,
}
use best_practices.Base.Int.{ℤ, pos, ltb_ℤ, ◌≤ℤ◌}
use best_practices.Base.Lists.{length, All}
use best_practices.Language.Processor.{Host, Processor}
use best_practices.Language.Execution.{execute_loop}
use best_practices.Language.Execution.Agreement.{Straight, native_of, FitsStraight, Agrees}
use best_practices.Language.Execution.Straight.{
  operand_size, HasRoom, length-execute, step_Arrives, length-encode_native, execute_loop-step,
}
use best_practices.Translator.Parser.Encoding.{Native, encode, encode_all, described}
use best_practices.Translator.Parser.Programs.{describe_all}
use best_practices.Translator.Buffer.Writes.{Holds, length-append}
use best_practices.Translator.Buffer.Placement.{Holds-split}
use best_practices.Translator.Doubles.{Doubles}
use best_practices.Translator.Commands.{Command}
use best_practices.Translator.Optimizer.Meaning.{Machine, execute, run}

abbrev pub natives : List Straight → List Native
natives [] = []
natives (c ∷ cs) = native_of c ∷ natives cs

-- A run of a command and others that ends has a state after the command.
run_splits :
    (D : Doubles) (other : Command → Machine → Option Machine) (c : Command) (cs : List Command)
    (m m' : Machine)
    → run D other (c ∷ cs) m ≡ some m'
    → (m1 : Machine) × (execute D other c m ≡ some m1) × (run D other cs m1 ≡ some m')
unfolding run
run_splits D other c cs m m' = splits (execute D other c m)
  where
    splits :
        (o : Option Machine)
        → elim o [ none ↦ none | some t ↦ run D other cs t ] ≡ some m'
        → (m1 : Machine) × (o ≡ some m1) × (run D other cs m1 ≡ some m')
    splits none e = absurd (cc)
    splits (some m1) e = (m1, refl, e)

-- When the compiler evaluates left operands first, the processor runs a straight-line program of pushes
-- of numbers, pops to registers and arithmetic, whose bytes stand in its buffer below the end of the
-- commands, to the next address after it in as many rounds as the program has commands, and its stack
-- and its ten registers are then those that the program computes; the stack must have room for the values
-- on it at the start and for those that each command leaves on it.
pub execute_loop-encode_all :
    (h : Host) (other : Command → Machine → Option Machine) (cs : List Straight) (ip k : ℕ)
    (p : Processor) (m m' : Machine)
    → h.left_first ≡ true
    → All FitsStraight cs
    → Holds ip p.cmds (encode_all (natives cs))
    → ip + length (encode_all (natives cs)) ≤ 8000
    → pos (ip + length (encode_all (natives cs))) ≤ℤ p.cmds_amount
    → Agrees p m
    → length m.stack ≤ p.main_stack.capacity
    → HasRoom p.main_stack.capacity (length m.stack) cs
    → run h.doubles other (describe_all (natives cs)) m ≡ some m'
    → (p' : Processor) × (execute_loop (length cs + k) h (pos ip) p
        ≡ execute_loop k h (pos (ip + length (encode_all (natives cs)))) p')
      × Agrees p' m'
unfolding run describe_all encode_all
execute_loop-encode_all h other [] ip k p m m' left fits holds inside below agrees full room
      result =
    let same : m ≡ m' = cc in
    let fuel : length {A = Straight} [] + k ≡ k = omega arith in
    let place : ip ≡ ip + 0 = omega arith in
    (
      p,
      ap (λ (t : ℕ). execute_loop t h (pos ip) p) fuel
          ∙ ap (λ (t : ℕ). execute_loop k h (pos t) p) place,
      subst (Agrees p) same agrees,
    )
execute_loop-encode_all h other (c ∷ cs) ip k p m m' left fits holds inside below agrees full room
      result =
    let first = encode (native_of c) in
    let later = encode_all (natives cs) in
    let total = length-append first later in
    let size = length-encode_native c in
    let (m1, e1, r1) =
      run_splits h.doubles other (described (native_of c)) (describe_all (natives cs)) m m'
        result in
    let (held, rest) = Holds-split first later ip p.cmds holds in
    let (p1, step, kept, agrees1) =
      step_Arrives h other left c ip p m m1 fits.0 (omega (arith, total, size)) held agrees full
        room.0 e1 in
    let depth = length-execute h.doubles other c m m1 e1 in
    let later_room =
      subst (λ (t : ℕ). HasRoom t (length m1.stack) cs) (sym kept.2)
        (subst (λ (t : ℕ). HasRoom p.main_stack.capacity t cs) (sym depth) room.1) in
    let here : ltb_ℤ (pos ip) p.cmds_amount ≡ true = ground (arith, total, size) in
    let next : ip + operand_size c + 1 ≡ ip + length first = omega (arith, size) in
    let fuel : length (c ∷ cs) + k ≡ suc (length cs + k) = omega arith in
    let place : ip + length first + length later ≡ ip + length (first ++ later) =
      omega (arith, total) in
    let held1 = subst (λ (t : ℕ → ℕ). Holds (ip + length first) t later) (sym kept.0) rest in
    let below1 : pos (ip + length first + length later) ≤ℤ p1.cmds_amount =
      subst (λ (z : ℤ). pos (ip + length first + length later) ≤ℤ z) (sym kept.1)
        (subst (λ (t : ℕ). pos t ≤ℤ p.cmds_amount) (sym place) below) in
    let (p', e', agrees') =
      execute_loop-encode_all h other cs (ip + length first) k p1 m1 m' left fits.1 held1
        (omega (arith, total)) below1 agrees1 (omega (arith, depth, room.0, kept.2)) later_room
        r1 in
    (
      p',
      ap (λ (t : ℕ). execute_loop t h (pos ip) p) fuel
          ∙ execute_loop-step h (length cs + k) ip (ip + operand_size c) p p1 here step
          ∙ ap (λ (t : ℕ). execute_loop (length cs + k) h (pos t) p1) next
          ∙ e'
          ∙ ap (λ (t : ℕ). execute_loop k h (pos t) p') place,
      agrees',
    )
