-- ===== src/Language/Execution/Runs.antt =====
-- Runs of straight-line programs on the processor of ProgrammingLanguage-main/execution.
use best_practices.Base.{
  ℕ, ◌+◌, ◌≤◌, ◌<◌, ◌^◌, ◌≡◌, refl, ap, sym, subst, ◌∙◌, Bool, true, false, ◌==◌, if◌then◌else◌,
  some, List, [], ◌∷◌, ◌++◌, arith, bit_and,
}
use best_practices.Base.Int.{ℤ, pos}
use best_practices.Base.Lists.{length}
use best_practices.Language.Processor.{Host, Instr, instr_of, Processor, goes_on, byte_at, set_cell}
use best_practices.Language.Commands.{execute_instr, do_operator}
use best_practices.Language.Execution.{process_command}
use best_practices.Language.Execution.Agreement.{
  Agrees, Keeps, byte_at-Holds, double_bytes-Holds, process_command_lem, do_operator_lem,
  do_push-number, do_pop-register,
}
use best_practices.Translator.Parser.Encoding.{little_endian}
use best_practices.Translator.Buffer.Writes.{Holds, length-little_endian}
use best_practices.Translator.Buffer.Placement.{Holds-split}
use best_practices.Translator.Optimizer.Meaning.{Machine, pop_to, replace_two, put_register}

-- Where a step leads: to the next command, with the result of the machine.
abbrev pub Arrives : Host → ℕ → ℕ → Processor → Machine → Machine → Type 0
Arrives h ip size p m m' =
    (p' : Processor) × (process_command h ip p ≡ goes_on p' (pos (ip + size)))
    × Keeps p p'
    × Agrees p' m'

-- The register that a pop writes
registers_agree :
    (regs : ℕ → ℕ) (registers : ℤ → ℕ) (r v : ℕ)
    → ((n : ℕ) → n < 10 → regs n ≡ registers (pos n))
    → (n : ℕ) → n < 10
    → set_cell r v regs n ≡ put_register (pos r) v registers (pos n)
registers_agree regs registers r v same n small = either (n == r) (same n small)
  where
    either :
        (b : Bool)
        → regs n ≡ registers (pos n)
        → (if b then v else regs n) ≡ (if b then v else registers (pos n))
    either true e = refl
    either false e = e

module _ (h : Host) (left : h.left_first ≡ true) where
  pub operator_Arrives :
      (f : ℕ → ℕ → ℕ) (i : Instr) (cmd ip : ℕ) (p : Processor) (stack : List ℕ) (registers : ℤ → ℕ)
      (m' : Machine)
      → byte_at p ip ≡ some cmd
      → instr_of (bit_and cmd 31) ≡ some i
      → execute_instr h i cmd ip p ≡ do_operator h f ip p
      → Agrees p (record { stack = stack; registers = registers })
      → length stack ≤ p.main_stack.capacity
      → replace_two f (record { stack = stack; registers = registers }) ≡ some m'
      → Arrives h ip 0 p (record { stack = stack; registers = registers }) m'
  operator_Arrives f i cmd ip p [] registers m' e g k agrees room result = absurd (cc)
  operator_Arrives f i cmd ip p (x ∷ []) registers m' e g k agrees room result = absurd (cc)
  operator_Arrives f i cmd ip p (x ∷ y ∷ rest) registers m' e g k agrees room result =
      let m : Machine = record { stack = x ∷ y ∷ rest; registers = registers } in
      let end : Machine = record { stack = f x y ∷ rest; registers = registers } in
      let same : end ≡ m' = cc in
      let p' : Processor = record p {
        main_stack = record (p.main_stack) { elems = f x y ∷ rest };
      } in
      let stays : ip + 0 ≡ ip = omega arith in
      let steps : process_command h ip p ≡ goes_on p' (pos (ip + 0)) =
        process_command_lem h ip cmd i p e g
        ∙ k
        ∙ do_operator_lem h f ip x y rest p left agrees.0 (omega arith)
        ∙ ap (λ (t : ℕ). goes_on p' (pos t)) (sym stays) in
      subst (Arrives h ip 0 p m) same (p', steps, (refl, refl, refl), (refl, agrees.1))

module _ (h : Host) where
  pub push_Arrives :
      (v r ip : ℕ) (p : Processor) (m : Machine)
      → v < 2 ^ 64
      → ip + 10 ≤ 8000
      → Holds ip p.cmds (33 ∷ (little_endian 8 v ++ (r ∷ [])))
      → Agrees p m
      → length m.stack < p.main_stack.capacity
      → Arrives h ip 9 p m (record m { stack = v ∷ m.stack })
  unfolding instr_of execute_instr
  push_Arrives v r ip p m fits inside holds agrees room =
      let p' : Processor = record p {
        main_stack = record (p.main_stack) { elems = v ∷ p.main_stack.elems };
      } in
      let (number, register) = Holds-split (little_endian 8 v) (r ∷ []) (ip + 1) p.cmds holds.1 in
      let place : ip + 1 + length (little_endian 8 v) ≡ ip + 9 =
        omega (arith, length-little_endian 8 v) in
      let r_byte =
        byte_at-Holds p (ip + 9) r [] (omega arith)
          (subst (λ (t : ℕ). Holds t p.cmds (r ∷ [])) place register) in
      let v_double = double_bytes-Holds 8 v (ip + 1) p (omega arith) fits number in
      let free = subst (λ (xs : List ℕ). length xs < p.main_stack.capacity) (sym agrees.0) room in
      (
        p',
        process_command_lem h ip 33 Instr.push p
              (byte_at-Holds p ip 33 (little_endian 8 v ++ (r ∷ [])) (omega arith) holds) refl
            ∙ do_push-number h ip v r p r_byte v_double free,
        (refl, refl, refl),
        (ap (λ (xs : List ℕ). v ∷ xs) agrees.0, agrees.1),
      )

  pub pop_Arrives :
      (v r ip : ℕ) (p : Processor) (stack : List ℕ) (registers : ℤ → ℕ) (m' : Machine)
      → r < 10
      → ip + 10 ≤ 8000
      → Holds ip p.cmds (70 ∷ (little_endian 8 v ++ (r ∷ [])))
      → Agrees p (record { stack = stack; registers = registers })
      → pop_to (pos r) (record { stack = stack; registers = registers }) ≡ some m'
      → Arrives h ip 9 p (record { stack = stack; registers = registers }) m'
  unfolding instr_of execute_instr
  pop_Arrives v r ip p [] registers m' small inside holds agrees result = absurd (cc)
  pop_Arrives v r ip p (x ∷ rest) registers m' small inside holds agrees result =
      let m : Machine = record { stack = x ∷ rest; registers = registers } in
      let end : Machine = record { stack = rest; registers = put_register (pos r) x registers } in
      let same : end ≡ m' = cc in
      let p' : Processor = record p {
        main_stack = record (p.main_stack) { elems = rest };
        regs = set_cell r x p.regs;
      } in
      let (number, register) = Holds-split (little_endian 8 v) (r ∷ []) (ip + 1) p.cmds holds.1 in
      let place : ip + 1 + length (little_endian 8 v) ≡ ip + 9 =
        omega (arith, length-little_endian 8 v) in
      let r_byte =
        byte_at-Holds p (ip + 9) r [] (omega arith)
          (subst (λ (t : ℕ). Holds t p.cmds (r ∷ [])) place register) in
      subst (Arrives h ip 9 p m) same (
        p',
        process_command_lem h ip 70 Instr.pop p
              (byte_at-Holds p ip 70 (little_endian 8 v ++ (r ∷ [])) (omega arith) holds) refl
            ∙ do_pop-register h ip r x rest p r_byte small agrees.0,
        (refl, refl, refl),
        (refl, registers_agree p.regs registers r x agrees.1),
      )
