-- ===== src/Language/Execution/Overflow.antt =====
-- The stack of `Execute` in ProgrammingLanguage-main/execution/proc/proc.cpp, which has room for two.
use best_practices.Base.{
  ℕ, suc, ◌+◌, ◌≤◌, ◌<◌, ◌^◌, ◌≡◌, refl, ap, sym, subst, ◌∙◌, true, false, ltb, List, [], ◌∷◌, ◌++◌,
  arith,
}
use best_practices.Base.Int.{ℤ, pos, negsuc, ltb_ℤ, ◌≤ℤ◌, ◌+ℤ◌}
use best_practices.Base.Lists.{length}
use best_practices.Language.Stack.{stack_ctor, stack_push}
use best_practices.Language.Processor.{
  Host, Instr, instr_of, Processor, Step, goes_on, exits, undefined,
}
use best_practices.Language.Commands.{execute_instr, do_push, read_place, push_value}
use best_practices.Language.Execution.{
  process_command, execute_loop, execute, Ending, ended, failed,
}
use best_practices.Language.Execution.Agreement.{
  byte_at-Holds, double_bytes-Holds, process_command_lem, get_arg-number,
}
use best_practices.Language.Execution.Runs.{push_Arrives}
use best_practices.Language.Execution.Straight.{execute_loop-step}
use best_practices.Translator.Parser.Encoding.{little_endian}
use best_practices.Translator.Buffer.Writes.{Holds, length-little_endian, length-append}
use best_practices.Translator.Buffer.Placement.{Holds-split}
use best_practices.Translator.Optimizer.Meaning.{Machine}

-- The bytes of the push of a number
abbrev pub push_bytes : ℕ → ℕ → List ℕ
push_bytes v r = 33 ∷ (little_endian 8 v ++ (r ∷ []))

length-push_bytes : (v r : ℕ) → length (push_bytes v r) ≡ 10
length-push_bytes v r =
    omega (arith, length-append (little_endian 8 v) (r ∷ []), length-little_endian 8 v)

-- A push on a full stack
push_full :
    (h : Host) (v r ip : ℕ) (p : Processor)
    → v < 2 ^ 64
    → ip + 10 ≤ 8000
    → Holds ip p.cmds (push_bytes v r)
    → p.main_stack.capacity ≤ length p.main_stack.elems
    → process_command h ip p ≡ undefined
unfolding instr_of execute_instr do_push read_place push_value stack_push
push_full h v r ip p fits inside holds full =
    let (number, register) = Holds-split (little_endian 8 v) (r ∷ []) (ip + 1) p.cmds holds.1 in
    let place : ip + 1 + length (little_endian 8 v) ≡ ip + 9 =
      omega (arith, length-little_endian 8 v) in
    let r_byte =
      byte_at-Holds p (ip + 9) r [] (omega arith)
        (subst (λ (t : ℕ). Holds t p.cmds (r ∷ [])) place register) in
    let v_double = double_bytes-Holds 8 v (ip + 1) p (omega arith) fits number in
    let no_room : ltb (length p.main_stack.elems) p.main_stack.capacity ≡ false = ground arith in
    let pushed : do_push h 33 ip p ≡ undefined =
      rw (do_push, get_arg-number h ip v r p r_byte v_double, no_room) refl in
    process_command_lem h ip 33 Instr.push p
      (byte_at-Holds p ip 33 (little_endian 8 v ++ (r ∷ [])) (omega arith) holds) refl
    ∙ pushed

execute_loop-undefined :
    (h : Host) (fuel ip : ℕ) (p : Processor)
    → ltb_ℤ (pos ip) p.cmds_amount ≡ true
    → process_command h ip p ≡ undefined
    → execute_loop (suc fuel) h (pos ip) p ≡ failed
unfolding execute_loop
execute_loop-undefined h fuel ip p here step =
    let round = λ (s : Step). elim s as (λ _. Ending) [
      | undefined ↦ failed
      | exits q ↦ ended q
      | goes_on q z ↦ execute_loop fuel h (z +ℤ pos 1) q
    ] in
    ap (λ b. elim b [ false ↦ ended p | true ↦ round (process_command h ip p) ]) here
    ∙ ap round step

-- Every program that begins with the pushes of three numbers, in a file that announces as many bytes,
-- writes behind the stack of the processor, on every host.
pub execute_overflow :
    (h : Host) (p : Processor) (v1 v2 v3 r1 r2 r3 fuel : ℕ)
    → v1 < 2 ^ 64
    → v2 < 2 ^ 64
    → v3 < 2 ^ 64
    → Holds 8 p.cmds (push_bytes v1 r1 ++ (push_bytes v2 r2 ++ push_bytes v3 r3))
    → pos 38 ≤ℤ p.cmds_amount
    → execute (suc (suc (suc fuel))) h p ≡ failed
unfolding execute stack_ctor
execute_overflow h p v1 v2 v3 r1 r2 r3 fuel f1 f2 f3 holds announced =
    let p0 : Processor = record p { main_stack = stack_ctor 2 } in
    let m0 : Machine = record {
      stack = [];
      registers = λ z. elim z [ pos n ↦ p.regs n | negsuc n ↦ 0 ];
    } in
    let (first, later) =
      Holds-split (push_bytes v1 r1) (push_bytes v2 r2 ++ push_bytes v3 r3) 8 p.cmds holds in
    let at18 : 8 + length (push_bytes v1 r1) ≡ 18 = omega (arith, length-push_bytes v1 r1) in
    let later18 =
      subst (λ (t : ℕ). Holds t p.cmds (push_bytes v2 r2 ++ push_bytes v3 r3)) at18 later in
    let (second, last) = Holds-split (push_bytes v2 r2) (push_bytes v3 r3) 18 p.cmds later18 in
    let at28 : 18 + length (push_bytes v2 r2) ≡ 28 = omega (arith, length-push_bytes v2 r2) in
    let third = subst (λ (t : ℕ). Holds t p.cmds (push_bytes v3 r3)) at28 last in
    let (p1, s1, (c1, n1, k1), a1) =
      push_Arrives h v1 r1 8 p0 m0 f1 (omega arith) first (refl, λ n s. refl) (omega arith) in
    let second1 = subst (λ (t : ℕ → ℕ). Holds 18 t (push_bytes v2 r2)) (sym c1) second in
    let (p2, s2, (c2, n2, k2), a2) =
      push_Arrives h v2 r2 18 p1 (record m0 { stack = v1 ∷ [] }) f2 (omega arith) second1 a1
        (omega (arith, k1)) in
    let third2 = subst (λ (t : ℕ → ℕ). Holds 28 t (push_bytes v3 r3)) (sym (c2 ∙ c1)) third in
    let full : p2.main_stack.capacity ≤ length p2.main_stack.elems =
      subst (λ (xs : List ℕ). p2.main_stack.capacity ≤ length xs) (sym a2.0)
        (omega (arith, k1, k2)) in
    let b0 : ltb_ℤ (pos 8) p.cmds_amount ≡ true = ground arith in
    let b1 : ltb_ℤ (pos 18) p1.cmds_amount ≡ true =
      subst (λ (z : ℤ). ltb_ℤ (pos 18) z ≡ true) (sym n1) (ground arith) in
    let b2 : ltb_ℤ (pos 28) p2.cmds_amount ≡ true =
      subst (λ (z : ℤ). ltb_ℤ (pos 28) z ≡ true) (sym (n2 ∙ n1)) (ground arith) in
    execute_loop-step h (suc (suc fuel)) 8 17 p0 p1 b0 s1
    ∙ execute_loop-step h (suc fuel) 18 27 p1 p2 b1 s2
    ∙ execute_loop-undefined h fuel 28 p2 b2 (push_full h v3 r3 28 p2 f3 (omega arith) third2 full)
