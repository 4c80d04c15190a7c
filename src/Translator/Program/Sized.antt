-- ===== src/Translator/Program/Sized.antt =====
-- The sizes that src/parser.cpp of BinaryTranslator-main gives to the commands of a program.
use best_practices.Base.{
  ℕ, ◌+◌, ◌*◌, ◌≤◌, ◌≡◌, refl, subst, sym, Bool, true, false, ◌==◌, if◌then◌else◌, ◌||◌, List, [],
  ◌∷◌, arith, Bool-cases, inl, inr,
}
use best_practices.Base.Lists.{length, All}
use best_practices.Translator.Commands.{Command, CommandName, x86_size_of}
use best_practices.Translator.Commands
use best_practices.Translator.Parser.Encoding.{
  hlt, mul, add, sub, div, out, in_cmd, ret, sqr, jmp, jg, jge, ja, jae, je, jne, call, push, pop,
  void, imm, reg, ram, imm_reg, imm_ram, reg_ram, imm_reg_ram, Native, simple, jump, operand,
  described,
}
use best_practices.Translator.Parser.Programs.{describe_all}
use best_practices.Translator.Units.Sizes.{emitted_size, variation_size}
use best_practices.Translator.Optimizer.Arrays.{IsSized}
use best_practices.Translator.Addresses.{Filled, fill_from}
use best_practices.Translator.Addresses.Layout.{fill_from_skipped, fill_from_command}

-- A pop of a number, which no program needs
abbrev pub is_pop_imm : Native → Bool
is_pop_imm (operand pop imm value register) = true
is_pop_imm _ = false

abbrev pub NoPopImm : Native → Type 0
NoPopImm c = is_pop_imm c ≡ false

described-IsSized : (c : Native) → NoPopImm c → IsSized (described c)
unfolding described emitted_size x86_size_of variation_size
described-IsSized (simple hlt) h = refl
described-IsSized (simple mul) h = refl
described-IsSized (simple add) h = refl
described-IsSized (simple sub) h = refl
described-IsSized (simple div) h = refl
described-IsSized (simple out) h = refl
described-IsSized (simple in_cmd) h = refl
described-IsSized (simple ret) h = refl
described-IsSized (simple sqr) h = refl
described-IsSized (jump jmp target padding) h = refl
described-IsSized (jump jg target padding) h = refl
described-IsSized (jump jge target padding) h = refl
described-IsSized (jump ja target padding) h = refl
described-IsSized (jump jae target padding) h = refl
described-IsSized (jump je target padding) h = refl
described-IsSized (jump jne target padding) h = refl
described-IsSized (jump call target padding) h = refl
described-IsSized (operand push void value register) h = refl
described-IsSized (operand push imm value register) h = refl
described-IsSized (operand push reg value register) h = refl
described-IsSized (operand push ram value register) h = refl
described-IsSized (operand push imm_reg value register) h = refl
described-IsSized (operand push imm_ram value register) h = refl
described-IsSized (operand push reg_ram value register) h = refl
described-IsSized (operand push imm_reg_ram value register) h = refl
described-IsSized (operand pop void value register) h = refl
described-IsSized (operand pop imm value register) h = absurd (cc)
described-IsSized (operand pop reg value register) h = refl
described-IsSized (operand pop ram value register) h = refl
described-IsSized (operand pop imm_reg value register) h = refl
described-IsSized (operand pop imm_ram value register) h = refl
described-IsSized (operand pop reg_ram value register) h = refl
described-IsSized (operand pop imm_reg_ram value register) h = refl

pub describe_all-IsSized : (cs : List Native) → All NoPopImm cs → All IsSized (describe_all cs)
unfolding describe_all
describe_all-IsSized [] h = tt
describe_all-IsSized (c ∷ cs) h = (described-IsSized c h.0, describe_all-IsSized cs h.1)

-- No command has more than 41 bytes of code.
at_most : (b : Bool) (m n k : ℕ) → m ≤ k → n ≤ k → (if b then m else n) ≤ k
at_most true m n k h g = h
at_most false m n k h g = g

variation_size-le : (checksum : ℕ) → variation_size checksum ≤ 41
unfolding variation_size
variation_size-le k = at_most (k == 0) 0 _ 41 (omega arith) (
    at_most (k == 32) 11 _ 41 (omega arith) (
      at_most (k == 64) 1 _ 41 (omega arith) (
        at_most (k == 160) 8 _ 41 (omega arith)
          (at_most ((k == 224) || (k == 192)) 34 0 41 (omega arith) (omega arith)))))

emitted_size-le : (name : CommandName) (k : ℕ) → emitted_size name k ≤ 41
unfolding emitted_size x86_size_of
emitted_size-le Commands.hlt k = omega arith
emitted_size-le Commands.push k = variation_size-le k
emitted_size-le Commands.mul k = omega arith
emitted_size-le Commands.add k = omega arith
emitted_size-le Commands.sub k = omega arith
emitted_size-le Commands.div k = omega arith
emitted_size-le Commands.pop k = variation_size-le k
emitted_size-le Commands.out k = omega arith
emitted_size-le Commands.jmp k = omega arith
emitted_size-le Commands.jg k = omega arith
emitted_size-le Commands.jge k = omega arith
emitted_size-le Commands.ja k = omega arith
emitted_size-le Commands.jae k = omega arith
emitted_size-le Commands.je k = omega arith
emitted_size-le Commands.jne k = omega arith
emitted_size-le Commands.in_cmd k = omega arith
emitted_size-le Commands.call k = omega arith
emitted_size-le Commands.ret k = omega arith
emitted_size-le Commands.sqr k = omega arith
emitted_size-le Commands.mov_reg_num_cmd k = omega arith

pub fill_from-le :
    (n x : ℕ) (cs : List Command)
    → All IsSized cs
    → (fill_from n x cs).x86_ip_counter ≤ x + 41 * length cs
unfolding fill_from
fill_from-le n x [] sized = omega arith
fill_from-le n x (c ∷ cs) sized = elim (Bool-cases c.is_skip) [
  | inl e ↦
      subst (λ (f : Filled). f.x86_ip_counter ≤ x + 41 * length (c ∷ cs))
        (sym (fill_from_skipped n x c cs e)) (omega (arith, fill_from-le n x cs sized.1))
  | inr e ↦
      let rest = fill_from-le (n + c.native_size) (x + c.x86_size) cs sized.1 in
      subst (λ (f : Filled). f.x86_ip_counter ≤ x + 41 * length (c ∷ cs))
        (sym (fill_from_command n x c cs e))
        (omega (arith, rest, sized.0, emitted_size-le c.name c.checksum))
]
