-- ===== src/Translator/Units/Sizes.antt =====
-- How many bytes the units of BinaryTranslator-main/src/translation.cpp emit, against the sizes that
-- src/parser.cpp and src/optimizer.cpp compute.
use best_practices.Base.{ℕ, ◌+◌, ◌≡◌, refl, Bool, true, false, ◌==◌, if◌then◌else◌, ◌||◌, List}
use best_practices.Base.Lists.{length}
use best_practices.Translator.Commands.{
  CommandName, hlt, push, mul, add, sub, div, pop, out, jmp, jg, jge, ja, jae, je, jne, in_cmd,
  call, ret, sqr, mov_reg_num_cmd, Command, imm, reg, ram, x86_size_of,
}
use best_practices.Translator.Doubles.{Doubles}
use best_practices.Translator.Parser.{is_push}
use best_practices.Translator.Parser.Encoding.{little_endian}
use best_practices.Translator.Units
use best_practices.Translator.Units.{
  Write, translate_case, translate_cmd, handle_push_pop_variation,
}
use best_practices.Translator.Buffer.Writes.{all_fit, bytes_of, bytes_of_all}

-- The size of the code of a push or a pop with this checksum
unfoldable pub variation_size : ℕ → ℕ
variation_size checksum =
    if checksum == 0
    then 0
    else if checksum == imm
    then 11
    else if checksum == reg
    then 1
    else if checksum == imm + ram
    then 8
    else if (checksum == imm + reg + ram) || (checksum == reg + ram)
    then 34
    else 0

-- The size of the code of a command
unfoldable pub emitted_size : CommandName → ℕ → ℕ
unfolding x86_size_of variation_size
emitted_size push checksum = variation_size checksum
emitted_size pop checksum = variation_size checksum
emitted_size mov_reg_num_cmd checksum = 10
emitted_size name checksum = x86_size_of name

-- These writes fit, and emit so many bytes.
abbrev Measures : List Write → ℕ → Type 0
Measures ws n = (all_fit ws ≡ true) × (length (bytes_of_all ws) ≡ n)

Measures-either :
    (b : Bool) (xs ys : List Write) (m n : ℕ)
    → Measures xs m
    → Measures ys n
    → Measures (if b then xs else ys) (if b then m else n)
Measures-either true xs ys m n p q = p
Measures-either false xs ys m n p q = q

Measures-both :
    (b : Bool) (xs ys : List Write) (n : ℕ)
    → Measures xs n
    → Measures ys n
    → Measures (if b then xs else ys) n
Measures-both true xs ys n p q = p
Measures-both false xs ys n p q = q

module _ (D : Doubles) (k : ℕ) (c : Command) where
  handle_push_pop_variation-Measures :
      Measures (handle_push_pop_variation D c) (variation_size c.checksum)
  unfolding handle_push_pop_variation variation_size bytes_of_all bytes_of little_endian
      Units.translate_push_imm Units.translate_push_reg Units.translate_pop_reg
      Units.translate_push_imm_ram Units.translate_pop_imm_ram Units.translate_push_reg_ram
      Units.translate_pop_reg_ram Units.reg_to_rsi_offset
  handle_push_pop_variation-Measures =
      Measures-either (c.checksum == 0) _ _ _ _ (refl, refl)
        (Measures-either (c.checksum == imm) _ _ _ _ (refl, refl)
          (Measures-either (c.checksum == reg) _ _ _ _
            (Measures-both (is_push c.name) _ _ _ (refl, refl) (refl, refl))
            (Measures-either (c.checksum == imm + ram) _ _ _ _
              (Measures-both (is_push c.name) _ _ _ (refl, refl) (refl, refl))
              (Measures-either ((c.checksum == imm + reg + ram) || (c.checksum == reg + ram)) _ _ _
                _ (Measures-both (is_push c.name) _ _ _ (refl, refl) (refl, refl)) (refl, refl)))))

  translate_case-Measures :
      (name : CommandName) → Measures (translate_case D k name c) (emitted_size name c.checksum)
  unfolding translate_case emitted_size x86_size_of bytes_of_all bytes_of little_endian
      Units.translate_jmp_call Units.translate_condition_jmp Units.translate_base_math
      Units.translate_sqr Units.translate_out Units.translate_in Units.translate_ret
      Units.translate_mov_reg_num Units.translate_hlt
  translate_case-Measures push = handle_push_pop_variation-Measures
  translate_case-Measures pop = handle_push_pop_variation-Measures
  translate_case-Measures hlt = (refl, refl)
  translate_case-Measures mul = (refl, refl)
  translate_case-Measures add = (refl, refl)
  translate_case-Measures sub = (refl, refl)
  translate_case-Measures div = (refl, refl)
  translate_case-Measures out = (refl, refl)
  translate_case-Measures jmp = (refl, refl)
  translate_case-Measures jg = (refl, refl)
  translate_case-Measures jge = (refl, refl)
  translate_case-Measures ja = (refl, refl)
  translate_case-Measures jae = (refl, refl)
  translate_case-Measures je = (refl, refl)
  translate_case-Measures jne = (refl, refl)
  translate_case-Measures in_cmd = (refl, refl)
  translate_case-Measures call = (refl, refl)
  translate_case-Measures ret = (refl, refl)
  translate_case-Measures sqr = (refl, refl)
  translate_case-Measures mov_reg_num_cmd = (refl, refl)

pub translate_cmd-all_fit :
    (D : Doubles) (k : ℕ) (c : Command) → all_fit (translate_cmd D k c) ≡ true
unfolding translate_cmd
translate_cmd-all_fit D k c = (translate_case-Measures D k c c.name).0

pub length-translate_cmd :
    (D : Doubles) (k : ℕ) (c : Command)
    → length (bytes_of_all (translate_cmd D k c)) ≡ emitted_size c.name c.checksum
unfolding translate_cmd
length-translate_cmd D k c = (translate_case-Measures D k c c.name).1
