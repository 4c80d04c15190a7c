-- ===== src/Translator/Units/Jumps.antt =====
-- Where the jumps and calls that BinaryTranslator-main/src/translation.cpp emits lead.
use best_practices.Base.{
  ℕ, ◌+◌, ◌-◌, ◌%◌, ◌^◌, ◌≤◌, ◌<◌, ◌≡◌, ◌⊎◌, inl, inr, leb, Bool-cases, refl, ap, sym, ◌∙◌, Bool,
  true, if◌then◌else◌, List, [], ◌∷◌, ◌++◌, arith, subst,
}
use best_practices.Base.Int.{ℤ, pos, negsuc, ◌-ℤ◌}
use best_practices.Translator.Commands.{
  x86_size_of, CommandName, hlt, push, mul, add, sub, div, pop, out, jmp, jg, jge, ja, jae, je, jne,
  in_cmd, call, ret, sqr, mov_reg_num_cmd, Command, is_jump,
}
use best_practices.Translator.Doubles.{Doubles, ExactInts, WrapsNegative}
use best_practices.Translator.Addresses.{find_jump_ip, fill_jump_label}
use best_practices.Translator.Units.{
  Write, write_cmd, write_ptr, rel_ptr, translate_case, translate_cmd, translate_jmp_call,
  translate_condition_jmp,
}
use best_practices.Translator.Units.Sizes.{emitted_size}
use best_practices.Translator.Optimizer.Arrays.{IsSized}

-- The code of a command is some writes and then a displacement of 32 bits.
abbrev pub EndsWithPtr : List Write → ℕ → Type 0
EndsWithPtr code rel = (opcodes : List Write) × (code ≡ opcodes ++ (write_ptr rel ∷ []))

-- The displacement is counted from the end of the code.
translate_case-jump :
    (D : Doubles) (k : ℕ) (name : CommandName) (m : ℕ) (c : Command)
    → is_jump name ≡ true
    → EndsWithPtr (translate_case D k name c) (rel_ptr D c (emitted_size name m))
unfolding translate_case is_jump emitted_size x86_size_of translate_jmp_call translate_condition_jmp
translate_case-jump D k jmp m c h = (write_cmd _ 1 ∷ [], refl)
translate_case-jump D k call m c h = (write_cmd _ 1 ∷ [], refl)
translate_case-jump D k jg m c h = (_ ∷ _ ∷ _ ∷ _ ∷ _ ∷ [], refl)
translate_case-jump D k jge m c h = (_ ∷ _ ∷ _ ∷ _ ∷ _ ∷ [], refl)
translate_case-jump D k ja m c h = (_ ∷ _ ∷ _ ∷ _ ∷ _ ∷ [], refl)
translate_case-jump D k jae m c h = (_ ∷ _ ∷ _ ∷ _ ∷ _ ∷ [], refl)
translate_case-jump D k je m c h = (_ ∷ _ ∷ _ ∷ _ ∷ _ ∷ [], refl)
translate_case-jump D k jne m c h = (_ ∷ _ ∷ _ ∷ _ ∷ _ ∷ [], refl)
translate_case-jump D k hlt m c h = absurd (cc)
translate_case-jump D k push m c h = absurd (cc)
translate_case-jump D k mul m c h = absurd (cc)
translate_case-jump D k add m c h = absurd (cc)
translate_case-jump D k sub m c h = absurd (cc)
translate_case-jump D k div m c h = absurd (cc)
translate_case-jump D k pop m c h = absurd (cc)
translate_case-jump D k out m c h = absurd (cc)
translate_case-jump D k in_cmd m c h = absurd (cc)
translate_case-jump D k ret m c h = absurd (cc)
translate_case-jump D k sqr m c h = absurd (cc)
translate_case-jump D k mov_reg_num_cmd m c h = absurd (cc)

-- The displacement that is emitted, for a target that is known: forwards, or on a host that converts
-- negative doubles modulo 2 ^ 32
rel_ptr-displaced :
    (D : Doubles) (exact : ExactInts D) (c : Command) (size target : ℕ)
    → c.value ≡ D.of_int (pos target)
    → c.x86_ip + size < 2 ^ 31
    → target < 2 ^ 31
    → (c.x86_ip + size ≤ target) ⊎ WrapsNegative D
    → (c.x86_ip + size + rel_ptr D c size) % 2 ^ 32 ≡ target
unfolding rel_ptr
rel_ptr-displaced D exact c size target label near h direction = elim (Bool-cases (leb e target)) [
  | inl sign ↦
      let difference : pos target -ℤ pos e ≡ pos (target - e) = ground arith in
      let rel : rel_ptr D c size ≡ target - e =
        given
        ∙ ap (λ (z : ℤ). D.to_uint32 (D.of_int z)) difference
        ∙ exact.to_uint32-of_int (target - e) (omega arith) in
      let forwards : e ≤ target = ground arith in omega (arith, rel)
  | inr sign ↦
      let difference : pos target -ℤ pos e ≡ negsuc (e - target - 1) = ground arith in
      let backwards : target < e = ground arith in
      let wraps : WrapsNegative D = elim direction [
        | inl forwards ↦ absurd (omega arith)
        | inr w ↦ w
      ] in
      let rel : rel_ptr D c size ≡ 2 ^ 32 - 1 - (e - target - 1) =
        given
        ∙ ap (λ (z : ℤ). D.to_uint32 (D.of_int z)) difference
        ∙ wraps (e - target - 1) (omega arith) in
      omega (arith, rel)
]
  where
    e : ℕ
    e = c.x86_ip + size

    given : rel_ptr D c size ≡ D.to_uint32 (D.of_int (pos target -ℤ pos e))
    given =
        ap (λ (v : ℕ). D.to_uint32 (D.minus v (D.of_int (pos e)))) label
        ∙ ap D.to_uint32 (
            exact.minus-of_int (pos target) (pos e) (omega arith, omega arith)
              (omega arith, omega arith) (ground arith, ground arith))

-- A jump or a call whose target is found, and that has the size of its code, becomes code that ends in
-- a displacement of 32 bits; counted from the end of the code, the displacement leads to the x86
-- address that was found. Both addresses are below 2 ^ 31, and either the target is not before the
-- end of the code, or the host converts negative doubles to `uint32_t` modulo 2 ^ 32, on which the code
-- of a jump backwards relies and which C++ leaves undefined.
pub translate_cmd-target :
    (D : Doubles) (exact : ExactInts D) (k : ℕ) (all : List Command) (c : Command) (target : ℕ)
    → is_jump c.name ≡ true
    → IsSized c
    → find_jump_ip (D.to_int c.value) all ≡ pos target
    → c.x86_ip + c.x86_size < 2 ^ 31
    → target < 2 ^ 31
    → (c.x86_ip + c.x86_size ≤ target) ⊎ WrapsNegative D
    → (rel : ℕ) × EndsWithPtr (translate_cmd D k (fill_jump_label D all c)) rel
      × ((c.x86_ip + c.x86_size + rel) % 2 ^ 32 ≡ target)
unfolding translate_cmd fill_jump_label
translate_cmd-target D exact k all c target jumps sized found near h direction =
    let c' : Command = record c { value = D.of_int (pos target) } in
    let labels : fill_jump_label D all c ≡ c' =
      ap
        (λ (b : Bool).
          if b then record c { value = D.of_int (find_jump_ip (D.to_int c.value) all) } else c)
        jumps
      ∙ ap (λ (z : ℤ). record c { value = D.of_int z }) found in
    let size = emitted_size c.name c.checksum in
    let (opcodes, code) = translate_case-jump D k c.name c.checksum c' jumps in
    let lands =
      rel_ptr-displaced D exact c' size target refl
        (subst (λ (t : ℕ). c.x86_ip + t < 2 ^ 31) sized near) h
        (subst (λ (t : ℕ). (c.x86_ip + t ≤ target) ⊎ WrapsNegative D) sized direction) in
    (
      rel_ptr D c' size,
      (opcodes, ap (translate_cmd D k) labels ∙ code),
      subst (λ (t : ℕ). (c.x86_ip + t + rel_ptr D c' size) % 2 ^ 32 ≡ target) (sym sized) lands,
    )
