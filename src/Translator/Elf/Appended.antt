-- ===== src/Translator/Elf/Appended.antt =====
-- What src/write_in_elf.cpp of BinaryTranslator-main appends stands where the calls in the code lead.
use best_practices.Base.{
  ℕ, ◌+◌, ◌≤◌, ◌<◌, ◌≡◌, refl, ap, sym, subst, ◌∙◌, Bool, true, false, ◌==◌, leb, if◌then◌else◌,
  ◌&&◌, some, List, [], ◌∷◌, arith,
}
use best_practices.Base.Lists.{length}
use best_practices.Translator.Commands.{Command}
use best_practices.Translator.Units.{translate_out, translate_in}
use best_practices.Translator.Units.Calls.{CallsTo, translate_out-CallsTo, translate_in-CallsTo}
use best_practices.Translator.Buffer.{Buffer, capacity}
use best_practices.Translator.Buffer.Writes.{Holds, Holds-agree, AgreeBelow, Emits}
use best_practices.Translator.Elf.{
  copied, append_bin_func, Executable, write_elf_header, write_text_section, write_in_elf,
}

copied-below : (xs : List ℕ) (a j : ℕ) (f : ℕ → ℕ) → j < a → copied xs a f j ≡ f j
unfolding copied
copied-below [] a j f h = refl
copied-below (x ∷ xs) a j f h =
    let other : (j == a) ≡ false = ground arith in
    rw (copied, other) (copied-below xs (a + 1) j f (omega arith))

Holds-agree_above :
    (xs : List ℕ) (a : ℕ) (f g : ℕ → ℕ)
    → ((j : ℕ) → a ≤ j → f j ≡ g j)
    → Holds a f xs
    → Holds a g xs
Holds-agree_above [] a f g same holds = tt
Holds-agree_above (x ∷ xs) a f g same holds = (
  sym (same a (omega arith)) ∙ holds.0,
  Holds-agree_above xs (a + 1) f g (λ j h. same j (omega arith)) holds.1,
)

pub copied-Holds : (xs : List ℕ) (a : ℕ) (f : ℕ → ℕ) → Holds a (copied xs a f) xs
unfolding copied
copied-Holds [] a f = tt
copied-Holds (x ∷ xs) a f =
    let here : (a == a) ≡ true = ground arith in
    (
      rw (copied, here) refl,
      Holds-agree_above xs (a + 1) (copied xs (a + 1) f) (copied (x ∷ xs) a f) (λ j h. behind j h)
          (copied-Holds xs (a + 1) f),
    )
  where
    behind : (j : ℕ) → a + 1 ≤ j → copied xs (a + 1) f j ≡ copied (x ∷ xs) a f j
    behind j h =
        let other : (j == a) ≡ false = ground arith in
        sym (ap (λ (t : Bool). if t then x else copied xs (a + 1) f j) other)

append_bin_func-Emits :
    (xs : List ℕ) (b : Buffer)
    → length xs ≤ 1000
    → b.len + length xs ≤ capacity
    → Emits xs b (append_bin_func xs b)
unfolding append_bin_func
append_bin_func-Emits xs b h k =
    let fits : (leb (length xs) 1000 && leb (b.len + length xs) capacity) ≡ true = ground arith in
    (
      record { content = copied xs b.len b.content; len = b.len + length xs },
      rw (append_bin_func, fits) refl,
      refl,
      copied-Holds xs b.len b.content,
      λ j p. sym (copied-below xs b.len j b.content p),
    )

-- When the code ends at address k, in the buffer ten bytes above, the code of printf has the 219 bytes
-- that the translation reckons with, and that of scanf at most 1000, and both fit the buffer, then the
-- executable is written: the code stays as it was, the call in the code of an OUT whose 41 bytes end at
-- or before k leads to where printf stands, and the call in the code of an IN whose 18 bytes end at or
-- before k leads to where scanf stands.
pub write_in_elf-CallsTo :
    (printf_bin scanf_bin : List ℕ) (b : Buffer) (k : ℕ) (prints reads : Command)
    → length printf_bin ≡ 219
    → length scanf_bin ≤ 1000
    → b.len ≡ 10 + k
    → b.len + 219 + length scanf_bin ≤ capacity
    → prints.x86_ip + 41 ≤ k
    → reads.x86_ip + 18 ≤ k
    → (e : Executable) × (printf_ip scanf_ip : ℕ) × (write_in_elf printf_bin scanf_bin b ≡ some e)
      × AgreeBelow b.len b.content e.code.content
      × CallsTo prints.x86_ip (translate_out k prints) printf_ip
      × Holds (10 + printf_ip) e.code.content printf_bin
      × CallsTo reads.x86_ip (translate_in k reads) scanf_ip
      × Holds (10 + scanf_ip) e.code.content scanf_bin
unfolding write_in_elf
write_in_elf-CallsTo printf_bin scanf_bin b k prints reads size small at_end fits out_inside
      in_inside =
    let (b1, e1, l1, h1, a1) = append_bin_func-Emits printf_bin b (omega arith) (omega arith) in
    let (b2, e2, l2, h2, a2) = append_bin_func-Emits scanf_bin b1 small (omega (arith, l1)) in
    let next : b1.len ≡ 10 + (k + 219) = omega (arith, l1) in
    let kept =
      Holds-agree printf_bin b.len b1.len b1.content b2.content (omega (arith, l1)) a2 h1 in
    (
      record { header = write_elf_header; text_section = write_text_section b; code = b2 },
      k,
      k + 219,
      rw (write_in_elf, e1, e2) refl,
      λ j p. a1 j p ∙ a2 j (omega (arith, l1)),
      translate_out-CallsTo k prints out_inside (omega arith),
      subst (λ (t : ℕ). Holds t b2.content printf_bin) at_end kept,
      translate_in-CallsTo k reads in_inside (omega arith),
      subst (λ (t : ℕ). Holds t b2.content scanf_bin) next h2,
    )
