-- ===== src/Translator/Buffer/Placement.antt =====
-- What the loop of BinaryTranslator-main/src/translation.cpp emits: the code of the commands that are
-- not skipped, in order, after the prologue.
use best_practices.Base.{
  ℕ, ◌+◌, ◌≤◌, ◌≡◌, ◌⊎◌, inl, inr, refl, ap, sym, subst, Bool, true, false, none, some, List, [],
  ◌∷◌, ◌++◌, arith, Bool-cases,
}
use best_practices.Base.Lists.{length}
use best_practices.Translator.Commands.{Command}
use best_practices.Translator.Doubles.{Doubles}
use best_practices.Translator.Parser.Encoding.{little_endian}
use best_practices.Translator.Units.{translate_cmd}
use best_practices.Translator.Units.Sizes.{translate_cmd-all_fit}
use best_practices.Translator.Buffer.{
  Buffer, capacity, write_all, translate_from, prologue, start_translation,
}
use best_practices.Translator.Buffer.Writes.{
  bytes_of, bytes_of_all, Holds, Emits, Emits-append, write_all-Emits, length-append,
}

-- The code of the commands that are not skipped, in order
unfoldable pub emitted : Doubles → ℕ → List Command → List ℕ
unfolding bytes_of_all translate_cmd
emitted D k [] = []
emitted D k (c ∷ cs) = elim c.is_skip [
  | true ↦ emitted D k cs
  | false ↦ bytes_of_all (translate_cmd D k c) ++ emitted D k cs
]

-- The code of a command stands at its address, unless it is skipped.
abbrev pub Placed : Doubles → ℕ → (ℕ → ℕ) → Command → Type 0
Placed D k content c =
    (c.is_skip ≡ true) ⊎ Holds (10 + c.x86_ip) content (bytes_of_all (translate_cmd D k c))

-- One command of the lists above, by its flag.
module _ (D : Doubles) (k : ℕ) (c : Command) (cs : List Command) where
  pub emitted_skipped : c.is_skip ≡ true → emitted D k (c ∷ cs) ≡ emitted D k cs
  unfolding emitted
  emitted_skipped e = rw (emitted, e) refl

  pub emitted_command :
      c.is_skip ≡ false
      → emitted D k (c ∷ cs) ≡ bytes_of_all (translate_cmd D k c) ++ emitted D k cs
  unfolding emitted
  emitted_command e =
      ap
        (λ (skip : Bool). elim skip [
          | true ↦ emitted D k cs
          | false ↦ bytes_of_all (translate_cmd D k c) ++ emitted D k cs
        ])
        e

  translate_from_skipped :
      (b : Buffer) → c.is_skip ≡ true → translate_from D k (c ∷ cs) b ≡ translate_from D k cs b
  unfolding translate_from
  translate_from_skipped b e = rw (translate_from, e) refl

  translate_from_command :
      (b : Buffer)
      → c.is_skip ≡ false
      → translate_from D k (c ∷ cs) b ≡ elim (write_all (translate_cmd D k c) b) [
        | none ↦ none
        | some b' ↦ translate_from D k cs b'
      ]
  unfolding translate_from
  translate_from_command b e =
      ap
        (λ (skip : Bool). elim skip [
          | true ↦ translate_from D k cs b
          | false ↦ elim (write_all (translate_cmd D k c) b) [
            | none ↦ none
            | some b' ↦ translate_from D k cs b'
          ]
        ])
        e

translate_from-Emits :
    (D : Doubles) (k : ℕ) (cs : List Command) (b : Buffer)
    → b.len + length (emitted D k cs) + 8 ≤ capacity
    → Emits (emitted D k cs) b (translate_from D k cs b)
unfolding emitted translate_from
translate_from-Emits D k [] b h = (b, refl, omega arith, tt, λ j p. refl)
translate_from-Emits D k (c ∷ cs) b h = elim (Bool-cases c.is_skip) [
  | inl e ↦
      let same = emitted_skipped D k c cs e in
      let fits = subst (λ (xs : List ℕ). b.len + length xs + 8 ≤ capacity) same h in
      subst (λ (xs : List ℕ). Emits xs b (translate_from D k (c ∷ cs) b)) (sym same)
        (subst (Emits (emitted D k cs) b) (sym (translate_from_skipped D k c cs b e))
          (translate_from-Emits D k cs b fits))
  | inr e ↦
      let code = bytes_of_all (translate_cmd D k c) in
      let later = emitted D k cs in
      let same = emitted_command D k c cs e in
      let fits = subst (λ (xs : List ℕ). b.len + length xs + 8 ≤ capacity) same h in
      let total = length-append code later in
      subst (λ (xs : List ℕ). Emits xs b (translate_from D k (c ∷ cs) b)) (sym same)
        (subst (Emits (code ++ later) b) (sym (translate_from_command D k c cs b e)) (
          Emits-append code later b (write_all (translate_cmd D k c) b) (translate_from D k cs)
            (write_all-Emits (translate_cmd D k c) b (translate_cmd-all_fit D k c) (omega arith))
            (λ b' l. translate_from-Emits D k cs b' (omega (arith, l, total)))))
]

pub start_translation-Emits :
    (D : Doubles) (k : ℕ) (cs : List Command) (b : Buffer)
    → b.len + (10 + length (emitted D k cs)) + 8 ≤ capacity
    → Emits (bytes_of_all prologue ++ emitted D k cs) b (start_translation D k cs b)
unfolding start_translation bytes_of_all bytes_of little_endian
start_translation-Emits D k cs b h =
    Emits-append (bytes_of_all prologue) (emitted D k cs) b (write_all prologue b)
      (translate_from D k cs) (write_all-Emits prologue b refl (omega arith))
      (λ b' l. translate_from-Emits D k cs b' (omega (arith, l)))

pub Holds-split :
    (xs ys : List ℕ) (a : ℕ) (f : ℕ → ℕ)
    → Holds a f (xs ++ ys)
    → Holds a f xs × Holds (a + length xs) f ys
Holds-split [] ys a f h = (tt, subst (λ (t : ℕ). Holds t f ys) (omega arith) h)
Holds-split (x ∷ xs) ys a f h =
    let (first, later) = Holds-split xs ys (a + 1) f h.1 in
    ((h.0, first), subst (λ (t : ℕ). Holds t f ys) (omega arith) later)
