-- ===== src/Translator/Buffer/Layout.antt =====
-- Where BinaryTranslator-main/src/translation.cpp puts the code of each command: at the address that
-- `FillCmdIp` of src/parser.cpp computed for it, after the first ten bytes.
use best_practices.Base.{
  ℕ, ◌+◌, ◌≤◌, ◌≡◌, inl, inr, ap, sym, subst, ◌∙◌, true, false, some, List, [], ◌∷◌, ◌++◌, arith,
  Bool-cases,
}
use best_practices.Base.Lists.{length, All}
use best_practices.Translator.Commands.{Command, CommandName}
use best_practices.Translator.Doubles.{Doubles}
use best_practices.Translator.Parser.Encoding.{little_endian}
use best_practices.Translator.Addresses.{
  Filled, fill_from, fill_cmd_ip, fill_jump_label, fill_labels_from, fill_jump_labels,
}
use best_practices.Translator.Addresses.Layout.{
  fill_jump_label-SameButValue, fill_from_skipped, fill_from_command,
}
use best_practices.Translator.Units.{translate_cmd}
use best_practices.Translator.Units.Sizes.{emitted_size, length-translate_cmd}
use best_practices.Translator.Optimizer.Arrays.{IsSized}
use best_practices.Translator.Buffer.{Buffer, capacity, prologue, translate}
use best_practices.Translator.Buffer.Writes.{bytes_of, bytes_of_all, Holds, length-append}
use best_practices.Translator.Buffer.Placement.{
  emitted, Placed, emitted_skipped, emitted_command, start_translation-Emits, Holds-split,
}

-- The commands at `cs`, labelled, when they are filled from these addresses
abbrev labelled : Doubles → List Command → ℕ → ℕ → List Command → List Command
labelled D all n x cs = fill_labels_from D all (fill_from n x cs).cmds_array

-- A skipped command stays as it is, but for its label.
labelled_skipped :
    (D : Doubles) (all : List Command) (n x : ℕ) (c : Command) (cs : List Command)
    → c.is_skip ≡ true
    → labelled D all n x (c ∷ cs) ≡ fill_jump_label D all c ∷ labelled D all n x cs
unfolding fill_labels_from
labelled_skipped D all n x c cs e =
    ap (λ (f : Filled). fill_labels_from D all f.cmds_array) (fill_from_skipped n x c cs e)

labelled_command :
    (D : Doubles) (all : List Command) (n x : ℕ) (c : Command) (cs : List Command)
    → c.is_skip ≡ false
    → labelled D all n x (c ∷ cs)
      ≡ fill_jump_label D all (record c { native_ip = n; x86_ip = x })
        ∷ labelled D all (n + c.native_size) (x + c.x86_size) cs
unfolding fill_labels_from
labelled_command D all n x c cs e =
    ap (λ (f : Filled). fill_labels_from D all f.cmds_array) (fill_from_command n x c cs e)

-- The commands have the addresses of their code, one after the other, up to the counter.
module _ (D : Doubles) (k : ℕ) (all : List Command) where
  bytes_skipped :
      (n x : ℕ) (c : Command) (cs : List Command)
      → c.is_skip ≡ true
      → emitted D k (labelled D all n x (c ∷ cs)) ≡ emitted D k (labelled D all n x cs)
  bytes_skipped n x c cs e =
      let (_, _, skip, _) = fill_jump_label-SameButValue D all c in
      ap (emitted D k) (labelled_skipped D all n x c cs e)
      ∙ emitted_skipped D k (fill_jump_label D all c) (labelled D all n x cs) (skip ∙ e)

  -- The code of a command that is not skipped, and its size
  code_of : ℕ → ℕ → Command → List ℕ
  code_of n x c =
      bytes_of_all
        (translate_cmd D k (fill_jump_label D all (record c { native_ip = n; x86_ip = x })))

  length-code_of : (n x : ℕ) (c : Command) → IsSized c → length (code_of n x c) ≡ c.x86_size
  unfolding code_of
  length-code_of n x c sized =
      let placed : Command = record c { native_ip = n; x86_ip = x } in
      let c' = fill_jump_label D all placed in
      let (name, checksum, _, _) = fill_jump_label-SameButValue D all placed in
      length-translate_cmd D k c'
      ∙ ap (λ (t : CommandName). emitted_size t c'.checksum) name
      ∙ ap (emitted_size c.name) checksum
      ∙ sym sized

  bytes_command :
      (n x : ℕ) (c : Command) (cs : List Command)
      → c.is_skip ≡ false
      → emitted D k (labelled D all n x (c ∷ cs))
        ≡ code_of n x c ++ emitted D k (labelled D all (n + c.native_size) (x + c.x86_size) cs)
  unfolding code_of
  bytes_command n x c cs e =
      let placed : Command = record c { native_ip = n; x86_ip = x } in
      let (_, _, skip, _) = fill_jump_label-SameButValue D all placed in
      ap (emitted D k) (labelled_command D all n x c cs e)
      ∙ emitted_command D k (fill_jump_label D all placed)
          (labelled D all (n + c.native_size) (x + c.x86_size) cs) (skip ∙ e)

  length-emitted :
      (n x : ℕ) (cs : List Command)
      → All IsSized cs
      → x + length (emitted D k (labelled D all n x cs)) ≡ (fill_from n x cs).x86_ip_counter
  unfolding fill_from fill_labels_from emitted
  length-emitted n x [] sized = omega arith
  length-emitted n x (c ∷ cs) sized = elim (Bool-cases c.is_skip) [
    | inl e ↦
        ap (λ (t : List ℕ). x + length t) (bytes_skipped n x c cs e)
        ∙ length-emitted n x cs sized.1
        ∙ ap (λ (f : Filled). f.x86_ip_counter) (sym (fill_from_skipped n x c cs e))
    | inr e ↦
        let code = code_of n x c in
        let later = emitted D k (labelled D all (n + c.native_size) (x + c.x86_size) cs) in
        let total : x + length (code ++ later) ≡ x + c.x86_size + length later =
          omega (arith, length-append code later, length-code_of n x c sized.0) in
        ap (λ (t : List ℕ). x + length t) (bytes_command n x c cs e)
        ∙ total
        ∙ length-emitted (n + c.native_size) (x + c.x86_size) cs sized.1
        ∙ ap (λ (f : Filled). f.x86_ip_counter) (sym (fill_from_command n x c cs e))
  ]

  -- Each command's code stands at its address where the code of all of them stands.
  labelled-Placed :
      (n x : ℕ) (cs : List Command) (content : ℕ → ℕ)
      → All IsSized cs
      → Holds (10 + x) content (emitted D k (labelled D all n x cs))
      → All (Placed D k content) (labelled D all n x cs)
  unfolding fill_from fill_labels_from emitted code_of
  labelled-Placed n x [] content sized holds = tt
  labelled-Placed n x (c ∷ cs) content sized holds = elim (Bool-cases c.is_skip) [
    | inl e ↦
        let (_, _, skip, _) = fill_jump_label-SameButValue D all c in
        let here = subst (Holds (10 + x) content) (bytes_skipped n x c cs e) holds in
        subst (All (Placed D k content)) (sym (labelled_skipped D all n x c cs e))
          (inl (skip ∙ e), labelled-Placed n x cs content sized.1 here)
    | inr e ↦
        let placed : Command = record c { native_ip = n; x86_ip = x } in
        let (_, _, _, at_ip) = fill_jump_label-SameButValue D all placed in
        let here = subst (Holds (10 + x) content) (bytes_command n x c cs e) holds in
        let rest = labelled D all (n + c.native_size) (x + c.x86_size) cs in
        let (first, later) = Holds-split (code_of n x c) (emitted D k rest) (10 + x) content here in
        let code = subst (λ (t : ℕ). Holds (10 + t) content (code_of n x c)) (sym at_ip) first in
        let next : 10 + x + length (code_of n x c) ≡ 10 + (x + c.x86_size) =
          omega (arith, length-code_of n x c sized.0) in
        let others = subst (λ (t : ℕ). Holds t content (emitted D k rest)) next later in
        subst (All (Placed D k content)) (sym (labelled_command D all n x c cs e))
          (inr code, labelled-Placed (n + c.native_size) (x + c.x86_size) cs content sized.1 others)
  ]

-- For commands that have the sizes of their code, and code that fits the buffer with the prologue of
-- ten bytes and eight bytes to spare, the translation returns a buffer with the prologue at its start
-- and the code of every command that is not skipped ten bytes above the address computed for it, and
-- the code ends where the computed size says.
pub translate-Placed :
    (D : Doubles) (cs : List Command) (b : Buffer)
    → All IsSized cs
    → b.len ≡ 0
    → 10 + (fill_cmd_ip cs).x86_ip_counter + 8 ≤ capacity
    → (b' : Buffer) × (translate D cs b ≡ some b')
      × (b'.len ≡ 10 + (fill_cmd_ip cs).x86_ip_counter)
      × Holds 0 b'.content (bytes_of_all prologue)
      × All
          (Placed D (fill_cmd_ip cs).x86_ip_counter b'.content)
          (fill_jump_labels D (fill_cmd_ip cs).cmds_array)
unfolding translate fill_cmd_ip fill_jump_labels bytes_of_all bytes_of little_endian
translate-Placed D cs b sized start fits =
    let k = (fill_cmd_ip cs).x86_ip_counter in
    let all = (fill_cmd_ip cs).cmds_array in
    let total : 0 + length (emitted D k (fill_jump_labels D all)) ≡ k =
      length-emitted D k all 8 0 cs sized in
    let (b', e, l, holds, _) =
      start_translation-Emits D k (fill_jump_labels D all) b (omega (arith, total)) in
    let at_zero =
      subst
        (λ (t : ℕ).
          Holds t b'.content (bytes_of_all prologue ++ emitted D k (fill_jump_labels D all)))
        start holds in
    let (first, later) =
      Holds-split (bytes_of_all prologue) (emitted D k (fill_jump_labels D all)) 0 b'.content
        at_zero in
    (
      b',
      e,
      omega (
        arith,
        l,
        total,
        length-append (bytes_of_all prologue) (emitted D k (fill_jump_labels D all)),
      ),
      first,
      labelled-Placed D k all 8 0 cs b'.content sized later,
    )
