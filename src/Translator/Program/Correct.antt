-- ===== src/Translator/Program/Correct.antt =====
-- From the bytes of a program to its x86 code: src/main.cpp of BinaryTranslator-main.
use best_practices.Base.{
  ℕ, ◌+◌, ◌*◌, ◌≤◌, ◌≡◌, refl, true, ltb, leb, if◌then◌else◌, none, some, List, [], ◌∷◌, ◌++◌,
  arith, bit_and,
}
use best_practices.Base.Lists.{length, All}
use best_practices.Translator.Commands.{Command, case_of, commands_by_id}
use best_practices.Translator.Doubles.{Doubles}
use best_practices.Translator.Parser.{Parsing, parse_on_structs}
use best_practices.Translator.Parser.Encoding.{Native, FitsNative, encode_all}
use best_practices.Translator.Parser.Programs.{describe_all, parse_on_structs-encode_all}
use best_practices.Translator.Addresses.{fill_cmd_ip, fill_jump_labels}
use best_practices.Translator.Optimizer.{optimize_cmd_flow}
use best_practices.Translator.Optimizer.Arrays.{PlainAt}
use best_practices.Translator.Optimizer.Preservation.{optimize_cmd_flow-All}
use best_practices.Translator.Buffer.{Buffer, capacity, allocate, translate}
use best_practices.Translator.Buffer.Placement.{Placed}
use best_practices.Translator.Buffer.Layout.{translate-Placed}
use best_practices.Translator.Program.{compile}
use best_practices.Translator.Program.Sized.{NoPopImm, describe_all-IsSized, fill_from-le}

length-describe_all : (cs : List Native) → length (describe_all cs) ≡ length cs
unfolding describe_all
length-describe_all [] = refl
length-describe_all (c ∷ cs) = omega (arith, length-describe_all cs)

allocate_lem : (n : ℕ) → n ≤ capacity → (b : Buffer) × (allocate n ≡ some b) × (b.len ≡ 0)
unfolding allocate
allocate_lem n h =
    let fits : leb n capacity ≡ true = ground arith in
    (record { content = λ j. if ltb j n then 0xC3 else 0; len = 0 }, rw (allocate, fits) refl, refl)

-- The parts of `main` that return, in order
compile_lem :
    (D : Doubles) (content : List ℕ) {b b' : Buffer} {s : Parsing} {cs : List Command}
    → allocate (length content) ≡ some b
    → parse_on_structs content ≡ some s
    → optimize_cmd_flow D s.cmds_array ≡ some cs
    → translate D cs b ≡ some b'
    → compile D content ≡ some b'
unfolding compile
compile_lem D content e1 e2 e3 e4 = rw (compile, e1, e2, e3, e4) refl

-- A file of at most 8192 bytes, made of a header of eight bytes, a program and a byte that is no
-- command's, is compiled, whatever the arithmetic on doubles is, when the program's values are 64-bit
-- patterns, it has no pop of a number, its first two commands are no arithmetic, and its commands fit
-- the buffer with 41 bytes for each: the commands that it stands for are optimized, and the code of
-- each that is not skipped stands ten bytes above the address computed for it.
pub compile-Placed :
    (D : Doubles) (header : List ℕ) (cs : List Native) (end : ℕ) (trailing : List ℕ)
    → length header ≡ 8
    → All FitsNative cs
    → All NoPopImm cs
    → case_of (bit_and end 31) commands_by_id ≡ none
    → PlainAt 0 (describe_all cs)
    → PlainAt 1 (describe_all cs)
    → length (header ++ (encode_all cs ++ (end ∷ trailing))) ≤ 8192
    → 10 + 41 * length cs + 8 ≤ 8192
    → (optimized : List Command) × (b : Buffer) × (optimize_cmd_flow D (describe_all cs)
        ≡ some optimized)
      × (compile D (header ++ (encode_all cs ++ (end ∷ trailing))) ≡ some b)
      × (b.len ≡ 10 + (fill_cmd_ip optimized).x86_ip_counter)
      × All
          (Placed D (fill_cmd_ip optimized).x86_ip_counter b.content)
          (fill_jump_labels D (fill_cmd_ip optimized).cmds_array)
unfolding fill_cmd_ip
compile-Placed D header cs end trailing size fits sizes stop p0 p1 short small =
    let content = header ++ (encode_all cs ++ (end ∷ trailing)) in
    let (b, allocated, start) = allocate_lem (length content) short in
    let parsed = parse_on_structs-encode_all header cs end trailing size fits stop in
    let (optimized, returned, len, sized) =
      optimize_cmd_flow-All D (describe_all cs) (describe_all-IsSized cs sizes) p0 p1 in
    let bound = fill_from-le 8 0 optimized sized in
    let (b', translated, end_len, _, placed) =
      translate-Placed D optimized b sized start
        (omega (arith, bound, len, length-describe_all cs)) in
    (
      optimized,
      b',
      returned,
      compile_lem D content allocated parsed returned translated,
      end_len,
      placed,
    )
