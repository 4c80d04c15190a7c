-- ===== src/Translator/Parser/Programs.antt =====
-- The parser of BinaryTranslator-main/src/parser.cpp reads back each program of the format.
use mathlib.Core.List.{append_assoc, append-nil}
use native.Mathlib.Nat.{add-zero, add_assoc}
use best_practices.Base.{
  ℕ, zero, suc, ◌+◌, ◌/◌, ◌≤◌, ◌≡◌, refl, ap, sym, ◌∙◌, none, some, List, [], ◌∷◌, ◌++◌, arith,
  bit_and,
}
use best_practices.Base.Lists.{length, All}
use best_practices.Translator.Commands.{Command, case_of, commands_by_id, header_offset}
use best_practices.Translator.Parser.{advance, Parsing, parse_loop, parse_on_structs, cmd_to_struct}
use best_practices.Translator.Parser.Encoding.{
  little_endian, Native, simple, jump, operand, encode, encode_all, FitsNative, described,
}
use best_practices.Translator.Parser.RoundTrip.{after, cmd_to_struct-encode}

length-append {ℓ} : {A : Type ℓ} (xs ys : List A) → length (xs ++ ys) ≡ length xs + length ys
length-append [] ys = omega arith
length-append (x ∷ xs) ys = omega (arith, length-append xs ys)

advance-append : (xs ys : List ℕ) → advance (length xs) (xs ++ ys) ≡ ys
unfolding advance
advance-append [] ys = refl
advance-append (x ∷ xs) ys = advance-append xs ys

advance-empty : (n : ℕ) → advance n [] ≡ []
unfolding advance
advance-empty zero = refl
advance-empty (suc n) = refl

advance-add : (m n : ℕ) (xs : List ℕ) → advance (m + n) xs ≡ advance n (advance m xs)
unfolding advance
advance-add zero n xs = ap (λ (t : ℕ). advance t xs) {x = zero + n} {y = n} (omega arith)
advance-add (suc m) n [] = advance-empty (suc m + n) ∙ sym (advance-empty n)
advance-add (suc m) n (x ∷ xs) = ap (λ (t : ℕ). advance t (x ∷ xs)) fuel ∙ advance-add m n xs
  where
    fuel : suc m + n ≡ suc (m + n)
    fuel = omega arith

length-little_endian : (w n : ℕ) → length (little_endian w n) ≡ w
unfolding little_endian
length-little_endian zero n = refl
length-little_endian (suc w) n = ap (λ (t : ℕ). suc t) (length-little_endian w (n / 256))

pub length-encode : (c : Native) → length (encode c) ≡ (described c).native_size
unfolding encode described
length-encode (simple name) = refl
length-encode (jump name target padding) = refl
length-encode (operand name variation v r) = refl

-- The commands that a program stands for, and how many bytes it has
unfoldable pub describe_all : List Native → List Command
unfolding described
describe_all [] = []
describe_all (c ∷ cs) = described c ∷ describe_all cs

-- The loop reads the commands that are left, up to a byte that is no command's.
parse_loop-encode_all :
    (cs : List Native) (rounds end : ℕ) (content trailing : List ℕ) (s : Parsing)
    → All FitsNative cs
    → length cs ≤ rounds
    → case_of (bit_and end 31) commands_by_id ≡ none
    → advance s.native_ip_counter content ≡ encode_all cs ++ (end ∷ trailing)
    → parse_loop rounds content s
      ≡ some (record {
        cmds_array = s.cmds_array ++ describe_all cs;
        native_ip_counter = s.native_ip_counter + length (encode_all cs);
      })
unfolding parse_loop encode_all describe_all cmd_to_struct after
parse_loop-encode_all [] zero end content trailing s fits enough stop here =
    rw (append-nil, add-zero) refl
parse_loop-encode_all [] (suc rounds) end content trailing s fits enough stop here =
    rw (parse_loop, here, cmd_to_struct, stop, append-nil, add-zero) refl
parse_loop-encode_all (c ∷ cs) zero end content trailing s fits enough stop here =
    absurd (omega arith)
parse_loop-encode_all (c ∷ cs) (suc rounds) end content trailing s fits enough stop here =
    let rest = encode_all cs ++ (end ∷ trailing) in
    let split : advance s.native_ip_counter content ≡ encode c ++ rest =
      here ∙ append_assoc (encode c) (encode_all cs) (end ∷ trailing) in
    let moved : advance (after c s).native_ip_counter content ≡ rest =
      advance-add s.native_ip_counter (described c).native_size content
      ∙ (rw (split, ← length-encode c) (advance-append (encode c) rest)) in
    let later =
      parse_loop-encode_all cs rounds end content trailing (after c s) fits.1 (omega arith) stop
        moved in
    rw (parse_loop, split, cmd_to_struct-encode c rest s fits.0)
      (later
        ∙ (rw (append_assoc, length-append (encode c) (encode_all cs), length-encode c, ← add_assoc)
            refl))

encode-length : (cs : List Native) → length cs ≤ length (encode_all cs)
unfolding encode_all encode
encode-length [] = omega arith
encode-length (simple name ∷ cs) = omega (arith, encode-length cs)
encode-length (jump name target padding ∷ cs) =
    let here = length-append (encode (jump name target padding)) (encode_all cs) in
    omega (arith, encode-length cs, here)
encode-length (operand name variation v r ∷ cs) =
    let here = length-append (encode (operand name variation v r)) (encode_all cs) in
    omega (arith, encode-length cs, here)

-- A file of a header of eight bytes, the bytes of a program whose values are 64-bit patterns, a byte
-- whose low five bits are no command's, and anything after it is read as the commands that the
-- program stands for, in order, and the parser stops at that byte.
pub parse_on_structs-encode_all :
    (header : List ℕ) (cs : List Native) (end : ℕ) (trailing : List ℕ)
    → length header ≡ 8
    → All FitsNative cs
    → case_of (bit_and end 31) commands_by_id ≡ none
    → parse_on_structs (header ++ (encode_all cs ++ (end ∷ trailing)))
      ≡ some
          (record { cmds_array = describe_all cs; native_ip_counter = 8 + length (encode_all cs) })
unfolding parse_on_structs
parse_on_structs-encode_all header cs end trailing size fits stop =
    let program = encode_all cs ++ (end ∷ trailing) in
    let content = header ++ program in
    let enough : length cs ≤ length content = omega (
      arith,
      length-append header program,
      length-append (encode_all cs) (end ∷ trailing),
      encode-length cs,
    ) in
    let here : advance 8 content ≡ program = rw (← size) (advance-append header program) in
    parse_loop-encode_all cs (length content) end content trailing
      (record { cmds_array = []; native_ip_counter = header_offset }) fits enough stop here
