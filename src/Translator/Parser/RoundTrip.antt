-- ===== src/Translator/Parser/RoundTrip.antt =====
-- The parser of BinaryTranslator-main/src/parser.cpp reads back each command of the format.
use mathlib.Core.List.{append_assoc}
use native.Mathlib.Nat.{pow-suc}
use best_practices.Base.{
  ℕ, zero, suc, ◌+◌, ◌/◌, ◌^◌, ◌<◌, ◌≡◌, refl, ap, ◌∙◌, some, List, [], ◌∷◌, ◌++◌, arith, Bool,
  true, false, ◌||◌, bit_and, bit_or, if◌then◌else◌,
}
use best_practices.Translator.Commands.{
  CommandName, Command, new_command, native_size_of, x86_size_of, is_jump, case_of, commands_by_id,
}
use best_practices.Translator.Parser.{
  advance, read_double, signed_char, is_push, is_pop, push_pop_size, fill_push_pop_struct, Parsing,
  next, fill_jump, fill_cmd_info, cmd_to_struct,
}
use best_practices.Translator.Parser.Encoding.{
  little_endian, SimpleName, hlt, mul, add, sub, div, out, in_cmd, ret, sqr, JumpName, jmp, jg, jge,
  ja, jae, je, jne, call, OperandName, push, pop, Variation, void, imm, reg, ram, imm_reg, imm_ram,
  reg_ram, imm_reg_ram, flags_of, simple_id, jump_id, operand_id, Native, simple, jump, operand,
  encode, FitsNative, jump_name, operand_name, operand_size, described,
}

read_double-little_endian :
    (w n : ℕ) (rest : List ℕ) → n < 256 ^ w → read_double w (little_endian w n ++ rest) ≡ some n
unfolding read_double little_endian
read_double-little_endian zero n rest h = ap (λ (t : ℕ). some t) (omega arith)
read_double-little_endian (suc w) n rest h =
    let later = read_double-little_endian w (n / 256) rest (omega (arith, pow-suc 256 w)) in
    rw later (ap (λ (t : ℕ). some t) (omega arith))

advance-little_endian : (w n : ℕ) (rest : List ℕ) → advance w (little_endian w n ++ rest) ≡ rest
unfolding advance little_endian
advance-little_endian zero n rest = refl
advance-little_endian (suc w) n rest = advance-little_endian w (n / 256) rest

-- What the parser's tests say of each command of the format.
simple_facts :
    (name : SimpleName) (s : Parsing) (rest : List ℕ)
    → cmd_to_struct (simple_id name ∷ rest) s
      ≡ next (record {
        cmds_array = s.cmds_array ++ (described (simple name) ∷ []);
        native_ip_counter = s.native_ip_counter + 1;
      })
unfolding cmd_to_struct fill_cmd_info case_of is_push is_pop fill_jump is_jump native_size_of
    x86_size_of described
simple_facts hlt s rest = refl
simple_facts mul s rest = refl
simple_facts add s rest = refl
simple_facts sub s rest = refl
simple_facts div s rest = refl
simple_facts out s rest = refl
simple_facts in_cmd s rest = refl
simple_facts ret s rest = refl
simple_facts sqr s rest = refl

jump_facts :
    (name : JumpName)
    → (case_of (bit_and (jump_id name) 31) commands_by_id ≡ some (jump_name name))
      × ((is_push (jump_name name) || is_pop (jump_name name)) ≡ false)
      × (is_jump (jump_name name) ≡ true)
      × (native_size_of (jump_name name) ≡ 10)
unfolding case_of is_push is_pop is_jump native_size_of
jump_facts jmp = (refl, refl, refl, refl)
jump_facts jg = (refl, refl, refl, refl)
jump_facts jge = (refl, refl, refl, refl)
jump_facts ja = (refl, refl, refl, refl)
jump_facts jae = (refl, refl, refl, refl)
jump_facts je = (refl, refl, refl, refl)
jump_facts jne = (refl, refl, refl, refl)
jump_facts call = (refl, refl, refl, refl)

abbrev checksum_of : ℕ → ℕ
checksum_of cmd = bit_or (bit_or (bit_or 0 (bit_and cmd 32)) (bit_and cmd 128)) (bit_and cmd 64)

operand_facts :
    (name : OperandName) (variation : Variation)
    → let cmd = operand_id name + flags_of variation in
      (case_of (bit_and cmd 31) commands_by_id ≡ some (operand_name name))
      × ((is_push (operand_name name) || is_pop (operand_name name)) ≡ true)
      × (checksum_of cmd ≡ flags_of variation)
      × (push_pop_size (operand_name name) (flags_of variation) ≡ operand_size name variation)
      × (native_size_of (operand_name name) ≡ 10)
unfolding case_of is_push is_pop push_pop_size native_size_of
operand_facts push void = (refl, refl, refl, refl, refl)
operand_facts push imm = (refl, refl, refl, refl, refl)
operand_facts push reg = (refl, refl, refl, refl, refl)
operand_facts push ram = (refl, refl, refl, refl, refl)
operand_facts push imm_reg = (refl, refl, refl, refl, refl)
operand_facts push imm_ram = (refl, refl, refl, refl, refl)
operand_facts push reg_ram = (refl, refl, refl, refl, refl)
operand_facts push imm_reg_ram = (refl, refl, refl, refl, refl)
operand_facts pop void = (refl, refl, refl, refl, refl)
operand_facts pop imm = (refl, refl, refl, refl, refl)
operand_facts pop reg = (refl, refl, refl, refl, refl)
operand_facts pop ram = (refl, refl, refl, refl, refl)
operand_facts pop imm_reg = (refl, refl, refl, refl, refl)
operand_facts pop imm_ram = (refl, refl, refl, refl, refl)
operand_facts pop reg_ram = (refl, refl, refl, refl, refl)
operand_facts pop imm_reg_ram = (refl, refl, refl, refl, refl)

-- What is filled from the bytes
fill_jump_lem :
    (name : CommandName) (cmd v : ℕ) (code : List ℕ)
    → is_jump name ≡ true
    → read_double 8 code ≡ some v
    → fill_jump name (cmd ∷ code)
      ≡ some (record new_command {
        name = name;
        native_size = native_size_of name;
        x86_size = x86_size_of name;
        value = v;
      })
unfolding fill_jump advance
fill_jump_lem name cmd v code j h = rw (j, h) refl

fill_push_pop_struct_lem :
    (name : CommandName) (cmd v r : ℕ) (code rest : List ℕ)
    → read_double 8 code ≡ some v
    → advance 8 code ≡ r ∷ rest
    → fill_push_pop_struct name cmd (cmd ∷ code) new_command
      ≡ some (record new_command {
        name = name;
        native_size = native_size_of name;
        x86_size = push_pop_size name (checksum_of cmd);
        reg_index = signed_char r;
        value = v;
        checksum = checksum_of cmd;
      })
unfolding fill_push_pop_struct
fill_push_pop_struct_lem name cmd v r code rest h k =
    let far : advance 9 (cmd ∷ code) ≡ r ∷ rest = unfold advance in k in
    let near : read_double 8 (advance 1 (cmd ∷ code)) ≡ some v = unfold advance in h in
    rw (fill_push_pop_struct, far, near) refl

-- One round, where the case and what it fills are known
cmd_to_struct_lem :
    (name : CommandName) (cmd : ℕ) (code : List ℕ) (c : Command) (s : Parsing) (b : Bool)
    → case_of (bit_and cmd 31) commands_by_id ≡ some name
    → (is_push name || is_pop name) ≡ b
    → (if b
        then fill_push_pop_struct name cmd (cmd ∷ code) new_command
        else fill_jump name (cmd ∷ code))
      ≡ some c
    → cmd_to_struct (cmd ∷ code) s
      ≡ next (record {
        cmds_array = s.cmds_array ++ (c ∷ []);
        native_ip_counter = s.native_ip_counter + native_size_of name;
      })
unfolding cmd_to_struct fill_cmd_info
cmd_to_struct_lem name cmd code c s b found kind filled =
    rw (cmd_to_struct, found, fill_cmd_info, kind, filled) refl

-- The state after one round
unfoldable pub after : Native → Parsing → Parsing
unfolding described
after c s = record {
  cmds_array = s.cmds_array ++ (described c ∷ []);
  native_ip_counter = s.native_ip_counter + (described c).native_size;
}

pub cmd_to_struct-encode :
    (c : Native) (rest : List ℕ) (s : Parsing)
    → FitsNative c
    → cmd_to_struct (encode c ++ rest) s ≡ next (after c s)
unfolding encode described after
cmd_to_struct-encode (simple name) rest s h = simple_facts name s rest
cmd_to_struct-encode (jump name target padding) rest s h =
    let code = little_endian 8 target ++ (padding ∷ rest) in
    let (found, other, jumps, size) = jump_facts name in
    let read = read_double-little_endian 8 target (padding ∷ rest) h in
    let filled = fill_jump_lem (jump_name name) (jump_id name) target code jumps read in
    let round =
      cmd_to_struct_lem (jump_name name) (jump_id name) code _ s false found other filled in
    ap (λ (t : List ℕ). cmd_to_struct (jump_id name ∷ t) s)
      (append_assoc (little_endian 8 target) (padding ∷ []) rest)
    ∙ round
    ∙ (rw size refl)
cmd_to_struct-encode (operand name variation v r) rest s h =
    let cmd = operand_id name + flags_of variation in
    let code = little_endian 8 v ++ (r ∷ rest) in
    let (found, this, sum, width, size) = operand_facts name variation in
    let read = read_double-little_endian 8 v (r ∷ rest) h in
    let filled =
      fill_push_pop_struct_lem (operand_name name) cmd v r code rest read
        (advance-little_endian 8 v (r ∷ rest)) in
    let round = cmd_to_struct_lem (operand_name name) cmd code _ s true found this filled in
    ap (λ (t : List ℕ). cmd_to_struct (cmd ∷ t) s) (append_assoc (little_endian 8 v) (r ∷ []) rest)
    ∙ round
    ∙ (rw (sum, width, size) refl)
