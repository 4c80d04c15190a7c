-- ===== src/Translator/Parser.antt =====
-- BinaryTranslator-main/src/parser.cpp: the bytes of a program become commands. A read past the end
-- of the file, which C++ leaves undefined, ends the model's run with `out_of_file` or `none`.
pub mod Encoding
pub mod RoundTrip
pub mod Programs
use best_practices.Base.{
  ℕ, zero, suc, ◌+◌, ◌-◌, ◌*◌, ◌^◌, Bool, true, false, ltb, ◌==◌, if◌then◌else◌, ◌||◌, Option, none,
  some, List, [], ◌∷◌, ◌++◌, bit_and, bit_or,
}
use best_practices.Base.Int.{ℤ, pos, negsuc}
use best_practices.Base.Lists.{length}
use best_practices.Translator.Commands.{
  CommandName, Command, new_command, push, pop, native_size_of, x86_size_of, commands_by_id,
  case_of, is_jump, imm, reg, ram, header_offset,
}

-- `content + n`
unfoldable pub advance : ℕ → List ℕ → List ℕ
advance zero content = content
advance (suc n) [] = []
advance (suc n) (b ∷ content) = advance n content

-- `*(elem_t*) code`: the host is little-endian.
unfoldable pub read_double : ℕ → List ℕ → Option ℕ
read_double zero code = some 0
read_double (suc n) [] = none
read_double (suc n) (b ∷ code) = elim (read_double n code) [
  | some later ↦ some (b + 256 * later)
  | none ↦ none
]

-- A `char`, which is signed on x86, as an `int`
abbrev pub signed_char : ℕ → ℤ
signed_char b = if ltb b 128 then pos b else negsuc (255 - b)

unfoldable pub is_push : CommandName → Bool
is_push push = true
is_push _ = false

unfoldable pub is_pop : CommandName → Bool
is_pop pop = true
is_pop _ = false

-- The `switch` on the checksum in `FillPushPopStruct`
unfoldable pub push_pop_size : CommandName → ℕ → ℕ
unfolding is_push
push_pop_size name checksum =
    if checksum == imm
    then (if is_push name then 11 else 1)
    else if checksum == reg
    then 1
    else if checksum == imm + ram
    then 8
    else if (checksum == imm + reg + ram) || (checksum == reg + ram)
    then 34
    else 0

-- `FillPushPopStruct`
unfoldable pub fill_push_pop_struct : CommandName → ℕ → List ℕ → Command → Option Command
unfolding read_double advance push_pop_size
fill_push_pop_struct name cmd code new_cmd = elim (advance 9 code) [
  | [] ↦ none
  | r ∷ _ ↦ elim (read_double 8 (advance 1 code)) [
    | none ↦ none
    | some v ↦
        let variation =
          bit_or (bit_or (bit_or 0 (bit_and cmd imm)) (bit_and cmd ram)) (bit_and cmd reg) in
        some (record new_cmd {
          name = name;
          reg_index = signed_char r;
          value = v;
          checksum = variation;
          native_size = native_size_of name;
          x86_size = push_pop_size name variation;
        })
  ]
]

-- What `ParseOnStructs` keeps: the commands so far, and the place in the program.
pub record Parsing : Type 0 where
  pub cmds_array : List Command
  pub native_ip_counter : ℕ

-- What `CmdToStruct` gives
pub data Parsed : Type 0 where
  next : Parsing → Parsed
  end_of_prog out_of_file : Parsed

-- The commands other than push and pop in `FillCmdInfo`
unfoldable pub fill_jump : CommandName → List ℕ → Option Command
unfolding is_jump advance read_double native_size_of x86_size_of
fill_jump name code =
    let filled = record new_command {
      name = name;
      native_size = native_size_of name;
      x86_size = x86_size_of name;
    } in
    if is_jump name
    then elim (read_double 8 (advance 1 code)) [
      | none ↦ none
      | some v ↦ some (record filled { value = v })
    ]
    else some filled

-- `FillCmdInfo`
unfoldable pub fill_cmd_info : CommandName → ℕ → List ℕ → Parsing → Parsed
unfolding is_push is_pop fill_push_pop_struct fill_jump native_size_of
fill_cmd_info name cmd code s =
    let filled =
      if is_push name || is_pop name
      then fill_push_pop_struct name cmd code new_command
      else fill_jump name code in
    elim filled [
      | none ↦ out_of_file
      | some new_cmd ↦ next (record {
        cmds_array = s.cmds_array ++ (new_cmd ∷ []);
        native_ip_counter = s.native_ip_counter + native_size_of name;
      })
    ]

-- `CmdToStruct`, where `CMD_BITMASK` is 31
unfoldable pub cmd_to_struct : List ℕ → Parsing → Parsed
unfolding case_of fill_cmd_info
cmd_to_struct [] s = out_of_file
cmd_to_struct (cmd ∷ code) s = elim (case_of (bit_and cmd 31) commands_by_id) [
  | none ↦ end_of_prog
  | some name ↦ fill_cmd_info name cmd (cmd ∷ code) s
]

-- The loop of `ParseOnStructs`, for the rounds that are left
unfoldable pub parse_loop : ℕ → List ℕ → Parsing → Option Parsing
unfolding cmd_to_struct advance
parse_loop zero content s = some s
parse_loop (suc rounds) content s = elim (cmd_to_struct (advance s.native_ip_counter content) s) [
  | next s' ↦ parse_loop rounds content s'
  | end_of_prog ↦ some s
  | out_of_file ↦ none
]

-- `ParseOnStructs`, of the bytes of the file
unfoldable pub parse_on_structs : List ℕ → Option Parsing
unfolding parse_loop
parse_on_structs content =
    parse_loop (length content) content
      (record { cmds_array = []; native_ip_counter = header_offset })
