-- ===== src/Translator/Addresses.antt =====
-- BinaryTranslator-main/src/parser.cpp: the addresses of the commands in the program and in the x86
-- code, and the targets of the jumps.
pub mod Layout
pub mod Labels
use best_practices.Base.{ℕ, ◌+◌, Bool, true, false, ◌==◌, if◌then◌else◌, List, [], ◌∷◌}
use best_practices.Base.Int.{ℤ, pos, negsuc}
use best_practices.Translator.Commands.{Command, is_jump, header_offset}
use best_practices.Translator.Doubles.{Doubles}

-- What `FillCmdIp` sets: the commands, and the size of their x86 code.
pub record Filled : Type 0 where
  pub cmds_array : List Command
  pub x86_ip_counter : ℕ

-- The loop of `FillCmdIp`, from the addresses of the next command
unfoldable pub fill_from : ℕ → ℕ → List Command → Filled
fill_from native_ip x86_ip [] = record { cmds_array = []; x86_ip_counter = x86_ip }
fill_from native_ip x86_ip (c ∷ cs) = elim c.is_skip [
  | true ↦
      let later = fill_from native_ip x86_ip cs in
      record { cmds_array = c ∷ later.cmds_array; x86_ip_counter = later.x86_ip_counter }
  | false ↦
      let later = fill_from (native_ip + c.native_size) (x86_ip + c.x86_size) cs in
      record {
        cmds_array = record c { native_ip = native_ip; x86_ip = x86_ip } ∷ later.cmds_array;
        x86_ip_counter = later.x86_ip_counter;
      }
]

-- `FillCmdIp`
unfoldable pub fill_cmd_ip : List Command → Filled
unfolding fill_from
fill_cmd_ip cs = fill_from header_offset 0 cs

-- `cmds_array[i]->native_ip == native_ip`, of an `int`
abbrev pub has_native_ip : ℤ → Command → Bool
has_native_ip (pos n) c = c.native_ip == n
has_native_ip (negsuc n) c = false

-- `FindJumpIp`
unfoldable pub find_jump_ip : ℤ → List Command → ℤ
find_jump_ip native_ip [] = negsuc 0
find_jump_ip native_ip (c ∷ cs) =
    if has_native_ip native_ip c then pos c.x86_ip else find_jump_ip native_ip cs

-- The body of the loop of `FillJumpLables`; `all` is the whole array, whose addresses the loop does
-- not change.
unfoldable pub fill_jump_label : Doubles → List Command → Command → Command
unfolding is_jump find_jump_ip
fill_jump_label D all c =
    if is_jump c.name
    then record c { value = D.of_int (find_jump_ip (D.to_int c.value) all) }
    else c

-- That loop, for the commands that are left
unfoldable pub fill_labels_from : Doubles → List Command → List Command → List Command
unfolding fill_jump_label
fill_labels_from D all [] = []
fill_labels_from D all (c ∷ cs) = fill_jump_label D all c ∷ fill_labels_from D all cs

-- `FillJumpLables`
unfoldable pub fill_jump_labels : Doubles → List Command → List Command
unfolding fill_labels_from
fill_jump_labels D cs = fill_labels_from D cs cs
