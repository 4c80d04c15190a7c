-- ===== src/Translator/Addresses/Layout.antt =====
-- One command in the loops of `FillCmdIp` and `FillJumpLables` of BinaryTranslator-main/src/parser.cpp.
use best_practices.Base.{ℕ, ◌+◌, ◌≡◌, refl, ap, Bool, true, false, if◌then◌else◌, List, ◌∷◌}
use best_practices.Translator.Commands.{Command, is_jump}
use best_practices.Translator.Doubles.{Doubles}
use best_practices.Translator.Addresses.{Filled, fill_from, fill_jump_label, find_jump_ip}

-- What `FillJumpLables` leaves of a command
abbrev pub SameButValue : Command → Command → Type 0
SameButValue c' c =
    (c'.name ≡ c.name)
    × (c'.checksum ≡ c.checksum)
    × (c'.is_skip ≡ c.is_skip)
    × (c'.x86_ip ≡ c.x86_ip)

SameButValue-if :
    (b : Bool) (v : ℕ) (c : Command) → SameButValue (if b then record c { value = v } else c) c
SameButValue-if true v c = (refl, refl, refl, refl)
SameButValue-if false v c = (refl, refl, refl, refl)

pub fill_jump_label-SameButValue :
    (D : Doubles) (all : List Command) (c : Command) → SameButValue (fill_jump_label D all c) c
unfolding fill_jump_label
fill_jump_label-SameButValue D all c =
    SameButValue-if (is_jump c.name) (D.of_int (find_jump_ip (D.to_int c.value) all)) c

-- The loop of `FillCmdIp` on a command, by its flag
module _ (n x : ℕ) (c : Command) (cs : List Command) where
  flagged : Bool → Filled
  flagged true =
      let later = fill_from n x cs in
      record { cmds_array = c ∷ later.cmds_array; x86_ip_counter = later.x86_ip_counter }
  flagged false =
      let later = fill_from (n + c.native_size) (x + c.x86_size) cs in
      record {
        cmds_array = record c { native_ip = n; x86_ip = x } ∷ later.cmds_array;
        x86_ip_counter = later.x86_ip_counter;
      }

  pub fill_from_skipped :
      c.is_skip ≡ true
      → fill_from n x (c ∷ cs) ≡ record {
        cmds_array = c ∷ (fill_from n x cs).cmds_array;
        x86_ip_counter = (fill_from n x cs).x86_ip_counter;
      }
  unfolding fill_from flagged
  fill_from_skipped e = ap flagged e

  pub fill_from_command :
      c.is_skip ≡ false
      → let later = fill_from (n + c.native_size) (x + c.x86_size) cs in
        fill_from n x (c ∷ cs) ≡ record {
          cmds_array = record c { native_ip = n; x86_ip = x } ∷ later.cmds_array;
          x86_ip_counter = later.x86_ip_counter;
        }
  unfolding fill_from flagged
  fill_from_command e = ap flagged e
