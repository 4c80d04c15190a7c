-- ===== src/Leech/Images/Instructions.antt =====
-- leechVM-master/include/common/common.hh: instructions, written and read back.
use mathlib.Core.List.{append_assoc}
use best_practices.Base.{◌<◌, ◌≡◌, refl, ap, ◌∙◌, ◌++◌, some, arith}
use best_practices.Leech.Opcodes.{Opcode, pop_top, code_of, opcode_of}
use best_practices.Leech.Values.{value}
use best_practices.Leech.Machine.{Instruction}
use best_practices.Leech.Streams.{Bytes, ◌>>=◌, serialize_num}
use best_practices.Leech.Streams.RoundTrip.{deserialize_num-serialize_num}
use best_practices.Leech.Images.{serialize_inst, deserialize_inst}

code_of-lt : (op : Opcode) → code_of op < 256
unfolding code_of
code_of-lt pop_top = omega arith
code_of-lt _ = omega arith

opcode_of-code_of : (op : Opcode) → opcode_of (code_of op) ≡ some op
unfolding opcode_of code_of
opcode_of-code_of pop_top = refl
opcode_of-code_of _ = refl

-- An instruction of one byte of argument.
abbrev pub IsStorableInst : Instruction → Type 0
IsStorableInst i = i.arg < 256

inst_bytes : Instruction → Bytes
inst_bytes i = serialize_num 1 (code_of i.opcode) ++ serialize_num 1 i.arg

deserialize_inst-append :
    (i : Instruction) (rest : Bytes)
    → IsStorableInst i
    → deserialize_inst (serialize_num 1 (code_of i.opcode) ++ (serialize_num 1 i.arg ++ rest))
      ≡ value (i, rest)
unfolding deserialize_inst
deserialize_inst-append i rest h =
    rw
      (
        ◌>>=◌,
        deserialize_num-serialize_num 1 (code_of i.opcode) (serialize_num 1 i.arg ++ rest)
            (code_of-lt i.opcode),
        deserialize_num-serialize_num 1 i.arg rest h,
        opcode_of-code_of i.opcode,
      )
      refl

pub deserialize_inst-serialize_inst :
    (i : Instruction)
    → IsStorableInst i
    → (bs : Bytes) × (serialize_inst i ≡ value bs)
      × ((rest : Bytes) → deserialize_inst (bs ++ rest) ≡ value (i, rest))
unfolding serialize_inst inst_bytes
deserialize_inst-serialize_inst i h = (
  inst_bytes i,
  refl,
  λ rest.
      ap deserialize_inst
        (append_assoc (serialize_num 1 (code_of i.opcode)) (serialize_num 1 i.arg) rest)
      ∙ deserialize_inst-append i rest h,
)
