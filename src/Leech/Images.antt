-- ===== src/Leech/Images.antt =====
-- leechVM-master/src/leechfile/leechfile.cc: whole files, and how the functions are copied when a file
-- is read.
pub mod Copies
pub mod Instructions
pub mod RoundTrip
use best_practices.Base.{ℕ, zero, suc, if◌then◌else◌, ◌==◌, List, [], ◌∷◌, ◌++◌, Option, none, some}
use best_practices.Base.Lists.{length}
use best_practices.Leech.Opcodes.{Opcode, code_of, opcode_of}
use best_practices.Leech.Values.{
  Name, Value, Store, Answer, value, fault, runtime_error, invalid_argument, clone,
}
use best_practices.Leech.Objects.{same_name, lookup, insert_or_assign}
use best_practices.Leech.Machine.{FuncMeta, Instruction, LeechFile}
use best_practices.Leech.Streams.{
  Bytes, Reader, ◌>>=◌, ◌>>◌, give, reject, serialize_num, deserialize_num, deserialize_string,
  serialize_many, deserialize_many,
}
use best_practices.Leech.File.{serialize_func, deserialize_func}

-- A constant is cloned where there is no class to clone.
unfoldable pub clone_constant : Value → Answer Value
unfolding clone
clone_constant v =
    elim (clone v (record { classes = λ _. record { fields = []; methods = [] }; allocated = 0 })) [
      | value (w, _) ↦ value w
      | fault e ↦ fault e
    ]

-- `std::transform` of a constant pool
unfoldable pub clone_pool : List Value → Answer (List Value)
unfolding clone_constant
clone_pool [] = value []
clone_pool (v ∷ vs) = elim (clone_constant v) [
  | value w ↦ elim (clone_pool vs) [ value ws ↦ value (w ∷ ws) | fault e ↦ fault e ]
  | fault e ↦ fault e
]

-- `FuncMeta::FuncMeta(const FuncMeta &)`: `argNum` is not copied.
unfoldable pub copy_func : FuncMeta → Answer FuncMeta
unfolding clone_pool
copy_func fm = elim (clone_pool fm.cst_pool) [
  | value pool ↦ value (record fm { arg_num = 0; cst_pool = pool })
  | fault e ↦ fault e
]

-- `FuncMeta::operator=`: the constants are appended, and `argNum` stays.
unfoldable pub assign_func : FuncMeta → FuncMeta → Answer FuncMeta
unfolding clone_pool
assign_func old fm = elim (clone_pool fm.cst_pool) [
  | value pool ↦ value (record fm { arg_num = old.arg_num; cst_pool = old.cst_pool ++ pool })
  | fault e ↦ fault e
]

-- `FuncMeta{}`
abbrev pub default_func : FuncMeta
default_func = record { addr = 0; arg_num = 0; cst_pool = []; names = [] }

-- `funcs[name] = meta`
unfoldable pub assign_entry :
    Name → FuncMeta → List (Name × FuncMeta) → Answer (List (Name × FuncMeta))
unfolding lookup assign_func insert_or_assign
assign_entry name fm funcs =
    let old : FuncMeta = elim (lookup name funcs) [ some old ↦ old | none ↦ default_func ] in
    elim (assign_func old fm) [
      | value new ↦ value (insert_or_assign name new funcs)
      | fault e ↦ fault e
    ]

-- The copy of a map of functions.
unfoldable pub copy_funcs : List (Name × FuncMeta) → Answer (List (Name × FuncMeta))
unfolding copy_func
copy_funcs [] = value []
copy_funcs ((name, fm) ∷ rest) = elim (copy_func fm) [
  | value new ↦ elim (copy_funcs rest) [
    | value later ↦ value ((name, new) ∷ later)
    | fault e ↦ fault e
  ]
  | fault e ↦ fault e
]

-- The loop of `Meta::deserialize`: an entry is read and then assigned.
unfoldable pub read_entries : ℕ → ℕ → List (Name × FuncMeta) → Reader (List (Name × FuncMeta))
unfolding deserialize_func assign_entry
read_entries fuel zero funcs input = value (funcs, input)
read_entries fuel (suc n) funcs input = elim (deserialize_func fuel input) [
  | value ((name, fm), rest) ↦ elim (assign_entry name fm funcs) [
    | value more ↦ read_entries fuel n more rest
    | fault e ↦ fault e
  ]
  | fault e ↦ fault e
]

-- An answer inside a reader.
abbrev pub lift {ℓ} : {A : Type ℓ} → Answer A → Reader A
lift (value a) = give a
lift (fault e) = reject e

-- `Meta::deserialize`; the map is copied at the end.
unfoldable pub deserialize_meta : ℕ → Reader (List (Name × FuncMeta))
unfolding deserialize_num read_entries copy_funcs
deserialize_meta fuel = do
  fnum ← deserialize_num 8
  funcs ← read_entries fuel fnum []
  lift (copy_funcs funcs)

-- `Meta::serialize`
unfoldable pub serialize_meta : List (Name × FuncMeta) → Answer Bytes
unfolding serialize_num serialize_many serialize_func
serialize_meta funcs = elim (serialize_many serialize_func funcs) [
  | value bs ↦ value (serialize_num 8 (length funcs) ++ bs)
  | fault e ↦ fault e
]

-- `Instruction::serialize`
unfoldable pub serialize_inst : Instruction → Answer Bytes
unfolding serialize_num code_of
serialize_inst i = value (serialize_num 1 (code_of i.opcode) ++ serialize_num 1 i.arg)

-- `Instruction::deserialize`, with the checks of the constructor
unfoldable pub deserialize_inst : Reader Instruction
unfolding deserialize_num opcode_of
deserialize_inst = do
  code ← deserialize_num 1
  arg ← deserialize_num 1
  elim (opcode_of code) [
    | some op ↦ give (record { opcode = op; arg = arg })
    | none ↦ reject (if code == 0 then invalid_argument else runtime_error)
  ]

-- The bytes of "theLEECH"
abbrev pub the_leech : Name
the_leech = 116 ∷ 104 ∷ 101 ∷ 76 ∷ 69 ∷ 69 ∷ 67 ∷ 72 ∷ []

-- `LeechFile::serialize`
unfoldable pub serialize_file : LeechFile → Answer Bytes
unfolding serialize_meta serialize_many serialize_inst serialize_num
serialize_file f = elim (serialize_meta f.funcs) [
  | value meta ↦ elim (serialize_many serialize_inst f.code) [
    | value code ↦ value (the_leech ++ meta ++ serialize_num 8 (length f.code) ++ code)
    | fault e ↦ fault e
  ]
  | fault e ↦ fault e
]

-- The test of the magic number.
unfoldable pub check_magic : Name → Reader (Unit {0})
unfolding same_name
check_magic magic = if same_name magic the_leech then give tt else reject runtime_error

-- What follows the magic number. The constructor of the file copies the functions once more.
unfoldable pub deserialize_contents : ℕ → Reader LeechFile
unfolding deserialize_meta deserialize_num deserialize_many deserialize_inst copy_funcs
deserialize_contents fuel = do
  meta ← deserialize_meta fuel
  inst_num ← deserialize_num 8
  code ← deserialize_many deserialize_inst inst_num
  funcs ← lift (copy_funcs meta)
  give (record { funcs = funcs; code = code })

-- `LeechFile::deserialize`
unfoldable pub deserialize_file : ℕ → Reader LeechFile
unfolding deserialize_string check_magic deserialize_contents
deserialize_file fuel = do
  magic ← deserialize_string 8
  check_magic magic
  deserialize_contents fuel
