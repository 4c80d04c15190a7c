-- ===== src/Leech/File.antt =====
-- leechVM-master/src/leechfile/leechfile.cc, and the serialization of the objects of leechobj.hh and of
-- the instructions of common.hh. The output is modelled where nothing throws.
pub mod Objects
pub mod RoundTrip
use best_practices.Base.{ℕ, zero, suc, if◌then◌else◌, ◌==◌, List, [], ◌∷◌, ◌++◌, Option, none, some}
use best_practices.Base.Lists.{length}
use best_practices.Leech.Opcodes.{Opcode, code_of, opcode_of}
use best_practices.Leech.Values.{
  Name, Value, Values, null, none_obj, integer, float, string, tuple, class_at, nil, cons, Store,
  Answer, value, fault, Error, runtime_error, invalid_argument, undefined, clone,
}
use best_practices.Leech.Objects.{same_name, lookup, insert_or_assign}
use best_practices.Leech.Machine.{FuncMeta, Instruction, LeechFile}
use best_practices.Leech.Streams.{
  Bytes, Reader, ◌>>=◌, ◌>>◌, give, reject, serialize_num, deserialize_num, deserialize_string,
  serialize_string, deserialize_many, serialize_many,
}

unfoldable pub count : Values → ℕ
count nil = 0
count (cons v vs) = suc (count vs)

-- `serializeTypeNSize`
unfoldable pub serialize_type_n_size : ℕ → ℕ → Bytes
unfolding serialize_num
serialize_type_n_size type size = serialize_num 1 type ++ serialize_num 8 size

-- `LeechObj::serialize`. A class throws, and a null element is dereferenced.
unfoldable mutual
  unfolding serialize_type_n_size count

  pub serialize_obj : Value → Answer Bytes
  serialize_obj null = fault undefined
  serialize_obj none_obj = value (serialize_num 1 6)
  serialize_obj (integer n) = value (serialize_type_n_size 1 8 ++ serialize_num 8 n)
  serialize_obj (float x) = value (serialize_type_n_size 2 8 ++ serialize_num 8 x)
  serialize_obj (string s) = value (serialize_type_n_size 3 (length s) ++ s)
  serialize_obj (tuple vs) = elim (serialize_tuple vs) [
    | value bs ↦ value (serialize_type_n_size 4 (count vs) ++ bs)
    | fault e ↦ fault e
  ]
  serialize_obj (class_at a) = fault runtime_error

  pub serialize_tuple : Values → Answer Bytes
  serialize_tuple nil = value []
  serialize_tuple (cons v vs) = elim (serialize_obj v) [
    | value bs ↦ elim (serialize_tuple vs) [ value cs ↦ value (bs ++ cs) | fault e ↦ fault e ]
    | fault e ↦ fault e
  ]

unfoldable pub values_of : List Value → Values
values_of [] = nil
values_of (v ∷ vs) = cons v (values_of vs)

-- The readers of the types, after the type itself.
unfoldable pub deserialize_integer : Reader Value
unfolding deserialize_num
deserialize_integer = do deserialize_num 8; n ← deserialize_num 8; give (integer n)

unfoldable pub deserialize_float : Reader Value
unfolding deserialize_num
deserialize_float = do deserialize_num 8; x ← deserialize_num 8; give (float x)

unfoldable pub deserialize_string_obj : Reader Value
unfolding deserialize_num deserialize_string
deserialize_string_obj = do n ← deserialize_num 8; s ← deserialize_string n; give (string s)

unfoldable pub deserialize_tuple : Reader Value → Reader Value
unfolding deserialize_num deserialize_many values_of
deserialize_tuple read = do
  n ← deserialize_num 8
  vs ← deserialize_many read n
  give (tuple (values_of vs))

-- `deserializeObj`, with the nesting of tuples as fuel. Every other type gives a null pointer.
unfoldable pub deserialize_obj : ℕ → Reader Value
unfolding deserialize_integer deserialize_float deserialize_string_obj deserialize_tuple
deserialize_obj zero = reject undefined
deserialize_obj (suc fuel) =
    let nested = deserialize_tuple (deserialize_obj fuel) in
    deserialize_num 1 >>= λ type.
    if type == 1
    then deserialize_integer
    else if type == 2
    then deserialize_float
    else if type == 3
    then deserialize_string_obj
    else if type == 4
    then nested
    else give null

-- `FuncMeta::serialize`, after the name that `Meta::serialize` writes
unfoldable pub serialize_func : Name × FuncMeta → Answer Bytes
unfolding serialize_obj serialize_many serialize_num serialize_string
serialize_func (name, fm) = elim (serialize_many serialize_obj fm.cst_pool) [
  | value constants ↦ elim (serialize_many (λ s. value (serialize_string s)) fm.names) [
    | value names ↦ value (
        serialize_string name
        ++ serialize_num 8 fm.addr
        ++ serialize_num 8 fm.arg_num
        ++ serialize_num 8 (length fm.cst_pool)
        ++ constants
        ++ serialize_num 8 (length fm.names)
        ++ names)
    | fault e ↦ fault e
  ]
  | fault e ↦ fault e
]

unfoldable pub read_name : Reader Name
unfolding deserialize_num deserialize_string
read_name = do n ← deserialize_num 8; deserialize_string n

-- `FuncMeta::deserialize`
unfoldable pub deserialize_func : ℕ → Reader (Name × FuncMeta)
unfolding read_name deserialize_num deserialize_many deserialize_obj
deserialize_func fuel = do
  name ← read_name
  addr ← deserialize_num 8
  arg_num ← deserialize_num 8
  cst_num ← deserialize_num 8
  cst_pool ← deserialize_many (deserialize_obj fuel) cst_num
  name_num ← deserialize_num 8
  names ← deserialize_many read_name name_num
  give (name, record { addr = addr; arg_num = arg_num; cst_pool = cst_pool; names = names })
