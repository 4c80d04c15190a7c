-- ===== src/Leech/File/RoundTrip.antt =====
-- leechVM-master/src/leechfile/leechfile.cc: `FuncMeta`, written and read back.
use mathlib.Core.List.{append_assoc}
use best_practices.Base.{ℕ, suc, ◌^◌, ◌<◌, ◌≡◌, refl, ap, ◌∙◌, ◌++◌}
use best_practices.Base.Lists.{length, All}
use best_practices.Leech.Values.{Name, value}
use best_practices.Leech.Machine.{FuncMeta}
use best_practices.Leech.Streams.{Bytes, ◌>>=◌, serialize_num, serialize_string, deserialize_many}
use best_practices.Leech.Streams.RoundTrip.{
  deserialize_num-serialize_num, deserialize_string-append, deserialize_many-serialize_many,
}
use best_practices.Leech.File.{
  serialize_obj, deserialize_obj, read_name, serialize_func, deserialize_func,
}
use best_practices.Leech.File.Objects.{IsStorable, read_back}

-- A string that a file can hold.
abbrev pub IsShort : Name → Type 0
IsShort s = length s < 2 ^ 64

-- A function that a file can hold.
pub record IsStorableFunc (d : ℕ) (name : Name) (fm : FuncMeta) : Type 0 where
  pub name_fits : IsShort name
  pub addr_fits : fm.addr < 2 ^ 64
  pub arg_num_fits : fm.arg_num < 2 ^ 64
  pub cst_num_fits : length fm.cst_pool < 2 ^ 64
  pub name_num_fits : length fm.names < 2 ^ 64
  pub constants_fit : All (λ v. IsStorable v d) fm.cst_pool
  pub names_fit : All IsShort fm.names

read_name-append :
    (s : Name) (rest : Bytes)
    → IsShort s
    → read_name (serialize_num 8 (length s) ++ (s ++ rest)) ≡ value (s, rest)
unfolding read_name
read_name-append s rest h =
    rw
      (
        ◌>>=◌,
        deserialize_num-serialize_num 8 (length s) (s ++ rest) h,
        deserialize_string-append s rest,
      )
      refl

pub read_name-serialize_string :
    (s : Name) (rest : Bytes) → IsShort s → read_name (serialize_string s ++ rest) ≡ value (s, rest)
unfolding serialize_string
read_name-serialize_string s rest h =
    ap read_name (append_assoc (serialize_num 8 (length s)) s rest) ∙ read_name-append s rest h

-- What is written of a function around its constants and its names.
abbrev func_bytes : Name → FuncMeta → Bytes → Bytes → Bytes
func_bytes name fm constants names =
    serialize_string name
    ++ serialize_num 8 fm.addr
    ++ serialize_num 8 fm.arg_num
    ++ serialize_num 8 (length fm.cst_pool)
    ++ constants
    ++ serialize_num 8 (length fm.names)
    ++ names

deserialize_func-append :
    (d : ℕ) (name : Name) (fm : FuncMeta) (constants names rest : Bytes)
    → IsStorableFunc d name fm
    → ((rest : Bytes)
        → deserialize_many (deserialize_obj (suc d)) (length fm.cst_pool) (constants ++ rest)
          ≡ value (fm.cst_pool, rest))
    → ((rest : Bytes)
        → deserialize_many read_name (length fm.names) (names ++ rest) ≡ value (fm.names, rest))
    → deserialize_func (suc d) (func_bytes name fm constants names ++ rest)
      ≡ value ((name, fm), rest)
unfolding deserialize_func
deserialize_func-append d name fm constants names rest h rc rn =
    let later = serialize_num 8 (length fm.names) ++ (names ++ rest) in
    let counted = serialize_num 8 (length fm.cst_pool) ++ (constants ++ later) in
    simp append_assoc (
      rw
        (
          ◌>>=◌,
          read_name-serialize_string name
              (serialize_num 8 fm.addr ++ (serialize_num 8 fm.arg_num ++ counted)) h.name_fits,
          deserialize_num-serialize_num 8 fm.addr (serialize_num 8 fm.arg_num ++ counted)
              h.addr_fits,
          deserialize_num-serialize_num 8 fm.arg_num counted h.arg_num_fits,
          deserialize_num-serialize_num 8 (length fm.cst_pool) (constants ++ later) h.cst_num_fits,
          rc later,
          deserialize_num-serialize_num 8 (length fm.names) (names ++ rest) h.name_num_fits,
          rn rest,
        )
        refl)

pub deserialize_func-serialize_func :
    (d : ℕ) (name : Name) (fm : FuncMeta)
    → IsStorableFunc d name fm
    → (bs : Bytes) × (serialize_func (name, fm) ≡ value bs)
      × ((rest : Bytes) → deserialize_func (suc d) (bs ++ rest) ≡ value ((name, fm), rest))
unfolding serialize_func
deserialize_func-serialize_func d name fm h =
    let (cs, wc, rc) =
      deserialize_many-serialize_many {P = λ v. IsStorable v d} serialize_obj
        (deserialize_obj (suc d)) (λ v hv. read_back v d hv) fm.cst_pool h.constants_fit in
    let (ns, wn, rn) =
      deserialize_many-serialize_many {P = IsShort} (λ s. value (serialize_string s)) read_name
        (λ s hs. (serialize_string s, refl, λ rest. read_name-serialize_string s rest hs)) fm.names
        h.names_fit in
    (
      func_bytes name fm cs ns,
      rw (serialize_func, wc, wn) refl,
      λ rest. deserialize_func-append d name fm cs ns rest h rc rn,
    )
