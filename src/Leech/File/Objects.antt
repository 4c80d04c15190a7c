-- ===== src/Leech/File/Objects.antt =====
-- leechVM-master/src/leechfile/leechfile.cc and leechobj.hh: constants, written and read back.
use mathlib.Core.List.{append_assoc}
use best_practices.Base.{ℕ, zero, suc, ◌^◌, ◌<◌, ◌≡◌, refl, ap, List, [], ◌∷◌, ◌++◌, arith}
use best_practices.Base.Lists.{length}
use best_practices.Leech.Values.{
  Name, Value, Values, null, none_obj, integer, float, string, tuple, class_at, nil, cons, value,
}
use best_practices.Leech.Streams.{Bytes, ◌>>=◌, serialize_num, deserialize_num, deserialize_many}
use best_practices.Leech.Streams.RoundTrip.{
  deserialize_num-serialize_num, deserialize_string-append,
}
use best_practices.Leech.File.{
  count, serialize_type_n_size, serialize_obj, serialize_tuple, values_of, deserialize_integer,
  deserialize_float, deserialize_string_obj, deserialize_tuple, deserialize_obj,
}

-- A constant that a file can hold, in whose tuples at most `d` others are nested.
abbrev mutual
  pub IsStorable : Value → ℕ → Type 0
  IsStorable null d = ⊥
  IsStorable none_obj d = ⊥
  IsStorable (integer n) d = n < 2 ^ 64
  IsStorable (float x) d = x < 2 ^ 64
  IsStorable (string s) d = length s < 2 ^ 64
  IsStorable (tuple vs) zero = ⊥
  IsStorable (tuple vs) (suc d) = (count vs < 2 ^ 64) × AreStorable vs d
  IsStorable (class_at a) d = ⊥

  pub AreStorable : Values → ℕ → Type 0
  AreStorable nil d = Unit
  AreStorable (cons v vs) d = IsStorable v d × AreStorable vs d

-- The readers of what follows a type.
deserialize_integer-append :
    (n : ℕ) (rest : Bytes)
    → n < 2 ^ 64
    → deserialize_integer (serialize_num 8 8 ++ (serialize_num 8 n ++ rest))
      ≡ value (integer n, rest)
unfolding deserialize_integer
deserialize_integer-append n rest h =
    rw
      (
        ◌>>=◌,
        deserialize_num-serialize_num 8 8 (serialize_num 8 n ++ rest) (omega arith),
        deserialize_num-serialize_num 8 n rest h,
      )
      refl

deserialize_float-append :
    (x : ℕ) (rest : Bytes)
    → x < 2 ^ 64
    → deserialize_float (serialize_num 8 8 ++ (serialize_num 8 x ++ rest)) ≡ value (float x, rest)
unfolding deserialize_float
deserialize_float-append x rest h =
    rw
      (
        ◌>>=◌,
        deserialize_num-serialize_num 8 8 (serialize_num 8 x ++ rest) (omega arith),
        deserialize_num-serialize_num 8 x rest h,
      )
      refl

deserialize_string_obj-append :
    (s : Name) (rest : Bytes)
    → length s < 2 ^ 64
    → deserialize_string_obj (serialize_num 8 (length s) ++ (s ++ rest)) ≡ value (string s, rest)
unfolding deserialize_string_obj
deserialize_string_obj-append s rest h =
    rw
      (
        ◌>>=◌,
        deserialize_num-serialize_num 8 (length s) (s ++ rest) h,
        deserialize_string-append s rest,
      )
      refl

-- What `deserializeObj` does with each type.
module _ (d : ℕ) (rest : Bytes) where
  type_byte :
      (type : ℕ)
      → type < 256
      → deserialize_num 1 (serialize_num 1 type ++ rest) ≡ value (type, rest)
  type_byte type h = deserialize_num-serialize_num 1 type rest h

  deserialize_obj-integer :
      deserialize_obj (suc d) (serialize_num 1 1 ++ rest) ≡ deserialize_integer rest
  unfolding deserialize_obj
  deserialize_obj-integer = rw (◌>>=◌, type_byte 1 (omega arith)) refl

  deserialize_obj-float :
      deserialize_obj (suc d) (serialize_num 1 2 ++ rest) ≡ deserialize_float rest
  unfolding deserialize_obj
  deserialize_obj-float = rw (◌>>=◌, type_byte 2 (omega arith)) refl

  deserialize_obj-string :
      deserialize_obj (suc d) (serialize_num 1 3 ++ rest) ≡ deserialize_string_obj rest
  unfolding deserialize_obj
  deserialize_obj-string = rw (◌>>=◌, type_byte 3 (omega arith)) refl

  deserialize_obj-tuple :
      deserialize_obj (suc d) (serialize_num 1 4 ++ rest)
      ≡ deserialize_tuple (deserialize_obj d) rest
  unfolding deserialize_obj
  deserialize_obj-tuple = rw (◌>>=◌, type_byte 4 (omega arith)) refl

-- The elements of a tuple as a list.
pub list_of : Values → List Value
list_of nil = []
list_of (cons v vs) = v ∷ list_of vs

values_of-list_of : (vs : Values) → values_of (list_of vs) ≡ vs
unfolding values_of list_of
values_of-list_of nil = refl
values_of-list_of (cons v vs) = ap (cons v) (values_of-list_of vs)

-- A value is written as bytes from which it is read, whatever follows.
abbrev pub ReadsBack : Value → ℕ → Type 0
ReadsBack v d =
    (bs : Bytes) × (serialize_obj v ≡ value bs)
    × ((rest : Bytes) → deserialize_obj (suc d) (bs ++ rest) ≡ value (v, rest))

abbrev pub ReadBack : Values → ℕ → Type 0
ReadBack vs d =
    (bs : Bytes) × (serialize_tuple vs ≡ value bs)
    × ((rest : Bytes)
        → deserialize_many (deserialize_obj (suc d)) (count vs) (bs ++ rest)
          ≡ value (list_of vs, rest))

deserialize_tuple-append :
    (vs : Values) (d : ℕ) (bs rest : Bytes)
    → count vs < 2 ^ 64
    → deserialize_many (deserialize_obj (suc d)) (count vs) (bs ++ rest) ≡ value (list_of vs, rest)
    → deserialize_tuple (deserialize_obj (suc d)) (serialize_num 8 (count vs) ++ (bs ++ rest))
      ≡ value (tuple vs, rest)
unfolding deserialize_tuple
deserialize_tuple-append vs d bs rest h each =
    rw
      (◌>>=◌, deserialize_num-serialize_num 8 (count vs) (bs ++ rest) h, each, values_of-list_of vs)
      refl

mutual
  unfolding serialize_obj serialize_type_n_size deserialize_many count list_of

  pub read_back : (v : Value) (d : ℕ) → IsStorable v d → ReadsBack v d
  read_back null d h = absurd h
  read_back none_obj d h = absurd h
  read_back (integer n) d h = (
    _,
    refl,
    λ rest.
        rw (append_assoc, append_assoc, deserialize_obj-integer)
          (deserialize_integer-append n rest h),
  )
  read_back (float x) d h = (
    _,
    refl,
    λ rest.
        rw (append_assoc, append_assoc, deserialize_obj-float) (deserialize_float-append x rest h),
  )
  read_back (string s) d h = (
    _,
    refl,
    λ rest.
        rw (append_assoc, append_assoc, deserialize_obj-string)
          (deserialize_string_obj-append s rest h),
  )
  read_back (tuple vs) zero h = absurd h
  read_back (tuple vs) (suc d) h =
      let (bs, w, r) = read_all_back vs d h.1 in
      (
        serialize_num 1 4 ++ (serialize_num 8 (count vs)) ++ bs,
        rw w refl,
        λ rest.
            rw (append_assoc, append_assoc, deserialize_obj-tuple)
              (deserialize_tuple-append vs d bs rest h.0 (r rest)),
      )
  read_back (class_at a) d h = absurd h

  pub read_all_back : (vs : Values) (d : ℕ) → AreStorable vs d → ReadBack vs d
  read_all_back nil d h = ([], refl, λ rest. refl)
  read_all_back (cons v vs) d h =
      let (bs, w, r) = read_back v d h.0 in
      let (cs, ws, rs) = read_all_back vs d h.1 in
      (bs ++ cs, rw (w, ws) refl, λ rest. rw (append_assoc, deserialize_many, r, rs) refl)
