-- ===== src/Leech/Values.antt =====
-- leechVM-master/include/leechobj/leechobj.hh: the objects of the virtual machine. A `pLeechObj` is a
-- shared pointer. Objects other than classes are never changed once they are made, so the pointer
-- to one is modelled by its value; a class is at an address of a store.
use best_practices.Base.{ℕ, suc, ◌==◌, if◌then◌else◌, List, Option, none, some, ◌-◌, ◌^◌, ltb}
use best_practices.Base.Int.{ℤ, pos, negsuc}

-- A `std::string`, as its bytes.
abbrev pub Name : Type 0
Name = List ℕ

-- A `pLeechObj`: a null pointer, or an object. An `int64_t` and a `double` are their 64 bits.
mutual
  pub data Value : Type 0 where
    null none_obj : Value
    integer float : ℕ → Value
    string : Name → Value
    tuple : Values → Value
    class_at : ℕ → Value

  pub data Values : Type 0 where
    nil : Values
    cons : Value → Values → Values

-- The members of `ClassObj`: a map of fields and a set of methods.
pub record ClassObj : Type 0 where
  pub fields : List (Name × Value)
  pub methods : List Name

-- The class objects that have been made, at the addresses below `allocated`.
pub record Store : Type 0 where
  pub classes : ℕ → ClassObj
  pub allocated : ℕ

-- What the machine throws, by the class of the exception; `undefined` marks a dereferenced null
-- pointer or an overflow of `int64_t`, after which C++ promises nothing.
pub data Error : Type 0 where
  out_of_range runtime_error invalid_argument logic_error undefined : Error

-- The value of a `const` function, or what it throws.
pub data Answer {ℓ} (A : Type ℓ) : Type ℓ where
  value : A → Answer A
  fault : Error → Answer A

-- The arithmetic of `double` on its 64 bits, which the hardware does.
pub record FloatOps : Type 0 where
  pub float_add : ℕ → ℕ → ℕ
  pub float_sub : ℕ → ℕ → ℕ
  pub float_div : ℕ → ℕ → ℕ
  pub of_integer : ℕ → ℕ

-- The 64 bits of a number that fits into `int64_t`.
unfoldable pub int64 : ℤ → Option ℕ
int64 (pos n) = if ltb n (2 ^ 63) then some n else none
int64 (negsuc n) = if ltb n (2 ^ 63) then some (2 ^ 64 - 1 - n) else none

-- `classes[a] = c`
unfoldable pub write_class : ℕ → ClassObj → Store → Store
write_class a c st = record st { classes = λ b. if b == a then c else st.classes b }

-- `std::make_shared<ClassObj>`
unfoldable pub new_class : ClassObj → Store → ℕ × Store
unfolding write_class
new_class c st =
    (st.allocated, record (write_class st.allocated c st) { allocated = suc st.allocated })

-- `clone`: a tuple's elements are cloned, a class's fields are shared. A null element is
-- dereferenced.
unfoldable mutual
  unfolding new_class

  pub clone : Value → Store → Answer (Value × Store)
  clone null st = fault undefined
  clone none_obj st = value (none_obj, st)
  clone (integer n) st = value (integer n, st)
  clone (float x) st = value (float x, st)
  clone (string s) st = value (string s, st)
  clone (tuple vs) st = elim (clone_all vs st) [
    | value (ws, st') ↦ value (tuple ws, st')
    | fault e ↦ fault e
  ]
  clone (class_at a) st = let (b, st') = new_class (st.classes a) st in value (class_at b, st')

  pub clone_all : Values → Store → Answer (Values × Store)
  clone_all nil st = value (nil, st)
  clone_all (cons v vs) st = elim (clone v st) [
    | value (w, st') ↦ elim (clone_all vs st') [
      | value (ws, st'') ↦ value (cons w ws, st'')
      | fault e ↦ fault e
    ]
    | fault e ↦ fault e
  ]
