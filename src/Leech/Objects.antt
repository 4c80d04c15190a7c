-- ===== src/Leech/Objects.antt =====
-- leechVM-master/include/leechobj/leechobj.hh and src/leechobj/leechobj.cc: the operations on objects.
pub mod Integers
use best_practices.Base.{
  ℕ, zero, suc, ◌&&◌, Bool, true, false, not, ◌==◌, ltb, if◌then◌else◌, List, [], ◌∷◌, Option, none,
  some,
}
use best_practices.Base.Int.{signed64, ◌+ℤ◌, ◌-ℤ◌, ltb_ℤ}
use best_practices.Leech.Values.{
  Name, Value, Values, null, none_obj, integer, float, string, tuple, class_at, nil, cons, ClassObj,
  FloatOps, Answer, value, fault, Error, runtime_error, invalid_argument, logic_error, out_of_range,
  undefined, int64,
}

-- The values of `CmpOp`, as `static_cast` makes them of the argument of COMPARE_OP.
unfoldable pub compare_numbers : ℕ → ℕ → ℕ → Answer Bool
compare_numbers op a b =
    if op == 0
    then value (ltb_ℤ (signed64 a) (signed64 b))
    else if op == 1
    then value (not (ltb_ℤ (signed64 b) (signed64 a)))
    else if op == 2
    then value (a == b)
    else if op == 3
    then value (not (a == b))
    else if op == 4
    then value (ltb_ℤ (signed64 b) (signed64 a))
    else if op == 5
    then value (not (ltb_ℤ (signed64 a) (signed64 b)))
    else fault runtime_error

-- `obj->compare(other, op)`. The `compare` of every other object throws.
unfoldable pub compare_values : ℕ → Value → Value → Answer Bool
unfolding compare_numbers
compare_values op (integer a) (integer b) = compare_numbers op a b
compare_values op null other = fault undefined
compare_values op obj null = fault undefined
compare_values op obj other = fault invalid_argument

-- The result of an operation on `int64_t`, which is undefined where it overflows.
unfoldable pub checked : Option ℕ → Answer Value
checked (some r) = value (integer r)
checked none = fault undefined

-- `obj->add(other)`, with the argument's value on the left.
unfoldable pub add_values : FloatOps → Value → Value → Answer Value
unfolding checked int64
add_values ops (integer a) (integer b) = checked (int64 (signed64 b +ℤ signed64 a))
add_values ops (float a) (float b) = value (float (ops.float_add b a))
add_values ops (integer a) other = fault runtime_error
add_values ops (float a) other = fault runtime_error
add_values ops null other = fault undefined
add_values ops obj null = fault undefined
add_values ops obj other = fault invalid_argument

-- `obj->sub(other)`
unfoldable pub sub_values : FloatOps → Value → Value → Answer Value
unfolding checked int64
sub_values ops (integer a) (integer b) = checked (int64 (signed64 a -ℤ signed64 b))
sub_values ops (float a) (float b) = value (float (ops.float_sub a b))
sub_values ops (integer a) other = fault runtime_error
sub_values ops (float a) other = fault runtime_error
sub_values ops null other = fault undefined
sub_values ops obj null = fault undefined
sub_values ops obj other = fault invalid_argument

-- `obj->div(other)` makes a `double` of numbers of one type.
unfoldable pub div_values : FloatOps → Value → Value → Answer Value
div_values ops (integer a) (integer b) =
    value (float (ops.float_div (ops.of_integer a) (ops.of_integer b)))
div_values ops (float a) (float b) = value (float (ops.float_div a b))
div_values ops null other = fault undefined
div_values ops obj null = fault undefined
div_values ops obj other = fault invalid_argument

-- `tuple_.at(i)`
unfoldable pub element : ℕ → Values → Answer Value
element i nil = fault out_of_range
element zero (cons v vs) = value v
element (suc i) (cons v vs) = element i vs

-- `obj->subscript(other)`. The index is converted to `size_t`, which keeps its 64 bits.
unfoldable pub subscript_values : Value → Value → Answer Value
unfolding element
subscript_values (tuple vs) (integer i) = element i vs
subscript_values (tuple vs) null = fault undefined
subscript_values (tuple vs) other = fault invalid_argument
subscript_values null other = fault undefined
subscript_values obj other = fault invalid_argument

-- Equality of names.
unfoldable pub same_name : Name → Name → Bool
same_name [] [] = true
same_name [] (y ∷ ys) = false
same_name (x ∷ xs) [] = false
same_name (x ∷ xs) (y ∷ ys) = let rest = same_name xs ys in x == y && rest

-- `find` and `at` of a map with names as keys.
unfoldable pub lookup {ℓ} : {A : Type ℓ} → Name → List (Name × A) → Option A
unfolding same_name
lookup name [] = none
lookup name ((key, v) ∷ rest) =
    let found = lookup name rest in if same_name name key then some v else found

-- `insert_or_assign`
unfoldable pub insert_or_assign {ℓ} : {A : Type ℓ} → Name → A → List (Name × A) → List (Name × A)
unfolding same_name
insert_or_assign name v [] = (name, v) ∷ []
insert_or_assign name v ((key, w) ∷ rest) =
    let later = insert_or_assign name v rest in
    if same_name name key then (key, v) ∷ rest else (key, w) ∷ later

unfoldable pub has_name : Name → List Name → Bool
unfolding same_name
has_name name [] = false
has_name name (key ∷ rest) =
    let found = has_name name rest in if same_name name key then true else found

-- `ClassObj::updateField`
unfoldable pub update_field : Name → Value → ClassObj → ClassObj
unfolding insert_or_assign
update_field name v c = record c { fields = insert_or_assign name v c.fields }

-- `ClassObj::registerMethod`
unfoldable pub register_method : Name → ClassObj → Answer ClassObj
unfolding has_name
register_method name c =
    if has_name name c.methods
    then fault logic_error
    else value (record c { methods = name ∷ c.methods })

-- `ClassObj::checkMethod`
unfoldable pub check_method : Name → ClassObj → Answer Bool
unfolding has_name
check_method name c = if has_name name c.methods then value true else fault logic_error

-- `ClassObj::getField`
unfoldable pub get_field : Name → ClassObj → Answer Value
unfolding lookup
get_field name c = elim (lookup name c.fields) [ some v ↦ value v | none ↦ fault runtime_error ]
