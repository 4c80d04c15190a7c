-- ===== src/Leech/Classes.antt =====
-- leechVM-master/src/executor/callbacks.cc: the callbacks for classes and methods.
pub mod Invariant
pub mod Instances
use best_practices.Base.{
  ℕ, zero, suc, ◌+◌, ◌%◌, ◌^◌, Bool, true, false, if◌then◌else◌, List, [], ◌∷◌, Option, none, some,
}
use best_practices.Leech.Opcodes.{Opcode}
use best_practices.Leech.Values.{
  Name, Value, null, none_obj, integer, float, string, tuple, class_at, ClassObj, FloatOps, Store,
  value, fault, runtime_error, undefined, logic_error, new_class, write_class, clone,
}
use best_practices.Leech.Objects.{
  compare_values, add_values, sub_values, div_values, subscript_values, update_field,
  register_method, check_method, get_field,
}
use best_practices.Leech.Machine.{
  Vm, Action, State, StackFrame, FuncMeta, ret, throw, ◌>>=◌, ◌>>◌, fail, answer, get_cur_frame,
  set_cur_frame, push, top, pop, pop_get_tos, get_const, get_name, get_var, set_var, set_ret,
  fill_args, push_frame, set_next_pc, get_func, clone_value,
}
use best_practices.Leech.Stubs.{is_stub}
use best_practices.Leech.Callbacks.{pop_args, return_here}

-- `safeConvertToClass`: the address of a class. `getType` of a null pointer is undefined.
unfoldable pub safe_convert_to_class : Value → Vm ℕ
safe_convert_to_class (class_at a) = ret a
safe_convert_to_class null = fail undefined
safe_convert_to_class _ = fail runtime_error

-- The class at an address, and what is put in its place.
unfoldable pub read_class : ℕ → Vm ClassObj
read_class a s = ret (s.store.classes a) s

unfoldable pub change_class : ℕ → ClassObj → Action
unfolding write_class
change_class a c s = ret tt (record s { store = write_class a c s.store })

unfoldable pub load_build_class : Action
unfolding new_class push
load_build_class s =
    let (a, st) = new_class (record { fields = []; methods = [] }) s.store in
    push (class_at a) (record s { store = st })

unfoldable pub store_build_class : ℕ → Action
unfolding get_name pop_get_tos safe_convert_to_class set_var
store_build_class arg = do
  name ← get_name arg
  obj ← pop_get_tos
  a ← safe_convert_to_class obj
  set_var name (class_at a)

unfoldable pub store_attr : ℕ → Action
unfolding get_name pop_get_tos top safe_convert_to_class read_class change_class update_field
store_attr arg = do
  name ← get_name arg
  attr ← pop_get_tos
  obj ← top
  a ← safe_convert_to_class obj
  c ← read_class a
  change_class a (update_field name attr c)

unfoldable pub load_attr : ℕ → Action
unfolding get_name top safe_convert_to_class read_class get_field push
load_attr arg = do
  name ← get_name arg
  obj ← top
  a ← safe_convert_to_class obj
  c ← read_class a
  attr ← answer (get_field name c)
  push attr

unfoldable pub instance_class : ℕ → Action
unfolding get_name get_var safe_convert_to_class clone_value push
instance_class arg = do
  name ← get_name arg
  obj ← get_var name
  a ← safe_convert_to_class obj
  copy ← clone_value (class_at a)
  push copy

unfoldable pub register_method_of : ℕ → Action
unfolding get_name top safe_convert_to_class read_class register_method change_class
register_method_of arg = do
  name ← get_name arg
  obj ← top
  a ← safe_convert_to_class obj
  c ← read_class a
  c' ← answer (register_method name c)
  change_class a c'

-- The callee's stack starts with the object itself.
unfoldable pub call_method : ℕ → Action
unfolding get_name get_func pop_args top safe_convert_to_class read_class check_method return_here
    push_frame push fill_args
call_method arg = do
  name ← get_name arg
  meta ← get_func name
  set_next_pc meta.addr
  args ← pop_args meta.arg_num
  obj ← top
  a ← safe_convert_to_class obj
  c ← read_class a
  answer (check_method name c)
  return_here
  push_frame meta
  push (class_at a)
  fill_args meta.names args
