-- ===== src/Leech/Callbacks.antt =====
-- leechVM-master/src/executor/callbacks.cc: the callbacks that are implemented, each by the name of
-- its opcode, but for classes. The argument is that of the instruction.
pub mod Invariant
pub mod Calls
use best_practices.Base.{
  ℕ, zero, suc, ◌+◌, ◌%◌, ◌^◌, Bool, true, false, if◌then◌else◌, List, [], ◌∷◌, Option, none, some,
}
use best_practices.Leech.Opcodes.{Opcode}
use best_practices.Leech.Values.{
  Name, Value, null, none_obj, integer, float, string, tuple, class_at, ClassObj, FloatOps, Store,
  value, fault, runtime_error, undefined, logic_error, new_class, write_class, clone,
}
use best_practices.Leech.Objects.{
  compare_values, add_values, sub_values, div_values, subscript_values, update_field,
  register_method, check_method, get_field,
}
use best_practices.Leech.Machine.{
  Vm, Action, State, StackFrame, FuncMeta, ret, throw, ◌>>=◌, ◌>>◌, fail, answer, get_cur_frame,
  set_cur_frame, push, top, pop, pop_get_tos, get_const, get_name, get_var, set_var, set_ret,
  fill_args, push_frame, set_next_pc, get_func, clone_value,
}
use best_practices.Leech.Stubs.{is_stub}

unfoldable pub pop_top : Action
unfolding pop
pop_top = pop

-- The callbacks of two operands, of which the top one comes first.
unfoldable pub binary_add : FloatOps → Action
unfolding pop_get_tos push add_values
binary_add ops = do
  tos1 ← pop_get_tos
  tos2 ← pop_get_tos
  result ← answer (add_values ops tos1 tos2)
  push result

unfoldable pub binary_subtract : FloatOps → Action
unfolding pop_get_tos push sub_values
binary_subtract ops = do
  tos1 ← pop_get_tos
  tos2 ← pop_get_tos
  result ← answer (sub_values ops tos2 tos1)
  push result

unfoldable pub binary_subscr : Action
unfolding pop_get_tos push subscript_values
binary_subscr = do
  idx ← pop_get_tos
  items ← pop_get_tos
  result ← answer (subscript_values items idx)
  push result

unfoldable pub binary_true_divide : FloatOps → Action
unfolding pop_get_tos push div_values
binary_true_divide ops = do
  two ← pop_get_tos
  one ← pop_get_tos
  result ← answer (div_values ops one two)
  push result

-- The return to the caller, if there is one, with the value for it.
unfoldable pub hand_over : Value → Action
unfolding push get_cur_frame
hand_over tos s = elim s.func_stack [
  | [] ↦ ret tt s
  | f ∷ _ ↦ (set_next_pc f.ret_addr >> push tos) s
]

-- `fstack.pop()`
unfoldable pub drop_frame : Action
drop_frame s = elim s.func_stack [
  | [] ↦ throw undefined s
  | _ ∷ fs ↦ ret tt (record s { func_stack = fs })
]

unfoldable pub return_value : Action
unfolding pop_get_tos drop_frame hand_over
return_value = do tos ← pop_get_tos; drop_frame; hand_over tos

unfoldable pub load_const : ℕ → Action
unfolding get_const push
load_const arg = do v ← get_const arg; push v

-- `static_cast<Integer>` of a `bool`
abbrev of_bool : Bool → Value
of_bool b = integer (if b then 1 else 0)

unfoldable pub compare_op : ℕ → Action
unfolding pop_get_tos push compare_values
compare_op arg = do
  tos1 ← pop_get_tos
  tos2 ← pop_get_tos
  res ← answer (compare_values arg tos2 tos1)
  push (of_bool res)

-- The test of the conditional jumps: `CmpOp::EQ` is 2.
unfoldable pub is_false : Vm Bool
unfolding pop_get_tos compare_values
is_false = do tos ← pop_get_tos; answer (compare_values 2 tos (integer 0))

unfoldable pub pop_jump_if_false : ℕ → Action
unfolding is_false
pop_jump_if_false arg = do res ← is_false; if res then set_next_pc arg else ret tt

unfoldable pub pop_jump_if_true : ℕ → Action
unfolding is_false
pop_jump_if_true arg = do res ← is_false; if res then ret tt else set_next_pc arg

unfoldable pub load_fast : ℕ → Action
unfolding get_name get_var push
load_fast arg = do name ← get_name arg; v ← get_var name; push v

-- The value stays on the stack.
unfoldable pub store_fast : ℕ → Action
unfolding get_name top set_var
store_fast arg = do name ← get_name arg; v ← top; set_var name v

-- `std::generate` with `popGetTos`
unfoldable pub pop_args : ℕ → Vm (List Value)
unfolding pop_get_tos
pop_args zero = ret []
pop_args (suc n) = do v ← pop_get_tos; vs ← pop_args n; ret (v ∷ vs)

-- `curFrame.setRet(state.pc + 1)`
unfoldable pub return_here : Action
unfolding set_ret
return_here s = set_ret ((s.pc + 1) % 2 ^ 64) s

-- `stackSize`
abbrev pub size : List Value → ℕ
size [] = 0
size (v ∷ vs) = suc (size vs)

-- Every value on the caller's stack is an argument, the top one first.
unfoldable pub call_function : ℕ → Action
unfolding get_name get_func get_cur_frame pop_args return_here push_frame fill_args
call_function arg = do
  name ← get_name arg
  meta ← get_func name
  set_next_pc meta.addr
  frame ← get_cur_frame
  args ← pop_args (size frame.data_stack)
  return_here
  push_frame meta
  fill_args meta.names args

unfoldable pub print : Action
unfolding pop_get_tos
print = do v ← pop_get_tos; λ s. ret tt (record s { printed = v ∷ s.printed })
