-- ===== src/Leech/Executor.antt =====
-- leechVM-master/src/executor/callbacks.cc and executor.cc: the table of callbacks, and the loop that
-- executes a program.
pub mod Invariant
pub mod Fuel
use best_practices.Base.{
  ℕ, zero, suc, ◌+◌, ◌%◌, ◌^◌, Bool, true, false, if◌then◌else◌, List, [], ◌∷◌, Option, none, some,
}
use best_practices.Leech.Opcodes.{Opcode, nth}
use best_practices.Leech.Values.{
  Name, Value, null, none_obj, integer, float, string, tuple, class_at, ClassObj, FloatOps, Store,
  value, fault, runtime_error, undefined, logic_error, Answer, out_of_range, new_class, write_class,
  clone,
}
use best_practices.Leech.Objects.{
  lookup, compare_values, add_values, sub_values, div_values, subscript_values, update_field,
  register_method, check_method, get_field,
}
use best_practices.Leech.Machine.{
  Vm, Action, State, LeechFile, Step, new_frame, StackFrame, FuncMeta, ret, throw, ◌>>=◌, ◌>>◌,
  fail, answer, get_cur_frame, set_cur_frame, push, top, pop, pop_get_tos, get_const, get_name,
  get_var, set_var, set_ret, fill_args, push_frame, set_next_pc, get_func, clone_value,
}
use best_practices.Leech.Stubs.{is_stub}
use best_practices.Leech.Callbacks.{
  pop_top, binary_add, binary_subtract, binary_subscr, binary_true_divide, return_value, load_const,
  compare_op, pop_jump_if_false, pop_jump_if_true, load_fast, store_fast, call_function, print,
}
use best_practices.Leech.Classes.{
  load_build_class, store_build_class, store_attr, load_attr, instance_class, register_method_of,
  call_method,
}

-- `opcToCallback`, for the opcodes with a callback that does something
unfoldable pub run_callback : FloatOps → Opcode → ℕ → Action
unfolding pop_top binary_add binary_subtract binary_subscr binary_true_divide return_value
    load_const compare_op pop_jump_if_false pop_jump_if_true load_fast store_fast call_function
    print load_build_class store_build_class store_attr load_attr instance_class register_method_of
    call_method
run_callback ops Opcode.pop_top arg = pop_top
run_callback ops Opcode.binary_add arg = binary_add ops
run_callback ops Opcode.binary_subtract arg = binary_subtract ops
run_callback ops Opcode.binary_subscr arg = binary_subscr
run_callback ops Opcode.binary_true_divide arg = binary_true_divide ops
run_callback ops Opcode.return_value arg = return_value
run_callback ops Opcode.load_const arg = load_const arg
run_callback ops Opcode.compare_op arg = compare_op arg
run_callback ops Opcode.pop_jump_if_false arg = pop_jump_if_false arg
run_callback ops Opcode.pop_jump_if_true arg = pop_jump_if_true arg
run_callback ops Opcode.load_fast arg = load_fast arg
run_callback ops Opcode.store_fast arg = store_fast arg
run_callback ops Opcode.call_function arg = call_function arg
run_callback ops Opcode.print arg = print
run_callback ops Opcode.load_build_class arg = load_build_class
run_callback ops Opcode.store_build_class arg = store_build_class arg
run_callback ops Opcode.store_attr arg = store_attr arg
run_callback ops Opcode.load_attr arg = load_attr arg
run_callback ops Opcode.instance_class arg = instance_class arg
run_callback ops Opcode.register_method arg = register_method_of arg
run_callback ops Opcode.call_method arg = call_method arg
run_callback ops _ arg = fail logic_error

-- `Instruction::execute`: the callback of the opcode
unfoldable pub execute : FloatOps → Opcode → ℕ → Action
unfolding is_stub run_callback
execute ops op arg = if is_stub op then fail logic_error else run_callback ops op arg

-- The loop's body: `getInst`, the callback, and the next `pc`.
unfoldable pub execute_next : FloatOps → Action
unfolding nth execute
execute_next ops s = elim (nth s.pc s.file.code) [
  | none ↦ throw out_of_range s
  | some inst ↦ elim (execute ops inst.opcode inst.arg (record s { next_pc = none })) [
    | ret _ t ↦
        ret tt (record t { pc = elim t.next_pc [ some addr ↦ addr | none ↦ (t.pc + 1) % 2 ^ 64 ] })
    | throw e t ↦ throw e t
  ]
]

-- `Executor::execute` for at most `fuel` instructions: `none` if the loop is still running then.
unfoldable pub run_loop : ℕ → FloatOps → State → Option (Step (Unit {0}))
unfolding execute_next
run_loop zero ops s = none
run_loop (suc fuel) ops s = elim s.func_stack [
  | [] ↦ some (ret tt s)
  | _ ∷ _ ↦ elim (execute_next ops s) [
    | ret _ t ↦ run_loop fuel ops t
    | throw e t ↦ some (throw e t)
  ]
]

-- The bytes of "main", `kMainFuncName`
abbrev pub main_func_name : Name
main_func_name = 109 ∷ 97 ∷ 105 ∷ 110 ∷ []

-- `State::State`, before anything has been executed
unfoldable pub initial : LeechFile → Answer State
unfolding lookup new_frame
initial file = elim (lookup main_func_name file.funcs) [
  | none ↦ fault out_of_range
  | some meta ↦ value (record {
    func_stack = new_frame meta ∷ [];
    file = file;
    pc = meta.addr;
    next_pc = none;
    store = record { classes = λ _. record { fields = []; methods = [] }; allocated = 0 };
    printed = [];
  })
]
