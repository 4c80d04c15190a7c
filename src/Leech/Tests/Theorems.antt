-- ===== src/Leech/Tests/Theorems.antt =====
-- The theorems about leechVM-master at concrete inputs.
use best_practices.Base.{◌≡◌, ◌≢◌, refl, List, [], ◌∷◌, ◌++◌, none, some, arith}
use best_practices.Base.Int.{signed64, ◌+ℤ◌, ◌-ℤ◌, ◌<ℤ◌, ◌≤ℤ◌}
use best_practices.Leech.Opcodes.{Opcode, nth}
use best_practices.Leech.Values.{
  Name, Value, null, integer, float, string, tuple, class_at, nil, cons, ClassObj, value, clone,
}
use best_practices.Leech.Objects.{
  has_name, compare_values, add_values, sub_values, get_field, lookup,
}
use best_practices.Leech.Objects.Integers.{Computes, Decides, integer_objects_lem}
use best_practices.Leech.Machine.{FuncMeta, LeechFile, StackFrame, State, ret, new_frame}
use best_practices.Leech.Machine.Invariant.{IsState}
use best_practices.Leech.Callbacks.{call_function, return_value}
use best_practices.Leech.Callbacks.Calls.{
  with_frames, with_stack, waiting, callee, following, return_value-call_function,
}
use best_practices.Leech.Classes.{instance_class, store_attr}
use best_practices.Leech.Classes.Instances.{copied, stored, store_attr-instance_class}
use best_practices.Leech.Executor.{main_func_name, initial, execute_next, run_loop}
use best_practices.Leech.Executor.Invariant.{here, next, Reaches-IsState}
use best_practices.Leech.Streams.{Bytes}
use best_practices.Leech.File.{count}
use best_practices.Leech.File.RoundTrip.{IsShort, IsStorableFunc}
use best_practices.Leech.Images.{serialize_file, deserialize_file}
use best_practices.Leech.Images.RoundTrip.{IsStorableFile, reread, deserialize_file-serialize_file}
use best_practices.Leech.Tests.Programs.{no_floats, inst}

-- A program of two instructions, and a function beside it whose argument has a name.
abbrev main_func : FuncMeta
main_func = record {
  addr = 0;
  arg_num = 1;
  cst_pool = integer 7 ∷ tuple (cons (string (104 ∷ [])) (cons (float 5) nil)) ∷ [];
  names = (120 ∷ []) ∷ [];
}

abbrev small : LeechFile
small = record {
  funcs = (main_func_name, main_func) ∷ (120 ∷ [], main_func) ∷ [];
  code = inst Opcode.load_const 0 ∷ inst Opcode.return_value 0 ∷ [];
}

main_func_fits : (name : Name) → IsShort name → IsStorableFunc 1 name main_func
unfolding count
main_func_fits name h = record {
  name_fits = h;
  addr_fits = omega arith;
  arg_num_fits = omega arith;
  cst_num_fits = omega arith;
  name_num_fits = omega arith;
  constants_fit = omega arith;
  names_fit = omega arith;
}

small_fits : IsStorableFile 1 small
unfolding has_name
small_fits = record {
  func_num_fits = omega arith;
  inst_num_fits = omega arith;
  funcs_fit = (
    main_func_fits main_func_name (omega arith),
    refl,
    (main_func_fits (120 ∷ []) (omega arith), refl, tt),
  );
  code_fits = omega arith;
}

deserialize_file-serialize_file_example :
    (bs : Bytes) × (serialize_file small ≡ value bs)
    × ((rest : Bytes) → deserialize_file 2 (bs ++ rest) ≡ value (reread small, rest))
deserialize_file-serialize_file_example = deserialize_file-serialize_file 1 small small_fits

abbrev no_class : ClassObj
no_class = record { fields = []; methods = [] }

abbrev start : State
start = record {
  func_stack =
      record { meta = main_func; data_stack = []; ret_addr = 0; vars = (120 ∷ [], null) ∷ [] } ∷ [];
  file = small;
  pc = 0;
  next_pc = none;
  store = record { classes = λ _. no_class; allocated = 0 };
  printed = [];
}

starts : initial small ≡ value start
unfolding initial
starts = refl

abbrev one_step : State
one_step = record start {
  func_stack =
      record {
        meta = main_func;
        data_stack = integer 7 ∷ [];
        ret_addr = 0;
        vars = (120 ∷ [], null) ∷ [];
      }
      ∷ [];
  pc = 1;
}

steps : execute_next no_floats start ≡ ret tt one_step
unfolding execute_next
steps = refl

Reaches-IsState_example : IsState one_step
Reaches-IsState_example = Reaches-IsState no_floats small starts (next here steps)

abbrev ended : State
ended = record start { func_stack = []; pc = 2 }

ends : run_loop 3 no_floats start ≡ some (ret tt ended)
unfolding run_loop
ends = refl

integer_objects_lem_example :
    Computes (signed64 5 +ℤ signed64 9) (add_values no_floats (integer 9) (integer 5))
    × Computes (signed64 5 -ℤ signed64 9) (sub_values no_floats (integer 5) (integer 9))
    × Decides (signed64 5 <ℤ signed64 9) (compare_values 0 (integer 5) (integer 9))
    × Decides (signed64 5 ≤ℤ signed64 9) (compare_values 1 (integer 5) (integer 9))
    × Decides (signed64 5 ≡ signed64 9) (compare_values 2 (integer 5) (integer 9))
    × Decides (signed64 5 ≢ signed64 9) (compare_values 3 (integer 5) (integer 9))
    × Decides (signed64 9 <ℤ signed64 5) (compare_values 4 (integer 5) (integer 9))
    × Decides (signed64 9 ≤ℤ signed64 5) (compare_values 5 (integer 5) (integer 9))
integer_objects_lem_example = integer_objects_lem no_floats 5 9 (omega arith) (omega arith)

-- A frame that calls the function "x" with two values on its stack.
abbrev caller : StackFrame
caller = record (new_frame main_func) { vars = (120 ∷ [], class_at 0) ∷ [] }

abbrev two_args : List Value
two_args = integer 1 ∷ integer 2 ∷ []

abbrev one_class : State
one_class = record start { store = record { classes = λ _. no_class; allocated = 1 } }

return_value-call_function_example :
    (call_function 0 (with_frames (with_stack two_args caller ∷ []) start)
      ≡ ret tt (record start {
        func_stack = callee main_func two_args ∷ waiting caller start ∷ [];
        next_pc = some 0;
      }))
    × (return_value (
          with_frames
            (with_stack (integer 3 ∷ []) (new_frame main_func) ∷ waiting caller start ∷ [])
            start)
        ≡ ret tt (record start {
          func_stack = with_stack (integer 3 ∷ []) (waiting caller start) ∷ [];
          next_pc = some (following start);
        }))
unfolding clone lookup nth new_frame
return_value-call_function_example =
    return_value-call_function 0 caller [] start two_args (120 ∷ []) main_func start
      (new_frame main_func) (integer 3) [] (λ st. refl, (λ st. refl, tt)) refl refl (λ st. refl)
      (cc)

store_attr-instance_class_example :
    (instance_class 0 (with_frames (caller ∷ []) one_class)
      ≡ ret tt (record one_class {
        func_stack = with_stack (class_at 1 ∷ caller.data_stack) caller ∷ [];
        store = copied 0 one_class.store;
      }))
    × (store_attr 0 (record one_class {
      func_stack = with_stack (integer 4 ∷ class_at 1 ∷ caller.data_stack) caller ∷ [];
      store = copied 0 one_class.store;
    })
        ≡ ret tt (record one_class {
          func_stack = with_stack (class_at 1 ∷ caller.data_stack) caller ∷ [];
          store = stored (120 ∷ []) (integer 4) 0 one_class.store;
        }))
    × ((stored (120 ∷ []) (integer 4) 0 one_class.store).classes 0 ≡ one_class.store.classes 0)
    × (get_field (120 ∷ []) ((stored (120 ∷ []) (integer 4) 0 one_class.store).classes 1)
        ≡ value (integer 4))
unfolding clone lookup nth new_frame
store_attr-instance_class_example =
    store_attr-instance_class 0 0 caller [] one_class (120 ∷ []) (120 ∷ []) 0 (integer 4)
      (omega arith) refl refl refl (λ st. refl)
