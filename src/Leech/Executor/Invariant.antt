-- ===== src/Leech/Executor/Invariant.antt =====
-- leechVM-master/src/executor/executor.cc: what holds of the machine however long a program runs.
use best_practices.Base.{
  ℕ, ◌+◌, ◌%◌, ◌^◌, Bool, true, false, ◌≡◌, subst, if◌then◌else◌, [], ◌∷◌, Option, none, some,
}
use best_practices.Leech.Opcodes.{Opcode, nth}
use best_practices.Leech.Values.{FloatOps, Answer, value, fault, logic_error, out_of_range}
use best_practices.Leech.Objects.{lookup}
use best_practices.Leech.Machine.{
  State, Step, FuncMeta, Instruction, LeechFile, ret, throw, fail, new_frame,
}
use best_practices.Leech.Machine.Invariant.{IsAny, IsState, After, Keeps, new_frame-IsFrame}
use best_practices.Leech.Callbacks.Invariant.{
  Keeps-pop_top, Keeps-binary_add, Keeps-binary_subtract, Keeps-binary_subscr,
  Keeps-binary_true_divide, Keeps-return_value, Keeps-load_const, Keeps-compare_op,
  Keeps-pop_jump_if_false, Keeps-pop_jump_if_true, Keeps-load_fast, Keeps-store_fast,
  Keeps-call_function, Keeps-print,
}
use best_practices.Leech.Classes.Invariant.{
  Keeps-load_build_class, Keeps-store_build_class, Keeps-store_attr, Keeps-load_attr,
  Keeps-instance_class, Keeps-register_method_of, Keeps-call_method,
}
use best_practices.Leech.Stubs.{is_stub}
use best_practices.Leech.Executor.{run_callback, execute, execute_next, main_func_name, initial}

Keeps-run_callback :
    (ops : FloatOps) (op : Opcode) (arg : ℕ) → Keeps IsAny (run_callback ops op arg)
unfolding run_callback
Keeps-run_callback ops Opcode.pop_top arg s h = Keeps-pop_top s h
Keeps-run_callback ops Opcode.binary_add arg s h = Keeps-binary_add ops s h
Keeps-run_callback ops Opcode.binary_subtract arg s h = Keeps-binary_subtract ops s h
Keeps-run_callback ops Opcode.binary_subscr arg s h = Keeps-binary_subscr s h
Keeps-run_callback ops Opcode.binary_true_divide arg s h = Keeps-binary_true_divide ops s h
Keeps-run_callback ops Opcode.return_value arg s h = Keeps-return_value s h
Keeps-run_callback ops Opcode.load_const arg s h = Keeps-load_const arg s h
Keeps-run_callback ops Opcode.compare_op arg s h = Keeps-compare_op arg s h
Keeps-run_callback ops Opcode.pop_jump_if_false arg s h = Keeps-pop_jump_if_false arg s h
Keeps-run_callback ops Opcode.pop_jump_if_true arg s h = Keeps-pop_jump_if_true arg s h
Keeps-run_callback ops Opcode.load_fast arg s h = Keeps-load_fast arg s h
Keeps-run_callback ops Opcode.store_fast arg s h = Keeps-store_fast arg s h
Keeps-run_callback ops Opcode.call_function arg s h = Keeps-call_function arg s h
Keeps-run_callback ops Opcode.print arg s h = Keeps-print s h
Keeps-run_callback ops Opcode.load_build_class arg s h = Keeps-load_build_class s h
Keeps-run_callback ops Opcode.store_build_class arg s h = Keeps-store_build_class arg s h
Keeps-run_callback ops Opcode.store_attr arg s h = Keeps-store_attr arg s h
Keeps-run_callback ops Opcode.load_attr arg s h = Keeps-load_attr arg s h
Keeps-run_callback ops Opcode.instance_class arg s h = Keeps-instance_class arg s h
Keeps-run_callback ops Opcode.register_method arg s h = Keeps-register_method_of arg s h
Keeps-run_callback ops Opcode.call_method arg s h = Keeps-call_method arg s h
Keeps-run_callback ops _ arg s h = h

perform :
    (ops : FloatOps) (op : Opcode) (arg : ℕ) (stub : Bool)
    → Keeps IsAny (if stub then fail logic_error else run_callback ops op arg)
perform ops op arg true s h = h
perform ops op arg false s h = Keeps-run_callback ops op arg s h

Keeps-execute : (ops : FloatOps) (op : Opcode) (arg : ℕ) → Keeps IsAny (execute ops op arg)
unfolding execute
Keeps-execute ops op arg = perform ops op arg (is_stub op)

-- The next `pc` of a state.
abbrev next_pc_of : State → ℕ
next_pc_of t = elim t.next_pc [ some addr ↦ addr | none ↦ (t.pc + 1) % 2 ^ 64 ]

advance :
    (r : Step (Unit {0}))
    → After IsAny r
    → After {A = Unit {0}} IsAny
        (elim r [ ret _ t ↦ ret tt (record t { pc = next_pc_of t }) | throw e t ↦ throw e t ])
advance (ret _ t) h = h
advance (throw e t) h = h

fetch :
    (ops : FloatOps) (s : State) (found : Option Instruction)
    → IsState s
    → After {A = Unit {0}} IsAny (elim found [
      | none ↦ throw out_of_range s
      | some inst ↦ elim (execute ops inst.opcode inst.arg (record s { next_pc = none })) [
        | ret _ t ↦ ret tt (record t { pc = next_pc_of t })
        | throw e t ↦ throw e t
      ]
    ])
fetch ops s none h = h
fetch ops s (some inst) h =
    advance (execute ops inst.opcode inst.arg (record s { next_pc = none }))
      (Keeps-execute ops inst.opcode inst.arg (record s { next_pc = none }) h)

pub Keeps-execute_next : (ops : FloatOps) → Keeps IsAny (execute_next ops)
unfolding execute_next
Keeps-execute_next ops s h = fetch ops s (nth s.pc s.file.code) h

-- What the start of a program gives.
abbrev Starts : Answer State → Type 0
Starts (value s) = IsState s
Starts (fault e) = Unit

Starts-lookup :
    (file : LeechFile) (found : Option FuncMeta)
    → Starts (elim found [
      | none ↦ fault out_of_range
      | some meta ↦ value (record {
        func_stack = new_frame meta ∷ [];
        file = file;
        pc = meta.addr;
        next_pc = none;
        store = record { classes = λ _. record { fields = []; methods = [] }; allocated = 0 };
        printed = [];
      })
    ])
Starts-lookup file none = tt
Starts-lookup file (some meta) = (new_frame-IsFrame meta, tt)

initial-IsState : (file : LeechFile) {s : State} → initial file ≡ value s → IsState s
unfolding initial
initial-IsState file p = subst Starts p (Starts-lookup file (lookup main_func_name file.funcs))

-- The states that the loop comes to.
pub data Reaches (ops : FloatOps) (s : State) : State → Type 0 where
  here : Reaches ops s s
  next : {t u : State} → Reaches ops s t → execute_next ops t ≡ ret tt u → Reaches ops s u

Reaches_keeps : {ops : FloatOps} {s t : State} → IsState s → Reaches ops s t → IsState t
Reaches_keeps h here = h
Reaches_keeps {ops} h (next {t} r p) =
    (subst (After IsAny) p (Keeps-execute_next ops t (Reaches_keeps h r))).0

-- In every state that the execution of a file reaches, no null pointer is on the stack of a frame, and
-- each name of a frame's function is one of its variables.
pub Reaches-IsState :
    (ops : FloatOps) (file : LeechFile) {s t : State}
    → initial file ≡ value s
    → Reaches ops s t
    → IsState t
Reaches-IsState ops file p r = Reaches_keeps (initial-IsState file p) r
