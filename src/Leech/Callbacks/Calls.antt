-- ===== src/Leech/Callbacks/Calls.antt =====
-- leechVM-master/src/executor/callbacks.cc: CALL_FUNCTION and RETURN_VALUE together.
use best_practices.Base.{ℕ, ◌+◌, ◌%◌, ◌^◌, ◌≡◌, refl, ◌≢◌, List, [], ◌∷◌, Option, none, some}
use best_practices.Base.Lists.{All}
use best_practices.Leech.Opcodes.{nth}
use best_practices.Leech.Values.{
  Name, Value, null, none_obj, integer, float, string, tuple, class_at, Store, value, clone,
}
use best_practices.Leech.Objects.{lookup, insert_or_assign}
use best_practices.Leech.Machine.{
  FuncMeta, StackFrame, State, ret, ◌>>=◌, ◌>>◌, pop_get_tos, push, get_func, set_var, fill_args,
  new_frame,
}
use best_practices.Leech.Machine.Variables.{IsVar, All-IsVar}
use best_practices.Leech.Machine.Invariant.{new_frame-IsFrame}
use best_practices.Leech.Callbacks.{
  size, pop_args, call_function, drop_frame, hand_over, return_value,
}

-- A value without classes: its clone is its equal.
abbrev pub IsPlain : Value → Type 0
IsPlain v = (st : Store) → clone v st ≡ value (v, st)

-- The state with these frames; the frame with this stack.
abbrev pub with_frames : List StackFrame → State → State
with_frames fs s = record s { func_stack = fs }

abbrev pub with_stack : List Value → StackFrame → StackFrame
with_stack vs f = record f { data_stack = vs }

pub pop_get_tos-IsPlain :
    (v : Value) (vs : List Value) (f : StackFrame) (fs : List StackFrame) (s : State)
    → IsPlain v
    → pop_get_tos (with_frames (with_stack (v ∷ vs) f ∷ fs) s)
      ≡ ret v (with_frames (with_stack vs f ∷ fs) s)
unfolding pop_get_tos
pop_get_tos-IsPlain v vs f fs s h = rw (pop_get_tos, ◌>>=◌, h s.store) refl

pub push-obj :
    (v : Value) (f : StackFrame) (fs : List StackFrame) (s : State)
    → v ≢ null
    → push v (with_frames (f ∷ fs) s)
      ≡ ret tt (with_frames (with_stack (v ∷ f.data_stack) f ∷ fs) s)
unfolding push
push-obj null f fs s h = absurd (h refl)
push-obj none_obj f fs s h = refl
push-obj (integer n) f fs s h = refl
push-obj (float x) f fs s h = refl
push-obj (string x) f fs s h = refl
push-obj (tuple vs) f fs s h = refl
push-obj (class_at a) f fs s h = refl

pop_args-size :
    (vs : List Value) (f : StackFrame) (fs : List StackFrame) (s : State)
    → All IsPlain vs
    → pop_args (size vs) (with_frames (with_stack vs f ∷ fs) s)
      ≡ ret vs (with_frames (with_stack [] f ∷ fs) s)
unfolding pop_args
pop_args-size [] f fs s h = refl
pop_args-size (v ∷ vs) f fs s h =
    rw (pop_args, ◌>>=◌, pop_get_tos-IsPlain v vs f fs s h.0, pop_args-size vs f fs s h.1) refl

-- The names take the values in their order, as far as there are values.
abbrev pub assign_args : List Name → List Value → List (Name × Value) → List (Name × Value)
assign_args [] vs vars = vars
assign_args (name ∷ names) [] vars = vars
assign_args (name ∷ names) (v ∷ vs) vars = assign_args names vs (insert_or_assign name v vars)

abbrev pub with_vars : List (Name × Value) → StackFrame → StackFrame
with_vars vars f = record f { vars = vars }

found : {A : Type 0} (o : Option A) → o ≢ none → (a : A) × (o ≡ some a)
found none h = absurd (h refl)
found (some a) h = (a, refl)

pub set_var-IsVar :
    (name : Name) (v : Value) (f : StackFrame) (fs : List StackFrame) (s : State)
    → IsVar f.vars name
    → set_var name v (with_frames (f ∷ fs) s)
      ≡ ret tt (with_frames (with_vars (insert_or_assign name v f.vars) f ∷ fs) s)
unfolding set_var
set_var-IsVar name v f fs s h =
    let (old, p) = found (lookup name f.vars) h in rw (set_var, ◌>>=◌, p) refl

fill_args-assign_args :
    (names : List Name) (vs : List Value) (f : StackFrame) (fs : List StackFrame) (s : State)
    → All (IsVar f.vars) names
    → fill_args names vs (with_frames (f ∷ fs) s)
      ≡ ret tt (with_frames (with_vars (assign_args names vs f.vars) f ∷ fs) s)
unfolding fill_args
fill_args-assign_args [] vs f fs s h = refl
fill_args-assign_args (name ∷ names) [] f fs s h = refl
fill_args-assign_args (name ∷ names) (v ∷ vs) f fs s h =
    let f' = with_vars (insert_or_assign name v f.vars) f in
    rw
      (
        fill_args,
        set_var-IsVar name v f fs s h.0,
        fill_args-assign_args names vs f' fs s (All-IsVar names name v f.vars h.1),
      )
      refl

-- The frame of a function that has just been called with these values on the stack.
abbrev pub callee : FuncMeta → List Value → StackFrame
callee meta args = with_vars (assign_args meta.names args (new_frame meta).vars) (new_frame meta)

-- The address of the instruction after the one at `pc`.
abbrev pub following : State → ℕ
following s = (s.pc + 1) % 2 ^ 64

-- The caller, who waits with an empty stack.
abbrev pub waiting : StackFrame → State → StackFrame
waiting f s = record f { data_stack = []; ret_addr = following s }

call_function-callee :
    (arg : ℕ) (f : StackFrame) (fs : List StackFrame) (s : State) (args : List Value) (name : Name)
    (meta : FuncMeta)
    → All IsPlain args
    → nth arg f.meta.names ≡ some name
    → lookup name s.file.funcs ≡ some meta
    → call_function arg (with_frames (with_stack args f ∷ fs) s)
      ≡ ret tt
          (record s { func_stack = callee meta args ∷ waiting f s ∷ fs; next_pc = some meta.addr })
unfolding call_function get_func
call_function-callee arg f fs s args name meta plain named known =
    let called = record s { next_pc = some meta.addr } in
    rw
      (
        ◌>>=◌,
        named,
        known,
        pop_args-size args f fs called plain,
        fill_args-assign_args meta.names args (new_frame meta) (waiting f s ∷ fs) called
            (new_frame-IsFrame meta).variables,
      )
      refl

hand_over-obj :
    (v : Value) (f : StackFrame) (fs : List StackFrame) (t : State)
    → v ≢ null
    → hand_over v (with_frames (f ∷ fs) t)
      ≡ ret tt (record t {
        func_stack = with_stack (v ∷ f.data_stack) f ∷ fs;
        next_pc = some f.ret_addr;
      })
unfolding hand_over
hand_over-obj v f fs t h =
    rw (◌>>◌, ◌>>=◌, push-obj v f fs (record t { next_pc = some f.ret_addr }) h) refl

return_value-obj :
    (v : Value) (vs : List Value) (g f : StackFrame) (fs : List StackFrame) (t : State)
    → IsPlain v
    → v ≢ null
    → return_value (with_frames (with_stack (v ∷ vs) g ∷ f ∷ fs) t)
      ≡ ret tt (record t {
        func_stack = with_stack (v ∷ f.data_stack) f ∷ fs;
        next_pc = some f.ret_addr;
      })
unfolding return_value drop_frame
return_value-obj v vs g f fs t plain h =
    rw (◌>>◌, ◌>>=◌, pop_get_tos-IsPlain v vs g (f ∷ fs) t plain, hand_over-obj v f fs t h) refl

-- If the values on the caller's stack are without classes and the name and its function are known,
-- CALL_FUNCTION empties the stack, saves the address of the next instruction, jumps to the function and
-- gives its first variables the values, the top one first; and RETURN_VALUE of an object without
-- classes, in whatever frame above the caller, continues there with the value on the caller's stack
-- and all else of the caller as it was.
pub return_value-call_function :
    (arg : ℕ) (f : StackFrame) (fs : List StackFrame) (s : State) (args : List Value) (name : Name)
    (meta : FuncMeta) (t : State) (g : StackFrame) (v : Value) (vs : List Value)
    → All IsPlain args
    → nth arg f.meta.names ≡ some name
    → lookup name s.file.funcs ≡ some meta
    → IsPlain v
    → v ≢ null
    → (call_function arg (with_frames (with_stack args f ∷ fs) s)
        ≡ ret tt (record s {
          func_stack = callee meta args ∷ waiting f s ∷ fs;
          next_pc = some meta.addr;
        }))
      × (return_value (with_frames (with_stack (v ∷ vs) g ∷ waiting f s ∷ fs) t)
          ≡ ret tt (record t {
            func_stack = with_stack (v ∷ []) (waiting f s) ∷ fs;
            next_pc = some (following s);
          }))
return_value-call_function arg f fs s args name meta t g v vs plain named known plain_v h = (
  call_function-callee arg f fs s args name meta plain named known,
  return_value-obj v vs g (waiting f s) fs t plain_v h,
)
