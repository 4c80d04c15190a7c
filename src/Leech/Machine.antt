-- ===== src/Leech/Machine.antt =====
-- leechVM-master/include/executor/executor.hh and src/executor/executor.cc: frames and the state of
-- the machine. A member function is a `Vm`: it returns or throws, with the state as it stands then.
pub mod Variables
pub mod Invariant
use best_practices.Base.{ℕ, zero, suc, if◌then◌else◌, List, [], ◌∷◌, Option, none, some}
use best_practices.Leech.Opcodes.{Opcode, nth}
use best_practices.Leech.Values.{
  Name, Value, null, ClassObj, Store, Answer, value, fault, Error, out_of_range, runtime_error,
  invalid_argument, undefined, clone,
}
use best_practices.Leech.Objects.{lookup, insert_or_assign}

-- `FuncMeta`
pub record FuncMeta : Type 0 where
  pub addr : ℕ
  pub arg_num : ℕ
  pub cst_pool : List Value
  pub names : List Name

-- `Instruction`
pub record Instruction : Type 0 where
  pub opcode : Opcode
  pub arg : ℕ

-- `LeechFile`, with the functions of `Meta` in the order in which their hash map is iterated
pub record LeechFile : Type 0 where
  pub funcs : List (Name × FuncMeta)
  pub code : List Instruction

-- `StackFrame`; the top of the stack comes first.
pub record StackFrame : Type 0 where
  pub meta : FuncMeta
  pub data_stack : List Value
  pub ret_addr : ℕ
  pub vars : List (Name × Value)

-- `State`, the current frame first, and what has been printed, the latest first.
pub record State : Type 0 where
  pub func_stack : List StackFrame
  pub file : LeechFile
  pub pc : ℕ
  pub next_pc : Option ℕ
  pub store : Store
  pub printed : List Value

pub data Step {ℓ} (A : Type ℓ) : Type ℓ where
  ret : A → State → Step A
  throw : Error → State → Step A

abbrev pub Vm {ℓ} : Type ℓ → Type ℓ
Vm A = State → Step A

infixl 5 ◌>>=◌ ◌>>◌
abbrev pub ◌>>=◌ {ℓ κ} : {A : Type ℓ} {B : Type κ} → Vm A → (A → Vm B) → Vm B
◌>>=◌ m f s = elim (m s) [ ret a t ↦ f a t | throw e t ↦ throw e t ]

abbrev pub ◌>>◌ {ℓ κ} : {A : Type ℓ} {B : Type κ} → Vm A → Vm B → Vm B
m >> k = m >>= λ _. k

abbrev pub Action : Type 0
Action = Vm (Unit {0})

abbrev pub fail {ℓ} : {A : Type ℓ} → Error → Vm A
fail e s = throw e s

abbrev pub answer {ℓ} : {A : Type ℓ} → Answer A → Vm A
answer (value a) s = ret a s
answer (fault e) s = throw e s

-- `at`, or `find`, of a map or an array
abbrev pub at {ℓ} : {A : Type ℓ} → Option A → Vm A
at (some a) s = ret a s
at none s = throw out_of_range s

-- `State::getCurFrame`; `top` of an empty stack is undefined.
unfoldable pub get_cur_frame : Vm StackFrame
get_cur_frame s = elim s.func_stack [ [] ↦ throw undefined s | f ∷ fs ↦ ret f s ]

-- An assignment to members of the current frame.
unfoldable pub set_cur_frame : StackFrame → Action
set_cur_frame f s = elim s.func_stack [
  | [] ↦ throw undefined s
  | _ ∷ fs ↦ ret tt (record s { func_stack = f ∷ fs })
]

-- `StackFrame::push`
unfoldable pub push : Value → Action
unfolding get_cur_frame set_cur_frame
push null = fail invalid_argument
push v = do f ← get_cur_frame; set_cur_frame (record f { data_stack = v ∷ f.data_stack })

-- `StackFrame::top`
unfoldable pub top : Vm Value
unfolding get_cur_frame
top = do f ← get_cur_frame; elim f.data_stack [ [] ↦ fail runtime_error | v ∷ _ ↦ (λ s. ret v s) ]

-- `StackFrame::pop`
unfoldable pub pop : Action
unfolding get_cur_frame set_cur_frame
pop = do
  f ← get_cur_frame
  elim f.data_stack [
    | [] ↦ fail runtime_error
    | _ ∷ rest ↦ set_cur_frame (record f { data_stack = rest })
  ]

-- A call of `clone`.
unfoldable pub clone_value : Value → Vm Value
unfolding clone
clone_value v s = elim (clone v s.store) [
  | value (w, st) ↦ ret w (record s { store = st })
  | fault e ↦ throw e s
]

-- `StackFrame::popGetTos`
unfoldable pub pop_get_tos : Vm Value
unfolding top pop clone_value
pop_get_tos = do v ← top; tos ← clone_value v; pop; λ s. ret tos s

-- `StackFrame::getConst`
unfoldable pub get_const : ℕ → Vm Value
unfolding get_cur_frame nth
get_const idx = do f ← get_cur_frame; at (nth idx f.meta.cst_pool)

-- `StackFrame::getName`
unfoldable pub get_name : ℕ → Vm Name
unfolding get_cur_frame nth
get_name idx = do f ← get_cur_frame; at (nth idx f.meta.names)

-- `StackFrame::getVar`
unfoldable pub get_var : Name → Vm Value
unfolding get_cur_frame lookup
get_var name = do f ← get_cur_frame; at (lookup name f.vars)

-- `StackFrame::setVar`: only a name that is in the map already.
unfoldable pub set_var : Name → Value → Action
unfolding get_cur_frame set_cur_frame lookup insert_or_assign
set_var name v = do
  f ← get_cur_frame
  at (lookup name f.vars)
  set_cur_frame (record f { vars = insert_or_assign name v f.vars })

-- `StackFrame::setRet`
unfoldable pub set_ret : ℕ → Action
unfolding get_cur_frame set_cur_frame
set_ret addr = do f ← get_cur_frame; set_cur_frame (record f { ret_addr = addr })

-- `StackFrame::fillArgs`, over the names that are left
unfoldable pub fill_args : List Name → List Value → Action
unfolding set_var
fill_args [] vs s = ret tt s
fill_args (name ∷ names) [] s = ret tt s
fill_args (name ∷ names) (v ∷ vs) s =
    let rest = fill_args names vs in
    elim (set_var name v s) [ ret _ t ↦ rest t | throw e t ↦ throw e t ]

-- `vars_.emplace(name, nullptr)` for every name: a name that is there already stays.
unfoldable pub empty_vars : List Name → List (Name × Value) → List (Name × Value)
unfolding lookup insert_or_assign
empty_vars [] vars = vars
empty_vars (name ∷ names) vars = empty_vars names (insert_or_assign name null vars)

-- `StackFrame::StackFrame`
unfoldable pub new_frame : FuncMeta → StackFrame
unfolding empty_vars
new_frame m = record { meta = m; data_stack = []; ret_addr = 0; vars = empty_vars m.names [] }

-- `funcStack.emplace(fMeta)`
unfoldable pub push_frame : FuncMeta → Action
unfolding new_frame
push_frame m s = ret tt (record s { func_stack = new_frame m ∷ s.func_stack })

-- `nextPC = addr`
abbrev pub set_next_pc : ℕ → Action
set_next_pc addr s = ret tt (record s { next_pc = some addr })

-- `pFile->meta.funcs.at(name)`
unfoldable pub get_func : Name → Vm FuncMeta
unfolding lookup
get_func name s = at (lookup name s.file.funcs) s
