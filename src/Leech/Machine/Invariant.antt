-- ===== src/Leech/Machine/Invariant.antt =====
-- leechVM-master/include/executor/executor.hh: what every frame of the machine keeps, through each
-- member function of frames.
use best_practices.Base.{ℕ, ◌≢◌, List, [], ◌∷◌, Option, none, some}
use best_practices.Base.Lists.{All}
use best_practices.Leech.Opcodes.{nth}
use best_practices.Leech.Values.{
  Name, Value, Values, null, none_obj, integer, float, string, tuple, class_at, Store, Answer,
  value, fault, undefined, runtime_error, clone, clone_all,
}
use best_practices.Leech.Objects.{lookup, insert_or_assign}
use best_practices.Leech.Machine.Variables.{IsVar, All-IsVar, empty_vars-IsVar}
use best_practices.Leech.Machine.{
  Vm, Step, ret, throw, ◌>>=◌, fail, answer, at, State, StackFrame, FuncMeta, get_cur_frame,
  set_cur_frame, push, top, pop, clone_value, pop_get_tos, get_const, get_name, get_var, set_var,
  set_ret, fill_args, new_frame, push_frame, set_next_pc, get_func,
}

abbrev pub IsObj : Value → Type 0
IsObj v = v ≢ null

abbrev pub IsAny {ℓ} : {A : Type ℓ} → A → Type 0
IsAny a = Unit

-- No null pointer is on the stack, and every name of the function has a variable.
pub record IsFrame (f : StackFrame) : Type 0 where
  pub objects : All IsObj f.data_stack
  pub variables : All (IsVar f.vars) f.meta.names

abbrev pub IsState : State → Type 0
IsState s = All IsFrame s.func_stack

-- The outcome of a step that keeps the frames, with `P` of what it returns.
abbrev pub After {ℓ} : {A : Type ℓ} → (A → Type 0) → Step A → Type 0
After P (ret a t) = IsState t × P a
After P (throw e t) = IsState t

abbrev pub Keeps {ℓ} : {A : Type ℓ} → (A → Type 0) → Vm A → Type 0
Keeps P m = (s : State) → IsState s → After P (m s)

module _ {ℓ κ} {A : Type ℓ} {B : Type κ} (P : A → Type 0) (Q : B → Type 0) where
  After-bind :
      (f : A → Vm B) (r : Step A)
      → After P r
      → ((a : A) → P a → Keeps Q (f a))
      → After Q (elim r [ ret a t ↦ f a t | throw e t ↦ throw e t ])
  After-bind f (ret a t) h k = k a h.1 t h.0
  After-bind f (throw e t) h k = h

  pub Keeps-bind :
      (m : Vm A) (f : A → Vm B) → Keeps P m → ((a : A) → P a → Keeps Q (f a)) → Keeps Q (m >>= f)
  Keeps-bind m f hm hf s h = After-bind f (m s) (hm s h) hf

pub Keeps-at {ℓ} : {A : Type ℓ} (a : Option A) → Keeps IsAny (at a)
Keeps-at none s h = h
Keeps-at (some a) s h = (h, tt)

pub Keeps-answer {ℓ} : {A : Type ℓ} (a : Answer A) → Keeps IsAny (answer a)
Keeps-answer (value a) s h = (h, tt)
Keeps-answer (fault e) s h = h

After-current :
    (s : State) (fs : List StackFrame)
    → IsState s
    → All IsFrame fs
    → After IsFrame (elim fs [ [] ↦ throw undefined s | f ∷ _ ↦ ret f s ])
After-current s [] h k = h
After-current s (f ∷ fs) h k = (h, k.0)

pub Keeps-get_cur_frame : Keeps IsFrame get_cur_frame
unfolding get_cur_frame
Keeps-get_cur_frame s h = After-current s s.func_stack h h

After-replaced :
    (f : StackFrame) (s : State) (fs : List StackFrame)
    → IsFrame f
    → IsState s
    → All IsFrame fs
    → After {A = Unit {0}} IsAny
        (elim fs [ [] ↦ throw undefined s | _ ∷ fs' ↦ ret tt (record s { func_stack = f ∷ fs' }) ])
After-replaced f s [] hf h k = h
After-replaced f s (_ ∷ fs) hf h k = ((hf, k.1), tt)

pub Keeps-set_cur_frame : (f : StackFrame) → IsFrame f → Keeps IsAny (set_cur_frame f)
unfolding set_cur_frame
Keeps-set_cur_frame f hf s h = After-replaced f s s.func_stack hf h h

push_obj :
    (v : Value)
    → IsObj v
    → Keeps IsAny (do f ← get_cur_frame; set_cur_frame (record f { data_stack = v ∷ f.data_stack }))
push_obj v hv = Keeps-bind IsFrame IsAny get_cur_frame _ Keeps-get_cur_frame λ f hf.
    Keeps-set_cur_frame (record f { data_stack = v ∷ f.data_stack })
      (record { objects = (hv, hf.objects); variables = hf.variables })

pub Keeps-push : (v : Value) → Keeps IsAny (push v)
unfolding push
Keeps-push null s h = h
Keeps-push none_obj s h = push_obj none_obj (cc) s h
Keeps-push (integer n) s h = push_obj (integer n) (cc) s h
Keeps-push (float x) s h = push_obj (float x) (cc) s h
Keeps-push (string x) s h = push_obj (string x) (cc) s h
Keeps-push (tuple vs) s h = push_obj (tuple vs) (cc) s h
Keeps-push (class_at a) s h = push_obj (class_at a) (cc) s h

top_of :
    (vs : List Value)
    → All IsObj vs
    → Keeps IsObj (elim vs [ [] ↦ fail runtime_error | v ∷ _ ↦ (λ s. ret v s) ])
top_of [] k s h = h
top_of (v ∷ vs) k s h = (h, k.0)

pub Keeps-top : Keeps IsObj top
unfolding top
Keeps-top =
    Keeps-bind IsFrame IsObj get_cur_frame _ Keeps-get_cur_frame
      λ f hf. top_of f.data_stack hf.objects

pop_of :
    (f : StackFrame) (vs : List Value)
    → IsFrame f
    → All IsObj vs
    → Keeps {A = Unit {0}} IsAny (elim vs [
      | [] ↦ fail runtime_error
      | _ ∷ rest ↦ set_cur_frame (record f { data_stack = rest })
    ])
pop_of f [] hf k s h = h
pop_of f (v ∷ vs) hf k s h =
    Keeps-set_cur_frame (record f { data_stack = vs })
      (record { objects = k.1; variables = hf.variables }) s h

pub Keeps-pop : Keeps IsAny pop
unfolding pop
Keeps-pop =
    Keeps-bind IsFrame IsAny get_cur_frame _ Keeps-get_cur_frame
      λ f hf. pop_of f f.data_stack hf hf.objects

-- The clone of an object is an object.
IsClone : Answer (Value × Store) → Type 0
IsClone (value (w, st)) = IsObj w
IsClone (fault e) = Unit

tuple_of :
    (r : Answer (Values × Store))
    → IsClone (elim r [ value (ws, st') ↦ value (tuple ws, st') | fault e ↦ fault e ])
unfolding IsClone
tuple_of (value (ws, st')) = λ p. cc
tuple_of (fault e) = tt

clone-IsObj : (v : Value) (st : Store) → IsClone (clone v st)
unfolding clone IsClone
clone-IsObj null st = tt
clone-IsObj none_obj st = λ p. cc
clone-IsObj (integer n) st = λ p. cc
clone-IsObj (float x) st = λ p. cc
clone-IsObj (string x) st = λ p. cc
clone-IsObj (tuple vs) st = tuple_of (clone_all vs st)
clone-IsObj (class_at a) st = λ p. cc

clone_value_of :
    (s : State) (r : Answer (Value × Store))
    → IsState s
    → IsClone r
    → After IsObj (elim r [ value (w, st) ↦ ret w (record s { store = st }) | fault e ↦ throw e s ])
unfolding IsClone
clone_value_of s (value (w, st)) h k = (h, k)
clone_value_of s (fault e) h k = h

pub Keeps-clone_value : (v : Value) → Keeps IsObj (clone_value v)
unfolding clone_value
Keeps-clone_value v s h = clone_value_of s (clone v s.store) h (clone-IsObj v s.store)

pub Keeps-pop_get_tos : Keeps IsObj pop_get_tos
unfolding pop_get_tos
Keeps-pop_get_tos = Keeps-bind IsObj IsObj top _ Keeps-top λ v hv.
    Keeps-bind IsObj IsObj (clone_value v) _ (Keeps-clone_value v)
      λ w hw. Keeps-bind IsAny IsObj pop _ Keeps-pop λ _ _ s h. (h, hw)

pub Keeps-get_const : (idx : ℕ) → Keeps IsAny (get_const idx)
unfolding get_const
Keeps-get_const idx =
    Keeps-bind IsFrame IsAny get_cur_frame _ Keeps-get_cur_frame
      λ f hf. Keeps-at (nth idx f.meta.cst_pool)

pub Keeps-get_name : (idx : ℕ) → Keeps IsAny (get_name idx)
unfolding get_name
Keeps-get_name idx =
    Keeps-bind IsFrame IsAny get_cur_frame _ Keeps-get_cur_frame
      λ f hf. Keeps-at (nth idx f.meta.names)

pub Keeps-get_var : (name : Name) → Keeps IsAny (get_var name)
unfolding get_var
Keeps-get_var name =
    Keeps-bind IsFrame IsAny get_cur_frame _ Keeps-get_cur_frame
      λ f hf. Keeps-at (lookup name f.vars)

pub Keeps-set_var : (name : Name) (v : Value) → Keeps IsAny (set_var name v)
unfolding set_var
Keeps-set_var name v = Keeps-bind IsFrame IsAny get_cur_frame _ Keeps-get_cur_frame λ f hf.
    Keeps-bind IsAny IsAny (at (lookup name f.vars)) _ (Keeps-at (lookup name f.vars)) λ _ _.
      Keeps-set_cur_frame (record f { vars = insert_or_assign name v f.vars })
        (record {
          objects = hf.objects;
          variables = All-IsVar f.meta.names name v f.vars hf.variables;
        })

pub Keeps-set_ret : (addr : ℕ) → Keeps IsAny (set_ret addr)
unfolding set_ret
Keeps-set_ret addr = Keeps-bind IsFrame IsAny get_cur_frame _ Keeps-get_cur_frame λ f hf.
    Keeps-set_cur_frame (record f { ret_addr = addr })
      (record { objects = hf.objects; variables = hf.variables })

pub Keeps-fill_args : (names : List Name) (vs : List Value) → Keeps IsAny (fill_args names vs)
unfolding fill_args
Keeps-fill_args [] vs s h = (h, tt)
Keeps-fill_args (name ∷ names) [] s h = (h, tt)
Keeps-fill_args (name ∷ names) (v ∷ vs) s h =
    After-bind IsAny IsAny (λ (_ : Unit {0}). fill_args names vs) (set_var name v s)
      (Keeps-set_var name v s h) (λ _ _ t k. Keeps-fill_args names vs t k)

pub new_frame-IsFrame : (m : FuncMeta) → IsFrame (new_frame m)
unfolding new_frame
new_frame-IsFrame m = record { objects = tt; variables = empty_vars-IsVar m.names [] }

pub Keeps-push_frame : (m : FuncMeta) → Keeps IsAny (push_frame m)
unfolding push_frame
Keeps-push_frame m s h = ((new_frame-IsFrame m, h), tt)

pub Keeps-set_next_pc : (addr : ℕ) → Keeps IsAny (set_next_pc addr)
Keeps-set_next_pc addr s h = (h, tt)

pub Keeps-get_func : (name : Name) → Keeps IsAny (get_func name)
unfolding get_func
Keeps-get_func name s h = Keeps-at (lookup name s.file.funcs) s h
