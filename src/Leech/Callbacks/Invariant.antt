-- ===== src/Leech/Callbacks/Invariant.antt =====
-- leechVM-master/src/executor/callbacks.cc: every callback keeps the frames as they have to be.
use best_practices.Base.{
  ℕ, zero, suc, ◌+◌, ◌%◌, ◌^◌, if◌then◌else◌, Bool, true, false, List, [], ◌∷◌,
}
use best_practices.Base.Lists.{All}
use best_practices.Leech.Values.{Value, integer, FloatOps, undefined}
use best_practices.Leech.Objects.{
  compare_values, add_values, sub_values, div_values, subscript_values,
}
use best_practices.Leech.Machine.{
  Vm, State, StackFrame, ret, throw, ◌>>=◌, ◌>>◌, answer, get_cur_frame, push, top, pop_get_tos,
  get_const, get_name, get_var, push_frame, set_next_pc, get_func,
}
use best_practices.Leech.Machine.Invariant.{
  IsObj, IsAny, IsFrame, IsState, After, Keeps, Keeps-bind, Keeps-answer, Keeps-get_cur_frame,
  Keeps-push, Keeps-top, Keeps-pop, Keeps-pop_get_tos, Keeps-get_const, Keeps-get_name,
  Keeps-get_var, Keeps-set_var, Keeps-set_ret, Keeps-fill_args, Keeps-push_frame, Keeps-set_next_pc,
  Keeps-get_func,
}
use best_practices.Leech.Callbacks.{
  pop_top, binary_add, binary_subtract, binary_subscr, binary_true_divide, hand_over, drop_frame,
  return_value, load_const, of_bool, compare_op, is_false, pop_jump_if_false, pop_jump_if_true,
  load_fast, store_fast, pop_args, return_here, size, call_function, print,
}

pub Keeps-pop_top : Keeps IsAny pop_top
unfolding pop_top
Keeps-pop_top = Keeps-pop

-- The next action, after one that has kept the frames.
pub Keeps-then {ℓ κ} :
    {A : Type ℓ} {B : Type κ} (P : A → Type 0) (m : Vm A) (f : A → Vm B)
    → Keeps P m
    → ((a : A) → Keeps IsAny (f a))
    → Keeps IsAny (m >>= f)
Keeps-then P m f hm hf = Keeps-bind P IsAny m f hm (λ a _. hf a)

-- Two operands are popped and a result is pushed.
Keeps-binary :
    (f : Value → Value → Vm Value)
    → ((v w : Value) → Keeps IsAny (f v w))
    → Keeps IsAny (do v ← pop_get_tos; w ← pop_get_tos; result ← f v w; push result)
Keeps-binary f hf = Keeps-then IsObj pop_get_tos _ Keeps-pop_get_tos λ v.
    Keeps-then IsObj pop_get_tos _ Keeps-pop_get_tos
      λ w. Keeps-then IsAny (f v w) _ (hf v w) Keeps-push

module _ (ops : FloatOps) where
  pub Keeps-binary_add : Keeps IsAny (binary_add ops)
  unfolding binary_add
  Keeps-binary_add =
      Keeps-binary (λ v w. answer (add_values ops v w)) (λ v w. Keeps-answer (add_values ops v w))

  pub Keeps-binary_subtract : Keeps IsAny (binary_subtract ops)
  unfolding binary_subtract
  Keeps-binary_subtract =
      Keeps-binary (λ v w. answer (sub_values ops w v)) (λ v w. Keeps-answer (sub_values ops w v))

  pub Keeps-binary_true_divide : Keeps IsAny (binary_true_divide ops)
  unfolding binary_true_divide
  Keeps-binary_true_divide =
      Keeps-binary (λ v w. answer (div_values ops w v)) (λ v w. Keeps-answer (div_values ops w v))

pub Keeps-binary_subscr : Keeps IsAny binary_subscr
unfolding binary_subscr
Keeps-binary_subscr =
    Keeps-binary (λ v w. answer (subscript_values w v)) (λ v w. Keeps-answer (subscript_values w v))

hand_over_of :
    (tos : Value) (s : State) (fs : List StackFrame)
    → IsState s
    → After {A = Unit {0}} IsAny
        (elim fs [ [] ↦ ret tt s | f ∷ _ ↦ (set_next_pc f.ret_addr >> push tos) s ])
hand_over_of tos s [] h = (h, tt)
hand_over_of tos s (f ∷ _) h =
    Keeps-then IsAny (set_next_pc f.ret_addr) (λ _. push tos) (Keeps-set_next_pc f.ret_addr)
      (λ _. Keeps-push tos) s h

drop_frame_of :
    (s : State) (fs : List StackFrame)
    → IsState s
    → All IsFrame fs
    → After {A = Unit {0}} IsAny
        (elim fs [ [] ↦ throw undefined s | _ ∷ rest ↦ ret tt (record s { func_stack = rest }) ])
drop_frame_of s [] h k = h
drop_frame_of s (_ ∷ rest) h k = (k.1, tt)

pub Keeps-return_value : Keeps IsAny return_value
unfolding return_value drop_frame hand_over
Keeps-return_value = Keeps-then IsObj pop_get_tos _ Keeps-pop_get_tos λ tos.
    Keeps-then IsAny drop_frame _ (λ s h. drop_frame_of s s.func_stack h h)
      λ _ s h. hand_over_of tos s s.func_stack h

pub Keeps-load_const : (arg : ℕ) → Keeps IsAny (load_const arg)
unfolding load_const
Keeps-load_const arg = Keeps-then IsAny (get_const arg) _ (Keeps-get_const arg) Keeps-push

pub Keeps-compare_op : (arg : ℕ) → Keeps IsAny (compare_op arg)
unfolding compare_op
Keeps-compare_op arg = Keeps-then IsObj pop_get_tos _ Keeps-pop_get_tos λ v.
    Keeps-then IsObj pop_get_tos _ Keeps-pop_get_tos λ w.
      Keeps-then IsAny (answer (compare_values arg w v)) _ (Keeps-answer (compare_values arg w v))
        λ b. Keeps-push (of_bool b)

Keeps-is_false : Keeps IsAny is_false
unfolding is_false
Keeps-is_false =
    Keeps-then IsObj pop_get_tos _ Keeps-pop_get_tos
      λ tos. Keeps-answer (compare_values 2 tos (integer 0))

jump_if : (b : Bool) (arg : ℕ) → Keeps IsAny (if b then set_next_pc arg else ret tt)
jump_if true arg s h = (h, tt)
jump_if false arg s h = (h, tt)

jump_unless : (b : Bool) (arg : ℕ) → Keeps IsAny (if b then ret tt else set_next_pc arg)
jump_unless true arg s h = (h, tt)
jump_unless false arg s h = (h, tt)

pub Keeps-pop_jump_if_false : (arg : ℕ) → Keeps IsAny (pop_jump_if_false arg)
unfolding pop_jump_if_false
Keeps-pop_jump_if_false arg = Keeps-then IsAny is_false _ Keeps-is_false λ b. jump_if b arg

pub Keeps-pop_jump_if_true : (arg : ℕ) → Keeps IsAny (pop_jump_if_true arg)
unfolding pop_jump_if_true
Keeps-pop_jump_if_true arg = Keeps-then IsAny is_false _ Keeps-is_false λ b. jump_unless b arg

pub Keeps-load_fast : (arg : ℕ) → Keeps IsAny (load_fast arg)
unfolding load_fast
Keeps-load_fast arg =
    Keeps-then IsAny (get_name arg) _ (Keeps-get_name arg)
      λ name. Keeps-then IsAny (get_var name) _ (Keeps-get_var name) Keeps-push

pub Keeps-store_fast : (arg : ℕ) → Keeps IsAny (store_fast arg)
unfolding store_fast
Keeps-store_fast arg =
    Keeps-then IsAny (get_name arg) _ (Keeps-get_name arg)
      λ name. Keeps-then IsObj top _ Keeps-top λ v. Keeps-set_var name v

pub Keeps-pop_args : (n : ℕ) → Keeps IsAny (pop_args n)
unfolding pop_args
Keeps-pop_args zero s h = (h, tt)
Keeps-pop_args (suc n) s h =
    Keeps-then IsObj pop_get_tos (λ v. pop_args n >>= λ vs. ret (v ∷ vs)) Keeps-pop_get_tos
      (λ v.
        Keeps-then IsAny (pop_args n) (λ vs. ret (v ∷ vs)) (λ t k. Keeps-pop_args n t k)
          (λ vs t k. (k, tt)))
      s h

pub Keeps-return_here : Keeps IsAny return_here
unfolding return_here
Keeps-return_here s h = Keeps-set_ret ((s.pc + 1) % 2 ^ 64) s h

pub Keeps-call_function : (arg : ℕ) → Keeps IsAny (call_function arg)
unfolding call_function
Keeps-call_function arg = Keeps-then IsAny (get_name arg) _ (Keeps-get_name arg) λ name.
    Keeps-then IsAny (get_func name) _ (Keeps-get_func name) λ meta.
      Keeps-then IsAny (set_next_pc meta.addr) _ (Keeps-set_next_pc meta.addr) λ _.
        Keeps-then IsFrame get_cur_frame _ Keeps-get_cur_frame λ frame.
          Keeps-then IsAny (pop_args (size frame.data_stack)) _
            (Keeps-pop_args (size frame.data_stack))
            λ args. Keeps-then IsAny return_here _ Keeps-return_here λ _.
              Keeps-then IsAny (push_frame meta) _ (Keeps-push_frame meta)
                λ _. Keeps-fill_args meta.names args

pub Keeps-print : Keeps IsAny print
unfolding print
Keeps-print = Keeps-then IsObj pop_get_tos _ Keeps-pop_get_tos λ v s h. (h, tt)
