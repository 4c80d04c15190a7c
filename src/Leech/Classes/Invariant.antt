-- ===== src/Leech/Classes/Invariant.antt =====
-- leechVM-master/src/executor/callbacks.cc: the callbacks for classes keep the frames as they have to
-- be.
use best_practices.Base.{ℕ, []}
use best_practices.Leech.Values.{
  Value, null, none_obj, integer, float, string, tuple, class_at, ClassObj, new_class,
}
use best_practices.Leech.Objects.{update_field, get_field, register_method, check_method}
use best_practices.Leech.Machine.{
  answer, top, push, pop_get_tos, get_name, get_var, get_func, set_next_pc, push_frame, clone_value,
}
use best_practices.Leech.Machine.Invariant.{
  IsObj, IsAny, Keeps, Keeps-answer, Keeps-push, Keeps-top, Keeps-pop_get_tos, Keeps-get_name,
  Keeps-get_var, Keeps-set_var, Keeps-fill_args, Keeps-push_frame, Keeps-set_next_pc,
  Keeps-get_func, Keeps-clone_value,
}
use best_practices.Leech.Callbacks.{pop_args, return_here}
use best_practices.Leech.Callbacks.Invariant.{Keeps-then, Keeps-pop_args, Keeps-return_here}
use best_practices.Leech.Classes.{
  safe_convert_to_class, read_class, change_class, load_build_class, store_build_class, store_attr,
  load_attr, instance_class, register_method_of, call_method,
}

Keeps-safe_convert_to_class : (v : Value) → Keeps IsAny (safe_convert_to_class v)
unfolding safe_convert_to_class
Keeps-safe_convert_to_class (class_at a) s h = (h, tt)
Keeps-safe_convert_to_class null s h = h
Keeps-safe_convert_to_class none_obj s h = h
Keeps-safe_convert_to_class (integer n) s h = h
Keeps-safe_convert_to_class (float x) s h = h
Keeps-safe_convert_to_class (string x) s h = h
Keeps-safe_convert_to_class (tuple vs) s h = h

Keeps-read_class : (a : ℕ) → Keeps IsAny (read_class a)
unfolding read_class
Keeps-read_class a s h = (h, tt)

Keeps-change_class : (a : ℕ) (c : ClassObj) → Keeps IsAny (change_class a c)
unfolding change_class
Keeps-change_class a c s h = (h, tt)

pub Keeps-load_build_class : Keeps IsAny load_build_class
unfolding load_build_class
Keeps-load_build_class s h =
    let made = new_class (record { fields = []; methods = [] }) s.store in
    Keeps-push (class_at made.0) (record s { store = made.1 }) h

pub Keeps-store_build_class : (arg : ℕ) → Keeps IsAny (store_build_class arg)
unfolding store_build_class
Keeps-store_build_class arg = Keeps-then IsAny (get_name arg) _ (Keeps-get_name arg) λ name.
    Keeps-then IsObj pop_get_tos _ Keeps-pop_get_tos λ obj.
      Keeps-then IsAny (safe_convert_to_class obj) _ (Keeps-safe_convert_to_class obj)
        λ a. Keeps-set_var name (class_at a)

pub Keeps-store_attr : (arg : ℕ) → Keeps IsAny (store_attr arg)
unfolding store_attr
Keeps-store_attr arg = Keeps-then IsAny (get_name arg) _ (Keeps-get_name arg) λ name.
    Keeps-then IsObj pop_get_tos _ Keeps-pop_get_tos λ attr. Keeps-then IsObj top _ Keeps-top λ obj.
      Keeps-then IsAny (safe_convert_to_class obj) _ (Keeps-safe_convert_to_class obj) λ a.
        Keeps-then IsAny (read_class a) (λ c. change_class a (update_field name attr c))
          (Keeps-read_class a) (λ c. Keeps-change_class a (update_field name attr c))

pub Keeps-load_attr : (arg : ℕ) → Keeps IsAny (load_attr arg)
unfolding load_attr
Keeps-load_attr arg = Keeps-then IsAny (get_name arg) _ (Keeps-get_name arg) λ name.
    Keeps-then IsObj top _ Keeps-top λ obj.
      Keeps-then IsAny (safe_convert_to_class obj) _ (Keeps-safe_convert_to_class obj) λ a.
        Keeps-then IsAny (read_class a) _ (Keeps-read_class a) λ c.
          Keeps-then IsAny (answer (get_field name c)) _ (Keeps-answer (get_field name c))
            Keeps-push

pub Keeps-instance_class : (arg : ℕ) → Keeps IsAny (instance_class arg)
unfolding instance_class
Keeps-instance_class arg = Keeps-then IsAny (get_name arg) _ (Keeps-get_name arg) λ name.
    Keeps-then IsAny (get_var name) _ (Keeps-get_var name) λ obj.
      Keeps-then IsAny (safe_convert_to_class obj) _ (Keeps-safe_convert_to_class obj) λ a.
        Keeps-then IsObj (clone_value (class_at a)) _ (Keeps-clone_value (class_at a)) Keeps-push

pub Keeps-register_method_of : (arg : ℕ) → Keeps IsAny (register_method_of arg)
unfolding register_method_of
Keeps-register_method_of arg = Keeps-then IsAny (get_name arg) _ (Keeps-get_name arg) λ name.
    Keeps-then IsObj top _ Keeps-top λ obj.
      Keeps-then IsAny (safe_convert_to_class obj) _ (Keeps-safe_convert_to_class obj) λ a.
        Keeps-then IsAny (read_class a) _ (Keeps-read_class a) λ c.
          Keeps-then IsAny (answer (register_method name c)) (λ c'. change_class a c')
            (Keeps-answer (register_method name c)) (λ c'. Keeps-change_class a c')

pub Keeps-call_method : (arg : ℕ) → Keeps IsAny (call_method arg)
unfolding call_method
Keeps-call_method arg = Keeps-then IsAny (get_name arg) _ (Keeps-get_name arg) λ name.
    Keeps-then IsAny (get_func name) _ (Keeps-get_func name) λ meta.
      Keeps-then IsAny (set_next_pc meta.addr) _ (Keeps-set_next_pc meta.addr) λ _.
        Keeps-then IsAny (pop_args meta.arg_num) _ (Keeps-pop_args meta.arg_num) λ args.
          Keeps-then IsObj top _ Keeps-top λ obj.
            Keeps-then IsAny (safe_convert_to_class obj) _ (Keeps-safe_convert_to_class obj) λ a.
              Keeps-then IsAny (read_class a) _ (Keeps-read_class a) λ c.
                Keeps-then IsAny (answer (check_method name c)) _
                  (Keeps-answer (check_method name c))
                  λ _. Keeps-then IsAny return_here _ Keeps-return_here λ _.
                    Keeps-then IsAny (push_frame meta) _ (Keeps-push_frame meta) λ _.
                      Keeps-then IsAny (push (class_at a)) _ (Keeps-push (class_at a))
                        λ _. Keeps-fill_args meta.names args
