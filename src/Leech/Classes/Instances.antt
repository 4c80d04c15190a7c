-- ===== src/Leech/Classes/Instances.antt =====
-- leechVM-master/src/executor/callbacks.cc: an instance of a class does not share the fields that are
-- stored in it afterwards.
use best_practices.Base.{
  ℕ, suc, ◌≡◌, refl, ap, ◌∙◌, ◌<◌, ◌==◌, if◌then◌else◌, List, [], ◌∷◌, some, arith,
}
use best_practices.Leech.Opcodes.{nth}
use best_practices.Leech.Values.{Name, Value, class_at, ClassObj, Store, value, write_class}
use best_practices.Leech.Objects.{lookup, insert_or_assign, update_field, get_field}
use best_practices.Leech.Machine.{StackFrame, State, ret, ◌>>=◌}
use best_practices.Leech.Callbacks.Calls.{IsPlain, with_frames, with_stack, pop_get_tos-IsPlain}
use best_practices.Leech.Machine.Variables.{same_name_self}
use best_practices.Leech.Classes.{instance_class, store_attr}

-- The store with a copy of the class at `a`, and with a field of it set.
abbrev pub copied : ℕ → Store → Store
copied a st = record st {
  classes = λ b. if b == st.allocated then st.classes a else st.classes b;
  allocated = suc st.allocated;
}

instance_class-copied :
    (arg : ℕ) (f : StackFrame) (fs : List StackFrame) (s : State) (name : Name) (a : ℕ)
    → nth arg f.meta.names ≡ some name
    → lookup name f.vars ≡ some (class_at a)
    → instance_class arg (with_frames (f ∷ fs) s)
      ≡ ret tt (record s {
        func_stack = with_stack (class_at s.store.allocated ∷ f.data_stack) f ∷ fs;
        store = copied a s.store;
      })
unfolding instance_class
instance_class-copied arg f fs s name a named bound = rw (◌>>=◌, named, bound) refl

store_attr-plain :
    (arg : ℕ) (f : StackFrame) (fs : List StackFrame) (s : State) (name : Name) (attr : Value)
    (b : ℕ) (rest : List Value)
    → nth arg f.meta.names ≡ some name
    → IsPlain attr
    → store_attr arg (with_frames (with_stack (attr ∷ class_at b ∷ rest) f ∷ fs) s)
      ≡ ret tt (record s {
        func_stack = with_stack (class_at b ∷ rest) f ∷ fs;
        store = write_class b (update_field name attr (s.store.classes b)) s.store;
      })
unfolding store_attr
store_attr-plain arg f fs s name attr b rest named plain =
    rw (◌>>=◌, named, pop_get_tos-IsPlain attr (class_at b ∷ rest) f fs s plain) refl

lookup-insert_or_assign_self :
    {A : Type 0} (name : Name) (v : A) (m : List (Name × A))
    → lookup name (insert_or_assign name v m) ≡ some v
unfolding lookup insert_or_assign
lookup-insert_or_assign_self name v [] = ground (arith, same_name_self name)
lookup-insert_or_assign_self name v ((key, w) ∷ m) =
    ground (arith, lookup-insert_or_assign_self name v m)

get_field-update_field :
    (name : Name) (v : Value) (c : ClassObj) → get_field name (update_field name v c) ≡ value v
unfolding get_field update_field
get_field-update_field name v c = rw (get_field, lookup-insert_or_assign_self name v c.fields) refl

-- The store with an instance of the class at `a`, in which a field has been set.
abbrev pub stored : Name → Value → ℕ → Store → Store
stored field attr a st =
    write_class st.allocated (update_field field attr (st.classes a)) (copied a st)

copied_self : (a : ℕ) (st : Store) → (copied a st).classes st.allocated ≡ st.classes a
copied_self a st = ground arith

store_attr-copied :
    (arg : ℕ) (f : StackFrame) (fs : List StackFrame) (s : State) (field : Name) (a : ℕ)
    (attr : Value)
    → nth arg f.meta.names ≡ some field
    → IsPlain attr
    → store_attr arg (record s {
      func_stack = with_stack (attr ∷ class_at s.store.allocated ∷ f.data_stack) f ∷ fs;
      store = copied a s.store;
    })
      ≡ ret tt (record s {
        func_stack = with_stack (class_at s.store.allocated ∷ f.data_stack) f ∷ fs;
        store = stored field attr a s.store;
      })
store_attr-copied arg f fs s field a attr named plain =
    let later = λ (c : ClassObj). record s {
      func_stack = with_stack (class_at s.store.allocated ∷ f.data_stack) f ∷ fs;
      store = write_class s.store.allocated (update_field field attr c) (copied a s.store);
    } in
    store_attr-plain arg f fs (record s { store = copied a s.store }) field attr s.store.allocated
      f.data_stack named plain
    ∙ ap (λ (c : ClassObj). ret tt (later c)) (copied_self a s.store)

stored-class :
    (field : Name) (attr : Value) (a : ℕ) (st : Store)
    → a < st.allocated
    → (stored field attr a st).classes a ≡ st.classes a
unfolding write_class
stored-class field attr a st h = ground arith

stored-instance :
    (field : Name) (attr : Value) (a : ℕ) (st : Store)
    → (stored field attr a st).classes st.allocated ≡ update_field field attr (st.classes a)
unfolding write_class
stored-instance field attr a st = ground arith

-- INSTANCE_CLASS of a variable that holds a class puts a new object on the stack, and STORE_ATTR then
-- sets a value without classes as a field of the new object, and leaves the class as it was.
pub store_attr-instance_class :
    (arg arg' : ℕ) (f : StackFrame) (fs : List StackFrame) (s : State) (name field : Name) (a : ℕ)
    (attr : Value)
    → a < s.store.allocated
    → nth arg f.meta.names ≡ some name
    → lookup name f.vars ≡ some (class_at a)
    → nth arg' f.meta.names ≡ some field
    → IsPlain attr
    → (instance_class arg (with_frames (f ∷ fs) s)
        ≡ ret tt (record s {
          func_stack = with_stack (class_at s.store.allocated ∷ f.data_stack) f ∷ fs;
          store = copied a s.store;
        }))
      × (store_attr arg' (record s {
        func_stack = with_stack (attr ∷ class_at s.store.allocated ∷ f.data_stack) f ∷ fs;
        store = copied a s.store;
      })
          ≡ ret tt (record s {
            func_stack = with_stack (class_at s.store.allocated ∷ f.data_stack) f ∷ fs;
            store = stored field attr a s.store;
          }))
      × ((stored field attr a s.store).classes a ≡ s.store.classes a)
      × (get_field field ((stored field attr a s.store).classes s.store.allocated) ≡ value attr)
store_attr-instance_class arg arg' f fs s name field a attr old named bound field_named plain = (
  instance_class-copied arg f fs s name a named bound,
  store_attr-copied arg' f fs s field a attr field_named plain,
  stored-class field attr a s.store old,
  rw (stored-instance field attr a s.store) (get_field-update_field field attr (s.store.classes a)),
)
