-- ===== src/Leech/Images/Copies.antt =====
-- leechVM-master/src/leechfile/leechfile.cc: what the copies of functions keep and lose.
use best_practices.Base.{ℕ, zero, suc, ◌≡◌, refl, false, List, [], ◌∷◌, ◌++◌, none, arith}
use best_practices.Base.Lists.{All}
use best_practices.Leech.Values.{
  Name, Value, Values, null, none_obj, integer, float, string, tuple, class_at, nil, cons, Store,
  value, clone, clone_all,
}
use best_practices.Leech.Objects.{same_name, lookup, insert_or_assign}
use best_practices.Leech.Machine.{FuncMeta}
use best_practices.Leech.File.Objects.{IsStorable, AreStorable}
use best_practices.Leech.Images.{
  clone_constant, clone_pool, copy_func, assign_func, default_func, assign_entry, copy_funcs,
}

clone-tuple :
    (vs : Values) (st : Store)
    → clone_all vs st ≡ value (vs, st)
    → clone (tuple vs) st ≡ value (tuple vs, st)
unfolding clone
clone-tuple vs st p = ground (arith, p)

clone_all-cons :
    (v : Value) (vs : Values) (st : Store)
    → clone v st ≡ value (v, st)
    → clone_all vs st ≡ value (vs, st)
    → clone_all (cons v vs) st ≡ value (cons v vs, st)
unfolding clone
clone_all-cons v vs st p q = ground (arith, p, q)

-- A constant of a file has no class in it, and its clone is its equal.
mutual
  unfolding clone

  clone-IsStorable : (v : Value) (d : ℕ) (st : Store) → IsStorable v d → clone v st ≡ value (v, st)
  clone-IsStorable null d st h = absurd h
  clone-IsStorable none_obj d st h = absurd h
  clone-IsStorable (integer n) d st h = refl
  clone-IsStorable (float x) d st h = refl
  clone-IsStorable (string s) d st h = refl
  clone-IsStorable (tuple vs) zero st h = absurd h
  clone-IsStorable (tuple vs) (suc d) st h = clone-tuple vs st (clone_all-AreStorable vs d st h.1)
  clone-IsStorable (class_at a) d st h = absurd h

  clone_all-AreStorable :
      (vs : Values) (d : ℕ) (st : Store) → AreStorable vs d → clone_all vs st ≡ value (vs, st)
  clone_all-AreStorable nil d st h = refl
  clone_all-AreStorable (cons v vs) d st h =
      clone_all-cons v vs st (clone-IsStorable v d st h.0) (clone_all-AreStorable vs d st h.1)

clone_constant-IsStorable : (v : Value) (d : ℕ) → IsStorable v d → clone_constant v ≡ value v
unfolding clone_constant
clone_constant-IsStorable v d h = rw (clone_constant, clone-IsStorable v d _ h) refl

pub clone_pool-All :
    (d : ℕ) (pool : List Value) → All (λ v. IsStorable v d) pool → clone_pool pool ≡ value pool
unfolding clone_pool
clone_pool-All d [] h = refl
clone_pool-All d (v ∷ vs) h =
    rw (clone_pool, clone_constant-IsStorable v d h.0, clone_pool-All d vs h.1) refl

-- A function without the number of its arguments.
abbrev pub forget_arg_num : FuncMeta → FuncMeta
forget_arg_num fm = record fm { arg_num = 0 }

abbrev pub forget_arg_nums : List (Name × FuncMeta) → List (Name × FuncMeta)
forget_arg_nums [] = []
forget_arg_nums ((name, fm) ∷ rest) = (name, forget_arg_num fm) ∷ forget_arg_nums rest

module _ (d : ℕ) (fm : FuncMeta) (h : All (λ v. IsStorable v d) fm.cst_pool) where
  pub copy_func_lem : copy_func fm ≡ value (forget_arg_num fm)
  unfolding copy_func
  copy_func_lem = rw (copy_func, clone_pool-All d fm.cst_pool h) refl

  pub assign_func-default : assign_func default_func fm ≡ value (forget_arg_num fm)
  unfolding assign_func
  assign_func-default = rw (assign_func, clone_pool-All d fm.cst_pool h) refl

-- The constants of every function are those of a file.
abbrev pub HaveStorable : ℕ → List (Name × FuncMeta) → Type 0
HaveStorable d [] = Unit
HaveStorable d ((name, fm) ∷ rest) = All (λ v. IsStorable v d) fm.cst_pool × HaveStorable d rest

pub copy_funcs-forget_arg_nums :
    (d : ℕ) (funcs : List (Name × FuncMeta))
    → HaveStorable d funcs
    → copy_funcs (forget_arg_nums funcs) ≡ value (forget_arg_nums funcs)
unfolding copy_funcs
copy_funcs-forget_arg_nums d [] h = refl
copy_funcs-forget_arg_nums d ((name, fm) ∷ rest) h =
    rw (copy_funcs, copy_func_lem d (forget_arg_num fm) h.0, copy_funcs-forget_arg_nums d rest h.1)
      refl

pub insert_or_assign-none {ℓ} :
    {A : Type ℓ} (name : Name) (v : A) (m : List (Name × A))
    → lookup name m ≡ none
    → insert_or_assign name v m ≡ m ++ (name, v) ∷ []
unfolding lookup insert_or_assign
insert_or_assign-none name v [] h = refl
insert_or_assign-none name v ((key, w) ∷ rest) h = ground (arith, insert_or_assign-none name v rest)

pub lookup-append_none {ℓ} :
    {A : Type ℓ} (name key : Name) (v : A) (m : List (Name × A))
    → lookup name m ≡ none
    → same_name name key ≡ false
    → lookup name (m ++ (key, v) ∷ []) ≡ none
unfolding lookup
lookup-append_none name key v [] h p = rw p refl
lookup-append_none name key v ((other, w) ∷ rest) h p =
    ground (arith, lookup-append_none name key v rest)

-- A function of a new name comes last.
pub assign_entry-none :
    (d : ℕ) (name : Name) (fm : FuncMeta) (funcs : List (Name × FuncMeta))
    → All (λ v. IsStorable v d) fm.cst_pool
    → lookup name funcs ≡ none
    → assign_entry name fm funcs ≡ value (funcs ++ (name, forget_arg_num fm) ∷ [])
unfolding assign_entry
assign_entry-none d name fm funcs h new = ground (
  arith,
  new,
  clone_pool-All d fm.cst_pool h,
  insert_or_assign-none name (forget_arg_num fm) funcs new,
)
