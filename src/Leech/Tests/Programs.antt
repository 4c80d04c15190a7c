-- ===== src/Leech/Tests/Programs.antt =====
-- leechVM-master/test/frontend: programs of the repository, run on the model. The constants that make
-- fib.leech and fib_rec.leech run long are smaller here.
use best_practices.Base.{ℕ, ◌≡◌, refl, List, [], ◌∷◌, Option, none, some}
use best_practices.Leech.Opcodes.{Opcode}
use best_practices.Leech.Values.{
  Name, Value, integer, string, tuple, class_at, nil, cons, FloatOps, value, fault, Error,
  runtime_error,
}
use best_practices.Leech.Machine.{FuncMeta, Instruction, LeechFile, Step, ret, throw}
use best_practices.Leech.Executor.{main_func_name, initial, run_loop}
use best_practices.Leech.Images.Copies.{forget_arg_nums}

-- The programs compute with no `double`.
abbrev pub no_floats : FloatOps
no_floats = record {
  float_add = λ a b. 0;
  float_sub = λ a b. 0;
  float_div = λ a b. 0;
  of_integer = λ a. 0;
}

abbrev pub inst : Opcode → ℕ → Instruction
inst op arg = record { opcode = op; arg = arg }

abbrev a_name : Name
a_name = 97 ∷ []

abbrev a_arg_name : Name
a_arg_name = 97 ∷ 95 ∷ 97 ∷ 114 ∷ 103 ∷ []

abbrev b_name : Name
b_name = 98 ∷ []

abbrev bar_name : Name
bar_name = 98 ∷ 97 ∷ 114 ∷ []

abbrev baz_name : Name
baz_name = 98 ∷ 97 ∷ 122 ∷ []

abbrev fib_name : Name
fib_name = 102 ∷ 105 ∷ 98 ∷ []

abbrev first_name : Name
first_name = 102 ∷ 105 ∷ 114 ∷ 115 ∷ 116 ∷ []

abbrev foo_name : Name
foo_name = 102 ∷ 111 ∷ 111 ∷ []

abbrev i_name : Name
i_name = 105 ∷ []

abbrev n_name : Name
n_name = 110 ∷ []

abbrev second_name : Name
second_name = 115 ∷ 101 ∷ 99 ∷ 111 ∷ 110 ∷ 100 ∷ []

abbrev tmp_name : Name
tmp_name = 116 ∷ 109 ∷ 112 ∷ []

abbrev x_name : Name
x_name = 120 ∷ []

abbrev y_name : Name
y_name = 121 ∷ []

abbrev fib_code : List Instruction
fib_code =
    inst Opcode.load_const 1
    ∷ inst Opcode.store_fast 1
    ∷ inst Opcode.load_const 1
    ∷ inst Opcode.store_fast 2
    ∷ inst Opcode.load_const 2
    ∷ inst Opcode.store_fast 3
    ∷ inst Opcode.load_fast 3
    ∷ inst Opcode.load_fast 0
    ∷ inst Opcode.compare_op 0
    ∷ inst Opcode.pop_jump_if_false 26
    ∷ inst Opcode.load_fast 2
    ∷ inst Opcode.store_fast 4
    ∷ inst Opcode.load_fast 1
    ∷ inst Opcode.load_fast 2
    ∷ inst Opcode.binary_add 0
    ∷ inst Opcode.store_fast 2
    ∷ inst Opcode.load_fast 4
    ∷ inst Opcode.store_fast 1
    ∷ inst Opcode.load_fast 3
    ∷ inst Opcode.load_const 1
    ∷ inst Opcode.binary_add 0
    ∷ inst Opcode.store_fast 3
    ∷ inst Opcode.load_fast 3
    ∷ inst Opcode.load_fast 0
    ∷ inst Opcode.compare_op 0
    ∷ inst Opcode.pop_jump_if_true 10
    ∷ inst Opcode.load_fast 2
    ∷ inst Opcode.print 0
    ∷ inst Opcode.load_const 0
    ∷ inst Opcode.return_value 0
    ∷ inst Opcode.load_const 1
    ∷ inst Opcode.call_function 0
    ∷ inst Opcode.return_value 0
    ∷ []

abbrev fib_fib : FuncMeta
fib_fib = record {
  addr = 0;
  arg_num = 1;
  cst_pool = integer 0 ∷ integer 1 ∷ integer 2 ∷ [];
  names = n_name ∷ first_name ∷ second_name ∷ i_name ∷ tmp_name ∷ [];
}

abbrev fib_main : FuncMeta
fib_main = record {
  addr = 30;
  arg_num = 0;
  cst_pool = integer 0 ∷ integer 10 ∷ [];
  names = fib_name ∷ [];
}

abbrev fib : LeechFile
fib = record { funcs = (fib_name, fib_fib) ∷ (main_func_name, fib_main) ∷ []; code = fib_code }

abbrev fib_rec_code : List Instruction
fib_rec_code =
    inst Opcode.load_fast 0
    ∷ inst Opcode.load_const 1
    ∷ inst Opcode.compare_op 1
    ∷ inst Opcode.pop_jump_if_false 6
    ∷ inst Opcode.load_const 1
    ∷ inst Opcode.return_value 0
    ∷ inst Opcode.load_fast 0
    ∷ inst Opcode.load_const 1
    ∷ inst Opcode.binary_subtract 0
    ∷ inst Opcode.call_function 1
    ∷ inst Opcode.store_fast 2
    ∷ inst Opcode.load_fast 0
    ∷ inst Opcode.load_const 2
    ∷ inst Opcode.binary_subtract 0
    ∷ inst Opcode.call_function 1
    ∷ inst Opcode.load_fast 2
    ∷ inst Opcode.binary_add 0
    ∷ inst Opcode.return_value 0
    ∷ inst Opcode.load_const 1
    ∷ inst Opcode.call_function 0
    ∷ inst Opcode.print 0
    ∷ inst Opcode.load_const 0
    ∷ inst Opcode.return_value 0
    ∷ []

abbrev fib_rec_fib : FuncMeta
fib_rec_fib = record {
  addr = 0;
  arg_num = 1;
  cst_pool = integer 0 ∷ integer 1 ∷ integer 2 ∷ [];
  names = n_name ∷ fib_name ∷ tmp_name ∷ [];
}

abbrev fib_rec_main : FuncMeta
fib_rec_main = record {
  addr = 18;
  arg_num = 0;
  cst_pool = integer 0 ∷ integer 4 ∷ [];
  names = fib_name ∷ [];
}

abbrev fib_rec : LeechFile
fib_rec = record {
  funcs = (fib_name, fib_rec_fib) ∷ (main_func_name, fib_rec_main) ∷ [];
  code = fib_rec_code;
}

abbrev methods_code : List Instruction
methods_code =
    inst Opcode.load_build_class 0
    ∷ inst Opcode.load_const 0
    ∷ inst Opcode.store_attr 1
    ∷ inst Opcode.load_const 2
    ∷ inst Opcode.store_attr 2
    ∷ inst Opcode.register_method 3
    ∷ inst Opcode.load_attr 1
    ∷ inst Opcode.pop_top 0
    ∷ inst Opcode.load_attr 2
    ∷ inst Opcode.pop_top 0
    ∷ inst Opcode.store_build_class 0
    ∷ inst Opcode.instance_class 0
    ∷ inst Opcode.store_fast 4
    ∷ inst Opcode.load_const 1
    ∷ inst Opcode.call_method 3
    ∷ inst Opcode.load_fast 4
    ∷ inst Opcode.load_const 3
    ∷ inst Opcode.store_attr 4
    ∷ inst Opcode.print 0
    ∷ inst Opcode.load_const 0
    ∷ inst Opcode.return_value 0
    ∷ inst Opcode.load_fast 0
    ∷ inst Opcode.store_attr 1
    ∷ inst Opcode.load_const 0
    ∷ inst Opcode.return_value 0
    ∷ []

abbrev methods_main : FuncMeta
methods_main = record {
  addr = 0;
  arg_num = 0;
  cst_pool =
      integer 0
      ∷ integer 1
      ∷ tuple (
          cons (integer 5)
            (cons (integer 4) (cons (integer 3) (cons (integer 2) (cons (integer 1) nil)))))
      ∷ string x_name
      ∷ string y_name
      ∷ [];
  names = foo_name ∷ a_name ∷ b_name ∷ bar_name ∷ x_name ∷ y_name ∷ baz_name ∷ [];
}

abbrev methods_bar : FuncMeta
methods_bar = record {
  addr = 21;
  arg_num = 1;
  cst_pool = integer 0 ∷ [];
  names = a_arg_name ∷ a_name ∷ [];
}

abbrev methods : LeechFile
methods = record {
  funcs = (main_func_name, methods_main) ∷ (bar_name, methods_bar) ∷ [];
  code = methods_code;
}

-- What a program has printed when it ends within some instructions, or what it throws.
data Result : Type 0 where
  prints : List Value → Result
  throws : Error → Result
  runs_on : Result

abbrev result_of : Option (Step (Unit {0})) → Result
result_of none = runs_on
result_of (some (ret _ s)) = prints s.printed
result_of (some (throw e s)) = throws e

abbrev run : ℕ → LeechFile → Result
unfolding initial run_loop
run fuel file = elim (initial file) [
  | value s ↦ result_of (run_loop fuel no_floats s)
  | fault e ↦ throws e
]

fib_prints : run 200 fib ≡ prints (integer 55 ∷ [])
unfolding run
fib_prints = refl

fib_rec_prints : run 200 fib_rec ≡ prints (integer 5 ∷ [])
unfolding run
fib_rec_prints = refl

methods_prints : run 50 methods ≡ prints (class_at 3 ∷ [])
unfolding run
methods_prints = refl

-- The same program after its file has been written and read: the method takes no argument.
methods_reread :
    run 50 (record methods { funcs = forget_arg_nums methods.funcs }) ≡ throws runtime_error
unfolding run
methods_reread = refl
