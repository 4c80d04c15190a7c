-- ===== src/Translator/Optimizer/Nested.antt =====
-- What src/optimizer.cpp of BinaryTranslator-main makes of an operation whose operand is an operation.
use best_practices.Base.{ℕ, suc, ◌≡◌, ◌≢◌, refl, ap, Option, none, some, List, [], ◌∷◌, arith}
use best_practices.Base.Lists.{length}
use best_practices.Translator.Commands.{CommandName, push, Command, new_command, imm, x86_size_of}
use best_practices.Translator.Doubles.{Doubles}
use best_practices.Translator.Parser.{is_push, is_pop}
use best_practices.Translator.Parser.Encoding
use best_practices.Translator.Parser.Encoding.{Native, SimpleName, simple, operand, described}
use best_practices.Translator.Parser.Programs.{describe_all}
use best_practices.Translator.Optimizer.{
  Commands, is_arithmetic, apply, result_value, folded, handle_constant_calculation,
  handle_imm_storage, attempt_storage, attempt_arithmetic, optimize_from, optimize_cmd_flow,
}
use best_practices.Translator.Optimizer.Meaning.{Machine, execute_kind, execute, run}

abbrev pub push_imm : ℕ → Command
push_imm v = record new_command {
  name = push;
  native_size = 10;
  x86_size = 11;
  value = v;
  checksum = imm;
}

abbrev pub plain : CommandName → Command
plain n = record new_command { name = n; native_size = 1 }

-- The four operations, as commands of a program and on doubles
pub data Operation : Type 0 where
  add sub mul div : Operation

abbrev pub simple_of : Operation → SimpleName
simple_of add = Encoding.add
simple_of sub = Encoding.sub
simple_of mul = Encoding.mul
simple_of div = Encoding.div

abbrev pub operate : Doubles → Operation → ℕ → ℕ → ℕ
operate D add a b = D.plus a b
operate D sub a b = D.minus a b
operate D mul a b = D.times a b
operate D div a b = D.over a b

-- A program that pushes three numbers, applies one operation to the upper two, and another to the
-- result and the first number, and then ends
abbrev pub nested : Operation → Operation → ℕ → ℕ → ℕ → List Native
nested inner outer a b c =
    operand Encoding.push Encoding.imm a 0
    ∷ operand Encoding.push Encoding.imm b 0
    ∷ operand Encoding.push Encoding.imm c 0
    ∷ simple (simple_of inner)
    ∷ simple (simple_of outer)
    ∷ simple Encoding.hlt
    ∷ []

-- The commands other than those that the optimizer handles do nothing to the stack.
abbrev pub idle : Command → Machine → Option Machine
idle c m = some m

-- The numbers on the stack of a machine, or 0 for none
abbrev depth_of : Option Machine → ℕ
depth_of o = elim o [ none ↦ 0 | some m ↦ length m.stack ]

-- What a program of this form leaves on the stack, and what its optimized form leaves there: the number
-- c is used a second time although it was skipped, and a is left over.
abbrev pub intended : Doubles → Operation → Operation → ℕ → ℕ → ℕ → ℕ
intended D inner outer a b c = operate D outer (operate D inner c b) a

abbrev pub miscompiled : Doubles → Operation → Operation → ℕ → ℕ → ℕ
miscompiled D inner outer b c =
    D.of_int (D.to_int (operate D outer (D.of_int (D.to_int (operate D inner c b))) c))

-- Two values more than before are not one value more.
stacks_differ :
    (x y a : ℕ) (m : Machine)
    → ◌≢◌ {A = Option Machine}
        (some (record m { stack = x ∷ a ∷ m.stack }))
        (some (record m { stack = y ∷ m.stack }))
stacks_differ x y a m e =
    let same : suc (suc (length m.stack)) ≡ suc (length m.stack) = ap depth_of e in
    absurd (omega (arith, same))

-- For every two operations and three numbers, the parsed commands of a program that pushes a, b and c,
-- applies the one operation to c and b and the other to the result and a, and halts, leave that result
-- on the stack; the optimizer returns commands that leave there a and, above it, the other operation
-- on the first result and c, both results cut to an `int`. The two never have the same outcome: c is
-- used a second time although it was skipped, and a is left over.
pub run-optimize_cmd_flow-nested :
    (D : Doubles) (inner outer : Operation) (a b c : ℕ) (m : Machine)
    → (cs : Commands) × (optimize_cmd_flow D (describe_all (nested inner outer a b c)) ≡ some cs)
      × (run D idle (describe_all (nested inner outer a b c)) m
          ≡ some (record m { stack = intended D inner outer a b c ∷ m.stack }))
      × (run D idle cs m ≡ some (record m { stack = miscompiled D inner outer b c ∷ a ∷ m.stack }))
      × (run D idle cs m ≢ run D idle (describe_all (nested inner outer a b c)) m)
unfolding optimize_cmd_flow optimize_from attempt_storage attempt_arithmetic is_arithmetic
    handle_constant_calculation handle_imm_storage folded result_value apply is_push is_pop run
    execute execute_kind describe_all described x86_size_of
run-optimize_cmd_flow-nested D add add a b c m =
    (_, refl, refl, refl, stacks_differ (miscompiled D add add b c) (intended D add add a b c) a m)
run-optimize_cmd_flow-nested D add sub a b c m =
    (_, refl, refl, refl, stacks_differ (miscompiled D add sub b c) (intended D add sub a b c) a m)
run-optimize_cmd_flow-nested D add mul a b c m =
    (_, refl, refl, refl, stacks_differ (miscompiled D add mul b c) (intended D add mul a b c) a m)
run-optimize_cmd_flow-nested D add div a b c m =
    (_, refl, refl, refl, stacks_differ (miscompiled D add div b c) (intended D add div a b c) a m)
run-optimize_cmd_flow-nested D sub add a b c m =
    (_, refl, refl, refl, stacks_differ (miscompiled D sub add b c) (intended D sub add a b c) a m)
run-optimize_cmd_flow-nested D sub sub a b c m =
    (_, refl, refl, refl, stacks_differ (miscompiled D sub sub b c) (intended D sub sub a b c) a m)
run-optimize_cmd_flow-nested D sub mul a b c m =
    (_, refl, refl, refl, stacks_differ (miscompiled D sub mul b c) (intended D sub mul a b c) a m)
run-optimize_cmd_flow-nested D sub div a b c m =
    (_, refl, refl, refl, stacks_differ (miscompiled D sub div b c) (intended D sub div a b c) a m)
run-optimize_cmd_flow-nested D mul add a b c m =
    (_, refl, refl, refl, stacks_differ (miscompiled D mul add b c) (intended D mul add a b c) a m)
run-optimize_cmd_flow-nested D mul sub a b c m =
    (_, refl, refl, refl, stacks_differ (miscompiled D mul sub b c) (intended D mul sub a b c) a m)
run-optimize_cmd_flow-nested D mul mul a b c m =
    (_, refl, refl, refl, stacks_differ (miscompiled D mul mul b c) (intended D mul mul a b c) a m)
run-optimize_cmd_flow-nested D mul div a b c m =
    (_, refl, refl, refl, stacks_differ (miscompiled D mul div b c) (intended D mul div a b c) a m)
run-optimize_cmd_flow-nested D div add a b c m =
    (_, refl, refl, refl, stacks_differ (miscompiled D div add b c) (intended D div add a b c) a m)
run-optimize_cmd_flow-nested D div sub a b c m =
    (_, refl, refl, refl, stacks_differ (miscompiled D div sub b c) (intended D div sub a b c) a m)
run-optimize_cmd_flow-nested D div mul a b c m =
    (_, refl, refl, refl, stacks_differ (miscompiled D div mul b c) (intended D div mul a b c) a m)
run-optimize_cmd_flow-nested D div div a b c m =
    (_, refl, refl, refl, stacks_differ (miscompiled D div div b c) (intended D div div a b c) a m)
