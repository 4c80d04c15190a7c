-- ===== src/Translator/Optimizer/Folding.antt =====
-- The rewrites of BinaryTranslator-main/src/optimizer.cpp and the meaning of the commands.
use best_practices.Base.{
  ℕ, ◌+◌, ◌≡◌, refl, ap, sym, ◌∙◌, Bool, true, false, ◌==◌, if◌then◌else◌, Option, none, some, List,
  [], ◌∷◌, ◌++◌,
}
use best_practices.Base.Int.{ℤ, pos}
use best_practices.Base.Lists.{length}
use best_practices.Translator.Commands.{
  CommandName, hlt, push, mul, add, sub, div, pop, out, jmp, jg, jge, ja, jae, je, jne, in_cmd,
  call, ret, sqr, Command, mov_reg_num_cmd, imm, reg,
}
use best_practices.Translator.Doubles.{Doubles}
use best_practices.Translator.Optimizer.{
  Commands, apply, result_value, folded, handle_constant_calculation, handle_imm_storage,
}
use best_practices.Translator.Optimizer.Rewrites.{
  operands, handle_constant_calculation-append, move, moved, handle_imm_storage-append,
}
use best_practices.Translator.Optimizer.Meaning.{
  Machine, put_register, pop_to, execute_kind, execute, run,
}

-- The push of a number
abbrev pub IsPushImm : Command → Type 0
IsPushImm c = (c.name ≡ push) × (c.checksum ≡ imm) × (c.is_skip ≡ false)

module _ (D : Doubles) (other : Command → Machine → Option Machine) where
  execute-push :
      (c : Command) (m : Machine)
      → IsPushImm c
      → execute D other c m ≡ some (record m { stack = c.value ∷ m.stack })
  unfolding execute execute_kind
  execute-push c m (name, checksum, kept) =
      ap (λ (skip : Bool). elim skip [ true ↦ some m | false ↦ execute_kind D other c.name c m ])
        kept
      ∙ ap (λ (n : CommandName). execute_kind D other n c m) name
      ∙ ap
          (λ (k : ℕ). if k == imm then some (record m { stack = c.value ∷ m.stack }) else other c m)
          checksum

  execute-skipped :
      (c : Command) (m : Machine) → execute D other (record c { is_skip = true }) m ≡ some m
  unfolding execute
  execute-skipped c m = refl

  -- What follows the same commands computes the same.
  run-append :
      (front xs ys : Commands)
      → ((m : Machine) → run D other xs m ≡ run D other ys m)
      → (m : Machine) → run D other (front ++ xs) m ≡ run D other (front ++ ys) m
  unfolding run
  run-append [] xs ys same m = same m
  run-append (c ∷ front) xs ys same m = after (execute D other c m) (run-append front xs ys same)
    where
      after :
          (o : Option Machine)
          → ((m : Machine) → run D other (front ++ xs) m ≡ run D other (front ++ ys) m)
          → elim o [ none ↦ none | some m' ↦ run D other (front ++ xs) m' ]
            ≡ elim o [ none ↦ none | some m' ↦ run D other (front ++ ys) m' ]
      after none later = refl
      after (some m') later = later m'

  execute_kind-arithmetic :
      (name : CommandName) (c : Command) (a b r : ℕ) (rest : List ℕ) (registers : ℤ → ℕ)
      → apply D name a b ≡ some r
      → execute_kind D other name c (record { stack = a ∷ b ∷ rest; registers = registers })
        ≡ some (record { stack = r ∷ rest; registers = registers })
  unfolding execute_kind apply
  execute_kind-arithmetic hlt c a b r rest registers h = absurd (cc)
  execute_kind-arithmetic push c a b r rest registers h = absurd (cc)
  execute_kind-arithmetic mul c a b r rest registers h = cc
  execute_kind-arithmetic add c a b r rest registers h = cc
  execute_kind-arithmetic sub c a b r rest registers h = cc
  execute_kind-arithmetic div c a b r rest registers h = cc
  execute_kind-arithmetic pop c a b r rest registers h = absurd (cc)
  execute_kind-arithmetic out c a b r rest registers h = absurd (cc)
  execute_kind-arithmetic jmp c a b r rest registers h = absurd (cc)
  execute_kind-arithmetic jg c a b r rest registers h = absurd (cc)
  execute_kind-arithmetic jge c a b r rest registers h = absurd (cc)
  execute_kind-arithmetic ja c a b r rest registers h = absurd (cc)
  execute_kind-arithmetic jae c a b r rest registers h = absurd (cc)
  execute_kind-arithmetic je c a b r rest registers h = absurd (cc)
  execute_kind-arithmetic jne c a b r rest registers h = absurd (cc)
  execute_kind-arithmetic in_cmd c a b r rest registers h = absurd (cc)
  execute_kind-arithmetic call c a b r rest registers h = absurd (cc)
  execute_kind-arithmetic ret c a b r rest registers h = absurd (cc)
  execute_kind-arithmetic sqr c a b r rest registers h = absurd (cc)
  execute_kind-arithmetic mov_reg_num_cmd c a b r rest registers h = absurd (cc)

  run-step :
      (c : Command) (cs : Commands) (m m' : Machine)
      → execute D other c m ≡ some m'
      → run D other (c ∷ cs) m ≡ run D other cs m'
  unfolding run
  run-step c cs m m' e =
      ap (λ (o : Option Machine). elim o [ none ↦ none | some t ↦ run D other cs t ]) e

  execute-kept :
      (c : Command) (m : Machine)
      → c.is_skip ≡ false
      → execute D other c m ≡ execute_kind D other c.name c m
  unfolding execute
  execute-kept c m kept =
      ap (λ (skip : Bool). elim skip [ true ↦ some m | false ↦ execute_kind D other c.name c m ])
        kept

  -- Two pushes that are skipped and the push of the result compute what the operation does.
  operands_meaning :
      (m2 m1 operation : Command) (post : Commands) (r : ℕ) (m : Machine)
      → IsPushImm m2
      → IsPushImm m1
      → operation.is_skip ≡ false
      → apply D operation.name m1.value m2.value ≡ some r
      → D.of_int (D.to_int r) ≡ r
      → run D other
          (record m2 { is_skip = true }
            ∷ record m1 { is_skip = true }
            ∷ folded D operation m1 m2
            ∷ post)
          m
        ≡ run D other (m2 ∷ m1 ∷ operation ∷ post) m
  unfolding folded result_value
  operands_meaning m2 m1 operation post r m p2 p1 kept result whole =
      let s2 : Command = record m2 { is_skip = true } in
      let s1 : Command = record m1 { is_skip = true } in
      let result_push = folded D operation m1 m2 in
      let with2 : Machine = record m { stack = m2.value ∷ m.stack } in
      let with1 : Machine = record m { stack = m1.value ∷ m2.value ∷ m.stack } in
      let with_r : Machine = record m { stack = r ∷ m.stack } in
      let value : result_push.value ≡ r =
        ap (λ (o : Option ℕ). D.of_int (elim o [ none ↦ pos 0 | some t ↦ D.to_int t ])) result
        ∙ whole in
      let pushed : execute D other result_push m ≡ some with_r =
        execute-push result_push m (refl, refl, kept)
        ∙ ap (λ (v : ℕ). some (record m { stack = v ∷ m.stack })) value in
      let computed : execute D other operation with1 ≡ some with_r =
        execute-kept operation with1 kept
        ∙ execute_kind-arithmetic operation.name operation m1.value m2.value r m.stack m.registers
            result in
      run-step s2 (s1 ∷ result_push ∷ post) m m (execute-skipped m2 m)
      ∙ run-step s1 (result_push ∷ post) m m (execute-skipped m1 m)
      ∙ run-step result_push post m with_r pushed
      ∙ sym (
          run-step m2 (m1 ∷ operation ∷ post) m with2 (execute-push m2 m p2)
          ∙ run-step m1 (operation ∷ post) with2 with1 (execute-push m1 with2 p1)
          ∙ run-step operation post with1 with_r computed)

  -- A skipped push and a move compute what the push and the pop to a register do.
  move_meaning :
      (stored storage : Command) (post : Commands) (m : Machine)
      → IsPushImm stored
      → storage.name ≡ pop
      → storage.checksum ≡ reg
      → storage.is_skip ≡ false
      → run D other (record stored { is_skip = true } ∷ moved [] post stored storage ∷ post) m
        ≡ run D other (stored ∷ storage ∷ post) m
  unfolding execute_kind
  move_meaning stored storage post m p n k kept =
      let s : Command = record stored { is_skip = true } in
      let mov = moved [] post stored storage in
      let pushed : Machine = record m { stack = stored.value ∷ m.stack } in
      let end : Machine = record m {
        registers = put_register storage.reg_index stored.value m.registers;
      } in
      let popped : execute D other storage pushed ≡ some end =
        execute-kept storage pushed kept
        ∙ ap (λ (t : CommandName). execute_kind D other t storage pushed) n
        ∙ ap (λ (t : ℕ). if t == reg then pop_to storage.reg_index pushed else other storage pushed)
            k in
      run-step s (mov ∷ post) m m (execute-skipped stored m)
      ∙ run-step mov post m end (execute-kept mov m kept)
      ∙ sym (
          run-step stored (storage ∷ post) m pushed (execute-push stored m p)
          ∙ run-step storage post pushed end popped)

-- Folding two pushed numbers and the arithmetic behind them changes nothing of what the commands
-- compute, where the three are not skipped and the result is an integer that `int` holds.
pub run-handle_constant_calculation :
    (D : Doubles) (other : Command → Machine → Option Machine) (front post : Commands)
    (m2 m1 operation : Command) (r : ℕ)
    → IsPushImm m2
    → IsPushImm m1
    → operation.is_skip ≡ false
    → apply D operation.name m1.value m2.value ≡ some r
    → D.of_int (D.to_int r) ≡ r
    → (cs : Commands) × (handle_constant_calculation D
          (length front + 2)
          (operands D front post m2 m1 operation)
        ≡ some cs)
      × ((m : Machine) → run D other cs m ≡ run D other (operands D front post m2 m1 operation) m)
run-handle_constant_calculation D other front post m2 m1 operation r p2 p1 kept result whole = (
  _,
  handle_constant_calculation-append D front post m2 m1 operation p1.1 p2.1,
  run-append D other front _ _
      (λ m. operands_meaning D other m2 m1 operation post r m p2 p1 kept result whole),
)

-- Merging a pushed number and the pop to a register behind it, neither of them skipped, into a move
-- changes nothing of what the commands compute.
pub run-handle_imm_storage :
    (D : Doubles) (other : Command → Machine → Option Machine) (front post : Commands)
    (stored storage : Command)
    → IsPushImm stored
    → storage.name ≡ pop
    → storage.checksum ≡ reg
    → storage.is_skip ≡ false
    → (cs : Commands) × (handle_imm_storage (length front) (move front post stored storage)
        ≡ some cs)
      × ((m : Machine) → run D other cs m ≡ run D other (move front post stored storage) m)
run-handle_imm_storage D other front post stored storage p n k kept = (
  _,
  handle_imm_storage-append front post stored storage n k,
  run-append D other front _ _ (λ m. move_meaning D other stored storage post m p n k kept),
)
