-- ===== src/Leech/Executor/Fuel.antt =====
-- leechVM-master/src/executor/executor.cc: the loop does not depend on the bound of its model.
use best_practices.Base.{ℕ, zero, suc, ◌≤◌, ◌≡◌, List, [], ◌∷◌, some, arith}
use best_practices.Leech.Values.{FloatOps}
use best_practices.Leech.Machine.{State, StackFrame, Step, ret, throw}
use best_practices.Leech.Executor.{execute_next, run_loop}

module _ (ops : FloatOps) (r : Step (Unit {0})) (fuel more : ℕ)
    (later : (t : State) → run_loop fuel ops t ≡ some r → run_loop more ops t ≡ some r) where
  run_after :
      (x : Step (Unit {0}))
      → (elim x [ ret _ t ↦ run_loop fuel ops t | throw e t ↦ some (throw e t) ]) ≡ some r
      → (elim x [ ret _ t ↦ run_loop more ops t | throw e t ↦ some (throw e t) ]) ≡ some r
  run_after (ret _ t) h = later t h
  run_after (throw e t) h = h

  run_from :
      (s : State) (fs : List StackFrame)
      → (elim fs [
        | [] ↦ some (ret tt s)
        | _ ∷ _ ↦ elim (execute_next ops s) [
          | ret _ t ↦ run_loop fuel ops t
          | throw e t ↦ some (throw e t)
        ]
      ])
        ≡ some r
      → (elim fs [
        | [] ↦ some (ret tt s)
        | _ ∷ _ ↦ elim (execute_next ops s) [
          | ret _ t ↦ run_loop more ops t
          | throw e t ↦ some (throw e t)
        ]
      ])
        ≡ some r
  run_from s [] h = h
  run_from s (_ ∷ _) h = run_after (execute_next ops s) h

-- If the loop ends within some number of instructions, it ends in the same way with any larger bound.
pub run_loop-le :
    (ops : FloatOps) (s : State) (r : Step (Unit {0})) (fuel more : ℕ)
    → fuel ≤ more
    → run_loop fuel ops s ≡ some r
    → run_loop more ops s ≡ some r
unfolding run_loop
run_loop-le ops s r zero more h p = cc
run_loop-le ops s r (suc fuel) zero h p = absurd (omega arith)
run_loop-le ops s r (suc fuel) (suc more) h p =
    run_from ops r fuel more (λ t q. run_loop-le ops t r fuel more (omega arith) q) s s.func_stack p
