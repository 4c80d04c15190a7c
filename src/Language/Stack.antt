-- ===== src/Language/Stack.antt =====
-- ProgrammingLanguage-main/utils/stack.cpp, without canaries, hashes and the checks of a debug build,
-- as utils/include/stack.h configures it. An access outside of the array is `none`.
use best_practices.Base.{ℕ, ltb, if◌then◌else◌, Option, none, some, List, [], ◌∷◌}
use best_practices.Base.Lists.{length}

-- `Stack`: the elements below `size`, the topmost first, and the capacity of `data`.
pub record Stack : Type 0 where
  pub elems : List ℕ
  pub capacity : ℕ

-- `StackCtor_`
unfoldable pub stack_ctor : ℕ → Stack
stack_ctor capacity = record { elems = []; capacity = capacity }

-- `StackPush`
unfoldable pub stack_push : ℕ → Stack → Option Stack
stack_push value s =
    if ltb (length s.elems) s.capacity then some (record s { elems = value ∷ s.elems }) else none

-- `StackPop`
unfoldable pub stack_pop : Stack → Option (ℕ × Stack)
stack_pop s = elim s.elems [ [] ↦ none | v ∷ rest ↦ some (v, record s { elems = rest }) ]
