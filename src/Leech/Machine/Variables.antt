-- ===== src/Leech/Machine/Variables.antt =====
-- leechVM-master/include/executor/executor.hh: the variables of a frame.
use best_practices.Base.{◌≡◌, refl, ◌≢◌, true, List, [], ◌∷◌, none, arith}
use best_practices.Base.Lists.{All}
use best_practices.Leech.Values.{Name, Value, null}
use best_practices.Leech.Objects.{same_name, lookup, insert_or_assign}
use best_practices.Leech.Machine.{empty_vars}

-- The name is one of the map's.
abbrev pub IsVar : List (Name × Value) → Name → Type 0
IsVar vars name = lookup name vars ≢ none

-- A map keeps its names.
IsVar-insert_or_assign :
    (n name : Name) (v : Value) (vars : List (Name × Value))
    → IsVar vars n
    → IsVar (insert_or_assign name v vars) n
unfolding lookup insert_or_assign
IsVar-insert_or_assign n name v [] h = absurd (h refl)
IsVar-insert_or_assign n name v ((key, w) ∷ vars) h =
    λ p. ground (arith, IsVar-insert_or_assign n name v vars)

pub All-IsVar :
    (names : List Name) (name : Name) (v : Value) (vars : List (Name × Value))
    → All (IsVar vars) names
    → All (IsVar (insert_or_assign name v vars)) names
All-IsVar [] name v vars h = tt
All-IsVar (n ∷ names) name v vars h =
    (IsVar-insert_or_assign n name v vars h.0, All-IsVar names name v vars h.1)

pub same_name_self : (name : Name) → same_name name name ≡ true
unfolding same_name
same_name_self [] = refl
same_name_self (b ∷ name) = ground (arith, same_name_self name)

IsVar-insert_self :
    (name : Name) (v : Value) (vars : List (Name × Value))
    → IsVar (insert_or_assign name v vars) name
unfolding lookup insert_or_assign
IsVar-insert_self name v [] = λ p. ground (arith, same_name_self name)
IsVar-insert_self name v ((key, w) ∷ vars) = λ p. ground (arith, IsVar-insert_self name v vars)

IsVar-empty_vars :
    (n : Name) (names : List Name) (vars : List (Name × Value))
    → IsVar vars n
    → IsVar (empty_vars names vars) n
unfolding empty_vars
IsVar-empty_vars n [] vars h = h
IsVar-empty_vars n (name ∷ names) vars h =
    IsVar-empty_vars n names (insert_or_assign name null vars)
      (IsVar-insert_or_assign n name null vars h)

pub empty_vars-IsVar :
    (names : List Name) (vars : List (Name × Value)) → All (IsVar (empty_vars names vars)) names
unfolding empty_vars
empty_vars-IsVar [] vars = tt
empty_vars-IsVar (name ∷ names) vars = (
  IsVar-empty_vars name names (insert_or_assign name null vars) (IsVar-insert_self name null vars),
  empty_vars-IsVar names (insert_or_assign name null vars),
)
