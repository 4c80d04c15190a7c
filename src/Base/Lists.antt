-- ===== src/Base/Lists.antt =====
-- Lists with their length in native numbers.
use best_practices.Base.{ℕ, zero, suc, List, [], ◌∷◌, Option, none, some}

abbrev pub length {ℓ} : {A : Type ℓ} → List A → ℕ
length [] = 0
length (x ∷ xs) = suc (length xs)

-- Every element has the property.
abbrev pub All {ℓ κ} : {A : Type ℓ} → (A → Type κ) → List A → Type κ
All P [] = Unit
All P (x ∷ xs) = P x × All P xs

-- The element at an index, and the list with that element replaced.
abbrev pub get_elem? {ℓ} : {A : Type ℓ} → List A → ℕ → Option A
get_elem? [] n = none
get_elem? (x ∷ xs) zero = some x
get_elem? (x ∷ xs) (suc n) = get_elem? xs n

abbrev pub set {ℓ} : {A : Type ℓ} → List A → ℕ → A → List A
set [] n y = []
set (x ∷ xs) zero y = y ∷ xs
set (x ∷ xs) (suc n) y = x ∷ set xs n y
