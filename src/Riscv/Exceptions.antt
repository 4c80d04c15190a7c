-- ===== src/Riscv/Exceptions.antt =====
-- What the simulator throws (riscv-pipelined-cpu-sim/modules/address_exceptions.h and
-- pipeline/ebreak_exception.h, unsupported_instruction.h), and functions that may throw.
use best_practices.Base.{Bool, true, false, ◌≡◌, refl, ◌⊎◌, inl, inr}

-- One constructor for each `throw`. `undefined` is no exception: it marks an access outside an
-- array, after which C++ promises nothing.
pub data Exception : Type 0 where
  invalid_address : Exception
  alignment : Exception
  unsupported : Exception
  ebreak : Exception
  out_of_range : Exception
  out_of_instr_section : Exception
  invalid_funct7 : Exception
  invalid_funct3 : Exception
  invalid_control : Exception
  undefined : Exception

-- `catch (std::logic_error&)`: every class but EbreakException descends from std::logic_error.
unfoldable pub is_logic_error : Exception → Bool
is_logic_error ebreak = false
is_logic_error undefined = false
is_logic_error _ = true

-- A `const` function that returns a value or throws.
pub data Result {ℓ} (A : Type ℓ) : Type ℓ where
  ok : A → Result A
  err : Exception → Result A

infixl 5 ◌>>=◌
abbrev pub ◌>>=◌ {ℓ κ} : {V : Type ℓ} {W : Type κ} → Result V → (V → Result W) → Result W
err thrown >>= next = err thrown
ok value >>= next = next value

pub Result-cases {ℓ} :
    {A : Type ℓ} (r : Result A) → ((a : A) × (r ≡ ok a)) ⊎ ((e : Exception) × (r ≡ err e))
Result-cases (ok a) = inl (a, refl)
Result-cases (err e) = inr (e, refl)

-- How a bind came to succeed.
pub >>=-eq-ok {ℓ κ} :
    {V : Type ℓ} {W : Type κ} (call : Result V) (next : V → Result W) {w : W}
    → (call >>= next) ≡ ok w
    → (v : V) × (call ≡ ok v) × (next v ≡ ok w)
>>=-eq-ok (err thrown) next h = cc
>>=-eq-ok (ok value) next h = (value, refl, h)
