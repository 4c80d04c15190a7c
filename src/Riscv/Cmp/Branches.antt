-- ===== src/Riscv/Cmp/Branches.antt =====
-- The comparator against the conditions that RV32I gives the branch instructions.
use best_practices.Base.{ℕ, ◌^◌, ◌<◌, ◌≡◌, refl, Bool, true, false, not, ltb, leb, ◌==◌, arith}
use best_practices.Base.Int.{signed32, ltb_ℤ}
use best_practices.Riscv.Cmp.{CmpControl, nop, eq, ne, lt, ge, ltu, geu, cmp}

-- The condition of each branch: BLT and BGE compare the operands as signed numbers.
pub branch_condition : CmpControl → ℕ → ℕ → Bool
branch_condition nop a b = false
branch_condition eq a b = a == b
branch_condition ne a b = not (a == b)
branch_condition lt a b = ltb_ℤ (signed32 a) (signed32 b)
branch_condition ge a b = not (ltb_ℤ (signed32 a) (signed32 b))
branch_condition ltu a b = ltb a b
branch_condition geu a b = not (ltb a b)

-- The sign bit of a word.
abbrev pub is_negative : ℕ → Bool
is_negative a = leb (2 ^ 31) a

abbrev pub is_signed : CmpControl → Bool
is_signed lt = true
is_signed ge = true
is_signed _ = false

-- The comparator decides the branch condition of every control, provided that for BLT and BGE the
-- two operands have the same sign bit.
pub cmp-eq-branch_condition :
    (control : CmpControl) (a b : ℕ)
    → a < 2 ^ 32
    → b < 2 ^ 32
    → (is_signed control ≡ true → is_negative a ≡ is_negative b)
    → cmp control a b ≡ branch_condition control a b
unfolding cmp branch_condition
cmp-eq-branch_condition nop a b ha hb same = refl
cmp-eq-branch_condition eq a b ha hb same = refl
cmp-eq-branch_condition ne a b ha hb same = refl
cmp-eq-branch_condition lt a b ha hb same = ground (arith, same refl)
cmp-eq-branch_condition ge a b ha hb same = ground (arith, same refl)
cmp-eq-branch_condition ltu a b ha hb same = ground arith
cmp-eq-branch_condition geu a b ha hb same = ground arith

-- For BLT and BGE the comparator gives the opposite of the branch condition whenever exactly one of
-- the two words has its sign bit set.
pub cmp_signs_differ :
    (control : CmpControl) (a b : ℕ)
    → a < 2 ^ 32
    → b < 2 ^ 32
    → is_signed control ≡ true
    → is_negative a ≡ not (is_negative b)
    → cmp control a b ≡ not (branch_condition control a b)
unfolding cmp branch_condition
cmp_signs_differ lt a b ha hb s differ = ground arith
cmp_signs_differ ge a b ha hb s differ = ground arith
cmp_signs_differ nop a b ha hb s differ = cc
cmp_signs_differ eq a b ha hb s differ = cc
cmp_signs_differ ne a b ha hb s differ = cc
cmp_signs_differ ltu a b ha hb s differ = cc
cmp_signs_differ geu a b ha hb s differ = cc
