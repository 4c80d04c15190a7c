-- ===== src/Riscv/Alu/Arithmetic.antt =====
-- The ALU's arithmetic against the signed integers.
use best_practices.Base.{ℕ, ◌-◌, ◌^◌, ◌<◌, ◌≡◌, ◌↔◌, if◌then◌else◌, arith}
use best_practices.Base.Int.{ℤ, pos, negsuc, signed32, ◌+ℤ◌, ◌-ℤ◌, ◌≤ℤ◌, ltb_ℤ}
use best_practices.Riscv.Alu.{add, sub, slt, alu}

-- An integer less than 2^32 away from zero, brought into the range of `int32_t` by at most one
-- addition or subtraction of 2^32; a value of `int32_t` stays as it is.
abbrev pub wrapped : ℤ → ℤ
wrapped z =
    if ltb_ℤ z (negsuc (2 ^ 31 - 1))
    then z +ℤ pos (2 ^ 32)
    else if ltb_ℤ (pos (2 ^ 31 - 1)) z
    then z -ℤ pos (2 ^ 32)
    else z

module _ (a b : ℕ) (ha : a < 2 ^ 32) (hb : b < 2 ^ 32) where
  add_signed : signed32 (alu add a b) ≡ wrapped (signed32 a +ℤ signed32 b)
  unfolding alu
  add_signed = ground arith

  sub_signed : signed32 (alu sub a b) ≡ wrapped (signed32 a -ℤ signed32 b)
  unfolding alu
  sub_signed = ground arith

  -- On words read as signed numbers, ADD and SUB give the exact sum and difference, wrapped into the
  -- range of `int32_t`; SUB undoes ADD; SLT is 1 if the first operand is less as a signed number and 0 otherwise.
  pub alu_signed :
      (signed32 (alu add a b) ≡ wrapped (signed32 a +ℤ signed32 b))
      × (signed32 (alu sub a b) ≡ wrapped (signed32 a -ℤ signed32 b))
      × (alu sub (alu add a b) b ≡ a)
      × ((alu slt a b ≡ 1) ↔ (¬ (signed32 b ≤ℤ signed32 a)))
      × ((alu slt a b ≡ 0) ↔ (signed32 b ≤ℤ signed32 a))
  unfolding alu
  alu_signed = (add_signed, sub_signed, omega arith, ground arith, ground arith)
