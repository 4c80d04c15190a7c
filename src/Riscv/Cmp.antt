-- ===== src/Riscv/Cmp.antt =====
-- riscv-pipelined-cpu-sim/modules/cmp.h: the comparator of the branch instructions.
pub mod Branches
use best_practices.Base.{ℕ, Bool, false, not, ltb, leb, ◌==◌}

-- `CmpControl`
pub data CmpControl : Type 0 where
  nop eq ne lt ge ltu geu : CmpControl

-- `Cmp<word_>::operator()`: at `word_` every comparison is unsigned.
unfoldable pub cmp : CmpControl → ℕ → ℕ → Bool
cmp nop lhs rhs = false
cmp eq lhs rhs = lhs == rhs
cmp ne lhs rhs = not (lhs == rhs)
cmp lt lhs rhs = ltb lhs rhs
cmp ltu lhs rhs = ltb lhs rhs
cmp ge lhs rhs = leb rhs lhs
cmp geu lhs rhs = leb rhs lhs
