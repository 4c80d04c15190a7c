-- ===== src/Riscv/Extension.antt =====
-- riscv-pipelined-cpu-sim/modules/common.h: sign extension to a word.
pub mod Laws
use best_practices.Base.{ℕ, bit_or, ltb, if◌then◌else◌, ◌>>>◌}

-- `signExtendFromByte`
unfoldable pub sign_extend_from_byte : ℕ → ℕ
sign_extend_from_byte target = if ltb 0 (target >>> 7) then bit_or target 0xffffff00 else target

-- `signExtendFromByte2`
unfoldable pub sign_extend_from_byte2 : ℕ → ℕ
sign_extend_from_byte2 target = if ltb 0 (target >>> 15) then bit_or target 0xffff0000 else target
