-- ===== src/Riscv/Extension/Laws.antt =====
-- Sign extension keeps the signed value.
use best_practices.Base.{ℕ, ◌-◌, ◌^◌, ◌<◌, ◌≡◌, arith, ltb, if◌then◌else◌}
use best_practices.Base.Bits.{bit_or_high}
use best_practices.Base.Int.{ℤ, pos, negsuc, signed32}
use best_practices.Riscv.Extension.{sign_extend_from_byte, sign_extend_from_byte2}

-- `(intW_t) v` for a width W: the integer that a pattern of `w` bits stands for.
abbrev pub signed : ℕ → ℕ → ℤ
signed w v = if ltb v (2 ^ (w - 1)) then pos v else negsuc (2 ^ w - v - 1)

-- A byte and a half word, read as signed numbers, keep their value when they are extended to words.
pub signed32-sign_extend :
    (b h : ℕ)
    → b < 2 ^ 8
    → h < 2 ^ 16
    → (signed32 (sign_extend_from_byte b) ≡ signed 8 b)
      × (signed32 (sign_extend_from_byte2 h) ≡ signed 16 h)
unfolding sign_extend_from_byte sign_extend_from_byte2
signed32-sign_extend b h b-lt h-lt =
    (ground (arith, bit_or_high 8 0xffffff b b-lt), ground (arith, bit_or_high 16 0xffff h h-lt))
