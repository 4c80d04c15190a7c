-- ===== src/Riscv/Gates.antt =====
-- riscv-pipelined-cpu-sim/modules/gates.h: the adder, the gates on flags and the multiplexers.
use best_practices.Base.{ℕ, ◌+◌, Bool, ◌&&◌, ◌||◌, ◌==◌, if◌then◌else◌, u32}
use best_practices.Riscv.Exceptions.{Result, ok, err, invalid_control}

-- `Add<word_>`
unfoldable pub add_word : ℕ → ℕ → ℕ
add_word lhs rhs = u32 (lhs + rhs)

-- `And<bool>`
unfoldable pub and_flag : Bool → Bool → Bool
and_flag lhs rhs = lhs && rhs

-- `Or<bool>`
unfoldable pub or_flag : Bool → Bool → Bool
or_flag lhs rhs = lhs || rhs

-- `Multiplexer2<word_>`
unfoldable pub multiplexer2 : Bool → ℕ → ℕ → ℕ
multiplexer2 control src1 src2 = if control then src2 else src1

-- `Multiplexer3<word_>`
unfoldable pub multiplexer3 : ℕ → ℕ → ℕ → ℕ → Result ℕ
multiplexer3 control src1 src2 src3 =
    if control == 0
    then ok src1
    else if control == 1
    then ok src2
    else if control == 2
    then ok src3
    else err invalid_control
