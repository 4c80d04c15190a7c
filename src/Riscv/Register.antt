-- ===== src/Riscv/Register.antt =====
-- riscv-pipelined-cpu-sim/modules/register.h: a clocked register with an enable flag.
use best_practices.Base.{Bool, if◌then◌else◌}

-- `Register<T>`
pub record Register {ℓ} (T : Type ℓ) : Type ℓ where
  pub enable_flag : Bool
  pub next : T
  pub current : T

module _ {ℓ} {T : Type ℓ} where
  -- `Register::tick`
  unfoldable pub register_tick : Register T → Register T
  register_tick r = if r.enable_flag then record r { current = r.next } else r

  -- `Register::clear`: `zero` is the value that `T` makes of 0.
  unfoldable pub register_clear : T → Register T → Register T
  register_clear zero r = record r { current = zero; next = zero }
