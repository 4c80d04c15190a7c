-- ===== src/Riscv/RegFile/Ports.antt =====
-- The register file against 32 registers of which register 0 is always 0.
use best_practices.Base.{
  ◌^◌, ℕ, ◌<◌, ◌≡◌, Bool, not, ◌&&◌, ◌==◌, if◌then◌else◌, done, object, arith,
}
use best_practices.Riscv.RegFile.{RegFile, set_new_signals, reg_file_tick}

-- The registers after one write: a write to register 0 is dropped.
pub written : Bool → ℕ → ℕ → (ℕ → ℕ) → ℕ → ℕ
written enabled rd v regs j = if enabled && not (rd == 0) && j == rd then v else regs j

module _ (rs1 rs2 rd : ℕ) (enabled : Bool) (v : ℕ) (r : RegFile) where
  abbrev pub ticked : RegFile
  ticked = object (reg_file_tick (set_new_signals rs1 rs2 rd enabled v r))

  -- With register numbers below 32 a clock of the register file throws nothing. It writes the one
  -- register that the write port names, and each read port gives its register's value after that
  -- write.
  pub reg_file_tick_lem :
      rs1 < 32
      → rs2 < 32
      → rd < 32
      → (reg_file_tick (set_new_signals rs1 rs2 rd enabled v r) ≡ done ticked)
        × ((j : ℕ) → ticked.regs j ≡ written enabled rd v r.regs j)
        × (ticked.read_data1 ≡ written enabled rd v r.regs rs1)
        × (ticked.read_data2 ≡ written enabled rd v r.regs rs2)
  unfolding reg_file_tick set_new_signals written
  reg_file_tick_lem h₁ h₂ h₃ = (ground arith, λ j. ground arith, ground arith, ground arith)

  -- Register 0 keeps its value whatever is written, also when an exception leaves the clock.
  pub reg_file_tick_zero : ticked.regs 0 ≡ r.regs 0
  unfolding reg_file_tick set_new_signals
  reg_file_tick_zero = ground arith

-- A clock of a register file that holds words leaves words, whether or not it throws.
pub reg_file_tick-words :
    (r : RegFile)
    → ((j : ℕ) → r.regs j < 2 ^ 32)
    → r.write_data3 < 2 ^ 32
    → r.read_data1 < 2 ^ 32
    → r.read_data2 < 2 ^ 32
    → let t = object (reg_file_tick r) in
      ((j : ℕ) → t.regs j < 2 ^ 32) × (t.read_data1 < 2 ^ 32) × (t.read_data2 < 2 ^ 32)
unfolding reg_file_tick
reg_file_tick-words r h w h₁ h₂ =
    (λ j. ground (arith, h j), ground (arith, h r.address1), ground (arith, h r.address2))
