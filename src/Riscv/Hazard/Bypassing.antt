-- ===== src/Riscv/Hazard/Bypassing.antt =====
-- The hazard unit: which value an operand gets, when the pipeline is held, and where the unit looks
-- at less than it should.
use best_practices.Base.{ℕ, ◌≡◌, ◌≢◌, ◌⊎◌, Bool, true, false, arith}
use best_practices.Riscv.Instruction.{u_type, j_type, has_rs1, has_rs2, get_rs1, get_rs2}
use best_practices.Riscv.State.{Pipeline, reg}
use best_practices.Riscv.Hazard.{hazard_unit_tick}

-- The operand is the destination of a load in the memory stage.
abbrev pub IsLoadUse : Bool → ℕ → Pipeline → Type 0
IsLoadUse has rs p =
    (has ≡ true)
    × (rs ≢ 0)
    × (rs ≡ p.memory_register.current.wb_a)
    × (p.memory_register.current.mem_to_reg ≡ false)

abbrev pub rs1_of : Pipeline → ℕ
rs1_of p = get_rs1 p.execute_register.current.instr

abbrev pub rs2_of : Pipeline → ℕ
rs2_of p = get_rs2 p.execute_register.current.instr

module _ (p : Pipeline) (straight : p.pc_r ≡ false) where
  abbrev pub ticked : Pipeline
  ticked = hazard_unit_tick p

  -- Without a redirect: if either operand is still being loaded, the program counter and the decode
  -- and execute registers are all held for the next tick.
  pub hazard_unit_tick_holds :
      IsLoadUse (has_rs1 p.control_unit.instr_type) (rs1_of p) p
        ⊎ IsLoadUse (has_rs2 p.control_unit.instr_type) (rs2_of p) p
      → (ticked.program_counter.enable_flag ≡ false)
        × (ticked.decode_register.enable_flag ≡ false)
        × (ticked.execute_register.enable_flag ≡ false)
  unfolding hazard_unit_tick
  hazard_unit_tick_holds h = ground arith

  -- Without a redirect, and with a load for neither operand in the memory stage, the three are
  -- enabled.
  pub hazard_unit_tick_releases :
      ¬ IsLoadUse (has_rs1 p.control_unit.instr_type) (rs1_of p) p
      → ¬ IsLoadUse (has_rs2 p.control_unit.instr_type) (rs2_of p) p
      → (ticked.program_counter.enable_flag ≡ true)
        × (ticked.decode_register.enable_flag ≡ true)
        × (ticked.execute_register.enable_flag ≡ true)
  unfolding hazard_unit_tick
  hazard_unit_tick_releases h k = ground arith

  -- The type that the hazard unit uses is the one that the control unit decoded last. If that is a
  -- U-type or J-type, the instruction in the execute register gets no bypass and no hold, whatever
  -- it is and whatever the later stages are about to write.
  pub hazard_unit_tick_stale_type :
      (p.control_unit.instr_type ≡ u_type) ⊎ (p.control_unit.instr_type ≡ j_type)
      → (ticked.hu_rs1 ≡ reg)
        × (ticked.hu_rs2 ≡ reg)
        × (ticked.execute_register.enable_flag ≡ true)
        × (ticked.execute_register.current ≡ p.execute_register.current)
  unfolding hazard_unit_tick has_rs1 has_rs2
  hazard_unit_tick_stale_type h = ground arith
