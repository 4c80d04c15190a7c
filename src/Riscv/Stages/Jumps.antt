-- ===== src/Riscv/Stages/Jumps.antt =====
-- Where the program continues: `doExecute` decides, and `doFetch` computes the next address.
use best_practices.Base.{
  ℕ, ◌+◌, ◌^◌, ◌<◌, ◌≡◌, true, false, ◌&&◌, ◌||◌, if◌then◌else◌, bit_and, u32, object, arith,
}
use best_practices.Riscv.Gates.{add_word, multiplexer2, and_flag, or_flag}
use best_practices.Riscv.Cmp.Branches.{
  branch_condition, is_negative, is_signed, cmp-eq-branch_condition,
}
use best_practices.Riscv.Instruction.{immediate}
use best_practices.Riscv.Alu.{alu, AluControl}
use best_practices.Riscv.State.{Pipeline, ExecuteState}
use best_practices.Riscv.Stages.{execute_with, advance_pc}

-- The next address in RV32I, for the instruction in the execute register with operands `a` and `b`:
-- JALR goes to the sum of register and immediate with bit 0 cleared, JAL and a taken branch go to
-- an address relative to their own.
pub next_address : ExecuteState → ℕ → ℕ → ℕ → ℕ
next_address x a b following =
    if x.is_jalr
    then bit_and (u32 (a + immediate x.instr)) 0xfffffffe
    else if x.jmp_cond || (x.brn_cond && branch_condition x.cmp_control a b)
    then u32 (x.pc_de + immediate x.instr)
    else following

module _ (p : Pipeline) (a b : ℕ) where
  -- The address that `doFetch` computes once the instruction in execution has its operands.
  abbrev pub target : ℕ
  target = (object (advance_pc (execute_with a b p))).program_counter.next

  -- For every instruction but JALR, on words whose sign bits agree where the comparison is signed,
  -- the next program counter is the one that RV32I gives.
  pub target-eq-next_address :
      a < 2 ^ 32
      → b < 2 ^ 32
      → (is_signed p.execute_register.current.cmp_control ≡ true → is_negative a ≡ is_negative b)
      → p.execute_register.current.is_jalr ≡ false
      → target ≡ next_address p.execute_register.current a b (u32 (p.program_counter.current + 4))
  unfolding advance_pc execute_with next_address add_word multiplexer2 and_flag or_flag
  target-eq-next_address ha hb s j =
      ground (arith, cmp-eq-branch_condition p.execute_register.current.cmp_control a b ha hb s)

  -- For JALR the next program counter is the RV32I target plus the instruction's own address.
  pub target_jalr :
      p.execute_register.current.is_jalr ≡ true
      → p.execute_register.current.jmp_cond ≡ true
      → p.execute_register.current.alu_src2 ≡ true
      → p.execute_register.current.alu_op ≡ AluControl.add
      → target
        ≡ u32 (
            p.execute_register.current.pc_de
            + next_address p.execute_register.current a b (u32 (p.program_counter.current + 4)))
  unfolding advance_pc execute_with next_address add_word multiplexer2 or_flag alu
  target_jalr j c s o = ground arith
