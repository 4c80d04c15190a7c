-- ===== src/Riscv/Hazard/Operands.antt =====
-- The operands that `doExecute` takes, after the hazard unit and `doMemory`.
use best_practices.Base.{
  ℕ, ◌≡◌, ◌≢◌, ◌⊎◌, inl, inr, Bool, true, false, ◌&&◌, ◌==◌, if◌then◌else◌, done, arith, ap, ◌∙◌,
  Bool-cases,
}
use best_practices.Riscv.Exceptions.{Result, ok}
use best_practices.Riscv.Gates.{multiplexer3}
use best_practices.Riscv.Instruction.{has_rs1, has_rs2}
use best_practices.Riscv.State.{
  Pipeline, Bypass, ExecuteState, MemoryState, WriteBackState, encoding,
}
use best_practices.Riscv.Stages.{do_memory}
use best_practices.Riscv.Stages.Memory.{Passes, do_memory-Passes}
use best_practices.Riscv.Hazard.{select_bypass, hazard_unit_tick}
use best_practices.Riscv.Hazard.Bypassing.{IsLoadUse, rs1_of, rs2_of, hazard_unit_tick_holds}

-- The two operands of the instruction in execution: whether the type that the control unit decoded has
-- it, its register, what decoding read, and the hazard unit's choice
pub data Operand : Type 0 where
  first second : Operand

abbrev pub has_operand : Operand → Pipeline → Bool
has_operand first p = has_rs1 p.control_unit.instr_type
has_operand second p = has_rs2 p.control_unit.instr_type

abbrev pub register_of : Operand → Pipeline → ℕ
register_of first p = rs1_of p
register_of second p = rs2_of p

abbrev pub read_of : Operand → Pipeline → ℕ
read_of first p = p.execute_register.current.data1
read_of second p = p.execute_register.current.data2

abbrev pub choice_of : Operand → Pipeline → Bypass
choice_of first p = p.hu_rs1
choice_of second p = p.hu_rs2

-- The operand that `doExecute` takes
abbrev pub chosen : Operand → Pipeline → Result ℕ
chosen o q =
    multiplexer3 (encoding (choice_of o q)) (read_of o q) q.bp_mem
      q.write_back_register.current.wb_d

-- The value of register `rs` that the instruction in execution should see: what the youngest older
-- instruction that writes `rs` writes to it, or else what decoding read. For the instruction in the
-- memory stage that is `result`.
pub forwarded : ℕ → MemoryState → ℕ → WriteBackState → ℕ → ℕ
forwarded rs m result w read =
    if m.wb_we && m.wb_a == rs then result else if w.wb_we && w.wb_a == rs then w.wb_d else read

-- The instruction in execution and those behind it stay where they are for the next tick.
abbrev pub IsHeld : Pipeline → Type 0
IsHeld p =
    (p.program_counter.enable_flag ≡ false)
    × (p.decode_register.enable_flag ≡ false)
    × (p.execute_register.enable_flag ≡ false)

-- The choice among the sources
select_bypass-eq-forwarded :
    (rs : ℕ) (m : MemoryState) (result : ℕ) (w : WriteBackState) (read : ℕ)
    → rs ≢ 0
    → (m.wb_a ≡ rs → m.wb_we ≡ true)
    → (w.wb_a ≡ rs → w.wb_we ≡ true)
    → (m.wb_a ≡ rs → result ≡ m.alu_res)
    → multiplexer3 (encoding (select_bypass true rs m.wb_a w.wb_a)) read m.alu_res w.wb_d
      ≡ ok (forwarded rs m result w read)
unfolding multiplexer3 encoding select_bypass forwarded
select_bypass-eq-forwarded rs m result w read used hm hw same = ground arith

-- What the hazard unit decides about an operand, and what it leaves as it was
record Decides (o : Operand) (p t : Pipeline) : Type 0 where
  choice :
      choice_of o t
      ≡ select_bypass
          (has_operand o p)
          (register_of o p)
          p.memory_register.current.wb_a
          p.write_back_register.current.wb_a
  memory : t.memory_register.current ≡ p.memory_register.current
  write_back : t.write_back_register.current ≡ p.write_back_register.current
  execute : t.execute_register.current ≡ p.execute_register.current

hazard_unit_tick-Decides :
    (o : Operand) (p : Pipeline) → p.pc_r ≡ false → Decides o p (hazard_unit_tick p)
unfolding hazard_unit_tick
hazard_unit_tick-Decides first p straight = record {
  choice = ground arith;
  memory = ground arith;
  write_back = ground arith;
  execute = ground arith;
}
hazard_unit_tick-Decides second p straight = record {
  choice = ground arith;
  memory = ground arith;
  write_back = ground arith;
  execute = ground arith;
}

-- Both members that the choice needs come through `doMemory`.
chosen-Passes :
    (o : Operand) (t q : Pipeline)
    → Passes t q
    → chosen o q
      ≡ multiplexer3
          (encoding (choice_of o t))
          (read_of o t)
          t.memory_register.current.alu_res
          t.write_back_register.current.wb_d
chosen-Passes first t q h = cc (h.bp_mem, h.write_back, h.execute, h.rs1)
chosen-Passes second t q h = cc (h.bp_mem, h.write_back, h.execute, h.rs2)

read_of-Decides : (o : Operand) (p t : Pipeline) → Decides o p t → read_of o t ≡ read_of o p
read_of-Decides first p t d = ap (λ (x : ExecuteState). x.data1) d.execute
read_of-Decides second p t d = ap (λ (x : ExecuteState). x.data2) d.execute

IsLoadUse-IsHeld :
    (o : Operand) (p : Pipeline)
    → p.pc_r ≡ false
    → IsLoadUse (has_operand o p) (register_of o p) p
    → IsHeld (hazard_unit_tick p)
IsLoadUse-IsHeld first p straight h = hazard_unit_tick_holds p straight (inl h)
IsLoadUse-IsHeld second p straight h = hazard_unit_tick_holds p straight (inr h)

-- Without a redirect, when the hazard unit has run and `doMemory` then ends: an operand other than
-- register 0 of the instruction in execution either is being loaded by the instruction in the memory
-- stage, and then the program counter and the registers for decoding and execution are held for the
-- tick; or what `doExecute` takes for it is what the youngest older instruction that writes its register
-- writes there (for the instruction in the memory stage, what `doMemory` has just passed on), or else
-- what decoding read. The instruction must have the operand by the type that was decoded last, and each
-- of the two older instructions whose destination field equals the operand's register must write it.
pub chosen-eq-forwarded :
    (o : Operand) (p q : Pipeline)
    → p.pc_r ≡ false
    → do_memory (hazard_unit_tick p) ≡ done q
    → has_operand o p ≡ true
    → register_of o p ≢ 0
    → (p.memory_register.current.wb_a ≡ register_of o p → p.memory_register.current.wb_we ≡ true)
    → (p.write_back_register.current.wb_a ≡ register_of o p
        → p.write_back_register.current.wb_we ≡ true)
    → (IsLoadUse (has_operand o p) (register_of o p) p × IsHeld (hazard_unit_tick p))
      ⊎ (chosen o q
          ≡ ok (
              forwarded
                (register_of o p)
                p.memory_register.current
                q.write_back_register.next.wb_d
                p.write_back_register.current
                (read_of o p)))
chosen-eq-forwarded o p q straight e has used hm hw = elim (Bool-cases m.mem_to_reg) [
  | inl passes ↦ inr (settled λ _. h.result (memory ∙ passes) ∙ alu)
  | inr loads ↦ elim (Bool-cases (m.wb_a == rs)) [
    | inl writes ↦
        let loading : IsLoadUse (has_operand o p) rs p =
          (has, used, ground (arith, writes), loads) in
        inl (loading, IsLoadUse-IsHeld o p straight loading)
    | inr other ↦ inr (settled λ writes. absurd (ground (arith, other, writes)))
  ]
]
  where
    t : Pipeline
    t = hazard_unit_tick p

    m : MemoryState
    m = p.memory_register.current

    rs : ℕ
    rs = register_of o p

    h : Passes t q
    h = do_memory-Passes t q e

    d : Decides o p t
    d = hazard_unit_tick-Decides o p straight

    alu : t.memory_register.current.alu_res ≡ m.alu_res
    alu = ap (λ (x : MemoryState). x.alu_res) d.memory

    memory : t.memory_register.current.mem_to_reg ≡ m.mem_to_reg
    memory = ap (λ (x : MemoryState). x.mem_to_reg) d.memory

    settled :
        (m.wb_a ≡ rs → q.write_back_register.next.wb_d ≡ m.alu_res)
        → chosen o q
          ≡ ok (
              forwarded rs m q.write_back_register.next.wb_d p.write_back_register.current
                (read_of o p))
    settled same =
        chosen-Passes o t q h
        ∙ cc (d.choice, has, read_of-Decides o p t d, alu, d.write_back)
        ∙ select_bypass-eq-forwarded rs m q.write_back_register.next.wb_d
            p.write_back_register.current (read_of o p) used hm hw same
