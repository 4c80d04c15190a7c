-- ===== src/Riscv/ControlUnit/Errors.antt =====
-- What the control unit refuses, and what it lets through.
use best_practices.Base.{
  ℕ, ◌<◌, ◌≡◌, ◌≢◌, ◌⊎◌, inl, inr, refl, Bool-cases, ==_iff, true, false, ◌==◌, done, raise,
  >>=-eq-raise, arith,
}
use best_practices.Riscv.Exceptions.{
  Exception, unsupported, ebreak, invalid_funct3, invalid_funct7, err,
}
use best_practices.Riscv.Alu.{AluControl}
use best_practices.Riscv.Cmp.{CmpControl}
use best_practices.Riscv.Instruction.{InstructionType, unknown, get_instruction_type}
use best_practices.Riscv.ControlUnit.{
  ControlUnit, control_unit_tick, alu_op_register, alu_op_immediate, select_cmp_control,
  select_alu_op, set_write_signals, set_alu_op, set_conditions,
}

-- The codes for which each exception is due.
abbrev pub Reason : Exception → ℕ → ℕ → ℕ → Type 0
Reason unsupported opcode funct3 funct7 = (opcode ≡ 0x0f) ⊎ ((opcode ≡ 0x73) × (funct3 ≢ 0))
Reason ebreak opcode funct3 funct7 = (opcode ≡ 0x73) × (funct3 ≡ 0)
Reason invalid_funct7 opcode funct3 funct7 =
    ((opcode ≡ 0x33) × ((funct3 ≡ 0) ⊎ (funct3 ≡ 5)) × (funct7 ≢ 0) × (funct7 ≢ 0x20))
    ⊎ ((opcode ≡ 0x13) × (funct3 ≡ 1) × (funct7 ≢ 0))
    ⊎ ((opcode ≡ 0x13) × (funct3 ≡ 5) × (funct7 ≢ 0) × (funct7 ≢ 0x20))
Reason invalid_funct3 opcode funct3 funct7 = (opcode ≡ 0x63) × ((funct3 ≡ 2) ⊎ (funct3 ≡ 3))
Reason _ opcode funct3 funct7 = ⊥

module _ (funct3 funct7 : ℕ) (small : funct3 < 8) where
  alu_op_register-Reason :
      (e : Exception) → alu_op_register funct3 funct7 ≡ err e → Reason e 0x33 funct3 funct7
  unfolding alu_op_register
  alu_op_register-Reason unsupported r = ground arith
  alu_op_register-Reason _ r = ground arith

  alu_op_immediate-Reason :
      (e : Exception) → alu_op_immediate funct3 funct7 ≡ err e → Reason e 0x13 funct3 funct7
  unfolding alu_op_immediate
  alu_op_immediate-Reason unsupported r = ground arith
  alu_op_immediate-Reason _ r = ground arith

  select_cmp_control-Reason :
      (e : Exception) (opcode : ℕ)
      → select_cmp_control opcode funct3 ≡ err e
      → Reason e opcode funct3 funct7
  unfolding select_cmp_control
  select_cmp_control-Reason unsupported opcode r = ground arith
  select_cmp_control-Reason _ opcode r = ground arith

  select_alu_op-Reason :
      (e : Exception) (opcode : ℕ) (type : InstructionType)
      → select_alu_op opcode funct3 funct7 type ≡ err e
      → Reason e opcode funct3 funct7
  unfolding select_alu_op
  select_alu_op-Reason e opcode type r = elim (Bool-cases (opcode == 0x33)) [
    | inl register ↦
        rw ((==_iff opcode 0x33).0 register) (alu_op_register-Reason e (rw (register) at r))
    | inr other ↦ elim (Bool-cases (opcode == 0x13)) [
      | inl immediate ↦
          rw ((==_iff opcode 0x13).0 immediate)
            (alu_op_immediate-Reason e (rw (other, immediate) at r))
      | inr neither ↦ absurd (ground arith)
    ]
  ]

-- The codes of the instruction in decoding.
record HasCodes (opcode funct3 funct7 : ℕ) (c : ControlUnit) : Type 0 where
  opcode_eq : c.opcode ≡ opcode
  funct3_eq : c.funct3 ≡ funct3
  funct7_eq : c.funct7 ≡ funct7

-- The `select` of `set_alu_op` is what raises.
set_alu_op_raises :
    (e : Exception) (c c' : ControlUnit)
    → set_alu_op c ≡ raise e c'
    → (select_alu_op c.opcode c.funct3 c.funct7 c.instr_type ≡ err e) × (c ≡ c')
unfolding set_alu_op
set_alu_op_raises e c c' r = ground arith

module _ (op f3 f7 : ℕ) (small : f3 < 8) (c c' : ControlUnit) (h : HasCodes op f3 f7 c) where
  set_write_signals-Reason :
      (e : Exception) → set_write_signals c ≡ raise e c' → Reason e op f3 f7 × (c'.opcode ≡ op)
  unfolding set_write_signals
  set_write_signals-Reason unsupported r = ground arith
  set_write_signals-Reason _ r = ground arith

  set_write_signals-HasCodes : set_write_signals c ≡ done c' → HasCodes op f3 f7 c'
  unfolding set_write_signals
  set_write_signals-HasCodes r = ground arith

  set_alu_op-Reason :
      (e : Exception) → set_alu_op c ≡ raise e c' → Reason e op f3 f7 × (c'.opcode ≡ op)
  set_alu_op-Reason e r = (
    select_alu_op-Reason f3 f7 small e op c.instr_type (ground (arith, set_alu_op_raises e c c' r)),
    ground (arith, set_alu_op_raises e c c' r),
  )

  set_alu_op-HasCodes : set_alu_op c ≡ done c' → HasCodes op f3 f7 c'
  unfolding set_alu_op
  set_alu_op-HasCodes r = ground arith

  set_conditions-Reason :
      (e : Exception) → set_conditions c ≡ raise e c' → Reason e op f3 f7 × (c'.opcode ≡ op)
  unfolding set_conditions
  set_conditions-Reason unsupported r = ground arith
  set_conditions-Reason _ r = ground arith

-- With a 3-bit `funct3`, an exception leaves the control unit only for the codes for which it is
-- due, and the opcode is kept.
pub control_unit_tick-Reason :
    (e : Exception) (c c' : ControlUnit)
    → c.funct3 < 8
    → control_unit_tick c ≡ raise e c'
    → Reason e c.opcode c.funct3 c.funct7 × (c'.opcode ≡ c.opcode)
unfolding control_unit_tick
control_unit_tick-Reason e c c' h r = elim (>>=-eq-raise (set_write_signals c) _ r) [
  | inl early ↦ set_write_signals-Reason c.opcode c.funct3 c.funct7 h c c' same e early
  | inr (c₁, p₁, r₁) ↦
      let h₁ = set_write_signals-HasCodes c.opcode c.funct3 c.funct7 h c c₁ same p₁ in
      elim (>>=-eq-raise (set_alu_op c₁) _ r₁) [
        | inl middle ↦ set_alu_op-Reason c.opcode c.funct3 c.funct7 h c₁ c' h₁ e middle
        | inr (c₂, p₂, r₂) ↦
            let h₂ = set_alu_op-HasCodes c.opcode c.funct3 c.funct7 h c₁ c₂ h₁ p₂ in
            set_conditions-Reason c.opcode c.funct3 c.funct7 h c₂ c' h₂ e r₂
      ]
]
  where
    same : HasCodes c.opcode c.funct3 c.funct7 c
    same = record { opcode_eq = refl; funct3_eq = refl; funct7_eq = refl }

-- An opcode of no known type that is not FENCE passes: the control unit ends normally, with the
-- register write enabled and the ALU operation that always gives 0.
pub control_unit_tick-unknown :
    (c : ControlUnit)
    → get_instruction_type c.opcode ≡ unknown
    → c.opcode ≢ 0x0f
    → control_unit_tick c
      ≡ done (record c {
        is_jalr = false;
        wb_we = true;
        mem_we = false;
        mem_to_reg = true;
        brn_cond = false;
        jmp_cond = false;
        cmp_control = CmpControl.nop;
        alu_src2 = false;
        alu_op = AluControl.nop;
        instr_type = unknown;
      })
unfolding control_unit_tick get_instruction_type
control_unit_tick-unknown c u f = ground arith
