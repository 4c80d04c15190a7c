-- ===== src/Riscv/Tests/Control.antt =====
-- The theorems about the control unit, the hazard unit and jumps at concrete inputs.
use best_practices.Base.{◌+◌, ◌≡◌, ◌⊎◌, refl, true, u32, done, raise, arith}
use best_practices.Riscv.Exceptions.{ok, invalid_funct7}
use best_practices.Riscv.Alu.{AluControl}
use best_practices.Riscv.Cmp.{CmpControl}
use best_practices.Riscv.Instruction.{InstructionType, r_type, has_rs1, get_rs1, has_rs2, get_rs2}
use best_practices.Riscv.ControlUnit.{ControlUnit, control_unit_tick}
use best_practices.Riscv.ControlUnit.Mnemonics.{sra}
use best_practices.Riscv.ControlUnit.Decode.{configured, control_unit_tick-mnemonic}
use best_practices.Riscv.ControlUnit.Errors.{Reason, control_unit_tick-Reason}
use best_practices.Riscv.State.{
  Pipeline, MemoryState, memory_zero, write_back_zero, execute_zero, reset, reset_control_unit,
}
use best_practices.Riscv.Gates.{multiplexer2}
use best_practices.Riscv.DataMem.{data_mem_get}
use best_practices.Riscv.Bytes.{read_word}
use best_practices.Riscv.Stages.{do_memory, access_memory, pass_to_write_back}
use best_practices.Riscv.Hazard.{hazard_unit_tick}
use best_practices.Riscv.Hazard.Bypassing.{IsLoadUse}
use best_practices.Riscv.Hazard.Operands.{second, IsHeld, chosen, forwarded, chosen-eq-forwarded}
use best_practices.Riscv.Stages.Jumps.{target, next_address, target-eq-next_address, target_jalr}
use best_practices.Riscv.Tests.Memories.{empty_data, two_loaded}

-- The codes of sra.
abbrev sra_codes : ControlUnit
sra_codes = record reset_control_unit { opcode = 0x33; funct3 = 5; funct7 = 0x20 }

control_unit_tick-mnemonic_example : control_unit_tick sra_codes ≡ done (configured sra sra_codes)
control_unit_tick-mnemonic_example = control_unit_tick-mnemonic sra sra_codes refl refl refl

-- A shift whose upper bits are neither of the two codes.
abbrev bad_codes : ControlUnit
bad_codes = record reset_control_unit { opcode = 0x33; funct3 = 5; funct7 = 1 }

-- What is left of the control unit when it refuses them.
abbrev bad_left : ControlUnit
bad_left = record bad_codes { wb_we = true; instr_type = r_type }

bad_refused : control_unit_tick bad_codes ≡ raise invalid_funct7 bad_left
unfolding control_unit_tick
bad_refused = refl

control_unit_tick-Reason_example :
    Reason invalid_funct7 0x33 5 1 × (bad_left.opcode ≡ bad_codes.opcode)
control_unit_tick-Reason_example =
    control_unit_tick-Reason invalid_funct7 bad_codes bad_left (omega arith) bad_refused

-- 0x2f, the opcode of atomic memory operations, which RV32I does not have.
abbrev amo_codes : ControlUnit
amo_codes = record reset_control_unit { opcode = 0x2f }

-- add x2, x1, x1 in execution, with the type of `type` decoded last and x1 being loaded or not.
abbrev adding : InstructionType → MemoryState → Pipeline
adding type m =
    let p = reset two_loaded empty_data in
    record p {
      control_unit = record p.control_unit { instr_type = type };
      memory_register = record p.memory_register { current = m };
      execute_register = record p.execute_register {
        current = record execute_zero { instr = 0x00108133 };
      };
    }

abbrev loads_1 : MemoryState
loads_1 = record memory_zero { wb_we = true; wb_a = 1; alu_res = 8 }

abbrev adds_1 : MemoryState
adds_1 = record memory_zero { wb_we = true; wb_a = 1; alu_res = 8; mem_to_reg = true }

-- The addition behind an addition to x1, once `doMemory` has ended
abbrev forwarding : Pipeline
forwarding = adding r_type adds_1

abbrev passed : Pipeline
passed = record (hazard_unit_tick forwarding) {
  write_back_register = record forwarding.write_back_register {
    next = record { wb_we = true; wb_d = 8; wb_a = 1 };
  };
  bp_mem = 8;
}

memory_ends : do_memory (hazard_unit_tick forwarding) ≡ done passed
unfolding do_memory access_memory pass_to_write_back hazard_unit_tick multiplexer2 data_mem_get
    read_word has_rs1 get_rs1 has_rs2 get_rs2
memory_ends = refl

chosen-eq-forwarded_example :
    (IsLoadUse true 1 forwarding × IsHeld (hazard_unit_tick forwarding))
    ⊎ (chosen second passed ≡ ok (forwarded 1 adds_1 8 write_back_zero 0))
unfolding has_rs2 get_rs2
chosen-eq-forwarded_example =
    chosen-eq-forwarded second forwarding passed refl memory_ends refl (omega arith) (λ _. refl)
      (λ e. absurd (omega (arith, e)))

-- bne x13, x10, -12 at address 40, fetched two instructions before address 48
abbrev branching : Pipeline
branching =
    let p = reset two_loaded empty_data in
    record p {
      program_counter = record p.program_counter { current = 48 };
      execute_register = record p.execute_register {
        current = record execute_zero {
          cmp_control = CmpControl.ne;
          brn_cond = true;
          pc_de = 40;
          instr = 0xfea69ae3;
        };
      };
    }

target-eq-next_address_example :
    target branching 1 2 ≡ next_address branching.execute_register.current 1 2 (u32 (48 + 4))
target-eq-next_address_example =
    target-eq-next_address branching 1 2 (omega arith) (omega arith) (λ s. ground (arith, s)) refl

-- jalr x0, 0(x1) at address 40
abbrev returning : Pipeline
returning =
    let p = reset two_loaded empty_data in
    record p {
      program_counter = record p.program_counter { current = 48 };
      execute_register = record p.execute_register {
        current = record execute_zero {
          is_jalr = true;
          jmp_cond = true;
          alu_src2 = true;
          alu_op = AluControl.add;
          pc_de = 40;
          instr = 0x00008067;
        };
      };
    }

-- With 100 in x1 it goes to 140.
target_jalr_example :
    target returning 100 0
    ≡ u32 (40 + next_address returning.execute_register.current 100 0 (u32 (48 + 4)))
target_jalr_example = target_jalr returning 100 0 refl refl refl refl
