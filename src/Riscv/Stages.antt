-- ===== src/Riscv/Stages.antt =====
-- riscv-pipelined-cpu-sim/pipeline/pipeline.cpp: `doMemory`, `doExecute`, `doDecode` and `doFetch`.
-- A stage returns the processor as it stands when it ends or when an exception leaves it.
pub mod Jumps
pub mod Memory
use best_practices.Base.{
  ℕ, ◌-◌, ◌%◌, bit_and, true, false, not, ◌&&◌, ◌||◌, ◌==◌, ltb, if◌then◌else◌, u8, Outcome, done,
  raise, on_member, ◌>>=◌,
}
use best_practices.Riscv.Exceptions.{Exception, ok, err, alignment, out_of_instr_section}
use best_practices.Riscv.Gates.{add_word, and_flag, or_flag, multiplexer2, multiplexer3}
use best_practices.Riscv.Alu.{alu}
use best_practices.Riscv.Cmp.{cmp}
use best_practices.Riscv.Register.{Register, register_clear}
use best_practices.Riscv.RegFile.{set_new_signals, reg_file_tick}
use best_practices.Riscv.DataMem.{data_mem_get, data_mem_tick}
use best_practices.Riscv.InstrMem.{instr_mem_get, is_pc_out_of_section}
use best_practices.Riscv.Instruction.{
  get_funct7, get_rs2, get_rs1, get_funct3, get_rd, get_opcode, immediate,
}
use best_practices.Riscv.ControlUnit.{control_unit_tick}
use best_practices.Riscv.State.{Pipeline, decode_zero, encoding}

-- An assignment to members of the `next` value of a register.
abbrev pub set_next {ℓ} : {T : Type ℓ} → (T → T) → Register T → Register T
set_next f r = record r { next = f r.next }

abbrev disable {ℓ} : {T : Type ℓ} → Register T → Register T
disable r = record r { enable_flag = false }

abbrev pub Stage : Type 0
Stage = Pipeline → Outcome Exception Pipeline

-- The use of the data memory in `doMemory`.
unfoldable pub access_memory : Stage
access_memory p =
    let m = p.memory_register.current in
    let d = record p.data_mem_unit {
      store_mode = m.store_mode;
      write_enable = m.mem_we;
      address = m.alu_res;
      write_data = m.write_data;
    } in
    if not m.mem_to_reg || m.mem_we
    then on_member (data_mem_tick d) (λ d'. record p { data_mem_unit = d' })
    else done p

-- The rest of `doMemory`. `getData` runs for every instruction: it is an argument of the
-- multiplexer.
unfoldable pub pass_to_write_back : Stage
pass_to_write_back p =
    let m = p.memory_register.current in
    let p₁ = record p {
      write_back_register = set_next (λ w. record w { wb_we = m.wb_we }) p.write_back_register;
    } in
    elim (data_mem_get p.data_mem_unit) [
      | err e ↦ raise e p₁
      | ok v ↦ done (record p₁ {
        write_back_register =
            set_next
              (λ w. record w { wb_d = multiplexer2 m.mem_to_reg v m.alu_res; wb_a = u8 m.wb_a })
              p₁.write_back_register;
        bp_mem = m.alu_res;
      })
    ]

-- `Pipeline::doMemory`
unfoldable pub do_memory : Stage
unfolding access_memory pass_to_write_back
do_memory p = access_memory p >>= pass_to_write_back

-- `doExecute` once the operands `src_a` and `rs2v` are chosen.
unfoldable pub execute_with : ℕ → ℕ → Pipeline → Pipeline
execute_with src_a rs2v p =
    let x = p.execute_register.current in
    let disp = immediate x.instr in
    let src_b = multiplexer2 x.alu_src2 rs2v disp in
    let cmp_res = cmp x.cmp_control src_a rs2v in
    let redirect = or_flag x.jmp_cond (and_flag cmp_res x.brn_cond) in
    let alu_res = alu x.alu_op src_a src_b in
    record p {
      pc_r = redirect;
      memory_register =
          set_next
            (λ m. record m {
              store_mode = x.funct3;
              mem_we = x.mem_we && not x.v_de;
              mem_to_reg = x.mem_to_reg;
              wb_we = x.wb_we && not x.v_de;
              jmp_cond = x.jmp_cond;
              write_data = rs2v;
              alu_res = if x.jmp_cond then add_word x.pc_de 4 else alu_res;
              wb_a = get_rd x.instr;
            })
            p.memory_register;
      pc_disp = if x.is_jalr then bit_and alu_res 0xfffffffe else disp;
      decode_register = set_next (λ d. record d { v_de = redirect }) p.decode_register;
    }

-- `Pipeline::doExecute`
unfoldable pub do_execute : Stage
do_execute p =
    let x = p.execute_register.current in
    let wb_d = p.write_back_register.current.wb_d in
    elim (multiplexer3 (encoding p.hu_rs1) x.data1 p.bp_mem wb_d) [
      | err e ↦ raise e p
      | ok src_a ↦ elim (multiplexer3 (encoding p.hu_rs2) x.data2 p.bp_mem wb_d) [
        | err e ↦ raise e p
        | ok rs2v ↦ done (execute_with src_a rs2v p)
      ]
    ]

-- The register file's part of `doDecode`.
unfoldable pub read_registers : Stage
read_registers p =
    let instr = p.decode_register.current.instr in
    let w = p.write_back_register.current in
    on_member
      (reg_file_tick
        (set_new_signals (get_rs1 instr) (get_rs2 instr) w.wb_a w.wb_we w.wb_d p.reg_file))
      (λ r. record p { reg_file = r })

-- The control unit's part of `doDecode`.
unfoldable pub decode_signals : Stage
decode_signals p =
    let instr = p.decode_register.current.instr in
    let c = record p.control_unit {
      opcode = get_opcode instr;
      funct3 = get_funct3 instr;
      funct7 = get_funct7 instr;
    } in
    on_member (control_unit_tick c) (λ c'. record p { control_unit = c' })

-- The assignments to `execute_register.next` that end `doDecode`.
unfoldable pub pass_to_execute : Pipeline → Pipeline
pass_to_execute p =
    let c = p.control_unit in
    let d = p.decode_register.current in
    let auipc = multiplexer2 (c.opcode == 0b0010111) p.reg_file.read_data1 d.pc_de in
    record p {
      execute_register = record p.execute_register {
        next = record {
          funct3 = c.funct3;
          is_jalr = c.is_jalr;
          alu_op = c.alu_op;
          alu_src2 = c.alu_src2;
          mem_to_reg = c.mem_to_reg;
          wb_we = c.wb_we;
          mem_we = c.mem_we;
          cmp_control = c.cmp_control;
          brn_cond = c.brn_cond;
          jmp_cond = c.jmp_cond;
          v_de = or_flag p.pc_r d.v_de;
          data1 = multiplexer2 (c.opcode == 0b0110111) auipc 0;
          data2 = p.reg_file.read_data2;
          pc_de = d.pc_de;
          instr = d.instr;
        };
      };
    }

-- `Pipeline::doDecode`
unfoldable pub do_decode : Stage
unfolding read_registers decode_signals pass_to_execute
do_decode p = do p₁ ← read_registers p; p₂ ← decode_signals p₁; done (pass_to_execute p₂)

-- The start of `doFetch`: what happens when the program counter has left the instructions.
unfoldable pub leave_section : Stage
leave_section p =
    let x = p.execute_register.next in
    let q = record p { last_instructions_flag = true } in
    if not p.last_instructions_flag
      && is_pc_out_of_section p.program_counter.current p.instr_mem_unit
      && not (x.jmp_cond || x.brn_cond)
    then (if p.memory_register.current.jmp_cond
        then done (record q {
          last_instructions_counter = 1;
          program_counter = disable p.program_counter;
          decode_register = disable p.decode_register;
          execute_register = disable p.execute_register;
          memory_register = disable p.memory_register;
        })
        else if not p.pc_r
        then done (record q {
          last_instructions_counter = 3;
          program_counter = disable p.program_counter;
          decode_register = register_clear decode_zero (disable p.decode_register);
        })
        else raise out_of_instr_section q)
    else done p

-- The next program counter.
unfoldable pub advance_pc : Stage
advance_pc p =
    let pc = p.program_counter.current in
    let summand1 = multiplexer2 p.pc_r pc p.execute_register.current.pc_de in
    let summand2 = multiplexer2 p.pc_r 4 p.pc_disp in
    let target = add_word summand1 summand2 in
    let q = record p {
      instr_mem_unit = record p.instr_mem_unit { address = pc };
      program_counter = record p.program_counter { next = target };
    } in
    if not (target % 4 == 0) then raise alignment q else done q

-- The instruction word at the program counter.
unfoldable pub fetch_word : Stage
fetch_word p = elim (instr_mem_get p.instr_mem_unit) [
  | err e ↦ raise e p
  | ok w ↦ done (record p {
    decode_register =
        set_next (λ d. record d { instr = w; pc_de = p.program_counter.current }) p.decode_register;
  })
]

-- The countdown of the last instructions.
unfoldable pub count_down : Stage
count_down p =
    if p.last_instructions_flag
    then (if ltb 0 p.last_instructions_counter
        then done (record p { last_instructions_counter = p.last_instructions_counter - 1 })
        else raise out_of_instr_section p)
    else done p

-- `Pipeline::doFetch`
unfoldable pub do_fetch : Stage
unfolding leave_section advance_pc fetch_word count_down
do_fetch p = leave_section p >>= advance_pc >>= fetch_word >>= count_down
