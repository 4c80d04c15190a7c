-- ===== src/Riscv/Tests/Memories.antt =====
-- The theorems about the register file, the memories and sign extension at concrete inputs.
use best_practices.Base.{
  ℕ, ◌+◌, ◌%◌, ◌*◌, ◌≡◌, inr, refl, true, false, List, [], ◌∷◌, done, ◌↔◌, if◌then◌else◌, ltb, ◌-◌,
  arith,
}
use best_practices.Base.Bits.{digit}
use Prim.Native.Nat.{min, max, differ}
use best_practices.Base.Int.{signed32, ◌+ℤ◌, ◌-ℤ◌, ◌≤ℤ◌}
use best_practices.Riscv.Exceptions.{ok, err, alignment}
use best_practices.Riscv.Alu.{add, sub, slt, and, or, xor, sll, srl, sra, alu}
use best_practices.Riscv.Alu.Arithmetic.{wrapped, alu_signed}
use best_practices.Riscv.Alu.Shifts.{sra_source, digit-alu}
use best_practices.Riscv.RegFile.{RegFile, set_new_signals, reg_file_tick}
use best_practices.Riscv.RegFile.Ports.{ticked, written, reg_file_tick_lem}
use best_practices.Riscv.Bytes.{zeros}
use best_practices.Riscv.DataMem.{DataMem, data_mem_get, data_mem_tick}
use best_practices.Riscv.DataMem.Access.{
  access_size, stored, store_request, load_request, loaded_value, data_mem_get-store,
}
use best_practices.Riscv.InstrMem.{
  InstrMem, instr_mem_init, instr_mem_get, is_pc_out_of_section, copy_words,
}
use best_practices.Riscv.InstrMem.Section.{instruction, instr_mem_get-init}

alu_signed_example :
    (signed32 (alu add 0x7fffffff 1) ≡ wrapped (signed32 0x7fffffff +ℤ signed32 1))
    × (signed32 (alu sub 0x7fffffff 1) ≡ wrapped (signed32 0x7fffffff -ℤ signed32 1))
    × (alu sub (alu add 0x7fffffff 1) 1 ≡ 0x7fffffff)
    × ((alu slt 0x7fffffff 1 ≡ 1) ↔ (¬ (signed32 1 ≤ℤ signed32 0x7fffffff)))
    × ((alu slt 0x7fffffff 1 ≡ 0) ↔ (signed32 1 ≤ℤ signed32 0x7fffffff))
alu_signed_example = alu_signed 0x7fffffff 1 (omega arith) (omega arith)

digit-alu_example :
    (digit 30 (alu and 0x8000ffff 3) ≡ min (digit 30 0x8000ffff) (digit 30 3))
    × (digit 30 (alu or 0x8000ffff 3) ≡ max (digit 30 0x8000ffff) (digit 30 3))
    × (digit 30 (alu xor 0x8000ffff 3) ≡ differ (digit 30 0x8000ffff) (digit 30 3))
    × (digit 30 (alu sll 0x8000ffff 3)
        ≡ (if ltb 30 (3 % 32) then 0 else digit (30 - 3 % 32) 0x8000ffff))
    × (digit 30 (alu srl 0x8000ffff 3)
        ≡ (if ltb (30 + 3 % 32) 32 then digit (30 + 3 % 32) 0x8000ffff else 0))
    × (digit 30 (alu sra 0x8000ffff 3) ≡ digit (sra_source 30 (3 % 32)) 0x8000ffff)
digit-alu_example = digit-alu 30 0x8000ffff 3 (omega arith) (omega arith)

-- Register 7 holds 70, register 9 holds 90, and so on.
abbrev some_regs : RegFile
some_regs = record {
  address1 = 0;
  address2 = 0;
  address3 = 0;
  write_enable3 = false;
  write_data3 = 0;
  regs = λ j. 10 * j;
  read_data1 = 0;
  read_data2 = 0;
}

reg_file_tick_lem_example :
    (reg_file_tick (set_new_signals 7 9 7 true 5 some_regs) ≡ done (ticked 7 9 7 true 5 some_regs))
    × ((j : ℕ) → (ticked 7 9 7 true 5 some_regs).regs j ≡ written true 7 5 some_regs.regs j)
    × ((ticked 7 9 7 true 5 some_regs).read_data1 ≡ written true 7 5 some_regs.regs 7)
    × ((ticked 7 9 7 true 5 some_regs).read_data2 ≡ written true 7 5 some_regs.regs 9)
reg_file_tick_lem_example =
    reg_file_tick_lem 7 9 7 true 5 some_regs (omega arith) (omega arith) (omega arith)

abbrev pub empty_data : DataMem
empty_data = record {
  store_mode = 0;
  write_enable = false;
  address = 0;
  write_data = 0;
  memory = zeros;
  read_data = 0;
}

-- A half word of -2 at address 100; byte 102 is as before.
data_mem_get-store_example :
    (data_mem_tick (store_request 1 100 0xfffe empty_data) ≡ done (stored 1 100 0xfffe empty_data))
    × (data_mem_get (load_request 1 100 (stored 1 100 0xfffe empty_data))
        ≡ ok (loaded_value 1 0xfffe))
    × ((stored 1 100 0xfffe empty_data).memory 102 ≡ empty_data.memory 102)
unfolding access_size
data_mem_get-store_example =
    data_mem_get-store 1 100 0xfffe 102 empty_data (omega arith) (omega arith) (inr (omega arith))

abbrev pub two_words : List ℕ
two_words = 0x00500093 ∷ 0x0000006f ∷ []

abbrev pub two_loaded : InstrMem
two_loaded = record {
  address = 0;
  memory = copy_words 16 two_words zeros;
  start_of_section = 16;
  end_of_section = 24;
}

pub two_words_load : instr_mem_init two_words 16 ≡ ok two_loaded
unfolding instr_mem_init
two_words_load = refl

-- The repository's programs start at multiples of 4; any other start is refused.
start_aligned : instr_mem_init two_words 18 ≡ err alignment
unfolding instr_mem_init
start_aligned = refl

instr_mem_get-init_example :
    (instr_mem_get (record two_loaded { address = 16 + 4 * 1 }) ≡ ok (instruction two_words 1))
    × (is_pc_out_of_section (16 + 4 * 1) two_loaded ≡ false)
instr_mem_get-init_example =
    instr_mem_get-init two_words 16 two_loaded (omega arith) two_words_load 1 (omega arith)
