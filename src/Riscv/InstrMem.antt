-- ===== src/Riscv/InstrMem.antt =====
-- riscv-pipelined-cpu-sim/modules/instr_mem_unit.h: the instruction memory.
pub mod Section
use best_practices.Base.{
  ℕ, suc, ◌+◌, ◌*◌, ◌/◌, ◌%◌, Bool, ◌||◌, ltb, leb, if◌then◌else◌, List, [], ◌∷◌, u32,
}
use best_practices.Riscv.Exceptions.{Result, ok, err, alignment, undefined}
use best_practices.Riscv.Bytes.{Bytes, zeros, write_word, read_word}

-- `InstrMemUnit`
pub record InstrMem : Type 0 where
  pub address : ℕ
  pub memory : Bytes
  pub start_of_section : ℕ
  pub end_of_section : ℕ

-- `capacity * sizeof(word_)`
abbrev pub instr_bytes : ℕ
instr_bytes = 1024 * 4

-- `instructions.size()`
abbrev pub size : List ℕ → ℕ
size [] = 0
size (w ∷ ws) = suc (size ws)

-- `std::copy` of the instructions to the words from byte address `a` on
unfoldable pub copy_words : ℕ → List ℕ → Bytes → Bytes
unfolding write_word
copy_words a [] m = m
copy_words a (w ∷ ws) m = copy_words (a + 4) ws (write_word a w m)

-- `InstrMemUnit::InstrMemUnit(instructions, start_address)`
unfoldable pub instr_mem_init : List ℕ → ℕ → Result InstrMem
unfolding copy_words
instr_mem_init instructions start =
    if ltb 0 (start % 4)
    then err alignment
    else if leb (start / 4 + size instructions) 1024
    then ok (record {
      address = 0;
      memory = copy_words (4 * (start / 4)) instructions zeros;
      start_of_section = start;
      end_of_section = u32 (start + size instructions * 4);
    })
    else err undefined

-- `InstrMemUnit::getData` checks nothing.
unfoldable pub instr_mem_get : InstrMem → Result ℕ
instr_mem_get i =
    if leb (i.address + 4) instr_bytes then ok (read_word i.address i.memory) else err undefined

-- `InstrMemUnit::isPcOutOfSection`
unfoldable pub is_pc_out_of_section : ℕ → InstrMem → Bool
is_pc_out_of_section pc i = ltb pc i.start_of_section || leb i.end_of_section pc
