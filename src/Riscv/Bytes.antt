-- ===== src/Riscv/Bytes.antt =====
-- Byte-addressed memory, as riscv-pipelined-cpu-sim/modules/data_mem_unit.h and instr_mem_unit.h use
-- it through `reinterpret_cast`. The host is little-endian, as x86 is.
pub mod Laws
use best_practices.Base.{ℕ, ◌+◌, ◌*◌, ◌/◌, ◌^◌, ◌==◌, if◌then◌else◌, u8}

-- The byte at each address.
abbrev pub Bytes : Type 0
Bytes = ℕ → ℕ

-- `memory.fill(0)`, as `= {0}` does
abbrev pub zeros : Bytes
zeros _ = 0

unfoldable pub write_byte : ℕ → ℕ → Bytes → Bytes
write_byte a v m j = if j == a then u8 v else m j

unfoldable pub write_byte2 : ℕ → ℕ → Bytes → Bytes
unfolding write_byte
write_byte2 a v m = write_byte (a + 1) (v / 2 ^ 8) (write_byte a v m)

unfoldable pub write_word : ℕ → ℕ → Bytes → Bytes
unfolding write_byte2
write_word a v m = write_byte2 (a + 2) (v / 2 ^ 16) (write_byte2 a v m)

unfoldable pub read_byte2 : ℕ → Bytes → ℕ
read_byte2 a m = m a + 2 ^ 8 * m (a + 1)

unfoldable pub read_word : ℕ → Bytes → ℕ
unfolding read_byte2
read_word a m = read_byte2 a m + 2 ^ 16 * read_byte2 (a + 2) m
