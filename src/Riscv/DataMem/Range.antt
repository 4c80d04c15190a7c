-- ===== src/Riscv/DataMem/Range.antt =====
-- The memories hold bytes and return words.
use best_practices.Base.{ℕ, ◌+◌, ◌^◌, ◌<◌, ◌≡◌, object, arith}
use best_practices.Base.Bits.{bit_or-lt}
use best_practices.Riscv.Exceptions.{ok}
use best_practices.Riscv.Extension.{sign_extend_from_byte, sign_extend_from_byte2}
use best_practices.Riscv.Bytes.{Bytes, read_byte2, read_word}
use best_practices.Riscv.Bytes.Laws.{
  IsBytes, write_byte-IsBytes, write_byte2-IsBytes, write_word-IsBytes,
}
use best_practices.Riscv.InstrMem.{InstrMem, instr_mem_get}
use best_practices.Riscv.DataMem.{DataMem, data_mem_get, data_mem_tick}

sign_extend-lt :
    (v : ℕ)
    → (v < 2 ^ 8 → sign_extend_from_byte v < 2 ^ 32)
      × (v < 2 ^ 16 → sign_extend_from_byte2 v < 2 ^ 32)
unfolding sign_extend_from_byte sign_extend_from_byte2
sign_extend-lt v =
    (λ h. ground (arith, bit_or-lt 32 v 0xffffff00), λ h. ground (arith, bit_or-lt 32 v 0xffff0000))

read-lt : (m : Bytes) (a : ℕ) → IsBytes m → (read_byte2 a m < 2 ^ 16) × (read_word a m < 2 ^ 32)
unfolding read_byte2 read_word
read-lt m a h =
    (omega (arith, h a, h (a + 1)), omega (arith, h a, h (a + 1), h (a + 2), h (a + 2 + 1)))

pub data_mem_get-lt : (d : DataMem) (v : ℕ) → IsBytes d.memory → data_mem_get d ≡ ok v → v < 2 ^ 32
unfolding data_mem_get
data_mem_get-lt d v h e = ground (
  arith,
  h d.address,
  sign_extend-lt (d.memory d.address),
  sign_extend-lt (read_byte2 d.address d.memory),
  read-lt d.memory d.address h,
)

pub data_mem_tick-IsBytes :
    (d : DataMem) → IsBytes d.memory → IsBytes (object (data_mem_tick d)).memory
unfolding data_mem_tick
data_mem_tick-IsBytes d h j = ground (
  arith,
  h j,
  write_byte-IsBytes d.address d.write_data d.memory h j,
  write_byte2-IsBytes d.address d.write_data d.memory h j,
  write_word-IsBytes d.address d.write_data d.memory h j,
)

pub instr_mem_get-lt :
    (i : InstrMem) (v : ℕ) → IsBytes i.memory → instr_mem_get i ≡ ok v → v < 2 ^ 32
unfolding instr_mem_get
instr_mem_get-lt i v h e = ground (arith, read-lt i.memory i.address h)
