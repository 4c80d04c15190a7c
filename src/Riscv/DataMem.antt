-- ===== src/Riscv/DataMem.antt =====
-- riscv-pipelined-cpu-sim/modules/data_mem_unit.h: the data memory.
pub mod Access
pub mod Range
use best_practices.Base.{
  ℕ, ◌+◌, ◌*◌, ◌%◌, Bool, false, ltb, leb, ◌==◌, if◌then◌else◌, List, [], ◌∷◌, Outcome, done, raise,
}
use best_practices.Riscv.Exceptions.{
  Exception, Result, ok, err, invalid_address, alignment, invalid_funct3, undefined,
}
use best_practices.Riscv.Extension.{sign_extend_from_byte, sign_extend_from_byte2}
use best_practices.Riscv.Bytes.{
  Bytes, zeros, write_byte, write_byte2, write_word, read_byte2, read_word,
}

-- `DataMemUnit`
pub record DataMem : Type 0 where
  pub store_mode : ℕ
  pub write_enable : Bool
  pub address : ℕ
  pub write_data : ℕ
  pub memory : Bytes
  pub read_data : ℕ

-- `capacity * sizeof(word_)`
abbrev pub data_bytes : ℕ
data_bytes = 4096 * 4

-- An access of `n` bytes at `a`, undefined where it leaves the array.
unfoldable pub within {ℓ} : {A : Type ℓ} → ℕ → ℕ → A → Result A
within a n v = if leb (a + n) data_bytes then ok v else err undefined

-- `DataMemUnit::loadValue`; the modes are those of `LoadExtensionMode`.
unfoldable pub load_value : DataMem → Result ℕ
unfolding within
load_value d =
    if d.store_mode == 0
    then within d.address 1 (sign_extend_from_byte (d.memory d.address))
    else if d.store_mode == 1
    then within d.address 2 (sign_extend_from_byte2 (read_byte2 d.address d.memory))
    else if d.store_mode == 2
    then within d.address 4 (read_word d.address d.memory)
    else if d.store_mode == 4
    then within d.address 1 (d.memory d.address)
    else if d.store_mode == 5
    then within d.address 2 (read_byte2 d.address d.memory)
    else err invalid_funct3

-- `DataMemUnit::storeValue`; the modes are those of `StoreMode`, and any other stores nothing.
unfoldable pub store_value : DataMem → Result Bytes
unfolding within
store_value d =
    if d.store_mode == 0
    then within d.address 1 (write_byte d.address d.write_data d.memory)
    else if d.store_mode == 1
    then within d.address 2 (write_byte2 d.address d.write_data d.memory)
    else if d.store_mode == 2
    then within d.address 4 (write_word d.address d.write_data d.memory)
    else ok d.memory

-- The two checks that `tick` and `getData` make. `sizeof(byte_)` is 1.
unfoldable pub check_address {ℓ} : {A : Type ℓ} → DataMem → Result A → Result A
check_address d k =
    if ltb data_bytes d.address
    then err invalid_address
    else if ltb 0 (d.address % 1)
    then err alignment
    else k

-- `DataMemUnit::getData`
unfoldable pub data_mem_get : DataMem → Result ℕ
unfolding check_address load_value
data_mem_get d = check_address d (load_value d)

-- `DataMemUnit::tick`
unfoldable pub data_mem_tick : DataMem → Outcome Exception DataMem
unfolding check_address store_value data_mem_get
data_mem_tick d =
    if d.write_enable
    then elim (check_address d (store_value d)) [
      | ok m ↦ done (record d { memory = m })
      | err e ↦ raise e d
    ]
    else elim (data_mem_get d) [ ok v ↦ done (record d { read_data = v }) | err e ↦ raise e d ]

-- The loop of the constructor from a map, over its entries in the order of iteration.
unfoldable pub fill : List (ℕ × ℕ) → Bytes → Result Bytes
unfolding within write_word
fill [] m = ok m
fill ((key, value) ∷ entries) m =
    let rest = fill entries (write_word key value m) in
    elim (within key 4 m) [ ok _ ↦ rest | err e ↦ err e ]

-- `DataMemUnit::DataMemUnit(data)`
unfoldable pub data_mem_init : List (ℕ × ℕ) → Result DataMem
unfolding fill
data_mem_init entries = elim (fill entries zeros) [
  | ok m ↦ ok (record {
    store_mode = 0;
    write_enable = false;
    address = 0;
    write_data = 0;
    memory = m;
    read_data = 0;
  })
  | err e ↦ err e
]
