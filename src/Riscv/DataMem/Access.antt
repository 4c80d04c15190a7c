-- ===== src/Riscv/DataMem/Access.antt =====
-- Loads and stores through the data memory unit.
use best_practices.Base.{
  ℕ, zero, suc, ◌+◌, ◌%◌, ◌^◌, ◌≤◌, ◌<◌, ◌≡◌, ◌⊎◌, true, false, ◌||◌, ◌==◌, if◌then◌else◌, done,
  object, arith,
}
use best_practices.Riscv.Exceptions.{ok}
use best_practices.Riscv.Extension.{sign_extend_from_byte, sign_extend_from_byte2}
use best_practices.Riscv.Bytes.Laws.{
  write_byte_frame, write_byte2_frame, write_word_frame, write_byte_self, read_byte2-write_byte2,
  read_word-write_word,
}
use best_practices.Riscv.DataMem.{DataMem, data_bytes, data_mem_get, data_mem_tick}

-- The bytes that an access in a mode touches; 0 for a mode that is none.
unfoldable pub access_size : ℕ → ℕ
access_size mode =
    if mode == 0 || mode == 4
    then 1
    else if mode == 1 || mode == 5
    then 2
    else if mode == 2
    then 4
    else 0

-- A request to store `v` at `a`.
abbrev pub store_request : ℕ → ℕ → ℕ → DataMem → DataMem
store_request mode a v d = record d {
  store_mode = mode;
  write_enable = true;
  address = a;
  write_data = v;
}

-- A request to load from `a`.
abbrev pub load_request : ℕ → ℕ → DataMem → DataMem
load_request mode a d = record d { store_mode = mode; write_enable = false; address = a }

-- What a load returns after a store of `v` in the same mode.
abbrev pub loaded_value : ℕ → ℕ → ℕ
loaded_value mode v =
    if mode == 0
    then sign_extend_from_byte (v % 2 ^ 8)
    else if mode == 1
    then sign_extend_from_byte2 (v % 2 ^ 16)
    else v % 2 ^ 32

abbrev pub stored : ℕ → ℕ → ℕ → DataMem → DataMem
stored mode a v d = object (data_mem_tick (store_request mode a v d))

-- A store of a byte, half word or word that lies inside the memory throws nothing; a load in the
-- same mode then gives the low bits of the value that was stored, sign-extended for a byte or half
-- word; and a byte outside the access is as before.
pub data_mem_get-store :
    (mode a v j : ℕ) (d : DataMem)
    → mode < 3
    → a + access_size mode ≤ data_bytes
    → (j < a) ⊎ (a + access_size mode ≤ j)
    → (data_mem_tick (store_request mode a v d) ≡ done (stored mode a v d))
      × (data_mem_get (load_request mode a (stored mode a v d)) ≡ ok (loaded_value mode v))
      × ((stored mode a v d).memory j ≡ d.memory j)
unfolding data_mem_tick data_mem_get access_size
data_mem_get-store zero a v j d h f o = (
  ground arith,
  ground (arith, write_byte_self a v d.memory),
  ground (arith, write_byte_frame a v d.memory j),
)
data_mem_get-store (suc zero) a v j d h f o = (
  ground arith,
  ground (arith, read_byte2-write_byte2 a v d.memory),
  ground (arith, write_byte2_frame a v d.memory j),
)
data_mem_get-store (suc (suc zero)) a v j d h f o = (
  ground arith,
  ground (arith, read_word-write_word a v d.memory),
  ground (arith, write_word_frame a v d.memory j),
)
data_mem_get-store (suc (suc (suc m))) a v j d h f o = absurd (omega arith)
