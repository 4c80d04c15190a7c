-- ===== src/Riscv/Bytes/Laws.antt =====
-- Reading back what was written, and what a write leaves alone.
use best_practices.Base.{ℕ, ◌+◌, ◌%◌, ◌^◌, ◌≤◌, ◌<◌, ◌≡◌, ◌≢◌, ◌⊎◌, arith}
use best_practices.Riscv.Bytes.{Bytes, write_byte, write_byte2, write_word, read_byte2, read_word}

-- Every cell holds a byte.
abbrev pub IsBytes : Bytes → Type 0
IsBytes m = (j : ℕ) → m j < 2 ^ 8

module _ (a v : ℕ) (m : Bytes) where
  -- A write of n bytes changes the cells from `a` to `a + n - 1` only.
  pub write_byte_frame : (j : ℕ) → j ≢ a → write_byte a v m j ≡ m j
  unfolding write_byte
  write_byte_frame j h = ground arith

  pub write_byte2_frame : (j : ℕ) → (j < a) ⊎ (a + 2 ≤ j) → write_byte2 a v m j ≡ m j
  unfolding write_byte2
  write_byte2_frame j h = ground arith

  pub write_word_frame : (j : ℕ) → (j < a) ⊎ (a + 4 ≤ j) → write_word a v m j ≡ m j
  unfolding write_word
  write_word_frame j h = ground arith

  pub write_byte_self : write_byte a v m a ≡ v % 2 ^ 8
  unfolding write_byte
  write_byte_self = ground arith

  pub read_byte2-write_byte2 : read_byte2 a (write_byte2 a v m) ≡ v % 2 ^ 16
  unfolding write_byte2 read_byte2
  read_byte2-write_byte2 = ground arith

  pub read_word-write_word : read_word a (write_word a v m) ≡ v % 2 ^ 32
  unfolding write_word read_word
  read_word-write_word = ground arith

  pub read_word-write_word_ne :
      (b : ℕ) → (b + 4 ≤ a) ⊎ (a + 4 ≤ b) → read_word b (write_word a v m) ≡ read_word b m
  unfolding read_word read_byte2
  read_word-write_word_ne b h = ground (
    arith,
    write_word_frame b,
    write_word_frame (b + 1),
    write_word_frame (b + 2),
    write_word_frame (b + 2 + 1),
  )

  pub write_byte-IsBytes : IsBytes m → IsBytes (write_byte a v m)
  unfolding write_byte
  write_byte-IsBytes h j = ground (arith, h j)

  pub write_byte2-IsBytes : IsBytes m → IsBytes (write_byte2 a v m)
  unfolding write_byte2
  write_byte2-IsBytes h j = ground (arith, h j)

  pub write_word-IsBytes : IsBytes m → IsBytes (write_word a v m)
  unfolding write_word
  write_word-IsBytes h j = ground (arith, h j)
