-- ===== src/Riscv/InstrMem/Section.antt =====
-- The instruction memory returns the instructions that it was given.
use best_practices.Base.{
  ℕ, zero, suc, ◌+◌, ◌*◌, ◌/◌, ◌%◌, ◌^◌, ◌≤◌, ◌<◌, ◌≡◌, refl, ◌∙◌, inl, true, false, List, [], ◌∷◌,
  ap, arith,
}
use best_practices.Riscv.Exceptions.{ok}
use best_practices.Riscv.Bytes.{Bytes, zeros, write_word, read_word}
use best_practices.Riscv.Bytes.Laws.{read_word-write_word, read_word-write_word_ne}
use best_practices.Riscv.InstrMem.{
  InstrMem, size, copy_words, instr_mem_init, instr_mem_get, is_pc_out_of_section,
}

-- `instructions[k]`, and 0 past the end
abbrev pub instruction : List ℕ → ℕ → ℕ
instruction [] k = 0
instruction (w ∷ ws) zero = w
instruction (w ∷ ws) (suc k) = instruction ws k

-- Every instruction is a word.
abbrev pub Words : List ℕ → Type 0
Words [] = Unit {0}
Words (w ∷ ws) = (w < 2 ^ 32) × Words ws

-- What lies below the copied words stays.
read_word-copy_words_below :
    (a b : ℕ) (ws : List ℕ) (m : Bytes)
    → b + 4 ≤ a
    → read_word b (copy_words a ws m) ≡ read_word b m
unfolding copy_words
read_word-copy_words_below a b [] m h = refl
read_word-copy_words_below a b (w ∷ ws) m h =
    read_word-copy_words_below (a + 4) b ws (write_word a w m) (omega arith)
    ∙ read_word-write_word_ne a w m b (inl h)

read_word-copy_words :
    (a k : ℕ) (ws : List ℕ) (m : Bytes)
    → Words ws
    → k < size ws
    → read_word (a + 4 * k) (copy_words a ws m) ≡ instruction ws k
unfolding copy_words
read_word-copy_words a k [] m h lt = absurd (omega arith)
read_word-copy_words a zero (w ∷ ws) m h lt =
    ap (λ (t : ℕ). read_word t (copy_words (a + 4) ws (write_word a w m))) (omega arith)
    ∙ read_word-copy_words_below (a + 4) a ws (write_word a w m) (omega arith)
    ∙ read_word-write_word a w m
    ∙ omega arith
read_word-copy_words a (suc k) (w ∷ ws) m h lt =
    ap (λ (t : ℕ). read_word t (copy_words (a + 4) ws (write_word a w m))) (omega arith)
    ∙ read_word-copy_words (a + 4) k ws (write_word a w m) h.1 (omega arith)

-- What a successful construction has checked, and the memory that it makes.
pub instr_mem_init-inv :
    (ws : List ℕ) (start : ℕ) (i : InstrMem)
    → instr_mem_init ws start ≡ ok i
    → (start % 4 ≡ 0)
      × (start / 4 + size ws ≤ 1024)
      × (i.memory ≡ copy_words (4 * (start / 4)) ws zeros)
      × (i.start_of_section ≡ start)
      × (i.end_of_section ≡ (start + size ws * 4) % 2 ^ 32)
unfolding instr_mem_init
instr_mem_init-inv ws start i e =
    (ground arith, ground arith, ground arith, ground arith, ground arith)

fetched :
    (ws : List ℕ) (start : ℕ) (i : InstrMem) (k : ℕ)
    → Words ws
    → instr_mem_init ws start ≡ ok i
    → k < size ws
    → read_word (start + 4 * k) i.memory ≡ instruction ws k
fetched ws start i k words loaded h =
    let (aligned, room, memory, from, until) = instr_mem_init-inv ws start i loaded in
    ap (read_word (start + 4 * k)) memory
    ∙ ap (λ (t : ℕ). read_word t (copy_words (4 * (start / 4)) ws zeros)) (omega arith)
    ∙ read_word-copy_words (4 * (start / 4)) k ws zeros words h

module _ (ws : List ℕ) (start : ℕ) (i : InstrMem) (words : Words ws)
    (loaded : instr_mem_init ws start ≡ ok i) where
  -- Of an instruction memory that was built from a list of words, the word at the address of the
  -- k-th instruction is that instruction, and the address lies inside the section.
  pub instr_mem_get-init :
      (k : ℕ)
      → k < size ws
      → (instr_mem_get (record i { address = start + 4 * k }) ≡ ok (instruction ws k))
        × (is_pc_out_of_section (start + 4 * k) i ≡ false)
  unfolding instr_mem_get is_pc_out_of_section
  instr_mem_get-init k h = (
    ground (arith, fetched ws start i k words loaded h, instr_mem_init-inv ws start i loaded),
    ground (arith, instr_mem_init-inv ws start i loaded),
  )

  -- The first address behind the instructions is out of the section.
  pub is_pc_out_of_section-init : is_pc_out_of_section (start + 4 * size ws) i ≡ true
  unfolding is_pc_out_of_section
  is_pc_out_of_section-init = ground (arith, instr_mem_init-inv ws start i loaded)
