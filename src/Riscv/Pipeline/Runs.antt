-- ===== src/Riscv/Pipeline/Runs.antt =====
-- The invariant over ticks and runs, from any program, data and start address.
use best_practices.Base.{
  ℕ, ◌+◌, ◌≡◌, ◌<◌, inl, inr, List, [], ◌∷◌, done, ◌>>=◌, arith, subst, sym, ◌*◌, ◌/◌,
}
use best_practices.Riscv.Exceptions.{ok, Result-cases, >>=-eq-ok}
use best_practices.Riscv.Register.{register_tick}
use best_practices.Riscv.Bytes.{Bytes, zeros, write_word}
use best_practices.Riscv.Bytes.Laws.{IsBytes, write_word-IsBytes}
use best_practices.Riscv.DataMem.{DataMem, within, fill, data_mem_init}
use best_practices.Riscv.InstrMem.{InstrMem, copy_words, instr_mem_init}
use best_practices.Riscv.InstrMem.Section.{instr_mem_init-inv}
use best_practices.Riscv.State.{Pipeline, reset}
use best_practices.Riscv.Stages.{do_memory, do_execute, do_decode, do_fetch}
use best_practices.Riscv.Hazard.{hazard_unit_tick}
use best_practices.Riscv.Pipeline.{
  tick, clock, clear_stalled, tick_state_registers, pipeline_init, set_program_counter,
}
use best_practices.Riscv.Pipeline.Invariant.{IsValid, ArraysFit, IsWord}
use best_practices.Riscv.Pipeline.Ports.{clock-PortsFit}
use best_practices.Riscv.Pipeline.Safety.{
  InRange, IsSafe, IsSafe->>=, do_memory-IsSafe, do_execute-IsSafe, do_decode-IsSafe,
  do_fetch-IsSafe, clear_stalled-IsValid, tick_state_registers-IsValid, hazard_unit_tick-IsValid,
}

tick_pc-IsValid :
    (p : Pipeline)
    → IsValid p
    → IsValid (record p { program_counter = register_tick p.program_counter })
unfolding register_tick
tick_pc-IsValid p v = ground arith

count_tick-IsValid : (p : Pipeline) (n : ℕ) → IsValid p → IsValid (record p { ticks_counter = n })
count_tick-IsValid p n v = ground arith

clock-IsValid : (p : Pipeline) → IsValid p → IsValid (clock p)
unfolding clock
clock-IsValid p v = count_tick-IsValid _ _ (
    hazard_unit_tick-IsValid _
      (tick_pc-IsValid _ (tick_state_registers-IsValid _ (clear_stalled-IsValid p v))))

clock-ArraysFit : (p : Pipeline) → ArraysFit p → ArraysFit (clock p)
unfolding clock clear_stalled tick_state_registers hazard_unit_tick
clock-ArraysFit p f = record {
  regs = λ j. ground (arith, f.regs j);
  values = λ j. ground (arith, f.values j);
  instrs = λ j. ground (arith, f.instrs j);
}

-- A tick of a processor whose members are in range leaves them in range, whether it ends or throws,
-- and throws neither the exception of `regs.at` nor that of the three-way multiplexer.
pub tick-IsSafe : (p : Pipeline) → InRange p → IsSafe (tick p)
unfolding tick
tick-IsSafe p h =
    IsSafe->>= (do_memory p >>= do_execute >>= do_decode >>= do_fetch) _
      (IsSafe->>= (do_memory p >>= do_execute >>= do_decode) do_fetch
        (IsSafe->>= (do_memory p >>= do_execute) do_decode
          (IsSafe->>= (do_memory p) do_execute (do_memory-IsSafe p h) do_execute-IsSafe)
          do_decode-IsSafe)
        do_fetch-IsSafe)
      λ q k. (clock-IsValid q k.0, clock-ArraysFit q k.1, clock-PortsFit q k.2)

copy_words-IsBytes : (a : ℕ) (ws : List ℕ) (m : Bytes) → IsBytes m → IsBytes (copy_words a ws m)
unfolding copy_words
copy_words-IsBytes a [] m h = h
copy_words-IsBytes a (w ∷ ws) m h =
    copy_words-IsBytes (a + 4) ws (write_word a w m) (write_word-IsBytes a w m h)

fill-IsBytes :
    (entries : List (ℕ × ℕ)) (m m' : Bytes) → IsBytes m → fill entries m ≡ ok m' → IsBytes m'
unfolding fill
fill-IsBytes [] m m' h e = subst IsBytes (cc) h
fill-IsBytes ((k, v) ∷ entries) m m' h e = elim (Result-cases (within k 4 m)) [
  | inl (_, w) ↦ fill-IsBytes entries _ m' (write_word-IsBytes k v m h) (rw (w, fill) at e)
  | inr (_, w) ↦ absurd (ground (arith, w))
]

data_mem_init-IsBytes :
    (entries : List (ℕ × ℕ)) (d : DataMem) → data_mem_init entries ≡ ok d → IsBytes d.memory
unfolding data_mem_init
data_mem_init-IsBytes entries d e = elim (Result-cases (fill entries zeros)) [
  | inl (m, w) ↦
      subst IsBytes (ground (arith, w)) (fill-IsBytes entries zeros m (λ j. omega arith) w)
  | inr (_, w) ↦ absurd (ground (arith, w))
]

-- The words that the two memories begin with
instr_mem_init-IsWord :
    (ws : List ℕ) (start : ℕ) (i : InstrMem)
    → instr_mem_init ws start ≡ ok i
    → IsWord i.address × IsWord i.start_of_section × IsWord i.end_of_section
unfolding instr_mem_init
instr_mem_init-IsWord ws start i e = ground arith

data_mem_init-IsWord :
    (entries : List (ℕ × ℕ)) (d : DataMem)
    → data_mem_init entries ≡ ok d
    → IsWord d.address × IsWord d.write_data × IsWord d.read_data × (d.store_mode < 8)
unfolding data_mem_init
data_mem_init-IsWord entries d e = elim (Result-cases (fill entries zeros)) [
  | inl (m, w) ↦ ground (arith, w)
  | inr (_, w) ↦ absurd (ground (arith, w))
]

pipeline_init-InRange :
    (ws : List ℕ) (start : ℕ) (entries : List (ℕ × ℕ)) (p : Pipeline)
    → pipeline_init ws start entries ≡ ok p
    → InRange p
unfolding pipeline_init
pipeline_init-InRange ws start entries p e =
    let (i, ei, r) = >>=-eq-ok (instr_mem_init ws start) _ e in
    let (d, ed, q) = >>=-eq-ok (data_mem_init entries) _ r in
    let instrs =
      subst IsBytes (sym (instr_mem_init-inv ws start i ei).2)
        (copy_words-IsBytes (4 * (start / 4)) ws zeros (λ j. omega arith)) in
    let (address, first, last) = instr_mem_init-IsWord ws start i ei in
    let (at, written, read, mode) = data_mem_init-IsWord entries d ed in
    let same : reset i d ≡ p = cc in
    subst InRange same (
      omega arith,
      record {
        regs = λ j. omega arith;
        values = data_mem_init-IsBytes entries d ed;
        instrs = instrs;
      },
      ground arith,
    )

set_program_counter-InRange :
    (pc : ℕ) (p : Pipeline) → IsWord pc → InRange p → InRange (set_program_counter pc p)
unfolding set_program_counter register_tick
set_program_counter-InRange pc p h v = (
  ground (arith, v.0),
  record { regs = v.1.regs; values = v.1.values; instrs = v.1.instrs },
  ground (arith, v.2),
)

-- The processors that come up while a program runs: one to start with, and the one after each tick
-- that ends normally.
pub data Reaches : Pipeline → Pipeline → Type 0 where
  start : {p : Pipeline} → Reaches p p
  step : {p q r : Pipeline} → Reaches p q → tick q ≡ done r → Reaches p r

Reaches-InRange : {p q : Pipeline} → Reaches p q → InRange p → InRange q
Reaches-InRange start h = h
Reaches-InRange (step {p} {q} {r} before t) h =
    subst IsSafe t (tick-IsSafe q (Reaches-InRange before h))

-- Whatever instructions, data and start address a processor is built from, if the construction
-- succeeds and the program counter is then set to a word: in every processor that its ticks reach
-- the members are in range, and the next tick again leaves them in range and throws neither the
-- exception of `regs.at` nor that of the three-way multiplexer. In range means: register 0 holds 0; the
-- registers, the program counter, the displacement of a jump, the bounds of the instructions, and the
-- addresses, data and instructions that the memories, the register file, the bypass and the registers
-- between the stages hold are words; destinations and register numbers are below 32, opcode and funct7
-- below 128, funct3 and the modes of loads and stores below 8; the memories hold bytes; and at most
-- three instructions are left to be finished.
pub Reaches-IsSafe :
    (ws : List ℕ) (begin : ℕ) (entries : List (ℕ × ℕ)) (p q : Pipeline) (pc : ℕ)
    → pipeline_init ws begin entries ≡ ok p
    → IsWord pc
    → Reaches (set_program_counter pc p) q
    → InRange q × IsSafe (tick q)
Reaches-IsSafe ws begin entries p q pc e h r =
    let first = pipeline_init-InRange ws begin entries p e in
    let now = Reaches-InRange r (set_program_counter-InRange pc p h first) in
    (now, tick-IsSafe q now)
