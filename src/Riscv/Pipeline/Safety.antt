-- ===== src/Riscv/Pipeline/Safety.antt =====
-- A tick and a run keep the members in range, and never index the register file or a multiplexer
-- out of range.
use best_practices.Base.{◌≡◌, refl, Outcome, done, raise, ◌>>=◌, object, arith}
use best_practices.Riscv.Exceptions.{Exception}
use best_practices.Riscv.Register.{register_tick, register_clear}
use best_practices.Riscv.State.{Pipeline}
use best_practices.Riscv.Stages.{
  access_memory, pass_to_write_back, do_memory, do_execute, read_registers, decode_signals,
  do_decode, leave_section, advance_pc, fetch_word, count_down, do_fetch,
}
use best_practices.Riscv.Hazard.{hazard_unit_tick}
use best_practices.Riscv.Pipeline.{clear_stalled, tick_state_registers}
use best_practices.Riscv.Pipeline.Invariant.{IsValid, ArraysFit, PortsFit}
use best_practices.Riscv.Pipeline.Preserved.{
  access_memory-IsValid, pass_to_write_back-IsValid, do_execute-IsValid, read_registers-IsValid,
  decode_signals-IsValid, leave_section-IsValid, advance_pc-IsValid, fetch_word-IsValid,
  count_down-IsValid, pass_to_execute-IsValid,
}
use best_practices.Riscv.Pipeline.Arrays.{
  access_memory-ArraysFit, pass_to_write_back-ArraysFit, do_execute-ArraysFit,
  read_registers-ArraysFit, decode_signals-ArraysFit, leave_section-ArraysFit, advance_pc-ArraysFit,
  fetch_word-ArraysFit, count_down-ArraysFit, pass_to_execute-ArraysFit,
}
use best_practices.Riscv.Pipeline.Ports.{
  access_memory-PortsFit, pass_to_write_back-PortsFit, do_execute-PortsFit, read_registers-PortsFit,
  decode_signals-PortsFit, leave_section-PortsFit, advance_pc-PortsFit, fetch_word-PortsFit,
  count_down-PortsFit, pass_to_execute-PortsFit,
}
use best_practices.Riscv.Pipeline.Raises.{
  IsExpected, access_memory-IsExpected, pass_to_write_back-IsExpected, do_execute-IsExpected,
  read_registers-IsExpected, decode_signals-IsExpected, leave_section-IsExpected,
  advance_pc-IsExpected, fetch_word-IsExpected, count_down-IsExpected,
}

abbrev pub InRange : Pipeline → Type 0
InRange p = IsValid p × ArraysFit p × PortsFit p

-- What a stage leaves behind.
abbrev pub IsSafe : Outcome Exception Pipeline → Type 0
IsSafe (done q) = InRange q
IsSafe (raise e q) = InRange q × IsExpected e

IsSafe-object :
    (m : Outcome Exception Pipeline)
    → InRange (object m)
    → ((e : Exception) (q : Pipeline) → m ≡ raise e q → IsExpected e)
    → IsSafe m
IsSafe-object (done q) h k = h
IsSafe-object (raise e q) h k = (h, k e q refl)

pub IsSafe->>= :
    (m : Outcome Exception Pipeline) (f : Pipeline → Outcome Exception Pipeline)
    → IsSafe m
    → ((q : Pipeline) → InRange q → IsSafe (f q))
    → IsSafe (m >>= f)
IsSafe->>= (done q) f h k = k q h
IsSafe->>= (raise e q) f h k = h

-- Each stage, from the three facts about it.
module _ (p : Pipeline) (h : InRange p) where
  access_memory-IsSafe : IsSafe (access_memory p)
  access_memory-IsSafe =
      IsSafe-object (access_memory p)
        (
          access_memory-IsValid p h.0,
          access_memory-ArraysFit p h.1,
          access_memory-PortsFit p h.0 h.1 h.2,
        )
        (λ e q. access_memory-IsExpected p q e)

  pass_to_write_back-IsSafe : IsSafe (pass_to_write_back p)
  pass_to_write_back-IsSafe =
      IsSafe-object (pass_to_write_back p)
        (
          pass_to_write_back-IsValid p h.0 h.1,
          pass_to_write_back-ArraysFit p h.1,
          pass_to_write_back-PortsFit p h.2,
        )
        (λ e q. pass_to_write_back-IsExpected p q e)

  pub do_execute-IsSafe : IsSafe (do_execute p)
  do_execute-IsSafe =
      IsSafe-object (do_execute p)
        (do_execute-IsValid p h.0, do_execute-ArraysFit p h.0 h.1, do_execute-PortsFit p h.0 h.2)
        (λ e q. do_execute-IsExpected p q e h.0)

  read_registers-IsSafe : IsSafe (read_registers p)
  read_registers-IsSafe =
      IsSafe-object (read_registers p)
        (
          read_registers-IsValid p h.0 h.1,
          read_registers-ArraysFit p h.0 h.1,
          read_registers-PortsFit p h.0 h.2,
        )
        (λ e q. read_registers-IsExpected p q e h.0)

  decode_signals-IsSafe : IsSafe (decode_signals p)
  decode_signals-IsSafe =
      IsSafe-object (decode_signals p)
        (
          decode_signals-IsValid p h.0,
          decode_signals-ArraysFit p h.1,
          decode_signals-PortsFit p h.2,
        )
        (λ e q. decode_signals-IsExpected p q e)

  leave_section-IsSafe : IsSafe (leave_section p)
  leave_section-IsSafe =
      IsSafe-object (leave_section p)
        (leave_section-IsValid p h.0, leave_section-ArraysFit p h.1, leave_section-PortsFit p h.2)
        (λ e q. leave_section-IsExpected p q e)

  advance_pc-IsSafe : IsSafe (advance_pc p)
  advance_pc-IsSafe =
      IsSafe-object (advance_pc p)
        (advance_pc-IsValid p h.0, advance_pc-ArraysFit p h.1, advance_pc-PortsFit p h.0 h.2)
        (λ e q. advance_pc-IsExpected p q e)

  fetch_word-IsSafe : IsSafe (fetch_word p)
  fetch_word-IsSafe =
      IsSafe-object (fetch_word p)
        (fetch_word-IsValid p h.0 h.1, fetch_word-ArraysFit p h.1, fetch_word-PortsFit p h.2)
        (λ e q. fetch_word-IsExpected p q e)

  count_down-IsSafe : IsSafe (count_down p)
  count_down-IsSafe =
      IsSafe-object (count_down p)
        (count_down-IsValid p h.0, count_down-ArraysFit p h.1, count_down-PortsFit p h.2)
        (λ e q. count_down-IsExpected p q e)

pub do_memory-IsSafe : (p : Pipeline) → InRange p → IsSafe (do_memory p)
unfolding do_memory
do_memory-IsSafe p h =
    IsSafe->>= (access_memory p) pass_to_write_back (access_memory-IsSafe p h)
      pass_to_write_back-IsSafe

pub do_decode-IsSafe : (p : Pipeline) → InRange p → IsSafe (do_decode p)
unfolding do_decode
do_decode-IsSafe p h = IsSafe->>= (read_registers p) _ (read_registers-IsSafe p h) λ q k.
    IsSafe->>= (decode_signals q) _ (decode_signals-IsSafe q k) λ r l. (
      pass_to_execute-IsValid r l.0,
      pass_to_execute-ArraysFit r l.1,
      pass_to_execute-PortsFit r l.2,
    )

pub do_fetch-IsSafe : (p : Pipeline) → InRange p → IsSafe (do_fetch p)
unfolding do_fetch
do_fetch-IsSafe p h =
    IsSafe->>= (leave_section p >>= advance_pc >>= fetch_word) count_down
      (IsSafe->>= (leave_section p >>= advance_pc) fetch_word
        (IsSafe->>= (leave_section p) advance_pc (leave_section-IsSafe p h) advance_pc-IsSafe)
        fetch_word-IsSafe)
      count_down-IsSafe

pub clear_stalled-IsValid : (p : Pipeline) → IsValid p → IsValid (clear_stalled p)
unfolding clear_stalled register_clear
clear_stalled-IsValid p v = ground arith

pub tick_state_registers-IsValid : (p : Pipeline) → IsValid p → IsValid (tick_state_registers p)
unfolding tick_state_registers register_tick
tick_state_registers-IsValid p v = ground arith

pub hazard_unit_tick-IsValid : (p : Pipeline) → IsValid p → IsValid (hazard_unit_tick p)
unfolding hazard_unit_tick register_clear
hazard_unit_tick-IsValid p v = ground arith
