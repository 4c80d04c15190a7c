-- ===== src/Riscv/Pipeline/Drain.antt =====
-- The end of `Pipeline::run`: once `doFetch` has set `last_instructions_flag`, the loop stops.
use best_practices.Base.{
  ℕ, zero, suc, ◌-◌, ◌<◌, ◌≡◌, refl, inl, inr, true, if◌then◌else◌, Outcome, done, raise, ◌>>=◌,
  object, object->>=, object-on_member, >>=-eq-done, Option, some, arith, ap, subst, ◌∙◌,
  Outcome-cases,
}
use best_practices.Riscv.Exceptions.{Exception, is_logic_error}
use best_practices.Riscv.State.{Pipeline}
use best_practices.Riscv.Stages.{
  access_memory, pass_to_write_back, do_memory, execute_with, do_execute, read_registers,
  decode_signals, pass_to_execute, do_decode, leave_section, advance_pc, fetch_word, count_down,
  do_fetch,
}
use best_practices.Riscv.Hazard.{hazard_unit_tick}
use best_practices.Riscv.Pipeline.{tick, clock, clear_stalled, tick_state_registers, run}

-- The program counter has left the instructions, and `n` further ticks are allowed.
abbrev Drains : ℕ → Pipeline → Type 0
Drains n p = (p.last_instructions_flag ≡ true) × (p.last_instructions_counter ≡ n)

module _ {n : ℕ} where
  access_memory-Drains : (p : Pipeline) → Drains n p → Drains n (object (access_memory p))
  unfolding access_memory
  access_memory-Drains p h = ground arith

  pass_to_write_back-Drains : (p : Pipeline) → Drains n p → Drains n (object (pass_to_write_back p))
  unfolding pass_to_write_back
  pass_to_write_back-Drains p h = ground arith

  do_memory-Drains : (p : Pipeline) → Drains n p → Drains n (object (do_memory p))
  unfolding do_memory
  do_memory-Drains p h =
      object->>= (Drains n) (access_memory p) pass_to_write_back (access_memory-Drains p h)
        pass_to_write_back-Drains

  do_execute-Drains : (p : Pipeline) → Drains n p → Drains n (object (do_execute p))
  unfolding do_execute execute_with
  do_execute-Drains p h = ground arith

  read_registers-Drains : (p : Pipeline) → Drains n p → Drains n (object (read_registers p))
  unfolding read_registers
  read_registers-Drains p h = rw object-on_member h

  decode_signals-Drains : (p : Pipeline) → Drains n p → Drains n (object (decode_signals p))
  unfolding decode_signals
  decode_signals-Drains p h = rw object-on_member h

  do_decode-Drains : (p : Pipeline) → Drains n p → Drains n (object (do_decode p))
  unfolding do_decode pass_to_execute
  do_decode-Drains p h =
      object->>= (Drains n) (read_registers p) _ (read_registers-Drains p h)
        λ q k. object->>= (Drains n) (decode_signals q) _ (decode_signals-Drains q k) λ r l. l

  leave_section-Drains : (p : Pipeline) → Drains n p → Drains n (object (leave_section p))
  unfolding leave_section
  leave_section-Drains p h = ground arith

  advance_pc-Drains : (p : Pipeline) → Drains n p → Drains n (object (advance_pc p))
  unfolding advance_pc
  advance_pc-Drains p h = ground arith

  fetch_word-Drains : (p : Pipeline) → Drains n p → Drains n (object (fetch_word p))
  unfolding fetch_word
  fetch_word-Drains p h = ground arith

  clock-Drains : (p : Pipeline) → Drains n p → Drains n (clock p)
  unfolding clock clear_stalled tick_state_registers hazard_unit_tick
  clock-Drains p h = ground arith

  -- A fetch that ends normally has used up one of the ticks.
  count_down-Drains :
      (p q : Pipeline) → Drains n p → count_down p ≡ done q → (0 < n) × Drains (n - 1) q
  unfolding count_down
  count_down-Drains p q h e = ground arith

  do_fetch-Drains : (p q : Pipeline) → Drains n p → do_fetch p ≡ done q → (0 < n) × Drains (n - 1) q
  unfolding do_fetch
  do_fetch-Drains p q h e =
      let front = leave_section p >>= advance_pc >>= fetch_word in
      let kept =
        object->>= (Drains n) (leave_section p >>= advance_pc) fetch_word
          (object->>= (Drains n) (leave_section p) advance_pc (leave_section-Drains p h)
            advance_pc-Drains)
          fetch_word-Drains in
      let (s, d, r) = >>=-eq-done front count_down e in
      count_down-Drains s q (subst (λ o. Drains n (object o)) d kept) r

tick-Drains : {n : ℕ} (p q : Pipeline) → Drains n p → tick p ≡ done q → (0 < n) × Drains (n - 1) q
unfolding tick
tick-Drains {n} p q h e =
    let before = do_memory p >>= do_execute >>= do_decode in
    let kept =
      object->>= (Drains n) (do_memory p >>= do_execute) do_decode
        (object->>= (Drains n) (do_memory p) do_execute (do_memory-Drains p h) do_execute-Drains)
        do_decode-Drains in
    let (t, d, r) = >>=-eq-done (before >>= do_fetch) _ e in
    let (s, b, f) = >>=-eq-done before do_fetch d in
    let (more, rest) = do_fetch-Drains s t (subst (λ o. Drains n (object o)) b kept) f in
    let same : clock t ≡ q = cc in (more, subst (Drains (n - 1)) same (clock-Drains t rest))

-- What the loop of `run` gives once a tick has given `o`.
continued : ℕ → Outcome Exception Pipeline → Option (Outcome Exception Pipeline)
continued fuel (done q) = run fuel q
continued fuel (raise e q) = some (if is_logic_error e then done q else raise e q)

run-tick : (fuel : ℕ) (p : Pipeline) → run (suc fuel) p ≡ continued fuel (tick p)
unfolding run continued
run-tick fuel p = each (tick p)
  where
    each :
        (o : Outcome Exception Pipeline)
        → elim o [
          | done q ↦ run fuel q
          | raise e q ↦ some (if is_logic_error e then done q else raise e q)
        ]
          ≡ continued fuel o
    each (done q) = refl
    each (raise e q) = refl

drained :
    (fuel n : ℕ) (p : Pipeline)
    → Drains n p
    → n < fuel
    → (o : Outcome Exception Pipeline) × (run fuel p ≡ some o)
unfolding continued
drained zero n p h lt = absurd (omega (arith, lt))
drained (suc fuel) n p h lt = elim (Outcome-cases (tick p)) [
  | inl (q, e) ↦
      let (more, rest) = tick-Drains p q h e in
      let (o, r) = drained fuel (n - 1) q rest (omega (arith, more, lt)) in
      (o, run-tick fuel p ∙ ap (continued fuel) e ∙ r)
  | inr (x, q, e) ↦ (_, run-tick fuel p ∙ ap (continued fuel) e)
]

-- The loop of `run` terminates once the program counter has left the instructions: from any
-- processor with `last_instructions_flag` set, more fuel than `last_instructions_counter` always
-- gives an outcome, whatever the memories, the registers and the instructions on their way hold.
pub run_terminates :
    (fuel : ℕ) (p : Pipeline)
    → p.last_instructions_flag ≡ true
    → p.last_instructions_counter < fuel
    → (o : Outcome Exception Pipeline) × (run fuel p ≡ some o)
run_terminates fuel p flag lt = drained fuel p.last_instructions_counter p (flag, refl) lt
