-- ===== src/Riscv/Stages/Memory.antt =====
-- What `doMemory` of riscv-pipelined-cpu-sim/pipeline/pipeline.cpp hands to `doExecute`.
use best_practices.Base.{
  ◌≡◌, inl, inr, Bool, true, false, if◌then◌else◌, done, raise, on_member, arith, Outcome,
  >>=-eq-done, subst, ap, ◌∙◌, refl, not, ◌||◌,
}
use best_practices.Riscv.Exceptions.{Exception, Result-cases}
use best_practices.Riscv.Gates.{multiplexer2}
use best_practices.Riscv.DataMem.{DataMem, data_mem_get, data_mem_tick}
use best_practices.Riscv.State.{Pipeline, MemoryState}
use best_practices.Riscv.Stages.{access_memory, pass_to_write_back, do_memory}

-- What `doMemory` leaves behind of the values that the operands are chosen from
pub record Passes (p q : Pipeline) : Type 0 where
  pub bp_mem : q.bp_mem ≡ p.memory_register.current.alu_res
  pub result :
      p.memory_register.current.mem_to_reg ≡ true
      → q.write_back_register.next.wb_d ≡ p.memory_register.current.alu_res
  pub write_back : q.write_back_register.current ≡ p.write_back_register.current
  pub execute : q.execute_register.current ≡ p.execute_register.current
  pub rs1 : q.hu_rs1 ≡ p.hu_rs1
  pub rs2 : q.hu_rs2 ≡ p.hu_rs2

-- The data memory is all that its access changes.
abbrev IsSameBut : Pipeline → Pipeline → Type 0
IsSameBut p q = q ≡ record p { data_mem_unit = q.data_mem_unit }

on_member-IsSameBut :
    (p q : Pipeline) (m : Outcome Exception DataMem)
    → on_member m (λ d'. record p { data_mem_unit = d' }) ≡ done q
    → IsSameBut p q
on_member-IsSameBut p q (done d) e =
    let same : record p { data_mem_unit = d } ≡ q = cc in subst (IsSameBut p) same refl
on_member-IsSameBut p q (raise x d) e = absurd (cc)

access_memory-IsSameBut : (p q : Pipeline) → access_memory p ≡ done q → IsSameBut p q
unfolding access_memory
access_memory-IsSameBut p q e = either (not m.mem_to_reg || m.mem_we) e
  where
    m : MemoryState
    m = p.memory_register.current

    d : DataMem
    d = record p.data_mem_unit {
      store_mode = m.store_mode;
      write_enable = m.mem_we;
      address = m.alu_res;
      write_data = m.write_data;
    }

    either :
        (used : Bool)
        → (if used
            then on_member (data_mem_tick d) (λ d'. record p { data_mem_unit = d' })
            else done p)
          ≡ done q
        → IsSameBut p q
    either true e = on_member-IsSameBut p q (data_mem_tick d) e
    either false e = let same : p ≡ q = cc in subst (IsSameBut p) same refl

pass_to_write_back-Passes : (p q : Pipeline) → pass_to_write_back p ≡ done q → Passes p q
unfolding pass_to_write_back multiplexer2
pass_to_write_back-Passes p q e = elim (Result-cases (data_mem_get p.data_mem_unit)) [
  | inl (v, w) ↦ record {
    bp_mem = ground (arith, w, e);
    result = λ r. ground (arith, w, e, r);
    write_back = ground (arith, w, e);
    execute = ground (arith, w, e);
    rs1 = ground (arith, w, e);
    rs2 = ground (arith, w, e);
  }
  | inr (x, w) ↦ absurd (ground (arith, w, e))
]

pub do_memory-Passes : (p q : Pipeline) → do_memory p ≡ done q → Passes p q
unfolding do_memory
do_memory-Passes p q e =
    let (s, accessed, passed) = >>=-eq-done (access_memory p) pass_to_write_back e in
    let h = pass_to_write_back-Passes s q passed in
    let same = access_memory-IsSameBut p s accessed in
    record {
      bp_mem = h.bp_mem ∙ ap (λ (t : Pipeline). t.memory_register.current.alu_res) same;
      result = λ r.
          h.result (ap (λ (t : Pipeline). t.memory_register.current.mem_to_reg) same ∙ r)
          ∙ ap (λ (t : Pipeline). t.memory_register.current.alu_res) same;
      write_back = h.write_back ∙ ap (λ (t : Pipeline). t.write_back_register.current) same;
      execute = h.execute ∙ ap (λ (t : Pipeline). t.execute_register.current) same;
      rs1 = h.rs1 ∙ ap (λ (t : Pipeline). t.hu_rs1) same;
      rs2 = h.rs2 ∙ ap (λ (t : Pipeline). t.hu_rs2) same;
    }
